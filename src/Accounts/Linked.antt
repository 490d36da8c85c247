-- ===== src/Accounts/Linked.antt =====
-- What a sign-in with Google leaves of the table of users.
use pickwise_v2_backend.Prelude.{◌≡◌, refl, sym, String, Bool, true, false, Option, none, some, any}
use pickwise_v2_backend.Accounts.Users.{User, find, has_id, has_email, has_sub}
use pickwise_v2_backend.Accounts.Rows.{any-find-none}
use pickwise_v2_backend.Accounts.Tokens.{Security, non_empty}
use pickwise_v2_backend.Accounts.Routes.{Site, Setting, Moment, RouteError, status_error}
use pickwise_v2_backend.Accounts.Google.{
  Claims, Naming, google_account, generate_unique_username, first_visit, link_active, link_or_visit,
  return_active, google_row, google_email, google_claims, google_login,
}
use pickwise_v2_backend.Accounts.Names.{IsNaming, generate_unique_username-new}
use pickwise_v2_backend.Accounts.Consistent.{IsConsistent, add-IsConsistent, linked-IsConsistent}

module _ (sec : Security) (set : Setting) (naming : Naming) (good : IsNaming naming) where
  link_active-IsConsistent :
      (now : Moment) (o : Option RouteError) (u : User) (sub : String) (s : Site)
      → find (has_sub sub) s.users ≡ none
      → IsConsistent s.users
      → IsConsistent (link_active sec set naming now o u sub s).0.users
  unfolding link_active
  link_active-IsConsistent now (some e) u sub s unlinked c = c
  link_active-IsConsistent now none u sub s unlinked c =
      linked-IsConsistent u.id sub s.users (any-find-none (has_sub sub) s.users unlinked) c

  return_active-IsConsistent :
      (now : Moment) (o : Option RouteError) (u : User) (s : Site)
      → IsConsistent s.users
      → IsConsistent (return_active sec set naming now o u s).0.users
  unfolding return_active
  return_active-IsConsistent now (some e) u s c = c
  return_active-IsConsistent now none u s c = c

  link_or_visit-IsConsistent :
      (now : Moment) (id : String) (o : Option User) (email sub : String) (s : Site)
      → o ≡ find (has_email email) s.users
      → find (has_sub sub) s.users ≡ none
      → any (has_id id) s.users ≡ false
      → IsConsistent s.users
      → IsConsistent (link_or_visit sec set naming now id o email sub s).0.users
  unfolding link_or_visit first_visit
  link_or_visit-IsConsistent now id none email sub s at unlinked new c =
      add-IsConsistent (google_account id (generate_unique_username naming s.users email) email sub)
        s.users
        (record {
          new_id = new;
          new_name = generate_unique_username-new naming good s.users email;
          new_email = any-find-none (has_email email) s.users (sym at);
          new_sub = any-find-none (has_sub sub) s.users unlinked;
          new_way = refl;
        })
        c
  link_or_visit-IsConsistent now id (some u) email sub s at unlinked new c =
      link_active-IsConsistent now (status_error u.status) u sub s unlinked c

  google_row-IsConsistent :
      (now : Moment) (id : String) (o : Option User) (email sub : String) (s : Site)
      → o ≡ find (has_sub sub) s.users
      → any (has_id id) s.users ≡ false
      → IsConsistent s.users
      → IsConsistent (google_row sec set naming now id o email sub s).0.users
  unfolding google_row
  google_row-IsConsistent now id none email sub s at new c =
      link_or_visit-IsConsistent now id (find (has_email email) s.users) email sub s refl (sym at)
        new c
  google_row-IsConsistent now id (some u) email sub s at new c =
      return_active-IsConsistent now (status_error u.status) u s c

  google_email-IsConsistent :
      (now : Moment) (id : String) (o : Option String) (is_real : Bool) (sub : String) (s : Site)
      → any (has_id id) s.users ≡ false
      → IsConsistent s.users
      → IsConsistent (google_email sec set naming now id o is_real sub s).0.users
  unfolding google_email
  google_email-IsConsistent now id none is_real sub s new c = c
  google_email-IsConsistent now id (some email) false sub s new c = c
  google_email-IsConsistent now id (some email) true sub s new c =
      google_row-IsConsistent now id (find (has_sub sub) s.users) email sub s refl new c

  pub google_login-IsConsistent :
      (is_configured : Bool) (now : Moment) (id : String) (claims : Option Claims) (s : Site)
      → any (has_id id) s.users ≡ false
      → IsConsistent s.users
      → IsConsistent (google_login sec set naming is_configured now id claims s).0.users
  unfolding google_login google_claims
  google_login-IsConsistent false now id claims s new c = c
  google_login-IsConsistent true now id none s new c = c
  google_login-IsConsistent true now id (some k) s new c =
      google_email-IsConsistent now id (non_empty k.email) k.email_verified k.sub s new c
