-- ===== src/Accounts/Users.antt =====
-- The table of users: app/users/models.py. Its rows stand in no order that a query relies on.
use pickwise_v2_backend.Prelude.{
  String, Bool, false, ◌||◌, Option, none, some, List, [], ◌∷◌, str_eq, map, if◌then◌else◌,
}

-- Any other text than the three counts as not active on a request, and as active at a sign-in.
pub data Status : Type 0 where
  active inactive suspended other : Status

pub data Role : Type 0 where
  user admin : Role

pub record User : Type 0 where
  pub id : String
  pub username : String
  pub email : String
  pub password : Option String  -- the hash
  pub role : Role
  pub status : Status
  pub is_google : Bool  -- `auth_provider`
  pub provider_sub : Option String
  pub is_verified : Bool

-- `session.exec(select(User).where(...)).first()`.
unfoldable pub find : (User → Bool) → List User → Option User
find p [] = none
find p (u ∷ us) = if p u then some u else find p us

-- The commit of a change to one row.
unfoldable pub update : String → (User → User) → List User → List User
update id change users = map (λ u. if str_eq u.id id then change u else u) users

abbrev pub has_id : String → User → Bool
has_id id u = str_eq u.id id

abbrev pub has_email : String → User → Bool
has_email email u = str_eq u.email email

abbrev pub has_username : String → User → Bool
has_username name u = str_eq u.username name

abbrev pub is_sub : String → Option String → Bool
is_sub sub none = false
is_sub sub (some s) = str_eq s sub

abbrev pub has_sub : String → User → Bool
has_sub sub u = is_sub sub u.provider_sub

-- The condition of a sign-in by password.
abbrev pub is_named : String → User → Bool
is_named name u = str_eq u.username name || str_eq u.email name
