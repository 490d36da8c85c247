-- ===== src/Accounts/Admins.antt =====
-- The lockout guards of app/users/admin_router.py, and the two routes that apply them. Listing and
-- reading change nothing and are left out.
use pickwise_v2_backend.Prelude.{
  ℕ, Bool, true, not, ◌&&◌, Option, none, some, List, str_eq, leb, length, keep, if◌then◌else◌,
  String,
}
use pickwise_v2_backend.Accounts.Users.{User, Status, Role, find, update, has_id}
use pickwise_v2_backend.Accounts.Tokens.{is_active, is_admin}

pub data AdminError : Type 0 where
  user_not_found self_demotion last_admin : AdminError

-- `_is_active_admin`.
abbrev pub is_active_admin : User → Bool
is_active_admin u = is_admin u.role && is_active u.status

unfoldable pub count_active_admins : List User → ℕ
count_active_admins users = length (keep is_active_admin users)

unfoldable pub assert_not_self_lockout : User → User → Bool → Option AdminError
assert_not_self_lockout target current is_demotion =
    if str_eq target.id current.id && is_demotion then some self_demotion else none

unfoldable pub assert_not_last_admin : List User → User → Option AdminError
unfolding count_active_admins
assert_not_last_admin users target =
    if is_active_admin target && leb (count_active_admins users) 1 then some last_admin else none

-- The second check runs where the first one passes.
abbrev pub then_check : Option AdminError → Option AdminError → Option AdminError
then_check (some e) second = some e
then_check none second = second

-- The guards before a change that takes something away.
unfoldable pub assert_kept : List User → User → User → Bool → Option AdminError
unfolding assert_not_self_lockout assert_not_last_admin
assert_kept users target current takes_away =
    if takes_away
    then then_check (assert_not_self_lockout target current true)
        (assert_not_last_admin users target)
    else none

-- `assert_can_delete_user`, which no route calls yet.
unfoldable pub assert_can_delete_user : List User → User → User → Option AdminError
unfolding assert_not_self_lockout assert_not_last_admin
assert_can_delete_user users target current =
    then_check (assert_not_self_lockout target current true) (assert_not_last_admin users target)

abbrev pub with_role : Role → User → User
with_role role u = record u { role = role }

abbrev pub with_status : Status → User → User
with_status status u = record u { status = status }

abbrev pub is_demotion : User → Role → Bool
is_demotion u role = is_admin u.role && not (is_admin role)

abbrev pub is_deactivation : User → Status → Bool
is_deactivation u status = is_active u.status && not (is_active status)

-- The write, where the guards pass.
unfoldable pub write_row :
    Option AdminError → String → (User → User) → List User → List User × Option AdminError
write_row (some e) id change users = (users, some e)
write_row none id change users = (update id change users, none)

unfoldable pub role_row : Option User → User → Role → List User → List User × Option AdminError
unfolding assert_kept write_row
role_row none current role users = (users, some user_not_found)
role_row (some u) current role users =
    write_row (assert_kept users u current (is_demotion u role)) u.id (with_role role) users

-- `update_user_role`.
unfoldable pub update_user_role : String → Role → User → List User → List User × Option AdminError
unfolding role_row
update_user_role id role current users = role_row (find (has_id id) users) current role users

unfoldable pub status_row : Option User → User → Status → List User → List User × Option AdminError
unfolding assert_kept write_row
status_row none current status users = (users, some user_not_found)
status_row (some u) current status users =
    write_row (assert_kept users u current (is_deactivation u status)) u.id (with_status status)
      users

-- `update_user_status`.
unfoldable pub update_user_status :
    String → Status → User → List User → List User × Option AdminError
unfolding status_row
update_user_status id status current users =
    status_row (find (has_id id) users) current status users
