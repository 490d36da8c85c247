-- ===== src/Accounts.antt =====
-- Accounts and sign-in: app/users/models.py (User), app/users/auth.py, the routes of
-- app/users/router.py that decide who may sign in, and the changes of role and status of
-- app/users/admin_router.py. A key that is no row's id finds no row. The password hash, the HMAC and
-- the JWT library come in as a record of functions. A request has passed the checks of its schema.
pub mod Users
pub mod Rows
pub mod Tokens
pub mod Routes
pub mod Passwords
pub mod Google
pub mod SignIn
pub mod Links
pub mod Visits
pub mod Admins
pub mod Lockout
pub mod Consistent
pub mod Names
pub mod Kept
pub mod Linked
pub mod Reach
mod Plain
mod Examples
