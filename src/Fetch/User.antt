-- ===== src/Fetch/User.antt =====
-- The two users of the refresh: `secureFetch` of lib/api.ts ends the vault user's login,
-- `secureAdminFetch` of lib/admin-api.ts the admin's.
use secure_vault.Admin.{set_admin_logged_in}
use secure_vault.Fetch.{Client, Event, step, false}
use secure_vault.Prelude.{String, Bool, ◌||◌, includes, ℕ}
use secure_vault.Session.Data.{Browser, after}
use secure_vault.Session.Login.{set_logged_in}
pub mod Expiry

unfoldable pub is_auth_endpoint : String → Bool
is_auth_endpoint endpoint =
    includes endpoint "/auth/login"
    || includes endpoint "/auth/signup"
    || includes endpoint "/auth/google-auth"
    || includes endpoint "/auth/refresh-token"

unfoldable pub is_admin_auth_endpoint : String → Bool
is_admin_auth_endpoint endpoint =
    includes endpoint "/auth/login" || includes endpoint "/auth/refresh"

-- `setLoggedIn(false)` at the time `now`.
unfoldable pub expire_user : ℕ → Browser → Browser
expire_user now b = after (set_logged_in false now b)

unfoldable pub expire_admin : Browser → Browser
expire_admin b = after (set_admin_logged_in false b)

unfoldable pub user_step : ℕ → Event → Client Browser → Client Browser
unfolding is_auth_endpoint expire_user step
user_step now e s = step is_auth_endpoint (expire_user now) e s

unfoldable pub admin_step : Event → Client Browser → Client Browser
unfolding is_admin_auth_endpoint expire_admin step
admin_step e s = step is_admin_auth_endpoint expire_admin e s
