-- ===== src/Session/Keys.antt =====
-- The storage keys of lib/store.ts and lib/admin-store.ts.
pub mod Laws
use Prim.Native.String.{String}
use secure_vault.Prelude.{◌&◌}

abbrev pub current_user_id_key : String
current_user_id_key = "sv_current_user_id"

abbrev pub is_logged_in_key : String
is_logged_in_key = "sv_logged_in"

abbrev pub user_registry_key : String
user_registry_key = "sv_user_registry"

abbrev pub inactivity_key : String
inactivity_key = "sv_inactivity_data"

abbrev pub pin_session_key : String
pin_session_key = "sv_pin_verified_time"

abbrev pub admin_logged_in_key : String
admin_logged_in_key = "sv_admin_logged_in"

abbrev pub admin_user_key : String
admin_user_key = "sv_admin_user"

-- `userKey(userId, suffix)`
unfoldable pub user_key : String → String → String
user_key user_id suffix = "sv_" & user_id & "_" & suffix

abbrev pub user_suffix : String
user_suffix = "user"

abbrev pub logout_suffix : String
logout_suffix = "logoutTime"
