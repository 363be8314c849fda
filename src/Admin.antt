-- ===== src/Admin.antt =====
-- lib/admin-store.ts: the administrator's session, in the same localStorage.
pub mod Separation
use secure_vault.Prelude.{String, Bool, true, false, Option, none, some, if◌then◌else◌, is_empty}
use secure_vault.Session.Data.{
  AdminUser, Browser, Action, Outcome, done, threw, Item, text, admin_doc, ◌>>◌, return,
}
use secure_vault.Session.Keys.{admin_logged_in_key, admin_user_key}
use secure_vault.Session.Login.{bool_text}
use secure_vault.Session.Users.{put_local, drop_local, as_text, is_true_text}
use secure_vault.Storage.{get_item, remove_item}

-- `adminIsLoggedIn()`
unfoldable pub admin_is_logged_in : Browser → Bool
admin_is_logged_in b =
    if b.window then is_true_text (as_text (get_item admin_logged_in_key b.local)) else false

-- `setAdminLoggedIn(value)`
unfoldable pub set_admin_logged_in : Bool → Action (Unit {0})
unfolding put_local drop_local bool_text
set_admin_logged_in true = put_local admin_logged_in_key (text (bool_text true))
set_admin_logged_in false = do
  put_local admin_logged_in_key (text (bool_text false))
  drop_local admin_user_key

abbrev pub parse_admin : Option Item → Browser → Outcome (Option AdminUser)
parse_admin none b = done none b
parse_admin (some (admin_doc a)) b = done (some a) b
parse_admin (some (text s)) b = if is_empty s then done none b else threw b
parse_admin _ b = threw b

-- `getAdminUser()`
unfoldable pub get_admin_user : Action (Option AdminUser)
get_admin_user b = if b.window then parse_admin (get_item admin_user_key b.local) b else done none b

-- `setAdminUser(admin)`
unfoldable pub set_admin_user : AdminUser → Action (Unit {0})
unfolding put_local
set_admin_user admin = put_local admin_user_key (admin_doc admin)

-- `clearAdminSession()`
unfoldable pub clear_admin_session : Action (Unit {0})
unfolding drop_local
clear_admin_session = do drop_local admin_logged_in_key; drop_local admin_user_key
