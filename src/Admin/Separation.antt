-- ===== src/Admin/Separation.antt =====
-- How the user's session and the administrator's meet in one localStorage.
use secure_vault.Admin.{
  get_admin_user, admin_is_logged_in, set_admin_user, Browser, admin_user_key, AdminUser, get_item,
  admin_logged_in_key,
}
use secure_vault.Auth.{clear_auth_state}
use secure_vault.Auth.Clearing.{get_item-clear_auth_state}
use secure_vault.Prelude.{String, true, false, none, some, ◌≡◌, ◌≢◌, arith, ◌↔◌, eq_iff, ◌∙◌}
use secure_vault.Session.Data.{done, admin_doc, ◌>>◌, User, after}
use secure_vault.Session.Keys.{user_key, user_suffix, current_user_id_key, user_registry_key}
use secure_vault.Session.Keys.Laws.{user_key-injective, user_key-ne_key}
use secure_vault.Session.Users.{save_user}
use secure_vault.Session.Valid.{IsValid}
use secure_vault.Session.Valid.Save.{saved, saved-slot, save_user_lem}
use secure_vault.Storage.Laws.{get_item-set_item_self, eq_false}

-- In a browser, `getAdminUser` after `setAdminUser(admin)` gives that administrator.
pub get_admin_user-set_admin_user :
    (a : AdminUser) (b : Browser)
    → b.window ≡ true
    → (set_admin_user a >> get_admin_user) b ≡ done (some a) (after (set_admin_user a b))
unfolding get_admin_user set_admin_user
get_admin_user-set_admin_user a b w =
    ground (arith, get_item-set_item_self admin_user_key (admin_doc a) b.local)

-- A user's key is the administrator's exactly for the id "admin".
pub user_key-admin_iff : (id : String) → (user_key id user_suffix ≡ admin_user_key) ↔ (id ≡ "admin")
unfolding user_key
user_key-admin_iff id = (user_key-injective id "admin" user_suffix, λ e. rw e)

-- In a valid browser, `saveUser(user)` leaves the administrator's two items alone if the user's id is not "admin".
pub save_user_keeps_admin :
    (u : User) (b : Browser)
    → IsValid b
    → u.id ≢ "admin"
    → (get_item admin_user_key (after (save_user u b)).local ≡ get_item admin_user_key b.local)
      × (admin_is_logged_in (after (save_user u b)) ≡ admin_is_logged_in b)
unfolding admin_is_logged_in
save_user_keeps_admin u b v h = rw (save_user_lem u b v) (user_kept, ground (arith, flag_kept))
  where
    user_kept : get_item admin_user_key (saved u b).local ≡ get_item admin_user_key b.local
    user_kept =
        saved-slot u b admin_user_key (ground (arith, eq_iff current_user_id_key admin_user_key))
          (ground (arith, eq_iff user_registry_key admin_user_key))
        ∙ rw (
            eq_false (user_key u.id user_suffix) admin_user_key
              (λ e. h ((user_key-admin_iff u.id).0 e)))

    flag_kept :
        get_item admin_logged_in_key (saved u b).local ≡ get_item admin_logged_in_key b.local
    flag_kept =
        saved-slot u b admin_logged_in_key
          (ground (arith, eq_iff current_user_id_key admin_logged_in_key))
          (ground (arith, eq_iff user_registry_key admin_logged_in_key))
        ∙ rw (
            eq_false (user_key u.id user_suffix) admin_logged_in_key
              (user_key-ne_key u.id admin_logged_in_key (omega arith)))

-- In a browser, `clearAuthState()` ends the administrator's session too.
pub clear_auth_state-admin :
    (b : Browser)
    → b.window ≡ true
    → (admin_is_logged_in (clear_auth_state b) ≡ false)
      × (get_admin_user (clear_auth_state b) ≡ done none (clear_auth_state b))
unfolding admin_is_logged_in get_admin_user
clear_auth_state-admin b w = (
  ground (arith, (get_item-clear_auth_state admin_logged_in_key b w).0),
  ground (arith, (get_item-clear_auth_state admin_user_key b w).0),
)
