-- ===== src/AdminShell/Menu.antt =====
-- The menu, the polling and the logout of components/admin/admin-shell.tsx.
use secure_vault.AdminShell.{
  may_see, admin_nav_items, AdminNavItem, mount_shell, handle_logout, to_login,
}
use secure_vault.Admin.{admin_is_logged_in, set_admin_logged_in}
use secure_vault.Session.Data.{Browser, done, text, after, Role, super_admin}
use secure_vault.Storage.{get_item, set_item, remove_item}
use secure_vault.Storage.Laws.{get_item-set_item_self, get_item-remove_item}
use secure_vault.Session.Keys.{admin_logged_in_key, admin_user_key}
use secure_vault.Prelude.{String, true, some, List, ◌≡◌, refl, All, map}
use secure_vault.Session.Users.{put_local, drop_local}

abbrev pub hrefs : List AdminNavItem → List String
hrefs items = map (λ (item : AdminNavItem). item.href) items

-- Every entry that some role is shown is shown to the super administrator.
pub may_see-super_admin :
    (r : Role)
    → All
        (λ (item : AdminNavItem). may_see r item.role ≡ true → may_see super_admin item.role ≡ true)
        admin_nav_items
unfolding may_see admin_nav_items
may_see-super_admin r = (
  λ h. refl,
  (
    λ h. refl,
    (
      λ h. refl,
      (λ h. refl, (λ h. refl, (λ h. refl, (λ h. refl, (λ h. refl, (λ h. refl, (λ h. refl, tt))))))),
    ),
  ),
)

-- The flag after a logout.
flag_cleared :
    (b : Browser)
    → get_item admin_logged_in_key
        (remove_item admin_user_key (set_item admin_logged_in_key (text "false") b.local))
      ≡ some (text "false")
flag_cleared b =
    rw
      (get_item-remove_item admin_user_key admin_logged_in_key
        (set_item admin_logged_in_key (text "false") b.local))
      (get_item-set_item_self admin_logged_in_key (text "false") b.local)

-- After a logout, whatever became of its request, mounting a page of the administrator's goes to the login.
pub mount_shell-handle_logout :
    (b : Browser)
    → b.window ≡ true
    → mount_shell (after (handle_logout b)) ≡ done to_login (after (handle_logout b))
unfolding mount_shell handle_logout admin_is_logged_in set_admin_logged_in put_local drop_local
mount_shell-handle_logout b w = rw (w, flag_cleared b) refl
