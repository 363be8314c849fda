-- ===== src/AdminShell.antt =====
-- The frame of the administrator's pages, components/admin/admin-shell.tsx: who sees which entry of the menu,
-- the guard when it is mounted, the polling for requests, and the logout.
pub mod Menu
use secure_vault.Admin.{admin_is_logged_in, get_admin_user, set_admin_logged_in}
use secure_vault.Prelude.{
  ℕ, String, Bool, true, false, Option, none, some, List, if◌then◌else◌, nat_eq, ◌∷◌, ltb, keep,
  any, ◌&&◌, [], not, ◌==◌,
}
use secure_vault.Session.Data.{
  AdminUser, Browser, Action, Outcome, done, threw, Role, super_admin, verification_admin,
  security_admin, support_admin,
}

-- `role?: string | string[]`
pub data ItemRole : Type 0 where
  everyone : ItemRole
  only : Role → ItemRole
  one_of : List Role → ItemRole

pub record AdminNavItem : Type 0 where
  pub href : String
  pub label : String
  pub role : ItemRole
  pub is_payment : Bool

abbrev pub nav_item : String → String → ItemRole → AdminNavItem
nav_item href label role = record { href = href; label = label; role = role; is_payment = false }

unfoldable pub admin_nav_items : List AdminNavItem
admin_nav_items =
    nav_item "/admin/dashboard" "Dashboard" everyone
    ∷ nav_item "/admin/verifications" "Verifications"
        (one_of (verification_admin ∷ super_admin ∷ []))
    ∷ nav_item "/admin/security" "Security & Audit" (one_of (security_admin ∷ super_admin ∷ []))
    ∷ nav_item "/admin/support" "Support Desk" (one_of (support_admin ∷ super_admin ∷ []))
    ∷ record (nav_item "/admin/support/payments" "Subscription UPI"
        (one_of (support_admin ∷ super_admin ∷ []))) { is_payment = true }
    ∷ nav_item "/admin/admins" "Admins (RBAC)" (only super_admin)
    ∷ nav_item "/admin/users" "Users Registry" (only super_admin)
    ∷ nav_item "/admin/analytics" "Analytics" (only super_admin)
    ∷ nav_item "/admin/settings" "Settings" everyone
    ∷ nav_item "/admin/profile" "Profile" everyone
    ∷ []

abbrev pub same_role : Role → Role → Bool
same_role super_admin super_admin = true
same_role verification_admin verification_admin = true
same_role security_admin security_admin = true
same_role support_admin support_admin = true
same_role _ _ = false

-- The test of the role in front of each entry.
unfoldable pub may_see : Role → ItemRole → Bool
may_see r everyone = true
may_see r (only s) = same_role s r
may_see r (one_of rs) = any (λ s. same_role s r) rs

-- The entries that are shown to a role.
unfoldable pub shown_items : Role → List AdminNavItem
unfolding may_see admin_nav_items
shown_items r = keep (λ (item : AdminNavItem). may_see r item.role) admin_nav_items

pub record Notifications : Type 0 where
  pub total_pending : ℕ
  pub pending_payments_count : ℕ
  pub pending_verifications_count : ℕ

pub record Polling : Type 0 where
  pub notifications_data : Notifications
  pub prev_pending_count : ℕ

abbrev pub nothing_pending : Notifications
nothing_pending = record {
  total_pending = 0;
  pending_payments_count = 0;
  pending_verifications_count = 0;
}

-- `fetchNotifications`: what an ok reply brings, or none; with whether the toast appears.
unfoldable pub fetch_notifications : Option Notifications → Polling → Polling × Bool
fetch_notifications none p = (p, false)
fetch_notifications (some n) p = (
  record { notifications_data = n; prev_pending_count = n.total_pending },
  ltb p.prev_pending_count n.total_pending
      && not (p.prev_pending_count == 0)
      && ltb 0 n.pending_payments_count,
)

-- What mounting the frame does: it goes to the login, or shows the stored administrator, if there is one.
pub data Mounted : Type 0 where
  to_login : Mounted
  shows : Option AdminUser → Mounted

unfoldable pub mount_shell : Action Mounted
mount_shell b =
    if admin_is_logged_in b
    then elim (get_admin_user b) [ done a c ↦ done (shows a) c | threw c ↦ threw c ]
    else done to_login b

-- `handleLogout`, whatever becomes of its request.
unfoldable pub handle_logout : Action (Unit {0})
handle_logout b = set_admin_logged_in false b
