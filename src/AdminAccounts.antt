-- ===== src/AdminAccounts.antt =====
-- The accounts of the administrators, app/admin/admins/page.tsx: the list, its four dialogs and the row menus. A
-- dialog is modal: while one is open, no row menu can be.
pub mod Events
pub mod OwnAccount
use secure_vault.Prelude.{
  ℕ, String, Bool, true, false, Option, none, some, List, [], ◌∷◌, ◌++◌, ◌&◌, ◌==◌, ◌||◌, string_eq,
  if◌then◌else◌, is_empty, not, ltb, chars, keep, includes, to_lower_case, list_of,
}
use secure_vault.Replies.{Reply, agreed, refused, broken, error_or}
use secure_vault.Session.Data.{AdminUser, Role, AdminStatus, support_admin, active}

pub record AdminForm : Type 0 where
  pub full_name : String
  pub email : String
  pub password : String
  pub role : Role

pub record AccountsPage : Type 0 where
  pub admins : List AdminUser
  pub search : String
  pub loading : Bool
  pub current_admin_user : Option AdminUser
  pub create_open : Bool
  pub edit_open : Bool
  pub password_open : Bool
  pub delete_open : Bool
  pub form_data : AdminForm
  pub selected_admin : Option AdminUser
  pub new_password : String
  pub submitting : Bool
  pub toast : Option String

abbrev pub empty_form : AdminForm
empty_form = record { full_name = ""; email = ""; password = ""; role = support_admin }

-- The page once `getAdminUser` has been read.
abbrev pub accounts_of : Option AdminUser → AccountsPage
accounts_of user = record {
  admins = [];
  search = "";
  loading = true;
  current_admin_user = user;
  create_open = false;
  edit_open = false;
  password_open = false;
  delete_open = false;
  form_data = empty_form;
  selected_admin = none;
  new_password = "";
  submitting = false;
  toast = none;
}

abbrev pub toasted : String → AccountsPage → AccountsPage
toasted text p = record p { toast = some text }

-- `fetchAdmins`, once its reply is there.
unfoldable pub fetch_admins : Reply (List AdminUser) → AccountsPage → AccountsPage
fetch_admins (agreed admins) p = record p { admins = admins; loading = false }
fetch_admins (refused e) p =
    toasted (error_or "Failed to fetch admin accounts" e) (record p { loading = false })
fetch_admins (broken e) p =
    toasted "Network error fetching admin list" (record p { loading = false })

-- `filteredAdmins`, for a role's text
unfoldable pub filtered_admins : (Role → String) → AccountsPage → List AdminUser
unfolding to_lower_case
filtered_admins role_text p =
    keep
      (λ (a : AdminUser).
        includes (to_lower_case a.full_name) (to_lower_case p.search)
        || includes (to_lower_case a.email) (to_lower_case p.search)
        || includes (to_lower_case (role_text a.role)) (to_lower_case p.search))
      p.admins

pub data AdminRequest : Type 0 where
  create_admin : AdminForm → AdminRequest
  update_admin : String → String → Role → AdminStatus → AdminRequest
  reset_admin : String → String → AdminRequest
  delete_admin : String → AdminRequest
  disable_admin : String → AdminRequest
  enable_admin : String → AdminRequest

abbrev pub Move : Type 0
Move = AccountsPage × Option AdminRequest

-- `handleCreate` until its request.
unfoldable pub handle_create : AccountsPage → Move
handle_create p =
    if is_empty p.form_data.full_name || is_empty p.form_data.email || is_empty p.form_data.password
    then (toasted "Please fill in all fields" p, none)
    else if ltb (chars p.form_data.password) 8
    then (toasted "Password must be at least 8 characters" p, none)
    else (record p { submitting = true }, some (create_admin p.form_data))

-- A reply that is agreed to starts the loading again, which ends with its own event.
unfoldable pub create_reply : Reply Unit → AccountsPage → AccountsPage
create_reply (agreed x) p =
    toasted "Admin account created successfully"
      (record p { submitting = false; create_open = false; form_data = empty_form; loading = true })
create_reply (refused e) p =
    toasted (error_or "Failed to create admin" e) (record p { submitting = false })
create_reply (broken e) p =
    toasted "Network error during admin creation" (record p { submitting = false })

unfoldable pub handle_update : AccountsPage → Move
handle_update p = elim p.selected_admin [
  | none ↦ (p, none)
  | some a ↦ (record p { submitting = true }, some (update_admin a.id a.full_name a.role a.status))
]

unfoldable pub update_reply : Reply Unit → AccountsPage → AccountsPage
update_reply (agreed x) p =
    toasted "Admin details updated successfully"
      (record p { submitting = false; edit_open = false; loading = true })
update_reply (refused e) p =
    toasted (error_or "Failed to update admin" e) (record p { submitting = false })
update_reply (broken e) p =
    toasted "Network error updating admin details" (record p { submitting = false })

unfoldable pub handle_reset_password : AccountsPage → Move
handle_reset_password p = elim p.selected_admin [
  | none ↦ (p, none)
  | some a ↦
      if is_empty p.new_password
      then (p, none)
      else if ltb (chars p.new_password) 8
      then (toasted "Password must be at least 8 characters" p, none)
      else (record p { submitting = true }, some (reset_admin a.id p.new_password))
]

unfoldable pub reset_reply : Reply Unit → AccountsPage → AccountsPage
reset_reply (agreed x) p =
    toasted "Password reset completed successfully"
      (record p { submitting = false; password_open = false; new_password = "" })
reset_reply (refused e) p =
    toasted (error_or "Password reset failed" e) (record p { submitting = false })
reset_reply (broken e) p =
    toasted "Network error during password reset" (record p { submitting = false })

unfoldable pub handle_delete : AccountsPage → Move
handle_delete p = elim p.selected_admin [
  | none ↦ (p, none)
  | some a ↦ (record p { submitting = true }, some (delete_admin a.id))
]

unfoldable pub delete_reply : Reply Unit → AccountsPage → AccountsPage
delete_reply (agreed x) p =
    toasted "Admin account deleted permanently"
      (record p { submitting = false; delete_open = false; loading = true })
delete_reply (refused e) p =
    toasted (error_or "Failed to delete admin account" e) (record p { submitting = false })
delete_reply (broken e) p = toasted "Network error deleting admin" (record p { submitting = false })

-- `admin.status === "ACTIVE"`
abbrev pub is_active : AdminStatus → Bool
is_active active = true
is_active s = false

unfoldable pub toggle_admin_status : AdminUser → AdminRequest
toggle_admin_status a = if is_active a.status then disable_admin a.id else enable_admin a.id

unfoldable pub toggle_reply : Bool → Reply Unit → AccountsPage → AccountsPage
toggle_reply is_disable (agreed x) p =
    toasted ("Admin account " & (if is_disable then "disabled" else "enabled") & " successfully")
      (record p { loading = true })
toggle_reply is_disable (refused e) p = toasted (error_or "Operation failed" e) p
toggle_reply is_disable (broken e) p = toasted "Network error toggling admin status" p

-- `currentAdminUser?.id === admin.id`
abbrev pub is_self : Option AdminUser → AdminUser → Bool
is_self none a = false
is_self (some me) a = me.id == a.id
