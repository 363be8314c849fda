-- ===== src/AdminAccounts/Events.antt =====
-- What happens on app/admin/admins/page.tsx: the clicks in the row menus and the dialogs, and the replies. A page
-- that is loading shows none of its buttons; here they can be clicked even then.
use secure_vault.AdminAccounts.{
  AccountsPage, AdminForm, AdminRequest, Move, fetch_admins, handle_create, create_reply,
  handle_update, update_reply, handle_reset_password, reset_reply, handle_delete, delete_reply,
  toggle_admin_status, toggle_reply, is_self,
}
use secure_vault.Prelude.{
  String, Bool, true, false, Option, none, some, List, [], ◌∷◌, ◌++◌, ◌||◌, ◌&&◌, if◌then◌else◌,
  not, list_of,
}
use secure_vault.Replies.{Reply}
use secure_vault.Session.Data.{AdminUser, Role}

pub data AccountEvent : Type 0 where
  listed : Reply (List AdminUser) → AccountEvent
  type_search : String → AccountEvent
  open_create : AccountEvent
  fill_form : AdminForm → AccountEvent
  close_create : AccountEvent
  submit_create : AccountEvent
  created : Reply Unit → AccountEvent
  modify_access : AdminUser → AccountEvent
  type_name : String → AccountEvent
  choose_role : Role → AccountEvent
  close_edit : AccountEvent
  submit_update : AccountEvent
  updated : Reply Unit → AccountEvent
  reset_password : AdminUser → AccountEvent
  type_password : String → AccountEvent
  close_password : AccountEvent
  submit_password : AccountEvent
  password_set : Reply Unit → AccountEvent
  switch_status : AdminUser → AccountEvent
  switched : Bool → Reply Unit → AccountEvent
  ask_delete : AdminUser → AccountEvent
  close_delete : AccountEvent
  confirm_delete : AccountEvent
  removed : Reply Unit → AccountEvent

-- Some dialog is open, and covers the rows.
abbrev pub covered : AccountsPage → Bool
covered p = p.create_open || p.edit_open || p.password_open || p.delete_open

-- A click in the menu of a row.
abbrev pub from_menu : Move → AccountsPage → Move
from_menu m p = if covered p then (p, none) else m

-- A click on the button of a dialog, which is disabled while a request is on its way.
abbrev pub from_dialog : Bool → Move → AccountsPage → Move
from_dialog is_open m p = if is_open && not p.submitting then m else (p, none)

-- An item of the menu that a row has unless it is the administrator's own.
abbrev pub unless_self : AdminUser → Move → AccountsPage → Move
unless_self a m p = if is_self p.current_admin_user a then (p, none) else from_menu m p

unfoldable pub choose_role_of : Role → Option AdminUser → AccountsPage → AccountsPage
choose_role_of r none p = p
choose_role_of r (some a) p =
    if is_self p.current_admin_user a
    then p
    else record p { selected_admin = some (record a { role = r }) }

unfoldable pub type_name_of : String → Option AdminUser → AccountsPage → AccountsPage
type_name_of text none p = p
type_name_of text (some a) p = record p { selected_admin = some (record a { full_name = text }) }

unfoldable pub account_step : AccountEvent → AccountsPage → Move
unfolding fetch_admins handle_create create_reply handle_update update_reply handle_reset_password
    reset_reply handle_delete delete_reply toggle_admin_status toggle_reply choose_role_of
    type_name_of
account_step (listed reply) p = (fetch_admins reply p, none)
account_step (type_search text) p = (record p { search = text }, none)
account_step open_create p = from_menu (record p { create_open = true }, none) p
account_step (fill_form f) p = (record p { form_data = f }, none)
account_step close_create p = (record p { create_open = false }, none)
account_step submit_create p = from_dialog p.create_open (handle_create p) p
account_step (created reply) p = (create_reply reply p, none)
account_step (modify_access a) p =
    from_menu (record p { selected_admin = some a; edit_open = true }, none) p
account_step (type_name text) p = (type_name_of text p.selected_admin p, none)
account_step (choose_role r) p = (choose_role_of r p.selected_admin p, none)
account_step close_edit p = (record p { edit_open = false }, none)
account_step submit_update p = from_dialog p.edit_open (handle_update p) p
account_step (updated reply) p = (update_reply reply p, none)
account_step (reset_password a) p =
    from_menu (record p { selected_admin = some a; password_open = true }, none) p
account_step (type_password text) p = (record p { new_password = text }, none)
account_step close_password p = (record p { password_open = false }, none)
account_step submit_password p = from_dialog p.password_open (handle_reset_password p) p
account_step (password_set reply) p = (reset_reply reply p, none)
account_step (switch_status a) p = unless_self a (p, some (toggle_admin_status a)) p
account_step (switched is_disable reply) p = (toggle_reply is_disable reply p, none)
account_step (ask_delete a) p =
    unless_self a (record p { selected_admin = some a; delete_open = true }, none) p
account_step close_delete p = (record p { delete_open = false }, none)
account_step confirm_delete p = from_dialog p.delete_open (handle_delete p) p
account_step (removed reply) p = (delete_reply reply p, none)

unfoldable pub account_requests : List AccountEvent → AccountsPage → List AdminRequest
unfolding account_step
account_requests [] p = []
account_requests (e ∷ es) p =
    list_of ((account_step e p).1) ++ account_requests es ((account_step e p).0)
