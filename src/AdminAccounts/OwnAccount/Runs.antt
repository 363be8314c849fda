-- ===== src/AdminAccounts/OwnAccount/Runs.antt =====
-- The requests of app/admin/admins/page.tsx over a whole visit.
use secure_vault.AdminAccounts.{
  AccountsPage, accounts_of, handle_create, handle_update, handle_reset_password, handle_delete,
  toggle_admin_status,
}
use secure_vault.AdminAccounts.Events.{
  AccountEvent, listed, type_search, open_create, fill_form, close_create, submit_create, created,
  modify_access, type_name, choose_role, close_edit, submit_update, updated, reset_password,
  type_password, close_password, submit_password, password_set, switch_status, switched, ask_delete,
  close_delete, confirm_delete, removed, account_step, account_requests,
}
use secure_vault.AdminAccounts.OwnAccount.{
  PageFits, MoveFits, Spares, EventFits, from_menu-Fits, from_dialog-Fits, unless_self-Fits,
  closed-Deletable, Deletable,
}
use secure_vault.AdminAccounts.OwnAccount.Handlers.{
  fetch_admins-Fits, create_reply-Fits, update_reply-Fits, reset_reply-Fits, toggle_reply-Fits,
  delete_reply-Fits, handle_create-Fits, updated-Fits, deleted-Fits, password-Fits,
  choose_role-Fits, type_name-Fits, toggle-Spares,
}
use secure_vault.Prelude.{true, none, some, List, [], ◌∷◌, refl, subst, list_of, All, All-append}
use secure_vault.Session.Data.{AdminUser, Role, AdminStatus}

module _ (me : AdminUser) (r : Role) (st : AdminStatus) where
  step-Fits :
      (e : AccountEvent) (p : AccountsPage)
      → EventFits me r st e
      → PageFits me r st p
      → MoveFits me r st (account_step e p)
  unfolding account_step handle_update handle_delete handle_reset_password
  step-Fits (listed reply) p k h = (fetch_admins-Fits me r st reply p h, tt)
  step-Fits (type_search text) p k h = (h, tt)
  step-Fits open_create p k h = from_menu-Fits me r st _ p h (λ c. (h, tt))
  step-Fits (fill_form f) p k h = (h, tt)
  step-Fits close_create p k h = (h, tt)
  step-Fits submit_create p k h =
      from_dialog-Fits me r st p.create_open (handle_create p) p h
        (λ b. handle_create-Fits me r st p h)
  step-Fits (created reply) p k h = (create_reply-Fits me r st reply p h, tt)
  step-Fits (modify_access a) p k h =
      from_menu-Fits me r st (record p { selected_admin = some a; edit_open = true }, none) p h
        (λ c. ((h.0, (k, closed-Deletable me r st p (some a) c)), tt))
  step-Fits (type_name text) p k h = (type_name-Fits me r st text p.selected_admin p refl h, tt)
  step-Fits (choose_role x) p k h = (choose_role-Fits me r st x p.selected_admin p refl h, tt)
  step-Fits close_edit p k h = (h, tt)
  step-Fits submit_update p k h =
      from_dialog-Fits me r st p.edit_open (handle_update p) p h
        (λ b. updated-Fits me r st p p.selected_admin h (h.1.0))
  step-Fits (updated reply) p k h = (update_reply-Fits me r st reply p h, tt)
  step-Fits (reset_password a) p k h =
      from_menu-Fits me r st (record p { selected_admin = some a; password_open = true }, none) p h
        (λ c. ((h.0, (k, closed-Deletable me r st p (some a) c)), tt))
  step-Fits (type_password text) p k h = (h, tt)
  step-Fits close_password p k h = (h, tt)
  step-Fits submit_password p k h =
      from_dialog-Fits me r st p.password_open (handle_reset_password p) p h
        (λ b. password-Fits me r st p p.selected_admin h)
  step-Fits (password_set reply) p k h = (reset_reply-Fits me r st reply p h, tt)
  step-Fits (switch_status a) p k h =
      unless_self-Fits me r st a (p, some (toggle_admin_status a)) p h
        (λ c n. (h, (toggle-Spares me r st a n, tt)))
  step-Fits (switched b reply) p k h = (toggle_reply-Fits me r st b reply p h, tt)
  step-Fits (ask_delete a) p k h =
      unless_self-Fits me r st a (record p { selected_admin = some a; delete_open = true }, none) p
        h (λ c n. ((h.0, (k, n)), tt))
  step-Fits close_delete p k (c, (s, d)) = ((c, (s, tt)), tt)
  step-Fits confirm_delete p k h =
      from_dialog-Fits me r st p.delete_open (handle_delete p) p h (λ b.
        deleted-Fits me r st p p.selected_admin h
          (subst (λ x. Deletable me r st x p.selected_admin) b (h.1.1)))
  step-Fits (removed reply) p k h = (delete_reply-Fits me r st reply p h, tt)

  from-Fit :
      (es : List AccountEvent) (p : AccountsPage)
      → All (EventFits me r st) es
      → PageFits me r st p
      → All (Spares me r st) (account_requests es p)
  unfolding account_requests
  from-Fit [] p k h = tt
  from-Fit (e ∷ es) p (k, ks) h =
      let (f, sent) = step-Fits e p k h in
      All-append (Spares me r st) (list_of ((account_step e p).1))
        (account_requests es ((account_step e p).0)) sent (from-Fit es ((account_step e p).0) ks f)

  -- Whatever is clicked, typed and answered, in any order, if the rows of the administrator's own account have the
  -- role `r` and the status `st`, then no request deletes, disables or enables this account, and each update of it
  -- sends the role `r` and the status `st`; and every account that is created has a name, an address and, like
  -- every password that is reset, eight characters or more.
  pub account_requests-Spare :
      (es : List AccountEvent)
      → All (EventFits me r st) es
      → All (Spares me r st) (account_requests es (accounts_of (some me)))
  account_requests-Spare es k = from-Fit es (accounts_of (some me)) k (refl, (tt, tt))
