-- ===== src/Examples/Admins.antt =====
-- Examples for the accounts of the administrators.
use secure_vault.AdminAccounts.{
  AdminForm, accounts_of, disable_admin, update_admin, create_admin, delete_admin,
  toggle_admin_status, handle_update, handle_create, handle_delete, toggle_reply, update_reply,
  create_reply,
}
use secure_vault.AdminAccounts.Events.{
  AccountEvent, open_create, fill_form, submit_create, created, modify_access, choose_role,
  submit_update, updated, switch_status, switched, ask_delete, confirm_delete, account_step,
  account_requests, choose_role_of,
}
use secure_vault.AdminAccounts.OwnAccount.{Spares, OwnAccess}
use secure_vault.AdminAccounts.OwnAccount.Runs.{account_requests-Spare}
use secure_vault.Examples.{helper}
use secure_vault.Prelude.{true, none, some, List, [], ◌∷◌, ◌≡◌, refl, All}
use secure_vault.Replies.{agreed}
use secure_vault.Session.Data.{AdminUser, super_admin, support_admin, active}

abbrev chief : AdminUser
chief = record {
  id = "a0";
  full_name = "Mira Das";
  email = "mira@vault.io";
  role = super_admin;
  status = active;
  last_login = none;
  created_at = "2024-01-01T00:00:00.000Z";
}

abbrev new_account : AdminForm
new_account = record {
  full_name = "Ira Sen";
  email = "ira@vault.io";
  password = "secret-123";
  role = support_admin;
}

abbrev shift : List AccountEvent
shift =
    modify_access chief
    ∷ choose_role support_admin
    ∷ submit_update
    ∷ updated (agreed tt)
    ∷ switch_status chief
    ∷ switch_status helper
    ∷ switched true (agreed tt)
    ∷ open_create
    ∷ fill_form new_account
    ∷ submit_create
    ∷ created (agreed tt)
    ∷ ask_delete chief
    ∷ confirm_delete
    ∷ ask_delete helper
    ∷ confirm_delete
    ∷ []

shift_requests :
    account_requests shift (accounts_of (some chief))
    ≡ update_admin "a0" "Mira Das" super_admin active
      ∷ disable_admin "a1"
      ∷ create_admin new_account
      ∷ delete_admin "a1"
      ∷ []
unfolding account_requests account_step choose_role_of handle_update update_reply
    toggle_admin_status toggle_reply handle_create create_reply handle_delete
shift_requests = refl

helper_row : OwnAccess chief super_admin active helper
helper_row e = cc

account_requests-Spare_example :
    All (Spares chief super_admin active) (account_requests shift (accounts_of (some chief)))
account_requests-Spare_example = account_requests-Spare chief super_admin active shift (
  (λ e. (refl, refl)),
  (
    tt,
    (
      tt,
      (
        tt,
        (
          tt,
          (tt, (tt, (tt, (tt, (tt, (tt, ((λ e. (refl, refl)), (tt, (helper_row, (tt, tt)))))))))),
        ),
      ),
    ),
  ),
)
