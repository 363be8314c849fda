-- ===== src/Examples/Pages.antt =====
-- Examples for the pages and components of the frontend.
use secure_vault.Allocations.{is_allocated, AllocationItem, new_allocation}
use secure_vault.Examples.{
  visitor, visitor-IsValid, owner, seated, seated-IsValid, seated-current, String,
}
use secure_vault.Governance.{
  run, initial_board, Proposal, click_sign, click_veto, timer, Event, collecting_signatures, Board,
  executed,
}
use secure_vault.Governance.Vetoed.{row_at, vetoed_between, vetoed_then_executed}
use secure_vault.Storage.{get_item}
use secure_vault.Shell.{
  Answer, refused, accepted, handle_login, google_login_route, dashboard_logout, logged,
  handle_2fa_verify, home, handle_google, handle_step_3, goes, dashboard, open_dashboard,
}
use secure_vault.Session.Users.{is_logged_in}
use secure_vault.Governance.Quorum.{IsSound, run-IsSound}
use secure_vault.Json.{Fields, null, field, num, end}
use secure_vault.Prelude.{
  true, false, none, some, refl, ◌≡◌, ◌<◌, [], ◌∷◌, length, chars, digits_of, ◌≤◌, List, arith,
}
use secure_vault.Recovery.{
  answer_to, Wizard, pin, on_answer, asking, answered, request_at, reply, without_request, told,
}
use secure_vault.Recovery.Forward.{IsAccepted, step-forward}
use secure_vault.Session.Data.{done}
use secure_vault.Session.Keys.{pin_session_key}
use secure_vault.Session.LoginState.{entered}
use secure_vault.Session.Valid.Login.{end_pin_session}
use secure_vault.Shell.Endings.{
  logins-brings_user, left, logins_with_user, turned_away, dashboard_logout_effect,
}
use secure_vault.Table.{total_pages}
use secure_vault.Table.Pages.{first_pages, first_pages-total_pages}
use secure_vault.Recovery

board-IsSound : IsSound (initial_board 1700000000000)
board-IsSound = record {
  sound = (
    (omega arith, λ e. cc),
    ((omega arith, λ e. omega arith), ((omega arith, λ e. omega arith), tt)),
  );
  distinct = ((refl, (refl, tt)), ((refl, tt), (tt, tt)));
}

abbrev clicks : List Event
clicks = click_sign "prop_89ab12cd34" ∷ click_veto "prop_56ef78ab90" ∷ timer ∷ []

run-IsSound_example : IsSound (run clicks (initial_board 1700000000000))
run-IsSound_example = run-IsSound clicks (initial_board 1700000000000) board-IsSound

abbrev proposal : Proposal
proposal = record {
  proposal_id = "prop_1";
  vault_id = "vlt_1";
  action = "EMERGENCY_UNFREEZE";
  description = "";
  threshold_required = 3;
  total_custodians = 5;
  signed_count = 2;
  state = collecting_signatures;
  timelock_expires_at = none;
  created_at = "";
}

abbrev one_proposal : Board
one_proposal = record { proposals = proposal ∷ []; is_signing = false; due = [] }

proposal_row : row_at 0 one_proposal.proposals ≡ some proposal
unfolding row_at
proposal_row = refl

vetoed_then_executed_example :
    row_at 0 (run (vetoed_between "prop_1") one_proposal).proposals
    ≡ some (record proposal { signed_count = 3; state = executed })
vetoed_then_executed_example =
    vetoed_then_executed 0 proposal one_proposal proposal_row refl refl refl (omega arith)
      (omega arith) refl

abbrev four_digits : String
four_digits = "4821"

abbrev page_1 : Recovery.Page
page_1 = record {
  step = 1;
  email = "asha@vault.io";
  otp = "";
  new_value = "";
  confirm_value = "";
  reset_token = none;
  loading = true;
}

abbrev wizard : Wizard
wizard = record { page = page_1; requests = (asking, null) ∷ []; toasts = [] }

goes_forward :
    wizard.page.step < (Recovery.step pin (answered 0 (reply true null)) wizard).page.step
unfolding Recovery.step answer_to on_answer request_at without_request Recovery.accepted told
goes_forward = omega arith

step-forward_example : IsAccepted (answered 0 (reply true null))
step-forward_example = step-forward pin (answered 0 (reply true null)) wizard goes_forward

abbrev rows : List Fields
rows = field "id" (num 1) end ∷ field "id" (num 2) end ∷ field "id" (num 3) end ∷ []

first_pages-total_pages_example : first_pages 2 (total_pages 2 (length rows)) rows ≡ rows
first_pages-total_pages_example = first_pages-total_pages 2 rows (omega arith)

abbrev items : List AllocationItem
items = new_allocation "asset_1" ∷ []

items_distinct : is_allocated "asset_1" [] ≡ false
unfolding is_allocated
items_distinct = refl

six_digits : 6 ≤ chars (digits_of "12 34 56")
unfolding digits_of
six_digits = omega arith

dashboard_logout_effect_example :
    (dashboard_logout 9 seated
      ≡ done home (end_pin_session (left 9 10 "u1" seated seated-IsValid seated-current refl)))
    × (get_item pin_session_key
          (end_pin_session (left 9 10 "u1" seated seated-IsValid seated-current refl)).session
        ≡ none)
    × (open_dashboard 10
          (end_pin_session (left 9 10 "u1" seated seated-IsValid seated-current refl))
        ≡ done turned_away
            (end_pin_session (left 9 10 "u1" seated seated-IsValid seated-current refl)))
dashboard_logout_effect_example =
    dashboard_logout_effect 9 10 "u1" seated seated-IsValid seated-current refl

nobody_in : is_logged_in visitor ≡ false
unfolding is_logged_in get_item
nobody_in = refl

-- A refusal whose body has a user all the same.
abbrev odd_refusal : Answer
odd_refusal = refused (some "Invalid PIN") (logged owner false)

logins-brings_user_example :
    (is_logged_in ((handle_login odd_refusal 5 visitor).0) ≡ false)
    × (is_logged_in ((handle_2fa_verify odd_refusal 5 visitor).0) ≡ false)
    × (is_logged_in ((handle_google google_login_route odd_refusal 5 visitor).0) ≡ false)
    × (is_logged_in ((handle_step_3 odd_refusal 5 visitor).0) ≡ false)
logins-brings_user_example =
    logins-brings_user odd_refusal google_login_route 5 visitor visitor-IsValid nobody_in tt

logins_with_user_example :
    (handle_login (accepted (logged owner true)) 5 visitor
      ≡ (entered owner 5 visitor, goes dashboard))
    × (handle_2fa_verify (accepted (logged owner true)) 5 visitor
        ≡ (entered owner 5 visitor, goes dashboard))
    × (handle_google google_login_route (accepted (logged owner true)) 5 visitor
        ≡ (entered owner 5 visitor, goes (google_login_route owner true)))
    × (handle_step_3 (accepted (logged owner true)) 5 visitor
        ≡ (entered owner 5 visitor, goes dashboard))
logins_with_user_example =
    logins_with_user owner true google_login_route 5 visitor visitor-IsValid refl
