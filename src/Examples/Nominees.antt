-- ===== src/Examples/Nominees.antt =====
-- Examples for the nominees' page.
use secure_vault.Nominees.{Nominee, first_page, handle_open_edit_modal, trimmed}
use secure_vault.Nominees.Events.{
  NomineesEvent, Payload, enrolled, withdrawn, allocated, accepted, open_edit, save, save_answered,
  open_allocations, edit_allocations, save_allocations, ask_revoke, confirm_revoke,
  nominees_requests, nominees_step, handle_save_nominee, save_payload, save_reply,
  handle_save_allocations, handle_revoke_nominee,
}
use secure_vault.Nominees.Requests.{SentFits, RowFits, nominees_requests-Fit}
use secure_vault.Allocations.{
  toggle, new_allocation, edit, toggle_asset_allocation, handle_open_allocations,
  allocations_request, is_allocated,
}
use secure_vault.Prelude.{String, some, none, List, [], ◌∷◌, ◌≡◌, refl, All, trim}

abbrev heir : Nominee
heir = record {
  id = "n1";
  name = "Eleanor Vance";
  email = "eleanor@family.org";
  relationship = "Child";
  phone = none;
  tier = "PRIMARY";
  invitation_token = none;
  asset_allocations = some (new_allocation "a1" ∷ []);
  notes = some " ";
}

abbrev afternoon : List NomineesEvent
afternoon =
    open_edit heir
    ∷ save
    ∷ save_answered accepted
    ∷ open_allocations heir
    ∷ edit_allocations (toggle "a2")
    ∷ save_allocations
    ∷ ask_revoke heir
    ∷ confirm_revoke
    ∷ []

abbrev heir_payload : Payload
heir_payload = record {
  id = some "n1";
  name = "Eleanor Vance";
  email = "eleanor@family.org";
  relationship = "Child";
  phone = none;
  tier = "PRIMARY";
  notes = none;
}

afternoon_requests :
    nominees_requests afternoon first_page
    ≡ enrolled heir_payload
      ∷ allocated "/v1/nominees/n1/allocations" (new_allocation "a1" ∷ new_allocation "a2" ∷ [])
      ∷ withdrawn "n1"
      ∷ []
unfolding nominees_requests nominees_step handle_open_edit_modal handle_save_nominee save_payload
    trimmed trim save_reply handle_open_allocations edit toggle_asset_allocation
    handle_save_allocations allocations_request handle_revoke_nominee
afternoon_requests = refl

-- The id of the one row.
abbrev IsHeir : String → Type 0
IsHeir i = i ≡ "n1"

heir_fits : RowFits IsHeir heir
unfolding is_allocated
heir_fits = record { known = refl; distinct = (refl, tt) }

nominees_requests-Fit_example : All (SentFits IsHeir) (nominees_requests afternoon first_page)
nominees_requests-Fit_example =
    nominees_requests-Fit IsHeir afternoon
      (heir_fits, (tt, (tt, (heir_fits, (tt, (tt, (heir_fits, (tt, tt))))))))
