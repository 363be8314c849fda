-- ===== src/Nominees/Events.antt =====
-- The requests of app/dashboard/nominees/page.tsx, and its page from one event to the next.
use secure_vault.Allocations.{
  AllocationItem, Edit, handle_open_allocations, edit, allocations_request,
}
use secure_vault.Fetch.Errors.{extract_error_message}
use secure_vault.Json.{Json}
use secure_vault.Nominees.{
  Nominee, NomineeForm, NomineesPage, trimmed, handle_open_add_modal, handle_open_edit_modal,
  handle_copy_invite_link, fetch_nominees_and_matrix, Notice, success, complaint, server_text,
  platform_text,
}
use secure_vault.Prelude.{
  String, Bool, true, false, Option, none, some, List, [], ◌∷◌, ◌++◌, ◌&◌, ◌||◌, is_empty, is_some,
  list_of, trim, if◌then◌else◌,
}
use secure_vault.Replies.{Outcome}

-- The body of the form's request.
pub record Payload : Type 0 where
  pub id : Option String
  pub name : String
  pub email : String
  pub relationship : String
  pub phone : Option String
  pub tier : String
  pub notes : Option String

pub data Sent : Type 0 where
  enrolled : Payload → Sent
  invited : String → Sent
  allocated : String → List AllocationItem → Sent
  withdrawn : String → Sent
  deleted : String → Sent

-- The address of a request; `withdrawn` is the revocation.
abbrev pub address : Sent → String
address (enrolled body) = "/v1/nominees"
address (invited i) = "/v1/nominees/" & i & "/invite"
address (allocated path items) = path
address (withdrawn i) = "/v1/nominees/" & i & "/revoke"
address (deleted i) = "/v1/nominees/" & i

-- How a request ends: an ok reply, another with its body, or an exception of the platform.
pub data Answer : Type 0 where
  accepted : Answer
  denied : Json → Answer
  broken : Answer

-- The toast of the `catch`. `extractErrorMessage` may itself end in an exception.
unfoldable pub failure_notice : Json → String → Notice
unfolding extract_error_message
failure_notice body fallback = elim (extract_error_message body fallback) [
  | none ↦ platform_text
  | some text ↦ server_text text
]

unfoldable pub save_payload : NomineesPage → Payload
unfolding trim trimmed
save_payload p = record {
  id = elim p.editing_nominee [ none ↦ none | some n ↦ some n.id ];
  name = trim p.form.nominee_name;
  email = trim p.form.nominee_email;
  relationship = p.form.nominee_relationship;
  phone = trimmed p.form.nominee_phone;
  tier = p.form.nominee_tier;
  notes = trimmed p.form.nominee_notes;
}

abbrev pub Move : Type 0
Move = NomineesPage × Option Sent

-- `handleSaveNominee` until its request.
unfoldable pub handle_save_nominee : NomineesPage → Move
unfolding trim save_payload
handle_save_nominee p =
    if is_empty (trim p.form.nominee_name) || is_empty (trim p.form.nominee_email)
    then (record p { toast = some (complaint "Name and Email are required") }, none)
    else (record p { saving = some (is_some p.editing_nominee) }, some (enrolled (save_payload p)))

-- ... and after it. A reply that is accepted starts the loading again, which ends with its own event.
unfoldable pub save_reply : Bool → Answer → NomineesPage → NomineesPage
unfolding failure_notice
save_reply edit accepted p = record p {
  saving = none;
  modal_open = false;
  loading = true;
  toast =
      some (success (if edit then "Nominee updated" else "Nominee enrolled & invitation issued"));
}
save_reply edit (denied body) p = record p {
  saving = none;
  toast = some (failure_notice body "Failed to save nominee");
}
save_reply edit broken p = record p { saving = none; toast = some platform_text }

unfoldable pub invite_reply : Answer → NomineesPage → NomineesPage
unfolding failure_notice
invite_reply accepted p = record p {
  loading = true;
  toast = some (success "New invitation token generated");
}
invite_reply (denied body) p = record p {
  toast = some (failure_notice body "Failed to resend invite");
}
invite_reply broken p = record p { toast = some platform_text }

-- `handleSaveAllocations`
unfoldable pub handle_save_allocations : NomineesPage → Move
unfolding allocations_request
handle_save_allocations p = elim (allocations_request p.drawer) [
  | none ↦ (p, none)
  | some (path, items) ↦ (record p { saving_allocations = true }, some (allocated path items))
]

unfoldable pub allocations_reply : Answer → NomineesPage → NomineesPage
unfolding failure_notice
allocations_reply accepted p = record p {
  saving_allocations = false;
  drawer = record p.drawer { is_open = false };
  loading = true;
  toast = some (success "Asset allocation matrix synchronized");
}
allocations_reply (denied body) p = record p {
  saving_allocations = false;
  toast = some (failure_notice body "Failed to update allocations");
}
allocations_reply broken p = record p { saving_allocations = false; toast = some platform_text }

-- `handleRevokeNominee`; `revoking`, which nothing reads, is left out.
unfoldable pub handle_revoke_nominee : NomineesPage → Move
handle_revoke_nominee p = elim p.revoke_target [
  | none ↦ (p, none)
  | some n ↦ (p, some (withdrawn n.id))
]

unfoldable pub revoke_reply : Answer → NomineesPage → NomineesPage
unfolding failure_notice
revoke_reply accepted p = record p {
  revoke_target = none;
  loading = true;
  toast = some (success "Beneficiary entitlement revoked and unlinked from assets");
}
revoke_reply (denied body) p = record p { toast = some (failure_notice body "Revoke failed") }
revoke_reply broken p = record p { toast = some platform_text }

-- `handleDeleteNominee`, without `deleting`, which nothing reads.
unfoldable pub handle_delete_nominee : NomineesPage → Move
handle_delete_nominee p = elim p.delete_target [
  | none ↦ (p, none)
  | some n ↦ (p, some (deleted n.id))
]

unfoldable pub delete_reply : Answer → NomineesPage → NomineesPage
delete_reply accepted p = record p {
  delete_target = none;
  loading = true;
  toast = some (success "Beneficiary removed");
}
delete_reply (denied body) p = record p { toast = some (complaint "Failed to remove nominee") }
delete_reply broken p = record p { toast = some platform_text }

pub data NomineesEvent : Type 0 where
  select_tier : String → NomineesEvent
  type_query : String → NomineesEvent
  loaded :
      Outcome (Option (List Nominee))
      → Outcome Unit
      → Outcome (Option (List String))
      → NomineesEvent
  open_add : NomineesEvent
  open_edit : Nominee → NomineesEvent
  fill : NomineeForm → NomineesEvent
  close_modal : NomineesEvent
  save : NomineesEvent
  save_answered : Answer → NomineesEvent
  resend : Nominee → NomineesEvent
  invite_answered : Answer → NomineesEvent
  copy_link : String → Nominee → NomineesEvent
  open_allocations : Nominee → NomineesEvent
  edit_allocations : Edit → NomineesEvent
  close_drawer : NomineesEvent
  save_allocations : NomineesEvent
  allocations_answered : Answer → NomineesEvent
  ask_revoke : Nominee → NomineesEvent
  drop_revoke : NomineesEvent
  confirm_revoke : NomineesEvent
  revoke_answered : Answer → NomineesEvent
  drop_delete : NomineesEvent
  confirm_delete : NomineesEvent
  delete_answered : Answer → NomineesEvent

-- The buttons "Save" are disabled while their requests are on their way.
unfoldable pub nominees_step : NomineesEvent → NomineesPage → Move
unfolding handle_open_add_modal handle_open_edit_modal handle_save_nominee save_reply invite_reply
    handle_copy_invite_link handle_open_allocations edit handle_save_allocations allocations_reply
    handle_revoke_nominee revoke_reply handle_delete_nominee delete_reply fetch_nominees_and_matrix
nominees_step (select_tier tier) p = (record p { selected_tier = tier; loading = true }, none)
nominees_step (type_query q) p = (record p { search_query = q }, none)
nominees_step (loaded list matrix assets) p = (fetch_nominees_and_matrix list matrix assets p, none)
nominees_step open_add p = (handle_open_add_modal p, none)
nominees_step (open_edit n) p = (handle_open_edit_modal n p, none)
nominees_step (fill f) p = (record p { form = f }, none)
nominees_step close_modal p = (record p { modal_open = false }, none)
nominees_step save p = if is_some p.saving then (p, none) else handle_save_nominee p
nominees_step (save_answered a) p = elim p.saving [
  | none ↦ (p, none)
  | some is_edit ↦ (save_reply is_edit a p, none)
]
nominees_step (resend n) p = (p, some (invited n.id))
nominees_step (invite_answered a) p = (invite_reply a p, none)
nominees_step (copy_link origin n) p = (handle_copy_invite_link origin n.invitation_token p, none)
nominees_step (open_allocations n) p =
    (record p { drawer = handle_open_allocations n.id n.asset_allocations p.drawer }, none)
nominees_step (edit_allocations e) p = (
  record p {
    drawer = record p.drawer { current_allocations = edit e p.drawer.current_allocations };
  },
  none,
)
nominees_step close_drawer p = (record p { drawer = record p.drawer { is_open = false } }, none)
nominees_step save_allocations p =
    if p.saving_allocations then (p, none) else handle_save_allocations p
nominees_step (allocations_answered a) p = (allocations_reply a p, none)
nominees_step (ask_revoke n) p = (record p { revoke_target = some n }, none)
nominees_step drop_revoke p = (record p { revoke_target = none }, none)
nominees_step confirm_revoke p = handle_revoke_nominee p
nominees_step (revoke_answered a) p = (revoke_reply a p, none)
nominees_step drop_delete p = (record p { delete_target = none }, none)
nominees_step confirm_delete p = handle_delete_nominee p
nominees_step (delete_answered a) p = (delete_reply a p, none)

unfoldable pub nominees_requests : List NomineesEvent → NomineesPage → List Sent
unfolding nominees_step
nominees_requests [] p = []
nominees_requests (e ∷ es) p =
    list_of ((nominees_step e p).1) ++ nominees_requests es ((nominees_step e p).0)
