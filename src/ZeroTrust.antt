-- ===== src/ZeroTrust.antt =====
-- The grants of app/dashboard/security/zerotrust/page.tsx: asking for one, approving it and revoking it. A request
-- is added half a second after it is sent, to the list that the page had when it was sent.
pub mod Revocation
use secure_vault.Prelude.{
  ℕ, String, Bool, true, false, Option, none, some, List, ◌&◌, ◌==◌, if◌then◌else◌, string_eq, ◌∷◌,
  ◌+◌, is_empty, any, ◌++◌, ◌*◌, ◌&&◌, [],
}
use secure_vault.Prelude.Clock.{to_iso_string}

pub data GrantStatus : Type 0 where
  pending_approval : GrantStatus
  active_elevated : GrantStatus
  expired : GrantStatus
  revoked : GrantStatus

pub record Grant : Type 0 where
  pub grant_id : String
  pub requester_id : String
  pub scope : String
  pub justification : String
  pub duration_minutes : ℕ
  pub status : GrantStatus
  pub expires_at : Option String
  pub created_at : String

-- A request on its way: what the handler has read when it was called.
pub record Waiting : Type 0 where
  pub seen_grants : List Grant
  pub seen_scope : String
  pub seen_justification : String
  pub seen_duration : ℕ

pub record GrantPage : Type 0 where
  pub grants : List Grant
  pub show_request_modal : Bool
  pub new_scope : String
  pub new_justification : String
  pub new_duration : ℕ
  pub is_submitting : Bool
  pub waiting : List Waiting

-- `prev.map((g) => g.grant_id === grantId ? f(g) : g)`
unfoldable pub map_grant : String → (Grant → Grant) → List Grant → List Grant
map_grant i f [] = []
map_grant i f (g ∷ gs) = (if g.grant_id == i then f g else g) ∷ map_grant i f gs

abbrev pub approved_at : ℕ → Grant → Grant
approved_at now g = record g {
  status = active_elevated;
  expires_at = some (to_iso_string (now + g.duration_minutes * 60000));
}

unfoldable pub handle_approve : ℕ → String → GrantPage → GrantPage
unfolding map_grant
handle_approve now i p = record p { grants = map_grant i (approved_at now) p.grants }

abbrev pub revoked_grant : Grant → Grant
revoked_grant g = record g { status = revoked }

unfoldable pub handle_revoke : String → GrantPage → GrantPage
unfolding map_grant
handle_revoke i p = record p { grants = map_grant i revoked_grant p.grants }

-- `handleCreateGrant` until its timer is set.
unfoldable pub handle_create_grant : GrantPage → GrantPage
handle_create_grant p = if is_empty p.new_justification then p else record p {
  is_submitting = true;
  waiting =
      p.waiting
      ++ record {
        seen_grants = p.grants;
        seen_scope = p.new_scope;
        seen_justification = p.new_justification;
        seen_duration = p.new_duration;
      }
        ∷ [];
}

-- The grant that a request makes; `code` is the random part of its id.
abbrev pub created_grant : ℕ → String → Waiting → Grant
created_grant now code w = record {
  grant_id = "jit_" & code;
  requester_id = "current_authenticated_user";
  scope = w.seen_scope;
  justification = w.seen_justification;
  duration_minutes = w.seen_duration;
  status = pending_approval;
  expires_at = none;
  created_at = to_iso_string now;
}

-- The timer of a request.
unfoldable pub grant_arrives : ℕ → String → Waiting → List Waiting → GrantPage → GrantPage
grant_arrives now code w rest p = record p {
  is_submitting = false;
  grants = created_grant now code w ∷ w.seen_grants;
  show_request_modal = false;
  new_justification = "";
  waiting = rest;
}

-- The statuses whose grants have a button.
abbrev pub is_pending : GrantStatus → Bool
is_pending pending_approval = true
is_pending s = false

abbrev pub is_active : GrantStatus → Bool
is_active active_elevated = true
is_active s = false

-- Whether a button stands at some grant with the id.
abbrev pub offers : (GrantStatus → Bool) → String → List Grant → Bool
offers f i gs = any (λ (g : Grant). g.grant_id == i && f g.status) gs

pub data GrantEvent : Type 0 where
  click_approve : ℕ → String → GrantEvent
  click_revoke : String → GrantEvent
  fill_form : String → String → ℕ → GrantEvent
  submit : GrantEvent
  timer : ℕ → String → GrantEvent

unfoldable pub grant_step : GrantEvent → GrantPage → GrantPage
unfolding handle_approve handle_revoke handle_create_grant grant_arrives
grant_step (click_approve now i) p =
    if offers is_pending i p.grants then handle_approve now i p else p
grant_step (click_revoke i) p = if offers is_active i p.grants then handle_revoke i p else p
grant_step (fill_form scope why minutes) p = record p {
  new_scope = scope;
  new_justification = why;
  new_duration = minutes;
}
grant_step submit p = if p.is_submitting then p else handle_create_grant p
grant_step (timer now code) p = elim p.waiting [
  | [] ↦ p
  | w ∷ rest ↦ grant_arrives now code w rest p
]

unfoldable pub grant_run : List GrantEvent → GrantPage → GrantPage
unfolding grant_step
grant_run [] p = p
grant_run (e ∷ es) p = grant_run es (grant_step e p)
