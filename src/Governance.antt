-- ===== src/Governance.antt =====
-- The custodians' proposals of app/dashboard/governance/page.tsx: the table of proposals, its
-- buttons, and the signature that arrives 600 ms after its click.
pub mod Quorum
pub mod Vetoed
use secure_vault.Prelude.{
  ℕ, String, Bool, Option, none, some, List, [], ◌∷◌, ◌++◌, ◌==◌, string_eq, not, ◌&&◌, ◌||◌, ltb,
  leb, map, if◌then◌else◌, any, ◌-◌, ◌+◌, true, false, is_empty,
}
use secure_vault.Prelude.Clock.{to_iso_string}

pub data State : Type 0 where
  proposed collecting_signatures timelock_running executable executed vetoed_by_owner : State

pub record Proposal : Type 0 where
  pub proposal_id : String
  pub vault_id : String
  pub action : String
  pub description : String
  pub threshold_required : ℕ
  pub total_custodians : ℕ
  pub signed_count : ℕ
  pub state : State
  pub timelock_expires_at : Option String
  pub created_at : String

-- `due` holds the proposals whose timers are running, in order.
pub record Board : Type 0 where
  pub proposals : List Proposal
  pub is_signing : Bool
  pub due : List String

-- `p.timelock_expires_at ?`
abbrev pub has_timelock : Option String → Bool
has_timelock none = false
has_timelock (some t) = not (is_empty t)

unfoldable pub next_state : Proposal → ℕ → State
next_state p next_count =
    if leb p.threshold_required next_count
    then (if has_timelock p.timelock_expires_at then timelock_running else executable)
    else collecting_signatures

unfoldable pub signed : String → Proposal → Proposal
unfolding next_state
signed id p =
    if p.proposal_id == id && ltb p.signed_count p.total_custodians
    then record p { signed_count = p.signed_count + 1; state = next_state p (p.signed_count + 1) }
    else p

unfoldable pub put_state : State → String → Proposal → Proposal
put_state st id p = if p.proposal_id == id then record p { state = st } else p

-- Each proposal in its turn: `prev.map(…)`.
unfoldable pub each : (Proposal → Proposal) → List Proposal → List Proposal
each f [] = []
each f (p ∷ ps) = f p ∷ each f ps

unfoldable pub handle_sign : String → Board → Board
handle_sign id b = record b { is_signing = true; due = b.due ++ id ∷ [] }

-- The timer of the first click.
unfoldable pub sign_arrives : List String → Board → Board
unfolding each signed
sign_arrives [] b = b
sign_arrives (id ∷ rest) b = record {
  proposals = each (signed id) b.proposals;
  is_signing = false;
  due = rest;
}

unfoldable pub handle_execute : String → Board → Board
unfolding each put_state
handle_execute id b = record b { proposals = each (put_state executed id) b.proposals }

unfoldable pub handle_veto : String → Board → Board
unfolding each put_state
handle_veto id b = record b { proposals = each (put_state vetoed_by_owner id) b.proposals }

-- The states in which a row has each of the buttons.
abbrev pub has_sign : State → Bool
has_sign collecting_signatures = true
has_sign _ = false

abbrev pub has_execute : State → Bool
has_execute executable = true
has_execute _ = false

abbrev pub has_veto : State → Bool
has_veto executed = false
has_veto vetoed_by_owner = false
has_veto _ = true

-- Whether a row of that proposal has the button.
unfoldable pub offered : (State → Bool) → String → List Proposal → Bool
offered has id [] = false
offered has id (p ∷ ps) =
    let rest = offered has id ps in (p.proposal_id == id && has p.state) || rest

pub data Event : Type 0 where
  click_sign click_execute click_veto : String → Event
  timer : Event

-- A button that is not there, or shows that it is loading, cannot be clicked.
unfoldable pub step : Event → Board → Board
unfolding offered handle_sign handle_execute handle_veto sign_arrives
step (click_sign id) b =
    if offered has_sign id b.proposals && not b.is_signing then handle_sign id b else b
step (click_execute id) b = if offered has_execute id b.proposals then handle_execute id b else b
step (click_veto id) b = if offered has_veto id b.proposals then handle_veto id b else b
step timer b = sign_arrives b.due b

unfoldable pub run : List Event → Board → Board
unfolding step
run [] b = b
run (e ∷ es) b = run es (step e b)

abbrev pub initial_proposals : ℕ → List Proposal
initial_proposals now =
    record {
      proposal_id = "prop_89ab12cd34";
      vault_id = "vlt_apex_sovereign_01";
      action = "EMERGENCY_UNFREEZE";
      description =
          "Emergency unfreeze of tier-3 offshore vault following proof of living owner status";
      threshold_required = 3;
      total_custodians = 5;
      signed_count = 2;
      state = collecting_signatures;
      timelock_expires_at = none;
      created_at = to_iso_string (now - 7200000);
    }
    ∷ record {
      proposal_id = "prop_56ef78ab90";
      vault_id = "vlt_family_trust_02";
      action = "ASSET_COLD_TRANSFER";
      description =
          "Transfer 500 BTC master keys from hot HSM to Swiss cold storage air-gapped vault";
      threshold_required = 3;
      total_custodians = 5;
      signed_count = 3;
      state = timelock_running;
      timelock_expires_at = some (to_iso_string (now + 86400000));
      created_at = to_iso_string (now - 172800000);
    }
    ∷ record {
      proposal_id = "prop_12cd34ef56";
      vault_id = "vlt_legal_custody_03";
      action = "QUORUM_POLICY_MUTATION";
      description = "Expand custodian board from 3-of-5 to 4-of-7 for enhanced UHNW compliance";
      threshold_required = 3;
      total_custodians = 5;
      signed_count = 3;
      state = executable;
      timelock_expires_at = none;
      created_at = to_iso_string (now - 259200000);
    }
    ∷ []

abbrev pub initial_board : ℕ → Board
initial_board now = record { proposals = initial_proposals now; is_signing = false; due = [] }
