-- ===== src/Claims.antt =====
-- The claims of app/dashboard/claims/page.tsx: the list that the page filters, the owner's dispute, and the
-- adjudication in the drawer.
pub mod Filing
pub mod Shown
use secure_vault.Prelude.{
  ℕ, String, Bool, true, false, Option, none, some, List, ◌&◌, if◌then◌else◌, string_eq, keep, ◌∷◌,
  ◌==◌, to_lower_case, is_empty, [], ◌||◌, includes, ◌&&◌, ◌++◌, any,
}
use secure_vault.Prelude.Decimal.{to_string}
use secure_vault.Prelude.Clock.{to_iso_string}
use secure_vault.Replies.{Outcome, ok, not_ok, offline}

pub data ClaimStatus : Type 0 where
  claim_new : ClaimStatus
  under_review : ClaimStatus
  waiting_documents : ClaimStatus
  approved : ClaimStatus
  rejected : ClaimStatus
  rejected_disputed : ClaimStatus

pub data RiskLevel : Type 0 where
  low : RiskLevel
  medium : RiskLevel
  high : RiskLevel
  critical : RiskLevel

pub record RiskFactor : Type 0 where
  pub rule : String
  pub points : ℕ
  pub description : String

pub record ClaimCase : Type 0 where
  pub id : String
  pub case_number : String
  pub vault_id : String
  pub user_id : String
  pub nominee_id : String
  pub relationship : Option String
  pub certificate_number : String
  pub certificate_hash : String
  pub issuing_jurisdiction : String
  pub notes : Option String
  pub status : ClaimStatus
  pub risk_score : ℕ
  pub risk_level : RiskLevel
  pub risk_factors : List RiskFactor
  pub dual_approval_required : Bool
  pub cooling_period_days : ℕ
  pub cooling_period_ends_at : Option String
  pub created_at : String
  pub rejection_reason : Option String
  pub adjudication_notes : Option String

pub record ClaimForm : Type 0 where
  pub form_vault : String
  pub owner_identifier : String
  pub cert_number : String
  pub cert_jurisdiction : String
  pub cert_document_text : String
  pub claimant_relationship : String
  pub claimant_notes : String

pub data Decision : Type 0 where
  approve : Decision
  reject : Decision
  require_notary : Decision

-- A request on its way, with what its handler has read when it was called: the claim that is disputed and whether it
-- was the one of the drawer; or the decision, the claim of the drawer and the notes.
pub data Waiting : Type 0 where
  disputing : String → Bool → Waiting
  adjudicating : Decision → ClaimCase → String → Waiting

pub record ClaimsPage : Type 0 where
  pub claims : List ClaimCase
  pub selected_claim : Option ClaimCase
  pub show_submit_modal : Bool
  pub show_detail_drawer : Bool
  pub action_success : Option String
  pub action_error : Option String
  pub form : ClaimForm
  pub typed_notes : String
  pub waiting : List Waiting

-- `resetForm`
abbrev pub empty_claim : ClaimForm
empty_claim = record {
  form_vault = "";
  owner_identifier = "";
  cert_number = "";
  cert_jurisdiction = "";
  cert_document_text = "";
  claimant_relationship = "PRIMARY";
  claimant_notes = "";
}

-- `fetchClaims`: the claims of an ok reply; none for one without data.
unfoldable pub fetch_claims : Outcome (Option (List ClaimCase)) → ClaimsPage → ClaimsPage
fetch_claims (ok (some (x ∷ xs))) p = record p { claims = x ∷ xs }
fetch_claims reply p = p

abbrev pub said : String → ClaimsPage → ClaimsPage
said text p = record p { action_success = some text }

abbrev pub disputed : String → ClaimCase → ClaimCase
disputed why c = record c { status = rejected_disputed; rejection_reason = some why }

-- `prev.map((c) => c.id === claimId ? f(c) : c)`
unfoldable pub map_claim : String → (ClaimCase → ClaimCase) → List ClaimCase → List ClaimCase
map_claim i f [] = []
map_claim i f (c ∷ cs) = (if c.id == i then f c else c) ∷ map_claim i f cs

-- `prev ? f(prev) : null`
abbrev pub map_drawer : (ClaimCase → ClaimCase) → Option ClaimCase → Option ClaimCase
map_drawer f none = none
map_drawer f (some c) = some (f c)

-- `selectedClaim && selectedClaim.id === claimId`
abbrev pub in_drawer : String → Option ClaimCase → Bool
in_drawer i none = false
in_drawer i (some c) = c.id == i

-- `handleOwnerDispute` until its request.
unfoldable pub handle_owner_dispute : String → ClaimsPage → ClaimsPage
handle_owner_dispute i p = record p {
  action_success = none;
  waiting = p.waiting ++ disputing i (in_drawer i p.selected_claim) ∷ [];
}

-- What a dispute leaves behind, when the request has had a reply: the claim that is in the drawer then is the one that
-- changes there.
unfoldable pub dispute : String → Bool → ClaimsPage → ClaimsPage
unfolding map_claim
dispute i was_in_drawer p = record p {
  claims = map_claim i (disputed "Owner verified alive; claim nullified.") p.claims;
  selected_claim =
      if was_in_drawer
      then map_drawer (disputed "Owner verified alive") p.selected_claim
      else p.selected_claim;
}

unfoldable pub dispute_reply : String → Bool → Outcome Unit → ClaimsPage → ClaimsPage
unfolding dispute
dispute_reply i was_in_drawer (ok u) p =
    said "Fraudulent claim nullified immediately! Vault security preserved."
      (dispute i was_in_drawer p)
dispute_reply i was_in_drawer not_ok p =
    said "Dispute recorded. Claim transitioned to REJECTED_DISPUTED." (dispute i was_in_drawer p)
dispute_reply i was_in_drawer offline p = said "Dispute processed." p

abbrev pub new_status : Decision → ClaimStatus
new_status approve = approved
new_status reject = rejected
new_status require_notary = waiting_documents

abbrev pub decision_name : Decision → String
decision_name approve = "APPROVED"
decision_name reject = "REJECTED"
decision_name require_notary = "REQUIRE_NOTARY"

abbrev pub adjudicated : Decision → String → ClaimCase → ClaimCase
adjudicated d why c = record c { status = new_status d; adjudication_notes = some why }

-- `isAdjudicating`, which disables the three buttons
abbrev pub is_adjudication : Waiting → Bool
is_adjudication (disputing i b) = false
is_adjudication (adjudicating d c notes) = true

-- `handleAdjudicate` until its request.
unfoldable pub handle_adjudicate : Decision → ClaimsPage → ClaimsPage
handle_adjudicate d p = elim p.selected_claim [
  | none ↦ p
  | some c ↦
      if any is_adjudication p.waiting
      then p
      else record p { waiting = p.waiting ++ adjudicating d c p.typed_notes ∷ [] }
]

-- ... and after it: the reply is not looked at, only whether there is one. The list changes by the claim of the click,
-- the drawer whatever claim is in it by then.
unfoldable pub adjudicate_reply :
    Decision → ClaimCase → String → Outcome Unit → ClaimsPage → ClaimsPage
unfolding map_claim
adjudicate_reply d c notes reply p =
    let decided : ClaimsPage =
      said ("Case " & c.case_number & " updated: " & decision_name d) (record p {
        claims = map_claim c.id (adjudicated d notes) p.claims;
        selected_claim = map_drawer (adjudicated d notes) p.selected_claim;
        typed_notes = "";
      }) in
    elim reply [
      | ok u ↦ decided
      | not_ok ↦ decided
      | offline ↦ said "Adjudication saved." (record p { typed_notes = "" })
    ]

unfoldable pub waiting_reply : Waiting → Outcome Unit → ClaimsPage → ClaimsPage
unfolding dispute_reply adjudicate_reply
waiting_reply (disputing i was_in_drawer) reply p = dispute_reply i was_in_drawer reply p
waiting_reply (adjudicating d c notes) reply p = adjudicate_reply d c notes reply p

abbrev pub status_name : ClaimStatus → String
status_name claim_new = "NEW"
status_name under_review = "UNDER_REVIEW"
status_name waiting_documents = "WAITING_DOCUMENTS"
status_name approved = "APPROVED"
status_name rejected = "REJECTED"
status_name rejected_disputed = "REJECTED_DISPUTED"

-- `filteredClaims`
unfoldable pub filtered_claims : String → String → List ClaimCase → List ClaimCase
unfolding to_lower_case
filtered_claims term chosen cs = keep (λ (c : ClaimCase). matches c && right_status c) cs
  where
    matches : ClaimCase → Bool
    matches c =
        includes (to_lower_case c.case_number) (to_lower_case term)
        || includes (to_lower_case c.certificate_number) (to_lower_case term)
        || includes (to_lower_case c.issuing_jurisdiction) (to_lower_case term)

    right_status : ClaimCase → Bool
    right_status c = chosen == "ALL" || status_name c.status == chosen
