-- ===== src/Claims/Filing.antt =====
-- Filing a claim on app/dashboard/claims/page.tsx.
use secure_vault.Prelude.{ℕ, String, ◌&◌, if◌then◌else◌, ◌||◌, ◌∷◌}
use secure_vault.Claims.{
  ClaimsPage, ClaimForm, Outcome, Option, ClaimCase, to_string, is_empty, false, some, empty_claim,
  under_review, ok, none, said, low, [], to_iso_string,
}
use secure_vault.Replies.{not_ok, offline}

-- `s || d`
abbrev pub text_or : String → String → String
text_or s d = if is_empty s then d else s

-- What is sent to file a claim.
pub record ClaimPayload : Type 0 where
  pub vault : String
  pub owner_email_or_id : String
  pub certificate : String
  pub document_base64_or_text : String
  pub jurisdiction : String
  pub sent_notes : String
  pub sent_relationship : String

unfoldable pub claim_payload : ℕ → ClaimForm → ClaimPayload
claim_payload now f = record {
  vault = text_or f.form_vault "vlt_main";
  owner_email_or_id = text_or f.owner_identifier "owner@example.com";
  certificate = f.cert_number;
  document_base64_or_text = text_or f.cert_document_text ("CERT_DATA_" & to_string now);
  jurisdiction = f.cert_jurisdiction;
  sent_notes = f.claimant_notes;
  sent_relationship = f.claimant_relationship;
}

-- The claim that the page makes itself while the server refuses; `code` is the random part of its number.
unfoldable pub session_claim : ℕ → String → ClaimPayload → ClaimCase
session_claim now code f = record {
  id = "claim_" & to_string now;
  case_number = "CASE-2026-" & code;
  vault_id = f.vault;
  user_id = f.owner_email_or_id;
  nominee_id = "nom_current_user";
  relationship = some f.sent_relationship;
  certificate_number = f.certificate;
  certificate_hash = "f1d2d2f924e986ac86fdf7b36c94bcdf32beec15";
  issuing_jurisdiction = f.jurisdiction;
  notes = some f.sent_notes;
  status = under_review;
  risk_score = 20;
  risk_level = low;
  risk_factors = [];
  dual_approval_required = false;
  cooling_period_days = 14;
  cooling_period_ends_at = none;
  created_at = to_iso_string now;
  rejection_reason = none;
  adjudication_notes = none;
}

-- `handleSubmitClaim` until its request, and what it sends.
unfoldable pub handle_submit_claim : ℕ → ClaimsPage → ClaimsPage × Option ClaimPayload
unfolding claim_payload
handle_submit_claim now p =
    if is_empty p.form.cert_number || is_empty p.form.cert_jurisdiction
    then (
      record p {
        action_error = some "Please provide both certificate number and issuing jurisdiction.";
      },
      none,
    )
    else (record p { action_error = none }, some (claim_payload now p.form))

-- ... and once its reply is there.
unfoldable pub submit_reply :
    ℕ → String → ClaimPayload → Outcome ClaimCase → ClaimsPage → ClaimsPage
unfolding session_claim
submit_reply now code payload reply p =
    let q : ClaimsPage = record p { show_submit_modal = false; form = empty_claim } in
    elim reply [
      | ok filed ↦
          said
            ("Claim filed successfully: " & filed.case_number
              & ". Automated fraud analysis complete.")
            (record q { claims = filed ∷ p.claims })
      | not_ok ↦
          let made : ClaimCase = session_claim now code payload in
          said ("Claim " & made.case_number & " registered in session.")
            (record q { claims = made ∷ p.claims })
      | offline ↦ said "Claim registered." q
    ]
