-- ===== src/Examples/Policies.antt =====
-- Examples for the policies and the claims of the dashboard.
use secure_vault.Prelude.{
  ℕ, String, true, false, Option, none, some, List, [], ◌∷◌, ◌≡◌, refl, arith, string_eq,
}
use secure_vault.Prelude.Integers.{pos}
use secure_vault.Prelude.Decimal.{parse_int}
use secure_vault.Replies.{ok, not_ok, offline}
use secure_vault.Policies.{Policy, after_cooling_period, policy_active, simulate, simulate_cooling}
use secure_vault.Policies.Release.{Circumstances, NoEarlier, simulate-stays_unlocked, unlocked_in}
use secure_vault.Policies.Selection.{clicks-flips, clicks, flips, set_of}
use secure_vault.Claims.{
  ClaimCase, ClaimsPage, empty_claim, under_review, approve, approved, handle_adjudicate,
  handle_owner_dispute, waiting_reply, dispute_reply, dispute, adjudicate_reply,
}
use secure_vault.Claims.Shown.{
  do_deeds-OneStatus, OneStatus, do_deeds, do_deed, Deed, inspect, deny, adjudicate, replied,
  AllTimely, inspect_in, waiting_at, without_waiting, reply_at,
}
use secure_vault.Claims.Shown.Late.{claim_at, shown_status, late_reply, quiet, late_adjudication}
use secure_vault.Claims

abbrev cooling_policy : Policy
cooling_policy = record {
  id = "p1";
  name = "Keys";
  description = "";
  condition_type = after_cooling_period;
  cooling_period_days = pos 14;
  required_approvals_count = pos 2;
  authorized_approver_ids = [];
  unlock_date = none;
  asset_ids = "a1" ∷ [];
  beneficiary_ids = [];
  approvals = [];
  status = policy_active;
  version = 1;
  created_at = "2026-01-01T00:00:00.000Z";
}

abbrev after_days : String → Circumstances
after_days days = record { now = 1790000000000; triggered = true; days = days; count = 0 }

-- Dates without a time zone's data: none is known.
abbrev no_dates : String → Option ℕ
no_dates s = none

abbrev unnamed : Option ℕ → String
unnamed o = "Invalid Date"

days_go_on : NoEarlier (after_days "14") (after_days "20")
unfolding parse_int
days_go_on = record {
  later = omega arith;
  still_triggered = λ e. e;
  more_days = refl;
  more_approvals = omega arith;
}

unlocked_at_14 : unlocked_in no_dates unnamed (after_days "14") cooling_policy ≡ true
unfolding simulate simulate_cooling parse_int
unlocked_at_14 = refl

simulate-stays_unlocked_example :
    unlocked_in no_dates unnamed (after_days "20") cooling_policy ≡ true
simulate-stays_unlocked_example =
    simulate-stays_unlocked no_dates unnamed (after_days "14") (after_days "20") cooling_policy
      days_go_on unlocked_at_14

clicks-flips_example :
    set_of (clicks ("a1" ∷ "a2" ∷ "a1" ∷ []) ("a2" ∷ [])) "a1"
    ≡ flips ("a1" ∷ "a2" ∷ "a1" ∷ []) (set_of ("a2" ∷ [])) "a1"
clicks-flips_example = clicks-flips ("a1" ∷ "a2" ∷ "a1" ∷ []) ("a2" ∷ []) "a1"

abbrev claim : String → ClaimCase
claim i = record {
  id = i;
  case_number = "CASE-2026-NY9182";
  vault_id = "vlt_main";
  user_id = "u1";
  nominee_id = "n1";
  relationship = none;
  certificate_number = "NY-1";
  certificate_hash = "";
  issuing_jurisdiction = "New York";
  notes = none;
  status = under_review;
  risk_score = 15;
  risk_level = Claims.low;
  risk_factors = [];
  dual_approval_required = false;
  cooling_period_days = 14;
  cooling_period_ends_at = none;
  created_at = "2026-01-01T00:00:00.000Z";
  rejection_reason = none;
  adjudication_notes = none;
}

abbrev two_claims : ClaimsPage
two_claims = record {
  claims = claim "c1" ∷ claim "c2" ∷ [];
  selected_claim = some (claim "c1");
  show_submit_modal = false;
  show_detail_drawer = true;
  action_success = none;
  action_error = none;
  form = empty_claim;
  typed_notes = "";
  waiting = [];
}

abbrev deeds : List Deed
deeds =
    inspect 1
    ∷ deny "c2"
    ∷ deny "c1"
    ∷ replied 1 not_ok
    ∷ adjudicate approve
    ∷ replied 0 (ok tt)
    ∷ replied 0 offline
    ∷ []

deeds_timely : AllTimely deeds two_claims
unfolding do_deed inspect_in waiting_at without_waiting handle_owner_dispute handle_adjudicate
    reply_at waiting_reply dispute_reply dispute adjudicate_reply
deeds_timely = (tt, (tt, (tt, (refl, (tt, (refl, (refl, tt)))))))

do_deeds-OneStatus_example : OneStatus (do_deeds deeds two_claims)
do_deeds-OneStatus_example =
    do_deeds-OneStatus deeds two_claims deeds_timely (λ i. under_review, ((refl, (refl, tt)), refl))

first_claim : claim_at 0 two_claims.claims ≡ some (claim "c1")
unfolding claim_at
first_claim = refl

second_claim : claim_at 1 two_claims.claims ≡ some (claim "c2")
unfolding claim_at
second_claim = refl

late_adjudication_example :
    (shown_status (do_deeds (late_reply approve 0 1) (quiet two_claims)) ≡ some approved)
    × (claim_at 1 (do_deeds (late_reply approve 0 1) (quiet two_claims)).claims ≡ some (claim "c2"))
late_adjudication_example =
    late_adjudication approve 0 1 (claim "c1") (claim "c2") two_claims first_claim second_claim refl
