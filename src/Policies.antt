-- ===== src/Policies.antt =====
-- The release policies of app/dashboard/policies/page.tsx: their form, the requests' effects on the list of
-- policies, and the simulator of a release.
pub mod Release
pub mod Selection
use secure_vault.Prelude.{
  ℕ, String, Bool, true, false, Option, none, some, List, ◌&◌, if◌then◌else◌, nat_eq, string_eq,
  ◌∷◌, trim, not, leb, keep, is_empty, any, [], ◌==◌, ◌++◌,
}
use secure_vault.Prelude.Integers.{ℤ, pos, ltz, ◌-ℤ◌, print, truthy_or, nonzero_or}
use secure_vault.Prelude.Decimal.{to_string, parse_int}
use secure_vault.Prelude.Clock.{to_iso_string}
use secure_vault.Replies.{Outcome, ok, not_ok, offline}

pub data ConditionType : Type 0 where
  immediate_on_trigger : ConditionType
  after_cooling_period : ConditionType
  multi_approval : ConditionType
  date_locked : ConditionType

pub data PolicyStatus : Type 0 where
  policy_active : PolicyStatus
  policy_fulfilled : PolicyStatus
  policy_paused : PolicyStatus

pub record Approval : Type 0 where
  pub approval_id : String
  pub approver_id : String
  pub approver_name : String
  pub approved_at : String
  pub notes : Option String

pub record Policy : Type 0 where
  pub id : String
  pub name : String
  pub description : String
  pub condition_type : ConditionType
  pub cooling_period_days : ℤ
  pub required_approvals_count : ℤ
  pub authorized_approver_ids : List String
  pub unlock_date : Option String
  pub asset_ids : List String
  pub beneficiary_ids : List String
  pub approvals : List Approval
  pub status : PolicyStatus
  pub version : ℕ
  pub created_at : String

pub record PolicyForm : Type 0 where
  pub policy_name : String
  pub policy_description : String
  pub chosen_condition : ConditionType
  pub cooling_days : String
  pub approvals_count : String
  pub form_date : String
  pub selected_assets : List String
  pub selected_beneficiaries : List String

pub record SimResult : Type 0 where
  pub is_unlocked : Bool
  pub reason : String

pub record PolicyPage : Type 0 where
  pub policies : List Policy
  pub form : PolicyForm
  pub show_create_modal : Bool
  pub action_success : Option String
  pub selected_policy_for_sim : Option Policy
  pub sim_switch_triggered : Bool
  pub sim_days_since_trigger : String
  pub sim_approvals_count : ℕ
  pub sim_result : Option SimResult

-- `resetForm`
abbrev pub empty_form : PolicyForm
empty_form = record {
  policy_name = "";
  policy_description = "";
  chosen_condition = immediate_on_trigger;
  cooling_days = "14";
  approvals_count = "2";
  form_date = "";
  selected_assets = [];
  selected_beneficiaries = [];
}

-- `fetchPolicies`: the policies of an ok reply; none for one without data.
unfoldable pub fetch_policies : Outcome (Option (List Policy)) → PolicyPage → PolicyPage
fetch_policies (ok (some (x ∷ xs))) p = record p { policies = x ∷ xs }
fetch_policies reply p = p

-- The date that goes with the condition.
abbrev pub date_for : ConditionType → String → Option String
date_for date_locked date = some date
date_for c date = none

-- What the form sends, as the policy that the page makes of it while the server refuses.
unfoldable pub new_policy : ℕ → PolicyForm → Policy
new_policy now f = record {
  id = "pol_" & to_string now;
  name = f.policy_name;
  description = f.policy_description;
  condition_type = f.chosen_condition;
  cooling_period_days = truthy_or (pos 14) (parse_int f.cooling_days);
  required_approvals_count = truthy_or (pos 2) (parse_int f.approvals_count);
  authorized_approver_ids = f.selected_beneficiaries;
  unlock_date = date_for f.chosen_condition f.form_date;
  asset_ids = f.selected_assets;
  beneficiary_ids = f.selected_beneficiaries;
  approvals = [];
  status = policy_active;
  version = 1;
  created_at = to_iso_string now;
}

unfoldable pub after_create : ℕ → Outcome Policy → PolicyPage → PolicyPage
unfolding new_policy
after_create now (ok made) p = record p {
  policies = made ∷ p.policies;
  action_success = some "Release policy defined and activated successfully.";
}
after_create now not_ok p = record p {
  policies = new_policy now p.form ∷ p.policies;
  action_success = some "Policy saved in current session.";
}
after_create now offline p = record p { action_success = some "Policy created." }

unfoldable pub handle_create_policy : ℕ → Outcome Policy → PolicyPage → PolicyPage
unfolding after_create trim
handle_create_policy now reply p =
    if is_empty (trim p.form.policy_name)
    then p
    else record (after_create now reply p) { show_create_modal = false; form = empty_form }

-- `prev.filter((p) => p.id !== id)`
unfoldable pub without_policy : String → List Policy → List Policy
without_policy i ps = keep (λ (p : Policy). not (p.id == i)) ps

unfoldable pub handle_delete_policy : String → PolicyPage → PolicyPage
unfolding without_policy
handle_delete_policy i p = record p {
  policies = without_policy i p.policies;
  action_success = some "Policy deleted and detached from vault assets.";
}

-- `prev.includes(id)`
unfoldable pub selected : String → List String → Bool
selected i ids = any (λ a. a == i) ids

-- `toggleAsset` and `toggleBeneficiary`, on the list that each changes.
unfoldable pub toggle : String → List String → List String
unfolding selected
toggle i ids = if selected i ids then keep (λ a. not (a == i)) ids else ids ++ i ∷ []

-- `Date.now() >= targetDate.getTime()`
abbrev pub is_past : ℕ → Option ℕ → Bool
is_past now none = false
is_past now (some time) = leb time now

abbrev pub verdict : Bool → String → SimResult
verdict unlocked why = record { is_unlocked = unlocked; reason = why }

unfoldable pub simulate_immediate : Bool → SimResult
simulate_immediate triggered =
    if triggered
    then verdict true "Immediate unlock: Switch trigger verified."
    else verdict false "Locked: Inactivity switch has not been triggered."

unfoldable pub simulate_cooling : Policy → Bool → String → SimResult
simulate_cooling p triggered days =
    let elapsed : ℤ = truthy_or (pos 0) (parse_int days) in
    let buffer : ℤ = nonzero_or (pos 14) p.cooling_period_days in
    if not triggered
    then verdict false "Locked: Standby inactivity switch has not triggered."
    else if ltz elapsed buffer
    then verdict false (
        "Cooling buffer active: "
        & print elapsed
        & "/"
        & print buffer
        & " days elapsed. "
        & print (buffer -ℤ elapsed)
        & " days remaining.")
    else verdict true (
        "Cooling period complete ("
        & print elapsed
        & " days >= "
        & print buffer
        & " days). Keys decrypted.")

unfoldable pub simulate_approvals : Policy → ℕ → SimResult
simulate_approvals p count =
    let req : ℤ = nonzero_or (pos 2) p.required_approvals_count in
    if ltz (pos count) req
    then verdict false (
        "Consensus pending: "
        & to_string count
        & "/"
        & print req
        & " approvals recorded ("
        & print (req -ℤ pos count)
        & " needed).")
    else verdict true
        ("Consensus reached: " & to_string count & "/" & print req & " approvals confirmed.")

-- `Date` with its time zone: the time of a date's text, none for an invalid date, and `toLocaleDateString`.
module _ (time_of : String → Option ℕ) (to_locale_date : Option ℕ → String) where
  -- `selectedPolicyForSim.unlockDate ? new Date(…) : new Date()`
  abbrev pub target_date : ℕ → Option String → Option ℕ
  target_date now none = some now
  target_date now (some date) = if is_empty date then some now else time_of date

  unfoldable pub simulate_date : Policy → ℕ → SimResult
  simulate_date p now =
      let target : Option ℕ = target_date now p.unlock_date in
      let day : String = to_locale_date target in
      if is_past now target
      then verdict true ("Milestone date reached (" & day & "). Unlocked.")
      else verdict false ("Locked until " & day & ". Time capsule active.")

  -- The simulator's verdict on a policy.
  unfoldable pub simulate : ℕ → Bool → String → ℕ → Policy → SimResult
  unfolding simulate_immediate simulate_cooling simulate_approvals simulate_date
  simulate now triggered days count p = elim p.condition_type [
    | immediate_on_trigger ↦ simulate_immediate triggered
    | after_cooling_period ↦ simulate_cooling p triggered days
    | multi_approval ↦ simulate_approvals p count
    | date_locked ↦ simulate_date p now
  ]

  unfoldable pub run_simulation : ℕ → PolicyPage → PolicyPage
  unfolding simulate
  run_simulation now page = elim page.selected_policy_for_sim [
    | none ↦ page
    | some p ↦ record page {
      sim_result = some (
          simulate now page.sim_switch_triggered page.sim_days_since_trigger
            page.sim_approvals_count p);
    }
  ]
