-- ===== src/Switch/Timeline.antt =====
-- The timeline of app/dashboard/settings/switch/page.tsx.
use secure_vault.Prelude.{nat_eq, ℕ, if◌then◌else◌, ◌==◌, ltb, List, ◌/◌, ◌*◌, ◌∷◌, []}
use secure_vault.Switch.{cooling_period, switch_triggered, SwitchStatus}

pub data Milestone : Type 0 where
  completed : Milestone
  current : Milestone
  pending : Milestone
  failed : Milestone

-- `getTimelineStatus`
unfoldable pub get_timeline_status : SwitchStatus → ℕ → Milestone
get_timeline_status s day =
    if s.is_paused
    then pending
    else if ltb day s.days_since_activity
    then completed
    else if s.days_since_activity == day
    then current
    else pending

-- `n || d`
abbrev pub days_or : ℕ → ℕ → ℕ
days_or n d = if n == 0 then d else n

-- What the timeline shows for its five stages.
unfoldable pub timeline : SwitchStatus → List Milestone
unfolding get_timeline_status
timeline s =
    let standby : ℕ = days_or s.standby_days 90 in
    let stage_1 : Milestone = get_timeline_status s (standby / 2) in
    let stage_2 : Milestone = get_timeline_status s (standby * 8 / 10) in
    let expiry : Milestone = get_timeline_status s standby in
    let cooling : Milestone = elim s.status [ cooling_period ↦ current | _ ↦ expiry ] in
    let trigger : Milestone = elim s.status [ switch_triggered ↦ failed | _ ↦ pending ] in
    completed ∷ (stage_1 ∷ (stage_2 ∷ (cooling ∷ (trigger ∷ []))))
