-- ===== src/Switch/Pausing.antt =====
-- The paused flag and the timeline of app/dashboard/settings/switch/page.tsx.
use secure_vault.Switch.{
  SwitchStatus, SwitchPage, SwitchConfig, PauseRequest, fetch_status, handle_heartbeat,
  heartbeat_reply, handle_save_config, save_config_reply, handle_pause_switch, pause_reply,
  handle_resume_switch, initial_page, paused, active, cooling_period, switch_triggered,
  warning_stage_1, warning_stage_2, SwitchState,
}
use secure_vault.Switch.Events.{
  Happening, happen, happen_all, loaded, heartbeat, heartbeat_answered, config_days, save_config,
  save_answered, pause_form, pause, pause_answered, resumed, timeout, unless_on_its_way,
  save_answer_of, pause_answer_of,
}
use secure_vault.Switch.Timeline.{
  Milestone, completed, current, pending, failed, get_timeline_status, timeline, days_or,
}
use secure_vault.Replies.{Outcome, ok, not_ok, offline}
use secure_vault.Prelude.{
  ℕ, List, [], ◌∷◌, Option, none, some, ◌≡◌, refl, arith, if_both, ◌≤◌, true, ltb, false, Bool, All,
  chars, ap, if_true, ◌≢◌, ◌/◌, ◌*◌, subst, sym,
}

-- A status that reads PAUSED has its flag set.
abbrev pub PausedIsFlagged : SwitchStatus → Type 0
PausedIsFlagged s = s.status ≡ paused → s.is_paused ≡ true

abbrev pub LiveIsFlagged : Option SwitchStatus → Type 0
LiveIsFlagged none = Unit
LiveIsFlagged (some s) = PausedIsFlagged s

abbrev pub EventIsFlagged : Happening → Type 0
EventIsFlagged (loaded live) = LiveIsFlagged live
EventIsFlagged e = Unit

abbrev is_paused_state : SwitchState → Bool
is_paused_state paused = true
is_paused_state _ = false

active_not_paused : {P : Type 0} → active ≡ paused → P
active_not_paused e = let f : false ≡ true = ap is_paused_state e in cc

fetch_status-Flagged :
    (live : Option SwitchStatus) (p : SwitchPage)
    → LiveIsFlagged live
    → PausedIsFlagged p.switch
    → PausedIsFlagged (fetch_status live p).switch
unfolding fetch_status
fetch_status-Flagged none p l h = h
fetch_status-Flagged (some s) p l h = l

save_answer-Flagged :
    (o : Option SwitchConfig) (reply : Outcome Unit) (p : SwitchPage)
    → PausedIsFlagged p.switch
    → PausedIsFlagged (save_answer_of o reply p).switch
unfolding save_answer_of save_config_reply
save_answer-Flagged none reply p h = h
save_answer-Flagged (some c) (ok u) p h = h
save_answer-Flagged (some c) not_ok p h = h
save_answer-Flagged (some c) offline p h = h

pause_answer-Flagged :
    (now : ℕ) (o : Option PauseRequest) (reply : Outcome Unit) (p : SwitchPage)
    → PausedIsFlagged p.switch
    → PausedIsFlagged (pause_answer_of now o reply p).switch
unfolding pause_answer_of pause_reply
pause_answer-Flagged now none reply p h = h
pause_answer-Flagged now (some r) (ok u) p h = h
pause_answer-Flagged now (some r) not_ok p h = λ e. refl
pause_answer-Flagged now (some r) offline p h = λ e. refl

-- A click that leaves the status as it is.
click-Flagged :
    {A : Type 0} (o : Option A) (q p : SwitchPage)
    → q.switch ≡ p.switch
    → PausedIsFlagged p.switch
    → PausedIsFlagged (unless_on_its_way o q p).switch
unfolding unless_on_its_way
click-Flagged none q p e h = subst PausedIsFlagged (sym e) h
click-Flagged (some a) q p e h = h

happen-Flagged :
    (e : Happening) (p : SwitchPage)
    → EventIsFlagged e
    → PausedIsFlagged p.switch
    → PausedIsFlagged (happen e p).switch
unfolding happen handle_heartbeat heartbeat_reply handle_save_config handle_pause_switch
    handle_resume_switch
happen-Flagged (loaded live) p l h = fetch_status-Flagged live p l h
happen-Flagged heartbeat p l h = h
happen-Flagged (heartbeat_answered now (ok at)) p l h = λ e. active_not_paused e
happen-Flagged (heartbeat_answered now not_ok) p l h = λ e. active_not_paused e
happen-Flagged (heartbeat_answered now offline) p l h = λ e. active_not_paused e
happen-Flagged (config_days standby cooling) p l h = h
happen-Flagged save_config p l h = click-Flagged p.saving_config (handle_save_config p) p refl h
happen-Flagged (save_answered reply) p l h = save_answer-Flagged p.saving_config reply p h
happen-Flagged (pause_form pin days why) p l h = h
happen-Flagged pause p l h =
    click-Flagged p.pausing (handle_pause_switch p) p
      (if_both (λ (q : SwitchPage). q.switch ≡ p.switch) (ltb (chars p.pause_pin) 4) refl refl) h
happen-Flagged (pause_answered now reply) p l h = pause_answer-Flagged now p.pausing reply p h
happen-Flagged (resumed (ok u)) p l h = h
happen-Flagged (resumed not_ok) p l h = λ e. active_not_paused e
happen-Flagged (resumed offline) p l h = λ e. active_not_paused e
happen-Flagged timeout p l h = h

happen_all-Flagged :
    (es : List Happening) (p : SwitchPage)
    → All EventIsFlagged es
    → PausedIsFlagged p.switch
    → PausedIsFlagged (happen_all es p).switch
unfolding happen_all
happen_all-Flagged [] p l h = h
happen_all-Flagged (e ∷ es) p (l, ls) h =
    happen_all-Flagged es (happen e p) ls (happen-Flagged e p l h)

-- After any events, if the server's statuses that read PAUSED have their flag set, a status PAUSED of the
-- page has its flag set.
pub paused-is_flagged :
    (now : ℕ) (es : List Happening)
    → All EventIsFlagged es
    → (happen_all es (initial_page now)).switch.status ≡ paused
    → (happen_all es (initial_page now)).switch.is_paused ≡ true
unfolding initial_page
paused-is_flagged now es l = happen_all-Flagged es (initial_page now) l (λ e. active_not_paused e)

-- The stages that the timeline shows while the flag is set and the switch is ACTIVE.
abbrev pub suspended : List Milestone
suspended = completed ∷ pending ∷ pending ∷ pending ∷ pending ∷ []

pending_when_paused :
    (s : SwitchStatus) (day : ℕ) → s.is_paused ≡ true → get_timeline_status s day ≡ pending
unfolding get_timeline_status
pending_when_paused s day h = if_true _ _ _ h

timeline-suspended :
    (s : SwitchStatus) → s.is_paused ≡ true → s.status ≡ active → timeline s ≡ suspended
unfolding timeline
timeline-suspended s h a =
    let standby : ℕ = days_or s.standby_days 90 in
    rw (
      a,
      pending_when_paused s (standby / 2) h,
      pending_when_paused s (standby * 8 / 10) h,
      pending_when_paused s standby h,
    )

-- A check-in that the server refuses on a paused page is reported as a success and makes the switch ACTIVE,
-- but the flag stays set: the timeline shows the timers suspended.
pub refused_heartbeat_stays_paused :
    (now : ℕ) (p : SwitchPage)
    → p.switch.is_paused ≡ true
    → let q : SwitchPage = heartbeat_reply now not_ok p in
      (q.action_success ≡ some "Heartbeat verified! Countdown reset to Day 0.")
      × (q.switch.status ≡ active)
      × (timeline q.switch ≡ suspended)
unfolding heartbeat_reply
refused_heartbeat_stays_paused now p h = (refl, refl, timeline-suspended _ h refl)

-- How far a stage has come.
abbrev pub rank : Milestone → ℕ
rank completed = 2
rank current = 1
rank _ = 0

get_timeline_status_order :
    (s : SwitchStatus) (m n : ℕ)
    → m ≤ n
    → rank (get_timeline_status s n) ≤ rank (get_timeline_status s m)
unfolding get_timeline_status
get_timeline_status_order s m n h = ground arith

rank_bound : (m : Milestone) → rank m ≤ 2
rank_bound completed = omega arith
rank_bound current = omega arith
rank_bound pending = omega arith
rank_bound failed = omega arith

-- No stage of a list has come farther than the one before it.
abbrev pub InOrder : List Milestone → Type 0
InOrder [] = Unit
InOrder (m ∷ []) = Unit
InOrder (m ∷ n ∷ ms) = (rank n ≤ rank m) × InOrder (n ∷ ms)

-- The timeline for the statuses of its stages.
abbrev staged : SwitchState → Milestone → Milestone → Milestone → List Milestone
staged x stage_1 stage_2 expiry =
    completed
    ∷ (stage_1
        ∷ (stage_2
            ∷ ((elim x [ cooling_period ↦ current | _ ↦ expiry ])
                ∷ ((elim x [ switch_triggered ↦ failed | _ ↦ pending ]) ∷ []))))

staged-InOrder :
    (x : SwitchState) (stage_1 stage_2 expiry : Milestone)
    → x ≢ cooling_period
    → rank stage_2 ≤ rank stage_1
    → rank expiry ≤ rank stage_2
    → InOrder (staged x stage_1 stage_2 expiry)
staged-InOrder active a b c h e l = (rank_bound a, (e, (l, (omega arith, tt))))
staged-InOrder warning_stage_1 a b c h e l = (rank_bound a, (e, (l, (omega arith, tt))))
staged-InOrder warning_stage_2 a b c h e l = (rank_bound a, (e, (l, (omega arith, tt))))
staged-InOrder cooling_period a b c h e l = absurd (h refl)
staged-InOrder switch_triggered a b c h e l = (rank_bound a, (e, (l, (omega arith, tt))))
staged-InOrder paused a b c h e l = (rank_bound a, (e, (l, (omega arith, tt))))

-- Unless the switch is in its cooling period, no stage of the timeline has come farther than an earlier one,
-- however short the standby window is.
pub timeline-InOrder : (s : SwitchStatus) → s.status ≢ cooling_period → InOrder (timeline s)
unfolding timeline
timeline-InOrder s h =
    let standby : ℕ = days_or s.standby_days 90 in
    let early = get_timeline_status_order s (standby / 2) (standby * 8 / 10) (omega arith) in
    let late = get_timeline_status_order s (standby * 8 / 10) standby (omega arith) in
    staged-InOrder s.status _ _ _ h early late
