-- ===== src/Switch/Gauge.antt =====
-- The gauge of app/dashboard/settings/switch/page.tsx.
use secure_vault.Switch.{
  SwitchStatus, SwitchPage, SwitchConfig, PauseRequest, fetch_status, handle_heartbeat,
  heartbeat_reply, handle_save_config, save_config_reply, handle_pause_switch, pause_reply,
  handle_resume_switch, initial_page, elapsed_percentage, config_payload, check_in, Ratio,
  heartbeat_time,
}
use secure_vault.Switch.Events.{
  Happening, happen, happen_all, loaded, heartbeat, heartbeat_answered, config_days, save_config,
  save_answered, pause_form, pause, pause_answered, resumed, timeout, unless_on_its_way,
  save_answer_of, pause_answer_of,
}
use secure_vault.Replies.{Outcome, ok, not_ok, offline}
use secure_vault.Prelude.{
  ℕ, List, [], ◌∷◌, Option, none, some, arith, if_both, ◌≤◌, ltb, String, All, ◌*◌, chars,
  Bool-cases, leb, inl, inr, ◌≡◌, subst, refl,
}

-- The standby window has a day; the remaining days are within it; and the percentage is a number, its divisor not 0, of
-- at most 100.
pub record InBounds (s : SwitchStatus) : Type 0 where
  pub standby : 1 ≤ s.standby_days
  pub remaining : s.remaining_days ≤ s.standby_days
  pub divisor : 1 ≤ s.percentage_elapsed.den
  pub percentage : s.percentage_elapsed.num ≤ 100 * s.percentage_elapsed.den

-- What the server sends is in bounds.
abbrev pub LiveInBounds : Option SwitchStatus → Type 0
LiveInBounds none = Unit
LiveInBounds (some s) = InBounds s

-- The field for the window offers no window without a day.
abbrev pub EventInBounds : Happening → Type 0
EventInBounds (loaded live) = LiveInBounds live
EventInBounds (config_days standby cooling) = 1 ≤ standby
EventInBounds e = Unit

abbrev ConfigInBounds : Option SwitchConfig → Type 0
ConfigInBounds none = Unit
ConfigInBounds (some c) = 1 ≤ c.new_standby

-- The status, the field, and the request on its way.
abbrev PageInBounds : SwitchPage → Type 0
PageInBounds p = InBounds p.switch × ((1 ≤ p.config_standby) × ConfigInBounds p.saving_config)

fetch_status-InBounds :
    (live : Option SwitchStatus) (p : SwitchPage)
    → LiveInBounds live
    → PageInBounds p
    → PageInBounds (fetch_status live p)
unfolding fetch_status
fetch_status-InBounds none p l h = h
fetch_status-InBounds (some s) p l (h, (f, c)) = (l, (l.standby, c))

elapsed_percentage_bound :
    (days standby : ℕ)
    → (elapsed_percentage days standby).num ≤ 100 * (elapsed_percentage days standby).den
unfolding elapsed_percentage
elapsed_percentage_bound days standby = elim (Bool-cases (leb (days * 100) (100 * standby))) [
  | inl e ↦ rw e (ground arith)
  | inr e ↦ rw e (omega arith)
]

elapsed_percentage-den :
    (days standby : ℕ) → 1 ≤ standby → 1 ≤ (elapsed_percentage days standby).den
unfolding elapsed_percentage
elapsed_percentage-den days standby h = elim (Bool-cases (leb (days * 100) (100 * standby))) [
  | inl e ↦ rw e h
  | inr e ↦ rw e (omega arith)
]

-- The bounds speak of three fields only.
same_figures :
    (s t : SwitchStatus)
    → s.standby_days ≡ t.standby_days
    → s.remaining_days ≡ t.remaining_days
    → s.percentage_elapsed ≡ t.percentage_elapsed
    → InBounds s
    → InBounds t
same_figures s t d r q h = record {
  standby = subst (λ n. 1 ≤ n) d h.standby;
  remaining = omega (arith, d, r, h.remaining);
  divisor = subst (λ (x : Ratio). 1 ≤ x.den) q h.divisor;
  percentage = subst (λ (x : Ratio). x.num ≤ 100 * x.den) q h.percentage;
}

check_in-InBounds : (at : String) (s : SwitchStatus) → InBounds s → InBounds (check_in at s)
check_in-InBounds at s h = record {
  standby = h.standby;
  remaining = omega arith;
  divisor = omega arith;
  percentage = omega arith;
}

heartbeat_reply-InBounds :
    (now : ℕ) (reply : Outcome (Option String)) (p : SwitchPage)
    → PageInBounds p
    → PageInBounds (heartbeat_reply now reply p)
unfolding heartbeat_reply
heartbeat_reply-InBounds now (ok at) p (h, f) = (
  same_figures (check_in (heartbeat_time now at) p.switch) _ refl refl refl
      (check_in-InBounds (heartbeat_time now at) p.switch h),
  f,
)
heartbeat_reply-InBounds now not_ok p (h, f) = (check_in-InBounds _ p.switch h, f)
heartbeat_reply-InBounds now offline p (h, f) = (check_in-InBounds _ p.switch h, f)

save_answer-InBounds :
    (o : Option SwitchConfig) (reply : Outcome Unit) (p : SwitchPage)
    → ConfigInBounds o
    → PageInBounds p
    → PageInBounds (save_answer_of o reply p)
unfolding save_answer_of save_config_reply
save_answer-InBounds none reply p k h = h
save_answer-InBounds (some c) (ok u) p k (h, (f, x)) = (h, (f, tt))
save_answer-InBounds (some c) not_ok p k (h, (f, x)) = (
  record {
    standby = k;
    remaining = omega arith;
    divisor = elapsed_percentage-den p.switch.days_since_activity c.new_standby k;
    percentage = elapsed_percentage_bound p.switch.days_since_activity c.new_standby;
  },
  (f, tt),
)
save_answer-InBounds (some c) offline p k (h, (f, x)) = (h, (f, tt))

save-InBounds :
    (o : Option SwitchConfig) (p : SwitchPage)
    → PageInBounds p
    → PageInBounds (unless_on_its_way o (handle_save_config p) p)
unfolding unless_on_its_way handle_save_config config_payload
save-InBounds none p (h, (f, x)) = (h, (f, f))
save-InBounds (some c) p h = h

pause_answer-InBounds :
    (now : ℕ) (o : Option PauseRequest) (reply : Outcome Unit) (p : SwitchPage)
    → PageInBounds p
    → PageInBounds (pause_answer_of now o reply p)
unfolding pause_answer_of pause_reply
pause_answer-InBounds now none reply p h = h
pause_answer-InBounds now (some r) (ok u) p h = h
pause_answer-InBounds now (some r) not_ok p (h, f) = (same_figures p.switch _ refl refl refl h, f)
pause_answer-InBounds now (some r) offline p (h, f) = (same_figures p.switch _ refl refl refl h, f)

pause-InBounds :
    (o : Option PauseRequest) (p : SwitchPage)
    → PageInBounds p
    → PageInBounds (unless_on_its_way o (handle_pause_switch p) p)
unfolding unless_on_its_way handle_pause_switch
pause-InBounds none p h = if_both PageInBounds (ltb (chars p.pause_pin) 4) h h
pause-InBounds (some r) p h = h

resume-InBounds :
    (reply : Outcome Unit) (p : SwitchPage)
    → PageInBounds p
    → PageInBounds (handle_resume_switch reply p)
unfolding handle_resume_switch
resume-InBounds (ok u) p h = h
resume-InBounds not_ok p (h, f) = (same_figures p.switch _ refl refl refl h, f)
resume-InBounds offline p (h, f) = (same_figures p.switch _ refl refl refl h, f)

happen-InBounds :
    (e : Happening) (p : SwitchPage) → EventInBounds e → PageInBounds p → PageInBounds (happen e p)
unfolding happen handle_heartbeat
happen-InBounds (loaded live) p l h = fetch_status-InBounds live p l h
happen-InBounds heartbeat p l h = h
happen-InBounds (heartbeat_answered now reply) p l h = heartbeat_reply-InBounds now reply p h
happen-InBounds (config_days standby cooling) p l (h, (f, c)) = (h, (l, c))
happen-InBounds save_config p l h = save-InBounds p.saving_config p h
happen-InBounds (save_answered reply) p l h = save_answer-InBounds p.saving_config reply p (h.1.1) h
happen-InBounds (pause_form pin days why) p l h = h
happen-InBounds pause p l h = pause-InBounds p.pausing p h
happen-InBounds (pause_answered now reply) p l h = pause_answer-InBounds now p.pausing reply p h
happen-InBounds (resumed reply) p l h = resume-InBounds reply p h
happen-InBounds timeout p l h = h

happen_all-InBounds :
    (es : List Happening) (p : SwitchPage)
    → All EventInBounds es
    → PageInBounds p
    → PageInBounds (happen_all es p)
unfolding happen_all
happen_all-InBounds [] p l h = h
happen_all-InBounds (e ∷ es) p (l, ls) h =
    happen_all-InBounds es (happen e p) ls (happen-InBounds e p l h)

-- After any clicks and replies in any order, if every status that the server sends is in bounds and no window without a
-- day is chosen, the gauge shows at most as many remaining days as the standby window has, and a percentage that is a
-- number of at most 100.
pub gauge-InBounds :
    (now : ℕ) (es : List Happening)
    → All EventInBounds es
    → InBounds (happen_all es (initial_page now)).switch
unfolding initial_page
gauge-InBounds now es l =
    (happen_all-InBounds es (initial_page now) l (
      record {
        standby = omega arith;
        remaining = omega arith;
        divisor = omega arith;
        percentage = omega arith;
      },
      (omega arith, tt),
    )).0
