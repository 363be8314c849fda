-- ===== src/Heartbeat/Silence.antt =====
-- When the heartbeat of components/auth/session-timeout-tracker.tsx beats, and when it is silent.
use secure_vault.Heartbeat.{
  Sample, Tracker, TrackerEvent, check, tick, tracker_step, heartbeats, check_auth_and_start,
  heartbeat_tick,
}
use secure_vault.Prelude.{
  String, Bool, true, false, none, some, List, [], ◌∷◌, ◌≡◌, refl, arith, any, string_eq, eq_refl,
  is_empty, if◌then◌else◌, ap, ◌||◌, ◌∙◌,
}

abbrev pub logged_in_as : String → Sample
logged_in_as i = record { logged_in = true; user_id = some i }

abbrev pub logged_out : Sample
logged_out = record { logged_in = false; user_id = none }

-- The events of a time in which the user is logged in: checks and ticks, in any order.
abbrev pub events_of : String → List Bool → List TrackerEvent
events_of i [] = []
events_of i (b ∷ bs) =
    (if b then check (logged_in_as i) else tick (logged_in_as i)) ∷ events_of i bs

-- The interval is cleared, and the user it was for is still noted.
abbrev silent : String → Tracker
silent i = record { interval_set = false; last_logged = some i }

check_same :
    (i : String)
    → is_empty i ≡ false
    → check_auth_and_start (logged_in_as i) (silent i) ≡ (silent i, false)
unfolding check_auth_and_start
check_same i h = ground (arith, h, eq_refl i)

stays_silent :
    (i : String) (bs : List Bool)
    → is_empty i ≡ false
    → any (λ b. b) (heartbeats (events_of i bs) (silent i)) ≡ false
unfolding heartbeats tracker_step heartbeat_tick
stays_silent i [] h = refl
stays_silent i (true ∷ bs) h =
    ap (λ (r : Tracker × Bool). r.1 || any (λ b. b) (heartbeats (events_of i bs) (r.0)))
      (check_same i h)
    ∙ stays_silent i bs h
stays_silent i (false ∷ bs) h = stays_silent i bs h

-- A user whose logout only a tick of the interval has seen, and no check, is never reported again: after the
-- next login as the same user no check and no tick sends a heartbeat, however long the user stays.
pub heartbeats-silent :
    (i : String) (bs : List Bool)
    → is_empty i ≡ false
    → any
        (λ b. b)
        (heartbeats
          (tick logged_out ∷ events_of i bs)
          (record { interval_set = true; last_logged = some i }))
      ≡ false
unfolding heartbeats tracker_step heartbeat_tick
heartbeats-silent i bs h = stays_silent i bs h
