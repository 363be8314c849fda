-- ===== src/Heartbeat.antt =====
-- The heartbeat of components/auth/session-timeout-tracker.tsx: an interval that tells the server every thirty
-- seconds that the user is there, and the check every two seconds that starts and stops it.
pub mod Silence
use secure_vault.Prelude.{
  String, Bool, true, false, Option, none, some, List, ◌==◌, if◌then◌else◌, string_eq, ◌∷◌, ◌&&◌,
  is_empty, [],
}

-- What a timer finds in the store: `isLoggedIn()` and `getUser()?.id`.
pub record Sample : Type 0 where
  pub logged_in : Bool
  pub user_id : Option String

-- Whether the interval is set, and `lastLoggedUserId`.
pub record Tracker : Type 0 where
  pub interval_set : Bool
  pub last_logged : Option String

abbrev pub new_tracker : Tracker
new_tracker = record { interval_set = false; last_logged = none }

abbrev pub is_id : String → Option String → Bool
is_id i none = false
is_id i (some j) = j == i

-- The user whom the sample shows logged in; an empty id counts as none.
abbrev pub present : Sample → Option String
present s =
    if s.logged_in
    then elim s.user_id [ none ↦ none | some i ↦ if is_empty i then none else some i ]
    else none

-- `checkAuthAndStart`: the tracker, and whether a heartbeat is sent at once.
unfoldable pub check_auth_and_start : Sample → Tracker → Tracker × Bool
check_auth_and_start s t = elim (present s) [
  | none ↦ (new_tracker, false)
  | some i ↦
      if is_id i t.last_logged
      then (t, false)
      else (record { interval_set = true; last_logged = some i }, true)
]

abbrev pub same_user : Option String → Option String → Bool
same_user none last = false
same_user (some i) last = is_id i last

-- The interval's function: the tracker, and whether a heartbeat is sent.
unfoldable pub heartbeat_tick : Sample → Tracker → Tracker × Bool
heartbeat_tick s t =
    if t.interval_set
    then (if s.logged_in && same_user s.user_id t.last_logged
        then (t, true)
        else (record t { interval_set = false }, false))
    else (t, false)

pub data TrackerEvent : Type 0 where
  check : Sample → TrackerEvent
  tick : Sample → TrackerEvent

unfoldable pub tracker_step : TrackerEvent → Tracker → Tracker × Bool
unfolding check_auth_and_start heartbeat_tick
tracker_step (check s) t = check_auth_and_start s t
tracker_step (tick s) t = heartbeat_tick s t

-- Whether each event of a run sends a heartbeat.
unfoldable pub heartbeats : List TrackerEvent → Tracker → List Bool
unfolding tracker_step
heartbeats [] t = []
heartbeats (e ∷ es) t = (tracker_step e t).1 ∷ heartbeats es ((tracker_step e t).0)
