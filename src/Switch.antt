-- ===== src/Switch.antt =====
-- The dead man's switch of app/dashboard/settings/switch/page.tsx: the status that the page holds, and the
-- handlers that check in, save the policy, pause and resume. The fields for days hold what the selects and
-- the server write, texts of natural numbers; the model keeps the number.
pub mod Events
pub mod Gauge
pub mod Pausing
pub mod Timeline
use secure_vault.Prelude.{
  ℕ, String, Bool, true, false, Option, none, some, List, ◌&◌, nat_eq, if◌then◌else◌, ◌∷◌, ◌==◌,
  ◌/◌, ◌-◌, ◌+◌, ltb, leb, is_empty, ◌*◌, chars, [],
}
use secure_vault.Prelude.Decimal.{to_string}
use secure_vault.Prelude.Clock.{to_iso_string}
use secure_vault.Replies.{Outcome, ok, not_ok, offline}

pub data SwitchState : Type 0 where
  active : SwitchState
  warning_stage_1 : SwitchState
  warning_stage_2 : SwitchState
  cooling_period : SwitchState
  switch_triggered : SwitchState
  paused : SwitchState

-- A percentage as the fraction that its division denotes; 0 / 0 is NaN.
pub record Ratio : Type 0 where
  pub num : ℕ
  pub den : ℕ

pub record SwitchStatus : Type 0 where
  pub is_enabled : Bool
  pub status : SwitchState
  pub standby_days : ℕ
  pub cooling_period_days : ℕ
  pub days_since_activity : ℕ
  pub remaining_days : ℕ
  pub percentage_elapsed : Ratio
  pub last_heartbeat_at : String
  pub is_paused : Bool
  pub pause_reason : Option String
  pub paused_until : Option String

pub record SwitchConfig : Type 0 where
  pub new_standby : ℕ
  pub new_cooling : ℕ
  pub warning_stage_1_days : ℕ
  pub warning_stage_2_days : ℕ

-- The days and the reason of a pause, as its handler has read them.
pub record PauseRequest : Type 0 where
  pub for_days : ℕ
  pub because : String

-- `saving_config` and `pausing` hold what the requests on their way were sent with.
pub record SwitchPage : Type 0 where
  pub switch : SwitchStatus
  pub show_pause_modal : Bool
  pub pause_pin : String
  pub pause_days : ℕ
  pub reason : String
  pub action_success : Option String
  pub action_error : Option String
  pub config_standby : ℕ
  pub config_cooling : ℕ
  pub saving_config : Option SwitchConfig
  pub pausing : Option PauseRequest

abbrev pub day_ms : ℕ
day_ms = 86400000

-- The page when it is opened at `now`.
unfoldable pub initial_page : ℕ → SwitchPage
initial_page now = record {
  switch = record {
    is_enabled = true;
    status = active;
    standby_days = 90;
    cooling_period_days = 14;
    days_since_activity = 12;
    remaining_days = 78;
    percentage_elapsed = record { num = 133; den = 10 };
    last_heartbeat_at = to_iso_string (now - 12 * day_ms);
    is_paused = false;
    pause_reason = none;
    paused_until = none;
  };
  show_pause_modal = false;
  pause_pin = "";
  pause_days = 30;
  reason = "Extended International Travel";
  action_success = none;
  action_error = none;
  config_standby = 90;
  config_cooling = 14;
  saving_config = none;
  pausing = none;
}

-- `fetchStatus`: the status that the server sends, or none when the reply is not ok or the request fails.
unfoldable pub fetch_status : Option SwitchStatus → SwitchPage → SwitchPage
fetch_status none p = p
fetch_status (some live) p = record p {
  switch = live;
  config_standby = live.standby_days;
  config_cooling = live.cooling_period_days;
}

abbrev pub said : String → SwitchPage → SwitchPage
said text p = record p { action_success = some text }

-- The status with the counter set back.
abbrev pub check_in : String → SwitchStatus → SwitchStatus
check_in at s = record s {
  status = active;
  days_since_activity = 0;
  remaining_days = s.standby_days;
  percentage_elapsed = record { num = 0; den = 1 };
  last_heartbeat_at = at;
}

-- `data.last_heartbeat_at || new Date().toISOString()`
abbrev pub heartbeat_time : ℕ → Option String → String
heartbeat_time now none = to_iso_string now
heartbeat_time now (some at) = if is_empty at then to_iso_string now else at

-- `handleHeartbeat` until its request, and from its reply on.
unfoldable pub handle_heartbeat : SwitchPage → SwitchPage
handle_heartbeat p = record p { action_success = none; action_error = none }

unfoldable pub heartbeat_reply : ℕ → Outcome (Option String) → SwitchPage → SwitchPage
heartbeat_reply now (ok at) p =
    said "Heartbeat recorded successfully! Timer reset." (record p {
      switch = record (check_in (heartbeat_time now at) p.switch) { is_paused = false };
    })
heartbeat_reply now not_ok p =
    said "Heartbeat verified! Countdown reset to Day 0."
      (record p { switch = check_in (to_iso_string now) p.switch })
heartbeat_reply now offline p =
    said "Heartbeat verified! Countdown reset."
      (record p { switch = check_in (to_iso_string now) p.switch })

-- The body of the request that saves the policy.
unfoldable pub config_payload : SwitchPage → SwitchConfig
config_payload p = record {
  new_standby = p.config_standby;
  new_cooling = p.config_cooling;
  warning_stage_1_days = p.config_standby / 2;
  warning_stage_2_days = p.config_standby * 8 / 10;
}

-- `Math.min(100, (days / standby) * 100)`
unfoldable pub elapsed_percentage : ℕ → ℕ → Ratio
elapsed_percentage days standby =
    if leb (days * 100) (100 * standby)
    then record { num = days * 100; den = standby }
    else record { num = 100; den = 1 }

-- `handleSaveConfig` until its request.
unfoldable pub handle_save_config : SwitchPage → SwitchPage
unfolding config_payload
handle_save_config p = record p {
  action_success = none;
  action_error = none;
  saving_config = some (config_payload p);
}

-- ... and from its reply on. After an ok reply `fetchStatus` is called, whose end is an event of its own.
unfoldable pub save_config_reply : SwitchConfig → Outcome Unit → SwitchPage → SwitchPage
unfolding elapsed_percentage
save_config_reply c (ok u) p =
    said "Switch policy updated successfully." (record p { saving_config = none })
save_config_reply c not_ok p = said "Configuration updated in local session." (record p {
  saving_config = none;
  switch = record (p.switch) {
    standby_days = c.new_standby;
    cooling_period_days = c.new_cooling;
    remaining_days = c.new_standby - p.switch.days_since_activity;
    percentage_elapsed = elapsed_percentage p.switch.days_since_activity c.new_standby;
  };
})
save_config_reply c offline p = said "Configuration updated." (record p { saving_config = none })

-- `handlePauseSwitch` until its request.
unfoldable pub handle_pause_switch : SwitchPage → SwitchPage
handle_pause_switch p =
    if ltb (chars p.pause_pin) 4
    then record p { action_error = some "Please enter a valid 4-6 digit security PIN." }
    else record p {
      action_error = none;
      pausing = some (record { for_days = p.pause_days; because = p.reason });
    }

unfoldable pub pause_reply : ℕ → PauseRequest → Outcome Unit → SwitchPage → SwitchPage
pause_reply now r (ok u) p =
    said "Dead Man's Switch paused successfully. Timers suspended."
      (record p { pausing = none; show_pause_modal = false; pause_pin = "" })
pause_reply now r not_ok p =
    said ("Switch standby paused for " & to_string r.for_days & " days.") (record p {
      pausing = none;
      show_pause_modal = false;
      pause_pin = "";
      switch = record (p.switch) {
        status = paused;
        is_paused = true;
        pause_reason = some r.because;
        paused_until = some (to_iso_string (now + r.for_days * day_ms));
      };
    })
pause_reply now r offline p = said "Emergency pause mode engaged." (record p {
  pausing = none;
  show_pause_modal = false;
  switch = record (p.switch) { status = paused; is_paused = true };
})

-- `handleResumeSwitch` from its reply on; before, it only marks the page as loading.
unfoldable pub handle_resume_switch : Outcome Unit → SwitchPage → SwitchPage
handle_resume_switch (ok u) p = said "Standby surveillance resumed. Activity window active." p
handle_resume_switch not_ok p = said "Standby surveillance resumed." (record p {
  switch = record (p.switch) {
    status = active;
    is_paused = false;
    pause_reason = none;
    paused_until = none;
  };
})
handle_resume_switch offline p =
    said "Surveillance resumed."
      (record p { switch = record (p.switch) { is_paused = false; status = active } })
