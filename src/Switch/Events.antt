-- ===== src/Switch/Events.antt =====
-- The clicks, the replies and the timer of app/dashboard/settings/switch/page.tsx, in any order.
use secure_vault.Prelude.{ℕ, Option, List, ◌∷◌, some, none, String, []}
use secure_vault.Switch.{
  save_config_reply, pause_reply, fetch_status, handle_heartbeat, SwitchStatus, SwitchPage,
  SwitchConfig, PauseRequest, heartbeat_reply, Outcome, handle_save_config, handle_pause_switch,
  handle_resume_switch,
}

pub data Happening : Type 0 where
  loaded : Option SwitchStatus → Happening
  heartbeat : Happening
  heartbeat_answered : ℕ → Outcome (Option String) → Happening
  config_days : ℕ → ℕ → Happening
  save_config : Happening
  save_answered : Outcome Unit → Happening
  pause_form : String → ℕ → String → Happening
  pause : Happening
  pause_answered : ℕ → Outcome Unit → Happening
  resumed : Outcome Unit → Happening
  timeout : Happening

-- A button whose request is on its way is disabled.
unfoldable pub unless_on_its_way : {A : Type 0} → Option A → SwitchPage → SwitchPage → SwitchPage
unless_on_its_way none q p = q
unless_on_its_way (some a) q p = p

unfoldable pub save_answer_of : Option SwitchConfig → Outcome Unit → SwitchPage → SwitchPage
unfolding save_config_reply
save_answer_of none reply p = p
save_answer_of (some c) reply p = save_config_reply c reply p

unfoldable pub pause_answer_of : ℕ → Option PauseRequest → Outcome Unit → SwitchPage → SwitchPage
unfolding pause_reply
pause_answer_of now none reply p = p
pause_answer_of now (some r) reply p = pause_reply now r reply p

-- What the page does with one event: the fields' handlers, the buttons', the replies' and the timer's.
unfoldable pub happen : Happening → SwitchPage → SwitchPage
unfolding fetch_status handle_heartbeat heartbeat_reply handle_save_config handle_pause_switch
    handle_resume_switch unless_on_its_way save_answer_of pause_answer_of
happen (loaded live) p = fetch_status live p
happen heartbeat p = handle_heartbeat p
happen (heartbeat_answered now reply) p = heartbeat_reply now reply p
happen (config_days standby cooling) p = record p {
  config_standby = standby;
  config_cooling = cooling;
}
happen save_config p = unless_on_its_way p.saving_config (handle_save_config p) p
happen (save_answered reply) p = save_answer_of p.saving_config reply p
happen (pause_form pin days why) p = record p { pause_pin = pin; pause_days = days; reason = why }
happen pause p = unless_on_its_way p.pausing (handle_pause_switch p) p
happen (pause_answered now reply) p = pause_answer_of now p.pausing reply p
happen (resumed reply) p = handle_resume_switch reply p
happen timeout p = record p { action_success = none }

unfoldable pub happen_all : List Happening → SwitchPage → SwitchPage
unfolding happen
happen_all [] p = p
happen_all (e ∷ es) p = happen_all es (happen e p)
