-- ===== src/Examples/Dashboard.antt =====
-- Examples for the pages of the dashboard.
use secure_vault.Prelude.{List, [], ◌∷◌, arith}
use secure_vault.Replies.{not_ok, offline, ok}
use secure_vault.Switch.{initial_page}
use secure_vault.Switch.Events.{
  Happening, heartbeat, heartbeat_answered, config_days, save_config, save_answered, pause_form,
  pause, pause_answered, resumed, timeout, happen_all,
}
use secure_vault.Switch.Gauge.{gauge-InBounds, InBounds}

abbrev switch_events : List Happening
switch_events =
    config_days 30 7
    ∷ save_config
    ∷ heartbeat
    ∷ config_days 60 7
    ∷ heartbeat_answered 1790000000000 not_ok
    ∷ save_answered not_ok
    ∷ pause_form "1234" 30 "Travel"
    ∷ pause
    ∷ pause_answered 1790000000000 offline
    ∷ resumed (ok tt)
    ∷ timeout
    ∷ []

gauge-InBounds_example : InBounds (happen_all switch_events (initial_page 1790000000000)).switch
gauge-InBounds_example =
    gauge-InBounds 1790000000000 switch_events
      (omega arith, (tt, (tt, (omega arith, (tt, (tt, (tt, (tt, (tt, (tt, (tt, tt)))))))))))
