-- ===== src/Tests/Monitor.antt =====
-- Passes of the monitor over one box whose app does not respond.
use magnemite.Prelude.{
  ℕ, suc, ◌≡◌, ◌≤◌, refl, sort, Bool, true, false, Option, none, some, List, [], ◌∷◌, ◌++◌, All,
  arith, trim, number,
}
use magnemite.Window.{inside_window}
use magnemite.Monitor.{
  MonitorSignal, MonitorAction, MonitorLevel, MonitorRule, MonitorStep, MonitorSettings, DeviceRow,
  Reading, Monitor, Call, run_script, is_hard, fresh_reading, reading_of,
}
use magnemite.Monitor.Rules.{
  rules_for, load_enabled_rules, choose_rules, put_rule, applies, same_key,
}
use magnemite.Monitor.Rules.Choice.{IsChoice, rules_for-IsChoice}
use magnemite.Monitor.Signals.{read_signal}
use magnemite.Monitor.Actions.{
  Outside, exec_on_device, run_action, substitute_pkg, replace_pkg, tripped,
}
use magnemite.Monitor.Records.{already_said, find_state}
use magnemite.Monitor.Ladder.{Pass, climb, take_signal, evaluate_rule, earned}
use magnemite.Monitor.Ladder.Counter.{
  SignalRead, in_a_row, take_signals, count_in, take_signals-count,
}
use magnemite.Monitor.Pass.{
  Watch, hour_ms, day_ms, evaluate, is_busy, spent_budgets, evaluate_rules, evaluate_device,
  evaluate_devices, look_at_fleet, prune_events,
}
use magnemite.Monitor.Pass.Breakers.{calls_within}
use magnemite.Monitor.Pass.Run.{any_action, starts, passes, Runs-calls_within}
use magnemite.Monitor.Pass.Warrant.{IsWarranted, evaluate-IsWarranted}
use magnemite.Monitor.Pass.HeldBack.{climb-held_back}

abbrev pub noon : ℕ
noon = 1000000000

abbrev step : ℕ → MonitorAction → MonitorStep
step n a = record { at_failure = n; action = a; command = none }

abbrev pub anr_rule : MonitorRule
anr_rule = record {
  id = 7;
  name = "Pogo not responding";
  enabled = true;
  group_id = none;
  signal = MonitorSignal.app_anr;
  package_name = some "pogo";
  config = none;
  threshold = 1;
  cooldown_seconds = 120;
  window_start = none;
  window_end = none;
  notify_level = MonitorLevel.warn;
  notify = true;
  notify_recovery = false;
  position = 0;
  steps = step 1 MonitorAction.kill_app ∷ step 2 MonitorAction.reboot ∷ [];
}

abbrev group_rule : MonitorRule
group_rule = record anr_rule { id = 8; group_id = some 3; position = 1 }

abbrev pub box : DeviceRow
box = record {
  id = 1;
  name = "box";
  approved = true;
  group_id = none;
  group_name = none;
  is_marked_online = true;
  last_seen_at = none;
  rotom_device_id = none;
  rotom_enabled = true;
  rotom_connected = false;
  rotom_can_be_used = false;
  rotom_last_seen_at = none;
  rotom_worker_count = none;
  rotom_workers_in_use = none;
  rotom_stat_workers = none;
  rotom_request_rate = none;
}

abbrev settings : MonitorSettings
settings = record {
  enabled = true;
  startup_grace_seconds = 180;
  reboot_grace_seconds = 600;
  rotom_stale_seconds = 600;
  max_actions_per_device_hour = 4;
  max_reboots_per_device_day = 6;
  event_retention_days = 30;
}

abbrev pub outside : Outside
outside = record {
  rotom_is_on = false;
  is_online = λ d. true;
  takes_message = λ d. true;
  answer = λ d s. some (record { ok = true; output = ""; error = none });
  rotom_does = λ r a. false;
  notice_lands = λ d r e. true;
  local_minutes = λ t. 720;
}

abbrev hung : Reading
hung = record {
  device_id = 1;
  at = noon;
  ran = true;
  foreground = "pogo";
  anr = "pogo" ∷ [];
  checks = [];
  processes = "pogo" ∷ [];
}

abbrev watch : Watch
watch = record {
  settings = settings;
  heartbeat_seconds = 20;
  device_offline_timeout_seconds = 90;
  devices = box ∷ [];
  jobs = [];
  rules = anr_rule ∷ [];
}

abbrev pub at_first : Monitor
at_first = record {
  states = [];
  events = [];
  bus = [];
  calls = [];
  readings = hung ∷ [];
  last_tick_at = 0;
  started_at = 0;
  last_prune_at = 0;
}

abbrev first_call : Call
first_call = record {
  device_id = 1;
  at = noon;
  action = MonitorAction.kill_app;
  request = run_script "am force-stop pogo";
}

first_pass : (evaluate outside noon watch at_first).calls ≡ first_call ∷ []
unfolding evaluate load_enabled_rules sort look_at_fleet prune_events spent_budgets evaluate_devices
    evaluate_device evaluate_rules is_busy fresh_reading reading_of rules_for choose_rules put_rule
    applies same_key read_signal evaluate_rule take_signal find_state earned climb run_action
    exec_on_device substitute_pkg replace_pkg tripped inside_window trim
first_pass = refl

Runs-calls_within_example :
    (calls_within any_action hour_ms noon 1 (evaluate outside noon watch at_first).calls ≤ 4)
    × (calls_within is_hard day_ms noon 1 (evaluate outside noon watch at_first).calls ≤ 6)
Runs-calls_within_example =
    Runs-calls_within 4 6 noon 1 (evaluate outside noon watch at_first)
      (passes noon outside watch (omega arith) (omega arith) (omega arith) (starts {now = 0} refl))

evaluate-IsWarranted_example :
    (new : List Call) × ((evaluate outside noon watch at_first).calls ≡ new ++ [])
    × All (IsWarranted outside noon watch at_first) new
evaluate-IsWarranted_example = evaluate-IsWarranted outside noon watch at_first

rules_for-IsChoice_example :
    IsChoice (some 3) (anr_rule ∷ group_rule ∷ []) (rules_for (anr_rule ∷ group_rule ∷ []) (some 3))
rules_for-IsChoice_example = rules_for-IsChoice (anr_rule ∷ group_rule ∷ []) (some 3)

group_rule_wins : rules_for (anr_rule ∷ group_rule ∷ []) (some 3) ≡ group_rule ∷ []
unfolding rules_for choose_rules put_rule applies same_key
group_rule_wins = refl

abbrev heard : Option Bool → SignalRead
heard bad = record {
  now = noon;
  device = box;
  rule = anr_rule;
  reading = some hung;
  settings = settings;
  bad = bad;
}

abbrev before : Pass
before = record { monitor = at_first; budgets = record { actions = λ d. 0; reboots = λ d. 0 } }

take_signals-count_example :
    count_in 1 7
      (take_signals outside
        (heard (some true) ∷ heard none ∷ heard (some true) ∷ [])
        before).monitor.states
    ≡ in_a_row 1 7 (heard (some true) ∷ heard none ∷ heard (some true) ∷ [])
unfolding find_state
take_signals-count_example =
    take_signals-count 1 7 outside (heard (some true) ∷ heard none ∷ heard (some true) ∷ []) before
      refl

abbrev night_rule : MonitorRule
night_rule = record anr_rule { window_start = some "22:00"; window_end = some "06:00" }

climb-held_back_example :
    let m =
      (climb outside noon settings box night_rule none
        (some hung)
        (step 1 MonitorAction.reboot)
        before).monitor in
    (m.calls ≡ [])
    × ((spent_budgets noon m.events).actions 1 ≡ suc ((spent_budgets noon []).actions 1))
    × (is_hard MonitorAction.reboot ≡ true
        → (spent_budgets noon m.events).reboots 1 ≡ suc ((spent_budgets noon []).reboots 1))
    × (already_said 1 7 "Pogo not responding" m.events ≡ false)
unfolding inside_window already_said number
climb-held_back_example =
    climb-held_back outside noon settings box night_rule none (some hung)
      (step 1 MonitorAction.reboot) before refl refl refl refl
