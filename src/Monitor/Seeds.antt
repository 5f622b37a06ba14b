-- ===== src/Monitor/Seeds.antt =====
-- monitor.ts: the rules that a new fleet starts with (SEEDS, seedDefaultMonitorRules).
pub mod Disabled
use magnemite.Prelude.{
  ℕ, suc, ◌+◌, Bool, true, false, Option, none, some, String, List, [], ◌∷◌, length,
}
use magnemite.Monitor.{
  MonitorSignal, agent_offline, service_down, app_not_foreground, app_anr, health_check_failed,
  loop_stalled, rotom_disconnected, rotom_not_scanning, rotom_idle, MonitorAction, notify_only,
  restart_app, kill_app, clear_cache_restart, send_keyevent, reboot, rotom_restart,
  rotom_disconnect, rotom_reboot, MonitorLevel, info, warn, RawProbe, MonitorStep, MonitorRule,
}

abbrev pogo : String
pogo = "com.nianticlabs.pokemongo"

abbrev scanner : String
scanner = "com.pokemod.aegis"

abbrev mitm_log : String
mitm_log = "/data/local/tmp/atlas.log"

pub record Seed : Type 0 where
  pub name : String
  pub signal : MonitorSignal
  pub package_name : Option String
  pub config : Option RawProbe
  pub threshold : ℕ
  pub cooldown_seconds : ℕ
  pub notify : Bool
  pub notify_level : MonitorLevel
  pub steps : List MonitorStep

abbrev rung : ℕ → MonitorAction → MonitorStep
rung n a = record { at_failure = n; action = a; command = none }

abbrev bare_probe : (kind target : String) → RawProbe
bare_probe kind target = record {
  kind = some kind;
  target = some target;
  expect = none;
  lines = none;
  fail_at = none;
  success_pattern = none;
  max_ratio = none;
  max_age_seconds = none;
  timeout_seconds = some 15;
}

abbrev scanner_offline : Seed
scanner_offline = record {
  name = "Scanner offline";
  signal = service_down;
  package_name = some scanner;
  config = some (bare_probe "shell" "dumpsys activity services | grep -e MappingService");
  threshold = 1;
  cooldown_seconds = 300;
  notify = true;
  notify_level = warn;
  steps = rung 1 restart_app ∷ rung 2 reboot ∷ [];
}

abbrev pogo_not_in_focus : Seed
pogo_not_in_focus = record {
  name = "Pogo not in focus";
  signal = app_not_foreground;
  package_name = some pogo;
  config = none;
  threshold = 1;
  cooldown_seconds = 300;
  notify = false;
  notify_level = info;
  steps = rung 1 clear_cache_restart ∷ rung 2 reboot ∷ [];
}

abbrev pogo_not_responding : Seed
pogo_not_responding = record {
  name = "Pogo not responding";
  signal = app_anr;
  package_name = some pogo;
  config = none;
  threshold = 1;
  cooldown_seconds = 120;
  notify = true;
  notify_level = warn;
  steps = rung 1 send_keyevent ∷ rung 2 reboot ∷ [];
}

abbrev health_check_failing : Seed
health_check_failing = record {
  name = "Health check failing";
  signal = health_check_failed;
  package_name = some pogo;
  config = some (record (bare_probe "logMatch" mitm_log) {
    lines = some 200;
    expect = some "\\[HEALTH CHECK\\] ([0-9]+) seconds since last ping\\.";
    fail_at = some 10;
    success_pattern = some "I \\| Worker";
    max_ratio = some 1;
  });
  threshold = 1;
  cooldown_seconds = 600;
  notify = true;
  notify_level = warn;
  steps = rung 1 kill_app ∷ [];
}

abbrev loop_has_stalled : Seed
loop_has_stalled = record {
  name = "Loop stalled";
  signal = loop_stalled;
  package_name = some scanner;
  config = some (record (bare_probe "logMatch" mitm_log) {
    lines = some 200;
    expect = some "loop has been stalled for over a minute";
    fail_at = some 1;
  });
  threshold = 1;
  cooldown_seconds = 600;
  notify = true;
  notify_level = warn;
  steps = rung 1 restart_app ∷ [];
}

abbrev box_unreachable : Seed
box_unreachable = record {
  name = "Box unreachable";
  signal = agent_offline;
  package_name = none;
  config = none;
  threshold = 1;
  cooldown_seconds = 1800;
  notify = true;
  notify_level = warn;
  steps = rung 1 notify_only ∷ [];
}

abbrev rotom_lost_the_box : Seed
rotom_lost_the_box = record {
  name = "Rotom lost the box";
  signal = rotom_disconnected;
  package_name = none;
  config = none;
  threshold = 2;
  cooldown_seconds = 1800;
  notify = true;
  notify_level = warn;
  steps = rung 1 notify_only ∷ rung 3 rotom_restart ∷ rung 6 reboot ∷ [];
}

abbrev rotom_has_no_workers : Seed
rotom_has_no_workers = record {
  name = "Rotom has the box but no workers";
  signal = rotom_not_scanning;
  package_name = none;
  config = none;
  threshold = 3;
  cooldown_seconds = 1800;
  notify = true;
  notify_level = warn;
  steps = rung 1 notify_only ∷ rung 3 rotom_restart ∷ rung 6 rotom_reboot ∷ [];
}

abbrev scanner_is_idle : Seed
scanner_is_idle = record {
  name = "Scanner is allocated and doing nothing";
  signal = rotom_idle;
  package_name = none;
  config = none;
  threshold = 5;
  cooldown_seconds = 1800;
  notify = true;
  notify_level = warn;
  steps = rung 1 notify_only ∷ rung 5 rotom_disconnect ∷ rung 8 rotom_restart ∷ [];
}

abbrev pub seeds : List Seed
seeds =
    scanner_offline ∷ pogo_not_in_focus ∷ pogo_not_responding ∷ health_check_failing
    ∷ loop_has_stalled ∷ box_unreachable ∷ rotom_lost_the_box ∷ rotom_has_no_workers
    ∷ scanner_is_idle ∷ []

-- `key` makes the keys of the new rows; the other columns have the defaults of the schema.
abbrev rule_from : (key : ℕ → ℕ) → (index : ℕ) → Seed → MonitorRule
rule_from key index seed = record {
  id = key index;
  name = seed.name;
  enabled = false;
  group_id = none;
  signal = seed.signal;
  package_name = seed.package_name;
  config = seed.config;
  threshold = seed.threshold;
  cooldown_seconds = seed.cooldown_seconds;
  window_start = none;
  window_end = none;
  notify_level = seed.notify_level;
  notify = seed.notify;
  notify_recovery = false;
  position = index;
  steps = seed.steps;
}

unfoldable pub rules_from : (key : ℕ → ℕ) → (index : ℕ) → List Seed → List MonitorRule
rules_from key index [] = []
rules_from key index (seed ∷ rest) = rule_from key index seed ∷ rules_from key (suc index) rest

-- The table of rules after the call, and what it answers.
unfoldable pub seed_default_monitor_rules : (key : ℕ → ℕ) → List MonitorRule → List MonitorRule × ℕ
unfolding rules_from
seed_default_monitor_rules key [] = (rules_from key 0 seeds, length seeds)
seed_default_monitor_rules key (r ∷ rs) = (r ∷ rs, 0)
