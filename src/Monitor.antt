-- ===== src/Monitor.antt =====
-- apps/hub/src/services/monitor.ts: the rows of the monitoring (packages/db/prisma/schema.base.prisma),
-- the latest readings of the boxes, and the state that a pass goes over: the counters, the events, the
-- three clocks of the module and what has been asked of boxes and of Rotom, newest first.
pub mod Rules
pub mod Signals
pub mod Actions
pub mod Records
pub mod Ladder
pub mod Pass
pub mod Seeds
use magnemite.Prelude.{
  ℕ, ◌+◌, ◌*◌, ◌==◌, ltb, if◌then◌else◌, Bool, true, false, ◌||◌, not, Option, none, some, or_else,
  or_maybe, String, str_eq, List, [], ◌∷◌, keep, map,
}
use magnemite.Store.{BusEvent}

pub data MonitorSignal : Type 0 where
  agent_offline service_down app_not_foreground app_anr health_check_failed : MonitorSignal
  loop_stalled rotom_disconnected rotom_not_scanning rotom_idle : MonitorSignal

pub data MonitorAction : Type 0 where
  notify_only restart_app kill_app clear_cache_restart send_keyevent start_service : MonitorAction
  shell reboot rotom_restart rotom_disconnect rotom_reboot : MonitorAction

pub data MonitorLevel : Type 0 where
  info warn critical : MonitorLevel

-- The probe of a rule as its JSON has it: `none` where a field is missing or of another type.
pub record RawProbe : Type 0 where
  pub kind : Option String
  pub target : Option String
  pub expect : Option String
  pub lines : Option ℕ
  pub fail_at : Option ℕ
  pub success_pattern : Option String
  pub max_ratio : Option ℕ
  pub max_age_seconds : Option ℕ
  pub timeout_seconds : Option ℕ

pub record MonitorStep : Type 0 where
  pub at_failure : ℕ
  pub action : MonitorAction
  pub command : Option String

pub record MonitorRule : Type 0 where
  pub id : ℕ
  pub name : String
  pub enabled : Bool
  pub group_id : Option ℕ
  pub signal : MonitorSignal
  pub package_name : Option String
  pub config : Option RawProbe
  pub threshold : ℕ
  pub cooldown_seconds : ℕ
  pub window_start : Option String
  pub window_end : Option String
  pub notify_level : MonitorLevel
  pub notify : Bool
  pub notify_recovery : Bool
  pub position : ℕ
  pub steps : List MonitorStep

pub record MonitorState : Type 0 where
  pub device_id : ℕ
  pub rule_id : ℕ
  pub failures : ℕ
  pub first_failed_at : Option ℕ
  pub last_action_at : Option ℕ
  pub last_step_fired : Option ℕ

-- The parts of an event's detail.
pub data Detail : Type 0 where
  probe_said : String → Detail
  held_back_until : Option String → Detail
  actions_spent : (count ceiling : ℕ) → Detail
  reboots_spent : (count ceiling : ℕ) → Detail
  reboot_not_taken : Detail
  not_matched_in_rotom : Detail
  rotom_refused : Detail
  no_command : Detail
  command_said : String → Detail

pub record MonitorEvent : Type 0 where
  pub device_id : ℕ
  pub rule_id : ℕ
  pub signal : MonitorSignal
  pub level : MonitorLevel
  pub message : String
  pub action : Option MonitorAction
  pub action_ok : Option Bool
  pub detail : List Detail
  pub notified : Bool
  pub recovery : Bool
  pub at : ℕ

-- The columns of a device that the monitor reads. A rate is in thousandths.
pub record DeviceRow : Type 0 where
  pub id : ℕ
  pub name : String
  pub approved : Bool
  pub group_id : Option ℕ
  pub group_name : Option String
  pub is_marked_online : Bool
  pub last_seen_at : Option ℕ
  pub rotom_device_id : Option String
  pub rotom_enabled : Bool
  pub rotom_connected : Bool
  pub rotom_can_be_used : Bool
  pub rotom_last_seen_at : Option ℕ
  pub rotom_worker_count : Option ℕ
  pub rotom_workers_in_use : Option ℕ
  pub rotom_stat_workers : Option ℕ
  pub rotom_request_rate : Option ℕ

pub record CheckResult : Type 0 where
  pub id : ℕ
  pub ok : Bool
  pub detail : Option String

-- What a box last said about itself.
pub record Reading : Type 0 where
  pub device_id : ℕ
  pub at : ℕ
  pub ran : Bool
  pub foreground : String
  pub anr : List String
  pub checks : List CheckResult
  pub processes : List String

pub record ProcessMetric : Type 0 where
  pub package_name : String
  pub process_count : Option ℕ

pub record DeviceMetrics : Type 0 where
  pub monitor_ran : Option Bool
  pub foreground_package : Option String
  pub anr_packages : List String
  pub checks : List CheckResult
  pub processes : List ProcessMetric

pub record MonitorSettings : Type 0 where
  pub enabled : Bool
  pub startup_grace_seconds : ℕ
  pub reboot_grace_seconds : ℕ
  pub rotom_stale_seconds : ℕ
  pub max_actions_per_device_hour : ℕ
  pub max_reboots_per_device_day : ℕ
  pub event_retention_days : ℕ

-- What is asked of a box, or of Rotom about it.
pub data Request : Type 0 where
  reboot_box : Request
  ask_rotom : (rotom_device_id : String) → MonitorAction → Request
  run_script : String → Request

pub record Call : Type 0 where
  pub device_id : ℕ
  pub at : ℕ
  pub action : MonitorAction
  pub request : Request

pub record Monitor : Type 0 where
  pub states : List MonitorState
  pub events : List MonitorEvent
  pub bus : List BusEvent
  pub calls : List Call
  pub readings : List Reading
  pub last_tick_at : ℕ
  pub started_at : ℕ
  pub last_prune_at : ℕ

unfoldable pub reading_of : ℕ → List Reading → Option Reading
reading_of d [] = none
reading_of d (r ∷ rs) = if r.device_id == d then some r else reading_of d rs

-- `readings.delete(deviceId)`.
unfoldable pub forget_reading : ℕ → List Reading → List Reading
forget_reading d rs = keep (λ r. not (r.device_id == d)) rs

abbrev is_running : ProcessMetric → Bool
is_running p = ltb 0 (or_else p.process_count 0)

unfoldable pub record_reading : (now d : ℕ) → DeviceMetrics → List Reading → List Reading
unfolding forget_reading
record_reading now d metrics rs =
    record {
      device_id = d;
      at = now;
      ran = or_else metrics.monitor_ran false;
      foreground = or_else metrics.foreground_package "";
      anr = metrics.anr_packages;
      checks = metrics.checks;
      processes = map (λ p. p.package_name) (keep is_running metrics.processes);
    }
    ∷ forget_reading d rs

abbrev pub reading_max_age_ms : ℕ
reading_max_age_ms = 3 * 60000

abbrev fresh : ℕ → Reading → Option Reading
fresh now r = if ltb (r.at + reading_max_age_ms) now then none else some r

unfoldable pub fresh_reading : (now d : ℕ) → List Reading → Option Reading
unfolding reading_of
fresh_reading now d rs = elim (reading_of d rs) [ none ↦ none | some r ↦ fresh now r ]

-- `checks.get(id)`: a Map made from a list has the last of an id.
unfoldable pub check_of : ℕ → List CheckResult → Option CheckResult
check_of id [] = none
check_of id (c ∷ cs) = or_maybe (check_of id cs) (if c.id == id then some c else none)

abbrev pub includes : String → List String → Bool
includes s [] = false
includes s (x ∷ xs) = str_eq x s || includes s xs

-- `markMonitorStart`.
unfoldable pub mark_monitor_start : ℕ → Monitor → Monitor
mark_monitor_start now m = record m { started_at = now; readings = [] }

abbrev action_code : MonitorAction → ℕ
action_code notify_only = 0
action_code restart_app = 1
action_code kill_app = 2
action_code clear_cache_restart = 3
action_code send_keyevent = 4
action_code start_service = 5
action_code shell = 6
action_code reboot = 7
action_code rotom_restart = 8
action_code rotom_disconnect = 9
action_code rotom_reboot = 10

abbrev pub is_notify_only : MonitorAction → Bool
is_notify_only a = action_code a == 0

-- NEEDS_SOCKET.has(action).
abbrev pub needs_socket : MonitorAction → Bool
needs_socket restart_app = true
needs_socket kill_app = true
needs_socket clear_cache_restart = true
needs_socket send_keyevent = true
needs_socket start_service = true
needs_socket shell = true
needs_socket reboot = true
needs_socket _ = false

-- HARD_ACTIONS.has(action).
abbrev pub is_hard : MonitorAction → Bool
is_hard reboot = true
is_hard rotom_reboot = true
is_hard _ = false
