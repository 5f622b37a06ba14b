-- ===== src/Monitor/Signals.antt =====
-- monitor.ts, readSignal: whether a signal is bad, where `none` is unknown.
use magnemite.Prelude.{
  ℕ, ◌+◌, ◌==◌, leb, if◌then◌else◌, Bool, true, false, not, ◌&&◌, ◌||◌, Option, none, some, or_else,
  is_some, String, str_eq, [], ◌∷◌,
}
use magnemite.Jobs.{is_truthy}
use magnemite.Monitor.{
  MonitorSignal, agent_offline, service_down, app_not_foreground, app_anr, health_check_failed,
  loop_stalled, rotom_disconnected, rotom_not_scanning, rotom_idle, MonitorRule, DeviceRow, Reading,
  check_of, includes,
}
use magnemite.Monitor.Rules.{probe_of}

-- The clock of a pass and what the settings say of delays, and whether there is a Rotom.
pub record Gauge : Type 0 where
  pub now : ℕ
  pub offline_after_ms : ℕ
  pub rotom_stale_ms : ℕ
  pub rotom_is_on : Bool

abbrev ran : Option Reading → Bool
ran none = false
ran (some r) = r.ran

-- `checkResult`.
unfoldable pub check_result : MonitorRule → Option Reading → Option Bool
unfolding check_of
check_result rule none = none
check_result rule (some r) =
    if r.ran
    then elim (check_of rule.id r.checks) [ none ↦ none | some c ↦ some (not c.ok) ]
    else none

unfoldable pub detail_for : MonitorRule → Option Reading → Option String
unfolding check_of
detail_for rule none = none
detail_for rule (some r) = elim (check_of rule.id r.checks) [ none ↦ none | some c ↦ c.detail ]

abbrev gone_for : Gauge → Option ℕ → Option Bool
gone_for g none = none
gone_for g (some seen) = if leb (seen + g.offline_after_ms) g.now then some true else none

abbrev offline_signal : Gauge → DeviceRow → Option Bool
offline_signal g d = if d.is_marked_online then some false else gone_for g d.last_seen_at

-- The guard of the three signals of Rotom.
abbrev is_in_rotom : Gauge → DeviceRow → Bool
is_in_rotom g d = g.rotom_is_on && is_truthy d.rotom_device_id && d.rotom_enabled

abbrev stale : Gauge → Option ℕ → Bool
stale g none = false
stale g (some seen) = leb (seen + g.rotom_stale_ms) g.now

abbrev disconnected_signal : Gauge → DeviceRow → Option Bool
disconnected_signal g d =
    if not (is_in_rotom g d)
    then none
    else (if not d.rotom_connected || not d.rotom_can_be_used
        then some true
        else some (stale g d.rotom_last_seen_at))

abbrev none_in_use : Option ℕ → Option Bool
none_in_use none = none
none_in_use (some n) = some (n == 0)

abbrev no_workers : DeviceRow → Option ℕ → Option Bool
no_workers d none = none
no_workers d (some n) = if n == 0 then some true else none_in_use d.rotom_workers_in_use

abbrev not_scanning_signal : Gauge → DeviceRow → Option Bool
not_scanning_signal g d =
    if not (is_in_rotom g d) || not d.rotom_connected
    then none
    else no_workers d d.rotom_worker_count

abbrev idle_signal : Gauge → DeviceRow → Option Bool
idle_signal g d =
    if not (is_in_rotom g d)
      || not d.rotom_connected
      || or_else d.rotom_workers_in_use 0 == 0
      || or_else d.rotom_stat_workers 0 == 0
    then none
    else none_in_use d.rotom_request_rate

abbrev has_no_process : Option Reading → Option String → Option Bool
has_no_process none pkg = none
has_no_process (some r) pkg =
    if not (is_truthy pkg)
    then none
    else elim r.processes [ [] ↦ none | _ ∷ _ ↦ some (not (includes (or_else pkg "") r.processes)) ]

abbrev service_signal : MonitorRule → Option Reading → Option Bool
service_signal rule reading =
    if is_some (probe_of rule)
    then check_result rule reading
    else has_no_process reading rule.package_name

abbrev of_reading : (Reading → String → Bool) → MonitorRule → Option Reading → Option Bool
of_reading test rule none = none
of_reading test rule (some r) =
    if not r.ran || not (is_truthy rule.package_name)
    then none
    else some (test r (or_else rule.package_name ""))

abbrev signal_of : MonitorSignal → Gauge → MonitorRule → DeviceRow → Option Reading → Option Bool
signal_of agent_offline g rule d reading = offline_signal g d
signal_of rotom_disconnected g rule d reading = disconnected_signal g d
signal_of rotom_not_scanning g rule d reading = not_scanning_signal g d
signal_of rotom_idle g rule d reading = idle_signal g d
signal_of service_down g rule d reading = service_signal rule reading
signal_of app_not_foreground g rule d reading =
    of_reading (λ r pkg. not (str_eq r.foreground pkg)) rule reading
signal_of app_anr g rule d reading = of_reading (λ r pkg. includes pkg r.anr) rule reading
signal_of health_check_failed g rule d reading = check_result rule reading
signal_of loop_stalled g rule d reading = check_result rule reading

unfoldable pub read_signal : Gauge → MonitorRule → DeviceRow → Option Reading → Option Bool
unfolding check_result probe_of
read_signal g rule d reading = signal_of rule.signal g rule d reading
