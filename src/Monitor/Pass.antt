-- ===== src/Monitor/Pass.antt =====
-- monitor.ts: one pass over the fleet (evaluate, busyDeviceIds, spentBudgets, evaluateDevice,
-- pruneEvents).
pub mod Breakers
pub mod Run
pub mod HeldBack
pub mod Grounds
pub mod Warrant
use magnemite.Prelude.{
  ℕ, ◌+◌, ◌*◌, ◌==◌, leb, ltb, if◌then◌else◌, Bool, true, false, not, ◌&&◌, ◌||◌, Option, none,
  some, List, [], ◌∷◌, any, keep, count_if,
}
use magnemite.Store.{Job, is_active}
use magnemite.Monitor.{
  MonitorAction, is_hard, MonitorRule, MonitorEvent, DeviceRow, MonitorSettings, Monitor, Reading,
  fresh_reading,
}
use magnemite.Monitor.Rules.{load_enabled_rules, rules_for}
use magnemite.Monitor.Signals.{Gauge}
use magnemite.Monitor.Actions.{Outside, Budgets}
use magnemite.Monitor.Ladder.{Pass, evaluate_rule}

abbrev pub hour_ms : ℕ
hour_ms = 3600000

abbrev pub day_ms : ℕ
day_ms = 86400000

-- `at: { gte: now - span }`.
abbrev pub is_within : (span now at : ℕ) → Bool
is_within span now at = leb now (at + span)

abbrev pub has_action : (MonitorAction → Bool) → Option MonitorAction → Bool
has_action p none = false
has_action p (some a) = p a

abbrev pub is_done : Option Bool → Bool
is_done none = false
is_done (some b) = b

abbrev was_rebooted : (grace_ms now d : ℕ) → MonitorEvent → Bool
was_rebooted grace_ms now d e =
    e.device_id == d
    && has_action is_hard e.action
    && is_done e.action_ok
    && is_within grace_ms now e.at

-- `busy.has(d)`.
unfoldable pub is_busy : (grace_ms now : ℕ) → List Job → List MonitorEvent → ℕ → Bool
is_busy grace_ms now jobs events d =
    any (λ j. j.device_id == d && is_active j.state) jobs
    || any (was_rebooted grace_ms now d) events

-- An event of the box in the span, of an action of the kind.
abbrev pub is_spending : (MonitorAction → Bool) → (span now d : ℕ) → MonitorEvent → Bool
is_spending p span now d e = e.device_id == d && has_action p e.action && is_within span now e.at

unfoldable pub spent_budgets : ℕ → List MonitorEvent → Budgets
spent_budgets now events = record {
  actions = λ d. count_if (is_spending (λ a. true) hour_ms now d) events;
  reboots = λ d. count_if (is_spending is_hard day_ms now d) events;
}

unfoldable pub evaluate_rules :
    Outside → MonitorSettings → Gauge → DeviceRow → Option Reading → List MonitorRule → Pass → Pass
unfolding evaluate_rule
evaluate_rules o settings g d reading [] p = p
evaluate_rules o settings g d reading (rule ∷ rules) p =
    evaluate_rules o settings g d reading rules (evaluate_rule o settings g d reading rule p)

unfoldable pub evaluate_device :
    Outside → MonitorSettings → Gauge → List MonitorRule → DeviceRow → Pass → Pass
unfolding fresh_reading rules_for evaluate_rules
evaluate_device o settings g rules d p =
    evaluate_rules o settings g d (fresh_reading g.now d.id p.monitor.readings)
      (rules_for rules d.group_id) p

unfoldable pub evaluate_devices :
    Outside
    → MonitorSettings
    → Gauge
    → List MonitorRule
    → (busy : ℕ → Bool) → List DeviceRow
    → Pass
    → Pass
unfolding evaluate_device
evaluate_devices o settings g rules busy [] p = p
evaluate_devices o settings g rules busy (d ∷ ds) p =
    evaluate_devices o settings g rules busy ds
      (if busy d.id then p else evaluate_device o settings g rules d p)

unfoldable pub prune_events : (now retention_days : ℕ) → Monitor → Monitor
prune_events now retention_days m =
    if retention_days == 0 || ltb now (m.last_prune_at + hour_ms) then m else record m {
      last_prune_at = now;
      events = keep (λ e. is_within (retention_days * day_ms) now e.at) m.events;
    }

abbrev pub is_empty_list {ℓ} : {A : Type ℓ} → List A → Bool
is_empty_list [] = true
is_empty_list (x ∷ xs) = false

-- What the pass reads besides the monitor's own state: the settings and the other tables.
pub record Watch : Type 0 where
  pub settings : MonitorSettings
  pub heartbeat_seconds : ℕ
  pub device_offline_timeout_seconds : ℕ
  pub devices : List DeviceRow
  pub jobs : List Job
  pub rules : List MonitorRule

abbrev pub approved_of : Watch → List DeviceRow
approved_of w = keep (λ d. d.approved) w.devices

abbrev pub enabled_of : Watch → List MonitorRule
enabled_of w = load_enabled_rules w.settings w.rules

abbrev pub gauge_of : Outside → ℕ → Watch → Gauge
gauge_of o now w = record {
  now = now;
  offline_after_ms = w.device_offline_timeout_seconds * 1000;
  rotom_stale_ms = w.settings.rotom_stale_seconds * 1000;
  rotom_is_on = o.rotom_is_on;
}

abbrev pub busy_of : ℕ → Watch → Monitor → ℕ → Bool
busy_of now w m = is_busy (w.settings.reboot_grace_seconds * 1000) now w.jobs m.events

-- The loop over the devices, from what it was told has been spent.
unfoldable pub look_at_fleet : Outside → ℕ → Watch → Monitor → Monitor
unfolding spent_budgets evaluate_devices is_busy
look_at_fleet o now w m =
    (evaluate_devices o w.settings (gauge_of o now w) (enabled_of w) (busy_of now w m)
      (approved_of w) (record { monitor = m; budgets = spent_budgets now m.events })).monitor

-- A pass is due: monitoring is on, the grace after the start is over, and so is the heartbeat.
abbrev pub is_due : ℕ → Watch → Monitor → Bool
is_due now w m =
    w.settings.enabled
    && not (ltb now (m.started_at + w.settings.startup_grace_seconds * 1000))
    && not (ltb now (m.last_tick_at + w.heartbeat_seconds * 1000))

unfoldable pub evaluate : Outside → ℕ → Watch → Monitor → Monitor
unfolding load_enabled_rules look_at_fleet prune_events
evaluate o now w m =
    let ticked = record m { last_tick_at = now } in
    if is_due now w m
    then (if is_empty_list (enabled_of w) || is_empty_list (approved_of w)
        then ticked
        else prune_events now w.settings.event_retention_days (look_at_fleet o now w ticked))
    else m
