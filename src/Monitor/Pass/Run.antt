-- ===== src/Monitor/Pass/Run.antt =====
-- The passes of monitor.ts one after another, with restarts of the hub and readings between them.
use magnemite.Prelude.{
  ℕ, suc, ◌≤◌, ◌<◌, ◌==◌, ◌≡◌, refl, if◌then◌else◌, Bool, true, ◌&&◌, none, List, [], count_if,
  arith,
}
use magnemite.Monitor.{
  MonitorAction, is_hard, MonitorEvent, DeviceRow, DeviceMetrics, MonitorSettings, Monitor,
  mark_monitor_start, record_reading,
}
use magnemite.Monitor.Actions.{Outside, Budgets, spend, tripped}
use magnemite.Monitor.Pass.{hour_ms, day_ms, is_spending, spent_budgets, Watch, evaluate}
use magnemite.Monitor.Pass.Breakers.{Breaker, calls_within, IsSober, evaluate-IsSober}

abbrev pub any_action : MonitorAction → Bool
any_action a = true

-- What the monitor goes through: `last` is the instant of the last step.
pub data Runs (most_actions most_reboots : ℕ) : (last : ℕ) → Monitor → Type 0 where
  starts : {now : ℕ} {m : Monitor} → m.calls ≡ [] → Runs most_actions most_reboots now m
  passes :
      {last : ℕ} {m : Monitor} (now : ℕ) (o : Outside) (w : Watch)
      → w.settings.max_actions_per_device_hour ≤ most_actions
      → w.settings.max_reboots_per_device_day ≤ most_reboots
      → last ≤ now
      → Runs most_actions most_reboots last m
      → Runs most_actions most_reboots now (evaluate o now w m)
  restarts :
      {last : ℕ} {m : Monitor} (now : ℕ)
      → last ≤ now
      → Runs most_actions most_reboots last m
      → Runs most_actions most_reboots now
          (record (mark_monitor_start now m) { last_tick_at = 0; last_prune_at = 0 })
  hears :
      {last : ℕ} {m : Monitor} (now d : ℕ) (metrics : DeviceMetrics)
      → last ≤ now
      → Runs most_actions most_reboots last m
      → Runs most_actions most_reboots now
          (record m { readings = record_reading now d metrics m.readings })

action_spend :
    (d : ℕ) (a : MonitorAction) (b : Budgets) (x : ℕ)
    → (spend d a b).actions x ≡ (if x == d && true then suc (b.actions x) else b.actions x)
unfolding spend
action_spend d a b x = ground arith

reboot_spend :
    (d : ℕ) (a : MonitorAction) (b : Budgets) (x : ℕ)
    → (spend d a b).reboots x ≡ (if x == d && is_hard a then suc (b.reboots x) else b.reboots x)
unfolding spend
reboot_spend d a b x = ground arith

action_below :
    (d : DeviceRow) (a : MonitorAction) (s : MonitorSettings) (b : Budgets)
    → tripped d a s b ≡ none
    → true ≡ true
    → b.actions d.id < s.max_actions_per_device_hour
unfolding tripped
action_below d a s b e h = ground arith

reboot_below :
    (d : DeviceRow) (a : MonitorAction) (s : MonitorSettings) (b : Budgets)
    → tripped d a s b ≡ none
    → is_hard a ≡ true
    → b.reboots d.id < s.max_reboots_per_device_day
unfolding tripped
reboot_below d a s b e h = ground arith

action_start :
    (now : ℕ) (events : List MonitorEvent) (x : ℕ)
    → (spent_budgets now events).actions x ≡ count_if (is_spending any_action hour_ms now x) events
unfolding spent_budgets
action_start now events x = refl

reboot_start :
    (now : ℕ) (events : List MonitorEvent) (x : ℕ)
    → (spent_budgets now events).reboots x ≡ count_if (is_spending is_hard day_ms now x) events
unfolding spent_budgets
reboot_start now events x = refl

abbrev action_breaker : Breaker
action_breaker = record {
  kind = any_action;
  span = hour_ms;
  spent = λ b. b.actions;
  ceiling = λ s. s.max_actions_per_device_hour;
  span_le = omega arith;
  spent-spend = action_spend;
  below_ceiling = action_below;
  spent_at_start = action_start;
}

abbrev reboot_breaker : Breaker
reboot_breaker = record {
  kind = is_hard;
  span = day_ms;
  spent = λ b. b.reboots;
  ceiling = λ s. s.max_reboots_per_device_day;
  span_le = omega arith;
  spent-spend = reboot_spend;
  below_ceiling = reboot_below;
  spent_at_start = reboot_start;
}

module _ (b : Breaker) (limit x : ℕ) where
  nothing-IsSober : {now : ℕ} {m : Monitor} → m.calls ≡ [] → IsSober b limit x now m
  nothing-IsSober e = record {
    limited_from = λ t ht. rw e (omega arith);
    recorded_from = λ s t hs ht. rw e (omega arith);
  }

  -- Nothing but the calls and the events matters.
  moved-IsSober :
      {last now : ℕ} {m m' : Monitor}
      → last ≤ now
      → m'.calls ≡ m.calls
      → m'.events ≡ m.events
      → IsSober b limit x last m
      → IsSober b limit x now m'
  moved-IsSober le ec ee h = record {
    limited_from = λ t ht. rw ec (h.limited_from t (omega arith));
    recorded_from = λ s t hs ht. rw (ec, ee) (h.recorded_from s t hs (omega arith));
  }

  Runs-IsSober :
      {most_actions most_reboots last : ℕ} {m : Monitor}
      → ((s : MonitorSettings)
          → s.max_actions_per_device_hour ≤ most_actions
          → s.max_reboots_per_device_day ≤ most_reboots
          → b.ceiling s ≤ limit)
      → Runs most_actions most_reboots last m
      → IsSober b limit x last m
  unfolding mark_monitor_start
  Runs-IsSober top (starts e) = nothing-IsSober e
  Runs-IsSober top (passes now o w ha hr le r) =
      evaluate-IsSober b limit x o _ now w _ (top w.settings ha hr) le (Runs-IsSober top r)
  Runs-IsSober top (restarts now le r) = moved-IsSober le refl refl (Runs-IsSober top r)
  Runs-IsSober top (hears now d metrics le r) = moved-IsSober le refl refl (Runs-IsSober top r)

-- Over any passes at instants that do not go back, with restarts of the hub and new readings
-- between them, under settings whose ceilings are at most two given numbers: if nothing had been
-- asked at first, then no box is asked for more actions in an hour than the first number, nor for
-- more reboots in a day than the second, counting back from the last step.
pub Runs-calls_within :
    (most_actions most_reboots last x : ℕ) (m : Monitor)
    → Runs most_actions most_reboots last m
    → (calls_within any_action hour_ms last x m.calls ≤ most_actions)
      × (calls_within is_hard day_ms last x m.calls ≤ most_reboots)
Runs-calls_within most_actions most_reboots last x m r = (
  (Runs-IsSober action_breaker most_actions x (λ s ha hr. ha) r).limited_from last (omega arith),
  (Runs-IsSober reboot_breaker most_reboots x (λ s ha hr. hr) r).limited_from last (omega arith),
)
