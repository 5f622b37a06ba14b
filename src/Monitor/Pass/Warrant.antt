-- ===== src/Monitor/Pass/Warrant.antt =====
-- What a pass asks of boxes and of Rotom, and what must have been so.
use magnemite.Prelude.{
  ℕ, ◌+◌, ◌*◌, ◌≤◌, ◌==◌, leb, any, ◌≡◌, ◌∙◌, refl, sym, ap, subst, ltb, if_either, if◌then◌else◌,
  Bool, true, false, not, ◌&&◌, ◌||◌, Option, none, some, List, [], ◌∷◌, ◌++◌, All, All-map, arith,
}
use mathlib.Core.List.{append_assoc, Memᴰ}
use magnemite.Store.{is_active}
use magnemite.Monitor.{
  MonitorRule, MonitorStep, DeviceRow, Reading, MonitorSettings, Monitor, Call, Request,
  fresh_reading, needs_socket, is_hard,
}
use magnemite.Monitor.Rules.{rules_for, applies}
use magnemite.Monitor.Rules.Choice.{rules_for-All}
use magnemite.Monitor.Signals.{Gauge, read_signal}
use magnemite.Monitor.Actions.{Outside, run_action}
use magnemite.Monitor.Records.{fire, record_event}
use magnemite.Monitor.Pass.Grounds.{
  IsOneOf, keep_of, enabled_rules-All, is_due-cases, is_busy-cases,
}
use magnemite.Monitor.Ladder.{Pass, act, call_of, evaluate_rule, earned, ladder_of, may_act}
use magnemite.Monitor.Ladder.Outcome.{TakesOutcome, stays_quiet, acts, take_signal_lem}
use magnemite.Monitor.Pass.{
  evaluate_rules, evaluate_device, evaluate_devices, look_at_fleet, prune_events, Watch,
  approved_of, enabled_of, gauge_of, busy_of, is_due, has_action, is_done, evaluate, is_empty_list,
  spent_budgets,
}

-- A call is for a step of a rule that applies to the box and is bad there, in a pass that is due.
pub record IsWarranted (o : Outside) (now : ℕ) (w : Watch) (m : Monitor) (c : Call) : Type 0 where
  pub device : DeviceRow
  pub rule : MonitorRule
  pub step : MonitorStep
  pub failures : ℕ
  pub monitoring : w.settings.enabled ≡ true
  pub after_grace : m.started_at + w.settings.startup_grace_seconds * 1000 ≤ now
  pub after_beat : m.last_tick_at + w.heartbeat_seconds * 1000 ≤ now
  pub of_box : c.device_id ≡ device.id
  pub of_step : c.action ≡ step.action
  pub at_once : c.at ≡ now
  pub of_fleet : Memᴰ device w.devices
  pub approved : device.approved ≡ true
  pub no_job : any (λ j. j.device_id == device.id && is_active j.state) w.jobs ≡ false
  pub not_rebooted :
      any
        (λ e.
          e.device_id == device.id
          && has_action is_hard e.action
          && is_done e.action_ok
          && leb now (e.at + w.settings.reboot_grace_seconds * 1000))
        m.events
      ≡ false
  pub enabled : IsOneOf w.rules rule
  pub in_scope : applies device.group_id rule ≡ true
  pub bad :
      read_signal (gauge_of o now w) rule device (fresh_reading now device.id m.readings)
      ≡ some true
  pub over_threshold : ltb failures rule.threshold ≡ false
  pub earned_by : earned failures (ladder_of rule) ≡ some step
  pub in_hours : may_act o now rule step ≡ true
  pub reached : needs_socket step.action && not (o.is_online device.id) ≡ false

-- The calls grow by such as `P` holds of, and the readings stay.
pub record Adds (P : Call → Type 0) (p p' : Pass) : Type 0 where
  pub new : List Call
  pub calls : p'.monitor.calls ≡ new ++ p.monitor.calls
  pub readings : p'.monitor.readings ≡ p.monitor.readings
  pub all_hold : All P new

module _ (P : Call → Type 0) where
  All-append : (xs ys : List Call) → All P xs → All P ys → All P (xs ++ ys)
  All-append [] ys h k = k
  All-append (x ∷ xs) ys (p, h) k = (p, All-append xs ys h k)

  same-Adds : (p : Pass) → Adds P p p
  same-Adds p = record { new = []; calls = refl; readings = refl; all_hold = tt }

  then-Adds : {p q r : Pass} → Adds P p q → Adds P q r → Adds P p r
  then-Adds {p} {q} {r} a b = record {
    new = b.new ++ a.new;
    calls =
        b.calls ∙ ap (λ cs. b.new ++ cs) a.calls ∙ sym (append_assoc b.new a.new p.monitor.calls);
    readings = b.readings ∙ a.readings;
    all_hold = All-append b.new a.new b.all_hold a.all_hold;
  }

  module _ (o : Outside) (settings : MonitorSettings) (g : Gauge) (d : DeviceRow)
      (reading : Option Reading) where
    -- What is to be shown of the calls of one rule.
    abbrev Holds : MonitorRule → Type 0
    Holds rule =
        (step : MonitorStep) (r : Request) (failures : ℕ)
        → read_signal g rule d reading ≡ some true
        → ltb failures rule.threshold ≡ false
        → earned failures (ladder_of rule) ≡ some step
        → may_act o g.now rule step ≡ true
        → needs_socket step.action && not (o.is_online d.id) ≡ false
        → P (record { device_id = d.id; at = g.now; action = step.action; request = r })

    evaluate_rule-Adds :
        (rule : MonitorRule) (p : Pass)
        → Holds rule
        → Adds P p (evaluate_rule o settings g d reading rule p)
    unfolding evaluate_rule act fire record_event
    evaluate_rule-Adds rule p holds =
        by_outcome _
          (take_signal_lem o g.now settings d reading rule (read_signal g rule d reading) p)
      where
        by_outcome :
            (p' : Pass)
            → TakesOutcome o g.now settings d reading rule (read_signal g rule d reading) p p'
            → Adds P p p'
        by_outcome p' (stays_quiet q) = record {
          new = [];
          calls = q.calls;
          readings = q.readings;
          all_hold = tt;
        }
        by_outcome p' (acts step mid bad q earned e) = subst (Adds P p) (sym e) (record {
          new =
              call_of d.id g.now step.action (run_action o d rule step.action step.command).request;
          calls =
              ap
                (λ cs.
                  call_of d.id g.now step.action
                    (run_action o d rule step.action step.command).request
                  ++ cs)
                q.calls;
          readings = q.readings;
          all_hold = called (run_action o d rule step.action step.command).request;
        })
          where
            called : (r : Option Request) → All P (call_of d.id g.now step.action r)
            called none = tt
            called (some r) = (
              holds step r earned.failures bad earned.over_threshold earned.earned_by
                  earned.in_hours earned.reached,
              tt,
            )

    evaluate_rules-Adds :
        (rules : List MonitorRule) (p : Pass)
        → All Holds rules
        → Adds P p (evaluate_rules o settings g d reading rules p)
    unfolding evaluate_rules
    evaluate_rules-Adds [] p h = same-Adds p
    evaluate_rules-Adds (r ∷ rs) p (h, hs) =
        then-Adds (evaluate_rule-Adds r p h) (evaluate_rules-Adds rs _ hs)

  module _ (o : Outside) (settings : MonitorSettings) (g : Gauge) (rules : List MonitorRule)
      (Told : DeviceRow → Type 0) (Known : MonitorRule → Type 0) (all_known : All Known rules)
      (busy : ℕ → Bool) (readings : List Reading)
      (holds : (d : DeviceRow)
        → Told d
        → busy d.id ≡ false
        → (r : MonitorRule) → Known r × (applies d.group_id r ≡ true)
        → Holds o settings g d (fresh_reading g.now d.id readings) r) where
    evaluate_device-Adds :
        (d : DeviceRow) (p : Pass)
        → p.monitor.readings ≡ readings
        → Told d
        → busy d.id ≡ false
        → Adds P p (evaluate_device o settings g rules d p)
    unfolding evaluate_device
    evaluate_device-Adds d p same told free =
        evaluate_rules-Adds o settings g d (fresh_reading g.now d.id p.monitor.readings)
          (rules_for rules d.group_id) p
          (subst
            (λ rs.
              All (Holds o settings g d (fresh_reading g.now d.id rs)) (rules_for rules d.group_id))
            (sym same)
            (All-map (λ r. Known r × (applies d.group_id r ≡ true))
              (Holds o settings g d (fresh_reading g.now d.id readings))
              (rules_for rules d.group_id) (holds d told free)
              (rules_for-All Known rules d.group_id all_known)))

    evaluate_devices-Adds :
        (ds : List DeviceRow) (p : Pass)
        → p.monitor.readings ≡ readings
        → All Told ds
        → Adds P p (evaluate_devices o settings g rules busy ds p)
    unfolding evaluate_devices
    evaluate_devices-Adds [] p same h = same-Adds p
    evaluate_devices-Adds (d ∷ ds) p same (told, h) =
        let one : Adds P p (if busy d.id then p else evaluate_device o settings g rules d p) =
          if_either (Adds P p) (busy d.id) p _ (λ _. same-Adds p)
            (λ free. evaluate_device-Adds d p same told free) in
        then-Adds one (evaluate_devices-Adds ds _ (one.readings ∙ same) h)

prune_events-calls : (now days : ℕ) (m : Monitor) → (prune_events now days m).calls ≡ m.calls
unfolding prune_events
prune_events-calls now days m = ground arith

abbrev GrowsBy : (Call → Type 0) → (m m' : Monitor) → Type 0
GrowsBy P m m' = (new : List Call) × (m'.calls ≡ new ++ m.calls) × All P new

-- What a pass of the monitor asks of boxes and of Rotom: each new request is for an approved box
-- of the fleet that runs no job and was not just rebooted, by an enabled rule of the table that
-- applies to it, whose signal is bad there, for the step that some number of failures not below
-- the threshold has earned, inside the rule's hours, never for a step that only notifies, and over
-- the box's socket only if it is online; monitoring is on, and the grace after the start of the
-- hub and a heartbeat since the last pass are over.
pub evaluate-IsWarranted :
    (o : Outside) (now : ℕ) (w : Watch) (m : Monitor)
    → (new : List Call) × ((evaluate o now w m).calls ≡ new ++ m.calls)
      × All (IsWarranted o now w m) new
unfolding evaluate look_at_fleet prune_events
evaluate-IsWarranted o now w m =
    if_either (GrowsBy P m) (is_due now w m) _ m
      (λ due.
        if_either (GrowsBy P m) (is_empty_list (enabled_of w) || is_empty_list (approved_of w))
          ticked _ (λ _. ([], refl, tt)) (λ _. looked due))
      (λ _. ([], refl, tt))
  where
    ticked : Monitor
    ticked = record m { last_tick_at = now }

    P : Call → Type 0
    P = IsWarranted o now w m

    looked :
        is_due now w m ≡ true
        → GrowsBy P m
            (prune_events now w.settings.event_retention_days (look_at_fleet o now w ticked))
    looked due =
        let a =
          evaluate_devices-Adds P o w.settings (gauge_of o now w) (enabled_of w)
            (λ d. Memᴰ d w.devices × (d.approved ≡ true)) (IsOneOf w.rules)
            (enabled_rules-All w.settings w.rules) (busy_of now w m) m.readings
            (λ d (listed, approved) free r (on, applied) step req failures bad over e may reached.
              record {
                device = d;
                rule = r;
                step = step;
                failures = failures;
                monitoring = (is_due-cases now w m due).0;
                after_grace = (is_due-cases now w m due).1;
                after_beat = (is_due-cases now w m due).2;
                of_box = refl;
                of_step = refl;
                at_once = refl;
                of_fleet = listed;
                approved = approved;
                no_job =
                    (is_busy-cases (w.settings.reboot_grace_seconds * 1000) now w.jobs m.events d.id
                      free).0;
                not_rebooted =
                    (is_busy-cases (w.settings.reboot_grace_seconds * 1000) now w.jobs m.events d.id
                      free).1;
                enabled = on;
                in_scope = applied;
                bad = bad;
                over_threshold = over;
                earned_by = e;
                in_hours = may;
                reached = reached;
              })
            (approved_of w) (record { monitor = ticked; budgets = spent_budgets now ticked.events })
            refl (keep_of (λ d. d.approved) w.devices) in
        (
          a.new,
          prune_events-calls now w.settings.event_retention_days (look_at_fleet o now w ticked)
              ∙ a.calls,
          a.all_hold,
        )
