-- ===== src/Monitor/Ladder.antt =====
-- monitor.ts: what a bad or a good signal does to the counter of a rule on a box and to its ladder
-- (evaluateDevice's loop body, recover, escalate).
pub mod Outcome
pub mod Counter
use magnemite.Prelude.{
  ℕ, suc, ◌+◌, ◌*◌, ◌==◌, leb, ltb, if◌then◌else◌, Bool, true, false, not, ◌&&◌, ◌||◌, Option, none,
  some, String, str_eq, List, [], ◌∷◌, ◌++◌, sort,
}
use Prim.Native.String.{◌++◌ as join}
use magnemite.Jobs.{is_truthy}
use magnemite.Window.{inside_window}
use magnemite.Monitor.{
  MonitorAction, is_notify_only, needs_socket, info, critical, MonitorRule, MonitorStep,
  MonitorState, DeviceRow, Reading, MonitorSettings, Detail, probe_said, held_back_until,
  command_said, Request, Call, Monitor,
}
use magnemite.Monitor.Signals.{Gauge, read_signal, detail_for}
use magnemite.Monitor.Actions.{
  Outside, EventInput, ActionOutcome, run_action, Budgets, spend, tripped,
}
use magnemite.Monitor.Records.{find_state, update_state, count_failure, record_event, fire}

-- What a pass goes over.
pub record Pass : Type 0 where
  pub monitor : Monitor
  pub budgets : Budgets

abbrev clear_failures : MonitorState → MonitorState
clear_failures s = record s { failures = 0; first_failed_at = none; last_step_fired = none }

abbrev recovery_event : MonitorRule → EventInput
recovery_event rule = record {
  level = info;
  message = join rule.name " recovered";
  action = none;
  action_ok = none;
  detail = [];
  recovery = true;
}

unfoldable pub recover :
    Outside → ℕ → DeviceRow → MonitorRule → Option MonitorState → Monitor → Monitor
unfolding update_state record_event
recover o now d rule none m = m
recover o now d rule (some s) m =
    if s.failures == 0
    then m
    else record_event o now d rule (recovery_event rule)
        (rule.notify && rule.notify_recovery && leb rule.threshold s.failures)
        (record m { states = update_state d.id rule.id clear_failures m.states })

abbrev higher_first : MonitorStep → MonitorStep → Bool
higher_first a b = leb b.at_failure a.at_failure

-- The ladder from the top, and the first of its steps that the failures have earned.
abbrev pub ladder_of : MonitorRule → List MonitorStep
ladder_of rule = sort higher_first rule.steps

unfoldable pub earned : ℕ → List MonitorStep → Option MonitorStep
earned failures [] = none
earned failures (s ∷ ss) = if leb s.at_failure failures then some s else earned failures ss

abbrev pub is_top : MonitorStep → List MonitorStep → Bool
is_top step [] = false
is_top step (s ∷ ss) = step.at_failure == s.at_failure

abbrev pub last_action_of : Option MonitorState → Option ℕ
last_action_of none = none
last_action_of (some s) = s.last_action_at

abbrev pub last_step_of : Option MonitorState → Option ℕ
last_step_of none = none
last_step_of (some s) = s.last_step_fired

abbrev pub is_cooling : ℕ → MonitorRule → Option ℕ → Bool
is_cooling now rule none = false
is_cooling now rule (some at) = ltb now (at + rule.cooldown_seconds * 1000)

abbrev is_at_most : ℕ → Option ℕ → Bool
is_at_most n none = false
is_at_most n (some m) = leb n m

abbrev pub is_spent : MonitorStep → List MonitorStep → Option ℕ → Bool
is_spent step ladder spent = is_at_most step.at_failure spent && not (is_top step ladder)

abbrev told : Option String → List Detail
told none = []
told (some s) = probe_said s ∷ []

-- `[…, detail].filter(Boolean)`.
abbrev told_if : Option String → List Detail
told_if text = if is_truthy text then told text else []

abbrev also : Option Detail → List Detail
also none = []
also (some (command_said s)) = if str_eq s "" then [] else command_said s ∷ []
also (some d) = d ∷ []

abbrev held_event : MonitorRule → MonitorAction → Option String → EventInput
held_event rule action detail = record {
  level = rule.notify_level;
  message = rule.name;
  action = if is_notify_only action then none else some action;
  action_ok = none;
  detail =
      if is_notify_only action
      then told detail
      else held_back_until rule.window_start ∷ told_if detail;
  recovery = false;
}

abbrev stopped_event : MonitorRule → Detail → EventInput
stopped_event rule breaker = record {
  level = critical;
  message = join rule.name " — stopped acting on this box";
  action = none;
  action_ok = none;
  detail = breaker ∷ [];
  recovery = false;
}

abbrev acted_event : MonitorRule → MonitorAction → Option String → ActionOutcome → EventInput
acted_event rule action detail outcome = record {
  level = if outcome.ok then rule.notify_level else critical;
  message = rule.name;
  action = some action;
  action_ok = some outcome.ok;
  detail = told_if detail ++ also outcome.detail;
  recovery = false;
}

abbrev pub call_of : ℕ → ℕ → MonitorAction → Option Request → List Call
call_of d now action none = []
call_of d now action (some r) =
    record { device_id = d; at = now; action = action; request = r } ∷ []

-- The last part of `escalate`: the action is run, counted and written down.
unfoldable pub act :
    Outside → ℕ → DeviceRow → MonitorRule → MonitorStep → Option String → Pass → Pass
unfolding fire
act o now d rule step detail p =
    let outcome = run_action o d rule step.action step.command in
    let m = p.monitor in
    let called = record m { calls = call_of d.id now step.action outcome.request ++ m.calls } in
    record {
      monitor =
          fire o now d rule (some step.at_failure) (acted_event rule step.action detail outcome)
            called;
      budgets = spend d.id step.action p.budgets;
    }

abbrev pub may_act : Outside → ℕ → MonitorRule → MonitorStep → Bool
may_act o now rule step =
    inside_window rule.window_start rule.window_end (o.local_minutes now)
    && not (is_notify_only step.action)

abbrev announce : Outside → ℕ → DeviceRow → MonitorRule → EventInput → Pass → Pass
announce o now d rule e p = record p { monitor = fire o now d rule none e p.monitor }

-- `escalate` from the cooldown on, with the step that has been earned.
unfoldable pub climb :
    Outside
    → ℕ
    → MonitorSettings
    → DeviceRow
    → MonitorRule
    → Option MonitorState
    → Option Reading
    → MonitorStep
    → Pass
    → Pass
unfolding act fire
climb o now settings d rule was reading step p =
    let detail = detail_for rule reading in
    if is_cooling now rule (last_action_of was) || is_spent step (ladder_of rule) (last_step_of was)
    then p
    else (if not (may_act o now rule step)
        then announce o now d rule (held_event rule step.action detail) p
        else (if needs_socket step.action && not (o.is_online d.id)
            then p
            else elim (tripped d step.action settings p.budgets) [
              | some breaker ↦ announce o now d rule (stopped_event rule breaker) p
              | none ↦ act o now d rule step detail p
            ]))

unfoldable pub escalate :
    Outside
    → ℕ
    → MonitorSettings
    → DeviceRow
    → MonitorRule
    → Option MonitorState
    → (failures : ℕ) → Option Reading
    → Pass
    → Pass
unfolding earned climb
escalate o now settings d rule was failures reading p = elim (earned failures (ladder_of rule)) [
  | none ↦ p
  | some step ↦ climb o now settings d rule was reading step p
]

abbrev pub failures_of : Option MonitorState → ℕ
failures_of none = 0
failures_of (some s) = s.failures

-- The loop body of evaluateDevice after the signal has been read.
unfoldable pub take_signal :
    Outside
    → ℕ
    → MonitorSettings
    → DeviceRow
    → Option Reading
    → MonitorRule
    → (bad : Option Bool) → Pass
    → Pass
unfolding find_state count_failure recover escalate
take_signal o now settings d reading rule none p = p
take_signal o now settings d reading rule (some false) p =
    let m = p.monitor in
    record p { monitor = recover o now d rule (find_state d.id rule.id m.states) m }
take_signal o now settings d reading rule (some true) p =
    let m = p.monitor in
    let was = find_state d.id rule.id m.states in
    let failures = suc (failures_of was) in
    let counted = record p {
      monitor = record m { states = count_failure d.id rule.id failures now was m.states };
    } in
    if ltb failures rule.threshold
    then counted
    else escalate o now settings d rule was failures reading counted

unfoldable pub evaluate_rule :
    Outside → MonitorSettings → Gauge → DeviceRow → Option Reading → MonitorRule → Pass → Pass
unfolding take_signal
evaluate_rule o settings g d reading rule p =
    take_signal o g.now settings d reading rule (read_signal g rule d reading) p
