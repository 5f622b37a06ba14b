-- ===== src/Monitor/Records.antt =====
-- monitor.ts: the rows that the monitor keeps of a rule on a box, and the events that it writes (the
-- upsert of evaluateDevice, record, alreadySaid, fire).
use magnemite.Prelude.{
  ℕ, ◌==◌, if◌then◌else◌, Bool, false, not, ◌&&◌, Option, none, some, or_else, or_maybe, is_some,
  String, str_eq, List, [], ◌∷◌,
}
use magnemite.Store.{device}
use magnemite.Monitor.{MonitorRule, MonitorState, MonitorEvent, DeviceRow, Monitor}
use magnemite.Monitor.Actions.{Outside, EventInput}

abbrev pub is_state_of : (d r : ℕ) → MonitorState → Bool
is_state_of d r s = s.device_id == d && s.rule_id == r

unfoldable pub find_state : (d r : ℕ) → List MonitorState → Option MonitorState
find_state d r [] = none
find_state d r (s ∷ ss) = if is_state_of d r s then some s else find_state d r ss

unfoldable pub update_state :
    (d r : ℕ) → (MonitorState → MonitorState) → List MonitorState → List MonitorState
update_state d r f [] = []
update_state d r f (s ∷ ss) = (if is_state_of d r s then f s else s) ∷ update_state d r f ss

abbrev pub new_state : (d r failures now : ℕ) → MonitorState
new_state d r failures now = record {
  device_id = d;
  rule_id = r;
  failures = failures;
  first_failed_at = some now;
  last_action_at = none;
  last_step_fired = none;
}

abbrev pub set_failures : (failures now : ℕ) → MonitorState → MonitorState
set_failures failures now s = record s {
  failures = failures;
  first_failed_at = some (or_else s.first_failed_at now);
}

-- The upsert of evaluateDevice, `s` being the row that was read.
unfoldable pub count_failure :
    (d r failures now : ℕ) → Option MonitorState → List MonitorState → List MonitorState
unfolding update_state
count_failure d r failures now none ss = new_state d r failures now ∷ ss
count_failure d r failures now (some s) ss = update_state d r (set_failures failures now) ss

-- `record`.
unfoldable pub record_event :
    Outside → ℕ → DeviceRow → MonitorRule → EventInput → (announce : Bool) → Monitor → Monitor
record_event o now d rule e announce m = record m {
  events =
      record {
        device_id = d.id;
        rule_id = rule.id;
        signal = rule.signal;
        level = e.level;
        message = e.message;
        action = e.action;
        action_ok = e.action_ok;
        detail = e.detail;
        notified = announce && o.notice_lands d rule e;
        recovery = e.recovery;
        at = now;
      }
      ∷ m.events;
  bus = device d.id ∷ m.bus;
}

abbrev is_event_of : (d r : ℕ) → MonitorEvent → Bool
is_event_of d r e = e.device_id == d && e.rule_id == r

-- The newest event of the rule on the box announces the same without an action.
unfoldable pub already_said : (d r : ℕ) → String → List MonitorEvent → Bool
already_said d r message [] = false
already_said d r message (e ∷ es) =
    if is_event_of d r e
    then not (is_some e.action) && str_eq e.message message
    else already_said d r message es

abbrev pub stamp : ℕ → Option ℕ → MonitorState → MonitorState
stamp now at_failure s = record s {
  last_action_at = some now;
  last_step_fired = or_maybe at_failure s.last_step_fired;
}

unfoldable pub fire :
    Outside → ℕ → DeviceRow → MonitorRule → (at_failure : Option ℕ) → EventInput → Monitor → Monitor
unfolding update_state already_said record_event
fire o now d rule at_failure e m =
    let stamped = record m { states = update_state d.id rule.id (stamp now at_failure) m.states } in
    if not (is_some at_failure) && already_said d.id rule.id e.message m.events
    then stamped
    else record_event o now d rule e rule.notify stamped
