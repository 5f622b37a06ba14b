-- ===== src/Monitor/Pass/HeldBack.antt =====
-- A step that quiet hours hold back, and what the breakers make of it.
use magnemite.Prelude.{ℕ, suc, ◌≡◌, refl, ==_refl, true, false, ◌||◌, Option, arith}
use magnemite.Window.{inside_window}
use magnemite.Monitor.{
  is_hard, is_notify_only, MonitorRule, MonitorStep, MonitorState, DeviceRow, Reading,
  MonitorSettings,
}
use magnemite.Monitor.Actions.{Outside}
use magnemite.Monitor.Records.{fire, record_event, already_said}
use magnemite.Monitor.Ladder.{
  Pass, climb, ladder_of, is_cooling, is_spent, last_action_of, last_step_of,
}
use magnemite.Monitor.Pass.{hour_ms, day_ms, is_within, spent_budgets}

within_now : (span now : ℕ) → is_within span now now ≡ true
within_now span now = ground arith

-- A step that is due but held back by the rule's hours asks for nothing; yet, if the newest event
-- of the rule on the box is not the same announcement without an action, the budget of actions
-- that the next pass reads is one less, the budget of reboots too if the step is a reboot, and the
-- announcement does not count as made.
pub climb-held_back :
    (o : Outside) (now : ℕ) (settings : MonitorSettings) (d : DeviceRow) (rule : MonitorRule)
    (was : Option MonitorState) (reading : Option Reading) (step : MonitorStep) (p : Pass)
    → is_cooling now rule (last_action_of was) || is_spent step (ladder_of rule) (last_step_of was)
      ≡ false
    → inside_window rule.window_start rule.window_end (o.local_minutes now) ≡ false
    → is_notify_only step.action ≡ false
    → already_said d.id rule.id rule.name p.monitor.events ≡ false
    → let m = (climb o now settings d rule was reading step p).monitor in
      let spent = spent_budgets now p.monitor.events in
      let spent' = spent_budgets now m.events in
      (m.calls ≡ p.monitor.calls)
      × (spent'.actions d.id ≡ suc (spent.actions d.id))
      × (is_hard step.action ≡ true → spent'.reboots d.id ≡ suc (spent.reboots d.id))
      × (already_said d.id rule.id rule.name m.events ≡ false)
unfolding climb fire record_event spent_budgets
climb-held_back o now settings d rule was reading step p rested closed acting unsaid =
    let me = ==_refl d.id in
    let ru = ==_refl rule.id in
    let h = within_now hour_ms now in
    let dy = within_now day_ms now in
    rw (rested, closed, acting, unsaid)
      (refl, rw (me, h) refl, (λ hard. rw (me, hard, dy) refl), rw (me, ru) refl)
