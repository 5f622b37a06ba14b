-- ===== src/Monitor/Ladder/Outcome.antt =====
-- What becomes of a pass at one rule and one box: nothing, an announcement, or an action.
use magnemite.Prelude.{
  ℕ, suc, ◌≡◌, ◌∙◌, refl, sym, inl, inr, Bool-cases, if_either, ◌==◌, Bool, true, false, not, ◌&&◌,
  ◌||◌, Option, none, some, ltb, List, ◌∷◌, arith, ◌≤◌, count_if,
}
use magnemite.Monitor.{
  needs_socket, MonitorRule, MonitorStep, MonitorState, MonitorEvent, DeviceRow, Reading,
  MonitorSettings, Detail,
}
use magnemite.Monitor.Signals.{detail_for}
use magnemite.Monitor.Actions.{Outside, EventInput, tripped, Budgets}
use magnemite.Monitor.Records.{find_state, count_failure, fire, record_event, already_said}
use magnemite.Monitor.Ladder.{
  Pass, recover, act, announce, climb, escalate, earned, ladder_of, is_cooling, is_spent,
  last_action_of, last_step_of, may_act, stopped_event, take_signal, failures_of,
}

-- Nothing is asked of anyone: the events alone may grow.
pub record IsQuiet (p p' : Pass) : Type 0 where
  pub calls : p'.monitor.calls ≡ p.monitor.calls
  pub readings : p'.monitor.readings ≡ p.monitor.readings
  pub budgets : p'.budgets ≡ p.budgets
  pub grows : (q : MonitorEvent → Bool) → count_if q p.monitor.events ≤ count_if q p'.monitor.events

-- An action is taken, and what allowed it.
pub record IsEarned (o : Outside) (now : ℕ) (settings : MonitorSettings) (d : DeviceRow)
    (rule : MonitorRule) (was : Option MonitorState) (budgets : Budgets) (step : MonitorStep)
    : Type 0 where
  pub failures : ℕ
  pub over_threshold : ltb failures rule.threshold ≡ false
  pub counted : failures ≡ suc (failures_of was)
  pub earned_by : earned failures (ladder_of rule) ≡ some step
  pub cooled : is_cooling now rule (last_action_of was) ≡ false
  pub not_spent : is_spent step (ladder_of rule) (last_step_of was) ≡ false
  pub in_hours : may_act o now rule step ≡ true
  pub reached : needs_socket step.action && not (o.is_online d.id) ≡ false
  pub within : tripped d step.action settings budgets ≡ none

module _ (o : Outside) (now : ℕ) (settings : MonitorSettings) (d : DeviceRow)
    (reading : Option Reading) (rule : MonitorRule) where
  pub data TakesOutcome (bad : Option Bool) (p p' : Pass) : Type 0 where
    stays_quiet : IsQuiet p p' → TakesOutcome bad p p'
    acts :
        (step : MonitorStep) (mid : Pass)
        → bad ≡ some true
        → IsQuiet p mid
        → IsEarned o now settings d rule (find_state d.id rule.id p.monitor.states) p.budgets step
        → p' ≡ act o now d rule step (detail_for rule reading) mid
        → TakesOutcome bad p p'

  grows_by_one :
      (q : MonitorEvent → Bool) (x : MonitorEvent) (es : List MonitorEvent)
      → count_if q es ≤ count_if q (x ∷ es)
  grows_by_one q x es = ground arith

  announce-IsQuiet : (e : EventInput) (p : Pass) → IsQuiet p (announce o now d rule e p)
  unfolding fire record_event
  announce-IsQuiet e p = elim (Bool-cases (already_said d.id rule.id e.message p.monitor.events)) [
    | inl y ↦ record {
      calls = rw y refl;
      readings = rw y refl;
      budgets = refl;
      grows = λ q. rw y (omega arith);
    }
    | inr n ↦ record {
      calls = rw n refl;
      readings = rw n refl;
      budgets = refl;
      grows = λ q. rw n (grows_by_one q _ p.monitor.events);
    }
  ]

  same-IsQuiet : (p : Pass) → IsQuiet p p
  same-IsQuiet p = record {
    calls = refl;
    readings = refl;
    budgets = refl;
    grows = λ q. omega arith;
  }

  recover-IsQuiet :
      (was : Option MonitorState) (p : Pass)
      → IsQuiet p (record p { monitor = recover o now d rule was p.monitor })
  unfolding recover record_event
  recover-IsQuiet none p = same-IsQuiet p
  recover-IsQuiet (some s) p = elim (Bool-cases (s.failures == 0)) [
    | inl y ↦ rw y (same-IsQuiet p)
    | inr n ↦ rw n (record {
      calls = refl;
      readings = refl;
      budgets = refl;
      grows = λ q. grows_by_one q _ p.monitor.events;
    })
  ]

  IsQuiet-both : {p q r : Pass} → IsQuiet p q → IsQuiet q r → IsQuiet p r
  IsQuiet-both a b = record {
    calls = b.calls ∙ a.calls;
    readings = b.readings ∙ a.readings;
    budgets = b.budgets ∙ a.budgets;
    grows = λ t. let x = a.grows t in let y = b.grows t in omega arith;
  }

  or_false : {a b : Bool} → a || b ≡ false → (a ≡ false) × (b ≡ false)
  or_false {a} {b} e = ground arith

  true_of_not : {a : Bool} → not a ≡ false → a ≡ true
  true_of_not {a} e = ground arith

  module _ (was : Option MonitorState) (p mid : Pass) (same : IsQuiet p mid)
      (found : find_state d.id rule.id p.monitor.states ≡ was) where
    climb_lem :
        (failures : ℕ) (step : MonitorStep)
        → ltb failures rule.threshold ≡ false
        → failures ≡ suc (failures_of was)
        → earned failures (ladder_of rule) ≡ some step
        → TakesOutcome (some true) p (climb o now settings d rule was reading step mid)
    unfolding climb
    climb_lem failures step over counted e =
        if_either Good
          (is_cooling now rule (last_action_of was)
            || is_spent step (ladder_of rule) (last_step_of was))
          mid _ (λ _. stays_quiet same)
          λ rested.
            if_either Good (not (may_act o now rule step)) _ _
              (λ _. stays_quiet (then_quiet (announce-IsQuiet _ mid)))
              λ may.
                if_either Good (needs_socket step.action && not (o.is_online d.id)) mid _
                  (λ _. stays_quiet same)
                  λ reached.
                    breaker (tripped d step.action settings mid.budgets) refl rested may reached
      where
        Good : Pass → Type 0
        Good p' = TakesOutcome (some true) p p'

        then_quiet : {p' : Pass} → IsQuiet mid p' → IsQuiet p p'
        then_quiet r = IsQuiet-both same r

        breaker :
            (t : Option Detail)
            → tripped d step.action settings mid.budgets ≡ t
            → is_cooling now rule (last_action_of was)
                || is_spent step (ladder_of rule) (last_step_of was)
              ≡ false
            → not (may_act o now rule step) ≡ false
            → needs_socket step.action && not (o.is_online d.id) ≡ false
            → Good (elim t [
              | some b ↦ announce o now d rule (stopped_event rule b) mid
              | none ↦ act o now d rule step (detail_for rule reading) mid
            ])
        breaker (some b) t rested may reached = stays_quiet (then_quiet (announce-IsQuiet _ mid))
        breaker none t rested may reached =
            acts step mid refl same
              (record {
                failures = failures;
                over_threshold = over;
                counted = rw found counted;
                earned_by = e;
                cooled = rw found (or_false rested).0;
                not_spent = rw found (or_false rested).1;
                in_hours = true_of_not may;
                reached = reached;
                within = rw (sym same.budgets) t;
              })
              refl

  counted_pass : (failures : ℕ) → Option MonitorState → Pass → Pass
  counted_pass failures was p = record p {
    monitor = record p.monitor {
      states = count_failure d.id rule.id failures now was p.monitor.states;
    };
  }

  counted-IsQuiet :
      (failures : ℕ) (was : Option MonitorState) (p : Pass)
      → IsQuiet p (counted_pass failures was p)
  unfolding counted_pass
  counted-IsQuiet failures was p = record {
    calls = refl;
    readings = refl;
    budgets = refl;
    grows = λ q. omega arith;
  }

  escalate_lem :
      (was : Option MonitorState) (p mid : Pass) (failures : ℕ)
      → IsQuiet p mid
      → find_state d.id rule.id p.monitor.states ≡ was
      → ltb failures rule.threshold ≡ false
      → failures ≡ suc (failures_of was)
      → TakesOutcome (some true) p (escalate o now settings d rule was failures reading mid)
  unfolding escalate
  escalate_lem was p mid failures same found over counted =
      by_step (earned failures (ladder_of rule)) refl
    where
      by_step :
          (s : Option MonitorStep)
          → earned failures (ladder_of rule) ≡ s
          → TakesOutcome
              (some true)
              p
              (elim s [ none ↦ mid | some step ↦ climb o now settings d rule was reading step mid ])
      by_step none e = stays_quiet same
      by_step (some step) e = climb_lem was p mid same found failures step over counted e

  pub take_signal_lem :
      (bad : Option Bool) (p : Pass)
      → TakesOutcome bad p (take_signal o now settings d reading rule bad p)
  unfolding take_signal counted_pass
  take_signal_lem none p = stays_quiet (same-IsQuiet p)
  take_signal_lem (some false) p =
      stays_quiet (recover-IsQuiet (find_state d.id rule.id p.monitor.states) p)
  take_signal_lem (some true) p =
      let was = find_state d.id rule.id p.monitor.states in
      let failures = suc (failures_of was) in
      if_either (TakesOutcome (some true) p) (ltb failures rule.threshold)
        (counted_pass failures was p) _ (λ _. stays_quiet (counted-IsQuiet failures was p))
        λ over.
          escalate_lem was p (counted_pass failures was p) failures (counted-IsQuiet failures was p)
            refl over refl
