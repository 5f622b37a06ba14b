-- ===== src/Monitor/Ladder/Counter.antt =====
-- The counter of a rule on a box, over the signals that have been read of any rules and boxes.
use mathlib.Core.Option
use magnemite.Prelude.{
  ℕ, suc, ◌==◌, ◌≡◌, ◌∙◌, refl, sym, ap, inl, inr, Bool-cases, if_either, if_both, is_some,
  if◌then◌else◌, ltb, Bool, true, false, not, ◌&&◌, ◌||◌, Option, none, some, String, List, [], ◌∷◌,
  ◌++◌, arith,
}
use magnemite.Monitor.{
  needs_socket, MonitorRule, MonitorStep, MonitorState, DeviceRow, Reading, MonitorSettings,
  Monitor, Detail,
}
use magnemite.Monitor.Signals.{detail_for}
use magnemite.Monitor.Actions.{Outside, EventInput, tripped, run_action}
use magnemite.Monitor.Records.{
  is_state_of, find_state, update_state, count_failure, fire, record_event, already_said, stamp,
  set_failures,
}
use magnemite.Monitor.Ladder.{
  Pass, recover, act, announce, climb, escalate, earned, ladder_of, is_cooling, is_spent,
  last_action_of, last_step_of, may_act, stopped_event, take_signal, failures_of, acted_event,
  call_of, clear_failures,
}

-- A signal of a rule on a box as it was read, and with what else the pass had.
pub record SignalRead : Type 0 where
  pub now : ℕ
  pub device : DeviceRow
  pub rule : MonitorRule
  pub reading : Option Reading
  pub settings : MonitorSettings
  pub bad : Option Bool

abbrev pub next_count : Option Bool → ℕ → ℕ
next_count none n = n
next_count (some false) n = 0
next_count (some true) n = suc n

-- How often the signal has been bad in a row, unknown ones aside; newest first.
unfoldable pub in_a_row : (x y : ℕ) → List SignalRead → ℕ
in_a_row x y [] = 0
in_a_row x y (s ∷ older) =
    if s.device.id == x && s.rule.id == y
    then next_count s.bad (in_a_row x y older)
    else in_a_row x y older

unfoldable pub take_signals : Outside → List SignalRead → Pass → Pass
unfolding take_signal
take_signals o [] p = p
take_signals o (s ∷ older) p =
    take_signal o s.now s.settings s.device s.reading s.rule s.bad (take_signals o older p)

-- A change of a row that leaves its keys.
abbrev KeepsKeys : (MonitorState → MonitorState) → Type 0
KeepsKeys f = (x y : ℕ) (s : MonitorState) → is_state_of x y (f s) ≡ is_state_of x y s

module _ (x y : ℕ) where
  abbrev pub count_in : List MonitorState → ℕ
  count_in ss = failures_of (find_state x y ss)

  update_state-other :
      (d r : ℕ) (f : MonitorState → MonitorState) (ss : List MonitorState)
      → KeepsKeys f
      → d == x && r == y ≡ false
      → find_state x y (update_state d r f ss) ≡ find_state x y ss
  unfolding find_state update_state
  update_state-other d r f [] keeps e = refl
  update_state-other d r f (s ∷ ss) keeps e =
      ground (arith, keeps x y s, update_state-other d r f ss keeps e)

  update_state_self :
      (f : MonitorState → MonitorState) (ss : List MonitorState)
      → KeepsKeys f
      → find_state x y (update_state x y f ss) ≡ Option.map f (find_state x y ss)
  unfolding find_state update_state
  update_state_self f [] keeps = refl
  update_state_self f (s ∷ ss) keeps = elim (Bool-cases (is_state_of x y s)) [
    | inl hit ↦ let same = keeps x y s in rw hit (rw (same ∙ hit) refl)
    | inr miss ↦ rw miss (rw miss (update_state_self f ss keeps))
  ]

  -- A change of one row, as the counter sees it.
  update_state-count :
      (d r : ℕ) (f : MonitorState → MonitorState) (next : ℕ → ℕ) (ss : List MonitorState)
      → KeepsKeys f
      → ((o : Option MonitorState)
          → find_state d r ss ≡ o
          → failures_of (Option.map f o) ≡ next (failures_of o))
      → count_in (update_state d r f ss)
        ≡ (if d == x && r == y then next (count_in ss) else count_in ss)
  update_state-count d r f next ss keeps counts = elim (Bool-cases (d == x && r == y)) [
    | inl hit ↦
        let (ex, ey) = both hit in
        let moved : find_state x y (update_state d r f ss) ≡ Option.map f (find_state x y ss) =
          rw (ex, ey) (update_state_self f ss keeps) in
        rw hit (ap failures_of moved ∙ counts (find_state x y ss) (rw (ex, ey) refl))
    | inr miss ↦ rw miss (ap failures_of (update_state-other d r f ss keeps miss))
  ]
    where
      both : d == x && r == y ≡ true → (d ≡ x) × (r ≡ y)
      both e = ground arith

  fire-count :
      (o : Outside) (now : ℕ) (d : DeviceRow) (rule : MonitorRule) (at_failure : Option ℕ)
      (e : EventInput) (m : Monitor)
      → count_in (fire o now d rule at_failure e m).states ≡ count_in m.states
  unfolding fire record_event
  fire-count o now d rule at_failure e m =
      if_either (λ (n : Monitor). count_in n.states ≡ count_in m.states)
        (not (is_some at_failure) && already_said d.id rule.id e.message m.events) _ _
        (λ _. stamped) (λ _. stamped)
    where
      kept :
          (s : Option MonitorState)
          → failures_of (Option.map (stamp now at_failure) s) ≡ failures_of s
      kept none = refl
      kept (some s) = refl

      stamped :
          count_in (update_state d.id rule.id (stamp now at_failure) m.states) ≡ count_in m.states
      stamped =
          update_state-count d.id rule.id (stamp now at_failure) (λ n. n) m.states (λ x y s. refl)
            (λ s _. kept s)
          ∙ if_both (λ n. n ≡ count_in m.states) (d.id == x && rule.id == y) _ _ refl refl

  module _ (o : Outside) (now : ℕ) (settings : MonitorSettings) (d : DeviceRow)
      (reading : Option Reading) (rule : MonitorRule) where
    abbrev Same : Pass → Pass → Type 0
    Same p p' = count_in p'.monitor.states ≡ count_in p.monitor.states

    act-count :
        (step : MonitorStep) (detail : Option String) (p : Pass)
        → Same p (act o now d rule step detail p)
    unfolding act
    act-count step detail p =
        let outcome = run_action o d rule step.action step.command in
        fire-count o now d rule (some step.at_failure) (acted_event rule step.action detail outcome)
          (record p.monitor {
            calls = call_of d.id now step.action outcome.request ++ p.monitor.calls;
          })

    climb-count :
        (was : Option MonitorState) (step : MonitorStep) (p : Pass)
        → Same p (climb o now settings d rule was reading step p)
    unfolding climb
    climb-count was step p =
        if_either (Same p)
          (is_cooling now rule (last_action_of was)
            || is_spent step (ladder_of rule) (last_step_of was))
          p _ (λ _. refl)
          λ _.
            if_either (Same p) (not (may_act o now rule step)) _ _
              (λ _. fire-count o now d rule none _ p.monitor)
              λ _.
                if_either (Same p) (needs_socket step.action && not (o.is_online d.id)) p _
                  (λ _. refl) λ _. breaker (tripped d step.action settings p.budgets)
      where
        breaker :
            (t : Option Detail)
            → Same p (elim t [
              | some b ↦ announce o now d rule (stopped_event rule b) p
              | none ↦ act o now d rule step (detail_for rule reading) p
            ])
        breaker (some b) = fire-count o now d rule none _ p.monitor
        breaker none = act-count step (detail_for rule reading) p

    escalate-count :
        (was : Option MonitorState) (failures : ℕ) (p : Pass)
        → Same p (escalate o now settings d rule was failures reading p)
    unfolding escalate
    escalate-count was failures p = by_step (earned failures (ladder_of rule))
      where
        by_step :
            (s : Option MonitorStep)
            → Same p
                (elim s [ none ↦ p | some step ↦ climb o now settings d rule was reading step p ])
        by_step none = refl
        by_step (some step) = climb-count was step p

    abbrev Counts : Option Bool → Pass → Pass → Type 0
    Counts bad p p' = count_in p'.monitor.states ≡ (
        if d.id == x && rule.id == y
        then next_count bad (count_in p.monitor.states)
        else count_in p.monitor.states)

    -- Where the row that has been read has no failures, nothing is to be cleared.
    idle_lem :
        (p : Pass)
        → failures_of (find_state d.id rule.id p.monitor.states) ≡ 0
        → Counts (some false) p p
    idle_lem p e = elim (Bool-cases (d.id == x && rule.id == y)) [
      | inl hit ↦ rw hit (
          let (ex, ey) = both hit in let z : count_in p.monitor.states ≡ 0 = rw (← ex, ← ey) e in z)
      | inr miss ↦ rw miss refl
    ]
      where
        both : d.id == x && rule.id == y ≡ true → (d.id ≡ x) × (rule.id ≡ y)
        both e = ground arith

    recover-count :
        (p : Pass) (was : Option MonitorState)
        → find_state d.id rule.id p.monitor.states ≡ was
        → Counts (some false) p (record p { monitor = recover o now d rule was p.monitor })
    unfolding recover record_event
    recover-count p none e = idle_lem p (rw e refl)
    recover-count p (some s) e = elim (Bool-cases (s.failures == 0)) [
      | inl none_yet ↦ rw none_yet (idle_lem p (rw e (zero_of none_yet)))
      | inr some_yet ↦ rw some_yet (
          update_state-count d.id rule.id clear_failures (λ n. 0) p.monitor.states (λ x y s. refl)
            cleared)
    ]
      where
        zero_of : s.failures == 0 ≡ true → s.failures ≡ 0
        zero_of e = ground arith

        cleared :
            (t : Option MonitorState)
            → find_state d.id rule.id p.monitor.states ≡ t
            → failures_of (Option.map clear_failures t) ≡ 0
        cleared none f = refl
        cleared (some t) f = refl

    count_failure-count :
        (was : Option MonitorState) (ss : List MonitorState)
        → find_state d.id rule.id ss ≡ was
        → count_in (count_failure d.id rule.id (suc (failures_of was)) now was ss)
          ≡ (if d.id == x && rule.id == y then suc (count_in ss) else count_in ss)
    unfolding count_failure find_state
    count_failure-count none ss e = elim (Bool-cases (d.id == x && rule.id == y)) [
      | inl hit ↦ rw hit (
          ap suc (
            let (ex, ey) = both hit in
            let z : count_in ss ≡ 0 = rw (← ex, ← ey) (rw e refl) in sym z))
      | inr miss ↦ rw miss refl
    ]
      where
        both : d.id == x && rule.id == y ≡ true → (d.id ≡ x) × (rule.id ≡ y)
        both e = ground arith
    count_failure-count (some s) ss e =
        update_state-count d.id rule.id (set_failures (suc s.failures) now) suc ss (λ x y s. refl)
          counted
      where
        counted :
            (t : Option MonitorState)
            → find_state d.id rule.id ss ≡ t
            → failures_of (Option.map (set_failures (suc s.failures) now) t) ≡ suc (failures_of t)
        counted none f = absurd (cc)
        counted (some u) f =
            let same : s.failures ≡ u.failures = ap (λ t. failures_of t) (sym e ∙ f) in rw same refl

    pub take_signal-count :
        (bad : Option Bool) (p : Pass)
        → Counts bad p (take_signal o now settings d reading rule bad p)
    unfolding take_signal
    take_signal-count none p =
        if_both (λ n. count_in p.monitor.states ≡ n) (d.id == x && rule.id == y) _ _ refl refl
    take_signal-count (some false) p = recover-count p _ refl
    take_signal-count (some true) p =
        let was = find_state d.id rule.id p.monitor.states in
        let counted : Pass = record p {
          monitor = record p.monitor {
            states = count_failure d.id rule.id (suc (failures_of was)) now was p.monitor.states;
          };
        } in
        let one = count_failure-count was p.monitor.states refl in
        if_either (Counts (some true) p) (ltb (suc (failures_of was)) rule.threshold) counted _
          (λ _. one) λ _. escalate-count was (suc (failures_of was)) counted ∙ one

  -- Whatever signals of rules on boxes are taken in whatever order, the failures that the row of
  -- one rule on one box counts, from none at first, are how often its own signal has been bad in a
  -- row: an unknown one is passed over, a good one starts again, and the others do not matter.
  pub take_signals-count :
      (o : Outside) (signals : List SignalRead) (p : Pass)
      → count_in p.monitor.states ≡ 0
      → count_in (take_signals o signals p).monitor.states ≡ in_a_row x y signals
  unfolding take_signals in_a_row
  take_signals-count o [] p e = e
  take_signals-count o (s ∷ older) p e =
      take_signal-count o s.now s.settings s.device s.reading s.rule s.bad (take_signals o older p)
      ∙ ap (λ n. if s.device.id == x && s.rule.id == y then next_count s.bad n else n)
          (take_signals-count o older p e)
