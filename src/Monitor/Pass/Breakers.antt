-- ===== src/Monitor/Pass/Breakers.antt =====
-- The circuit breakers of monitor.ts over a pass: what has been asked of a box in the last hour, or
-- the last day, against what the events say has been spent on it.
use magnemite.Prelude.{
  ℕ, suc, ◌+◌, ◌*◌, ◌≤◌, ◌<◌, ◌==◌, ◌≡◌, refl, sym, ap, subst, inl, inr, Bool-cases, ==_iff,
  if_either, ltb, if◌then◌else◌, Bool, true, false, ◌&&◌, ◌||◌, Option, none, some, List, [], ◌∷◌,
  ◌++◌, count_if, keep, arith,
}
use magnemite.Monitor.{
  MonitorAction, MonitorRule, MonitorStep, MonitorEvent, DeviceRow, Reading, MonitorSettings,
  Monitor, Call, Request,
}
use magnemite.Monitor.Rules.{rules_for}
use magnemite.Monitor.Signals.{Gauge, read_signal, detail_for}
use magnemite.Monitor.Actions.{Outside, Budgets, spend, tripped, run_action}
use magnemite.Monitor.Records.{fire, record_event}
use magnemite.Monitor.Ladder.{Pass, act, call_of, evaluate_rule}
use magnemite.Monitor.Ladder.Outcome.{TakesOutcome, stays_quiet, acts, IsQuiet, take_signal_lem}
use magnemite.Monitor.Pass.{
  hour_ms, day_ms, is_within, is_spending, spent_budgets, evaluate_rules, evaluate_device,
  evaluate_devices, look_at_fleet, prune_events, Watch, approved_of, enabled_of, gauge_of, busy_of,
  is_due, evaluate, is_empty_list,
}

-- One of the two ceilings: the actions that it is about, its span, and where the budgets keep it.
pub record Breaker : Type 0 where
  pub kind : MonitorAction → Bool
  pub span : ℕ
  pub spent : Budgets → ℕ → ℕ
  pub ceiling : MonitorSettings → ℕ
  pub span_le : span ≤ day_ms
  pub spent-spend :
      (d : ℕ) (a : MonitorAction) (b : Budgets) (x : ℕ)
      → spent (spend d a b) x ≡ (if x == d && kind a then suc (spent b x) else spent b x)
  pub below_ceiling :
      (d : DeviceRow) (a : MonitorAction) (s : MonitorSettings) (b : Budgets)
      → tripped d a s b ≡ none
      → kind a ≡ true
      → spent b d.id < ceiling s
  pub spent_at_start :
      (now : ℕ) (events : List MonitorEvent) (x : ℕ)
      → spent (spent_budgets now events) x ≡ count_if (is_spending kind span now x) events

abbrev pub is_call_of : (MonitorAction → Bool) → (span now x : ℕ) → Call → Bool
is_call_of kind span now x c = c.device_id == x && kind c.action && is_within span now c.at

-- What has been asked of the box in the span.
abbrev pub calls_within : (MonitorAction → Bool) → (span now x : ℕ) → List Call → ℕ
calls_within kind span now x calls = count_if (is_call_of kind span now x) calls

abbrev events_within : (MonitorAction → Bool) → (span now x : ℕ) → List MonitorEvent → ℕ
events_within kind span now x events = count_if (is_spending kind span now x) events

grown :
    (d x : ℕ) (h w : Bool) (c' c n n' : ℕ)
    → c' ≤ (if d == x && h && w then suc c else c)
    → n' ≡ (if x == d && h then suc n else n)
    → c ≤ n
    → c' ≤ n'
grown d x h w c' c n n' new more k = ground arith

limited :
    (d x : ℕ) (h w : Bool) (c' c n m limit : ℕ)
    → c' ≤ (if d == x && h && w then suc c else c)
    → (h ≡ true → d ≡ x → n < m)
    → m ≤ limit
    → c ≤ n
    → c ≤ limit
    → c' ≤ limit
limited d x true w c' c n m limit new low top k l = elim (Bool-cases (d == x)) [
  | inl y ↦ let e = low refl ((==_iff d x).0 y) in ground arith
  | inr no_match ↦ ground arith
]
limited d x false w c' c n m limit new low top k l = ground arith

written :
    (d x : ℕ) (h w : Bool) (c' c n : ℕ)
    → c' ≤ (if d == x && h && w then suc c else c)
    → c ≤ n
    → c' ≤ (if d == x && h && w then suc n else n)
written d x h w c' c n new k = ground arith

module _ (b : Breaker) (limit x : ℕ) where
  -- What holds at any point of a pass.
  pub record IsKept (now : ℕ) (p : Pass) : Type 0 where
    pub counted : calls_within b.kind b.span now x p.monitor.calls ≤ b.spent p.budgets x
    pub bounded : calls_within b.kind b.span now x p.monitor.calls ≤ limit
    pub recorded :
        (s t : ℕ)
        → s ≤ day_ms
        → now ≤ t
        → calls_within b.kind s t x p.monitor.calls ≤ events_within b.kind s t x p.monitor.events

  quiet-IsKept : {now : ℕ} {p p' : Pass} → IsQuiet p p' → IsKept now p → IsKept now p'
  quiet-IsKept {now} {p} {p'} q k = record {
    counted = rw (q.calls, q.budgets) k.counted;
    bounded = rw q.calls k.bounded;
    recorded = λ s t hs ht.
        let r = k.recorded s t hs ht in
        let g = q.grows (is_spending b.kind s t x) in rw q.calls (omega arith);
  }

  -- One more call adds one to each count that it is in.
  one_call :
      (s t d now : ℕ) (a : MonitorAction) (r : Option Request) (cs : List Call)
      → calls_within b.kind s t x (call_of d now a r ++ cs) ≤ (
          if d == x && b.kind a && is_within s t now
          then suc (calls_within b.kind s t x cs)
          else calls_within b.kind s t x cs)
  one_call s t d now a none cs = ground arith
  one_call s t d now a (some r) cs = ground arith

  module _ (o : Outside) (now : ℕ) (settings : MonitorSettings) (d : DeviceRow) (rule : MonitorRule)
      (step : MonitorStep) (detail : Option _) (ceil : b.ceiling settings ≤ limit) where
    act-IsKept :
        (p : Pass)
        → tripped d step.action settings p.budgets ≡ none
        → IsKept now p
        → IsKept now (act o now d rule step detail p)
    unfolding act fire record_event
    act-IsKept p free k =
        let a = step.action in
        let r = (run_action o d rule a step.command).request in
        let cs = p.monitor.calls in
        let new = one_call b.span now d.id now a r cs in
        let more = b.spent-spend d.id a p.budgets x in
        record {
          counted = grown d.id x (b.kind a) (is_within b.span now now) _ _ _ _ new more k.counted;
          bounded =
              limited d.id x (b.kind a) (is_within b.span now now) _ _ (b.spent p.budgets x)
                (b.ceiling settings) limit new
                (λ h e.
                  subst (λ y. b.spent p.budgets y < b.ceiling settings) e
                    (b.below_ceiling d a settings p.budgets free h))
                ceil k.counted k.bounded;
          recorded = λ s t hs ht.
              written d.id x (b.kind a) (is_within s t now) _ _ _ (one_call s t d.id now a r cs)
                (k.recorded s t hs ht);
        }

  module _ (o : Outside) (settings : MonitorSettings) (g : Gauge)
      (ceil : b.ceiling settings ≤ limit) where
    evaluate_rule-IsKept :
        (d : DeviceRow) (reading : Option Reading) (rule : MonitorRule) (p : Pass)
        → IsKept g.now p
        → IsKept g.now (evaluate_rule o settings g d reading rule p)
    unfolding evaluate_rule
    evaluate_rule-IsKept d reading rule p k =
        by_outcome _
          (take_signal_lem o g.now settings d reading rule (read_signal g rule d reading) p)
      where
        by_outcome :
            (p' : Pass)
            → TakesOutcome o g.now settings d reading rule (read_signal g rule d reading) p p'
            → IsKept g.now p'
        by_outcome p' (stays_quiet q) = quiet-IsKept q k
        by_outcome p' (acts step mid bad q earned e) = subst (IsKept g.now) (sym e) (
            act-IsKept o g.now settings d rule step (detail_for rule reading) ceil mid
              (rw q.budgets earned.within) (quiet-IsKept q k))

    evaluate_rules-IsKept :
        (d : DeviceRow) (reading : Option Reading) (rules : List MonitorRule) (p : Pass)
        → IsKept g.now p
        → IsKept g.now (evaluate_rules o settings g d reading rules p)
    unfolding evaluate_rules
    evaluate_rules-IsKept d reading [] p k = k
    evaluate_rules-IsKept d reading (r ∷ rs) p k =
        evaluate_rules-IsKept d reading rs _ (evaluate_rule-IsKept d reading r p k)

    evaluate_devices-IsKept :
        (rules : List MonitorRule) (busy : ℕ → Bool) (ds : List DeviceRow) (p : Pass)
        → IsKept g.now p
        → IsKept g.now (evaluate_devices o settings g rules busy ds p)
    unfolding evaluate_devices evaluate_device
    evaluate_devices-IsKept rules busy [] p k = k
    evaluate_devices-IsKept rules busy (d ∷ ds) p k = evaluate_devices-IsKept rules busy ds _ (
        if_either (IsKept g.now) (busy d.id) p _ (λ _. k)
          λ _. evaluate_rules-IsKept d _ (rules_for rules d.group_id) p k)

  -- What holds between the passes, from the instant of the last on.
  pub record IsSober (last : ℕ) (m : Monitor) : Type 0 where
    pub limited_from : (t : ℕ) → last ≤ t → calls_within b.kind b.span t x m.calls ≤ limit
    pub recorded_from :
        (s t : ℕ)
        → s ≤ day_ms
        → last ≤ t
        → calls_within b.kind s t x m.calls ≤ events_within b.kind s t x m.events

  later : {last now : ℕ} {m : Monitor} → last ≤ now → IsSober last m → IsSober now m
  later le h = record {
    limited_from = λ t ht. h.limited_from t (omega arith);
    recorded_from = λ s t hs ht. h.recorded_from s t hs (omega arith);
  }

  fewer_later :
      (now t : ℕ) (cs : List Call)
      → now ≤ t
      → calls_within b.kind b.span t x cs ≤ calls_within b.kind b.span now x cs
  fewer_later now t [] le = omega arith
  fewer_later now t (c ∷ cs) le = ground (arith, fewer_later now t cs le)

  kept-IsSober : {now : ℕ} {p : Pass} → IsKept now p → IsSober now p.monitor
  kept-IsSober {now} {p} k = record {
    limited_from =
        λ t ht. let f = fewer_later now t p.monitor.calls ht in let l = k.bounded in omega arith;
    recorded_from = λ s t hs ht. k.recorded s t hs ht;
  }

  look_at_fleet-IsSober :
      (o : Outside) (now : ℕ) (w : Watch) (m : Monitor)
      → b.ceiling w.settings ≤ limit
      → IsSober now m
      → IsSober now (look_at_fleet o now w m)
  unfolding look_at_fleet
  look_at_fleet-IsSober o now w m ceil h =
      let k =
        evaluate_devices-IsKept o w.settings (gauge_of o now w) ceil (enabled_of w)
          (busy_of now w m) (approved_of w)
          (record { monitor = m; budgets = spent_budgets now m.events })
          (record {
            counted =
                rw (b.spent_at_start now m.events x)
                  (h.recorded_from b.span now b.span_le (omega arith));
            bounded = h.limited_from now (omega arith);
            recorded = λ s t hs ht. h.recorded_from s t hs ht;
          }) in
      kept-IsSober k

  -- Pruning takes away nothing that a breaker still counts.
  prune_events-count :
      (retention_days now s t : ℕ) (es : List MonitorEvent)
      → 0 < retention_days
      → s ≤ day_ms
      → now ≤ t
      → events_within b.kind s t x (keep (λ e. is_within (retention_days * day_ms) now e.at) es)
        ≡ events_within b.kind s t x es
  prune_events-count retention_days now s t [] some_day hs ht = refl
  prune_events-count retention_days now s t (e ∷ es) some_day hs ht =
      elim (Bool-cases (is_within (retention_days * day_ms) now e.at)) [
        | inl y ↦ rw y (
            ap (λ n. if is_spending b.kind s t x e then suc n else n)
              (prune_events-count retention_days now s t es some_day hs ht))
        | inr n ↦
            let old : is_within s t e.at ≡ false = too_old e.at n in
            let out : is_spending b.kind s t x e ≡ false = ground arith in
            rw (n, out) (prune_events-count retention_days now s t es some_day hs ht)
      ]
    where
      too_old :
          (at : ℕ) → is_within (retention_days * day_ms) now at ≡ false → is_within s t at ≡ false
      too_old at n = ground arith

  prune_events-IsSober :
      (now retention_days : ℕ) (m : Monitor)
      → IsSober now m
      → IsSober now (prune_events now retention_days m)
  unfolding prune_events
  prune_events-IsSober now retention_days m h =
      if_either (IsSober now) (retention_days == 0 || ltb now (m.last_prune_at + hour_ms)) m _
        (λ _. h)
        λ n. record {
          limited_from = h.limited_from;
          recorded_from = λ s t hs ht.
              rw (prune_events-count retention_days now s t m.events (ground arith) hs ht)
                (h.recorded_from s t hs ht);
        }

  pub evaluate-IsSober :
      (o : Outside) (last now : ℕ) (w : Watch) (m : Monitor)
      → b.ceiling w.settings ≤ limit
      → last ≤ now
      → IsSober last m
      → IsSober now (evaluate o now w m)
  unfolding evaluate
  evaluate-IsSober o last now w m ceil le h =
      let k = later le h in
      let ticked = record m { last_tick_at = now } in
      let t : IsSober now ticked = record {
        limited_from = k.limited_from;
        recorded_from = k.recorded_from;
      } in
      if_either (IsSober now) (is_due now w m) _ m
        (λ _.
          if_either (IsSober now) (is_empty_list (enabled_of w) || is_empty_list (approved_of w))
            ticked _ (λ _. t)
            λ _.
              prune_events-IsSober now w.settings.event_retention_days _
                (look_at_fleet-IsSober o now w ticked ceil t))
        λ _. k
