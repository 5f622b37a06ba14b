-- ===== src/Notify/Spacing.antt =====
-- The notices that the monitor's events (apps/hub/src/services/monitor.ts, record) got from notify.ts.
use magnemite.Prelude.{
  ℕ, ◌+◌, ◌-◌, ◌*◌, ◌<◌, ◌≡◌, ◌==◌, refl, sym, ◌∙◌, inl, inr, Bool-cases, ltb, Bool, true, false,
  not, ◌&&◌, List, [], ◌∷◌, any, All, All-map, arith,
}
use magnemite.Monitor.{MonitorEvent, MonitorRule, DeviceRow, Monitor}
use magnemite.Monitor.Rules.{same_signal}
use magnemite.Monitor.Actions.{Outside, EventInput}
use magnemite.Monitor.Records.{record_event}
use magnemite.Notify.{
  NotifySettings, Alert, Webhook, is_recent_fault, announced_recently, level_rank, notify,
}

abbrev pub is_notice : MonitorEvent → Bool
is_notice e = e.notified && not e.recovery

abbrev pub are_alike : MonitorEvent → MonitorEvent → Bool
are_alike x y = x.device_id == y.device_id && same_signal x.signal y.signal

abbrev pub IsApart : (minutes : ℕ) → MonitorEvent → MonitorEvent → Type 0
IsApart minutes x y =
    is_notice x ≡ true → is_notice y ≡ true → are_alike y x ≡ true → y.at + minutes * 60000 < x.at

-- The events, newest first: two notices of a fault of one box and signal are further apart than that.
abbrev pub IsSpaced : (minutes : ℕ) → List MonitorEvent → Type 0
IsSpaced minutes [] = Unit
IsSpaced minutes (x ∷ xs) = All (IsApart minutes x) xs × IsSpaced minutes xs

abbrev pub alert_of : DeviceRow → MonitorRule → EventInput → Alert
alert_of d rule e = record {
  device_id = d.id;
  signal = rule.signal;
  level = e.level;
  recovery = e.recovery;
}

-- Events that the monitor records, each asking notify.ts over the events before it.
pub data Recorded (s : NotifySettings) : Monitor → Type 0 where
  starts : {m : Monitor} → m.events ≡ [] → Recorded s m
  records :
      {m : Monitor} (o : Outside) (now : ℕ) (d : DeviceRow) (rule : MonitorRule) (e : EventInput)
      (announce : Bool) (hook : Webhook)
      → o.notice_lands d rule e ≡ notify s now hook m.events (alert_of d rule e)
      → Recorded s m
      → Recorded s (record_event o now d rule e announce m)

any-All : {A : Type 0} (p : A → Bool) (xs : List A) → any p xs ≡ false → All (λ x. p x ≡ false) xs
any-All p [] h = tt
any-All p (x ∷ xs) h = elim (Bool-cases (p x)) [
  | inl y ↦ absurd (true-ne-false (rw y at h))
  | inr n ↦ (n, any-All p xs (rw n at h))
]
  where
    true-ne-false : true ≡ false → ⊥
    true-ne-false e = cc

-- A fault that goes out was not announced in the minutes before.
notify-announced :
    (s : NotifySettings) (now : ℕ) (hook : Webhook) (events : List MonitorEvent) (alert : Alert)
    → 0 < s.alert_dedupe_minutes
    → alert.recovery ≡ false
    → notify s now hook events alert ≡ true
    → any (is_recent_fault (now - s.alert_dedupe_minutes * 60000) alert) events ≡ false
unfolding notify announced_recently
notify-announced s now hook events alert pos fault sent =
    elim (Bool-cases (any (is_recent_fault (now - s.alert_dedupe_minutes * 60000) alert) events)) [
      | inr n ↦ n
      | inl y ↦
          let some_minutes : s.alert_dedupe_minutes == 0 ≡ false = ground arith in
          elim (Bool-cases s.has_webhook) [
            | inr off ↦ absurd (false-ne-true (rw off at sent))
            | inl on ↦ elim (Bool-cases (ltb (level_rank alert.level) (level_rank s.min_level))) [
              | inl low ↦ absurd (false-ne-true (rw (on, fault, low) at sent))
              | inr high ↦ absurd (false-ne-true (rw (on, fault, high, some_minutes, y) at sent))
            ]
          ]
    ]
  where
    false-ne-true : false ≡ true → ⊥
    false-ne-true e = cc

spaced_by :
    (now minutes : ℕ) (a : Alert) (y : MonitorEvent)
    → is_recent_fault (now - minutes * 60000) a y ≡ false
    → is_notice y ≡ true
    → (y.device_id == a.device_id && same_signal y.signal a.signal ≡ true)
    → y.at + minutes * 60000 < now
spaced_by now minutes a y h n alike = grind arith

both_true : (a b : Bool) → a && b ≡ true → (a ≡ true) × (b ≡ true)
both_true true b h = (refl, h)
both_true false b h = absurd (cc)

unnoticed-IsApart :
    (minutes : ℕ) (x : MonitorEvent) (xs : List MonitorEvent)
    → is_notice x ≡ false
    → All (IsApart minutes x) xs
unnoticed-IsApart minutes x [] h = tt
unnoticed-IsApart minutes x (y ∷ ys) h =
    (λ n n' al. absurd (true-ne-false (sym n ∙ h)), unnoticed-IsApart minutes x ys h)
  where
    true-ne-false : true ≡ false → ⊥
    true-ne-false e = cc

not-true : (b : Bool) → not b ≡ true → b ≡ false
not-true false h = refl
not-true true h = absurd (cc)

abbrev recorded : Outside → (now : ℕ) → DeviceRow → MonitorRule → EventInput → Bool → MonitorEvent
recorded o now d rule e announce = record {
  device_id = d.id;
  rule_id = rule.id;
  signal = rule.signal;
  level = e.level;
  message = e.message;
  action = e.action;
  action_ok = e.action_ok;
  detail = e.detail;
  notified = announce && o.notice_lands d rule e;
  recovery = e.recovery;
  at = now;
}

-- If alerts are deduped over some minutes, and every event that the monitor records asks notify
-- over the events before it, with whatever answers of Discord, clock and rules, from no events on
-- and with none deleted in between, then two notices of a fault of one box and signal are more
-- than those minutes apart; recoveries do not count.
pub Recorded-IsSpaced :
    {s : NotifySettings} {m : Monitor}
    → 0 < s.alert_dedupe_minutes
    → Recorded s m
    → IsSpaced s.alert_dedupe_minutes m.events
unfolding record_event
Recorded-IsSpaced pos (starts e) = rw e tt
Recorded-IsSpaced {s} pos (records {m} o now d rule e announce hook asks t) = (
  elim (Bool-cases (announce && o.notice_lands d rule e && not e.recovery)) [
    | inr quiet ↦
        unnoticed-IsApart s.alert_dedupe_minutes (recorded o now d rule e announce) m.events quiet
    | inl notice ↦
        let (told, fault) = both_true _ _ notice in
        let (_, lands) = both_true _ _ told in
        let fresh =
          notify-announced s now hook m.events (alert_of d rule e) pos (not-true e.recovery fault)
            (sym asks ∙ lands) in
        All-map
          (λ y.
            is_recent_fault (now - s.alert_dedupe_minutes * 60000) (alert_of d rule e) y ≡ false)
          _ m.events
          (λ y h n n' alike. spaced_by now s.alert_dedupe_minutes (alert_of d rule e) y h n' alike)
          (any-All (is_recent_fault (now - s.alert_dedupe_minutes * 60000) (alert_of d rule e))
            m.events fresh)
  ],
  Recorded-IsSpaced pos t,
)
