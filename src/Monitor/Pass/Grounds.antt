-- ===== src/Monitor/Pass/Grounds.antt =====
-- What a pass of monitor.ts has seen of the tables when it looks at a box: whom and what it reads, that it is
-- due, and that the box is not busy.
use magnemite.Prelude.{
  ℕ, ◌+◌, ◌*◌, ◌≤◌, ◌==◌, leb, any, ◌≡◌, refl, if_either, Bool, true, false, ◌&&◌, ◌||◌, List, [],
  ◌∷◌, map, keep, sort, sort-All, keep-All, keep-All_self, All, All-map, arith,
}
use mathlib.Core.List.{Memᴰ}
use magnemite.Store.{Job, is_active}
use magnemite.Monitor.{MonitorRule, MonitorEvent, MonitorSettings, Monitor, is_hard}
use magnemite.Monitor.Rules.{load_enabled_rules, with_sorted_steps, by_position}
use magnemite.Monitor.Pass.{Watch, is_due, is_busy, has_action, is_done}

-- A rule as the pass reads it: one of the table that is enabled, its steps in order.
abbrev pub IsOneOf : List MonitorRule → MonitorRule → Type 0
IsOneOf rules rule =
    (row : MonitorRule) × Memᴰ row rules × (row.enabled ≡ true) × (rule ≡ with_sorted_steps row)

-- Each of the rows is one of the table.
all_of {ℓ} : {A : Type ℓ} (xs : List A) → All (λ x. Memᴰ x xs) xs
all_of [] = tt
all_of (x ∷ xs) = (
  Memᴰ.head refl,
  All-map (λ y. Memᴰ y xs) (λ y. Memᴰ y (x ∷ xs)) xs (λ y m. Memᴰ.tail m) (all_of xs),
)

-- What is kept of a table is of it and passes the test.
pub keep_of {ℓ} :
    {A : Type ℓ} (p : A → Bool) (xs : List A) → All (λ x. Memᴰ x xs × (p x ≡ true)) (keep p xs)
keep_of p xs = both (keep p xs) (keep-All (λ x. Memᴰ x xs) p xs (all_of xs)) (keep-All_self p xs)
  where
    both :
        (ys : List _)
        → All (λ x. Memᴰ x xs) ys
        → All (λ x. p x ≡ true) ys
        → All (λ x. Memᴰ x xs × (p x ≡ true)) ys
    both [] h k = tt
    both (y ∷ ys) (m, h) (e, k) = ((m, e), both ys h k)

pub enabled_rules-All :
    (settings : MonitorSettings) (rules : List MonitorRule)
    → All (IsOneOf rules) (load_enabled_rules settings rules)
unfolding load_enabled_rules
enabled_rules-All settings rules =
    if_either (All (IsOneOf rules)) settings.enabled
      (map with_sorted_steps (sort by_position (keep (λ r. r.enabled) rules))) []
      (λ _. sorted (sort by_position (keep (λ r. r.enabled) rules)) (
        sort-All by_position IsListed (keep (λ r. r.enabled) rules)
          (keep_of (λ r. r.enabled) rules)))
      (λ _. tt)
  where
    IsListed : MonitorRule → Type 0
    IsListed r = Memᴰ r rules × (r.enabled ≡ true)

    sorted :
        (rs : List MonitorRule) → All IsListed rs → All (IsOneOf rules) (map with_sorted_steps rs)
    sorted [] h = tt
    sorted (r ∷ rs) ((m, e), h) = ((r, m, e, refl), sorted rs h)

pub is_due-cases :
    (now : ℕ) (w : Watch) (m : Monitor)
    → is_due now w m ≡ true
    → (w.settings.enabled ≡ true)
      × (m.started_at + w.settings.startup_grace_seconds * 1000 ≤ now)
      × (m.last_tick_at + w.heartbeat_seconds * 1000 ≤ now)
is_due-cases now w m due = ground arith

pub is_busy-cases :
    (grace_ms now : ℕ) (jobs : List Job) (events : List MonitorEvent) (d : ℕ)
    → is_busy grace_ms now jobs events d ≡ false
    → (any (λ j. j.device_id == d && is_active j.state) jobs ≡ false)
      × (any
            (λ e.
              e.device_id == d
              && has_action is_hard e.action
              && is_done e.action_ok
              && leb now (e.at + grace_ms))
            events
          ≡ false)
unfolding is_busy
is_busy-cases grace_ms now jobs events d free = neither _ _ free
  where
    neither : (a b : Bool) → a || b ≡ false → (a ≡ false) × (b ≡ false)
    neither a b e = ground arith
