-- ===== src/Window.antt =====
-- The install window of apps/hub/src/services/scheduler.ts (`insideWindow`).
pub mod Laws
use magnemite.Prelude.{
  ℕ, ◌+◌, ◌*◌, ltb, leb, if◌then◌else◌, Bool, true, false, ◌&&◌, ◌||◌, Option, none, some, or_else,
  String, [], ◌∷◌, chars, number, split_on,
}
use magnemite.Jobs.{is_truthy}

-- "HH:MM" in minutes; `none` stands for NaN.
abbrev plus_minutes : Option ℕ → Option ℕ → Option ℕ
plus_minutes (some h) (some m) = some (h * 60 + m)
plus_minutes _ _ = none

unfoldable pub to_minutes : String → Option ℕ
unfolding split_on
to_minutes v = elim (split_on b':' [] (chars v)) [
  | [] ↦ some 0
  | h ∷ rest ↦ elim rest [
    | [] ↦ plus_minutes (number h) (some 0)
    | m ∷ _ ↦ plus_minutes (number h) (number m)
  ]
]

-- The window itself: the start is in it, the end is not, and it may wrap round midnight.
unfoldable pub in_window : ℕ → ℕ → ℕ → Bool
in_window start end minutes =
    if leb start end
    then leb start minutes && ltb minutes end
    else leb start minutes || ltb minutes end

-- A comparison with NaN is false.
abbrev in_window? : Option ℕ → Option ℕ → ℕ → Bool
in_window? (some start) (some end) minutes = in_window start end minutes
in_window? none (some end) minutes = ltb minutes end
in_window? (some start) none minutes = leb start minutes
in_window? none none minutes = false

unfoldable pub inside_window : Option String → Option String → ℕ → Bool
unfolding in_window to_minutes
inside_window start end minutes =
    if is_truthy start && is_truthy end
    then in_window? (to_minutes (or_else start "")) (to_minutes (or_else end "")) minutes
    else true
