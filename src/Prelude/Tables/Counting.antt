-- ===== src/Prelude/Tables/Counting.antt =====
-- How many rows pass a test, before and after a change of one row.
use Prim.Native.Nat.{ℕ, ◌+◌, ◌≤◌}
use mathlib.Core.Path.{◌≡◌, refl, subst}
use mathlib.Core.Logic.{inl, inr}
use mathlib.Core.Bool.{Bool}
use mathlib.Core.Option.{none, some}
use mathlib.Core.List.{List, [], ◌∷◌}
use native.Mathlib.Omega.{arith}
use magnemite.Prelude.Tests.{◌==◌, if◌then◌else◌, Bool-cases, ==_iff, eq_of_some}
use magnemite.Prelude.Lists.{count_if}
use magnemite.Prelude.Tables.{find, update, IsKeyed, update_of_find-none}

abbrev pub one_if : Bool → ℕ
one_if b = if b then 1 else 0

module _ {ℓ} {A : Type ℓ} (key : A → ℕ) (k : ℕ) where
  pub update-update :
      (f g : A → A) (xs : List A)
      → ((x : A) → key (f x) ≡ key x)
      → update key k g (update key k f xs) ≡ update key k (λ x. g (f x)) xs
  unfolding update
  update-update f g [] same = refl
  update-update f g (x ∷ xs) same = ground (arith, same x, update-update f g xs same)

  -- Only the row under the key can add to the count, and only if it passes afterwards.
  pub count_if-update :
      (p : A → Bool) (f : A → A) (xs : List A) {x : A}
      → IsKeyed key xs
      → find key k xs ≡ some x
      → count_if p (update key k f xs) ≤ count_if p xs + one_if (p (f x))
  unfolding find update
  count_if-update p f [] u e = omega arith
  count_if-update p f (y ∷ ys) {x} (u, us) e = elim (Bool-cases (key y == k)) [
    | inl hit ↦
        let same : y ≡ x = eq_of_some (rw hit at e) in
        let last : find key k ys ≡ none =
          subst (λ z. find key z ys ≡ none) ((==_iff _ _).0 hit) u in
        rw hit (
          rw (update_of_find-none key k f ys last) (
            subst (λ z. count_if p (f y ∷ ys) ≤ count_if p (y ∷ ys) + one_if (p (f z))) same
              (ground arith)))
    | inr miss ↦ rw miss (ground (arith, count_if-update p f ys {x = x} us (rw miss at e)))
  ]
