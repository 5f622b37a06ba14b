-- ===== src/Prelude/Tables/Snapshot.antt =====
-- Rows that a query has read, and that the table still holds as they were read.
use Prim.Native.Nat.{ℕ}
use mathlib.Core.Path.{◌≡◌, refl, sym, ◌∙◌}
use mathlib.Core.Logic.{◌≢◌, inl, inr}
use mathlib.Core.Bool.{Bool, true, not}
use mathlib.Core.Option.{none, some}
use mathlib.Core.List.{List, [], ◌∷◌}
use native.Mathlib.Omega.{arith}
use magnemite.Prelude.Tests.{◌==◌, Bool-cases, ==_iff}
use magnemite.Prelude.Lists.{All, keep}
use magnemite.Prelude.Tables.{find, update, IsKeyed, find-update_ne}

module _ {ℓ} {A : Type ℓ} where
  pub keep-All {κ} : (P : A → Type κ) (p : A → Bool) (xs : List A) → All P xs → All P (keep p xs)
  keep-All P p [] h = tt
  keep-All P p (x ∷ xs) (q, h) = elim (Bool-cases (p x)) [
    | inl hit ↦ rw hit (q, keep-All P p xs h)
    | inr miss ↦ rw miss (keep-All P p xs h)
  ]

  -- The rows that a filter keeps pass it.
  pub keep-All_self : (p : A → Bool) (xs : List A) → All (λ x. p x ≡ true) (keep p xs)
  keep-All_self p [] = tt
  keep-All_self p (x ∷ xs) = elim (Bool-cases (p x)) [
    | inl hit ↦ rw hit (hit, keep-All_self p xs)
    | inr miss ↦ rw miss (keep-All_self p xs)
  ]

  pub All-map {κ} : (P Q : A → Type κ) (xs : List A) → ((x : A) → P x → Q x) → All P xs → All Q xs
  All-map P Q [] f h = tt
  All-map P Q (x ∷ xs) f (p, h) = (f x p, All-map P Q xs f h)

module _ {ℓ} {A : Type ℓ} (key : A → ℕ) where
  pub find-keep_none :
      (p : A → Bool) (k : ℕ) (xs : List A) → find key k xs ≡ none → find key k (keep p xs) ≡ none
  unfolding find
  find-keep_none p k [] e = refl
  find-keep_none p k (x ∷ xs) e = ground (arith, find-keep_none p k xs)

  pub keep-IsKeyed : (p : A → Bool) (xs : List A) → IsKeyed key xs → IsKeyed key (keep p xs)
  keep-IsKeyed p [] u = tt
  keep-IsKeyed p (x ∷ xs) (u, us) = elim (Bool-cases (p x)) [
    | inl hit ↦ rw hit (find-keep_none p (key x) xs u, keep-IsKeyed p xs us)
    | inr miss ↦ rw miss (keep-IsKeyed p xs us)
  ]

  -- Each of the rows is what the table has under its key.
  abbrev pub AreHeld : List A → List A → Type ℓ
  AreHeld table rows = All (λ y. find key (key y) table ≡ some y) rows

  pub find-cons_ne :
      (x y : A) (xs : List A)
      → find key (key x) xs ≡ none
      → find key (key y) xs ≡ some y
      → find key (key y) (x ∷ xs) ≡ some y
  unfolding find
  find-cons_ne x y xs u e = elim (Bool-cases (key x == key y)) [
    | inl hit ↦ absurd (none-ne-some (sym u ∙ (rw ((==_iff _ _).0 hit) e)))
    | inr miss ↦ rw miss e
  ]
    where
      none-ne-some : none ≡ some y → ⊥
      none-ne-some h = cc

  pub keyed-AreHeld : (xs : List A) → IsKeyed key xs → AreHeld xs xs
  unfolding find
  keyed-AreHeld [] u = tt
  keyed-AreHeld (x ∷ xs) (u, us) = (
    rw ((==_iff (key x) (key x)).1 refl),
    All-map (λ y. find key (key y) xs ≡ some y) (λ y. find key (key y) (x ∷ xs) ≡ some y) xs
        (λ y e. find-cons_ne x y xs u e) (keyed-AreHeld xs us),
  )

  pub ne-of_find-none : (k : ℕ) (x : A) (xs : List A) → find key k (x ∷ xs) ≡ none → key x ≢ k
  unfolding find
  ne-of_find-none k x xs e = ground arith

  pub tail-find-none :
      (k : ℕ) (x : A) (xs : List A) → find key k (x ∷ xs) ≡ none → find key k xs ≡ none
  unfolding find
  tail-find-none k x xs e = ground arith

  -- A change under another key leaves them held.
  pub update-AreHeld :
      (k : ℕ) (f : A → A) (table rows : List A)
      → ((x : A) → key (f x) ≡ key x)
      → find key k rows ≡ none
      → AreHeld table rows
      → AreHeld (update key k f table) rows
  update-AreHeld k f table [] same u h = tt
  update-AreHeld k f table (y ∷ ys) same u (e, h) = (
    find-update_ne key k f same (key y) table (ne-of_find-none k y ys u) ∙ e,
    update-AreHeld k f table ys same (tail-find-none k y ys u) h,
  )

  -- The rows under the other keys.
  abbrev pub others : ℕ → List A → List A
  others k = keep (λ x. not (key x == k))

  pub others-update :
      (k : ℕ) (f : A → A) (xs : List A)
      → ((x : A) → key (f x) ≡ key x)
      → others k (update key k f xs) ≡ others k xs
  unfolding update
  others-update k f [] same = refl
  others-update k f (x ∷ xs) same = ground (arith, same x, others-update k f xs same)
