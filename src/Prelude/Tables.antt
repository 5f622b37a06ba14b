-- ===== src/Prelude/Tables.antt =====
-- A table of the database: a list of rows, with a key that the rows carry.
pub mod Snapshot
pub mod Queries
pub mod Counting
pub mod Inserting
pub mod Sweep
use Prim.Native.Nat.{ℕ}
use mathlib.Core.Path.{◌≡◌, refl, ap, subst, sym}
use mathlib.Core.Logic.{◌≢◌, inl, inr}
use mathlib.Core.Bool.{Bool}
use mathlib.Core.Option.{Option, none, some}
use mathlib.Core.Option
use mathlib.Core.List.{List, [], ◌∷◌}
use native.Mathlib.Omega.{arith}
use magnemite.Prelude.Tests.{◌==◌, if◌then◌else◌, Bool-cases, ==_iff, eq_of_some}
use magnemite.Prelude.Lists.{All, keep}

module _ {ℓ} {A : Type ℓ} (key : A → ℕ) where
  -- `findUnique({ where: { id } })`.
  unfoldable pub find : ℕ → List A → Option A
  find k [] = none
  find k (x ∷ xs) = if key x == k then some x else find k xs

  -- `update({ where: { id }, data })`, the change of the columns as a function of the row.
  unfoldable pub update : ℕ → (A → A) → List A → List A
  update k f [] = []
  update k f (x ∷ xs) = (if key x == k then f x else x) ∷ update k f xs

  pub key-find : (k : ℕ) (xs : List A) {x : A} → find k xs ≡ some x → key x ≡ k
  unfolding find
  key-find k [] e = absurd (cc)
  key-find k (y ∷ ys) {x} e = elim (Bool-cases (key y == k)) [
    | inl hit ↦ subst (λ z. key z ≡ k) (eq_of_some (rw hit at e)) ((==_iff _ _).0 hit)
    | inr miss ↦ key-find k ys (rw miss at e)
  ]

  pub find-All {κ} :
      (P : A → Type κ) (k : ℕ) (xs : List A) {x : A} → All P xs → find k xs ≡ some x → P x
  unfolding find
  find-All P k [] h e = absurd (cc)
  find-All P k (y ∷ ys) (p, h) e = elim (Bool-cases (key y == k)) [
    | inl hit ↦ subst P (eq_of_some (rw hit at e)) p
    | inr miss ↦ find-All P k ys h (rw miss at e)
  ]

  -- A primary key: no two rows have the same.
  abbrev pub IsKeyed : List A → Type ℓ
  IsKeyed [] = Unit
  IsKeyed (x ∷ xs) = (find (key x) xs ≡ none) × IsKeyed xs

  pub update_of_find-none :
      (k : ℕ) (f : A → A) (xs : List A) → find k xs ≡ none → update k f xs ≡ xs
  unfolding find update
  update_of_find-none k f [] e = refl
  update_of_find-none k f (x ∷ xs) e = ground (arith, update_of_find-none k f xs)

  -- A change of the row under a key keeps what holds of all rows, if it holds of the new row.
  pub update-All {κ} :
      (P : A → Type κ) (k : ℕ) (f : A → A) (xs : List A) {x : A}
      → IsKeyed xs
      → find k xs ≡ some x
      → P (f x)
      → All P xs
      → All P (update k f xs)
  unfolding find update
  update-All P k f [] u e p h = tt
  update-All P k f (y ∷ ys) {x} (u, us) e p (q, h) = elim (Bool-cases (key y == k)) [
    | inl hit ↦
        let same : y ≡ x = eq_of_some (rw hit at e) in
        let last : find k ys ≡ none = subst (λ z. find z ys ≡ none) ((==_iff _ _).0 hit) u in
        rw hit (subst (λ z. P (f z)) (sym same) p, rw (update_of_find-none k f ys last) h)
    | inr miss ↦ rw miss (q, update-All P k f ys us (rw miss at e) p h)
  ]

  module _ (k : ℕ) (f : A → A) (same : (x : A) → key (f x) ≡ key x) where
    pub find-update_self :
        (xs : List A) {x : A} → find k xs ≡ some x → find k (update k f xs) ≡ some (f x)
    unfolding find update
    find-update_self [] e = absurd (cc)
    find-update_self (y ∷ ys) {x} e = elim (Bool-cases (key y == k)) [
      | inl hit ↦ rw hit (rw (same y, hit) (ap some (ap f (eq_of_some (rw hit at e)))))
      | inr miss ↦ rw miss (rw miss (find-update_self ys (rw miss at e)))
    ]

    pub find-update_ne : (j : ℕ) (xs : List A) → j ≢ k → find j (update k f xs) ≡ find j xs
    unfolding find update
    find-update_ne j [] n = refl
    find-update_ne j (y ∷ ys) n = ground (arith, same y, find-update_ne j ys n)

    pub find-update_none : (j : ℕ) (xs : List A) → find j xs ≡ none → find j (update k f xs) ≡ none
    unfolding find update
    find-update_none j [] e = refl
    find-update_none j (y ∷ ys) e = ground (arith, same y, find-update_none j ys)

    -- What every change keeps of a row can be read off the table before or after it.
    pub map-find-update {κ} :
        {B : Type κ} (read : A → B)
        → ((x : A) → read (f x) ≡ read x)
        → (j : ℕ) (xs : List A)
        → Option.map read (find j (update k f xs)) ≡ Option.map read (find j xs)
    unfolding find update
    map-find-update read kept j [] = refl
    map-find-update read kept j (y ∷ ys) =
        ground (arith, same y, kept y, map-find-update read kept j ys)

    pub keep-update :
        (p : A → Bool)
        → ((x : A) → p (f x) ≡ p x)
        → (xs : List A) → keep p (update k f xs) ≡ update k f (keep p xs)
    unfolding update
    keep-update p kept [] = refl
    keep-update p kept (x ∷ xs) = ground (arith, kept x, keep-update p kept xs)

    pub update-IsKeyed : (xs : List A) → IsKeyed xs → IsKeyed (update k f xs)
    unfolding update
    update-IsKeyed [] u = tt
    update-IsKeyed (x ∷ xs) (u, us) = (
      elim (Bool-cases (key x == k)) [
        | inl hit ↦ rw (hit, same x) (find-update_none (key x) xs u)
        | inr miss ↦ rw miss (find-update_none (key x) xs u)
      ],
      update-IsKeyed xs us,
    )
