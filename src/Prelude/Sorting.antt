-- ===== src/Prelude/Sorting.antt =====
-- `[...xs].sort(...)` and `orderBy`: a stable sort by insertion, `before a b` telling that `a` may
-- stand in front of `b`.
use mathlib.Core.Path.{◌≡◌, refl}
use mathlib.Core.Bool.{Bool, true, false}
use mathlib.Core.List.{List, [], ◌∷◌, Perm}
use mathlib.Core.List.Perm
use magnemite.Prelude.Tests.{if◌then◌else◌, Bool-cases}
use magnemite.Prelude.Lists.{All, take}
use Prim.Native.Nat.{ℕ, zero, suc}
use mathlib.Core.Logic.{inl, inr}

module _ {ℓ} {A : Type ℓ} (before : A → A → Bool) where
  unfoldable pub insert_sorted : A → List A → List A
  insert_sorted a [] = a ∷ []
  insert_sorted a (x ∷ xs) =
      let later = x ∷ insert_sorted a xs in if before a x then a ∷ x ∷ xs else later

  unfoldable pub sort : List A → List A
  unfolding insert_sorted
  sort [] = []
  sort (x ∷ xs) = insert_sorted x (sort xs)

  insert_sorted-perm : (a : A) (xs : List A) → Perm (insert_sorted a xs) (a ∷ xs)
  unfolding insert_sorted
  insert_sorted-perm a [] = Perm.refl _
  insert_sorted-perm a (x ∷ xs) = elim (Bool-cases (before a x)) [
    | inl y ↦ rw y (Perm.refl _)
    | inr n ↦ rw n (Perm.trans (Perm.cons x (insert_sorted-perm a xs)) (Perm.swap a x xs))
  ]

  pub sort-perm : (xs : List A) → Perm (sort xs) xs
  unfolding sort
  sort-perm [] = Perm.refl _
  sort-perm (x ∷ xs) = Perm.trans (insert_sorted-perm x (sort xs)) (Perm.cons x (sort-perm xs))

  insert_sorted-All {κ} :
      (P : A → Type κ) (a : A) (xs : List A) → P a → All P xs → All P (insert_sorted a xs)
  unfolding insert_sorted
  insert_sorted-All P a [] p h = (p, tt)
  insert_sorted-All P a (x ∷ xs) p (q, h) = elim (Bool-cases (before a x)) [
    | inl y ↦ rw y (p, (q, h))
    | inr n ↦ rw n (q, insert_sorted-All P a xs p h)
  ]

  pub sort-All {κ} : (P : A → Type κ) (xs : List A) → All P xs → All P (sort xs)
  unfolding sort
  sort-All P [] h = tt
  sort-All P (x ∷ xs) (p, h) = insert_sorted-All P x (sort xs) p (sort-All P xs h)

  -- Each row may stand in front of the next.
  abbrev pub IsSorted : List A → Type 0
  IsSorted [] = Unit
  IsSorted (x ∷ []) = Unit
  IsSorted (x ∷ y ∷ ys) = (before x y ≡ true) × IsSorted (y ∷ ys)

  module _ (total : (a b : A) → before a b ≡ false → before b a ≡ true) where
    insert_sorted-IsSorted : (a : A) (xs : List A) → IsSorted xs → IsSorted (insert_sorted a xs)
    unfolding insert_sorted
    insert_sorted-IsSorted a [] s = tt
    insert_sorted-IsSorted a (x ∷ []) s = elim (Bool-cases (before a x)) [
      | inl y ↦ rw y (y, tt)
      | inr n ↦ rw n (total a x n, tt)
    ]
    insert_sorted-IsSorted a (x ∷ z ∷ zs) (b, s) = elim (Bool-cases (before a x)) [
      | inl y ↦ rw y (y, (b, s))
      | inr n ↦ rw n (behind n (insert_sorted-IsSorted a (z ∷ zs) s) (before a z) refl)
    ]
      where
        behind :
            before a x ≡ false
            → IsSorted (insert_sorted a (z ∷ zs))
            → (c : Bool) → before a z ≡ c
            → IsSorted (x ∷ insert_sorted a (z ∷ zs))
        behind n rest true e = rw e (total a x n, (e, s))
        behind n rest false e = rw e (b, rw e at rest)

    pub sort-IsSorted : (xs : List A) → IsSorted (sort xs)
    unfolding sort
    sort-IsSorted [] = tt
    sort-IsSorted (x ∷ xs) = insert_sorted-IsSorted x (sort xs) (sort-IsSorted xs)

  pub take-IsSorted : (n : ℕ) (xs : List A) → IsSorted xs → IsSorted (take n xs)
  take-IsSorted zero xs s = tt
  take-IsSorted (suc n) [] s = tt
  take-IsSorted (suc zero) (x ∷ xs) s = tt
  take-IsSorted (suc (suc n)) (x ∷ []) s = tt
  take-IsSorted (suc (suc n)) (x ∷ y ∷ ys) (b, s) = (b, take-IsSorted (suc n) (y ∷ ys) s)

  insert_sorted-All_of {κ} :
      (P : A → Type κ) (a : A) (xs : List A) → All P (insert_sorted a xs) → P a × All P xs
  unfolding insert_sorted
  insert_sorted-All_of P a [] h = h
  insert_sorted-All_of P a (x ∷ xs) h = elim (Bool-cases (before a x)) [
    | inl y ↦ rw y at h
    | inr n ↦
        let (q, rest) = rw n at h in let (p, hs) = insert_sorted-All_of P a xs rest in (p, (q, hs))
  ]

  pub sort-All_of {κ} : (P : A → Type κ) (xs : List A) → All P (sort xs) → All P xs
  unfolding sort
  sort-All_of P [] h = tt
  sort-All_of P (x ∷ xs) h =
      let (p, hs) = insert_sorted-All_of P x (sort xs) h in (p, sort-All_of P xs hs)

  module _ (trans : (a b c : A) → before a b ≡ true → before b c ≡ true → before a c ≡ true) where
    -- The first of sorted rows may stand before every other.
    pub first-All : (x : A) (xs : List A) → IsSorted (x ∷ xs) → All (λ y. before x y ≡ true) xs
    first-All x [] s = tt
    first-All x (y ∷ ys) (e, s) = (e, later ys (first-All y ys s))
      where
        later : (zs : List A) → All (λ z. before y z ≡ true) zs → All (λ z. before x z ≡ true) zs
        later [] h = tt
        later (z ∷ zs) (p, h) = (trans x y z e p, later zs h)
