-- ===== src/Prelude/Tables/Queries.antt =====
-- What a query's filter, order and limit keep: distinct keys, and what holds of every row.
use Prim.Native.Nat.{ℕ, zero, suc}
use mathlib.Core.Path.{◌≡◌, refl}
use mathlib.Core.Logic.{inl, inr}
use mathlib.Core.Bool.{Bool}
use mathlib.Core.Option.{Option, none, some}
use mathlib.Core.List.{List, [], ◌∷◌, filter_map}
use native.Mathlib.Omega.{arith}
use magnemite.Prelude.Tests.{Bool-cases, Option-cases}
use magnemite.Prelude.Lists.{All, take}
use magnemite.Prelude.Tables.{find, IsKeyed}
use magnemite.Prelude.Sorting.{insert_sorted, sort}

module _ {ℓ} {A : Type ℓ} where
  pub take-All {κ} : (P : A → Type κ) (n : ℕ) (xs : List A) → All P xs → All P (take n xs)
  take-All P zero xs h = tt
  take-All P (suc n) [] h = tt
  take-All P (suc n) (x ∷ xs) (p, h) = (p, take-All P n xs h)

module _ {ℓ} {A : Type ℓ} (key : A → ℕ) where
  find-take_none : (k n : ℕ) (xs : List A) → find key k xs ≡ none → find key k (take n xs) ≡ none
  unfolding find
  find-take_none k zero xs e = refl
  find-take_none k (suc n) [] e = refl
  find-take_none k (suc n) (x ∷ xs) e = ground (arith, find-take_none k n xs)

  pub take-IsKeyed : (n : ℕ) (xs : List A) → IsKeyed key xs → IsKeyed key (take n xs)
  take-IsKeyed zero xs u = tt
  take-IsKeyed (suc n) [] u = tt
  take-IsKeyed (suc n) (x ∷ xs) (u, us) = (find-take_none (key x) n xs u, take-IsKeyed n xs us)

  module _ (before : A → A → Bool) where
    find-insert_none :
        (k : ℕ) (a : A) (xs : List A)
        → find key k (a ∷ xs) ≡ none
        → find key k (insert_sorted before a xs) ≡ none
    unfolding find insert_sorted
    find-insert_none k a [] e = e
    find-insert_none k a (x ∷ xs) e = ground (arith, find-insert_none k a xs)

    cons_swap :
        (a x : A) (xs : List A)
        → find key (key a) (x ∷ xs) ≡ none
        → find key (key x) xs ≡ none
        → (find key (key x) (a ∷ xs) ≡ none) × (find key (key a) xs ≡ none)
    unfolding find
    cons_swap a x xs e u = (ground arith, ground arith)

    insert-IsKeyed :
        (a : A) (xs : List A) → IsKeyed key (a ∷ xs) → IsKeyed key (insert_sorted before a xs)
    unfolding insert_sorted
    insert-IsKeyed a [] u = u
    insert-IsKeyed a (x ∷ xs) (u, (v, us)) = elim (Bool-cases (before a x)) [
      | inl y ↦ rw y (u, (v, us))
      | inr n ↦
          let (w, z) = cons_swap a x xs u v in
          rw n (find-insert_none (key x) a xs w, insert-IsKeyed a xs (z, us))
    ]

    find-sort_none :
        (k : ℕ) (xs : List A) → find key k xs ≡ none → find key k (sort before xs) ≡ none
    unfolding sort find
    find-sort_none k [] e = refl
    find-sort_none k (x ∷ xs) e =
        find-insert_none k x (sort before xs) (ground (arith, find-sort_none k xs))

    pub sort-IsKeyed : (xs : List A) → IsKeyed key xs → IsKeyed key (sort before xs)
    unfolding sort
    sort-IsKeyed [] u = tt
    sort-IsKeyed (x ∷ xs) (u, us) =
        insert-IsKeyed x (sort before xs) (find-sort_none (key x) xs u, sort-IsKeyed xs us)

-- A join keeps the key of the row that it starts from.
module _ {ℓ κ} {A : Type ℓ} {B : Type κ} (f : A → Option B) where
  pub filter_map-All {μ ν} :
      (P : A → Type μ) (Q : B → Type ν) (xs : List A)
      → ((a : A) (b : B) → P a → f a ≡ some b → Q b)
      → All P xs
      → All Q (filter_map f xs)
  unfolding filter_map
  filter_map-All P Q [] g h = tt
  filter_map-All P Q (x ∷ xs) g (p, h) = elim (Option-cases (f x)) [
    | inl e ↦ rw e (filter_map-All P Q xs g h)
    | inr (b, e) ↦ rw e (g x b p e, filter_map-All P Q xs g h)
  ]

  module _ (key : A → ℕ) (key' : B → ℕ)
      (same : (a : A) (b : B) → f a ≡ some b → key' b ≡ key a) where
    find-filter_map_none :
        (k : ℕ) (xs : List A) → find key k xs ≡ none → find key' k (filter_map f xs) ≡ none
    unfolding find filter_map
    find-filter_map_none k [] e = refl
    find-filter_map_none k (x ∷ xs) e = elim (Option-cases (f x)) [
      | inl n ↦ rw n (find-filter_map_none k xs (ground arith))
      | inr (b, s) ↦ rw s (ground (arith, same x b s, find-filter_map_none k xs))
    ]

    pub filter_map-IsKeyed : (xs : List A) → IsKeyed key xs → IsKeyed key' (filter_map f xs)
    unfolding filter_map
    filter_map-IsKeyed [] u = tt
    filter_map-IsKeyed (x ∷ xs) (u, us) = elim (Option-cases (f x)) [
      | inl n ↦ rw n (filter_map-IsKeyed xs us)
      | inr (b, s) ↦
          rw s (rw (same x b s) (find-filter_map_none (key x) xs u), filter_map-IsKeyed xs us)
    ]
