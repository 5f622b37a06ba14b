-- ===== src/Prelude/Tables/Inserting.antt =====
-- Rows appended to a table under new keys.
use Prim.Native.Nat.{ℕ, ◌≤◌, ◌<◌}
use mathlib.Core.Path.{◌≡◌, refl, ◌∙◌}
use mathlib.Core.Option.{none, some}
use mathlib.Core.List.{List, [], ◌∷◌, ◌++◌}
use native.Mathlib.Omega.{arith}
use magnemite.Prelude.Lists.{All}
use magnemite.Prelude.Tables.{find, IsKeyed}

module _ {ℓ} {A : Type ℓ} where
  pub append-All {κ} : (P : A → Type κ) (xs ys : List A) → All P xs → All P ys → All P (xs ++ ys)
  append-All P [] ys h k = k
  append-All P (x ∷ xs) ys (p, h) k = (p, append-All P xs ys h k)

module _ {ℓ} {A : Type ℓ} (key : A → ℕ) where
  pub find-append_some :
      (k : ℕ) (xs ys : List A) {x : A} → find key k xs ≡ some x → find key k (xs ++ ys) ≡ some x
  unfolding find
  find-append_some k [] ys e = absurd (cc)
  find-append_some k (y ∷ xs) ys {x} e = ground (arith, find-append_some k xs ys {x = x})

  pub find-append_none :
      (k : ℕ) (xs ys : List A) → find key k xs ≡ none → find key k (xs ++ ys) ≡ find key k ys
  unfolding find
  find-append_none k [] ys e = refl
  find-append_none k (y ∷ xs) ys e = ground (arith, find-append_none k xs ys)

  -- All keys in use lie below the next.
  pub find_fresh : (k n : ℕ) (xs : List A) → All (λ x. key x < n) xs → n ≤ k → find key k xs ≡ none
  unfolding find
  find_fresh k n [] h le = refl
  find_fresh k n (x ∷ xs) (p, h) le = ground (arith, find_fresh k n xs h le)

  pub find_above : (k n : ℕ) (zs : List A) → k < n → All (λ y. n ≤ key y) zs → find key k zs ≡ none
  unfolding find
  find_above k n [] lt h = refl
  find_above k n (z ∷ zs) lt (q, h) = ground (arith, find_above k n zs lt h)

  pub append-IsKeyed :
      (n : ℕ) (xs ys : List A)
      → All (λ x. key x < n) xs
      → All (λ y. n ≤ key y) ys
      → IsKeyed key xs
      → IsKeyed key ys
      → IsKeyed key (xs ++ ys)
  append-IsKeyed n [] ys b a u v = v
  append-IsKeyed n (x ∷ xs) ys (p, b) a (u, us) v = (
    find-append_none (key x) xs ys u ∙ find_above (key x) n ys p a,
    append-IsKeyed n xs ys b a us v,
  )
