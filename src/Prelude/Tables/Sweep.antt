-- ===== src/Prelude/Tables/Sweep.antt =====
-- A loop that reads some rows of a table and then writes to each of them by its key does the work of
-- one pass over the table.
use Prim.Native.Nat.{ℕ}
use mathlib.Core.Path.{◌≡◌, refl, ap, ◌∙◌}
use mathlib.Core.Logic.{inl, inr}
use mathlib.Core.Bool.{Bool, false}
use mathlib.Core.Option.{none}
use mathlib.Core.List.{List, [], ◌∷◌, map}
use native.Mathlib.Omega.{arith}
use magnemite.Prelude.Tests.{◌==◌, if◌then◌else◌, Bool-cases, ==_refl}
use magnemite.Prelude.Lists.{keep}
use magnemite.Prelude.Tables.{find, update, IsKeyed, update_of_find-none}

module _ {ℓ} {A : Type ℓ} (key : A → ℕ) (f : A → A → A) where
  -- `for (const x of xs) await update({ where: { id: x.id }, data })`, the data read off `x`.
  unfoldable pub update_each : List A → List A → List A
  update_each [] rows = rows
  update_each (x ∷ xs) rows = update_each xs (update key (key x) (f x) rows)

  abbrev pub sweep : (A → Bool) → List A → List A
  sweep p xs = map (λ x. if p x then f x x else x) xs

  module _ (same : (a b : A) → key (f a b) ≡ key b) where
    find-keep_none :
        (p : A → Bool) (k : ℕ) (xs : List A) → find key k xs ≡ none → find key k (keep p xs) ≡ none
    unfolding find
    find-keep_none p k [] e = refl
    find-keep_none p k (x ∷ xs) e = ground (arith, find-keep_none p k xs)

    update_each-cons :
        (y : A) (xs rows : List A)
        → find key (key y) xs ≡ none
        → update_each xs (y ∷ rows) ≡ y ∷ update_each xs rows
    unfolding update_each update find
    update_each-cons y [] rows e = refl
    update_each-cons y (x ∷ xs) rows e =
        let miss : (key y == key x) ≡ false = ground arith in
        let rest : find key (key y) xs ≡ none = ground arith in
        rw miss (update_each-cons y xs (update key (key x) (f x) rows) rest)

    update_head :
        (x : A) (xs : List A)
        → find key (key x) xs ≡ none
        → update key (key x) (f x) (x ∷ xs) ≡ f x x ∷ xs
    unfolding update
    update_head x xs u = rw (==_refl (key x), update_of_find-none key (key x) (f x) xs u) refl

    pub update_each-keep :
        (p : A → Bool) (xs : List A) → IsKeyed key xs → update_each (keep p xs) xs ≡ sweep p xs
    unfolding update_each update
    update_each-keep p [] u = refl
    update_each-keep p (x ∷ xs) (u, us) = elim (Bool-cases (p x)) [
      | inl y ↦ rw y (
          ap (update_each (keep p xs)) (update_head x xs u)
          ∙ update_each-cons (f x x) (keep p xs) xs (rw same (find-keep_none p (key x) xs u))
          ∙ ap (λ rest. f x x ∷ rest) (update_each-keep p xs us))
      | inr n ↦ rw n (
          update_each-cons x (keep p xs) xs (find-keep_none p (key x) xs u)
          ∙ ap (λ rest. x ∷ rest) (update_each-keep p xs us))
    ]
