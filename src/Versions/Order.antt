-- ===== src/Versions/Order.antt =====
-- compareVersions is a total preorder: whichever of two versions is asked about first, and through
-- any third.
use magnemite.Prelude.{
  ◌≡◌, refl, ◌⊎◌, inl, inr, Bool-cases, Bool, true, false, ◌&&◌, String, List, [], ◌∷◌, arith,
}
use magnemite.Versions.{
  ℤ, pos, negsuc, minus, is_zero, is_positive, first_of, compare_parts, compare_versions, parse,
}

abbrev pub is_negative : ℤ → Bool
is_negative (pos n) = false
is_negative (negsuc n) = true

minus_zero : (x y : ℤ) → is_zero (minus y x) ≡ is_zero (minus x y)
minus_zero (pos m) (pos n) = ground arith
minus_zero (pos m) (negsuc n) = ground arith
minus_zero (negsuc m) (pos n) = ground arith
minus_zero (negsuc m) (negsuc n) = ground arith

minus_sign : (x y : ℤ) → is_positive (minus y x) ≡ is_negative (minus x y)
minus_sign (pos m) (pos n) = ground arith
minus_sign (pos m) (negsuc n) = ground arith
minus_sign (negsuc m) (pos n) = ground arith
minus_sign (negsuc m) (negsuc n) = ground arith

first_sign :
    (d e r s : ℤ)
    → is_zero e ≡ is_zero d
    → is_positive e ≡ is_negative d
    → is_positive s ≡ is_negative r
    → is_positive (first_of e s) ≡ is_negative (first_of d r)
first_sign d e r s z p q = elim (Bool-cases (is_zero d)) [
  | inl y ↦ rw (z, y) q
  | inr n ↦ rw (z, n) p
]

parts_sign :
    (xs ys : List ℤ) → is_positive (compare_parts ys xs) ≡ is_negative (compare_parts xs ys)
unfolding compare_parts
parts_sign [] [] = ground arith
parts_sign (x ∷ xs) [] =
    first_sign (minus x (negsuc 0)) (minus (negsuc 0) x) (compare_parts xs []) (compare_parts [] xs)
      (minus_zero x (negsuc 0)) (minus_sign x (negsuc 0)) (parts_sign xs [])
parts_sign [] (y ∷ ys) =
    first_sign (minus (negsuc 0) y) (minus y (negsuc 0)) (compare_parts [] ys) (compare_parts ys [])
      (minus_zero (negsuc 0) y) (minus_sign (negsuc 0) y) (parts_sign [] ys)
parts_sign (x ∷ xs) (y ∷ ys) =
    first_sign (minus x y) (minus y x) (compare_parts xs ys) (compare_parts ys xs) (minus_zero x y)
      (minus_sign x y) (parts_sign xs ys)

-- One version is newer than another exactly if the comparison the other way round is negative.
pub compare_versions_opposite :
    (a b : String) → is_positive (compare_versions b a) ≡ is_negative (compare_versions a b)
unfolding compare_versions
compare_versions_opposite a b = parts_sign (parse a) (parse b)

minus_trans :
    (x y z : ℤ)
    → is_positive (minus x y) ≡ false
    → is_positive (minus y z) ≡ false
    → (is_positive (minus x z) ≡ false)
      × (is_zero (minus x z) ≡ (is_zero (minus x y) && is_zero (minus y z)))
minus_trans (pos x) (pos y) (pos z) p q = (ground arith, ground arith)
minus_trans (pos x) (pos y) (negsuc z) p q = (ground arith, ground arith)
minus_trans (pos x) (negsuc y) (pos z) p q = (ground arith, ground arith)
minus_trans (pos x) (negsuc y) (negsuc z) p q = (ground arith, ground arith)
minus_trans (negsuc x) (pos y) (pos z) p q = (ground arith, ground arith)
minus_trans (negsuc x) (pos y) (negsuc z) p q = (ground arith, ground arith)
minus_trans (negsuc x) (negsuc y) (pos z) p q = (ground arith, ground arith)
minus_trans (negsuc x) (negsuc y) (negsuc z) p q = (ground arith, ground arith)

-- What the first parts decide, and what they leave to the rest.
first_parts :
    (d r : ℤ)
    → is_positive (first_of d r) ≡ false
    → (is_positive d ≡ false) × ((is_zero d ≡ false) ⊎ (is_positive r ≡ false))
first_parts (pos d) r h = (ground arith, ground arith)
first_parts (negsuc d) r h = (refl, inl refl)

first_trans :
    (x y z r s t : ℤ)
    → (is_positive r ≡ false → is_positive s ≡ false → is_positive t ≡ false)
    → is_positive (first_of (minus x y) r) ≡ false
    → is_positive (first_of (minus y z) s) ≡ false
    → is_positive (first_of (minus x z) t) ≡ false
first_trans x y z r s t rest p q =
    let (dp, dr) = first_parts (minus x y) r p in
    let (ep, er) = first_parts (minus y z) s q in
    let (fp, fz) = minus_trans x y z dp ep in
    decided (is_zero (minus x y)) (is_zero (minus y z)) (minus x z) fp fz dr er
  where
    decided :
        (b c : Bool) (f : ℤ)
        → is_positive f ≡ false
        → is_zero f ≡ (b && c)
        → (b ≡ false) ⊎ (is_positive r ≡ false)
        → (c ≡ false) ⊎ (is_positive s ≡ false)
        → is_positive (first_of f t) ≡ false
    decided b c f fp fz (inl n) _ = let z : is_zero f ≡ false = ground (arith, fz) in rw z fp
    decided b c f fp fz (inr _) (inl n) = let z : is_zero f ≡ false = ground (arith, fz) in rw z fp
    decided b c f fp fz (inr p) (inr q) = elim (Bool-cases (is_zero f)) [
      | inl z ↦ rw z (rest p q)
      | inr z ↦ rw z fp
    ]

parts_trans :
    (xs ys zs : List ℤ)
    → is_positive (compare_parts xs ys) ≡ false
    → is_positive (compare_parts ys zs) ≡ false
    → is_positive (compare_parts xs zs) ≡ false
unfolding compare_parts
parts_trans [] [] [] p q = p
parts_trans [] [] (z ∷ zs) p q = q
parts_trans (x ∷ xs) [] [] p q = p
parts_trans [] (y ∷ ys) [] p q = refl
parts_trans (x ∷ xs) [] (z ∷ zs) p q =
    first_trans x (negsuc 0) z (compare_parts xs []) (compare_parts [] zs) (compare_parts xs zs)
      (parts_trans xs [] zs) p q
parts_trans (x ∷ xs) (y ∷ ys) [] p q =
    first_trans x y (negsuc 0) (compare_parts xs ys) (compare_parts ys []) (compare_parts xs [])
      (parts_trans xs ys []) p q
parts_trans [] (y ∷ ys) (z ∷ zs) p q =
    first_trans (negsuc 0) y z (compare_parts [] ys) (compare_parts ys zs) (compare_parts [] zs)
      (parts_trans [] ys zs) p q
parts_trans (x ∷ xs) (y ∷ ys) (z ∷ zs) p q =
    first_trans x y z (compare_parts xs ys) (compare_parts ys zs) (compare_parts xs zs)
      (parts_trans xs ys zs) p q

-- A version that is no newer than a second, which is no newer than a third, is no newer than the
-- third, missing and unreadable parts included.
pub compare_versions_trans :
    (a b c : String)
    → is_positive (compare_versions a b) ≡ false
    → is_positive (compare_versions b c) ≡ false
    → is_positive (compare_versions a c) ≡ false
unfolding compare_versions
compare_versions_trans a b c = parts_trans (parse a) (parse b) (parse c)
