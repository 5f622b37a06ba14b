-- ===== src/Apk/Slices.antt =====
-- Parts of a list of bytes, as a reader of packages/apk/src/index.ts takes them.
use native.Mathlib.Omega.{arith}
use magnemite.Prelude.{
  ℕ, zero, suc, ◌+◌, ◌-◌, ◌≤◌, ◌≡◌, refl, ap, [], ◌∷◌, ◌++◌, length, take, drop,
}
use magnemite.Zip.{Bytes}

pub drop-append : (n i : ℕ) (xs ys : Bytes) → n ≡ length xs + i → drop n (xs ++ ys) ≡ drop i ys
drop-append n i [] ys e = let e' : n ≡ i = omega arith in rw e' refl
drop-append zero i (x ∷ xs) ys e = absurd (omega arith)
drop-append (suc n) i (x ∷ xs) ys e = drop-append n i xs ys (omega arith)

-- Less than the first part is dropped.
pub drop-append_short :
    (n : ℕ) (xs ys : Bytes) → n ≤ length xs → drop n (xs ++ ys) ≡ drop n xs ++ ys
drop-append_short zero xs ys le = refl
drop-append_short (suc n) [] ys le = absurd (omega arith)
drop-append_short (suc n) (x ∷ xs) ys le = drop-append_short n xs ys (omega arith)

pub drop-drop : (a b c : ℕ) (xs : Bytes) → c ≡ b + a → drop a (drop b xs) ≡ drop c xs
drop-drop a zero c xs e = let e' : c ≡ a = omega arith in rw e' refl
drop-drop zero (suc b) zero xs e = absurd (omega arith)
drop-drop (suc a) (suc b) zero xs e = absurd (omega arith)
drop-drop zero (suc b) (suc c) [] e = refl
drop-drop (suc a) (suc b) (suc c) [] e = refl
drop-drop a (suc b) (suc c) (x ∷ xs) e = drop-drop a b c xs (omega arith)

pub take-append : (n : ℕ) (xs ys : Bytes) → n ≡ length xs → take n (xs ++ ys) ≡ xs
take-append zero [] ys e = refl
take-append (suc n) [] ys e = absurd (omega arith)
take-append zero (x ∷ xs) ys e = absurd (omega arith)
take-append (suc n) (x ∷ xs) ys e = ap (λ r. x ∷ r) (take-append n xs ys (omega arith))

pub take_all : (n : ℕ) (xs : Bytes) → length xs ≤ n → take n xs ≡ xs
take_all zero [] le = refl
take_all (suc n) [] le = refl
take_all zero (x ∷ xs) le = absurd (omega arith)
take_all (suc n) (x ∷ xs) le = ap (λ r. x ∷ r) (take_all n xs (omega arith))

pub length-drop : (n : ℕ) (xs : Bytes) → length (drop n xs) ≡ length xs - n
length-drop zero xs = omega arith
length-drop (suc n) [] = omega arith
length-drop (suc n) (x ∷ xs) = omega (arith, length-drop n xs)
