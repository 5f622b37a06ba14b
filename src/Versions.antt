-- ===== src/Versions.antt =====
-- compareVersions of apps/hub/src/services/sources/types.ts, and the decision of
-- apps/hub/src/services/autoUpdate.ts that rests on it. The parts of a version are whole numbers of
-- any size.
pub mod Order
use magnemite.Prelude.{
  ℕ, zero, suc, ◌+◌, ◌-◌, ◌==◌, leb, ltb, if◌then◌else◌, Bool, true, false, ◌&&◌, Option, none,
  some, String, List, [], ◌∷◌, map, chars, is_space, number, split_on,
}
use Prim.Native.Char.{Char, code}

pub data ℤ : Type 0 where
  pos : ℕ → ℤ
  negsuc : ℕ → ℤ

abbrev pub minus : ℤ → ℤ → ℤ
minus (pos m) (pos n) = if leb n m then pos (m - n) else negsuc (n - m - 1)
minus (pos m) (negsuc n) = pos (m + n + 1)
minus (negsuc m) (pos n) = negsuc (m + n)
minus (negsuc m) (negsuc n) = if leb m n then pos (n - m) else negsuc (m - n - 1)

abbrev pub is_zero : ℤ → Bool
is_zero (pos n) = n == 0
is_zero (negsuc n) = false

abbrev pub is_positive : ℤ → Bool
is_positive (pos n) = ltb 0 n
is_positive (negsuc n) = false

unfoldable pub skip_spaces : List Char → List Char
skip_spaces [] = []
skip_spaces (c ∷ cs) = let rest = skip_spaces cs in if is_space (code c) then rest else c ∷ cs

unfoldable pub leading_digits : List Char → List Char
leading_digits [] = []
leading_digits (c ∷ cs) =
    let rest = leading_digits cs in if leb b'0' (code c) && leb (code c) b'9' then c ∷ rest else []

abbrev signed : Bool → Option ℕ → Option ℤ
signed b none = none
signed false (some n) = some (pos n)
signed true (some zero) = some (pos 0)
signed true (some (suc n)) = some (negsuc n)

abbrev digits : List Char → Option ℕ
digits cs = elim (leading_digits cs) [ [] ↦ none | d ∷ ds ↦ number (d ∷ ds) ]

-- `Number.parseInt(p, 10)`; `none` stands for NaN.
unfoldable pub parse_int : List Char → Option ℤ
unfolding skip_spaces leading_digits
parse_int p = elim (skip_spaces p) [
  | [] ↦ none
  | c ∷ cs ↦
      if code c == b'-'
      then signed true (digits cs)
      else (if code c == b'+' then signed false (digits cs) else signed false (digits (c ∷ cs)))
]

abbrev pub part : Option ℤ → ℤ
part none = negsuc 0
part (some z) = z

unfoldable pub parse : String → List ℤ
unfolding parse_int
parse v = map (λ p. part (parse_int p)) (split_on b'.' [] (chars v))

abbrev pub first_of : ℤ → ℤ → ℤ
first_of d rest = if is_zero d then rest else d

-- The loop over the parts, a part that is not there being -1.
unfoldable pub compare_parts : List ℤ → List ℤ → ℤ
compare_parts [] [] = pos 0
compare_parts (x ∷ xs) [] = first_of (minus x (negsuc 0)) (compare_parts xs [])
compare_parts [] (y ∷ ys) = first_of (minus (negsuc 0) y) (compare_parts [] ys)
compare_parts (x ∷ xs) (y ∷ ys) = first_of (minus x y) (compare_parts xs ys)

unfoldable pub compare_versions : String → String → ℤ
unfolding parse compare_parts
compare_versions a b = compare_parts (parse a) (parse b)
