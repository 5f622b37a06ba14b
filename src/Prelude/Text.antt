-- ===== src/Prelude/Text.antt =====
-- What the program uses of JavaScript's strings, over the characters of a text.
use Prim.Native.Nat.{ℕ, ◌+◌, ◌*◌, ◌-◌}
use Prim.Native.Char.{Char, code}
use Prim.Native.String.{String}
use mathlib.Core.Bool.{Bool, ◌&&◌, ◌||◌}
use mathlib.Core.Option.{Option, none, some}
use mathlib.Core.List.{List, [], ◌∷◌, ◌++◌, reverse}
use magnemite.Prelude.Tests.{◌==◌, leb, if◌then◌else◌}

abbrev pub chars : String → List Char
chars String.[] = []
chars (String.◌∷◌ c s) = c ∷ chars s

abbrev pub of_chars : List Char → String
of_chars [] = String.[]
of_chars (c ∷ cs) = String.◌∷◌ c (of_chars cs)

-- The white space and line ends that `trim` takes off.
unfoldable pub is_space : ℕ → Bool
is_space n =
    leb 9 n && leb n 13
    || n == 32
    || n == 0xa0
    || n == 0x1680
    || leb 0x2000 n && leb n 0x200a
    || n == 0x2028
    || n == 0x2029
    || n == 0x202f
    || n == 0x205f
    || n == 0x3000
    || n == 0xfeff

trim_start : List Char → List Char
unfolding is_space
trim_start [] = []
trim_start (c ∷ cs) = let rest = trim_start cs in if is_space (code c) then rest else c ∷ cs

unfoldable pub trim : String → String
unfolding trim_start
trim s = of_chars (reverse (trim_start (reverse (trim_start (chars s)))))

digits_from : ℕ → List Char → Option ℕ
digits_from acc [] = some acc
digits_from acc (c ∷ cs) =
    let rest = digits_from (acc * 10 + (code c - b'0')) cs in
    if leb b'0' (code c) && leb (code c) b'9' then rest else none

-- `Number(s)` of decimal digits; `none` stands for NaN. (The texts that it is called on are checked
-- to be digits when they are saved.)
unfoldable pub number : List Char → Option ℕ
unfolding digits_from
number cs = digits_from 0 cs

-- `split` at a character, over what has been read of the first piece.
unfoldable pub split_on : ℕ → List Char → List Char → List (List Char)
split_on sep cur [] = cur ∷ []
split_on sep cur (c ∷ cs) =
    let closed = cur ∷ split_on sep [] cs in
    let longer = split_on sep (cur ++ c ∷ []) cs in if code c == sep then closed else longer
