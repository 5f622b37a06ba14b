-- ===== src/Rename/Pattern.antt =====
-- The pattern language of rename-pattern.ts: its tokens, what is wrong with a pattern, and the name
-- that it makes for one box.
use magnemite.Prelude.{
  ℕ, zero, suc, ◌-◌, ◌/◌, ◌%◌, ◌==◌, leb, ltb, if◌then◌else◌, Bool, true, false, ◌&&◌, ◌||◌, Option,
  none, some, or_maybe, String, str_eq, trim, chars, of_chars, number, split_on, List, [], ◌∷◌,
  ◌++◌, any, length, drop,
}
use Prim.Native.Char.{Char, code}
use mathlib.Core.List.{reverse}
use magnemite.Versions.{ℤ}

pub record RenameTarget : Type 0 where
  pub id : ℕ
  pub name : String
  pub serial : String
  pub model : Option String
  pub manufacturer : Option String
  pub group_name : Option String
  pub created_at : String
  pub config_goes_stale : Bool

pub data RenameToken : Type 0 where
  n serial group model manufacturer name : RenameToken

pub data PatternError : Type 0 where
  no_pattern : PatternError
  unknown_token : (raw : List Char) → PatternError
  takes_no_number : RenameToken → PatternError
  needs_number : (raw : List Char) → PatternError
  unmatched_brace : PatternError

pub data SkipReason : Type 0 where
  is_empty : RenameToken → SkipReason
  renders_empty control_character too_long no_name_came_back : SkipReason
  given : String → SkipReason

pub data Rendered : Type 0 where
  named : String → Rendered
  unnamed : SkipReason → Rendered

abbrev pub max_name : ℕ
max_name = 64

-- A pattern cut at its tokens.
pub data Piece : Type 0 where
  literal : Char → Piece
  token : (raw : List Char) → Piece

abbrev literals : List Char → List Piece → List Piece
literals [] ps = ps
literals (c ∷ cs) ps = literal c ∷ literals cs ps

-- The matches of TOKEN and what is between them. `pending` is what was read since an open brace,
-- the last character first.
unfoldable pub pieces : (pending : Option (List Char)) → List Char → List Piece
pieces none [] = []
pieces (some cs) [] = literals ("{" ∷ reverse cs) []
pieces none (c ∷ rest) =
    let opened = pieces (some []) rest in
    let plain = pieces none rest in if code c == b'{' then opened else literal c ∷ plain
pieces (some cs) (c ∷ rest) =
    let closed = pieces none rest in
    let again = pieces (some []) rest in
    let longer = pieces (some (c ∷ cs)) rest in
    if code c == b'}'
    then token (reverse cs) ∷ closed
    else (if code c == b'{' then literals ("{" ∷ reverse cs) again else longer)

abbrev pub trimmed : List Char → List Char
trimmed cs = chars (trim (of_chars cs))

-- `RENAME_TOKENS.includes(name)`.
unfoldable pub token_named : String → Option RenameToken
token_named s =
    if str_eq s "n"
    then some n
    else (if str_eq s "serial"
        then some serial
        else (if str_eq s "group"
            then some group
            else (if str_eq s "model"
                then some model
                else (if str_eq s "manufacturer"
                    then some manufacturer
                    else (if str_eq s "name" then some name else none)))))

-- `raw.split(":", 2)`, the second part if there is one.
abbrev name_and_width : List (List Char) → List Char × Option (List Char)
name_and_width [] = ([], none)
name_and_width (a ∷ []) = (a, none)
name_and_width (a ∷ b ∷ _) = (a, some b)

unfoldable pub parts_of : List Char → List Char × Option (List Char)
parts_of raw = name_and_width (split_on b':' [] (trimmed raw))

abbrev takes_width : RenameToken → Bool
takes_width n = true
takes_width serial = true
takes_width _ = false

abbrev is_width : Option ℕ → Bool
is_width none = false
is_width (some w) = leb 1 w

abbrev is_whole : List Char → Bool
is_whole [] = false
is_whole (c ∷ cs) = is_width (number (c ∷ cs))

unfoldable pub check_token : List Char → Option PatternError
unfolding parts_of token_named
check_token raw =
    let p = parts_of raw in
    elim (token_named (of_chars p.0)) [
      | none ↦ some (unknown_token (trimmed raw))
      | some t ↦ elim p.1 [
        | none ↦ none
        | some w ↦
            if takes_width t
            then (if is_whole w then none else some (needs_number (trimmed raw)))
            else some (takes_no_number t)
      ]
    ]

unfoldable pub check_tokens : List Piece → Option PatternError
unfolding check_token
check_tokens [] = none
check_tokens (literal c ∷ ps) = check_tokens ps
check_tokens (token raw ∷ ps) = or_maybe (check_token raw) (check_tokens ps)

abbrev is_brace : Piece → Bool
is_brace (literal c) = code c == b'{' || code c == b'}'
is_brace (token raw) = false

unfoldable pub check_pattern : String → Option PatternError
unfolding pieces check_tokens
check_pattern pattern =
    let ps = pieces none (chars pattern) in
    if str_eq (trim pattern) ""
    then some no_pattern
    else or_maybe (check_tokens ps) (if any is_brace ps then some unmatched_brace else none)

abbrev pub negate : ℤ → ℤ
negate (ℤ.pos zero) = ℤ.pos zero
negate (ℤ.pos (suc m)) = ℤ.negsuc m
negate (ℤ.negsuc m) = ℤ.pos (suc m)

abbrev char_at : ℕ → List Char → Char
char_at m [] = "0"
char_at zero (c ∷ cs) = c
char_at (suc m) (c ∷ cs) = char_at m cs

abbrev digit : ℕ → Char
digit m = char_at m (chars "0123456789")

-- One digit for each unit of fuel at most; a number has fewer digits than its successor has units.
unfoldable pub decimal : (fuel : ℕ) → ℕ → List Char
decimal zero m = []
decimal (suc fuel) m =
    let front = decimal fuel (m / 10) in
    if ltb m 10 then digit m ∷ [] else front ++ digit (m % 10) ∷ []

-- `String(counter)`.
unfoldable pub counter_text : ℤ → List Char
unfolding decimal
counter_text (ℤ.pos m) = decimal (suc m) m
counter_text (ℤ.negsuc m) = "-" ∷ decimal (suc (suc m)) (suc m)

abbrev zeros : ℕ → List Char
zeros zero = []
zeros (suc k) = "0" ∷ zeros k

-- `padStart(pad, "0")`.
abbrev pub pad_start : ℕ → List Char → List Char
pad_start pad cs = zeros (pad - length cs) ++ cs

abbrev pad_of : Option (List Char) → ℕ
pad_of none = 0
pad_of (some w) = elim (number w) [ none ↦ 0 | some k ↦ k ]

-- `serial.slice(-pad)`, or all of it.
abbrev tail_of : ℕ → List Char → List Char
tail_of pad cs = if ltb 0 pad then drop (length cs - pad) cs else cs

-- A value, or the token that has none on this box.
abbrev need : RenameToken → Option String → List Char × Option RenameToken
need t none = ([], some t)
need t (some v) = if str_eq v "" then ([], some t) else (chars v, none)

abbrev value_of : RenameTarget → ℤ → ℕ → RenameToken → List Char × Option RenameToken
value_of d counter pad n = (pad_start pad (counter_text counter), none)
value_of d counter pad serial = (tail_of pad (chars d.serial), none)
value_of d counter pad group = need group d.group_name
value_of d counter pad model = need model d.model
value_of d counter pad manufacturer = need manufacturer d.manufacturer
value_of d counter pad name = (chars d.name, none)

unfoldable pub render_token : RenameTarget → ℤ → List Char → List Char × Option RenameToken
unfolding parts_of token_named counter_text
render_token d counter raw =
    let p = parts_of raw in
    elim (token_named (of_chars p.0)) [
      | none ↦ ([], none)
      | some t ↦ value_of d counter (pad_of p.1) t
    ]

-- The text, and the first token without a value.
unfoldable pub render_pieces : RenameTarget → ℤ → List Piece → List Char × Option RenameToken
unfolding render_token
render_pieces d counter [] = ([], none)
render_pieces d counter (literal c ∷ ps) =
    let rest = render_pieces d counter ps in (c ∷ rest.0, rest.1)
render_pieces d counter (token raw ∷ ps) =
    let rest = render_pieces d counter ps in
    let value = render_token d counter raw in (value.0 ++ rest.0, or_maybe value.1 rest.1)

-- \p{Cc}.
abbrev pub is_control : Char → Bool
is_control c = ltb (code c) 32 || leb 127 (code c) && leb (code c) 159

unfoldable pub judged : List Char → Rendered
judged cs =
    if length cs == 0
    then unnamed renders_empty
    else (if any is_control cs
        then unnamed control_character
        else (if ltb max_name (length cs) then unnamed too_long else named (of_chars cs)))

unfoldable pub render_name : String → RenameTarget → ℤ → Rendered
unfolding pieces render_pieces judged
render_name pattern d counter =
    let p = render_pieces d counter (pieces none (chars pattern)) in
    elim p.1 [ some t ↦ unnamed (is_empty t) | none ↦ judged (trimmed p.0) ]
