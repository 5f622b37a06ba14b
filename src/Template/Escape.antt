-- ===== src/Template/Escape.antt =====
-- escapeForJsonString of apps/hub/src/services/deviceConfig.ts, and a reader of the body of a JSON
-- string.
use magnemite.Prelude.{
  ℕ, zero, suc, ◌+◌, ◌-◌, ◌*◌, ◌/◌, ◌%◌, ◌==◌, ◌≡◌, ◌<◌, ◌∙◌, leb, ltb, ltb→lt, refl, sym, ap,
  subst, inl, inr, Bool-cases, if◌then◌else◌, true, ◌&&◌, ◌||◌, Option, none, some, [], ◌∷◌, ◌++◌,
  arith, ==_iff,
}
use magnemite.Template.{Text, hex, escape_one, escape_for_json_string}

-- Where a reader of the body of a JSON string stands.
pub data Reader : Type 0 where
  plain : Reader
  escaped : Reader
  unicode : (left acc : ℕ) → Reader

unfoldable pub hex_value : ℕ → Option ℕ
hex_value c =
    if leb b'0' c && leb c b'9'
    then some (c - 48)
    else (if leb 97 c && leb c 102
        then some (c - 87)
        else (if leb 65 c && leb c 70 then some (c - 55) else none))

abbrev after_backslash : ℕ → Option ℕ
after_backslash c =
    if c == b'"' || c == b'\\' || c == b'/'
    then some c
    else (if c == b'b'
        then some 8
        else (if c == b't'
            then some 9
            else (if c == b'n'
                then some 10
                else (if c == b'f' then some 12 else (if c == b'r' then some 13 else none)))))

abbrev put : ℕ → Option Text → Option Text
put c none = none
put c (some cs) = some (c ∷ cs)

-- The code points that the body of a JSON string stands for, if it is one.
unfoldable pub read_json_string : Reader → Text → Option Text
unfolding hex_value
read_json_string plain [] = some []
read_json_string escaped [] = none
read_json_string (unicode k acc) [] = none
read_json_string plain (c ∷ cs) =
    let back = read_json_string escaped cs in
    let rest = read_json_string plain cs in
    if c == b'\\' then back else (if c == b'"' || ltb c 32 then none else put c rest)
read_json_string escaped (c ∷ cs) =
    let four = read_json_string (unicode 3 0) cs in
    let rest = read_json_string plain cs in
    if c == b'u' then four else elim (after_backslash c) [ none ↦ none | some v ↦ put v rest ]
read_json_string (unicode k acc) (c ∷ cs) =
    let rest = read_json_string plain cs in
    elim (hex_value c) [
      | none ↦ none
      | some v ↦ elim k [
        | zero ↦ put (acc * 16 + v) rest
        | suc left ↦ read_json_string (unicode left (acc * 16 + v)) cs
      ]
    ]

hex_value-hex : (m : ℕ) → m < 16 → hex_value (hex m) ≡ some m
unfolding hex_value
hex_value-hex m m<16 = ground arith

-- The last digit of four.
last_digit :
    (acc l b : ℕ) (cs : Text)
    → hex_value l ≡ some b
    → read_json_string (unicode 0 acc) (l ∷ cs) ≡ put (acc * 16 + b) (read_json_string plain cs)
unfolding read_json_string
last_digit acc l b cs is_b = rw (is_b, read_json_string) refl

last_two :
    (h l a b : ℕ) (cs : Text)
    → hex_value h ≡ some a
    → hex_value l ≡ some b
    → read_json_string (unicode 1 0) (h ∷ l ∷ cs)
      ≡ put ((0 * 16 + a) * 16 + b) (read_json_string plain cs)
unfolding read_json_string
last_two h l a b cs is_a is_b = rw (is_a, read_json_string) (last_digit (0 * 16 + a) l b cs is_b)

control :
    (c : ℕ) (cs : Text)
    → c < 32
    → read_json_string plain (b'\\' ∷ b'u' ∷ b'0' ∷ b'0' ∷ hex (c / 16) ∷ hex (c % 16) ∷ cs)
      ≡ put c (read_json_string plain cs)
unfolding read_json_string
control c cs c<32 =
    last_two (hex (c / 16)) (hex (c % 16)) (c / 16) (c % 16) cs
      (hex_value-hex (c / 16) (omega arith)) (hex_value-hex (c % 16) (omega arith))
    ∙ ap (λ n. put n (read_json_string plain cs)) (omega arith)

unfoldable ReadsBack : ℕ → Text → Type 0
ReadsBack c cs = read_json_string plain (escape_one c ++ cs) ≡ put c (read_json_string plain cs)

at : (c v : ℕ) (cs : Text) → (c == v) ≡ true → ReadsBack v cs → ReadsBack c cs
at c v cs e back = subst (λ x. ReadsBack x cs) (sym ((==_iff c v).0 e)) back

read-escape_one :
    (c : ℕ) (cs : Text)
    → read_json_string plain (escape_one c ++ cs) ≡ put c (read_json_string plain cs)
unfolding escape_one read_json_string ReadsBack
read-escape_one c cs = elim (Bool-cases (c == 34)) [
  | inl e ↦ at c 34 cs e refl
  | inr n34 ↦ elim (Bool-cases (c == 92)) [
    | inl e ↦ at c 92 cs e refl
    | inr n92 ↦ elim (Bool-cases (c == 8)) [
      | inl e ↦ at c 8 cs e refl
      | inr n8 ↦ elim (Bool-cases (c == 9)) [
        | inl e ↦ at c 9 cs e refl
        | inr n9 ↦ elim (Bool-cases (c == 10)) [
          | inl e ↦ at c 10 cs e refl
          | inr n10 ↦ elim (Bool-cases (c == 12)) [
            | inl e ↦ at c 12 cs e refl
            | inr n12 ↦ elim (Bool-cases (c == 13)) [
              | inl e ↦ at c 13 cs e refl
              | inr n13 ↦ elim (Bool-cases (ltb c 32)) [
                | inl low ↦
                    rw (n34, n92, n8, n9, n10, n12, n13, low) (control c cs (ltb→lt c 32 low))
                | inr high ↦ rw (n34, n92, n8, n9, n10, n12, n13, high, n92, n34, high) refl
              ]
            ]
          ]
        ]
      ]
    ]
  ]
]

-- A reader of the body of a JSON string, given what escapeForJsonString makes of a value, finds
-- that value, and nothing in it that ends the string.
pub read-escape : (cs : Text) → read_json_string plain (escape_for_json_string cs) ≡ some cs
unfolding escape_for_json_string read_json_string
read-escape [] = refl
read-escape (c ∷ cs) = read-escape_one c (escape_for_json_string cs) ∙ ap (put c) (read-escape cs)
