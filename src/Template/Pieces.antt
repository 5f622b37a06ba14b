-- ===== src/Template/Pieces.antt =====
-- The matches of TOKEN in a template of deviceConfig.ts, described apart from how they are found.
use magnemite.Prelude.{
  ℕ, zero, suc, ◌+◌, ◌≡◌, ◌==◌, ◌∙◌, refl, ap, subst, inl, inr, arith, true, not, ◌&&◌, Bool-cases,
  Option-cases, none, some, List, [], ◌∷◌, ◌++◌, all, drop, length, eq_of_some, ==_iff,
}
use magnemite.Template.{Text, TemplatePiece, literal, token, until_close, token_at, template_pieces}

-- `[^{}]*`.
abbrev pub IsPlain : Text → Type 0
IsPlain raw = all (λ c. not (c == b'{') && not (c == b'}')) raw ≡ true

-- A match stands at the head: "{{", no brace, "}}".
pub record Match (cs raw rest : Text) : Type 0 where
  pub plain : IsPlain raw
  pub spelling : cs ≡ b'{' ∷ b'{' ∷ raw ++ b'}' ∷ b'}' ∷ rest

-- The template is cut at its matches from the left: where one stands it is taken whole, and what no
-- match begins at is kept.
pub data Cuts : Text → List TemplatePiece → Type 0 where
  ends : Cuts [] []
  keeps :
      (c : ℕ) (cs : Text) (ps : List TemplatePiece)
      → ((raw rest : Text) → ¬ Match (c ∷ cs) raw rest)
      → Cuts cs ps
      → Cuts (c ∷ cs) (literal c ∷ ps)
  takes :
      (cs raw rest : Text) (ps : List TemplatePiece)
      → Match cs raw rest
      → Cuts rest ps
      → Cuts cs (token raw ∷ ps)

-- What until_close finds is plain and followed by "}}".
abbrev IsClosed : Text → Text → Type 0
IsClosed cs raw = IsPlain raw × (cs ≡ raw ++ b'}' ∷ b'}' ∷ drop (suc (suc (length raw))) cs)

closing-IsClosed :
    (c : ℕ) (cs raw : Text)
    → (c == b'}') ≡ true
    → until_close (c ∷ cs) ≡ some raw
    → IsClosed (c ∷ cs) raw
unfolding until_close
closing-IsClosed c [] raw brace e = absurd (ground arith)
closing-IsClosed c (d ∷ ds) raw brace e = elim (Bool-cases (d == b'}')) [
  | inr single ↦ absurd (ground arith)
  | inl double ↦
      let first : c ≡ b'}' = (==_iff c b'}').0 brace in
      let second : d ≡ b'}' = (==_iff d b'}').0 double in
      let empty : [] ≡ raw = eq_of_some (rw (brace, double) at e) in
      subst (IsClosed (c ∷ d ∷ ds)) empty (refl, λ i. first i ∷ second i ∷ ds)
]

until_close-IsClosed : (cs raw : Text) → until_close cs ≡ some raw → IsClosed cs raw
unfolding until_close
until_close-IsClosed [] raw e = absurd (cc)
until_close-IsClosed (c ∷ cs) raw e = elim (Bool-cases (c == b'}')) [
  | inl close ↦ closing-IsClosed c cs raw close e
  | inr no_close ↦ elim (Bool-cases (c == b'{')) [
    | inl brace ↦ absurd (ground arith)
    | inr no_brace ↦ elim (Option-cases (until_close cs)) [
      | inl missing ↦ absurd (ground arith)
      | inr (later, found) ↦
          let (plain, spelling) = until_close-IsClosed cs later found in
          let longer : c ∷ later ≡ raw = eq_of_some (rw (no_close, no_brace, found) at e) in
          subst (IsClosed (c ∷ cs)) longer (rw (no_close, no_brace) plain, ap (λ t. c ∷ t) spelling)
    ]
  ]
]

until_close_plain :
    (raw rest : Text) → IsPlain raw → until_close (raw ++ b'}' ∷ b'}' ∷ rest) ≡ some raw
unfolding until_close
until_close_plain [] rest p = ground arith
until_close_plain (c ∷ raw) rest p = ground (arith, until_close_plain raw rest)

token_at_plain :
    (raw rest : Text) → IsPlain raw → token_at (b'{' ∷ b'{' ∷ raw ++ b'}' ∷ b'}' ∷ rest) ≡ some raw
unfolding token_at
token_at_plain raw rest p = until_close_plain raw rest p

token_at_sound :
    (c : ℕ) (cs raw : Text)
    → token_at (c ∷ cs) ≡ some raw
    → Match (c ∷ cs) raw (drop (length raw + 3) cs)
unfolding token_at
token_at_sound c [] raw e = absurd (cc)
token_at_sound c (d ∷ ds) raw e = elim (Bool-cases (c == b'{' && d == b'{')) [
  | inr other ↦ absurd (ground arith)
  | inl opened ↦
      let both : (c == b'{' ≡ true) × (d == b'{' ≡ true) = ground arith in
      let first : c ≡ b'{' = (==_iff c b'{').0 both.0 in
      let second : d ≡ b'{' = (==_iff d b'{').0 both.1 in
      let (plain, spelling) = until_close-IsClosed ds raw (rw opened at e) in
      let long : length raw + 3 ≡ suc (suc (suc (length raw))) = omega arith in
      record { plain = plain; spelling = rw long (λ i. first i ∷ second i ∷ spelling i) }
]

none_at :
    (raw rest : Text) (c : ℕ) (cs : Text) → token_at (c ∷ cs) ≡ none → ¬ Match (c ∷ cs) raw rest
none_at raw rest c cs plain m =
    let found = ap token_at m.spelling ∙ token_at_plain raw rest m.plain in absurd (cc)

pub template_pieces-Cuts : (skip : ℕ) (cs : Text) → Cuts (drop skip cs) (template_pieces skip cs)
unfolding template_pieces
template_pieces-Cuts zero [] = ends
template_pieces-Cuts (suc skip) [] = ends
template_pieces-Cuts (suc skip) (c ∷ cs) = template_pieces-Cuts skip cs
template_pieces-Cuts zero (c ∷ cs) = elim (Option-cases (token_at (c ∷ cs))) [
  | inl plain ↦
      rw (plain, template_pieces)
        (keeps c cs (template_pieces zero cs) (λ raw rest m. none_at raw rest c cs plain m)
          (template_pieces-Cuts zero cs))
  | inr (raw, e) ↦
      rw (e, template_pieces)
        (takes (c ∷ cs) raw (drop (length raw + 3) cs) (template_pieces (length raw + 3) cs)
          (token_at_sound c cs raw e) (template_pieces-Cuts (length raw + 3) cs))
]
