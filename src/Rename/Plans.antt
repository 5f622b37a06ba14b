-- ===== src/Rename/Plans.antt =====
-- What a plan of names promises: a row for each box, in order, counted once, and names that a table
-- and an alert can show.
use magnemite.Prelude.{
  Option, ◌≤◌, ℕ, ◌+◌, ◌≡◌, ◌∙◌, refl, ap, inl, inr, Bool-cases, Bool, true, false, not, ◌&&◌, ◌||◌,
  leb, ltb, ◌==◌, none, some, if◌then◌else◌, String, str_eq, eq_iff, chars, of_chars, List, [], ◌∷◌,
  All, any, length, map, count_if, arith, if_both,
}
use Prim.Native.Char.{Char}
use magnemite.Versions.{ℤ, minus}
use magnemite.Rename.Pattern.{
  renders_empty, control_character, too_long, is_empty, is_control, pieces, render_pieces, trimmed,
  RenameToken, RenameTarget, Rendered, named, unnamed, check_pattern, render_name, judged, max_name,
  negate,
}
use magnemite.Rename.{
  read_value, RenameRow, RenamePlan, RenameOptions, rename, unchanged, skipped, Locale, Box,
  NameRead, is_status, ordered, times_taken, mark, finish, row_of, rows_from, plan_rename, usable,
  plan_from_names,
}

-- Every row has one of the three statuses.
rows_counted :
    (rows : List RenameRow)
    → count_if (is_status rename) rows
        + count_if (is_status unchanged) rows
        + count_if (is_status skipped) rows
      ≡ length rows
rows_counted [] = omega arith
rows_counted (r ∷ rs) = ground (arith, rows_counted rs)

-- A mark changes neither the box nor the name of a row, nor its status.
mark_row :
    (P : RenameRow → Type 0) (taken : String → ℕ) (r : RenameRow)
    → P r
    → P (record r { duplicate = true })
    → P (mark taken r)
mark_row P taken r p q =
    if_both P (not (is_status skipped r) && ltb 1 (taken r.to_name)) (record r { duplicate = true })
      r q p

mark-id : (taken : String → ℕ) (r : RenameRow) → (mark taken r).device_id ≡ r.device_id
mark-id taken r = mark_row (λ x. x.device_id ≡ r.device_id) taken r refl refl

ids_marked :
    (taken : String → ℕ) (rows : List RenameRow)
    → map (λ r. r.device_id) (map (mark taken) rows) ≡ map (λ r. r.device_id) rows
ids_marked taken [] = refl
ids_marked taken (r ∷ rs) = let same = mark-id taken r in rw (same, ids_marked taken rs) refl

row_of-id : (t : RenameTarget) (x : Rendered) → (row_of t x).device_id ≡ t.id
row_of-id t (named s) = refl
row_of-id t (unnamed why) = refl

rows_from-ids :
    (pattern : String) (step counter : ℤ) (ts : List RenameTarget)
    → map (λ r. r.device_id) (rows_from pattern step counter ts) ≡ map (λ t. t.id) ts
unfolding rows_from
rows_from-ids pattern step counter [] = refl
rows_from-ids pattern step counter (t ∷ ts) =
    let same = row_of-id t (render_name pattern t counter) in
    rw (same, rows_from-ids pattern step (minus counter (negate step)) ts) refl

-- A name that fits: not empty, and not too long.
abbrev pub fits : String → Bool
fits s = leb 1 (length (chars s)) && leb (length (chars s)) max_name

abbrev pub is_usable : RenameRow → Bool
is_usable r = is_status skipped r || fits r.to_name

chars-of_chars : (cs : List Char) → chars (of_chars cs) ≡ cs
chars-of_chars [] = refl
chars-of_chars (c ∷ cs) = ap (λ rest. c ∷ rest) (chars-of_chars cs)

abbrev rendered_fits : Rendered → Bool
rendered_fits (named s) = fits s
rendered_fits (unnamed why) = true

judged-fits : (cs : List Char) → rendered_fits (judged cs) ≡ true
unfolding judged
judged-fits cs =
    let same = ap length (chars-of_chars cs) in
    sorted_out (any is_control cs) (of_chars cs) (length cs) same
  where
    sorted_out :
        (control : Bool) (s : String) (m : ℕ)
        → length (chars s) ≡ m
        → rendered_fits (
            if m == 0
            then unnamed renders_empty
            else (if control
                then unnamed control_character
                else (if ltb max_name m then unnamed too_long else named s)))
          ≡ true
    sorted_out control s m e = ground (arith, e)

render_name-fits :
    (pattern : String) (t : RenameTarget) (counter : ℤ)
    → rendered_fits (render_name pattern t counter) ≡ true
unfolding render_name
render_name-fits pattern t counter =
    either (render_pieces t counter (pieces none (chars pattern))).1
  where
    text : List Char
    text = trimmed (render_pieces t counter (pieces none (chars pattern))).0

    either :
        (o : Option RenameToken)
        → rendered_fits (elim o [ some missing ↦ unnamed (is_empty missing) | none ↦ judged text ])
          ≡ true
    either none = judged-fits text
    either (some missing) = refl

chars_of_text : (s : String) → str_eq s "" ≡ false → 1 ≤ length (chars s)
chars_of_text String.[] e = absurd (ground (arith, (eq_iff "" "").1 refl))
chars_of_text (String.◌∷◌ c s) e = omega arith

usable-fits : (found : Option NameRead) → rendered_fits (usable found) ≡ true
usable-fits found =
    let value = read_value found in
    elim (Bool-cases (str_eq value "")) [
      | inl y ↦ rw y refl
      | inr n ↦ rw n (long_or_not value (chars_of_text value n))
    ]
  where
    long_or_not :
        (s : String)
        → 1 ≤ length (chars s)
        → rendered_fits (if ltb max_name (length (chars s)) then unnamed too_long else named s)
          ≡ true
    long_or_not s l = ground arith

row_of-is_usable :
    (t : RenameTarget) (x : Rendered) → rendered_fits x ≡ true → is_usable (row_of t x) ≡ true
row_of-is_usable t (named s) e = either (str_eq s t.name)
  where
    either :
        (b : Bool)
        → is_usable (record (row_of t (named s)) { status = if b then unchanged else rename })
          ≡ true
    either true = e
    either false = e
row_of-is_usable t (unnamed why) e = refl

marked-usable :
    (taken : String → ℕ) (rows : List RenameRow)
    → All (λ r. is_usable r ≡ true) rows
    → All (λ r. is_usable r ≡ true) (map (mark taken) rows)
marked-usable taken [] h = tt
marked-usable taken (r ∷ rs) (p, h) =
    (mark_row (λ x. is_usable x ≡ true) taken r p p, marked-usable taken rs h)

rows_from-usable :
    (pattern : String) (step counter : ℤ) (ts : List RenameTarget)
    → All (λ r. is_usable r ≡ true) (rows_from pattern step counter ts)
unfolding rows_from
rows_from-usable pattern step counter [] = tt
rows_from-usable pattern step counter (t ∷ ts) = (
  row_of-is_usable t (render_name pattern t counter) (render_name-fits pattern t counter),
  rows_from-usable pattern step (minus counter (negate step)) ts,
)

read_rows-usable :
    (names : ℕ → Option NameRead) (ts : List RenameTarget)
    → All (λ r. is_usable r ≡ true) (map (λ t. row_of t (usable (names t.id))) ts)
read_rows-usable names [] = tt
read_rows-usable names (t ∷ ts) =
    (row_of-is_usable t (usable (names t.id)) (usable-fits (names t.id)), read_rows-usable names ts)

read_rows-ids :
    (names : ℕ → Option NameRead) (ts : List RenameTarget)
    → map (λ r. r.device_id) (map (λ t. row_of t (usable (names t.id))) ts) ≡ map (λ t. t.id) ts
read_rows-ids names [] = refl
read_rows-ids names (t ∷ ts) =
    let same = row_of-id t (usable (names t.id)) in rw (same, read_rows-ids names ts) refl

-- What a plan of these boxes, in this order, promises.
pub record IsWhole (ts : List RenameTarget) (p : RenamePlan) : Type 0 where
  pub each : map (λ r. r.device_id) p.rows ≡ map (λ t. t.id) ts
  pub fit : All (λ r. is_usable r ≡ true) p.rows
  pub total : p.counts.total ≡ length p.rows
  pub counted : p.counts.renamed + p.counts.unchanged + p.counts.skipped ≡ p.counts.total

finish-IsWhole :
    (l : Locale) (rows : List RenameRow) (ts batch : List RenameTarget) (fleet : List Box)
    → map (λ r. r.device_id) rows ≡ map (λ t. t.id) ts
    → All (λ r. is_usable r ≡ true) rows
    → IsWhole ts (finish l rows batch fleet)
unfolding finish
finish-IsWhole l rows ts batch fleet e h =
    let taken = times_taken l rows batch fleet in
    record {
      each = ids_marked taken rows ∙ e;
      fit = marked-usable taken rows h;
      total = refl;
      counted = rows_counted (map (mark taken) rows);
    }

-- With a pattern that has no error, the plan has a row for each box, in the order chosen; each row
-- is skipped or has a name that is neither empty nor longer than 64 characters; and the counts of
-- the rows renamed, unchanged and skipped add up to the number of rows.
pub plan_rename-IsWhole :
    (l : Locale) (ts : List RenameTarget) (fleet : List Box) (o : RenameOptions)
    → check_pattern o.pattern ≡ none
    → IsWhole (ordered l o.order ts) (plan_rename l ts fleet o)
unfolding plan_rename
plan_rename-IsWhole l ts fleet o e =
    rw (e, plan_rename)
      (finish-IsWhole l _ (ordered l o.order ts) ts fleet (rows_from-ids o.pattern _ o.start_at _)
        (rows_from-usable o.pattern _ o.start_at _))

-- A plan from names read off the boxes has a row for each box in their order; each row is skipped
-- or has a name that is neither empty nor longer than 64 characters; and the counts of the rows
-- renamed, unchanged and skipped add up to the number of rows.
pub plan_from_names-IsWhole :
    (l : Locale) (ts : List RenameTarget) (fleet : List Box) (names : ℕ → Option NameRead)
    → IsWhole ts (plan_from_names l ts fleet names)
unfolding plan_from_names
plan_from_names-IsWhole l ts fleet names =
    finish-IsWhole l _ ts ts fleet (read_rows-ids names ts) (read_rows-usable names ts)
