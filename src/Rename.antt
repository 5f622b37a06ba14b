-- ===== src/Rename.antt =====
-- apps/web/src/lib/rename-pattern.ts: naming many boxes at once. The order of two texts
-- (`localeCompare`) and lower case are the runtime's, in `Locale`. A length counts characters, and a
-- counter is a whole number.
pub mod Pattern
pub mod Plans
use magnemite.Prelude.{
  ℕ, ◌+◌, ltb, ◌==◌, if◌then◌else◌, Bool, true, false, not, ◌&&◌, Option, none, some, String,
  str_eq, trim, chars, List, [], ◌∷◌, any, length, map, count_if, sort,
}
use magnemite.Versions.{ℤ, minus}
use magnemite.Rename.Pattern.{
  RenameTarget, PatternError, Rendered, named, unnamed, SkipReason, given, no_name_came_back,
  too_long, check_pattern, render_name, negate, max_name,
}

pub data RenameOrder : Type 0 where
  table by_serial by_name created : RenameOrder

pub data RowStatus : Type 0 where
  rename unchanged skipped : RowStatus

pub record RenameRow : Type 0 where
  pub device_id : ℕ
  pub from_name : String
  pub to_name : String
  pub status : RowStatus
  pub reason : Option SkipReason
  pub duplicate : Bool

pub record Counts : Type 0 where
  pub total : ℕ
  pub renamed : ℕ
  pub unchanged : ℕ
  pub skipped : ℕ
  pub duplicate : ℕ
  pub stale : ℕ

pub record RenamePlan : Type 0 where
  pub rows : List RenameRow
  pub error : Option PatternError
  pub counts : Counts

pub record RenameOptions : Type 0 where
  pub pattern : String
  pub order : RenameOrder
  pub start_at : ℤ
  pub step : ℤ

pub record Locale : Type 0 where
  pub text_before : String → String → Bool
  pub date_before : String → String → Bool
  pub lower : String → String

pub record Box : Type 0 where
  pub id : ℕ
  pub name : String

abbrev pub is_status : RowStatus → RenameRow → Bool
is_status rename r = elim r.status [ rename ↦ true | unchanged ↦ false | skipped ↦ false ]
is_status unchanged r = elim r.status [ rename ↦ false | unchanged ↦ true | skipped ↦ false ]
is_status skipped r = elim r.status [ rename ↦ false | unchanged ↦ false | skipped ↦ true ]

unfoldable pub ordered : Locale → RenameOrder → List RenameTarget → List RenameTarget
ordered l table ts = ts
ordered l by_serial ts = sort (λ a b. l.text_before a.serial b.serial) ts
ordered l by_name ts = sort (λ a b. l.text_before a.name b.name) ts
ordered l created ts = sort (λ a b. l.date_before a.created_at b.created_at) ts

abbrev pub has_id : ℕ → List RenameTarget → Bool
has_id k ts = any (λ t. t.id == k) ts

-- How often a name is taken, by the boxes outside of the batch and by its rows.
unfoldable pub times_taken : Locale → List RenameRow → List RenameTarget → List Box → String → ℕ
times_taken l rows ts fleet name =
    count_if (λ b. not (has_id b.id ts) && str_eq (l.lower b.name) (l.lower name)) fleet
    + count_if (λ r. not (is_status skipped r) && str_eq (l.lower r.to_name) (l.lower name)) rows

abbrev pub mark : (String → ℕ) → RenameRow → RenameRow
mark taken r =
    if not (is_status skipped r) && ltb 1 (taken r.to_name)
    then record r { duplicate = true }
    else r

abbrev goes_stale : List RenameTarget → ℕ → Bool
goes_stale ts k = any (λ t. t.config_goes_stale && t.id == k) ts

-- Mark the duplicates and count everything up.
unfoldable pub finish : Locale → List RenameRow → List RenameTarget → List Box → RenamePlan
unfolding times_taken
finish l rows ts fleet =
    let marked = map (mark (times_taken l rows ts fleet)) rows in
    record {
      rows = marked;
      error = none;
      counts = record {
        total = length marked;
        renamed = count_if (is_status rename) marked;
        unchanged = count_if (is_status unchanged) marked;
        skipped = count_if (is_status skipped) marked;
        duplicate = count_if (λ r. r.duplicate) marked;
        stale = count_if (λ r. is_status rename r && goes_stale ts r.device_id) marked;
      };
    }

abbrev pub row_of : RenameTarget → Rendered → RenameRow
row_of t (unnamed why) = record {
  device_id = t.id;
  from_name = t.name;
  to_name = "";
  status = skipped;
  reason = some why;
  duplicate = false;
}
row_of t (named name) = record {
  device_id = t.id;
  from_name = t.name;
  to_name = name;
  status = if str_eq name t.name then unchanged else rename;
  reason = none;
  duplicate = false;
}

-- The rows from one counter on; unchanged rows and skipped ones use a value up too.
unfoldable pub rows_from : String → ℤ → ℤ → List RenameTarget → List RenameRow
rows_from pattern step counter [] = []
rows_from pattern step counter (t ∷ ts) =
    row_of t (render_name pattern t counter)
    ∷ rows_from pattern step (minus counter (negate step)) ts

abbrev is_zero_step : ℤ → Bool
is_zero_step (ℤ.pos n) = n == 0
is_zero_step (ℤ.negsuc n) = false

unfoldable pub plan_rename : Locale → List RenameTarget → List Box → RenameOptions → RenamePlan
unfolding ordered rows_from finish
plan_rename l ts fleet o = elim (check_pattern o.pattern) [
  | some e ↦ record {
    rows = [];
    error = some e;
    counts = record {
      total = length ts;
      renamed = 0;
      unchanged = 0;
      skipped = 0;
      duplicate = 0;
      stale = 0;
    };
  }
  | none ↦
      let step = if is_zero_step o.step then ℤ.pos 1 else o.step in
      finish l (rows_from o.pattern step o.start_at (ordered l o.order ts)) ts fleet
]

-- A name read off a box, or why there is none.
pub record NameRead : Type 0 where
  pub name : Option String
  pub reason : Option String

abbrev pub read_value : Option NameRead → String
read_value none = ""
read_value (some r) = elim r.name [ none ↦ "" | some raw ↦ trim raw ]

abbrev pub why_none : Option NameRead → SkipReason
why_none none = no_name_came_back
why_none (some r) = elim r.reason [ none ↦ no_name_came_back | some why ↦ given why ]

abbrev pub usable : Option NameRead → Rendered
usable found =
    let value = read_value found in
    if str_eq value ""
    then unnamed (why_none found)
    else (if ltb max_name (length (chars value)) then unnamed too_long else named value)

unfoldable pub plan_from_names :
    Locale → List RenameTarget → List Box → (names : ℕ → Option NameRead) → RenamePlan
unfolding finish
plan_from_names l ts fleet names = finish l (map (λ t. row_of t (usable (names t.id))) ts) ts fleet
