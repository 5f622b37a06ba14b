-- ===== src/Tests/Rename.antt =====
-- Patterns and plans at concrete boxes.
use magnemite.Prelude.{
  ℕ, ◌≡◌, refl, true, none, some, String, str_eq, [], ◌∷◌, is_space, trim, number, split_on,
}
use magnemite.Versions.{ℤ}
use magnemite.Rename.Pattern.{
  RenameTarget, named, unnamed, is_empty, model, unmatched_brace, check_pattern, render_name,
  pieces, render_pieces, judged, render_token, parts_of, token_named, counter_text, decimal,
  check_tokens, check_token,
}
use magnemite.Rename.{RenameOptions, RenameOrder, Locale, ordered, plan_rename}
use magnemite.Rename.Plans.{IsWhole, plan_rename-IsWhole}

abbrev tv : ℕ → String → RenameTarget
tv k name = record {
  id = k;
  name = name;
  serial = "AB12CD34";
  model = none;
  manufacturer = some "Acme";
  group_name = some "north";
  created_at = "2026-01-01T00:00:00Z";
  config_goes_stale = true;
}

abbrev plain : Locale
plain = record { text_before = λ a b. str_eq a b; date_before = λ a b. str_eq a b; lower = λ s. s }

abbrev options : RenameOptions
options = record {
  pattern = "tv-{n:2}";
  order = RenameOrder.table;
  start_at = ℤ.pos 9;
  step = ℤ.pos 1;
}

padded : render_name "tv-{ n:3 }-{serial:4}" (tv 1 "old") (ℤ.pos 9) ≡ named "tv-009-CD34"
unfolding render_name pieces render_pieces judged render_token parts_of token_named counter_text
    decimal is_space trim number split_on
padded = refl

missing : render_name "{model}-{n}" (tv 1 "old") (ℤ.pos 9) ≡ unnamed (is_empty model)
unfolding render_name pieces render_pieces judged render_token parts_of token_named counter_text
    decimal is_space trim number split_on
missing = refl

unclosed : check_pattern "tv-{n:02" ≡ some unmatched_brace
unfolding check_pattern pieces check_tokens trim is_space
unclosed = refl

plan_rename-IsWhole_example :
    IsWhole
      (ordered plain RenameOrder.table (tv 1 "old" ∷ tv 2 "tv-10" ∷ []))
      (plan_rename plain (tv 1 "old" ∷ tv 2 "tv-10" ∷ []) [] options)
unfolding check_pattern pieces check_tokens check_token parts_of token_named trim is_space number
    split_on
plan_rename-IsWhole_example =
    plan_rename-IsWhole plain (tv 1 "old" ∷ tv 2 "tv-10" ∷ []) [] options refl
