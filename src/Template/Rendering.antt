-- ===== src/Template/Rendering.antt =====
-- renderTemplate and renderConfig of apps/hub/src/services/deviceConfig.ts: what a rendered file is
-- made of.
use magnemite.Prelude.{
  zero, ◌≡◌, ◌∙◌, refl, sym, subst, ap, arith, Bool, Bool-cases, if◌then◌else◌, ◌&&◌, inl, inr,
  true, false, Option, none, some, List, [], ◌∷◌, ◌++◌,
}
use magnemite.Template.{
  Text, DeviceForConfig, TemplatePiece, literal, token, template_pieces, lookup, placeholders,
  trimmed_text, substitute, substitute_all, unknown, Substitution, add_piece, of_value,
  escape_for_json_string, render_template, TemplateResult, done, refused_unknown, refused_empty,
  verdict, ConfigGroup, silent, rendered, checked, is_given, or_nothing, render_config, config_for,
  text,
}
use magnemite.Template.Pieces.{Cuts, template_pieces-Cuts}

-- What the box has for a name.
unfoldable pub value_for : DeviceForConfig → Text → Text
value_for d name = elim (lookup name (placeholders d)) [
  | none ↦ []
  | some value ↦ elim value [ none ↦ [] | some v ↦ v ]
]

value_for-lookup :
    (d : DeviceForConfig) (name v : Text)
    → lookup name (placeholders d) ≡ some (some v)
    → value_for d name ≡ v
unfolding value_for
value_for-lookup d name v e = rw (value_for, e) refl

unfoldable pub IsFilled : DeviceForConfig → List TemplatePiece → Type 0
unfolding value_for
IsFilled d [] = Unit
IsFilled d (literal c ∷ ps) = IsFilled d ps
IsFilled d (token raw ∷ ps) = (¬ (value_for d (trimmed_text raw) ≡ [])) × IsFilled d ps

-- The template with each name replaced by what a JSON string has for the value.
unfoldable pub spelled : DeviceForConfig → List TemplatePiece → Text
unfolding value_for
spelled d [] = []
spelled d (literal c ∷ ps) = c ∷ spelled d ps
spelled d (token raw ∷ ps) = escape_for_json_string (value_for d (trimmed_text raw)) ++ spelled d ps

abbrev Kept : DeviceForConfig → List TemplatePiece → Substitution → Type 0
Kept d ps s = IsFilled d ps × (s.result ≡ spelled d ps)

add_piece-Kept :
    (d : DeviceForConfig) (raw : Text) (ps : List TemplatePiece) (found : Option (Option Text))
    (s : Substitution)
    → lookup (trimmed_text raw) (placeholders d) ≡ found
    → (s.unknown_names ≡ [] → s.empty_names ≡ [] → Kept d ps s)
    → let t =
        add_piece
          (token raw)
          (elim found [
            | none ↦ unknown (trimmed_text raw)
            | some value ↦ of_value (trimmed_text raw) value
          ])
          s in
      t.unknown_names ≡ [] → t.empty_names ≡ [] → Kept d (token raw ∷ ps) t
unfolding IsFilled spelled value_for
add_piece-Kept d raw ps none s e h u m = ground arith
add_piece-Kept d raw ps (some none) s e h u m = ground arith
add_piece-Kept d raw ps (some (some [])) s e h u m = ground arith
add_piece-Kept d raw ps (some (some (c ∷ cs))) s e h u m =
    let k = h u m in
    let q = value_for-lookup d (trimmed_text raw) (c ∷ cs) e in
    (
      (λ z. ground (arith, sym q ∙ z), k.0),
      ap (λ r. escape_for_json_string (c ∷ cs) ++ r) k.1
          ∙ ap (λ v. escape_for_json_string v ++ spelled d ps) (sym q),
    )

substitute_all_lem :
    (d : DeviceForConfig) (ps : List TemplatePiece)
    → let s = substitute_all d ps in s.unknown_names ≡ [] → s.empty_names ≡ [] → Kept d ps s
unfolding substitute_all substitute IsFilled spelled
substitute_all_lem d [] u m = (tt, refl)
substitute_all_lem d (literal c ∷ ps) u m =
    let k = substitute_all_lem d ps u m in (k.0, ap (λ r. c ∷ r) k.1)
substitute_all_lem d (token raw ∷ ps) u m =
    add_piece-Kept d raw ps (lookup (trimmed_text raw) (placeholders d)) (substitute_all d ps) refl
      (substitute_all_lem d ps) u m

verdict-done :
    (r t : Text) (us es : List Text) → verdict r us es ≡ done t → (us ≡ []) × (es ≡ []) × (r ≡ t)
verdict-done r t [] [] e = (refl, refl, ground arith)
verdict-done r t [] (n ∷ ns) e = ground arith
verdict-done r t (n ∷ ns) es e = ground arith

render_template_lem :
    (template t : Text) (d : DeviceForConfig)
    → render_template template d ≡ done t
    → IsFilled d (template_pieces zero template) × (t ≡ spelled d (template_pieces zero template))
unfolding render_template
render_template_lem template t d e =
    let s = substitute_all d (template_pieces zero template) in
    let j = verdict-done s.result t s.unknown_names s.empty_names e in
    let k = substitute_all_lem d (template_pieces zero template) j.0 j.1 in (k.0, sym j.2 ∙ k.1)

checked-rendered :
    (is_json : Text → Bool) (path p c m : Text) (r : TemplateResult)
    → checked is_json path r ≡ rendered p c m
    → (is_json c ≡ true) × (p ≡ path) × (r ≡ done c)
checked-rendered is_json path p c m (done t) e = elim (Bool-cases (is_json t)) [
  | inl y ↦
      let q : rendered path t (text "0644") ≡ rendered p c m = rw y at e in
      (ground arith, ground arith, ground arith)
  | inr n ↦ ground arith
]
checked-rendered is_json path p c m (refused_unknown ns) e = ground arith
checked-rendered is_json path p c m (refused_empty ns) e = ground arith

is_given-or_nothing : (o : Option Text) → is_given o ≡ true → o ≡ some (or_nothing o)
is_given-or_nothing none e = ground arith
is_given-or_nothing (some t) e = refl

both : (a b : Bool) → a && b ≡ true → a ≡ true
both true b e = refl
both false b e = e

-- When the config of a box in a group is rendered: it goes to the group's path and is JSON; the
-- group's template is cut from the left at what stands between double braces and has no brace in
-- it, each such placeholder, trimmed, is a known one with a value in that box, and the text is the
-- template with each replaced by its value, escaped for a JSON string, and the rest kept.
pub render_config_lem :
    (is_json : Text → Bool) (d : DeviceForConfig) (g : ConfigGroup) (path content mode : Text)
    → d.group ≡ some g
    → render_config is_json d ≡ rendered path content mode
    → let template = template_pieces zero (or_nothing g.mitm_config) in
      (g.mitm_config_path ≡ some path)
      × (is_json content ≡ true)
      × Cuts (or_nothing g.mitm_config) template
      × IsFilled d template
      × (content ≡ spelled d template)
unfolding render_config
render_config_lem is_json d g path content mode of_group e =
    let guard = is_given g.mitm_config_path && is_given g.mitm_config in
    let answer =
      checked is_json (or_nothing g.mitm_config_path)
        (render_template (or_nothing g.mitm_config) d) in
    let whole : (if guard then answer else silent) ≡ rendered path content mode =
      subst (λ o. config_for is_json d o ≡ rendered path content mode) of_group e in
    elim (Bool-cases guard) [
      | inl y ↦
          let j =
            checked-rendered is_json (or_nothing g.mitm_config_path) path content mode
              (render_template (or_nothing g.mitm_config) d) (rw y at whole) in
          let k = render_template_lem (or_nothing g.mitm_config) content d j.2 in
          (
            is_given-or_nothing g.mitm_config_path (both _ _ y) ∙ ap some (sym j.1),
            j.0,
            template_pieces-Cuts zero (or_nothing g.mitm_config),
            k.0,
            k.1,
          )
      | inr n ↦ let q : silent ≡ rendered path content mode = rw n at whole in ground arith
    ]
