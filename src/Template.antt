-- ===== src/Template.antt =====
-- apps/hub/src/services/deviceConfig.ts: the scanner's config file, rendered for one box. A text is
-- the list of its code points here. JSON.parse, which only tests the result, is a parameter.
pub mod Escape
pub mod Pieces
pub mod Rendering
use magnemite.Prelude.{
  ℕ, zero, suc, ◌+◌, ◌/◌, ◌%◌, ◌==◌, ltb, if◌then◌else◌, Bool, true, false, ◌&&◌, Option, none,
  some, is_space, String, chars, List, [], ◌∷◌, ◌++◌, map, length,
}
use Prim.Native.Char.{code}
use mathlib.Core.List.{reverse}

abbrev pub Text : Type 0
Text = List ℕ

abbrev pub text : String → Text
text s = map code (chars s)

unfoldable pub equal_texts : Text → Text → Bool
equal_texts [] [] = true
equal_texts [] (b ∷ bs) = false
equal_texts (a ∷ rest) [] = false
equal_texts (a ∷ rest) (b ∷ bs) = a == b && equal_texts rest bs

pub record ConfigGroup : Type 0 where
  pub name : Text
  pub mitm_package_name : Option Text
  pub mitm_config_path : Option Text
  pub mitm_config : Option Text

pub record DeviceForConfig : Type 0 where
  pub id : Text
  pub name : Text
  pub serial : Text
  pub model : Option Text
  pub manufacturer : Option Text
  pub android_version : Option Text
  pub abi : Option Text
  pub local_ip : Option Text
  pub public_ip : Option Text
  pub rotom_origin : Option Text
  pub rotom_device_id : Option Text
  pub group : Option ConfigGroup

abbrev group_name : Option ConfigGroup → Option Text
group_name none = none
group_name (some g) = some g.name

-- PLACEHOLDERS, each with how to read it.
unfoldable pub placeholders : DeviceForConfig → List (Text × Option Text)
placeholders d =
    (text "device.id", some d.id)
    ∷ (text "device.name", some d.name)
    ∷ (text "device.serial", some d.serial)
    ∷ (text "device.model", d.model)
    ∷ (text "device.manufacturer", d.manufacturer)
    ∷ (text "device.androidVersion", d.android_version)
    ∷ (text "device.abi", d.abi)
    ∷ (text "device.localIp", d.local_ip)
    ∷ (text "device.publicIp", d.public_ip)
    ∷ (text "device.rotomOrigin", d.rotom_origin)
    ∷ (text "device.rotomDeviceId", d.rotom_device_id)
    ∷ (text "group.name", group_name d.group)
    ∷ []

unfoldable pub lookup : Text → List (Text × Option Text) → Option (Option Text)
unfolding equal_texts
lookup name [] = none
lookup name (p ∷ ps) = if equal_texts name p.0 then some p.1 else lookup name ps

pub data TemplatePiece : Type 0 where
  literal : ℕ → TemplatePiece
  token : (raw : Text) → TemplatePiece

-- What stands before "}}", without a brace in it.
unfoldable pub until_close : Text → Option Text
until_close [] = none
until_close (c ∷ cs) =
    let rest = until_close cs in
    if c == b'}'
    then elim cs [ [] ↦ none | d ∷ _ ↦ if d == b'}' then some [] else none ]
    else (if c == b'{' then none else elim rest [ none ↦ none | some raw ↦ some (c ∷ raw) ])

-- The token that begins here.
unfoldable pub token_at : Text → Option Text
unfolding until_close
token_at [] = none
token_at (c ∷ cs) = elim cs [
  | [] ↦ none
  | d ∷ ds ↦ if c == b'{' && d == b'{' then until_close ds else none
]

-- The matches of TOKEN and what is between them: `skip` characters belong to the last match.
unfoldable pub template_pieces : (skip : ℕ) → Text → List TemplatePiece
unfolding token_at
template_pieces skip [] = []
template_pieces (suc skip) (c ∷ cs) = template_pieces skip cs
template_pieces zero (c ∷ cs) =
    let plain = template_pieces zero cs in
    elim (token_at (c ∷ cs)) [
      | none ↦ literal c ∷ plain
      | some raw ↦ token raw ∷ template_pieces (length raw + 3) cs
    ]

unfoldable pub drop_spaces : Text → Text
drop_spaces [] = []
drop_spaces (c ∷ cs) = let rest = drop_spaces cs in if is_space c then rest else c ∷ cs

abbrev pub trimmed_text : Text → Text
trimmed_text cs = reverse (drop_spaces (reverse (drop_spaces cs)))

abbrev hex : ℕ → ℕ
hex m = if ltb m 10 then b'0' + m else 87 + m

-- One code point inside a JSON string, as JSON.stringify writes it.
unfoldable pub escape_one : ℕ → Text
escape_one c =
    if c == b'"'
    then b'\\' ∷ b'"' ∷ []
    else (if c == b'\\'
        then b'\\' ∷ b'\\' ∷ []
        else (if c == 8
            then b'\\' ∷ b'b' ∷ []
            else (if c == 9
                then b'\\' ∷ b't' ∷ []
                else (if c == 10
                    then b'\\' ∷ b'n' ∷ []
                    else (if c == 12
                        then b'\\' ∷ b'f' ∷ []
                        else (if c == 13
                            then b'\\' ∷ b'r' ∷ []
                            else (if ltb c 32
                                then b'\\' ∷ b'u' ∷ b'0' ∷ b'0' ∷ hex (c / 16) ∷ hex (c % 16) ∷ []
                                else c ∷ [])))))))

-- `escapeForJsonString`.
unfoldable pub escape_for_json_string : Text → Text
unfolding escape_one
escape_for_json_string [] = []
escape_for_json_string (c ∷ cs) = escape_one c ++ escape_for_json_string cs

abbrev braces : Text → Text
braces raw = b'{' ∷ b'{' ∷ raw ++ b'}' ∷ b'}' ∷ []

-- What one piece becomes.
pub data Substituted : Type 0 where
  written : Text → Substituted
  unknown : (name : Text) → Substituted
  empty : (name : Text) → Substituted

abbrev of_value : Text → Option Text → Substituted
of_value name none = empty name
of_value name (some []) = empty name
of_value name (some (c ∷ cs)) = written (escape_for_json_string (c ∷ cs))

unfoldable pub substitute : DeviceForConfig → TemplatePiece → Substituted
unfolding placeholders lookup escape_for_json_string drop_spaces
substitute d (literal c) = written (c ∷ [])
substitute d (token raw) =
    let name = trimmed_text raw in
    elim (lookup name (placeholders d)) [ none ↦ unknown name | some value ↦ of_value name value ]

pub record Substitution : Type 0 where
  pub result : Text
  pub unknown_names : List Text
  pub empty_names : List Text

abbrev add_piece : TemplatePiece → Substituted → Substitution → Substitution
add_piece p (written t) s = record s { result = t ++ s.result }
add_piece (literal c) (unknown n) s = s
add_piece (token raw) (unknown n) s = record s {
  result = braces raw ++ s.result;
  unknown_names = n ∷ s.unknown_names;
}
add_piece (literal c) (empty n) s = s
add_piece (token raw) (empty n) s = record s {
  result = braces raw ++ s.result;
  empty_names = n ∷ s.empty_names;
}

unfoldable pub substitute_all : DeviceForConfig → List TemplatePiece → Substitution
unfolding substitute
substitute_all d [] = record { result = []; unknown_names = []; empty_names = [] }
substitute_all d (p ∷ ps) = add_piece p (substitute d p) (substitute_all d ps)

pub data Outcome : Type 0 where
  silent : Outcome
  rendered : (path content mode : Text) → Outcome
  unknown_placeholders : List Text → Outcome
  empty_placeholders : List Text → Outcome
  not_json : Outcome

pub data TemplateResult : Type 0 where
  done : Text → TemplateResult
  refused_unknown : List Text → TemplateResult
  refused_empty : List Text → TemplateResult

abbrev verdict : Text → List Text → List Text → TemplateResult
verdict t [] [] = done t
verdict t [] (n ∷ ns) = refused_empty (n ∷ ns)
verdict t (n ∷ ns) _ = refused_unknown (n ∷ ns)

unfoldable pub render_template : Text → DeviceForConfig → TemplateResult
unfolding template_pieces substitute_all
render_template template d =
    let s = substitute_all d (template_pieces zero template) in
    verdict s.result s.unknown_names s.empty_names

abbrev checked : (Text → Bool) → Text → TemplateResult → Outcome
checked is_json path (done t) = if is_json t then rendered path t (text "0644") else not_json
checked is_json path (refused_unknown ns) = unknown_placeholders ns
checked is_json path (refused_empty ns) = empty_placeholders ns

abbrev is_given : Option Text → Bool
is_given none = false
is_given (some []) = false
is_given (some (c ∷ cs)) = true

abbrev or_nothing : Option Text → Text
or_nothing none = []
or_nothing (some t) = t

abbrev pub config_for : (Text → Bool) → DeviceForConfig → Option ConfigGroup → Outcome
config_for is_json d none = silent
config_for is_json d (some g) =
    if is_given g.mitm_config_path && is_given g.mitm_config
    then checked is_json (or_nothing g.mitm_config_path)
        (render_template (or_nothing g.mitm_config) d)
    else silent

unfoldable pub render_config : (is_json : Text → Bool) → DeviceForConfig → Outcome
unfolding render_template
render_config is_json d = config_for is_json d d.group
