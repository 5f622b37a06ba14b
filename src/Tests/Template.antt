-- ===== src/Tests/Template.antt =====
-- A config for a box whose name holds a quote, and a name that no box has.
use magnemite.Prelude.{◌≡◌, refl, true, none, some, [], ◌∷◌, is_space}
use magnemite.Template.{
  Text, text, ConfigGroup, DeviceForConfig, placeholders, lookup, equal_texts, until_close,
  token_at, template_pieces, drop_spaces, escape_one, escape_for_json_string, substitute,
  substitute_all, render_template, render_config, rendered, unknown_placeholders,
}
use magnemite.Template.Escape.{plain, read_json_string, read-escape}
use magnemite.Template.Pieces.{Cuts}
use magnemite.Template.Rendering.{IsFilled, spelled, render_config_lem}

abbrev site : Text → ConfigGroup
site template = record {
  name = text "north";
  mitm_package_name = none;
  mitm_config_path = some (text "/data/local/aegis.json");
  mitm_config = some template;
}

abbrev box : Text → DeviceForConfig
box template = record {
  id = text "d1";
  name = text "a\"b";
  serial = text "AB12";
  model = none;
  manufacturer = none;
  android_version = none;
  abi = none;
  local_ip = none;
  public_ip = none;
  rotom_origin = none;
  rotom_device_id = none;
  group = some (site template);
}

abbrev named : Text
named = text "{\"n\":\"{{ device.name }}\"}"

abbrev config : Text
config = text "{\"n\":\"a\\\"b\"}"

named-rendered :
    render_config (λ t. true) (box named)
    ≡ rendered (text "/data/local/aegis.json") config (text "0644")
unfolding render_config render_template template_pieces token_at until_close substitute_all
    substitute lookup equal_texts placeholders drop_spaces is_space escape_for_json_string
    escape_one
named-rendered = refl

render_config_lem_example :
    ((site named).mitm_config_path ≡ some (text "/data/local/aegis.json"))
    × (true ≡ true)
    × Cuts named (template_pieces 0 named)
    × IsFilled (box named) (template_pieces 0 named)
    × (config ≡ spelled (box named) (template_pieces 0 named))
render_config_lem_example =
    render_config_lem (λ t. true) (box named) (site named) (text "/data/local/aegis.json") config
      (text "0644") refl named-rendered

unknown_name :
    render_config (λ t. true) (box (text "{{device.nmae}}"))
    ≡ unknown_placeholders (text "device.nmae" ∷ [])
unfolding render_config render_template template_pieces token_at until_close substitute_all
    substitute lookup equal_texts placeholders drop_spaces is_space
unknown_name = refl

read-escape_example :
    read_json_string plain (escape_for_json_string (34 ∷ 92 ∷ 10 ∷ 1 ∷ 65 ∷ []))
    ≡ some (34 ∷ 92 ∷ 10 ∷ 1 ∷ 65 ∷ [])
read-escape_example = read-escape (34 ∷ 92 ∷ 10 ∷ 1 ∷ 65 ∷ [])
