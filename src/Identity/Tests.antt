-- ===== src/Identity/Tests.antt =====
-- The theorems on the strict JSON parser (identity/strict-json.mjs) at a small text.
use implement_data_space_pro.Identity.StrictJson.Fuel.{parse_strict_json_returns}
use implement_data_space_pro.Identity.StrictJson.Strict.{parse_strict_json-strict, strict}
use implement_data_space_pro.Identity.StrictJson.{
  after_item, after_member, key_at, value_at, known_key, checked_number, literal, expect, minus,
  whole, sign, no_members, exponent, json_null, fraction, no_items, json_bool, number,
  identity_json_duplicate_key, scalar, json_number, item, identity_json_invalid, whitespace,
  scan_string, json_array, string, member, value, json_object, Json, parse_strict_json,
}
use implement_data_space_pro.Prelude.Strings.{after_literal, digits, text_eq, code_units, Text}
use implement_data_space_pro.Prelude.{refl, err, ◌⊎◌, true, ◌≡◌, Bool, ok}

abbrev sample : Text
sample = code_units "{\"a\": [1, true], \"b\": null}"

-- The literal without its quotes and with its escapes as they stand.
abbrev raw : Text → Text
raw s = s

abbrev any_number : Text → Bool
any_number _ = true

abbrev parsed_sample : Json
parsed_sample = json_object (
    member (code_units "a")
      (json_array (item (json_number (code_units "1")) (item (json_bool true) no_items)))
      (member (code_units "b") json_null no_members))

sample-parsed : parse_strict_json raw any_number 2 100 sample ≡ ok parsed_sample
unfolding parse_strict_json value string scan_string whitespace scalar number digits fraction
    exponent sign whole minus expect literal after_literal checked_number known_key text_eq value_at
    key_at after_member after_item
sample-parsed = refl

parse_strict_json-strict_example : strict 2 0 parsed_sample ≡ true
parse_strict_json-strict_example =
    parse_strict_json-strict raw any_number 2 100 sample parsed_sample sample-parsed

parse_strict_json_returns_example :
    let parsed = parse_strict_json raw any_number 2 100 sample in
    ((v : Json) × (parsed ≡ ok v))
    ⊎ (parsed ≡ err identity_json_invalid)
    ⊎ (parsed ≡ err identity_json_duplicate_key)
parse_strict_json_returns_example = parse_strict_json_returns raw any_number 2 100 sample
