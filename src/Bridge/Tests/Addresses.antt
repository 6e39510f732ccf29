-- ===== src/Bridge/Tests/Addresses.antt =====
-- The theorems on network addresses (bridge-runtime/network-address-policy.mjs) at a small policy.
use implement_data_space_pro.Bridge.Address.Number.{ipv4_number-exact}
use Prim.Native.Char.{code}
use implement_data_space_pro.Bridge.Address.Dotted.{embedded-octets, classify_ipv6_embedded}
use implement_data_space_pro.Bridge.Address.Longest.{classify_ipv4-IsLongest, IsLongest}
use implement_data_space_pro.Bridge.Address.Parse.{
  word_at, zeros, all_words, parse_section, words_of, octet, matches_ipv6_prefix, ipv4_number,
  ipv4_octets, expand_embedded_ipv4, ipv6_words, Octets,
}
use implement_data_space_pro.Bridge.Address.{
  embedded, more_specific, classification, ipv6_rule, ipv4_rule, rules_of, classify_ipv4, private,
  forbidden, public, covers_words, Row, classify_ipv6, Rule, load_tables, Tables, covers, find_rule,
  Policy, Class,
}
use implement_data_space_pro.Prelude.Strings.{
  to_number, hexadecimal, onto_first, split_double, hex_text, decimal, split, split_last,
  to_lower_case, Text,
}
use implement_data_space_pro.Prelude.{
  arith, ◌%◌, ◌/◌, ◌<◌, insert_sorted, sort_by, ◌⊎◌, ◌==◌, refl, any, some, true, false, ◌≡◌,
  if◌then◌else◌, Bool, List, ◌∷◌, [], ok, ℕ, String,
}

abbrev text : String → Text
text String.[] = []
text (String.◌∷◌ c s) = code c ∷ text s

abbrev row : String → String → Bool → Bool → Row
row prefix name reachable embeds = record {
  prefix = text prefix;
  name = name;
  globally_reachable = reachable;
  embedded_ipv4_policy = embeds;
}

abbrev policy : Policy
policy = record {
  ipv4_special = row "10.0.0.0/8" "Private-Use" false false ∷ [];
  ipv6_special = row "64:FF9B::/96" "IPv4-IPv6 Translat." true true ∷ [];
  ipv6_global_allocated = row "2000::/3" "Global" false false ∷ [];
  ipv4_non_global = row "10.1.0.0/16" "Lab" false false ∷ [];
  ipv6_non_global = [];
}

-- A colon tells the families apart.
abbrev family : Text → ℕ
family s = if any (λ c. c == 58) s then 6 else 4

abbrev ipv4_rule_at : ℕ → ℕ → Class → Rule ℕ
ipv4_rule_at prefix bits class = record {
  bits = bits;
  class = class;
  embedded_ipv4_policy = false;
  prefix = prefix;
}

abbrev translation : Rule (List ℕ)
translation = record {
  bits = 96;
  class = public;
  embedded_ipv4_policy = true;
  prefix = 100 ∷ 65435 ∷ 0 ∷ 0 ∷ 0 ∷ 0 ∷ 0 ∷ 0 ∷ [];
}

abbrev tables : Tables
tables = record {
  ipv4_rules = ipv4_rule_at 167837696 16 forbidden ∷ ipv4_rule_at 167772160 8 private ∷ [];
  ipv6_rules = translation ∷ [];
  ipv6_allocations =
      record {
        bits = 3;
        class = public;
        embedded_ipv4_policy = false;
        prefix = 8192 ∷ 0 ∷ 0 ∷ 0 ∷ 0 ∷ 0 ∷ 0 ∷ 0 ∷ [];
      }
      ∷ [];
}

policy-load : load_tables family policy ≡ ok tables
unfolding load_tables rules_of ipv4_rule ipv6_rule ipv4_octets ipv4_number octet split onto_first
    split_last decimal to_number classification ipv6_words words_of parse_section hexadecimal
    split_double to_lower_case all_words zeros expand_embedded_ipv4 sort_by insert_sorted
    more_specific
policy-load = refl

abbrev lab : Octets
lab = record { first = 10; second = 1; third = 2; fourth = 3 }

lab-octets : ipv4_octets (text "10.1.2.3") ≡ some lab
unfolding ipv4_octets split decimal
lab-octets = refl

classify_ipv4-IsLongest_example :
    let p = covers (ipv4_number lab) in
    ((r : Rule ℕ) × IsLongest p tables.ipv4_rules r
      × (classify_ipv4 tables (text "10.1.2.3") ≡ r.class))
    ⊎ ((any p tables.ipv4_rules ≡ false) × (classify_ipv4 tables (text "10.1.2.3") ≡ public))
classify_ipv4-IsLongest_example =
    classify_ipv4-IsLongest family policy tables (text "10.1.2.3") lab policy-load lab-octets

abbrev mixed : Text
mixed = text "64:ff9b::10.1.2.3"

abbrev mixed_words : List ℕ
mixed_words = 100 ∷ 65435 ∷ 0 ∷ 0 ∷ 0 ∷ 0 ∷ 2561 ∷ 515 ∷ []

mixed-family : family (expand_embedded_ipv4 (to_lower_case mixed)) ≡ 6
unfolding expand_embedded_ipv4 to_lower_case split_last ipv4_octets split decimal hex_text
mixed-family = refl

mixed-words : ipv6_words (expand_embedded_ipv4 (to_lower_case mixed)) ≡ some mixed_words
unfolding ipv6_words expand_embedded_ipv4 to_lower_case split_last ipv4_octets split decimal
    hex_text split_double hexadecimal
mixed-words = refl

mixed-rule : find_rule (covers_words mixed_words) tables.ipv6_rules ≡ some translation
unfolding find_rule matches_ipv6_prefix
mixed-rule = refl

classify_ipv6_embedded_example :
    classify_ipv6 tables family mixed ≡ classify_ipv4 tables (text "10.1.2.3")
unfolding word_at
classify_ipv6_embedded_example =
    classify_ipv6_embedded tables family mixed (text "10.1.2.3") mixed_words translation
      mixed-family mixed-words mixed-rule refl lab-octets

embedded-octets_example :
    ipv4_octets (embedded tables mixed_words)
    ≡ some (record {
      first = word_at 6 mixed_words / 256;
      second = word_at 6 mixed_words % 256;
      third = word_at 7 mixed_words / 256;
      fourth = word_at 7 mixed_words % 256;
    })
unfolding word_at
embedded-octets_example = embedded-octets tables mixed_words (omega arith) (omega arith)

ipv4_number-exact_example :
    (ipv4_number lab ≡ 167838211)
    × (ipv4_number lab < 4294967296)
    × (10 < 256)
    × (1 < 256)
    × (2 < 256)
    × (3 < 256)
ipv4_number-exact_example = ipv4_number-exact (text "10.1.2.3") lab lab-octets
