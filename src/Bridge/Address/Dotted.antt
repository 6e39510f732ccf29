-- ===== src/Bridge/Address/Dotted.antt =====
-- An IPv6 address that embeds an IPv4 address has its class (bridge-runtime/network-address-policy.mjs,
-- classifyIpv6).
use Prim.Native.Nat.{zero}
use implement_data_space_pro.Bridge.Address.{
  covers_words, find_rule, Rule, classify_ipv4, class_of_rule, class_of_words, classify_ipv6,
  Tables, embedded,
}
use implement_data_space_pro.Bridge.Address.Parse.{
  expand_embedded_ipv4, ipv6_words, hex_word, words_of, parse_section, all_words, zeros, word_at,
  ipv4_octets, octet, Octets,
}
use implement_data_space_pro.Prelude.Strings.{
  hex_value, is_hex, split_double, to_lower_case, hexadecimal, dot, Text, onto_first, decimal,
  decimal_text, split,
}
use implement_data_space_pro.Prelude.{
  ◌≤◌, ◌*◌, all-append, ◌+◌, inr, zero, inl, length, Option-cases, ◌-◌, map, suc, none, Option, all,
  ◌%◌, ◌/◌, ◌^◌, List, ap, ◌∙◌, ◌&&◌, ltb, some, ◌<◌, true, Bool, refl, ◌++◌, arith, false, ◌≡◌,
  ◌==◌, any, ◌∷◌, [], ℕ,
}

-- A piece without the mark is split off whole.
split-append :
    (mark : ℕ) (piece rest : Text)
    → any (λ c. c == mark) piece ≡ false
    → split mark (piece ++ (mark ∷ rest)) ≡ piece ∷ split mark rest
unfolding split onto_first
split-append mark [] rest h = ground arith
split-append mark (c ∷ piece) rest h = ground (arith, split-append mark piece rest)

split_whole :
    (mark : ℕ) (piece : Text) → any (λ c. c == mark) piece ≡ false → split mark piece ≡ piece ∷ []
unfolding split onto_first
split_whole mark [] h = refl
split_whole mark (c ∷ piece) h = ground (arith, split_whole mark piece)

decimal_text-unmarked : (n : ℕ) → any (λ c. c == 46) (decimal_text n) ≡ false
unfolding decimal_text
decimal_text-unmarked n = ground arith

-- The decimal digits of an octet are read back.
octet-decimal_text : (n : ℕ) → n < 256 → octet (decimal_text n) ≡ some n
unfolding decimal_text decimal octet
octet-decimal_text n h = ground arith

abbrev dotted : Octets → Text
dotted o =
    dot (decimal_text o.first)
      (dot (decimal_text o.second) (dot (decimal_text o.third) (decimal_text o.fourth)))

abbrev are_octets : Octets → Bool
are_octets o = ltb o.first 256 && ltb o.second 256 && ltb o.third 256 && ltb o.fourth 256

split-dotted :
    (a b c d : ℕ)
    → split 46 (dotted (record { first = a; second = b; third = c; fourth = d }))
      ≡ decimal_text a ∷ decimal_text b ∷ decimal_text c ∷ decimal_text d ∷ []
split-dotted a b c d =
    let A = decimal_text a in
    let B = decimal_text b in
    let C = decimal_text c in
    let D = decimal_text d in
    split-append 46 A (dot B (dot C D)) (decimal_text-unmarked a)
    ∙ ap (λ r. A ∷ r)
        (split-append 46 B (dot C D) (decimal_text-unmarked b)
          ∙ ap (λ r. B ∷ r)
              (split-append 46 C D (decimal_text-unmarked c)
                ∙ ap (λ r. C ∷ r) (split_whole 46 D (decimal_text-unmarked d))))

-- Four octets that are written with dots are read back.
pub ipv4_octets-dotted : (o : Octets) → are_octets o ≡ true → ipv4_octets (dotted o) ≡ some o
unfolding ipv4_octets
ipv4_octets-dotted o h = cc (
  split-dotted o.first o.second o.third o.fourth,
  octet-decimal_text o.first (ground arith),
  octet-decimal_text o.second (ground arith),
  octet-decimal_text o.third (ground arith),
  octet-decimal_text o.fourth (ground arith),
)

-- The last 32 bits of an address.
abbrev last_octets : List ℕ → Octets
last_octets words = record {
  first = word_at 6 words / 256;
  second = word_at 6 words % 256;
  third = word_at 7 words / 256;
  fourth = word_at 7 words % 256;
}

-- The dotted text that is made of the last two words of an address is read back as their four octets,
-- if split_and are below 2^16.
pub embedded-octets :
    (tables : Tables) (words : List ℕ)
    → word_at 6 words < 2 ^ 16
    → word_at 7 words < 2 ^ 16
    → ipv4_octets (embedded tables words) ≡ some (last_octets words)
unfolding embedded
embedded-octets tables words h l = ipv4_octets-dotted (last_octets words) (ground arith)

abbrev is_word : ℕ → Bool
is_word w = ltb w (2 ^ 16)

abbrev word_or_nan : Option ℕ → Bool
word_or_nan none = true
word_or_nan (some w) = is_word w

-- What a number below `m` stays below when the digits are put behind it.
abbrev room : ℕ → Text → ℕ
room m [] = m
room m (c ∷ s) = room (m * 16) s

hex_value-bound : (c : ℕ) → is_hex c ≡ true → hex_value c < 16
hex_value-bound c h = ground arith

hexadecimal-bound : (m n : ℕ) (s : Text) → all is_hex s ≡ true → n < m → hexadecimal n s < room m s
unfolding hexadecimal
hexadecimal-bound m n [] h l = l
hexadecimal-bound m n (c ∷ s) h l =
    let (head, rest) = split_and (is_hex c) (all is_hex s) h in
    let v : hex_value c < 16 = hex_value-bound c head in
    hexadecimal-bound (m * 16) (n * 16 + hex_value c) s rest (omega (arith, v, l))
  where
    split_and : (a b : Bool) → (a && b) ≡ true → (a ≡ true) × (b ≡ true)
    split_and a b e = ground arith

room-length : (s : Text) → length s ≤ 4 → room 1 s ≤ 2 ^ 16
room-length [] h = omega arith
room-length (a ∷ []) h = omega arith
room-length (a ∷ b ∷ []) h = omega arith
room-length (a ∷ b ∷ c ∷ []) h = omega arith
room-length (a ∷ b ∷ c ∷ d ∷ []) h = omega arith
room-length (a ∷ b ∷ c ∷ d ∷ e ∷ s) h = omega arith

hex_word-fits : (part : Text) → word_or_nan (hex_word part) ≡ true
hex_word-fits part =
    let bound : all is_hex part ≡ true → hexadecimal 0 part < room 1 part =
      λ h. hexadecimal-bound 1 0 part h (omega arith) in
    let small : length part ≤ 4 → room 1 part ≤ 2 ^ 16 = room-length part in
    ground (arith, bound, small)

all-hex_word : (parts : List Text) → all word_or_nan (map hex_word parts) ≡ true
all-hex_word [] = refl
all-hex_word (part ∷ parts) = ground (arith, hex_word-fits part, all-hex_word parts)

parse_section-fits : (s : Text) → all word_or_nan (parse_section s) ≡ true
unfolding parse_section
parse_section-fits [] = refl
parse_section-fits (c ∷ s) = all-hex_word (split 58 (c ∷ s))

zeros-fit : (n : ℕ) → all word_or_nan (zeros n) ≡ true
unfolding zeros
zeros-fit zero = refl
zeros-fit (suc n) = zeros-fit n

all_words-fit :
    (found : List (Option ℕ)) (words : List ℕ)
    → all word_or_nan found ≡ true
    → all_words found ≡ some words
    → all is_word words ≡ true
unfolding all_words
all_words-fit [] words h e = ground (arith)
all_words-fit (none ∷ found) words h e = ground arith
all_words-fit (some w ∷ found) words h e = elim (Option-cases (all_words found)) [
  | inl missing ↦ ground (arith, missing)
  | inr (rest, there) ↦ ground (arith, there, all_words-fit found rest)
]

words_of-fit :
    (sections : List Text) (words : List ℕ)
    → words_of sections ≡ some words
    → all is_word words ≡ true
unfolding words_of
words_of-fit [] words e = ground arith
words_of-fit (one ∷ []) words e =
    all_words-fit (parse_section one) words (parse_section-fits one) (ground arith)
words_of-fit (one ∷ two ∷ []) words e =
    let head = parse_section one in
    let tail = parse_section two in
    let n = 8 - (length head + length tail) in
    all_words-fit (head ++ zeros n ++ tail) words
      (ground (
        arith,
        all-append word_or_nan head (zeros n),
        all-append word_or_nan (head ++ zeros n) tail,
        parse_section-fits one,
        parse_section-fits two,
        zeros-fit n,
      ))
      (ground arith)
words_of-fit (one ∷ two ∷ three ∷ sections) words e = ground arith

word_at-fits : (n : ℕ) (words : List ℕ) → all is_word words ≡ true → word_at n words < 2 ^ 16
unfolding word_at
word_at-fits n [] h = omega arith
word_at-fits zero (w ∷ words) h = ground arith
word_at-fits (suc n) (w ∷ words) h = word_at-fits n words (ground arith)

-- An address with the words `words`, the first rule for which has an embedded IPv4 policy, has the
-- class of an IPv4 address that says its last 32 bits.
pub classify_ipv6_embedded :
    (tables : Tables) (is_ip : Text → ℕ) (address v4 : Text) (words : List ℕ) (r : Rule (List ℕ))
    → is_ip (expand_embedded_ipv4 (to_lower_case address)) ≡ 6
    → ipv6_words (expand_embedded_ipv4 (to_lower_case address)) ≡ some words
    → find_rule (covers_words words) tables.ipv6_rules ≡ some r
    → r.embedded_ipv4_policy ≡ true
    → ipv4_octets v4 ≡ some (last_octets words)
    → classify_ipv6 tables is_ip address ≡ classify_ipv4 tables v4
unfolding classify_ipv6 class_of_words class_of_rule classify_ipv4 ipv6_words
classify_ipv6_embedded tables is_ip address v4 words r six there found policy same =
    let text = expand_embedded_ipv4 (to_lower_case address) in
    let fit = words_of-fit (split_double 58 (expand_embedded_ipv4 text)) words there in
    let octets =
      embedded-octets tables words (word_at-fits 6 words fit) (word_at-fits 7 words fit) in
    ground (arith, octets)
