-- ===== src/Bridge/Address/Parse.antt =====
-- How addresses are read as numbers (bridge-runtime/network-address-policy.mjs, ipv4Octets to
-- matchesIpv6Prefix).
use Prim.Native.Nat.{zero}
use implement_data_space_pro.Prelude.Strings.{
  decimal, hexadecimal, split_last, is_digit, hex_text, is_hex, split_double, split, Text,
}
use implement_data_space_pro.Prelude.{
  leb, ◌||◌, ◌==◌, any, true, zero, ◌++◌, ◌-◌, all, length, ◌&&◌, Bool, ◌+◌, none, suc,
  if◌then◌else◌, map, some, ◌^◌, List, ◌*◌, ◌/◌, Option, ◌%◌, ◌∷◌, [], ℕ,
}

pub record Octets : Type 0 where
  pub first : ℕ
  pub second : ℕ
  pub third : ℕ
  pub fourth : ℕ

-- One part of a dotted address: one to three digits, at most 255.
unfoldable pub octet : Text → Option ℕ
octet part =
    if all is_digit part && leb 1 (length part) && leb (length part) 3 && leb (decimal 0 part) 255
    then some (decimal 0 part)
    else none

unfoldable pub four : Option ℕ → Option ℕ → Option ℕ → Option ℕ → Option Octets
four (some a) (some b) (some c) (some d) =
    some (record { first = a; second = b; third = c; fourth = d })
four _ _ _ _ = none

unfoldable pub octets_of : List Text → Option Octets
octets_of (a ∷ b ∷ c ∷ d ∷ []) = four (octet a) (octet b) (octet c) (octet d)
octets_of _ = none

unfoldable pub ipv4_octets : Text → Option Octets
unfolding octet four octets_of
ipv4_octets host = octets_of (split 46 host)

-- `x >>> 0`
abbrev to_uint32 : ℕ → ℕ
to_uint32 x = x % 2 ^ 32

unfoldable pub ipv4_number : Octets → ℕ
ipv4_number o =
    let step = λ (value octet : ℕ). to_uint32 (value * 256 + octet) in
    step (step (step (step 0 o.first) o.second) o.third) o.fourth

-- `x & mask` for the mask with `bits` ones before `width - bits` zeros.
abbrev pub masked : ℕ → ℕ → ℕ → ℕ
masked width bits x = x / 2 ^ (width - bits) * 2 ^ (width - bits)

expanded : Text → Option (Text × Text) → Text
expanded normalized none = normalized
expanded normalized (some (before, after)) = written (ipv4_octets after)
  where
    written : Option Octets → Text
    written none = normalized
    written (some o) =
        before
        ++ 58 ∷ hex_text (o.first * 256 + o.second)
        ++ 58 ∷ hex_text (o.third * 256 + o.fourth)

unfoldable pub expand_embedded_ipv4 : Text → Text
unfolding expanded
expand_embedded_ipv4 normalized =
    if any (λ c. c == 46) normalized
    then expanded normalized (split_last 58 normalized)
    else normalized

abbrev pub hex_word : Text → Option ℕ
hex_word part =
    if all is_hex part && leb 1 (length part) && leb (length part) 4
    then some (hexadecimal 0 part)
    else none

-- `parse` of ipv6Words: the words of a section, where none stands for NaN.
unfoldable pub parse_section : Text → List (Option ℕ)
parse_section [] = []
parse_section (c ∷ s) = map hex_word (split 58 (c ∷ s))

unfoldable pub zeros : ℕ → List (Option ℕ)
zeros zero = []
zeros (suc n) = some 0 ∷ zeros n

-- `words.every(Number.isInteger) ? words : null`
unfoldable pub all_words : List (Option ℕ) → Option (List ℕ)
all_words [] = some []
all_words (w ∷ ws) = cons_word w (all_words ws)
  where
    cons_word : Option ℕ → Option (List ℕ) → Option (List ℕ)
    cons_word (some a) (some b) = some (a ∷ b)
    cons_word _ _ = none

-- The words of an address with one section, or with two around "::".
unfoldable pub words_of : List Text → Option (List ℕ)
unfolding parse_section all_words zeros
words_of (one ∷ []) =
    let head = parse_section one in if length head == 8 then all_words head else none
words_of (one ∷ two ∷ []) =
    let head = parse_section one in
    let tail = parse_section two in
    if leb (length head + length tail) 8
    then all_words (head ++ zeros (8 - (length head + length tail)) ++ tail)
    else none
words_of _ = none

unfoldable pub ipv6_words : Text → Option (List ℕ)
unfolding words_of
ipv6_words value = words_of (split_double 58 (expand_embedded_ipv4 value))

-- `list[index]`; undefined, which masks to 0, does not occur within eight words.
unfoldable pub word_at : ℕ → List ℕ → ℕ
word_at n [] = 0
word_at zero (w ∷ ws) = w
word_at (suc n) (w ∷ ws) = word_at n ws

same_words : ℕ → List ℕ → List ℕ → Bool
unfolding word_at
same_words zero words prefix = true
same_words (suc n) words prefix = same_words n words prefix && word_at n words == word_at n prefix

unfoldable pub matches_ipv6_prefix : List ℕ → List ℕ → ℕ → Bool
unfolding same_words
matches_ipv6_prefix words prefix bits =
    let full_words = bits / 16 in
    let remaining_bits = bits % 16 in
    same_words full_words words prefix
    && (remaining_bits == 0
        || masked 16 remaining_bits (word_at full_words words)
          == masked 16 remaining_bits (word_at full_words prefix))
