-- ===== src/Bridge/Address.antt =====
-- The class of a network address (bridge-runtime/network-address-policy.mjs). A text is the list of
-- its UTF-16 code units. The rows of the generated IANA policy and node's isIP are arguments.
pub mod Longest
pub mod Dotted
pub mod Number
pub mod Parse
use implement_data_space_pro.Bridge.Address.Parse.{
  word_at, ipv4_number, masked, Octets, matches_ipv6_prefix, ipv4_octets, expand_embedded_ipv4,
  ipv6_words,
}
use mathlib.Core.Option
use Prim.Native.Nat.{zero}
use implement_data_space_pro.Prelude.Strings.{
  dot, hex_text, hexadecimal, is_hex, split_last, decimal_text, to_lower_case, to_number,
  split_double, decimal, is_digit, split, Text,
}
use implement_data_space_pro.Prelude.{
  sort_by, zero, false, true, ltb, ◌>>=◌, err, map, ◌++◌, suc, Throws, any, ◌==◌, ◌∷◌, [], none,
  some, length, leb, ◌&&◌, ◌-◌, ◌||◌, all, ◌^◌, str_eq, ◌+◌, Option, Bool, ◌/◌, ◌%◌, List, ◌*◌,
  if◌then◌else◌, ok, ℕ, String,
}

pub data Class : Type 0 where
  public private forbidden : Class

pub record Row : Type 0 where
  pub prefix : Text
  pub name : String
  pub globally_reachable : Bool
  pub embedded_ipv4_policy : Bool

unfoldable pub classification : Row → Class
classification row =
    if row.globally_reachable
    then public
    else if str_eq row.name "Private-Use" || str_eq row.name "Unique-Local"
    then private
    else forbidden

pub record Rule (P : Type 0) : Type 0 where
  pub bits : ℕ
  pub class : Class
  pub embedded_ipv4_policy : Bool
  pub prefix : P

-- What is thrown while the policy is loaded.
pub data LoadError : Type 0 where
  invalid_iana_network_policy : LoadError

abbrev LoadResult : Type 0 → Type 0
LoadResult A = Throws LoadError A

checked_rule : {P : Type 0} → Row → ℕ → Option ℕ → Option P → LoadResult (Rule P)
checked_rule row width (some bits) (some prefix) =
    if leb bits width
    then ok (record {
      bits = bits;
      class = classification row;
      embedded_ipv4_policy = row.embedded_ipv4_policy;
      prefix = prefix;
    })
    else err invalid_iana_network_policy
checked_rule row width _ _ = err invalid_iana_network_policy

-- `const [host, bitsText] = row.prefix.split("/")`; further parts are dropped.
ipv4_rule_of : Row → List Text → LoadResult (Rule ℕ)
unfolding checked_rule
ipv4_rule_of row (host ∷ bits_text ∷ _) =
    let bits = to_number bits_text in
    checked_rule row 32 bits
      (Option.map (λ o. masked 32 (bits_or_zero bits) (ipv4_number o)) (ipv4_octets host))
  where
    bits_or_zero : Option ℕ → ℕ
    bits_or_zero none = 0
    bits_or_zero (some b) = b
ipv4_rule_of row _ = err invalid_iana_network_policy

unfoldable pub ipv4_rule : Row → LoadResult (Rule ℕ)
unfolding ipv4_rule_of
ipv4_rule row = ipv4_rule_of row (split 47 row.prefix)

-- `isIP(host) !== 6` is checked with the rest.
ipv6_rule_of : (Text → ℕ) → Row → Option (Text × Text) → LoadResult (Rule (List ℕ))
unfolding checked_rule
ipv6_rule_of is_ip row none = err invalid_iana_network_policy
ipv6_rule_of is_ip row (some (before, after)) =
    let host = to_lower_case before in
    if is_ip host == 6
    then checked_rule row 128 (to_number after) (ipv6_words host)
    else err invalid_iana_network_policy

unfoldable pub ipv6_rule : (Text → ℕ) → Row → LoadResult (Rule (List ℕ))
unfolding ipv6_rule_of
ipv6_rule is_ip row = ipv6_rule_of is_ip row (split_last 47 row.prefix)

-- The rules of some rows, the first failure being thrown.
unfoldable pub rules_of :
    {P : Type 0} → (Row → LoadResult (Rule P)) → List Row → LoadResult (List (Rule P))
rules_of rule [] = ok []
rules_of rule (row ∷ rows) =
    let rest = rules_of rule rows in rule row >>= λ r. (rest >>= λ rs. ok (r ∷ rs))

-- `(left, right) => right.bits - left.bits`
unfoldable pub more_specific : {P : Type 0} → Rule P → Rule P → Bool
more_specific a b = ltb b.bits a.bits

pub record Policy : Type 0 where
  pub ipv4_special : List Row
  pub ipv6_special : List Row
  pub ipv6_global_allocated : List Row
  pub ipv4_non_global : List Row
  pub ipv6_non_global : List Row

abbrev pub reachable : Bool → Row → Row
reachable b row = record row { globally_reachable = b }

-- The three tables that the module keeps.
pub record Tables : Type 0 where
  pub ipv4_rules : List (Rule ℕ)
  pub ipv6_rules : List (Rule (List ℕ))
  pub ipv6_allocations : List (Rule (List ℕ))

unfoldable pub load_tables : (Text → ℕ) → Policy → LoadResult Tables
unfolding rules_of
load_tables is_ip policy = do
  ipv4_rules ←
      rules_of ipv4_rule (policy.ipv4_special ++ map (reachable false) policy.ipv4_non_global)
  ipv6_rules ←
      rules_of (ipv6_rule is_ip)
        (policy.ipv6_special ++ map (reachable false) policy.ipv6_non_global)
  allocations ← rules_of (ipv6_rule is_ip) (map (reachable true) policy.ipv6_global_allocated)
  ok (record {
    ipv4_rules = sort_by more_specific ipv4_rules;
    ipv6_rules = sort_by more_specific ipv6_rules;
    ipv6_allocations = sort_by more_specific allocations;
  })

unfoldable pub find_rule : {P : Type 0} → (Rule P → Bool) → List (Rule P) → Option (Rule P)
find_rule p [] = none
find_rule p (r ∷ rules) = let rest = find_rule p rules in if p r then some r else rest

abbrev pub covers : ℕ → Rule ℕ → Bool
covers numeric rule = masked 32 rule.bits numeric == rule.prefix

abbrev pub covers_words : List ℕ → Rule (List ℕ) → Bool
covers_words words rule = matches_ipv6_prefix words rule.prefix rule.bits

class_or_public : Option (Rule ℕ) → Class
class_or_public none = public
class_or_public (some rule) = rule.class

module _ (tables : Tables) where
  unfoldable pub class_of_octets : Option Octets → Class
  unfolding class_or_public
  class_of_octets none = forbidden
  class_of_octets (some o) = class_or_public (find_rule (covers (ipv4_number o)) tables.ipv4_rules)

  unfoldable pub classify_ipv4 : Text → Class
  unfolding class_of_octets
  classify_ipv4 address = class_of_octets (ipv4_octets address)

  -- The dotted form of the last two words.
  unfoldable pub embedded : List ℕ → Text
  unfolding word_at
  embedded words =
      let high = word_at 6 words in
      let low = word_at 7 words in
      dot (decimal_text (high / 256)) (
        dot (decimal_text (high % 256)) (dot (decimal_text (low / 256)) (decimal_text (low % 256))))

  unfoldable pub class_of_rule : List ℕ → Option (Rule (List ℕ)) → Class
  unfolding embedded classify_ipv4
  class_of_rule words none =
      if any (covers_words words) tables.ipv6_allocations then public else forbidden
  class_of_rule words (some rule) =
      if rule.embedded_ipv4_policy then classify_ipv4 (embedded words) else rule.class

  unfoldable pub class_of_words : Option (List ℕ) → Class
  unfolding class_of_rule
  class_of_words none = forbidden
  class_of_words (some words) =
      class_of_rule words (find_rule (covers_words words) tables.ipv6_rules)

  unfoldable pub classify_ipv6 : (Text → ℕ) → Text → Class
  unfolding class_of_words
  classify_ipv6 is_ip address =
      let normalized = expand_embedded_ipv4 (to_lower_case address) in
      if is_ip normalized == 6 then class_of_words (ipv6_words normalized) else forbidden

-- `address.replace(/^\[|\]$/gu, "")`
without_open : Text → Text
without_open [] = []
without_open (c ∷ s) = if c == 91 then s else c ∷ s

without_close : Text → Text
without_close [] = []
without_close (c ∷ []) = if c == 93 then [] else c ∷ []
without_close (c ∷ e ∷ s) = c ∷ without_close (e ∷ s)

unfoldable pub classify_network_address : Tables → (Text → ℕ) → Text → Class
unfolding without_open without_close
classify_network_address tables is_ip address =
    let normalized = to_lower_case (without_close (without_open address)) in
    if is_ip normalized == 4
    then classify_ipv4 tables normalized
    else if is_ip normalized == 6
    then classify_ipv6 tables is_ip normalized
    else forbidden
