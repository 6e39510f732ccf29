-- ===== src/Bridge/Address/Number.antt =====
-- The number of an IPv4 address (bridge-runtime/network-address-policy.mjs, ipv4Number).
use implement_data_space_pro.Prelude.Strings.{split, Text}
use implement_data_space_pro.Bridge.Address.Parse.{
  ipv4_octets, octet, octets_of, ipv4_number, Octets, four,
}
use implement_data_space_pro.Prelude.{
  ◌^◌, refl, ◌+◌, none, ◌*◌, arith, some, ◌≡◌, ◌<◌, Option, List, ◌∷◌, [], ℕ,
}

octet-bound : (part : Text) (n : ℕ) → octet part ≡ some n → n < 256
unfolding octet
octet-bound part n h = ground arith

abbrev IsSmall : Octets → Type 0
IsSmall o = (o.first < 256) × (o.second < 256) × (o.third < 256) × (o.fourth < 256)

four-IsSmall :
    (a b c d : Option ℕ) (o : Octets)
    → ((n : ℕ) → a ≡ some n → n < 256)
    → ((n : ℕ) → b ≡ some n → n < 256)
    → ((n : ℕ) → c ≡ some n → n < 256)
    → ((n : ℕ) → d ≡ some n → n < 256)
    → four a b c d ≡ some o
    → IsSmall o
unfolding four
four-IsSmall (some a) (some b) (some c) (some d) o pa pb pc pd h =
    let ha = pa a refl in
    let hb = pb b refl in
    let hc = pc c refl in
    let hd = pd d refl in (ground arith, ground arith, ground arith, ground arith)
four-IsSmall none b c d o pa pb pc pd h = ground arith
four-IsSmall (some a) none c d o pa pb pc pd h = ground arith
four-IsSmall (some a) (some b) none d o pa pb pc pd h = ground arith
four-IsSmall (some a) (some b) (some c) none o pa pb pc pd h = ground arith

octets_of-IsSmall : (parts : List Text) (o : Octets) → octets_of parts ≡ some o → IsSmall o
unfolding octets_of
octets_of-IsSmall (a ∷ b ∷ c ∷ d ∷ []) o h =
    four-IsSmall (octet a) (octet b) (octet c) (octet d) o (octet-bound a) (octet-bound b)
      (octet-bound c) (octet-bound d) h
octets_of-IsSmall [] o h = ground arith
octets_of-IsSmall (a ∷ []) o h = ground arith
octets_of-IsSmall (a ∷ b ∷ []) o h = ground arith
octets_of-IsSmall (a ∷ b ∷ c ∷ []) o h = ground arith
octets_of-IsSmall (a ∷ b ∷ c ∷ d ∷ e ∷ parts) o h = ground arith

-- The octets of a text are below 256, and their number is what they say in base 256, below 2^32: the
-- unsigned shifts never cut it off.
pub ipv4_number-exact :
    (host : Text) (o : Octets)
    → ipv4_octets host ≡ some o
    → (ipv4_number o ≡ ((o.first * 256 + o.second) * 256 + o.third) * 256 + o.fourth)
      × (ipv4_number o < 2 ^ 32)
      × (o.first < 256)
      × (o.second < 256)
      × (o.third < 256)
      × (o.fourth < 256)
unfolding ipv4_number ipv4_octets
ipv4_number-exact host o h =
    let (a, b, c, d) = octets_of-IsSmall (split 46 host) o h in
    (omega (arith, a, b, c, d), omega (arith, a, b, c, d), a, b, c, d)
