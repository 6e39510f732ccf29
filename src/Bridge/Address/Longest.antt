-- ===== src/Bridge/Address/Longest.antt =====
-- The class of an IPv4 address is that of its longest prefix
-- (bridge-runtime/network-address-policy.mjs, classifyIpv4).
use implement_data_space_pro.Bridge.Address.Parse.{ipv4_number, ipv4_octets, Octets}
use implement_data_space_pro.Prelude.Strings.{Text}
use implement_data_space_pro.Bridge.Address.{
  ipv6_rule, reachable, ipv4_rule, rules_of, public, covers, Tables, Policy, more_specific, Rule,
  classify_ipv4, find_rule, load_tables,
}
use implement_data_space_pro.Prelude.{
  Among, map, ◌++◌, Bool-cases, inr, inl, Option-cases, ok-injective, subst, refl, false, >>=-ok,
  ◌||◌, all-insert_sorted, arith, any, ◌&&◌, some, not, ◌⊎◌, leb, all, true, none, Bool, ◌≤◌, ◌≡◌,
  insert_sorted, List, sort_by, ◌∷◌, [], ok, ℕ,
}

module _ {P : Type 0} where
  abbrev no_longer : Rule P → Rule P → Bool
  no_longer r other = leb other.bits r.bits

  -- A table whose longer prefixes come first.
  descending : List (Rule P) → Bool
  descending [] = true
  descending (r ∷ rules) = all (no_longer r) rules && descending rules

  all-no_longer :
      (r s : Rule P) (rules : List (Rule P))
      → r.bits ≤ s.bits
      → all (no_longer r) rules ≡ true
      → all (no_longer s) rules ≡ true
  all-no_longer r s [] h a = refl
  all-no_longer r s (x ∷ rules) h a = ground (arith, all-no_longer r s rules h)

  insert_sorted-descending :
      (r : Rule P) (rules : List (Rule P))
      → descending rules ≡ true
      → descending (insert_sorted more_specific r rules) ≡ true
  unfolding descending insert_sorted more_specific
  insert_sorted-descending r [] h = refl
  insert_sorted-descending r (x ∷ rules) h = ground (
    arith,
    insert_sorted-descending r rules,
    all-insert_sorted more_specific (no_longer x) r rules,
    all-no_longer x r rules,
  )

  sort_by-descending : (rules : List (Rule P)) → descending (sort_by more_specific rules) ≡ true
  unfolding sort_by descending
  sort_by-descending [] = refl
  sort_by-descending (r ∷ rules) =
      insert_sorted-descending r (sort_by more_specific rules) (sort_by-descending rules)

  -- A rule that covers, and than which no rule that covers has a longer prefix.
  abbrev pub IsLongest : (Rule P → Bool) → List (Rule P) → Rule P → Type 0
  IsLongest p rules r =
      Among r rules
      × (p r ≡ true)
      × (all (λ other. not (p other) || no_longer r other) rules ≡ true)

  all_weaker :
      (p : Rule P → Bool) (r : Rule P) (rules : List (Rule P))
      → all (no_longer r) rules ≡ true
      → all (λ other. not (p other) || no_longer r other) rules ≡ true
  all_weaker p r [] h = refl
  all_weaker p r (x ∷ rules) h = ground (arith, all_weaker p r rules)

  find_rule-IsLongest :
      (p : Rule P → Bool) (rules : List (Rule P)) (r : Rule P)
      → descending rules ≡ true
      → find_rule p rules ≡ some r
      → IsLongest p rules r
  unfolding find_rule descending
  find_rule-IsLongest p [] r h f = ground arith
  find_rule-IsLongest p (x ∷ rules) r h f = elim (Bool-cases (p x)) [
    | inl covers ↦
        let same : x ≡ r = ground (arith, covers) in
        let rest : all (no_longer x) rules ≡ true = ground (arith) in
        subst (IsLongest p (x ∷ rules)) same
          (inl refl, covers, ground (arith, covers, all_weaker p x rules rest))
    | inr not_covers ↦
        let (among, covers, longest) =
          find_rule-IsLongest p rules r (ground arith) (ground (arith, not_covers)) in
        (inr among, covers, ground (arith, not_covers, longest))
  ]

  find_rule-none :
      (p : Rule P → Bool) (rules : List (Rule P)) → find_rule p rules ≡ none → any p rules ≡ false
  unfolding find_rule
  find_rule-none p [] f = refl
  find_rule-none p (x ∷ rules) f = ground (arith, find_rule-none p rules)

load_tables-descending :
    (is_ip : Text → ℕ) (policy : Policy) (tables : Tables)
    → load_tables is_ip policy ≡ ok tables
    → descending tables.ipv4_rules ≡ true
unfolding load_tables
load_tables-descending is_ip policy tables h =
    let (rules, _, h1) =
      >>=-ok
        (rules_of ipv4_rule (policy.ipv4_special ++ map (reachable false) policy.ipv4_non_global)) _
        h in
    let (rules6, _, h2) =
      >>=-ok
        (rules_of (ipv6_rule is_ip)
          (policy.ipv6_special ++ map (reachable false) policy.ipv6_non_global))
        _ h1 in
    let (allocations, _, h3) =
      >>=-ok (rules_of (ipv6_rule is_ip) (map (reachable true) policy.ipv6_global_allocated)) _
        h2 in
    subst (λ t. descending t.ipv4_rules ≡ true) (ok-injective h3) (sort_by-descending rules)

-- With the tables of a policy, the class of an IPv4 address is that of a rule that covers it and than
-- which no rule that covers it has a longer prefix, or public if no rule covers it.
pub classify_ipv4-IsLongest :
    (is_ip : Text → ℕ) (policy : Policy) (tables : Tables) (address : Text) (o : Octets)
    → load_tables is_ip policy ≡ ok tables
    → ipv4_octets address ≡ some o
    → let p = covers (ipv4_number o) in
      ((r : Rule ℕ) × IsLongest p tables.ipv4_rules r × (classify_ipv4 tables address ≡ r.class))
      ⊎ ((any p tables.ipv4_rules ≡ false) × (classify_ipv4 tables address ≡ public))
unfolding classify_ipv4
classify_ipv4-IsLongest is_ip policy tables address o l h =
    let p = covers (ipv4_number o) in
    elim (Option-cases (find_rule p tables.ipv4_rules)) [
      | inl missing ↦ inr (find_rule-none p tables.ipv4_rules missing, cc (h, missing))
      | inr (r, found) ↦ inl (
        r,
        find_rule-IsLongest p tables.ipv4_rules r (load_tables-descending is_ip policy tables l)
            found,
        cc (h, found),
      )
    ]
