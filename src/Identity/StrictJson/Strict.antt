-- ===== src/Identity/StrictJson/Strict.antt =====
-- What the strict JSON parser accepts (identity/strict-json.mjs): a bounded nesting, and no key twice.
use Prim.Native.Nat.{zero}
use implement_data_space_pro.Prelude.Strings.{after_literal, code_units, Text}
use implement_data_space_pro.Identity.StrictJson.{
  identity_json_duplicate_key, expect, JsonError, identity_json_invalid, items, more_members,
  members, more_items, after_member, after_item, ended, key_at, parse_strict_json, value, item,
  no_items, no_members, known_key, at, member, as_array, as_object, json_string, as_string, string,
  json_number, json_bool, rest_of, json_array, whitespace, json_null, number, Items, Members,
  scalar, checked_number, json_object, value_at, literal, Json, Parsed,
}
use implement_data_space_pro.Prelude.{
  length, zero, suc, ◌*◌, Throws, subst, none, not, List, inr, ◌+◌, inl, arith, some, if◌then◌else◌,
  ◌&&◌, Option, false, refl, Option-cases, ◌>>=◌, leb, true, ◌≡◌, err, Bool, ◌∷◌, [], ok, ℕ,
}

mutual
  -- A value at a depth, whose nesting ends at the greatest depth, and whose objects have no key twice.
  pub strict : ℕ → ℕ → Json → Bool
  strict max_depth depth (json_object m) =
      leb depth max_depth && strict_members max_depth (depth + 1) [] m
  strict max_depth depth (json_array i) =
      leb depth max_depth && strict_items max_depth (depth + 1) i
  strict max_depth depth json_null = leb depth max_depth
  strict max_depth depth (json_bool b) = leb depth max_depth
  strict max_depth depth (json_number n) = leb depth max_depth
  strict max_depth depth (json_string s) = leb depth max_depth

  -- Members whose keys are new beside the given ones.
  pub strict_members : ℕ → ℕ → List Text → Members → Bool
  strict_members max_depth depth keys no_members = true
  strict_members max_depth depth keys (member key v rest) =
      not (known_key key keys)
      && strict max_depth depth v
      && strict_members max_depth depth (key ∷ keys) rest

  pub strict_items : ℕ → ℕ → Items → Bool
  strict_items max_depth depth no_items = true
  strict_items max_depth depth (item v rest) =
      strict max_depth depth v && strict_items max_depth depth rest

-- What is parsed, if anything is, passes the test.
abbrev passes : {A : Type 0} → (A → Bool) → Parsed A → Bool
passes p (err e) = true
passes p (ok (a, _)) = p a

passes->>= :
    {A B : Type 0} (p : A → Bool) (q : B → Bool) (x : Parsed A) (next : A × Text → Parsed B)
    → passes p x ≡ true
    → ((a : A) (rest : Text) → p a ≡ true → passes q (next (a, rest)) ≡ true)
    → passes q (x >>= next) ≡ true
passes->>= p q (err e) next h f = refl
passes->>= p q (ok (a, rest)) next h f = f a rest h

passes-any : {A : Type 0} (x : Parsed A) → passes (λ _. true) x ≡ true
passes-any (err e) = refl
passes-any (ok x) = refl

passes-if :
    {A : Type 0} (p : A → Bool) (b : Bool) (x y : Parsed A)
    → (b ≡ true → passes p x ≡ true)
    → (b ≡ false → passes p y ≡ true)
    → passes p (if b then x else y) ≡ true
passes-if p true x y f g = f refl
passes-if p false x y f g = g refl

module _ (decode : Text → Text) (is_finite : Text → Bool) (max_depth : ℕ) where
  literal-strict :
      (depth : ℕ) (word : Text) (result : Json) (s : Text) (otherwise : Parsed Json)
      → strict max_depth depth result ≡ true
      → passes (strict max_depth depth) otherwise ≡ true
      → passes (strict max_depth depth) (literal word result s otherwise) ≡ true
  unfolding literal
  literal-strict depth word result s otherwise h k = elim (Option-cases (after_literal word s)) [
    | inl missing ↦ ground (arith, missing)
    | inr (rest, found) ↦ ground (arith, found)
  ]

  checked_number-strict :
      (depth : ℕ) (n : Option (Text × Text))
      → leb depth max_depth ≡ true
      → passes (strict max_depth depth) (checked_number is_finite n) ≡ true
  unfolding checked_number strict
  checked_number-strict depth none h = refl
  checked_number-strict depth (some (n, rest)) h = ground arith

  scalar-strict :
      (depth : ℕ) (s : Text)
      → leb depth max_depth ≡ true
      → passes (strict max_depth depth) (scalar is_finite s) ≡ true
  unfolding scalar strict
  scalar-strict depth s h =
      let n = checked_number is_finite (number s) in
      let no = literal (code_units "null") json_null s n in
      let false_or = literal (code_units "false") (json_bool false) s no in
      literal-strict depth (code_units "true") (json_bool true) s false_or h (
        literal-strict depth (code_units "false") (json_bool false) s no h (
          literal-strict depth (code_units "null") json_null s n h
            (checked_number-strict depth (number s) h)))

  value_at-strict :
      (depth : ℕ) (s : Text) (object : Parsed Members) (array : Parsed Items)
      → leb depth max_depth ≡ true
      → passes (strict_members max_depth (depth + 1) []) object ≡ true
      → passes (strict_items max_depth (depth + 1)) array ≡ true
      → passes (strict max_depth depth) (value_at decode is_finite max_depth s object array) ≡ true
  unfolding value_at strict
  value_at-strict depth s object array h o a =
      let p = strict max_depth depth in
      let inside = whitespace (rest_of s) in
      let text = string decode s >>= as_string decode is_finite max_depth in
      let full_object = object >>= as_object decode is_finite max_depth in
      let full_array = array >>= as_array decode is_finite max_depth in
      let some_object =
        if at 125 inside then ok (json_object no_members, rest_of inside) else full_object in
      let some_array =
        if at 93 inside then ok (json_array no_items, rest_of inside) else full_array in
      passes-if p (at 34 s) text
        (if at 123 s then some_object else if at 91 s then some_array else scalar is_finite s)
        (λ _.
          passes->>= (λ _. true) p (string decode s) (as_string decode is_finite max_depth)
            (passes-any (string decode s)) (λ t rest _. h))
        (λ _.
          passes-if p (at 123 s) some_object (if at 91 s then some_array else scalar is_finite s)
            (λ _.
              passes-if p (at 125 inside) (ok (json_object no_members, rest_of inside)) full_object
                (λ _. ground (arith, h))
                (λ _.
                  passes->>= (strict_members max_depth (depth + 1) []) p object
                    (as_object decode is_finite max_depth) o (λ m rest k. ground (arith, h, k))))
            (λ _.
              passes-if p (at 91 s) some_array (scalar is_finite s)
                (λ _.
                  passes-if p (at 93 inside) (ok (json_array no_items, rest_of inside)) full_array
                    (λ _. ground (arith, h))
                    (λ _.
                      passes->>= (strict_items max_depth (depth + 1)) p array
                        (as_array decode is_finite max_depth) a (λ i rest k. ground (arith, h, k))))
                (λ _. scalar-strict depth s h)))

  key_at-new :
      (keys : List Text) (s : Text)
      → passes (λ k. not (known_key k keys)) (key_at decode is_finite max_depth keys s) ≡ true
  unfolding key_at
  key_at-new keys [] = refl
  key_at-new keys (c ∷ s) =
      let new = λ (k : Text). not (known_key k keys) in
      passes->>= (λ _. true) new (string decode (whitespace (c ∷ s))) _
        (passes-any (string decode (whitespace (c ∷ s))))
        (λ key rest _.
          let colon = expect 58 (whitespace rest) >>= λ behind. ok (key, behind) in
          passes-if new (known_key key keys) (err identity_json_duplicate_key) colon (λ _. refl)
            (λ fresh. after_key key (expect 58 (whitespace rest)) (ground (arith, fresh))))
    where
      after_key :
          (key : Text) (s : Throws JsonError Text)
          → not (known_key key keys) ≡ true
          → passes (λ k. not (known_key k keys)) (s >>= λ behind. ok (key, behind)) ≡ true
      after_key key (err e) h = refl
      after_key key (ok rest) h = h

  after_member-strict :
      (depth : ℕ) (keys : List Text) (key : Text) (v : Json) (s : Text) (more : Parsed Members)
      → not (known_key key keys) ≡ true
      → strict max_depth depth v ≡ true
      → passes (strict_members max_depth depth (key ∷ keys)) more ≡ true
      → passes
          (strict_members max_depth depth keys)
          (after_member decode is_finite max_depth key v s more)
        ≡ true
  unfolding after_member strict
  after_member-strict depth keys key v s more new h m =
      let p = strict_members max_depth depth keys in
      let next = more >>= more_members decode is_finite max_depth key v in
      passes-if p (at 125 s) (ok (member key v no_members, rest_of s))
        (if at 44 s then next else err identity_json_invalid) (λ _. ground (arith, new, h))
        (λ _.
          passes-if p (at 44 s) next (err identity_json_invalid)
            (λ _.
              passes->>= (strict_members max_depth depth (key ∷ keys)) p more
                (more_members decode is_finite max_depth key v) m
                (λ rest left k. ground (arith, new, h, k)))
            (λ _. refl))

  after_item-strict :
      (depth : ℕ) (v : Json) (s : Text) (more : Parsed Items)
      → strict max_depth depth v ≡ true
      → passes (strict_items max_depth depth) more ≡ true
      → passes (strict_items max_depth depth) (after_item decode is_finite max_depth v s more)
        ≡ true
  unfolding after_item strict
  after_item-strict depth v s more h m =
      let p = strict_items max_depth depth in
      let next = more >>= more_items decode is_finite max_depth v in
      passes-if p (at 93 s) (ok (item v no_items, rest_of s))
        (if at 44 s then next else err identity_json_invalid) (λ _. ground (arith, h))
        (λ _.
          passes-if p (at 44 s) next (err identity_json_invalid)
            (λ _.
              passes->>= p p more (more_items decode is_finite max_depth v) m
                (λ rest left k. ground (arith, h, k)))
            (λ _. refl))

  AreStrict : ℕ → Type 0
  AreStrict n =
      ((depth : ℕ) (s : Text)
        → passes (strict max_depth depth) (value decode is_finite max_depth n depth s) ≡ true)
      × ((depth : ℕ) (keys : List Text) (s : Text)
          → passes (strict_members max_depth depth keys)
              (members decode is_finite max_depth n depth keys s)
            ≡ true)
      × ((depth : ℕ) (s : Text)
          → passes (strict_items max_depth depth) (items decode is_finite max_depth n depth s)
            ≡ true)

  strict_step : (n : ℕ) → AreStrict n → AreStrict (suc n)
  unfolding AreStrict value
  strict_step n (of_value, of_members, of_items) = (
    λ depth s.
        let inside = whitespace (rest_of (whitespace s)) in
        let object = members decode is_finite max_depth n (depth + 1) [] inside in
        let array = items decode is_finite max_depth n (depth + 1) inside in
        passes-if (strict max_depth depth) (leb depth max_depth)
          (value_at decode is_finite max_depth (whitespace s) object array)
          (err identity_json_invalid)
          (λ h.
            value_at-strict depth (whitespace s) object array h (of_members (depth + 1) [] inside)
              (of_items (depth + 1) inside))
          (λ _. refl),
    λ depth keys s.
        passes->>= (λ k. not (known_key k keys)) (strict_members max_depth depth keys)
          (key_at decode is_finite max_depth keys s) _ (key_at-new keys s)
          (λ key rest new.
            passes->>= (strict max_depth depth) (strict_members max_depth depth keys)
              (value decode is_finite max_depth n depth rest) _ (of_value depth rest)
              (λ v left h.
                let behind = whitespace left in
                after_member-strict depth keys key v behind
                  (members decode is_finite max_depth n depth (key ∷ keys) (rest_of behind)) new h
                  (of_members depth (key ∷ keys) (rest_of behind)))),
    λ depth s. items_step depth s,
  )
    where
      items_step :
          (depth : ℕ) (s : Text)
          → passes (strict_items max_depth depth) (items decode is_finite max_depth (suc n) depth s)
            ≡ true
      items_step depth [] = refl
      items_step depth (c ∷ s) =
          passes->>= (strict max_depth depth) (strict_items max_depth depth)
            (value decode is_finite max_depth n depth (c ∷ s)) _ (of_value depth (c ∷ s))
            (λ v left h.
              let behind = whitespace left in
              after_item-strict depth v behind
                (items decode is_finite max_depth n depth (rest_of behind)) h
                (of_items depth (rest_of behind)))

  strict_all : (n : ℕ) → AreStrict n
  unfolding AreStrict value
  strict_all zero = (λ depth s. refl, λ depth keys s. refl, λ depth s. refl)
  strict_all (suc n) = strict_step n (strict_all n)

  completed :
      (p : Parsed Json) (v : Json)
      → passes (strict max_depth 0) p ≡ true
      → (p >>= ended decode is_finite max_depth) ≡ ok v
      → strict max_depth 0 v ≡ true
  completed (err e) v h c = ground arith
  completed (ok (w, rest)) v h c = subst (λ x. strict max_depth 0 x ≡ true) (returned w rest c) h
    where
      returned :
          (w : Json) (rest : Text) → ended decode is_finite max_depth (w, rest) ≡ ok v → w ≡ v
      returned w rest e = ground arith

  -- A value that is parsed is nested no deeper than the greatest depth, and none of its objects has a
  -- key twice.
  pub parse_strict_json-strict :
      (max_characters : ℕ) (text : Text) (v : Json)
      → parse_strict_json decode is_finite max_depth max_characters text ≡ ok v
      → strict max_depth 0 v ≡ true
  unfolding parse_strict_json AreStrict
  parse_strict_json-strict max_characters text v h =
      completed (value decode is_finite max_depth (2 * length text + 1) 0 text) v
        ((strict_all (2 * length text + 1)).0 0 text) (ground (arith, h))
