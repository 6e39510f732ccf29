-- ===== src/Identity/StrictJson/Fuel.antt =====
-- The strict JSON parser always returns (identity/strict-json.mjs): its fuel is enough, since each
-- step shortens the rest of the text.
use Prim.Native.Nat.{zero}
use implement_data_space_pro.Identity.StrictJson.Lengths.{
  scalar-fine, fine-weaken, length-rest_of_le, length-rest_of, string-fine, length-whitespace,
  fine-if, fine->>=, fine,
}
use implement_data_space_pro.Identity.StrictJson.{
  scalar, json_array, json_object, out_of_fuel, as_array, as_object, no_members, as_string,
  no_items, known_key, item, member, identity_json_duplicate_key, identity_json_invalid, rest_of,
  string, whitespace, ended, more_items, more_members, at, Items, Json, Members, value_at,
  parse_strict_json, members, key_at, value, after_item, after_member, Parsed, items, expect,
}
use implement_data_space_pro.Prelude.Strings.{text_eq, Text}
use implement_data_space_pro.Prelude.{
  if◌then◌else◌, inl, Bool-cases, leb, inr, refl, err, true, ◌⊎◌, ◌>>=◌, ◌≤◌, zero, ◌≡◌, ◌+◌, ◌-◌,
  length, List, suc, arith, ◌*◌, Bool, ◌∷◌, [], ok, ℕ,
}

module _ (decode : Text → Text) (is_finite : Text → Bool) (max_depth : ℕ) where
  value_at-fine :
      (s : Text) (object : Parsed Members) (array : Parsed Items)
      → (at 123 s ≡ true → fine (length s) object ≡ true)
      → (at 91 s ≡ true → fine (length s) array ≡ true)
      → fine (length s) (value_at decode is_finite max_depth s object array) ≡ true
  unfolding value_at
  value_at-fine s object array f g =
      let n = length s in
      let inside = whitespace (rest_of s) in
      let short : length (rest_of inside) ≤ n =
        omega
          (arith, length-rest_of_le inside, length-whitespace (rest_of s), length-rest_of_le s) in
      let text = string decode s >>= as_string decode is_finite max_depth in
      let full_object = object >>= as_object decode is_finite max_depth in
      let full_array = array >>= as_array decode is_finite max_depth in
      let some_object =
        if at 125 inside then ok (json_object no_members, rest_of inside) else full_object in
      let some_array =
        if at 93 inside then ok (json_array no_items, rest_of inside) else full_array in
      fine-if n (at 34 s) text
        (if at 123 s then some_object else if at 91 s then some_array else scalar is_finite s)
        (λ _.
          fine->>= (n - 1) n (string decode s) (as_string decode is_finite max_depth)
            (string-fine decode s) (λ a rest l. ground arith))
        (fine-if n (at 123 s) some_object (if at 91 s then some_array else scalar is_finite s)
          (λ is_object.
            fine-if n (at 125 inside) (ok (json_object no_members, rest_of inside)) full_object
              (λ _. ground (arith, short))
              (fine->>= n n object (as_object decode is_finite max_depth) (f is_object)
                (λ a rest l. ground arith)))
          (fine-if n (at 91 s) some_array (scalar is_finite s)
            (λ is_array.
              fine-if n (at 93 inside) (ok (json_array no_items, rest_of inside)) full_array
                (λ _. ground (arith, short))
                (fine->>= n n array (as_array decode is_finite max_depth) (g is_array)
                  (λ a rest l. ground arith)))
            (scalar-fine is_finite s)))

  expect-fine :
      (mark : ℕ) (key s : Text)
      → fine (length s - 1) (expect mark s >>= λ rest. ok (key, rest)) ≡ true
  unfolding expect
  expect-fine mark key [] = refl
  expect-fine mark key (c ∷ s) = ground arith

  key_at-fine :
      (keys : List Text) (s : Text)
      → fine (length s - 1) (key_at decode is_finite max_depth keys s) ≡ true
  unfolding key_at
  key_at-fine keys [] = refl
  key_at-fine keys (c ∷ s) =
      let inner = whitespace (c ∷ s) in
      let n = length (c ∷ s) - 1 in
      fine->>= (length inner - 1) n (string decode inner) _ (string-fine decode inner)
        (λ key rest l.
          let colon = expect 58 (whitespace rest) >>= λ behind. ok (key, behind) in
          fine-if n (known_key key keys) (err identity_json_duplicate_key) colon (λ _. refl)
            (fine-weaken (length (whitespace rest) - 1) n colon
              (omega (arith, length-whitespace rest, length-whitespace (c ∷ s), l))
              (expect-fine 58 key (whitespace rest))))

  after_member-fine :
      (n : ℕ) (key : Text) (v : Json) (s : Text) (more : Parsed Members)
      → length s ≤ n
      → (at 44 s ≡ true → fine n more ≡ true)
      → fine n (after_member decode is_finite max_depth key v s more) ≡ true
  unfolding after_member
  after_member-fine n key v s more l f =
      let next = more >>= more_members decode is_finite max_depth key v in
      fine-if n (at 125 s) (ok (member key v no_members, rest_of s))
        (if at 44 s then next else err identity_json_invalid)
        (λ _. ground (arith, length-rest_of_le s))
        (fine-if n (at 44 s) next (err identity_json_invalid)
          (λ comma.
            fine->>= n n more (more_members decode is_finite max_depth key v) (f comma)
              (λ a rest k. ground arith))
          refl)

  after_item-fine :
      (n : ℕ) (v : Json) (s : Text) (more : Parsed Items)
      → length s ≤ n
      → (at 44 s ≡ true → fine n more ≡ true)
      → fine n (after_item decode is_finite max_depth v s more) ≡ true
  unfolding after_item
  after_item-fine n v s more l f =
      let next = more >>= more_items decode is_finite max_depth v in
      fine-if n (at 93 s) (ok (item v no_items, rest_of s))
        (if at 44 s then next else err identity_json_invalid)
        (λ _. ground (arith, length-rest_of_le s))
        (fine-if n (at 44 s) next (err identity_json_invalid)
          (λ comma.
            fine->>= n n more (more_items decode is_finite max_depth v) (f comma)
              (λ a rest k. ground arith))
          refl)

  -- With more than twice the length of the text as fuel the three functions are fine.
  AreFine : ℕ → Type 0
  AreFine n =
      ((depth : ℕ) (s : Text)
        → 2 * length s + 1 ≤ n
        → fine (length s) (value decode is_finite max_depth n depth s) ≡ true)
      × ((depth : ℕ) (keys : List Text) (s : Text)
          → 2 * length s + 2 ≤ n
          → fine (length s) (members decode is_finite max_depth n depth keys s) ≡ true)
      × ((depth : ℕ) (s : Text)
          → 2 * length s + 2 ≤ n
          → fine (length s) (items decode is_finite max_depth n depth s) ≡ true)

  value_step :
      (n : ℕ)
      → AreFine n
      → (depth : ℕ) (s : Text) → 2 * length s + 1 ≤ suc n
      → fine (length s) (value decode is_finite max_depth (suc n) depth s) ≡ true
  unfolding AreFine value
  value_step n (_, fine_members, fine_items) depth s l =
      let behind = whitespace s in
      let inside = whitespace (rest_of behind) in
      let object = members decode is_finite max_depth n (depth + 1) [] inside in
      let array = items decode is_finite max_depth n (depth + 1) inside in
      let shorter : (mark : ℕ) → at mark behind ≡ true → length inside + 1 ≤ length behind =
        λ mark h. omega (arith, length-whitespace (rest_of behind), length-rest_of mark behind h) in
      let short = length-whitespace s in
      fine-if (length s) (leb depth max_depth)
        (value_at decode is_finite max_depth behind object array) (err identity_json_invalid)
        (λ _.
          fine-weaken (length behind) (length s)
            (value_at decode is_finite max_depth behind object array) short
            (value_at-fine behind object array
              (λ h.
                let k = shorter 123 h in
                fine-weaken (length inside) (length behind) object (omega (arith, k))
                  (fine_members (depth + 1) [] inside (omega (arith, k, short, l))))
              (λ h.
                let k = shorter 91 h in
                fine-weaken (length inside) (length behind) array (omega (arith, k))
                  (fine_items (depth + 1) inside (omega (arith, k, short, l))))))
        refl

  members_step :
      (n : ℕ)
      → AreFine n
      → (depth : ℕ) (keys : List Text) (s : Text) → 2 * length s + 2 ≤ suc n
      → fine (length s) (members decode is_finite max_depth (suc n) depth keys s) ≡ true
  unfolding AreFine members
  members_step n (fine_value, fine_members, _) depth keys s l =
      let L = length s in
      fine->>= (L - 1) L (key_at decode is_finite max_depth keys s) _ (key_at-fine keys s)
        (λ key rest a.
          fine->>= (length rest) L (value decode is_finite max_depth n depth rest) _
            (fine_value depth rest (omega (arith, a, l)))
            (λ v left b.
              let behind = whitespace left in
              let short = length-whitespace left in
              let next = rest_of behind in
              let more = members decode is_finite max_depth n depth (key ∷ keys) next in
              after_member-fine L key v behind more (omega (arith, a, b, short)) (λ comma.
                let k = length-rest_of 44 behind comma in
                fine-weaken (length next) L more (omega (arith, a, b, short, k))
                  (fine_members depth (key ∷ keys) next (omega (arith, a, b, short, k, l))))))

  items_step :
      (n : ℕ)
      → AreFine n
      → (depth : ℕ) (s : Text) → 2 * length s + 2 ≤ suc n
      → fine (length s) (items decode is_finite max_depth (suc n) depth s) ≡ true
  unfolding AreFine items
  items_step n all_fine depth [] l = refl
  items_step n (fine_value, _, fine_items) depth (c ∷ s) l =
      let L = length (c ∷ s) in
      fine->>= L L (value decode is_finite max_depth n depth (c ∷ s)) _
        (fine_value depth (c ∷ s) (omega (arith, l)))
        (λ v left b.
          let behind = whitespace left in
          let short = length-whitespace left in
          let next = rest_of behind in
          let more = items decode is_finite max_depth n depth next in
          after_item-fine L v behind more (omega (arith, b, short)) (λ comma.
            let k = length-rest_of 44 behind comma in
            fine-weaken (length next) L more (omega (arith, b, short, k))
              (fine_items depth next (omega (arith, b, short, k, l)))))

  fine_all : (n : ℕ) → AreFine n
  unfolding AreFine
  fine_all zero =
      (λ depth s l. ground arith, λ depth keys s l. ground arith, λ depth s l. ground arith)
  fine_all (suc n) =
      let before = fine_all n in
      (
        λ depth s l. value_step n before depth s l,
        λ depth keys s l. members_step n before depth keys s l,
        λ depth s l. items_step n before depth s l,
      )

  answered :
      (n : ℕ) (p : Parsed Json)
      → fine n p ≡ true
      → ((v : Json) × ((p >>= ended decode is_finite max_depth) ≡ ok v))
        ⊎ ((p >>= ended decode is_finite max_depth) ≡ err identity_json_invalid)
        ⊎ ((p >>= ended decode is_finite max_depth) ≡ err identity_json_duplicate_key)
  answered n (err identity_json_invalid) h = inr (inl refl)
  answered n (err identity_json_duplicate_key) h = inr (inr refl)
  answered n (err out_of_fuel) h = ground arith
  answered n (ok (v, rest)) h = elim (Bool-cases (text_eq (whitespace rest) [])) [
    | inl at_end ↦ inl (v, ground (arith, at_end))
    | inr more ↦ inr (inl (ground (arith, more)))
  ]

  -- The parser always returns: a value, or one of its two errors.
  pub parse_strict_json_returns :
      (max_characters : ℕ) (text : Text)
      → let parsed = parse_strict_json decode is_finite max_depth max_characters text in
        ((v : Json) × (parsed ≡ ok v))
        ⊎ (parsed ≡ err identity_json_invalid)
        ⊎ (parsed ≡ err identity_json_duplicate_key)
  unfolding parse_strict_json AreFine
  parse_strict_json_returns max_characters text =
      elim (Bool-cases (leb (length text) max_characters)) [
        | inl fits ↦
            let result =
              answered (length text) (value decode is_finite max_depth (2 * length text + 1) 0 text)
                ((fine_all (2 * length text + 1)).0 0 text (omega arith)) in
            rw fits result
        | inr long ↦ inr (inl (ground (arith, long)))
      ]
