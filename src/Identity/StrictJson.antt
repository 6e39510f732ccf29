-- ===== src/Identity/StrictJson.antt =====
-- The strict JSON parser (identity/strict-json.mjs). A text is the list of its UTF-16 code units, and
-- an offset the rest of the text from it. The fuel is one more than twice the length of the text. All the
-- failures of the source that carry one code are one error. `is_finite` says that Number of a
-- number's text is finite; a number is kept as its text.
pub mod Lengths
pub mod Fuel
pub mod Strict
use Prim.Native.Nat.{zero}
use implement_data_space_pro.Prelude.Strings.{
  after_literal, digits, text_eq, code_units, is_digit, Text,
}
use implement_data_space_pro.Prelude.{
  ◌+◌, any, true, false, ◌*◌, List, length, ◌++◌, leb, ◌>>=◌, some, ◌&&◌, none, ltb, ◌||◌, ◌==◌,
  Option, err, if◌then◌else◌, zero, Bool, suc, Throws, ◌∷◌, [], ok, ℕ, String,
}

pub data JsonError : Type 0 where
  identity_json_invalid identity_json_duplicate_key out_of_fuel : JsonError

mutual
  pub data Json : Type 0 where
    json_null : Json
    json_bool : Bool → Json
    json_number : Text → Json
    json_string : Text → Json
    json_array : Items → Json
    json_object : Members → Json

  pub data Items : Type 0 where
    no_items : Items
    item : Json → Items → Items

  pub data Members : Type 0 where
    no_members : Members
    member : Text → Json → Members → Members

abbrev pub Parsed : Type 0 → Type 0
Parsed A = Throws JsonError (A × Text)

abbrev invalid {ℓ} : {A : Type ℓ} → Throws JsonError A
invalid = err identity_json_invalid

abbrev is_whitespace : ℕ → Bool
is_whitespace c = c == 9 || c == 10 || c == 13 || c == 32

unfoldable pub whitespace : Text → Text
whitespace [] = []
whitespace (c ∷ s) = let rest = whitespace s in if is_whitespace c then rest else c ∷ s

-- Where the loop of a string stands: between characters, behind a backslash, or before this many
-- hexadecimal digits and one more.
pub data Mode : Type 0 where
  plain escaped : Mode
  hex_left : ℕ → Mode

abbrev is_any_hex : ℕ → Bool
is_any_hex c = is_digit c || (leb 97 c && leb c 102) || (leb 65 c && leb c 70)

-- ["\\/bfnrtu]
abbrev is_escape : ℕ → Bool
is_escape c =
    c == 34
    || c == 92
    || c == 47
    || c == 98
    || c == 102
    || c == 110
    || c == 114
    || c == 116
    || c == 117

unfoldable pub mode_after_hex : ℕ → Mode
mode_after_hex zero = plain
mode_after_hex (suc n) = hex_left n

unfoldable pub keep : ℕ → Parsed Text → Parsed Text
keep c (err e) = err e
keep c (ok (raw, rest)) = ok (c ∷ raw, rest)

-- The loop of `string` behind the opening quote: what stands before the closing one, and the rest.
unfoldable pub scan_string : Mode → Text → Parsed Text
unfolding mode_after_hex keep
scan_string mode [] = invalid
scan_string plain (c ∷ s) =
    let next = keep c (scan_string plain s) in
    let escape = keep c (scan_string escaped s) in
    if c == 34 then ok ([], s) else if ltb c 32 then invalid else if c == 92 then escape else next
scan_string escaped (c ∷ s) =
    let next = keep c (scan_string plain s) in
    let digits = keep c (scan_string (hex_left 3) s) in
    if is_escape c then (if c == 117 then digits else next) else invalid
scan_string (hex_left n) (c ∷ s) =
    let next = keep c (scan_string (mode_after_hex n) s) in if is_any_hex c then next else invalid

-- `string`; `decode` is JSON.parse of the literal.
unfoldable pub string : (Text → Text) → Text → Parsed Text
string decode [] = invalid
string decode (c ∷ s) =
    if c == 34 then (scan_string plain s >>= λ found. ok (decode found.0, found.1)) else invalid

-- The optional parts of a number, taken as the pattern takes them: only if they are complete.
unfoldable pub fraction : Text → Text × Text
fraction [] = ([], [])
fraction (c ∷ s) =
    let found = digits s in
    if c == 46 && leb 1 (length found.0) then (c ∷ found.0, found.1) else ([], c ∷ s)

unfoldable pub sign : Text → Text × Text
sign [] = ([], [])
sign (c ∷ s) = if c == 43 || c == 45 then (c ∷ [], s) else ([], c ∷ s)

unfoldable pub exponent : Text → Text × Text
unfolding sign
exponent [] = ([], [])
exponent (c ∷ s) =
    let signed = sign s in
    let found = digits signed.1 in
    if (c == 69 || c == 101) && leb 1 (length found.0)
    then (c ∷ signed.0 ++ found.0, found.1)
    else ([], c ∷ s)

-- 0 or digits that do not start with 0; none when there are none.
unfoldable pub whole : Text → Option (Text × Text)
whole [] = none
whole (c ∷ s) =
    if c == 48
    then some (c ∷ [], s)
    else if is_digit c
    then some (c ∷ (digits s).0, (digits s).1)
    else none

unfoldable pub minus : Text → Text × Text
minus [] = ([], [])
minus (c ∷ s) = if c == 45 then (c ∷ [], s) else ([], c ∷ s)

-- The pattern NUMBER at the offset.
unfoldable pub number : Text → Option (Text × Text)
unfolding fraction exponent whole minus
number s =
    let signed = minus s in
    elim (whole signed.1) [
      | none ↦ none
      | some (n, rest) ↦
          let part = fraction rest in
          let power = exponent part.1 in some (signed.0 ++ n ++ part.0 ++ power.0, power.1)
    ]

-- One code unit that must stand here.
unfoldable pub expect : ℕ → Text → Throws JsonError Text
expect mark [] = invalid
expect mark (c ∷ s) = if c == mark then ok s else invalid

unfoldable pub literal : Text → Json → Text → Parsed Json → Parsed Json
literal word result s otherwise = elim (after_literal word s) [
  | none ↦ otherwise
  | some rest ↦ ok (result, rest)
]

unfoldable pub checked_number : (Text → Bool) → Option (Text × Text) → Parsed Json
checked_number is_finite none = invalid
checked_number is_finite (some (n, rest)) =
    if is_finite n then ok (json_number n, rest) else invalid

-- A value that is no string, object or array.
unfoldable pub scalar : (Text → Bool) → Text → Parsed Json
unfolding literal checked_number
scalar is_finite s = literal (code_units "true") (json_bool true) s (
    literal (code_units "false") (json_bool false) s
      (literal (code_units "null") json_null s (checked_number is_finite (number s))))

unfoldable pub known_key : Text → List Text → Bool
known_key key keys = any (λ k. text_eq k key) keys

abbrev pub at : ℕ → Text → Bool
at mark [] = false
at mark (c ∷ s) = c == mark

abbrev pub rest_of : Text → Text
rest_of [] = []
rest_of (c ∷ s) = s

module _ (decode : Text → Text) (is_finite : Text → Bool) (max_depth : ℕ) where
  abbrev pub as_string : Text × Text → Parsed Json
  as_string (s, rest) = ok (json_string s, rest)

  abbrev pub as_object : Members × Text → Parsed Json
  as_object (m, rest) = ok (json_object m, rest)

  abbrev pub as_array : Items × Text → Parsed Json
  as_array (i, rest) = ok (json_array i, rest)

  -- What stands at the offset, given how an object and an array go on.
  unfoldable pub value_at : Text → Parsed Members → Parsed Items → Parsed Json
  value_at s object array =
      if at 34 s
      then (string decode s >>= as_string)
      else if at 123 s
      then (if at 125 (whitespace (rest_of s))
          then ok (json_object no_members, rest_of (whitespace (rest_of s)))
          else (object >>= as_object))
      else if at 91 s
      then (if at 93 (whitespace (rest_of s))
          then ok (json_array no_items, rest_of (whitespace (rest_of s)))
          else (array >>= as_array))
      else scalar is_finite s

  -- A key that is new, and the text behind its colon.
  unfoldable pub key_at : List Text → Text → Parsed Text
  unfolding known_key
  key_at keys [] = invalid
  key_at keys (c ∷ s) = string decode (whitespace (c ∷ s)) >>= λ found.
      if known_key found.0 keys
      then err identity_json_duplicate_key
      else (expect 58 (whitespace found.1) >>= λ rest. ok (found.0, rest))

  abbrev more_members : Text → Json → Members × Text → Parsed Members
  more_members key v (m, rest) = ok (member key v m, rest)

  abbrev more_items : Json → Items × Text → Parsed Items
  more_items v (i, rest) = ok (item v i, rest)

  -- Behind a member: the end, or a comma and more.
  unfoldable pub after_member : Text → Json → Text → Parsed Members → Parsed Members
  after_member key v s more =
      if at 125 s
      then ok (member key v no_members, rest_of s)
      else if at 44 s
      then (more >>= more_members key v)
      else invalid

  unfoldable pub after_item : Json → Text → Parsed Items → Parsed Items
  after_item v s more =
      if at 93 s
      then ok (item v no_items, rest_of s)
      else if at 44 s
      then (more >>= more_items v)
      else invalid

  unfoldable mutual
    unfolding value_at key_at after_member after_item

    pub value : ℕ → ℕ → Text → Parsed Json
    value zero depth s = err out_of_fuel
    value (suc n) depth s =
        let inside = whitespace (rest_of (whitespace s)) in
        let object = members n (depth + 1) [] inside in
        let array = items n (depth + 1) inside in
        if leb depth max_depth then value_at (whitespace s) object array else invalid

    -- The loop of `object`.
    pub members : ℕ → ℕ → List Text → Text → Parsed Members
    members zero depth keys s = err out_of_fuel
    members (suc n) depth keys s = key_at keys s >>= λ found. value n depth found.1 >>= λ parsed.
        let behind = whitespace parsed.1 in
        let more = members n depth (found.0 ∷ keys) (rest_of behind) in
        after_member found.0 parsed.0 behind more

    -- The loop of `array`.
    pub items : ℕ → ℕ → Text → Parsed Items
    items zero depth s = err out_of_fuel
    items (suc n) depth [] = invalid
    items (suc n) depth (c ∷ s) = value n depth (c ∷ s) >>= λ parsed.
        let behind = whitespace parsed.1 in
        let more = items n depth (rest_of behind) in after_item parsed.0 behind more

  abbrev ended : Json × Text → Throws JsonError Json
  ended (v, s) = if text_eq (whitespace s) [] then ok v else invalid

  unfoldable pub parse_strict_json : ℕ → Text → Throws JsonError Json
  parse_strict_json max_characters text =
      if leb (length text) max_characters
      then (value (2 * length text + 1) 0 text >>= ended)
      else invalid
