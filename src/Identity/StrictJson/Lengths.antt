-- ===== src/Identity/StrictJson/Lengths.antt =====
-- The scanners of the strict JSON parser (identity/strict-json.mjs) shorten the rest of the text.
use implement_data_space_pro.Prelude.Strings.{after_literal, digits, code_units, Text}
use implement_data_space_pro.Identity.StrictJson.{
  json_bool, json_null, Json, literal, whole, string, checked_number, scalar, number,
  mode_after_hex, hex_left, out_of_fuel, plain, rest_of, escaped, at, Mode, fraction, scan_string,
  Parsed, sign, JsonError, whitespace, keep, minus, exponent,
}
use implement_data_space_pro.Prelude.{
  if◌then◌else◌, subst, inr, inl, none, some, Option-cases, Option, leb, leb→le, ◌+◌, refl, false,
  ◌>>=◌, not, true, ◌-◌, arith, err, ◌≡◌, ◌≤◌, Bool, length, ◌∷◌, [], ok, ℕ,
}

abbrev pub is_fuel : JsonError → Bool
is_fuel out_of_fuel = true
is_fuel _ = false

-- No lack of fuel, and no more than `n` code units are left.
abbrev pub fine : {A : Type 0} → ℕ → Parsed A → Bool
fine n (err e) = not (is_fuel e)
fine n (ok (_, rest)) = leb (length rest) n

pub fine->>= :
    {A B : Type 0} (k n : ℕ) (p : Parsed A) (next : A × Text → Parsed B)
    → fine k p ≡ true
    → ((a : A) (rest : Text) → length rest ≤ k → fine n (next (a, rest)) ≡ true)
    → fine n (p >>= next) ≡ true
fine->>= k n (err e) next h f = h
fine->>= k n (ok (a, rest)) next h f = f a rest (leb→le (length rest) k h)

pub length-whitespace : (s : Text) → length (whitespace s) ≤ length s
unfolding whitespace
length-whitespace [] = omega arith
length-whitespace (c ∷ s) = ground (arith, length-whitespace s)

pub length-rest_of : (mark : ℕ) (s : Text) → at mark s ≡ true → length (rest_of s) + 1 ≡ length s
length-rest_of mark [] h = ground arith
length-rest_of mark (c ∷ s) h = omega arith

pub keep-fine : (c n : ℕ) (p : Parsed Text) → fine n (keep c p) ≡ fine n p
unfolding keep
keep-fine c n (err e) = refl
keep-fine c n (ok (raw, rest)) = refl

pub fine-weaken : {A : Type 0} (k n : ℕ) (p : Parsed A) → k ≤ n → fine k p ≡ true → fine n p ≡ true
fine-weaken k n (err e) l h = h
fine-weaken k n (ok (a, rest)) l h = ground (arith, h)

pub scan_string-fine : (mode : Mode) (s : Text) → fine (length s - 1) (scan_string mode s) ≡ true
unfolding scan_string
scan_string-fine mode [] = refl
scan_string-fine plain (c ∷ s) = ground (
  arith,
  keep-fine c (length s) (scan_string plain s),
  keep-fine c (length s) (scan_string escaped s),
  fine-weaken (length s - 1) (length s) (scan_string plain s) (omega arith)
      (scan_string-fine plain s),
  fine-weaken (length s - 1) (length s) (scan_string escaped s) (omega arith)
      (scan_string-fine escaped s),
)
scan_string-fine escaped (c ∷ s) = ground (
  arith,
  keep-fine c (length s) (scan_string plain s),
  keep-fine c (length s) (scan_string (hex_left 3) s),
  fine-weaken (length s - 1) (length s) (scan_string plain s) (omega arith)
      (scan_string-fine plain s),
  fine-weaken (length s - 1) (length s) (scan_string (hex_left 3) s) (omega arith)
      (scan_string-fine (hex_left 3) s),
)
scan_string-fine (hex_left n) (c ∷ s) = ground (
  arith,
  keep-fine c (length s) (scan_string (mode_after_hex n) s),
  fine-weaken (length s - 1) (length s) (scan_string (mode_after_hex n) s) (omega arith)
      (scan_string-fine (mode_after_hex n) s),
)

pub length-digits : (s : Text) → length (digits s).1 ≤ length s
unfolding digits
length-digits [] = omega arith
length-digits (c ∷ s) = ground (arith, length-digits s)

pub length-fraction : (s : Text) → length (fraction s).1 ≤ length s
unfolding fraction
length-fraction [] = omega arith
length-fraction (c ∷ s) = ground (arith, length-digits s)

pub length-sign : (s : Text) → length (sign s).1 ≤ length s
unfolding sign
length-sign [] = omega arith
length-sign (c ∷ s) = ground arith

pub length-exponent : (s : Text) → length (exponent s).1 ≤ length s
unfolding exponent
length-exponent [] = omega arith
length-exponent (c ∷ s) = ground (arith, length-sign s, length-digits (sign s).1)

pub length-minus : (s : Text) → length (minus s).1 ≤ length s
unfolding minus
length-minus [] = omega arith
length-minus (c ∷ s) = ground arith

pub no_longer : Text → Option (Text × Text) → Bool
no_longer s none = true
no_longer s (some (taken, rest)) = leb (length rest) (length s)

pub whole_shorter : (s : Text) → no_longer s (whole s) ≡ true
unfolding whole no_longer
whole_shorter [] = refl
whole_shorter (c ∷ s) = ground (arith, length-digits s)

pub number_shorter : (s : Text) → no_longer s (number s) ≡ true
unfolding number no_longer
number_shorter s = elim (Option-cases (whole (minus s).1)) [
  | inl missing ↦ ground (arith, missing)
  | inr ((n, rest), found) ↦
      let short : no_longer (minus s).1 (some (n, rest)) ≡ true =
        subst (λ o. no_longer (minus s).1 o ≡ true) found (whole_shorter (minus s).1) in
      let part = fraction rest in
      ground (arith, found, short, length-minus s, length-fraction rest, length-exponent part.1)
]

pub rest_shorter : Text → Option Text → Bool
rest_shorter s none = true
rest_shorter s (some rest) = leb (length rest) (length s)

pub after_literal_shorter : (word s : Text) → rest_shorter s (after_literal word s) ≡ true
unfolding after_literal rest_shorter
after_literal_shorter [] s = ground arith
after_literal_shorter (c ∷ word) [] = refl
after_literal_shorter (c ∷ word) (e ∷ s) = elim (Option-cases (after_literal word s)) [
  | inl missing ↦ ground (arith, missing)
  | inr (rest, found) ↦
      let short : rest_shorter s (some rest) ≡ true =
        subst (λ o. rest_shorter s o ≡ true) found (after_literal_shorter word s) in
      ground (arith, found, short)
]

pub literal-fine :
    (word : Text) (result : Json) (s : Text) (otherwise : Parsed Json)
    → fine (length s) otherwise ≡ true
    → fine (length s) (literal word result s otherwise) ≡ true
unfolding literal rest_shorter
literal-fine word result s otherwise h = elim (Option-cases (after_literal word s)) [
  | inl missing ↦ ground (arith, missing, h)
  | inr (rest, found) ↦
      let short : rest_shorter s (some rest) ≡ true =
        subst (λ o. rest_shorter s o ≡ true) found (after_literal_shorter word s) in
      ground (arith, found, short)
]

pub checked_number-fine :
    (is_finite : Text → Bool) (s : Text) (n : Option (Text × Text))
    → no_longer s n ≡ true
    → fine (length s) (checked_number is_finite n) ≡ true
unfolding checked_number no_longer
checked_number-fine is_finite s none h = refl
checked_number-fine is_finite s (some (n, rest)) h = ground (arith, h)

pub scalar-fine : (is_finite : Text → Bool) (s : Text) → fine (length s) (scalar is_finite s) ≡ true
unfolding scalar
scalar-fine is_finite s =
    let n = checked_number is_finite (number s) in
    let no = literal (code_units "null") json_null s n in
    let false_or = literal (code_units "false") (json_bool false) s no in
    literal-fine (code_units "true") (json_bool true) s false_or (
      literal-fine (code_units "false") (json_bool false) s no (
        literal-fine (code_units "null") json_null s n
          (checked_number-fine is_finite s (number s) (number_shorter s))))

pub string-fine : (decode : Text → Text) (s : Text) → fine (length s - 1) (string decode s) ≡ true
unfolding string
string-fine decode [] = refl
string-fine decode (c ∷ s) =
    let found =
      fine->>= (length s) (length s) (scan_string plain s) (λ p. ok (decode p.0, p.1))
        (fine-weaken (length s - 1) (length s) (scan_string plain s) (omega arith)
          (scan_string-fine plain s))
        (λ a rest l. ground (arith, l)) in
    ground (arith, found)

pub length-rest_of_le : (s : Text) → length (rest_of s) ≤ length s
length-rest_of_le [] = omega arith
length-rest_of_le (c ∷ s) = omega arith

pub fine-if :
    {A : Type 0} (n : ℕ) (b : Bool) (p q : Parsed A)
    → (b ≡ true → fine n p ≡ true)
    → fine n q ≡ true
    → fine n (if b then p else q) ≡ true
fine-if n true p q f h = f refl
fine-if n false p q f h = h
