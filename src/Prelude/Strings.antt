-- ===== src/Prelude/Strings.antt =====
-- Operations of JavaScript on texts, which are lists of UTF-16 code units.
use Prim.Native.Char.{code}
use implement_data_space_pro.Prelude.{
  false, String, true, ◌%◌, ◌++◌, ◌&&◌, ◌-◌, ◌+◌, some, ◌/◌, ◌==◌, ◌*◌, ltb, none, ◌||◌, leb, all,
  [], List, map, ◌∷◌, if◌then◌else◌, Bool, Option, ℕ,
}

abbrev pub Text : Type 0
Text = List ℕ

-- The first piece gets a code unit in front.
unfoldable pub onto_first : ℕ → List Text → List Text
onto_first c [] = (c ∷ []) ∷ []
onto_first c (s ∷ rest) = (c ∷ s) ∷ rest

-- `s.split(c)`
unfoldable pub split : ℕ → Text → List Text
unfolding onto_first
split mark [] = [] ∷ []
split mark (c ∷ s) = let rest = split mark s in if c == mark then [] ∷ rest else onto_first c rest

-- `s.split(cc)` for a mark of two equal code units.
unfoldable pub split_double : ℕ → Text → List Text
unfolding onto_first
split_double mark [] = [] ∷ []
split_double mark (c ∷ []) = (c ∷ []) ∷ []
split_double mark (c ∷ e ∷ s) =
    let after = split_double mark s in
    let next = split_double mark (e ∷ s) in
    if c == mark && e == mark then [] ∷ after else onto_first c next

-- The parts before and after the last mark, by `lastIndexOf` and `slice`.
unfoldable pub split_last : ℕ → Text → Option (Text × Text)
split_last mark [] = none
split_last mark (c ∷ s) = further c s (split_last mark s)
  where
    further : ℕ → Text → Option (Text × Text) → Option (Text × Text)
    further c s (some (before, after)) = some (c ∷ before, after)
    further c s none = if c == mark then some ([], s) else none

abbrev pub is_digit : ℕ → Bool
is_digit c = leb 48 c && leb c 57

-- The number that decimal digits say, after a number that is there.
unfoldable pub decimal : ℕ → Text → ℕ
decimal n [] = n
decimal n (c ∷ s) = decimal (n * 10 + (c - 48)) s

-- `Number(s)` where that is a natural number in plain decimal digits; the empty text is 0. Signs,
-- spaces, exponents and other bases, which no row of the policy has, are refused.
unfoldable pub to_number : Text → Option ℕ
unfolding decimal
to_number s = if all is_digit s then some (decimal 0 s) else none

-- A lower-case hexadecimal digit.
abbrev pub is_hex : ℕ → Bool
is_hex c = is_digit c || (leb 97 c && leb c 102)

abbrev pub hex_value : ℕ → ℕ
hex_value c = if leb c 57 then c - 48 else c - 87

unfoldable pub hexadecimal : ℕ → Text → ℕ
hexadecimal n [] = n
hexadecimal n (c ∷ s) = hexadecimal (n * 16 + hex_value c) s

abbrev hex_digit : ℕ → ℕ
hex_digit n = if ltb n 10 then 48 + n else 87 + n

-- `n.toString(16)` below 2^16
unfoldable pub hex_text : ℕ → Text
hex_text n =
    (if ltb n 4096 then [] else hex_digit (n / 4096) ∷ [])
    ++ (if ltb n 256 then [] else hex_digit (n / 256 % 16) ∷ [])
    ++ (if ltb n 16 then [] else hex_digit (n / 16 % 16) ∷ [])
    ++ hex_digit (n % 16) ∷ []

-- `${n}` below 1000
unfoldable pub decimal_text : ℕ → Text
decimal_text n =
    (if ltb n 100 then [] else (48 + n / 100) ∷ [])
    ++ (if ltb n 10 then [] else (48 + n / 10 % 10) ∷ [])
    ++ (48 + n % 10) ∷ []

-- `s.toLowerCase()`, as far as its callers can tell: outside ASCII only the Kelvin sign (8490) has an
-- ASCII character alone as its lower case, and the others stay outside ASCII, or become a letter and
-- a mark outside it.
unfoldable pub to_lower_case : Text → Text
to_lower_case s = map (λ c. if leb 65 c && leb c 90 then c + 32 else if c == 8490 then 107 else c) s

-- `${a}.${b}`
abbrev pub dot : Text → Text → Text
dot a b = a ++ (46 ∷ b)

unfoldable pub text_eq : Text → Text → Bool
text_eq [] [] = true
text_eq [] (d ∷ t) = false
text_eq (c ∷ s) [] = false
text_eq (c ∷ s) (d ∷ t) = c == d && text_eq s t

-- The white space and the line ends of the language.
abbrev is_space : ℕ → Bool
is_space c =
    (leb 9 c && leb c 13)
    || c == 32
    || c == 160
    || c == 5760
    || (leb 8192 c && leb c 8202)
    || c == 8232
    || c == 8233
    || c == 8239
    || c == 8287
    || c == 12288
    || c == 65279

trim_start : Text → Text
trim_start [] = []
trim_start (c ∷ s) = let rest = trim_start s in if is_space c then rest else c ∷ s

trim_end : Text → Text
trim_end [] = []
trim_end (c ∷ s) = if all is_space (c ∷ s) then [] else c ∷ trim_end s

-- `s.trim()`
unfoldable pub trim : Text → Text
unfolding trim_start trim_end
trim s = trim_end (trim_start s)

abbrev pub code_units : String → Text
code_units String.[] = []
code_units (String.◌∷◌ c s) = code c ∷ code_units s

-- `text.startsWith(literal, offset)`, and the rest.
unfoldable pub after_literal : Text → Text → Option Text
after_literal [] s = some s
after_literal (c ∷ literal) [] = none
after_literal (c ∷ literal) (e ∷ s) =
    let rest = after_literal literal s in if c == e then rest else none

-- The longest prefix of digits, and the rest.
unfoldable pub digits : Text → Text × Text
digits [] = ([], [])
digits (c ∷ s) = let rest = digits s in if is_digit c then (c ∷ rest.0, rest.1) else ([], c ∷ s)
