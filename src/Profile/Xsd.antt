-- ===== src/Profile/Xsd.antt =====
-- The lexical forms of the XML Schema datatypes (profile/xsd-lexical.mjs). A text is the list of its
-- UTF-16 code units. A year is its absolute value, which is all that the calendar asks of it.
pub mod Integers
use implement_data_space_pro.Prelude.Map.{lookup, Map}
use implement_data_space_pro.Prelude.Strings.{code_units, decimal, text_eq, is_digit, digits, Text}
use implement_data_space_pro.Prelude.{
  ◌≡◌, true, ◌+◌, ◌*◌, ◌-◌, ltb, all, ◌||◌, leb, ◌&&◌, length, ◌==◌, some, none, ◌%◌, not, false,
  if◌then◌else◌, Bool, Option, ◌∷◌, [], ok, ℕ, String,
}

abbrev two : Text → Option (ℕ × Text)
two [] = none
two (a ∷ []) = none
two (a ∷ b ∷ s) = if is_digit a && is_digit b then some ((a - 48) * 10 + (b - 48), s) else none

abbrev in_zone : Option (ℕ × Text) → Option (ℕ × Text) → Bool
in_zone (some (hours, _)) (some (minutes, [])) =
    leb minutes 59 && (ltb hours 14 || (hours == 14 && minutes == 0))
in_zone _ _ = false

behind_colon : Option (ℕ × Text) → Option (ℕ × Text)
behind_colon none = none
behind_colon (some (_, [])) = none
behind_colon (some (_, c ∷ s)) = if c == 58 then two s else none

-- The rest of a date: nothing unless it is required, Z, or an offset.
unfoldable pub valid_timezone : Text → Bool → Bool
unfolding behind_colon
valid_timezone [] required = not required
valid_timezone (c ∷ s) required =
    text_eq (c ∷ s) (90 ∷ []) || ((c == 43 || c == 45) && in_zone (two s) (behind_colon (two s)))

unfoldable pub leap_year : ℕ → Bool
leap_year year = year % 4 == 0 && (not (year % 100 == 0) || year % 400 == 0)

unfoldable pub month_length : ℕ → ℕ → ℕ
unfolding leap_year
month_length year month =
    if month == 2
    then (if leap_year year then 29 else 28)
    else if month == 4 || month == 6 || month == 9 || month == 11
    then 30
    else 31

unfoldable pub valid_calendar_date : ℕ → ℕ → ℕ → Bool
valid_calendar_date year month day =
    not (year == 0) && leb 1 month && leb month 12 && leb 1 day && leb day (month_length year month)

without_minus : Text → Text
without_minus [] = []
without_minus (c ∷ s) = if c == 45 then s else c ∷ s

-- Four digits, or more that do not start with 0.
is_year : Text → Bool
is_year [] = false
is_year (c ∷ s) = if c == 48 then length s == 3 else leb 3 (length s)

-- A dash and two digits.
dashed : Text → Option (ℕ × Text)
dashed [] = none
dashed (c ∷ s) = if c == 45 then two s else none

with_day : ℕ → ℕ → Option (ℕ × Text) → Option Text
with_day year month none = none
with_day year month (some (day, rest)) =
    if valid_calendar_date year month day then some rest else none

with_month : ℕ → Option (ℕ × Text) → Option Text
unfolding with_day
with_month year none = none
with_month year (some (month, rest)) = with_day year month (dashed rest)

-- The text behind a date of the calendar.
unfoldable pub after_date : Text → Option Text
unfolding without_minus is_year dashed with_month
after_date s =
    let found = digits (without_minus s) in
    if is_year found.0 then with_month (decimal 0 found.0) (dashed found.1) else none

date_ends : Option Text → Bool
date_ends none = false
date_ends (some rest) = valid_timezone rest false

unfoldable pub valid_date : Text → Bool
unfolding date_ends
valid_date s = date_ends (after_date s)

-- The digits behind a point, if they are there, and the rest.
fractional : Text → Text × Text
fractional [] = ([], [])
fractional (c ∷ s) =
    let found = digits s in if c == 46 && leb 1 (length found.0) then found else ([], c ∷ s)

marked : ℕ → Text → Option (ℕ × Text)
marked mark [] = none
marked mark (c ∷ s) = if c == mark then two s else none

unfoldable pub valid_clock : Bool → ℕ → ℕ → ℕ → Text → Bool
unfolding fractional
valid_clock required hours minutes seconds rest =
    let found = fractional rest in
    let end_of_day = hours == 24 && minutes == 0 && seconds == 0 && all (λ c. c == 48) found.0 in
    (leb hours 23 || end_of_day)
    && leb minutes 59
    && leb seconds 59
    && valid_timezone found.1 required

with_seconds : Bool → ℕ → ℕ → Option (ℕ × Text) → Bool
with_seconds required hours minutes none = false
with_seconds required hours minutes (some (seconds, rest)) =
    valid_clock required hours minutes seconds rest

with_minutes : Bool → ℕ → Option (ℕ × Text) → Bool
unfolding marked with_seconds
with_minutes required hours none = false
with_minutes required hours (some (minutes, rest)) =
    with_seconds required hours minutes (marked 58 rest)

with_hours : Bool → Option (ℕ × Text) → Bool
unfolding with_minutes
with_hours required none = false
with_hours required (some (hours, rest)) = with_minutes required hours (marked 58 rest)

with_date : Bool → Option Text → Bool
unfolding with_hours
with_date required none = false
with_date required (some rest) = with_hours required (marked 84 rest)

unfoldable pub valid_date_time : Text → Bool → Bool
unfolding with_date
valid_date_time s required = with_date required (after_date s)

-- A part of a duration: digits and the unit; whether it is there, and the rest.
part : ℕ → Text → Bool × Text
part unit s = taken (digits s)
  where
    taken : Text × Text → Bool × Text
    taken ([], rest) = (false, s)
    taken (c ∷ ds, []) = (false, s)
    taken (c ∷ ds, e ∷ rest) = if e == unit then (true, rest) else (false, s)

-- The seconds may have a fraction.
seconds_part : Text → Bool × Text
unfolding part fractional
seconds_part s =
    let found = digits s in
    let rest = (fractional found.1).1 in
    if leb 1 (length found.0) && at_unit rest then (true, behind rest) else (false, s)
  where
    at_unit : Text → Bool
    at_unit [] = false
    at_unit (c ∷ s) = c == 83

    behind : Text → Text
    behind [] = []
    behind (c ∷ s) = s

-- Behind "T": the time, of which some part must be there.
time_part : Text → Bool
unfolding part seconds_part
time_part s =
    let hours = part 72 s in
    let minutes = part 77 hours.1 in
    let seconds = seconds_part minutes.1 in
    text_eq seconds.1 [] && (hours.0 || minutes.0 || seconds.0)

ends_or_time : Bool → Text → Bool
unfolding time_part
ends_or_time has_date [] = has_date
ends_or_time has_date (c ∷ s) = c == 84 && time_part s

date_part : Text → Bool
unfolding part ends_or_time
date_part s =
    let years = part 89 s in
    let months = part 77 years.1 in
    let days = part 68 months.1 in ends_or_time (years.0 || months.0 || days.0) days.1

behind_p : Text → Bool
unfolding date_part
behind_p [] = false
behind_p (c ∷ s) = c == 80 && date_part s

unfoldable pub valid_duration : Text → Bool
unfolding behind_p without_minus
valid_duration s = behind_p (without_minus s)

abbrev pub all_digits : Text → Bool
all_digits s = all is_digit s && leb 1 (length s)

abbrev pub all_zeros : Text → Bool
all_zeros s = all (λ c. c == 48) s && leb 1 (length s)

abbrev pub without_plus : Text → Text
without_plus [] = []
without_plus (c ∷ s) = if c == 43 then s else c ∷ s

-- A test of what stands behind a minus.
abbrev pub minus_then : (Text → Bool) → Text → Bool
minus_then p [] = false
minus_then p (c ∷ s) = c == 45 && p s

unfoldable pub is_integer : Text → Bool
is_integer s = all_digits (without_plus s) || minus_then all_digits s

unfoldable pub is_negative_integer : Text → Bool
is_negative_integer s = minus_then all_digits s && not (minus_then all_zeros s)

unfoldable pub is_non_negative_integer : Text → Bool
is_non_negative_integer s = all_digits (without_plus s) || minus_then all_zeros s

unfoldable pub is_non_positive_integer : Text → Bool
is_non_positive_integer s = minus_then all_digits s || all_zeros (without_plus s)

unfoldable pub is_positive_integer : Text → Bool
is_positive_integer s = all_digits (without_plus s) && not (all_zeros (without_plus s))

unfoldable pub is_boolean : Text → Bool
is_boolean s =
    text_eq s (code_units "true")
    || text_eq s (code_units "false")
    || text_eq s (48 ∷ [])
    || text_eq s (49 ∷ [])

unsigned : Text → Text
unsigned [] = []
unsigned (c ∷ s) = if c == 43 || c == 45 then s else c ∷ s

-- Behind the digits before a point: the rest of a decimal number.
behind_point : Bool → Text → Text
behind_point has_whole [] = []
behind_point has_whole (c ∷ s) =
    let found = digits s in
    if c == 46 && (has_whole || leb 1 (length found.0)) then found.1 else c ∷ s

-- What is left behind the longest decimal number at the start, if there is one.
after_decimal : Text → Option Text
unfolding unsigned behind_point
after_decimal s =
    let found = digits (unsigned s) in
    let has_whole = leb 1 (length found.0) in
    let rest = behind_point has_whole found.1 in
    if has_whole || ltb (length rest) (length found.1) then some rest else none

ends : Option Text → Bool
ends none = false
ends (some rest) = text_eq rest []

unfoldable pub is_decimal : Text → Bool
unfolding after_decimal ends
is_decimal s = ends (after_decimal s)

exponent_ends : Option Text → Bool
unfolding unsigned
exponent_ends none = false
exponent_ends (some []) = true
exponent_ends (some (c ∷ s)) = (c == 69 || c == 101) && all_digits (unsigned s)

unfoldable pub is_double : Text → Bool
unfolding after_decimal exponent_ends without_minus
is_double s =
    text_eq (without_minus s) (code_units "INF")
    || text_eq s (code_units "NaN")
    || exponent_ends (after_decimal s)

unfoldable pub is_hex_binary : Text → Bool
is_hex_binary [] = true
is_hex_binary (a ∷ []) = false
is_hex_binary (a ∷ b ∷ s) = is_any_hex a && is_any_hex b && is_hex_binary s
  where
    is_any_hex : ℕ → Bool
    is_any_hex c = is_digit c || (leb 97 c && leb c 102) || (leb 65 c && leb c 70)

-- The validators by the local name of the datatype.
unfoldable pub validators : Map (Text → Bool)
unfolding is_boolean valid_date valid_date_time is_decimal is_double valid_duration is_hex_binary
    is_integer is_negative_integer is_non_negative_integer is_non_positive_integer
    is_positive_integer
validators =
    ("boolean", is_boolean)
    ∷ ("date", valid_date)
    ∷ ("dateTime", λ s. valid_date_time s false)
    ∷ ("dateTimeStamp", λ s. valid_date_time s true)
    ∷ ("decimal", is_decimal)
    ∷ ("double", is_double)
    ∷ ("duration", valid_duration)
    ∷ ("float", is_double)
    ∷ ("hexBinary", is_hex_binary)
    ∷ ("integer", is_integer)
    ∷ ("negativeInteger", is_negative_integer)
    ∷ ("nonNegativeInteger", is_non_negative_integer)
    ∷ ("nonPositiveInteger", is_non_positive_integer)
    ∷ ("positiveInteger", is_positive_integer)
    ∷ ("string", λ _. true)
    ∷ []

pub data Verdict : Type 0 where
  valid_literal invalid_lexical_or_value_space unsupported_xsd_datatype : Verdict

-- The verdict on a literal whose datatype has this local name in the XSD namespace.
unfoldable pub validate_supported_xsd_literal : String → Text → Verdict
unfolding validators
validate_supported_xsd_literal datatype value = verdict (lookup datatype validators)
  where
    verdict : Option (Text → Bool) → Verdict
    verdict none = unsupported_xsd_datatype
    verdict (some validate) =
        if validate value then valid_literal else invalid_lexical_or_value_space
