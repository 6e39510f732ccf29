-- ===== src/Profile/Accept.antt =====
-- The media type that answers an Accept header (profile/content-negotiation.mjs). A text is the list
-- of its UTF-16 code units. A quality is counted in thousandths, which its pattern allows, so that it
-- is a natural number.
pub mod Best
use implement_data_space_pro.Prelude.Strings.{is_digit, to_lower_case, trim, text_eq, split, Text}
use implement_data_space_pro.Prelude.{
  ◌*◌, ◌-◌, length, ◌&&◌, sort_by, ◌==◌, ◌||◌, any, if◌then◌else◌, some, true, first, ltb, ◌+◌,
  false, leb, all, none, Option, Bool, List, ◌∷◌, [], ok, ℕ, String,
}

pub record Range : Type 0 where
  pub order : ℕ
  pub quality : ℕ
  pub range : Text

-- [a-z0-9!#$&^_.+-]
abbrev token_char : ℕ → Bool
token_char c =
    (leb 97 c && leb c 122)
    || is_digit c
    || c == 33
    || c == 35
    || c == 36
    || c == 38
    || c == 94
    || c == 95
    || c == 46
    || c == 43
    || c == 45

abbrev star : Text
star = 42 ∷ []

is_range_token : Text → Bool
is_range_token s = all token_char s && leb 1 (length s)

-- The pattern of a range, which has one "/".
is_range_of : List Text → Bool
unfolding is_range_token
is_range_of (type ∷ subtype ∷ []) =
    (text_eq type star && text_eq subtype star)
    || (is_range_token type && (text_eq subtype star || is_range_token subtype))
is_range_of _ = false

unfoldable pub is_range : Text → Bool
unfolding is_range_of
is_range range = is_range_of (split 47 range)

-- The thousandths that up to three digits after the point say.
thousandths : Text → Option ℕ
thousandths [] = some 0
thousandths (a ∷ []) = if is_digit a then some ((a - 48) * 100) else none
thousandths (a ∷ b ∷ []) =
    if is_digit a && is_digit b then some ((a - 48) * 100 + (b - 48) * 10) else none
thousandths (a ∷ b ∷ c ∷ []) =
    if is_digit a && is_digit b && is_digit c
    then some ((a - 48) * 100 + (b - 48) * 10 + (c - 48))
    else none
thousandths _ = none

-- /^(?:0(?:\.\d{0,3})?|1(?:\.0{0,3})?)$/u, and the number.
unfoldable pub quality_of : Text → Option ℕ
unfolding thousandths
quality_of [] = none
quality_of (c ∷ []) = if c == 48 then some 0 else if c == 49 then some 1000 else none
quality_of (c ∷ point ∷ rest) =
    if c == 48 && point == 46
    then thousandths rest
    else if c == 49 && point == 46 && all (λ d. d == 48) rest && leb (length rest) 3
    then some 1000
    else none

-- `const [name, raw] = parameter.trim().split("=")`: whether the name is q, and the value.
raw_of : List Text → Text
raw_of (name ∷ raw ∷ _) = raw
raw_of _ = []

is_q : List Text → Bool
is_q [] = false
is_q (name ∷ _) = text_eq (to_lower_case name) (113 ∷ [])

-- The loop over the parameters: the last quality is taken, and none says that one is malformed.
unfoldable pub quality_after : ℕ → List Text → Option ℕ
unfolding raw_of is_q
quality_after quality [] = some quality
quality_after quality (parameter ∷ parameters) =
    let pieces = split 61 (trim parameter) in
    let unchanged = quality_after quality parameters in
    if is_q pieces
    then elim (quality_of (raw_of pieces)) [
      | none ↦ none
      | some changed ↦ quality_after changed parameters
    ]
    else unchanged

-- One part of the header; none stands for null.
range_at : ℕ → List Text → Option Range
range_at order [] = none
range_at order (range_text ∷ parameters) =
    let range = to_lower_case range_text in
    if is_range range then with_quality range (quality_after 1000 parameters) else none
  where
    with_quality : Text → Option ℕ → Option Range
    with_quality range none = none
    with_quality range (some quality) =
        some (record { order = order; quality = quality; range = range })

ranges_from : ℕ → List Text → List Range
unfolding range_at
ranges_from order [] = []
ranges_from order (part ∷ parts) =
    let rest = ranges_from (order + 1) parts in
    elim (range_at order (split 59 (trim part))) [ none ↦ rest | some range ↦ range ∷ rest ]

unfoldable pub is_blank : Option Text → Bool
is_blank none = true
is_blank (some value) = text_eq (trim value) []

unfoldable pub accept_ranges : Option Text → List Range
unfolding ranges_from is_blank
accept_ranges none = []
accept_ranges (some value) = if is_blank (some value) then [] else ranges_from 0 (split 44 value)

-- The type of `type/subtype`.
type_of : List Text → Text
type_of [] = []
type_of (type ∷ _) = type

any_subtype : List Text → Text → Bool
any_subtype (range_type ∷ range_subtype ∷ _) type =
    text_eq range_type type && text_eq range_subtype star
any_subtype _ type = false

-- none stands for -1.
unfoldable pub match_specificity : Text → Text → Option ℕ
unfolding type_of any_subtype
match_specificity range media_type =
    if text_eq range media_type
    then some 2
    else if text_eq range (42 ∷ 47 ∷ 42 ∷ [])
    then some 0
    else if any_subtype (split 47 range) (type_of (split 47 media_type))
    then some 1
    else none

pub record Match : Type 0 where
  pub range : Range
  pub specificity : ℕ

-- The ranges that match a media type.
unfoldable pub matches_of : Text → List Range → List Match
matches_of media_type [] = []
matches_of media_type (range ∷ ranges) =
    let rest = matches_of media_type ranges in
    elim (match_specificity range.range media_type) [
      | none ↦ rest
      | some n ↦ record { range = range; specificity = n } ∷ rest
    ]

unfoldable pub match_before : Match → Match → Bool
match_before a b =
    ltb b.specificity a.specificity
    || (a.specificity == b.specificity && ltb a.range.order b.range.order)

-- The range that counts for a media type.
unfoldable pub selected_match : List Range → Text → Option Match
selected_match ranges media_type = first (sort_by match_before (matches_of media_type ranges))

pub record Candidate : Type 0 where
  pub media_type : Text
  pub quality : ℕ
  pub range_order : ℕ
  pub specificity : ℕ
  -- One more than in the source, where the default has -1.
  pub supported_order : ℕ

unfoldable pub candidate_before : Candidate → Candidate → Bool
candidate_before a b =
    ltb b.quality a.quality
    || (a.quality == b.quality
        && (ltb b.specificity a.specificity
            || (a.specificity == b.specificity
                && (ltb a.range_order b.range_order
                    || (a.range_order == b.range_order
                        && ltb a.supported_order b.supported_order)))))

unfoldable pub candidate_of : Text → ℕ → Text → Option Match → Option Candidate
candidate_of default supported_order media_type none = none
candidate_of default supported_order media_type (some m) =
    if m.range.quality == 0
    then none
    else some (record {
      media_type = media_type;
      quality = m.range.quality;
      range_order = m.range.order;
      specificity = m.specificity;
      supported_order = if text_eq media_type default then 0 else supported_order + 1;
    })

-- The candidates among the supported types, from this place on.
unfoldable pub candidates_from : List Range → Text → ℕ → List Text → List Candidate
unfolding candidate_of
candidates_from ranges default n [] = []
candidates_from ranges default n (media_type ∷ supported) =
    let rest = candidates_from ranges default (n + 1) supported in
    elim (candidate_of default n media_type (selected_match ranges media_type)) [
      | none ↦ rest
      | some candidate ↦ candidate ∷ rest
    ]

unfoldable pub media_type_of : Option Candidate → Option Text
media_type_of none = none
media_type_of (some candidate) = some candidate.media_type

unfoldable pub negotiated : List Range → Text → List Text → Option Text
unfolding media_type_of
negotiated ranges default supported =
    media_type_of (first (sort_by candidate_before (candidates_from ranges default 0 supported)))

unfoldable pub select_media_type : List Text → Option Text → Text → Option Text
unfolding is_blank
select_media_type supported accept default =
    if is_blank accept
    then (if any (λ s. text_eq s default) supported then some default else none)
    else negotiated (accept_ranges accept) default supported
