-- ===== src/Profile/Tests.antt =====
-- The theorems on content negotiation (profile/content-negotiation.mjs) at a small contract.
use implement_data_space_pro.Prelude.Map.{lookup}
use implement_data_space_pro.Profile.Xsd.Integers.{integers_split}
use implement_data_space_pro.Profile.Xsd.{
  unsupported_xsd_datatype, invalid_lexical_or_value_space, valid_literal, is_hex_binary, is_double,
  valid_clock, after_date, leap_year, month_length, valid_calendar_date, valid_timezone,
  valid_duration, valid_date_time, valid_date, validators, validate_supported_xsd_literal,
  is_non_positive_integer, is_positive_integer, is_non_negative_integer, is_negative_integer,
  is_integer,
}
use implement_data_space_pro.Profile.Negotiation.Index.{resource_index-finds, response-IsBest}
use implement_data_space_pro.Profile.Accept.Best.{selected_match-first, IsBest}
use implement_data_space_pro.Profile.Accept.{
  candidate_before, media_type_of, candidate_of, candidates_from, quality_of, negotiated,
  quality_after, select_media_type, is_range, match_before, match_specificity, matches_of, is_blank,
  accept_ranges, selected_match, Match, Range,
}
use implement_data_space_pro.Profile.Negotiation.{
  answer_with, respond, complete_rules, index_iris, index_resources, media_types,
  select_content_negotiation_response, Url, resource_index, Resource, find, Contract, Response,
  request_url,
}
use implement_data_space_pro.Prelude.Strings.{
  decimal, digits, to_lower_case, onto_first, split, code_units, trim, text_eq, Text,
}
use implement_data_space_pro.Prelude.{
  leb, ◌==◌, ltb, map, ◌&&◌, ◌||◌, insert_sorted, sort_by, inl, none, refl, false, true, all, some,
  ◌≡◌, Among, Option, ◌∷◌, [], ok,
}

abbrev turtle : Text
turtle = code_units "text/turtle"

abbrev html : Text
html = code_units "text/html"

abbrev profile_iri : Text
profile_iri = code_units "https://x.example/p"

abbrev page : Url
page = record {
  protocol = "https:";
  username = [];
  password = [];
  hash = [];
  search = [];
  origin = code_units "https://x.example";
  pathname = code_units "/p";
}

abbrev parser : Text → Option Url
parser _ = some page

abbrev profile : Resource
profile = record {
  iris = profile_iri ∷ [];
  representations = (turtle, "p.ttl") ∷ (html, "p.html") ∷ [];
}

abbrev contract : Contract
contract = record {
  resources = profile ∷ [];
  response_rules = some (record {
    trailing_slash = "remove";
    redirect_status = 308;
    preserve_query = true;
    vary = code_units "Accept" ∷ [];
    default_media_type = turtle;
    not_found = 404;
    unsupported_accept = 406;
  });
}

abbrev accept : Option Text
accept = some (code_units "text/turtle;q=0.2, text/*; q=0.75")

abbrev any_text : Range
any_text = record { order = 1; quality = 750; range = code_units "text/*" }

abbrev served : Response
served = record {
  artifact = some "p.html";
  headers = record { vary = code_units "Accept"; location = none; content_type = some html };
  iri = profile_iri;
  media_type = some html;
  status = 200;
}

accept-ranges :
    accept_ranges accept ≡ record { order = 0; quality = 200; range = turtle } ∷ any_text ∷ []
unfolding accept_ranges is_blank trim split onto_first is_range to_lower_case quality_after
    quality_of text_eq
accept-ranges = refl

profile-served : select_content_negotiation_response parser accept contract profile_iri ≡ ok served
unfolding select_content_negotiation_response resource_index index_resources index_iris request_url
    find complete_rules respond answer_with media_types select_media_type negotiated candidates_from
    candidate_of media_type_of candidate_before selected_match matches_of match_specificity
    match_before sort_by insert_sorted text_eq accept_ranges is_blank trim split onto_first is_range
    to_lower_case quality_after quality_of
profile-served = refl

profile-index : resource_index parser contract ≡ ok ((profile_iri, profile) ∷ [])
unfolding resource_index index_resources index_iris request_url find text_eq
profile-index = refl

accept-filled : is_blank accept ≡ false
unfolding is_blank trim text_eq
accept-filled = refl

page-parsed : request_url parser profile_iri ≡ ok page
unfolding request_url text_eq
page-parsed = refl

html-match :
    selected_match (any_text ∷ []) html ≡ some (record { range = any_text; specificity = 1 })
unfolding selected_match matches_of match_specificity match_before sort_by insert_sorted text_eq
    split onto_first
html-match = refl

response-IsBest_example :
    IsBest (accept_ranges accept) (media_types profile.representations) (some html)
    × (profile_iri ≡ profile_iri)
response-IsBest_example =
    response-IsBest parser accept contract profile_iri profile_iri page profile served accept-filled
      page-parsed refl (inl refl) (inl refl) profile-served

resource_index-finds_example : find profile_iri ((profile_iri, profile) ∷ []) ≡ some profile
resource_index-finds_example =
    resource_index-finds parser contract ((profile_iri, profile) ∷ []) profile profile_iri
      profile-index (inl refl) (inl refl)

selected_match-first_example :
    let m : Match = record { range = any_text; specificity = 1 } in
    Among m (matches_of html (any_text ∷ []))
    × (all
          (λ other. ltb other.specificity 1 || (other.specificity == 1 && leb 1 other.range.order))
          (matches_of html (any_text ∷ []))
        ≡ true)
selected_match-first_example =
    selected_match-first (any_text ∷ []) html (record { range = any_text; specificity = 1 })
      html-match

integers_split_example :
    let s = code_units "-007" in
    (is_integer s ≡ (is_negative_integer s || is_non_negative_integer s))
    × ((is_negative_integer s && is_non_negative_integer s) ≡ false)
    × (is_integer s ≡ (is_positive_integer s || is_non_positive_integer s))
    × ((is_positive_integer s && is_non_positive_integer s) ≡ false)
integers_split_example = integers_split (code_units "-007")

dates_test :
    map
      (λ s. validate_supported_xsd_literal "date" (code_units s))
      ("2024-02-29Z" ∷ "2023-02-29" ∷ "0000-01-01" ∷ "12024-12-31+14:00" ∷ "2024-04-31" ∷ [])
    ≡ valid_literal ∷ invalid_lexical_or_value_space ∷ invalid_lexical_or_value_space
      ∷ valid_literal ∷ invalid_lexical_or_value_space ∷ []
unfolding validate_supported_xsd_literal lookup validators valid_date valid_date_time valid_duration
    valid_timezone valid_calendar_date month_length leap_year after_date valid_clock is_double
    is_hex_binary digits decimal text_eq
dates_test = refl

literals_test :
    validate_supported_xsd_literal "dateTimeStamp" (code_units "2024-01-01T24:00:00.0Z")
      ∷ validate_supported_xsd_literal "duration" (code_units "-P1YT1.5S")
      ∷ validate_supported_xsd_literal "duration" (code_units "P1YT")
      ∷ validate_supported_xsd_literal "double" (code_units "-.5e+7")
      ∷ validate_supported_xsd_literal "hexBinary" (code_units "0aF")
      ∷ validate_supported_xsd_literal "time" (code_units "00:00:00")
      ∷ []
    ≡ valid_literal ∷ valid_literal ∷ invalid_lexical_or_value_space ∷ valid_literal
      ∷ invalid_lexical_or_value_space ∷ unsupported_xsd_datatype ∷ []
unfolding validate_supported_xsd_literal lookup validators valid_date valid_date_time valid_duration
    valid_timezone valid_calendar_date month_length leap_year after_date valid_clock is_double
    is_hex_binary digits decimal text_eq
literals_test = refl
