-- ===== src/Profile/Negotiation.antt =====
-- The answer to a request for a published resource (profile/content-negotiation.mjs). `parse_url` is
-- the URL parser of the platform.
pub mod Index
use implement_data_space_pro.Profile.Accept.{select_media_type}
use implement_data_space_pro.Prelude.Strings.{text_eq, Text}
use implement_data_space_pro.Prelude.{
  length, not, ◌&&◌, take, is_some, str_eq, ◌==◌, ◌>>◌, last, assert_runtime, if◌then◌else◌, none,
  map, some, ◌++◌, err, ◌>>=◌, Throws, Option, Bool, List, ◌∷◌, [], ok, ℕ, String,
}

pub data NegotiationError : Type 0 where
  invalid_negotiation_iri invalid_negotiation_contract : NegotiationError

abbrev pub Checked : Type 0 → Type 0
Checked A = Throws NegotiationError A

pub record Url : Type 0 where
  pub protocol : String
  pub username : Text
  pub password : Text
  pub hash : Text
  pub search : Text
  pub origin : Text
  pub pathname : Text

abbrev pub is_empty : Text → Bool
is_empty s = text_eq s []

abbrev when_parsed : Option Url → Checked Url
when_parsed none = err invalid_negotiation_iri
when_parsed (some parsed) =
    if str_eq parsed.protocol "https:"
      && is_empty parsed.username
      && is_empty parsed.password
      && is_empty parsed.hash
    then ok parsed
    else err invalid_negotiation_iri

unfoldable pub request_url : (Text → Option Url) → Text → Checked Url
request_url parse_url value = when_parsed (parse_url value)

pub record Resource : Type 0 where
  pub iris : List Text
  -- From media types to artifacts.
  pub representations : List (Text × String)

pub record Rules : Type 0 where
  pub trailing_slash : String
  pub redirect_status : ℕ
  pub preserve_query : Bool
  pub vary : List Text
  pub default_media_type : Text
  pub not_found : ℕ
  pub unsupported_accept : ℕ

-- What the shape of the contract is checked for is its type here, but for missing response rules.
pub record Contract : Type 0 where
  pub resources : List Resource
  pub response_rules : Option Rules

abbrev pub Index : Type 0
Index = List (Text × Resource)

unfoldable pub find : {V : Type 0} → Text → List (Text × V) → Option V
find key [] = none
find key ((k, v) ∷ entries) = let rest = find key entries in if text_eq k key then some v else rest

module _ (parse_url : Text → Option Url) where
  -- The inner loop of resourceIndex.
  unfoldable pub index_iris : Resource → List Text → Index → Checked Index
  index_iris resource [] index = ok index
  index_iris resource (iri ∷ iris) index =
      let rest = index_iris resource iris (index ++ (iri, resource) ∷ []) in
      request_url parse_url iri >>= λ parsed.
      assert_runtime (is_empty parsed.search) invalid_negotiation_contract
      >> assert_runtime (not (is_some (find iri index))) invalid_negotiation_contract
      >> rest

  unfoldable pub index_resources : List Resource → Index → Checked Index
  index_resources [] index = ok index
  index_resources (resource ∷ resources) index =
      index_iris resource resource.iris index >>= λ next. index_resources resources next

  unfoldable pub resource_index : Contract → Checked Index
  unfolding index_resources
  resource_index contract = index_resources contract.resources []

pub record Headers : Type 0 where
  pub vary : Text
  pub location : Option Text
  pub content_type : Option Text

pub record Response : Type 0 where
  pub artifact : Option String
  pub headers : Headers
  pub iri : Text
  pub media_type : Option Text
  pub status : ℕ

-- `list.join(", ")`
join : List Text → Text
join [] = []
join (s ∷ []) = s
join (s ∷ t ∷ rest) = s ++ (44 ∷ 32 ∷ join (t ∷ rest))

unfoldable pub complete_rules : Option Rules → Checked Rules
complete_rules none = err invalid_negotiation_contract
complete_rules (some rules) =
    if str_eq rules.trailing_slash "remove" && rules.redirect_status == 308 && rules.preserve_query
    then ok rules
    else err invalid_negotiation_contract

-- `pathname.slice(0, -1)` of a path that is longer than 1 and ends with "/"; none for another path.
without_slash : Text → Option Text
without_slash [] = none
without_slash (c ∷ s) = elim (last s) [
  | none ↦ none
  | some d ↦ if d == 47 then some (take (length s) (c ∷ s)) else none
]

abbrev empty_answer : Rules → Text → ℕ → Response
empty_answer rules iri status = record {
  artifact = none;
  headers = record { vary = join rules.vary; location = none; content_type = none };
  iri = iri;
  media_type = none;
  status = status;
}

unfoldable pub redirect : Rules → Url → Text → Response
unfolding join
redirect rules parsed target = record (empty_answer rules target rules.redirect_status) {
  headers = record {
    vary = join rules.vary;
    location = some (target ++ parsed.search);
    content_type = none;
  };
}

-- The answer when no resource has the address.
unfoldable pub missing_answer : Rules → Index → Url → Response
unfolding join redirect without_slash
missing_answer rules index parsed = elim (without_slash parsed.pathname) [
  | none ↦ empty_answer rules (parsed.origin ++ parsed.pathname) rules.not_found
  | some path ↦
      if is_some (find (parsed.origin ++ path) index)
      then redirect rules parsed (parsed.origin ++ path)
      else empty_answer rules (parsed.origin ++ parsed.pathname) rules.not_found
]

unfoldable pub answer_with : Rules → Text → Resource → Option Text → Response
unfolding join
answer_with rules iri resource none = empty_answer rules iri rules.unsupported_accept
answer_with rules iri resource (some media_type) = record {
  artifact = find media_type resource.representations;
  headers = record { vary = join rules.vary; location = none; content_type = some media_type };
  iri = iri;
  media_type = some media_type;
  status = 200;
}

unfoldable pub media_types : List (Text × String) → List Text
media_types representations = map (λ r. r.0) representations

unfoldable pub respond : Rules → Option Text → Index → Url → Option Resource → Response
unfolding missing_answer answer_with media_types
respond rules accept index parsed none = missing_answer rules index parsed
respond rules accept index parsed (some resource) =
    answer_with rules (parsed.origin ++ parsed.pathname) resource
      (select_media_type (media_types resource.representations) accept rules.default_media_type)

unfoldable pub select_content_negotiation_response :
    (Text → Option Url) → Option Text → Contract → Text → Checked Response
unfolding complete_rules respond
select_content_negotiation_response parse_url accept contract iri = do
  index ← resource_index parse_url contract
  rules ← complete_rules contract.response_rules
  parsed ← request_url parse_url iri
  ok (respond rules accept index parsed (find (parsed.origin ++ parsed.pathname) index))
