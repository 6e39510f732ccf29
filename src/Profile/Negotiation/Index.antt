-- ===== src/Profile/Negotiation/Index.antt =====
-- The index of the published resources (profile/content-negotiation.mjs, resourceIndex).
use implement_data_space_pro.Profile.Accept.Best.{select_media_type-IsBest, IsBest}
use implement_data_space_pro.Profile.Accept.{select_media_type, accept_ranges, is_blank}
use implement_data_space_pro.Profile.Negotiation.{
  Rules, answer_with, respond, complete_rules, media_types, invalid_negotiation_contract, is_empty,
  request_url, Index, Response, index_resources, Resource, Contract, index_iris, Url,
  resource_index, find, select_content_negotiation_response,
}
use implement_data_space_pro.Prelude.Strings.{Text, text_eq}
use implement_data_space_pro.Prelude.{
  ◌>>◌, >>-ok, ap, Option-cases, is_some, ◌∙◌, not, inr, assert_runtime, sym, inl, ok-injective,
  false, Among, >>=-ok, subst, refl, arith, ◌++◌, none, some, true, List, ◌≡◌, Option, ◌∷◌, [], ok,
}

text_eq_sound : (s t : Text) → text_eq s t ≡ true → s ≡ t
unfolding text_eq
text_eq_sound [] [] h = refl
text_eq_sound [] (d ∷ t) h = ground arith
text_eq_sound (c ∷ s) [] h = ground arith
text_eq_sound (c ∷ s) (d ∷ t) h =
    let head : c ≡ d = ground arith in
    let rest : s ≡ t = text_eq_sound s t (ground arith) in cc (head, rest)

text_eq_refl : (s : Text) → text_eq s s ≡ true
unfolding text_eq
text_eq_refl [] = refl
text_eq_refl (c ∷ s) = ground (arith, text_eq_refl s)

module _ {V : Type 0} where
  find-append :
      (k : Text) (entries more : List (Text × V)) (v : V)
      → find k entries ≡ some v
      → find k (entries ++ more) ≡ some v
  unfolding find
  find-append k [] more v h = ground arith
  find-append k ((j, w) ∷ entries) more v h = ground (arith, find-append k entries more v)

  find-last :
      (k : Text) (entries : List (Text × V)) (v : V)
      → find k entries ≡ none
      → find k (entries ++ (k, v) ∷ []) ≡ some v
  unfolding find
  find-last k [] v h = ground (arith, text_eq_refl k)
  find-last k ((j, w) ∷ entries) v h = ground (arith, find-last k entries v)

module _ (parse_url : Text → Option Url) where
  -- What a step of the inner loop has checked.
  index_iris-step :
      (resource : Resource) (iri : Text) (iris : List Text) (index next : Index)
      → index_iris parse_url resource (iri ∷ iris) index ≡ ok next
      → (find iri index ≡ none)
        × (index_iris parse_url resource iris (index ++ (iri, resource) ∷ []) ≡ ok next)
  unfolding index_iris
  index_iris-step resource iri iris index next h =
      let (parsed, _, h1) = >>=-ok (request_url parse_url iri) _ h in
      let plain = assert_runtime (is_empty parsed.search) invalid_negotiation_contract in
      let new = assert_runtime (not (is_some (find iri index))) invalid_negotiation_contract in
      let (both_ok, h2) = >>-ok (plain >> new) _ h1 in
      let (_, fresh) = >>-ok plain new both_ok in
      (ground (arith, fresh, Option-cases (find iri index)), h2)

  index_iris-keeps :
      (resource : Resource) (iris : List Text) (index next : Index) (k : Text) (r : Resource)
      → index_iris parse_url resource iris index ≡ ok next
      → find k index ≡ some r
      → find k next ≡ some r
  unfolding index_iris
  index_iris-keeps resource [] index next k r h f =
      subst (λ i. find k i ≡ some r) (ok-injective h) f
  index_iris-keeps resource (iri ∷ iris) index next k r h f =
      let (_, rest) = index_iris-step resource iri iris index next h in
      index_iris-keeps resource iris (index ++ (iri, resource) ∷ []) next k r rest
        (find-append k index ((iri, resource) ∷ []) r f)

  index_iris-finds :
      (resource : Resource) (iris : List Text) (index next : Index) (k : Text)
      → index_iris parse_url resource iris index ≡ ok next
      → Among k iris
      → find k next ≡ some resource
  index_iris-finds resource [] index next k h a = elim a [ ]
  index_iris-finds resource (iri ∷ iris) index next k h (inl same) =
      let (fresh, rest) = index_iris-step resource iri iris index next h in
      subst (λ x. find x next ≡ some resource) (sym same)
        (index_iris-keeps resource iris (index ++ (iri, resource) ∷ []) next iri resource rest
          (find-last iri index resource fresh))
  index_iris-finds resource (iri ∷ iris) index next k h (inr later) =
      let (_, rest) = index_iris-step resource iri iris index next h in
      index_iris-finds resource iris (index ++ (iri, resource) ∷ []) next k rest later

  index_resources-keeps :
      (resources : List Resource) (index next : Index) (k : Text) (r : Resource)
      → index_resources parse_url resources index ≡ ok next
      → find k index ≡ some r
      → find k next ≡ some r
  unfolding index_resources
  index_resources-keeps [] index next k r h f = subst (λ i. find k i ≡ some r) (ok-injective h) f
  index_resources-keeps (resource ∷ resources) index next k r h f =
      let (middle, first_ok, rest) =
        >>=-ok (index_iris parse_url resource resource.iris index) _ h in
      index_resources-keeps resources middle next k r rest
        (index_iris-keeps resource resource.iris index middle k r first_ok f)

  index_resources-finds :
      (resources : List Resource) (index next : Index) (r : Resource) (k : Text)
      → index_resources parse_url resources index ≡ ok next
      → Among r resources
      → Among k r.iris
      → find k next ≡ some r
  unfolding index_resources
  index_resources-finds [] index next r k h a b = elim a [ ]
  index_resources-finds (resource ∷ resources) index next r k h (inl same) b =
      let (middle, first_ok, rest) =
        >>=-ok (index_iris parse_url resource resource.iris index) _ h in
      index_resources-keeps resources middle next k r rest (
        subst (λ x. find k middle ≡ some x) (sym same)
          (index_iris-finds resource resource.iris index middle k first_ok
            (subst (λ x. Among k x.iris) same b)))
  index_resources-finds (resource ∷ resources) index next r k h (inr later) b =
      let (middle, first_ok, rest) =
        >>=-ok (index_iris parse_url resource resource.iris index) _ h in
      index_resources-finds resources middle next r k rest later b

-- In the index of a contract that is accepted every IRI of every resource leads to that resource.
pub resource_index-finds :
    (parse_url : Text → Option Url) (contract : Contract) (index : Index) (r : Resource) (k : Text)
    → resource_index parse_url contract ≡ ok index
    → Among r contract.resources
    → Among k r.iris
    → find k index ≡ some r
unfolding resource_index
resource_index-finds parse_url contract index r k h a b =
    index_resources-finds parse_url contract.resources [] index r k h a b

answer_with-chosen :
    (rules : Rules) (iri : Text) (r : Resource) (chosen : Option Text)
    → let answer = answer_with rules iri r chosen in
      (answer.media_type ≡ chosen) × (answer.iri ≡ iri)
unfolding answer_with
answer_with-chosen rules iri r none = (refl, refl)
answer_with-chosen rules iri r (some media_type) = (refl, refl)

respond-IsBest :
    (rules : Rules) (accept : Option Text) (index : Index) (parsed : Url) (r : Resource)
    → is_blank accept ≡ false
    → let answer = respond rules accept index parsed (some r) in
      IsBest (accept_ranges accept) (media_types r.representations) answer.media_type
      × (answer.iri ≡ parsed.origin ++ parsed.pathname)
unfolding respond
respond-IsBest rules accept index parsed r blank =
    let supported = media_types r.representations in
    let chosen = select_media_type supported accept rules.default_media_type in
    let (media, at) = answer_with-chosen rules (parsed.origin ++ parsed.pathname) r chosen in
    (
      subst (IsBest (accept_ranges accept) supported) (sym media)
          (select_media_type-IsBest supported accept rules.default_media_type blank),
      at,
    )

-- A request for an IRI of a resource of the contract, with an Accept header that is not blank, is
-- answered with a media type of that resource that is best for the header, or with none if none is
-- acceptable.
pub response-IsBest :
    (parse_url : Text → Option Url) (accept : Option Text) (contract : Contract) (iri k : Text)
    (parsed : Url) (r : Resource) (response : Response)
    → is_blank accept ≡ false
    → request_url parse_url iri ≡ ok parsed
    → parsed.origin ++ parsed.pathname ≡ k
    → Among r contract.resources
    → Among k r.iris
    → select_content_negotiation_response parse_url accept contract iri ≡ ok response
    → IsBest (accept_ranges accept) (media_types r.representations) response.media_type
      × (response.iri ≡ k)
unfolding select_content_negotiation_response
response-IsBest parse_url accept contract iri k parsed r response blank url same a b h =
    let (index, indexed, h1) = >>=-ok (resource_index parse_url contract) _ h in
    let (rules, _, h2) = >>=-ok (complete_rules contract.response_rules) _ h1 in
    let (parsed', again, h3) = >>=-ok (request_url parse_url iri) _ h2 in
    let found = resource_index-finds parse_url contract index r k indexed a b in
    let is_same : parsed' ≡ parsed = ok-injective (sym again ∙ url) in
    let now : respond rules accept index parsed (find (parsed.origin ++ parsed.pathname) index)
        ≡ response =
      subst (λ p. respond rules accept index p (find (p.origin ++ p.pathname) index) ≡ response)
        is_same (ok-injective h3) in
    let there : find (parsed.origin ++ parsed.pathname) index ≡ some r =
      subst (λ x. find x index ≡ some r) (sym same) found in
    let answer = ap (respond rules accept index parsed) (sym there) ∙ now in
    let (best, at) = respond-IsBest rules accept index parsed r blank in
    (
      subst (λ x. IsBest (accept_ranges accept) (media_types r.representations) x.media_type) answer
          best,
      sym (ap (λ x. x.iri) answer) ∙ at ∙ same,
    )
