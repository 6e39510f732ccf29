-- ===== src/Profile/Accept/Best.antt =====
-- The media type that is chosen is the best that is offered (profile/content-negotiation.mjs,
-- selectMediaType).
use implement_data_space_pro.Prelude.Strings.{Text}
use implement_data_space_pro.Profile.Accept.{
  accept_ranges, is_blank, negotiated, candidate_of, media_type_of, candidates_from,
  select_media_type, matches_of, Range, Candidate, Match, match_before, candidate_before,
  selected_match,
}
use implement_data_space_pro.Prelude.{
  ◌||◌, ltb, ◌∙◌, ap, first_missing, sym, sort_by, inr, subst, ◌≤◌, ◌&&◌, Option-cases, inl, ◌==◌,
  first, ◌+◌, refl, none, leb, Bool, Option, first-sort_by, first-Among, not, all, Among, some,
  arith, false, true, ◌≡◌, List, ◌∷◌, [], ℕ,
}

match_before-asymmetric : (a b : Match) → match_before a b ≡ true → match_before b a ≡ false
unfolding match_before
match_before-asymmetric a b h = ground arith

match_before-negative :
    (a b c : Match) → match_before b a ≡ false → match_before c b ≡ false → match_before c a ≡ false
unfolding match_before
match_before-negative a b c h l = ground arith

-- `m` is more specific than the other match, or as specific and not later in the header.
abbrev takes_over : Match → Match → Bool
takes_over m other =
    ltb other.specificity m.specificity
    || (other.specificity == m.specificity && leb m.range.order other.range.order)

all-takes_over :
    (m : Match) (found : List Match)
    → all (λ other. not (match_before other m)) found ≡ true
    → all (takes_over m) found ≡ true
unfolding match_before
all-takes_over m [] h = refl
all-takes_over m (x ∷ found) h = ground (arith, all-takes_over m found)

-- The range that counts for a media type is one that matches it, and every range that matches it is
-- less specific, or as specific and not earlier in the header.
pub selected_match-first :
    (ranges : List Range) (media_type : Text) (m : Match)
    → selected_match ranges media_type ≡ some m
    → Among m (matches_of media_type ranges)
      × (all
            (λ other.
              ltb other.specificity m.specificity
              || (other.specificity == m.specificity && leb m.range.order other.range.order))
            (matches_of media_type ranges)
          ≡ true)
unfolding selected_match
selected_match-first ranges media_type m h =
    let found = matches_of media_type ranges in
    (
      first-Among match_before found m h,
      all-takes_over m found
          (first-sort_by match_before match_before-asymmetric match_before-negative found m h),
    )

candidate_before-asymmetric :
    (a b : Candidate) → candidate_before a b ≡ true → candidate_before b a ≡ false
unfolding candidate_before
candidate_before-asymmetric a b h = ground arith

candidate_before-negative :
    (a b c : Candidate)
    → candidate_before b a ≡ false
    → candidate_before c b ≡ false
    → candidate_before c a ≡ false
unfolding candidate_before
candidate_before-negative a b c h l = ground arith

given : Option Match → ℕ
given none = 0
given (some m) = m.range.quality

-- The quality that the header gives to a media type, which is 0 when no range matches it.
unfoldable pub quality_given : List Range → Text → ℕ
unfolding given
quality_given ranges media_type = given (selected_match ranges media_type)

-- No supported type has a greater quality than the one that is chosen, which is acceptable; without
-- a choice none is acceptable.
abbrev pub IsBest : List Range → List Text → Option Text → Type 0
IsBest ranges supported none = all (λ k. quality_given ranges k == 0) supported ≡ true
IsBest ranges supported (some m) =
    Among m supported
    × (1 ≤ quality_given ranges m)
    × (all (λ k. leb (quality_given ranges k) (quality_given ranges m)) supported ≡ true)

module _ (ranges : List Range) (default : Text) where
  -- What a candidate says of its media type.
  abbrev is_true_to : Candidate → Bool
  is_true_to c = c.quality == quality_given ranges c.media_type && leb 1 c.quality

  candidates-true_to :
      (n : ℕ) (supported : List Text)
      → all is_true_to (candidates_from ranges default n supported) ≡ true
  unfolding candidates_from candidate_of quality_given given
  candidates-true_to n [] = refl
  candidates-true_to n (k ∷ supported) =
      let rest = candidates-true_to (n + 1) supported in
      elim (Option-cases (selected_match ranges k)) [
        | inl missing ↦ ground (arith, missing, rest)
        | inr (m, found) ↦ ground (arith, found, rest)
      ]

  -- A bound on the qualities of the candidates is one on those of the supported types.
  candidates-cover :
      (q n : ℕ) (supported : List Text)
      → all (λ c. leb c.quality q) (candidates_from ranges default n supported) ≡ true
      → all (λ k. leb (quality_given ranges k) q) supported ≡ true
  unfolding candidates_from candidate_of quality_given given
  candidates-cover q n [] h = refl
  candidates-cover q n (k ∷ supported) h = elim (Option-cases (selected_match ranges k)) [
    | inl missing ↦ ground (arith, missing, candidates-cover q (n + 1) supported)
    | inr (m, found) ↦ ground (arith, found, candidates-cover q (n + 1) supported)
  ]

  candidates-none :
      (n : ℕ) (supported : List Text)
      → candidates_from ranges default n supported ≡ []
      → all (λ k. quality_given ranges k == 0) supported ≡ true
  unfolding candidates_from candidate_of quality_given given
  candidates-none n [] h = refl
  candidates-none n (k ∷ supported) h = elim (Option-cases (selected_match ranges k)) [
    | inl missing ↦ ground (arith, missing, candidates-none (n + 1) supported)
    | inr (m, found) ↦ ground (arith, found, candidates-none (n + 1) supported)
  ]

  candidate_of-media_type :
      (n : ℕ) (k : Text) (s : Option Match) (c : Candidate)
      → candidate_of default n k s ≡ some c
      → c.media_type ≡ k
  unfolding candidate_of
  candidate_of-media_type n k none c e = ground arith
  candidate_of-media_type n k (some m) c e = ground arith

  candidates-Among :
      (c : Candidate) (n : ℕ) (supported : List Text)
      → Among c (candidates_from ranges default n supported)
      → Among c.media_type supported
  unfolding candidates_from
  candidates-Among c n [] a = a
  candidates-Among c n (k ∷ supported) a =
      let rest = candidates_from ranges default (n + 1) supported in
      elim (Option-cases (candidate_of default n k (selected_match ranges k))) [
        | inl missing ↦
            let same : candidates_from ranges default n (k ∷ supported) ≡ rest = cc missing in
            inr (candidates-Among c (n + 1) supported (subst (Among c) same a))
        | inr (d, found) ↦
            let same : candidates_from ranges default n (k ∷ supported) ≡ d ∷ rest = cc found in
            elim (subst (Among c) same a) [
              | inl is_d ↦ inl (
                  ap (λ x. x.media_type) is_d
                  ∙ candidate_of-media_type n k (selected_match ranges k) d found)
              | inr later ↦ inr (candidates-Among c (n + 1) supported later)
            ]
      ]

  all-Among :
      (p : Candidate → Bool) (c : Candidate) (cs : List Candidate)
      → all p cs ≡ true
      → Among c cs
      → p c ≡ true
  all-Among p c [] h a = elim a [ ]
  all-Among p c (d ∷ cs) h (inl same) = subst (λ x. p x ≡ true) (sym same) (ground arith)
  all-Among p c (d ∷ cs) h (inr a) = all-Among p c cs (ground arith) a

  all-quality :
      (h : Candidate) (cs : List Candidate)
      → all (λ c. not (candidate_before c h)) cs ≡ true
      → all (λ c. leb c.quality h.quality) cs ≡ true
  unfolding candidate_before
  all-quality h [] n = refl
  all-quality h (c ∷ cs) n = ground (arith, all-quality h cs)

  negotiated-IsBest_from :
      (supported : List Text) (chosen : Option Candidate)
      → first (sort_by candidate_before (candidates_from ranges default 0 supported)) ≡ chosen
      → IsBest ranges supported (media_type_of chosen)
  unfolding media_type_of
  negotiated-IsBest_from supported none e =
      candidates-none 0 supported
        (first_missing candidate_before (candidates_from ranges default 0 supported) e)
  negotiated-IsBest_from supported (some c) e =
      let cs = candidates_from ranges default 0 supported in
      let among = first-Among candidate_before cs c e in
      let true_to = all-Among is_true_to c cs (candidates-true_to 0 supported) among in
      let cover = candidates-cover c.quality 0 supported (
        all-quality c cs (
          first-sort_by candidate_before candidate_before-asymmetric candidate_before-negative cs c
            e)) in
      let same : c.quality ≡ quality_given ranges c.media_type = ground arith in
      (
        candidates-Among c 0 supported among,
        ground arith,
        subst (λ q. all (λ k. leb (quality_given ranges k) q) supported ≡ true) same cover,
      )

-- The choice for an Accept header that is not blank is a supported type of the greatest quality that
-- the header gives, which is above 0; there is none only if it gives 0 to every supported type.
pub select_media_type-IsBest :
    (supported : List Text) (accept : Option Text) (default : Text)
    → is_blank accept ≡ false
    → IsBest (accept_ranges accept) supported (select_media_type supported accept default)
unfolding select_media_type negotiated
select_media_type-IsBest supported accept default h = rw h (
    negotiated-IsBest_from (accept_ranges accept) default supported
      (first
        (sort_by candidate_before (candidates_from (accept_ranges accept) default 0 supported)))
      refl)
