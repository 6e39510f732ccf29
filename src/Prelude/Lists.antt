-- ===== src/Prelude/Lists.antt =====
-- Lists measured by native numbers, under the library's names.
use Prim.Native.Nat.{ℕ, zero, suc, ◌+◌, min}
use mathlib.Core.Path.{◌≡◌, refl, ap, sym, ◌∙◌}
use mathlib.Core.Logic.{◌⊎◌, inl, inr}
use mathlib.Core.Bool.{Bool, true, false, ◌&&◌, ◌||◌, not}
use mathlib.Core.List.{List, [], ◌∷◌, ◌++◌, map}
use mathlib.Core.Option.{Option, none, some}
use native.Mathlib.Omega.{arith}
use implement_data_space_pro.Prelude.Tests.{if◌then◌else◌, Bool-cases}

module _ {ℓ} {A : Type ℓ} where
  abbrev pub length : List A → ℕ
  length [] = 0
  length (x ∷ xs) = suc (length xs)

  abbrev pub take : ℕ → List A → List A
  take zero xs = []
  take (suc n) [] = []
  take (suc n) (x ∷ xs) = x ∷ take n xs

  abbrev pub any : (A → Bool) → List A → Bool
  any p [] = false
  any p (x ∷ xs) = p x || any p xs

  abbrev pub all : (A → Bool) → List A → Bool
  all p [] = true
  all p (x ∷ xs) = p x && all p xs

  -- The last element, `xs.at(-1)`.
  abbrev pub last : List A → Option A
  last [] = none
  last (x ∷ []) = some x
  last (x ∷ y ∷ xs) = last (y ∷ xs)

  pub length-append : (xs ys : List A) → length (xs ++ ys) ≡ length xs + length ys
  length-append [] ys = omega arith
  length-append (x ∷ xs) ys = omega (arith, length-append xs ys)

  pub length-take : (n : ℕ) (xs : List A) → length (take n xs) ≡ min n (length xs)
  length-take zero xs = omega arith
  length-take (suc n) [] = omega arith
  length-take (suc n) (x ∷ xs) = omega (arith, length-take n xs)

  pub last-append : (xs : List A) (x : A) → last (xs ++ x ∷ []) ≡ some x
  last-append [] x = refl
  last-append (y ∷ []) x = refl
  last-append (y ∷ z ∷ xs) x = last-append (z ∷ xs) x

-- `Array.prototype.sort`, which is stable: `before a b` says that the comparator is negative. A
-- consistent comparator determines the stable order, which insertion computes.
module _ {ℓ} {A : Type ℓ} where
  unfoldable pub insert_sorted : (A → A → Bool) → A → List A → List A
  insert_sorted before x [] = x ∷ []
  insert_sorted before x (y ∷ ys) = if before y x then y ∷ insert_sorted before x ys else x ∷ y ∷ ys

  unfoldable pub sort_by : (A → A → Bool) → List A → List A
  unfolding insert_sorted
  sort_by before [] = []
  sort_by before (x ∷ xs) = insert_sorted before x (sort_by before xs)

  unfoldable pub filter : (A → Bool) → List A → List A
  filter p [] = []
  filter p (x ∷ xs) = if p x then x ∷ filter p xs else filter p xs

  -- A test that all elements pass is passed by those that filtering, sorting and cutting leave.
  pub all-filter : (p q : A → Bool) (xs : List A) → all q xs ≡ true → all q (filter p xs) ≡ true
  unfolding filter
  all-filter p q [] h = refl
  all-filter p q (x ∷ xs) h = ground (arith, all-filter p q xs)

  pub all-filter_self : (p : A → Bool) (xs : List A) → all p (filter p xs) ≡ true
  unfolding filter
  all-filter_self p [] = refl
  all-filter_self p (x ∷ xs) = ground (arith, all-filter_self p xs)

  pub all-insert_sorted :
      (before : A → A → Bool) (q : A → Bool) (x : A) (xs : List A)
      → all q (insert_sorted before x xs) ≡ (q x && all q xs)
  unfolding insert_sorted
  all-insert_sorted before q x [] = refl
  all-insert_sorted before q x (y ∷ ys) = ground (arith, all-insert_sorted before q x ys)

  pub all-sort_by :
      (before : A → A → Bool) (q : A → Bool) (xs : List A) → all q (sort_by before xs) ≡ all q xs
  unfolding sort_by
  all-sort_by before q [] = refl
  all-sort_by before q (x ∷ xs) =
      all-insert_sorted before q x (sort_by before xs)
      ∙ ap (λ b. q x && b) (all-sort_by before q xs)

  pub all-take : (n : ℕ) (q : A → Bool) (xs : List A) → all q xs ≡ true → all q (take n xs) ≡ true
  all-take zero q xs h = refl
  all-take (suc n) q [] h = refl
  all-take (suc n) q (x ∷ xs) h = ground (arith, all-take n q xs)

pub length-map {ℓ κ} :
    {A : Type ℓ} {B : Type κ} (f : A → B) (xs : List A) → length (map f xs) ≡ length xs
length-map f [] = refl
length-map f (x ∷ xs) = ap suc (length-map f xs)

pub all-append {ℓ} :
    {A : Type ℓ} (p : A → Bool) (xs ys : List A) → all p (xs ++ ys) ≡ (all p xs && all p ys)
all-append p [] ys = refl
all-append p (x ∷ xs) ys = ground (arith, all-append p xs ys)

-- One of the elements.
abbrev pub Among : {A : Type 0} → A → List A → Type 0
Among x [] = ⊥
Among x (y ∷ ys) = (x ≡ y) ⊎ Among x ys

abbrev pub first {ℓ} : {A : Type ℓ} → List A → Option A
first [] = none
first (x ∷ xs) = some x

-- With an order that is asymmetric and negatively transitive the first of the sorted elements is one
-- before which none comes.
module _ {A : Type 0} (before : A → A → Bool)
    (asymmetric : (a b : A) → before a b ≡ true → before b a ≡ false)
    (negative : (a b c : A) → before b a ≡ false → before c b ≡ false → before c a ≡ false) where
  abbrev none_before : A → List A → Bool
  none_before h xs = all (λ x. not (before x h)) xs

  none_before-weaken :
      (h x : A) (xs : List A)
      → before h x ≡ false
      → none_before h xs ≡ true
      → none_before x xs ≡ true
  none_before-weaken h x [] b n = refl
  none_before-weaken h x (y ∷ ys) b n =
      ground (arith, negative x h y b, none_before-weaken h x ys b)

  first-insert_sorted :
      (x h : A) (ys : List A)
      → ((g : A) → first ys ≡ some g → none_before g ys ≡ true)
      → first (insert_sorted before x ys) ≡ some h
      → none_before h (insert_sorted before x ys) ≡ true
  unfolding insert_sorted
  first-insert_sorted x h [] i e = ground (arith, asymmetric x x)
  first-insert_sorted x h (y ∷ ys) i e =
      let old : none_before y (y ∷ ys) ≡ true = i y refl in
      elim (Bool-cases (before y x)) [
        | inl less ↦ ground (
          arith,
          less,
          old,
          asymmetric y x,
          all-insert_sorted before (λ z. not (before z y)) x ys,
        )
        | inr more ↦ ground (arith, more, old, asymmetric x x, none_before-weaken y x ys)
      ]

  first-sorted :
      (xs : List A) (h : A)
      → first (sort_by before xs) ≡ some h
      → none_before h (sort_by before xs) ≡ true
  unfolding sort_by
  first-sorted [] h e = refl
  first-sorted (x ∷ xs) h e = first-insert_sorted x h (sort_by before xs) (first-sorted xs) e

  pub first-sort_by :
      (xs : List A) (h : A) → first (sort_by before xs) ≡ some h → none_before h xs ≡ true
  first-sort_by xs h e = sym (all-sort_by before (λ x. not (before x h)) xs) ∙ first-sorted xs h e

-- The first of the sorted elements is one of them, and is missing only if there is none.
module _ {A : Type 0} (before : A → A → Bool) where
  split_first :
      (x h : A) (ys : List A)
      → first (insert_sorted before x ys) ≡ some h
      → (x ≡ h) ⊎ (first ys ≡ some h)
  unfolding insert_sorted
  split_first x h [] e = inl (ground arith)
  split_first x h (y ∷ ys) e = elim (Bool-cases (before y x)) [
    | inl less ↦ inr (ground (arith, less))
    | inr more ↦ inl (ground (arith, more))
  ]

  pub first-Among : (xs : List A) (h : A) → first (sort_by before xs) ≡ some h → Among h xs
  unfolding sort_by
  first-Among [] h e = ground arith
  first-Among (x ∷ xs) h e = elim (split_first x h (sort_by before xs) e) [
    | inl same ↦ inl (sym same)
    | inr later ↦ inr (first-Among xs h later)
  ]

  pub first_missing : (xs : List A) → first (sort_by before xs) ≡ none → xs ≡ []
  unfolding sort_by
  first_missing [] e = refl
  first_missing (x ∷ xs) e = filled x (sort_by before xs) e
    where
      filled : (x : A) (ys : List A) → first (insert_sorted before x ys) ≡ none → x ∷ xs ≡ []
      filled x [] e = unfold insert_sorted in ground arith
      filled x (y ∷ ys) e = unfold insert_sorted in ground arith
