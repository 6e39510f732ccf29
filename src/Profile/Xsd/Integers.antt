-- ===== src/Profile/Xsd/Integers.antt =====
-- The integer datatypes of XML Schema (profile/xsd-lexical.mjs).
use implement_data_space_pro.Profile.Xsd.{
  without_plus, all_digits, is_positive_integer, is_non_positive_integer, is_non_negative_integer,
  all_zeros, is_negative_integer, is_integer,
}
use implement_data_space_pro.Prelude.Strings.{is_digit, Text}
use implement_data_space_pro.Prelude.{
  false, refl, ◌&&◌, ◌||◌, arith, true, ◌≡◌, ◌==◌, all, ◌∷◌, [], ℕ,
}

zeros_are_digits_all : (s : Text) → all (λ c. c == 48) s ≡ true → all is_digit s ≡ true
zeros_are_digits_all [] h = refl
zeros_are_digits_all (c ∷ s) h = ground (arith, zeros_are_digits_all s)

zeros_are_digits : (s : Text) → all_zeros s ≡ true → all_digits s ≡ true
zeros_are_digits s h = ground (arith, zeros_are_digits_all s)

-- Behind a minus no number starts that is read without one.
minus_excludes : (c : ℕ) (s : Text) → (c == 45) ≡ true → all_digits (without_plus (c ∷ s)) ≡ false
minus_excludes c s h = ground arith

-- Every integer is either negative or not negative, and either positive or not positive, by the
-- validators of these datatypes; no other text is any of these.
pub integers_split :
    (s : Text)
    → (is_integer s ≡ (is_negative_integer s || is_non_negative_integer s))
      × ((is_negative_integer s && is_non_negative_integer s) ≡ false)
      × (is_integer s ≡ (is_positive_integer s || is_non_positive_integer s))
      × ((is_positive_integer s && is_non_positive_integer s) ≡ false)
unfolding is_integer is_negative_integer is_non_negative_integer is_non_positive_integer
    is_positive_integer
integers_split [] = ground arith
integers_split (c ∷ s) =
    ground (arith, zeros_are_digits s, zeros_are_digits (without_plus (c ∷ s)), minus_excludes c s)
