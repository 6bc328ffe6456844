-- ===== src/Toon/Strings/Numbers.antt =====
-- What the reader takes for a number matches the encoder's pattern, so such a string is quoted.
use specsmither.Base.{
  nat_eq, Bool-cases, nat_eq→eq, ◌≡◌, refl, ap, ◌∙◌, inl, inr, true, ◌||◌, [], ◌∷◌, arith,
}
use specsmither.Toon.Strings.{
  Codes, same_codes, sign, whole, whole_more, fraction, fraction_more, exponent, exponent_sign,
  exponent_more, next_part, may_end, matches_number,
}
use specsmither.Toon.Strings.Reader.{
  drop_digits, digits_then, ends, signed_digits, exponent_or_end, fraction_or_end, is_number,
}

pub same_codes→eq : (s t : Codes) → same_codes s t ≡ true → s ≡ t
unfolding same_codes
same_codes→eq [] [] h = refl
same_codes→eq [] (d ∷ t) h = absurd (cc)
same_codes→eq (c ∷ s) [] h = absurd (cc)
same_codes→eq (c ∷ s) (d ∷ t) h =
    let first : c ≡ d = nat_eq→eq c d (ground (arith, h)) in
    let rest : s ≡ t = same_codes→eq s t (ground (arith, h)) in
    ap (λ k. k ∷ s) first ∙ ap (d ∷◌) rest

exponent-drop : (s : Codes) → ends (drop_digits s) ≡ true → matches_number exponent_more s ≡ true
unfolding matches_number next_part may_end drop_digits ends
exponent-drop [] h = refl
exponent-drop (c ∷ s) h = ground (arith, h, exponent-drop s)

exponent-digits :
    (s : Codes)
    → digits_then ends s ≡ true
    → (matches_number exponent s ≡ true) × (matches_number exponent_sign s ≡ true)
unfolding matches_number next_part may_end digits_then
exponent-digits [] h = (absurd (cc), absurd (cc))
exponent-digits (c ∷ s) h = (ground (arith, h, exponent-drop s), ground (arith, h, exponent-drop s))

exponent-signed : (s : Codes) → signed_digits s ≡ true → matches_number exponent s ≡ true
unfolding matches_number next_part may_end signed_digits
exponent-signed [] h = absurd (cc)
exponent-signed (c ∷ s) h = elim (Bool-cases (nat_eq c 43 || nat_eq c 45)) [
  | inl e ↦
      let after : matches_number exponent_sign s ≡ true =
        (exponent-digits s (ground (arith, e, h))).1 in
      ground (arith, e, after)
  | inr e ↦
      let plain : digits_then ends (c ∷ s) ≡ true = ground (arith, e, h) in
      (exponent-digits (c ∷ s) plain).0
]

fraction-drop :
    (s : Codes) → exponent_or_end (drop_digits s) ≡ true → matches_number fraction_more s ≡ true
unfolding matches_number next_part may_end drop_digits exponent_or_end
fraction-drop [] h = refl
fraction-drop (c ∷ s) h = ground (arith, h, fraction-drop s, exponent-signed s)

fraction-digits :
    (s : Codes) → digits_then exponent_or_end s ≡ true → matches_number fraction s ≡ true
unfolding matches_number next_part may_end digits_then
fraction-digits [] h = absurd (cc)
fraction-digits (c ∷ s) h = ground (arith, h, fraction-drop s)

whole-drop :
    (s : Codes) → fraction_or_end (drop_digits s) ≡ true → matches_number whole_more s ≡ true
unfolding matches_number next_part may_end drop_digits fraction_or_end exponent_or_end
whole-drop [] h = refl
whole-drop (c ∷ s) h = ground (arith, h, whole-drop s, exponent-signed s, fraction-digits s)

whole-digits :
    (s : Codes)
    → digits_then fraction_or_end s ≡ true
    → (matches_number whole s ≡ true) × (matches_number sign s ≡ true)
unfolding matches_number next_part may_end digits_then
whole-digits [] h = (absurd (cc), absurd (cc))
whole-digits (c ∷ s) h = (ground (arith, h, whole-drop s), ground (arith, h, whole-drop s))

-- A number of the reader is one of the encoder.
pub is_number-matches_number : (s : Codes) → is_number s ≡ true → matches_number sign s ≡ true
unfolding matches_number next_part may_end is_number
is_number-matches_number [] h = absurd (cc)
is_number-matches_number (c ∷ s) h = elim (Bool-cases (nat_eq c 45)) [
  | inl e ↦
      let after : matches_number whole s ≡ true = (whole-digits s (ground (arith, e, h))).0 in
      ground (arith, e, after)
  | inr e ↦
      let plain : digits_then fraction_or_end (c ∷ s) ≡ true = ground (arith, e, h) in
      (whole-digits (c ∷ s) plain).1
]
