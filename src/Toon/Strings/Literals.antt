-- ===== src/Toon/Strings/Literals.antt =====
-- An encoded string: the reader goes through it without a split, and reads it back.
use specsmither.Toon.Strings.Numbers.{same_codes→eq, is_number-matches_number}
use specsmither.Toon.Strings.Reader.{
  Place, outside, inside, next_place, splits, cells, cons_to, reveal, read_quoted, read_cell, text,
  is_word, read_unquoted, read_text,
}
use mathlib.Core.List.{append_assoc}
use specsmither.Base.{
  nat_eq, if◌then◌else◌, ℕ, ◌≡◌, refl, ap, ◌∙◌, Bool, true, false, not, ◌&&◌, some, [], ◌∷◌, ◌++◌,
  arith, Bool-cases, nat_eq→eq, sym, inl, inr, ◌||◌,
}
use specsmither.Toon.Strings.{
  Codes, quote, backslash, newline, Delimiter, delimiter_code, has_code, is_safe_unquoted,
  encode_string_literal, comma, tab, pipe, js_trim_ws, strip, same_codes,
  is_boolean_or_null_literal, is_numeric_like, starts_with,
}
use specsmither.Toon.Strings.Escapes.{hide, hide_all, escape_string-hide_all}

-- No code point of the text splits.
unfoldable pub calm : ℕ → Place → Codes → Bool
calm d place [] = true
calm d place (c ∷ s) = not (splits d place c) && calm d (next_place place c) s

unfoldable pub land : Place → Codes → Place
land place [] = place
land place (c ∷ s) = land (next_place place c) s

pub cells-calm :
    (d : ℕ) (place : Place) (u s : Codes)
    → calm d place u ≡ true
    → cells d place (u ++ s) ≡ (u ++ (cells d (land place u) s).0, (cells d (land place u) s).1)
unfolding cells calm land
cells-calm d place [] s h = refl
cells-calm d place (c ∷ u) s h =
    let quiet : splits d place c ≡ false = ground (arith, h) in
    let rest : calm d (next_place place c) u ≡ true = ground (arith, h) in
    rw quiet (ap (λ k. (c ∷ k.0, k.1)) (cells-calm d (next_place place c) u s rest))

calm-append :
    (d : ℕ) (place : Place) (u s : Codes)
    → calm d place (u ++ s) ≡ (calm d place u && calm d (land place u) s)
unfolding calm land
calm-append d place [] s = refl
calm-append d place (c ∷ u) s = ground (arith, calm-append d (next_place place c) u s)

land-append : (place : Place) (u s : Codes) → land place (u ++ s) ≡ land (land place u) s
unfolding land
land-append place [] s = refl
land-append place (c ∷ u) s = land-append (next_place place c) u s

hide-inside : (d c : ℕ) → (calm d inside (hide c) ≡ true) × (land inside (hide c) ≡ inside)
unfolding hide calm land next_place splits
hide-inside d c = (ground arith, ground arith)

hide_all-inside :
    (d : ℕ) (s : Codes) → (calm d inside (hide_all s) ≡ true) × (land inside (hide_all s) ≡ inside)
unfolding hide_all calm land
hide_all-inside d [] = (refl, refl)
hide_all-inside d (c ∷ s) =
    let (a, b) = hide-inside d c in
    let (e, f) = hide_all-inside d s in
    (
      calm-append d inside (hide c) (hide_all s) ∙ rw (a, b, e) refl,
      land-append inside (hide c) (hide_all s) ∙ rw (b, f) refl,
    )

plain-outside :
    (d : ℕ) (s : Codes)
    → has_code d s ≡ false
    → has_code quote s ≡ false
    → (calm d outside s ≡ true) × (land outside s ≡ outside)
unfolding calm land next_place splits has_code
plain-outside d [] h k = (refl, refl)
plain-outside d (c ∷ s) h k =
    let (a, b) = plain-outside d s (ground (arith, h)) (ground (arith, k)) in
    (ground (arith, a, h, k), ground (arith, b, h, k))

-- The tests of `is_safe_unquoted` in their order.
passed :
    (trimmed literal numeric colon q b b1 b2 b3 b4 n r t d hyphen : Bool)
    → (if not trimmed
        then false
        else if literal || numeric
        then false
        else if colon
        then false
        else if q || b
        then false
        else if b1 || b2 || b3 || b4
        then false
        else if n || r || t
        then false
        else if d
        then false
        else not hyphen)
      ≡ true
    → (d ≡ false)
      × (q ≡ false)
      × (n ≡ false)
      × (trimmed ≡ true)
      × (literal ≡ false)
      × (numeric ≡ false)
passed trimmed literal numeric colon q b b1 b2 b3 b4 n r t d hyphen h = (
  ground (arith, h),
  ground (arith, h),
  ground (arith, h),
  ground (arith, h),
  ground (arith, h),
  ground (arith, h),
)

-- What a string that stays unquoted is free of.
safe-free :
    (v : Codes) (d : Delimiter)
    → is_safe_unquoted v d ≡ true
    → (has_code (delimiter_code d) v ≡ false)
      × (has_code quote v ≡ false)
      × (has_code newline v ≡ false)
      × (same_codes v (strip js_trim_ws v) ≡ true)
      × (is_boolean_or_null_literal v ≡ false)
      × (is_numeric_like v ≡ false)
unfolding is_safe_unquoted
safe-free [] d h = absurd (cc)
safe-free (c ∷ s) d h =
    let v = c ∷ s in
    passed (same_codes v (strip js_trim_ws v)) (is_boolean_or_null_literal v) (is_numeric_like v)
      (has_code 58 v) (has_code quote v) (has_code backslash v) (has_code 91 v) (has_code 93 v)
      (has_code 123 v) (has_code 125 v) (has_code newline v) (has_code 13 v) (has_code 9 v)
      (has_code (delimiter_code d) v) (starts_with 45 v) h

delimiter-quote : (d : Delimiter) → nat_eq quote (delimiter_code d) ≡ false
delimiter-quote comma = refl
delimiter-quote tab = refl
delimiter-quote pipe = refl

-- An encoded string is read through without a split, and leaves the reader outside quotes.
pub literal-outside :
    (v : Codes) (d : Delimiter)
    → (calm (delimiter_code d) outside (encode_string_literal v d) ≡ true)
      × (land outside (encode_string_literal v d) ≡ outside)
unfolding encode_string_literal
literal-outside v d = elim (Bool-cases (is_safe_unquoted v d)) [
  | inl e ↦
      let (a, b, _, _, _, _) = safe-free v d e in rw e (plain-outside (delimiter_code d) v a b)
  | inr e ↦
      let (a, b) = hide_all-inside (delimiter_code d) v in
      rw (e, escape_string-hide_all v)
        (
          unfold calm next_place splits in
              rw (delimiter-quote d)
                (calm-append (delimiter_code d) inside (hide_all v) (quote ∷ []) ∙ rw (a, b) refl),
          unfold land next_place in land-append inside (hide_all v) (quote ∷ []) ∙ rw b refl,
        )
]

read_quoted-hide :
    (c : ℕ) (s : Codes) → read_quoted false (hide c ++ s) ≡ cons_to c (read_quoted false s)
unfolding read_quoted hide reveal
read_quoted-hide c s = elim (Bool-cases (nat_eq c backslash)) [
  | inl e ↦ rw e (ap (λ k. cons_to k (read_quoted false s)) (sym (nat_eq→eq c backslash e)))
  | inr e1 ↦ rw e1 (elim (Bool-cases (nat_eq c quote)) [
    | inl e ↦ rw e (ap (λ k. cons_to k (read_quoted false s)) (sym (nat_eq→eq c quote e)))
    | inr e2 ↦ rw e2 (elim (Bool-cases (nat_eq c newline)) [
      | inl e ↦ rw e (ap (λ k. cons_to k (read_quoted false s)) (sym (nat_eq→eq c newline e)))
      | inr e3 ↦ rw e3 (elim (Bool-cases (nat_eq c 13)) [
        | inl e ↦ rw e (ap (λ k. cons_to k (read_quoted false s)) (sym (nat_eq→eq c 13 e)))
        | inr e4 ↦ rw e4 (elim (Bool-cases (nat_eq c 9)) [
          | inl e ↦ rw e (ap (λ k. cons_to k (read_quoted false s)) (sym (nat_eq→eq c 9 e)))
          | inr e5 ↦ rw (e5, e1, e2) refl
        ])
      ])
    ])
  ])
]

pub read_quoted-hide_all : (s : Codes) → read_quoted false (hide_all s ++ quote ∷ []) ≡ some s
unfolding hide_all
read_quoted-hide_all [] = unfold read_quoted in refl
read_quoted-hide_all (c ∷ s) =
    ap (read_quoted false) (append_assoc (hide c) (hide_all s) (quote ∷ []))
    ∙ read_quoted-hide c (hide_all s ++ quote ∷ [])
    ∙ ap (cons_to c) (read_quoted-hide_all s)

-- A string that the encoder takes for no literal and no number is none for the reader.
read_unquoted-text :
    (v : Codes)
    → is_boolean_or_null_literal v ≡ false
    → is_numeric_like v ≡ false
    → read_unquoted v ≡ text v
unfolding read_unquoted is_word is_boolean_or_null_literal is_numeric_like
read_unquoted-text v word numeric = ground (arith, word, numeric, is_number-matches_number v)

read_cell-plain :
    (v : Codes) (d : Delimiter) → is_safe_unquoted v d ≡ true → read_cell v ≡ some (text v)
unfolding read_cell has_code
read_cell-plain [] d e = refl
read_cell-plain (c ∷ s) d e =
    let (_, q, _, trimmed, word, numeric) = safe-free (c ∷ s) d e in
    let first : nat_eq c quote ≡ false = ground (arith, q) in
    rw first (
      ap (λ k. some (read_unquoted k))
        (sym (same_codes→eq (c ∷ s) (strip js_trim_ws (c ∷ s)) trimmed))
      ∙ ap some (read_unquoted-text (c ∷ s) word numeric))

pub read_cell-literal :
    (v : Codes) (d : Delimiter) → read_cell (encode_string_literal v d) ≡ some (text v)
unfolding encode_string_literal
read_cell-literal v d = elim (Bool-cases (is_safe_unquoted v d)) [
  | inl e ↦ rw e (read_cell-plain v d e)
  | inr e ↦
      rw (e, escape_string-hide_all v) (unfold read_cell in ap read_text (read_quoted-hide_all v))
]

pub has_code-append : (c : ℕ) (s t : Codes) → has_code c (s ++ t) ≡ (has_code c s || has_code c t)
unfolding has_code
has_code-append c [] t = refl
has_code-append c (x ∷ s) t = ground (arith, has_code-append c s t)

hide-newline : (c : ℕ) → has_code newline (hide c) ≡ false
unfolding has_code hide
hide-newline c = ground arith

pub hide_all-newline : (s : Codes) → has_code newline (hide_all s) ≡ false
unfolding hide_all has_code
hide_all-newline [] = refl
hide_all-newline (c ∷ s) =
    has_code-append newline (hide c) (hide_all s) ∙ rw (hide-newline c, hide_all-newline s) refl

pub literal-newline :
    (v : Codes) (d : Delimiter) → has_code newline (encode_string_literal v d) ≡ false
unfolding encode_string_literal
literal-newline v d = elim (Bool-cases (is_safe_unquoted v d)) [
  | inl e ↦ let (_, _, n, _, _, _) = safe-free v d e in rw e n
  | inr e ↦
      rw (e, escape_string-hide_all v)
        (unfold has_code in
          has_code-append newline (hide_all v) (quote ∷ []) ∙ rw (hide_all-newline v) refl)
]
