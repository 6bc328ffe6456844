-- ===== src/Toon/Strings/Rows.antt =====
-- Rows of encoded strings read back.
use specsmither.Toon.Strings.Reader.{outside, next_place, splits, cells, read_cells, read_row, text}
use specsmither.Toon.Strings.Literals.{
  cells-calm, literal-outside, read_cell-literal, has_code-append, literal-newline,
}
use mathlib.Core.List.{append-nil}
use specsmither.Base.{
  nat_eq, and_then, ◌≡◌, refl, ap, ◌∙◌, false, some, List, [], ◌∷◌, ◌++◌, sym, ◌||◌, map,
}
use specsmither.Toon.Strings.{
  Codes, newline, Delimiter, delimiter_code, has_code, encode_string_literal, encode_and_join,
  comma, tab, pipe,
}

-- The last cell of a row, and one with others after it.
cells-last :
    (v : Codes) (d : Delimiter)
    → cells (delimiter_code d) outside (encode_string_literal v d) ≡ (encode_string_literal v d, [])
cells-last v d =
    let (a, b) = literal-outside v d in
    let u = encode_string_literal v d in
    ap (cells (delimiter_code d) outside) (sym (append-nil u))
    ∙ cells-calm (delimiter_code d) outside u [] a
    ∙ rw b (unfold cells in ap (λ k. (k, [])) (append-nil u))

cells-delimiter :
    (u : Codes) (d : Delimiter) (s : Codes)
    → ◌≡◌ {A = Codes × List Codes}
        (
          u ++ (cells (delimiter_code d) outside (delimiter_code d ∷ s)).0,
          (cells (delimiter_code d) outside (delimiter_code d ∷ s)).1,
        )
        (u, (cells (delimiter_code d) outside s).0 ∷ (cells (delimiter_code d) outside s).1)
unfolding cells splits next_place
cells-delimiter u comma s =
    ap (λ k. (k, (cells 44 outside s).0 ∷ (cells 44 outside s).1)) (append-nil u)
cells-delimiter u tab s =
    ap (λ k. (k, (cells 9 outside s).0 ∷ (cells 9 outside s).1)) (append-nil u)
cells-delimiter u pipe s =
    ap (λ k. (k, (cells 124 outside s).0 ∷ (cells 124 outside s).1)) (append-nil u)

cells-more :
    (v : Codes) (d : Delimiter) (s : Codes)
    → cells (delimiter_code d) outside (encode_string_literal v d ++ delimiter_code d ∷ s) ≡ (
      encode_string_literal v d,
      (cells (delimiter_code d) outside s).0 ∷ (cells (delimiter_code d) outside s).1,
    )
cells-more v d s =
    let (a, b) = literal-outside v d in
    let u = encode_string_literal v d in
    cells-calm (delimiter_code d) outside u (delimiter_code d ∷ s) a ∙ rw b (cells-delimiter u d s)

read_back :
    (d : Delimiter) (v : Codes) (vs : List Codes)
    → read_row d (encode_and_join (v ∷ vs) d) ≡ some (map text (v ∷ vs))
unfolding read_row encode_and_join read_cells
read_back d v [] = rw (cells-last v d, read_cell-literal v d) refl
read_back d v (w ∷ vs) =
    rw (cells-more v d (encode_and_join (w ∷ vs) d), read_cell-literal v d)
      (ap (λ o. and_then o (λ us. some (text v ∷ us))) (read_back d w vs))

delimiter-newline : (d : Delimiter) → nat_eq (delimiter_code d) newline || false ≡ false
delimiter-newline comma = refl
delimiter-newline tab = refl
delimiter-newline pipe = refl

one_line : (d : Delimiter) (vs : List Codes) → has_code newline (encode_and_join vs d) ≡ false
unfolding encode_and_join has_code
one_line d [] = refl
one_line d (v ∷ []) = literal-newline v d
one_line d (v ∷ w ∷ vs) =
    has_code-append newline (encode_string_literal v d)
      (delimiter_code d ∷ encode_and_join (w ∷ vs) d)
    ∙ rw (literal-newline v d, one_line d (w ∷ vs)) (delimiter-newline d)

-- A row of one string or more, encoded and joined by any of the delimiters, is read back as these strings, not as
-- booleans, nulls or numbers and with no space trimmed, and it has no newline.
pub encode_and_join-read_row :
    (d : Delimiter) (v : Codes) (vs : List Codes)
    → (read_row d (encode_and_join (v ∷ vs) d) ≡ some (map text (v ∷ vs)))
      × (has_code newline (encode_and_join (v ∷ vs) d) ≡ false)
encode_and_join-read_row d v vs = (read_back d v vs, one_line d (v ∷ vs))
