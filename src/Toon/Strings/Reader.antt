-- ===== src/Toon/Strings/Reader.antt =====
-- A reader of rows, written for the theorems: cells are split at the delimiters outside quotes; a quoted cell ends
-- at its closing quote and is a string; any other is trimmed and is a boolean or null, a number, or else a string.
use specsmither.Base.{
  nat_eq, if◌then◌else◌, and_then, length, ℕ, Bool, true, false, Option, none, some, List, [], ◌∷◌,
  ◌&&◌, ◌||◌,
}
use specsmither.Toon.Strings.{
  Codes, quote, backslash, newline, Delimiter, delimiter_code, js_trim_ws, strip, same_codes,
  is_digit,
}

pub data Place : Type 0 where
  outside inside escaped : Place

unfoldable pub next_place : Place → ℕ → Place
next_place outside c = if nat_eq c quote then inside else outside
next_place inside c =
    if nat_eq c backslash then escaped else if nat_eq c quote then outside else inside
next_place escaped c = inside

unfoldable pub splits : ℕ → Place → ℕ → Bool
splits d outside c = nat_eq c d
splits d inside c = false
splits d escaped c = false

-- The first cell, and the others.
unfoldable pub cells : ℕ → Place → Codes → Codes × List Codes
unfolding next_place splits
cells d place [] = ([], [])
cells d place (c ∷ s) =
    let rest = cells d (next_place place c) s in
    if splits d place c then ([], rest.0 ∷ rest.1) else (c ∷ rest.0, rest.1)

abbrev pub cons_to : ℕ → Option Codes → Option Codes
cons_to c none = none
cons_to c (some s) = some (c ∷ s)

-- What a backslash and this code point stand for.
unfoldable pub reveal : ℕ → Option ℕ
reveal c =
    if nat_eq c backslash
    then some backslash
    else if nat_eq c quote
    then some quote
    else if nat_eq c 110
    then some newline
    else if nat_eq c 114
    then some 13
    else if nat_eq c 116
    then some 9
    else none

abbrev pub cons_revealed : Option ℕ → Option Codes → Option Codes
cons_revealed none s = none
cons_revealed (some c) s = cons_to c s

-- The text up to the closing quote, which ends the cell; the flag is set after a backslash.
unfoldable pub read_quoted : Bool → Codes → Option Codes
unfolding reveal
read_quoted true [] = none
read_quoted false [] = none
read_quoted true (c ∷ s) = cons_revealed (reveal c) (read_quoted false s)
read_quoted false (c ∷ s) =
    let after = read_quoted true s in
    let plain = cons_to c (read_quoted false s) in
    if nat_eq c backslash
    then after
    else if nat_eq c quote
    then (if nat_eq (length s) 0 then some [] else none)
    else plain

-- A key by itself: quoted, or the text as it is.
unfoldable pub read_key : Codes → Option Codes
unfolding read_quoted
read_key [] = none
read_key (c ∷ s) = if nat_eq c quote then read_quoted false s else some (c ∷ s)

unfoldable pub drop_digits : Codes → Codes
drop_digits [] = []
drop_digits (c ∷ s) = let rest = drop_digits s in if is_digit c then rest else c ∷ s

-- One digit or more, then what `rest` takes.
unfoldable pub digits_then : (Codes → Bool) → Codes → Bool
unfolding drop_digits
digits_then rest [] = false
digits_then rest (c ∷ s) = is_digit c && rest (drop_digits s)

unfoldable pub ends : Codes → Bool
ends [] = true
ends (_ ∷ _) = false

unfoldable pub signed_digits : Codes → Bool
unfolding digits_then ends
signed_digits [] = false
signed_digits (c ∷ s) =
    if nat_eq c 43 || nat_eq c 45 then digits_then ends s else digits_then ends (c ∷ s)

-- The exponent of a number, or its end.
unfoldable pub exponent_or_end : Codes → Bool
unfolding signed_digits
exponent_or_end [] = true
exponent_or_end (c ∷ s) = (nat_eq c 101 || nat_eq c 69) && signed_digits s

-- What may follow the whole part of a number.
unfoldable pub fraction_or_end : Codes → Bool
unfolding digits_then exponent_or_end
fraction_or_end [] = true
fraction_or_end (c ∷ s) =
    if nat_eq c 46 then digits_then exponent_or_end s else exponent_or_end (c ∷ s)

-- A sign, digits, a fraction and an exponent, of which only the digits must be there.
unfoldable pub is_number : Codes → Bool
unfolding digits_then fraction_or_end
is_number [] = false
is_number (c ∷ s) =
    if nat_eq c 45 then digits_then fraction_or_end s else digits_then fraction_or_end (c ∷ s)

pub data Primitive : Type 0 where
  text : Codes → Primitive
  boolean_or_null : Codes → Primitive
  number : Codes → Primitive

-- `true`, `false` and `null`.
unfoldable pub is_word : Codes → Bool
unfolding same_codes
is_word s =
    same_codes s (116 ∷ 114 ∷ 117 ∷ 101 ∷ [])
    || same_codes s (102 ∷ 97 ∷ 108 ∷ 115 ∷ 101 ∷ [])
    || same_codes s (110 ∷ 117 ∷ 108 ∷ 108 ∷ [])

unfoldable pub read_unquoted : Codes → Primitive
unfolding is_word is_number
read_unquoted s = if is_word s then boolean_or_null s else if is_number s then number s else text s

abbrev pub read_text : Option Codes → Option Primitive
read_text none = none
read_text (some s) = some (text s)

unfoldable pub read_cell : Codes → Option Primitive
unfolding read_quoted read_unquoted strip
read_cell [] = some (text [])
read_cell (c ∷ s) =
    if nat_eq c quote
    then read_text (read_quoted false s)
    else some (read_unquoted (strip js_trim_ws (c ∷ s)))

unfoldable pub read_cells : List Codes → Option (List Primitive)
unfolding read_cell
read_cells [] = some []
read_cells (c ∷ cs) = and_then (read_cell c) (λ v. and_then (read_cells cs) (λ vs. some (v ∷ vs)))

unfoldable pub read_row : Delimiter → Codes → Option (List Primitive)
unfolding cells read_cells
read_row d s = let row = cells (delimiter_code d) outside s in read_cells (row.0 ∷ row.1)
