-- ===== src/Toon/Strings.antt =====
-- src/specsmither/toon/encoder.py: strings and keys. A text is the list of its code points.
pub mod Escapes
pub mod Reader
pub mod Numbers
pub mod Literals
pub mod Rows
pub mod Keys
mod Examples
use mathlib.Core.List.{reverse}
use specsmither.Base.{
  leb, nat_eq, if◌then◌else◌, ℕ, Bool, true, false, not, ◌&&◌, ◌||◌, Option, none, some, List, [],
  ◌∷◌, ◌++◌,
}

abbrev pub Codes : Type 0
Codes = List ℕ

abbrev pub quote : ℕ
quote = 34

abbrev pub backslash : ℕ
backslash = 92

abbrev pub newline : ℕ
newline = 10

-- `DELIMITERS`
pub data Delimiter : Type 0 where
  comma tab pipe : Delimiter

abbrev pub delimiter_code : Delimiter → ℕ
delimiter_code comma = 44
delimiter_code tab = 9
delimiter_code pipe = 124

-- `c in text`
unfoldable pub has_code : ℕ → Codes → Bool
has_code c [] = false
has_code c (x ∷ s) = nat_eq x c || has_code c s

-- `text.replace(old, new)` for one code point.
unfoldable pub replace : ℕ → Codes → Codes → Codes
replace old new [] = []
replace old new (x ∷ s) = (if nat_eq x old then new else x ∷ []) ++ replace old new s

unfoldable pub escape_string : Codes → Codes
unfolding replace
escape_string value = replace 9 (backslash ∷ 116 ∷ []) (
    replace 13 (backslash ∷ 114 ∷ []) (
      replace newline (backslash ∷ 110 ∷ []) (
        replace quote (backslash ∷ quote ∷ [])
          (replace backslash (backslash ∷ backslash ∷ []) value))))

-- `_JS_TRIM_WS`
abbrev pub js_trim_ws : Codes
js_trim_ws =
    9 ∷ 10 ∷ 11 ∷ 12 ∷ 13 ∷ 32 ∷ 160 ∷ 5760 ∷ 8192 ∷ 8193 ∷ 8194 ∷ 8195 ∷ 8196 ∷ 8197 ∷ 8198 ∷ 8199
    ∷ 8200 ∷ 8201 ∷ 8202 ∷ 8232 ∷ 8233 ∷ 8239 ∷ 8287 ∷ 12288 ∷ 65279 ∷ []

unfoldable pub lstrip : Codes → Codes → Codes
unfolding has_code
lstrip ws [] = []
lstrip ws (c ∷ s) = let rest = lstrip ws s in if has_code c ws then rest else c ∷ s

-- `text.strip(ws)`
unfoldable pub strip : Codes → Codes → Codes
unfolding lstrip
strip ws s = reverse (lstrip ws (reverse (lstrip ws s)))

unfoldable pub same_codes : Codes → Codes → Bool
same_codes [] [] = true
same_codes [] (_ ∷ _) = false
same_codes (_ ∷ _) [] = false
same_codes (x ∷ s) (y ∷ t) = nat_eq x y && same_codes s t

unfoldable pub is_boolean_or_null_literal : Codes → Bool
unfolding same_codes
is_boolean_or_null_literal token =
    same_codes token (116 ∷ 114 ∷ 117 ∷ 101 ∷ [])
    || same_codes token (102 ∷ 97 ∷ 108 ∷ 115 ∷ 101 ∷ [])
    || same_codes token (110 ∷ 117 ∷ 108 ∷ 108 ∷ [])

abbrev pub is_digit : ℕ → Bool
is_digit c = leb 48 c && leb c 57

-- What `$` matches before: the end, or a newline at the end.
unfoldable pub at_end : Codes → Bool
at_end [] = true
at_end (c ∷ []) = nat_eq c newline
at_end (_ ∷ _ ∷ _) = false

-- How far a numeral is read: what must or may come next; `stuck` when the pattern does not go on.
pub data NumberPart : Type 0 where
  sign whole whole_more fraction fraction_more exponent exponent_sign exponent_more stuck :
      NumberPart

-- The part after one more code point of `-?[0-9]+(\\.[0-9]+)?([eE][+-]?[0-9]+)?`.
unfoldable pub next_part : NumberPart → ℕ → NumberPart
next_part sign c = if nat_eq c 45 then whole else if is_digit c then whole_more else stuck
next_part whole c = if is_digit c then whole_more else stuck
next_part whole_more c =
    if is_digit c
    then whole_more
    else if nat_eq c 46
    then fraction
    else if nat_eq c 101 || nat_eq c 69
    then exponent
    else stuck
next_part fraction c = if is_digit c then fraction_more else stuck
next_part fraction_more c =
    if is_digit c then fraction_more else if nat_eq c 101 || nat_eq c 69 then exponent else stuck
next_part exponent c =
    if nat_eq c 43 || nat_eq c 45
    then exponent_sign
    else if is_digit c
    then exponent_more
    else stuck
next_part exponent_sign c = if is_digit c then exponent_more else stuck
next_part exponent_more c = if is_digit c then exponent_more else stuck
next_part stuck c = stuck

unfoldable pub may_end : NumberPart → Bool
may_end whole_more = true
may_end fraction_more = true
may_end exponent_more = true
may_end _ = false

unfoldable pub matches_number : NumberPart → Codes → Bool
unfolding next_part may_end at_end
matches_number part [] = may_end part
matches_number part (c ∷ s) = may_end part && at_end (c ∷ s) || matches_number (next_part part c) s

unfoldable pub all_digits : Codes → Bool
unfolding at_end
all_digits [] = true
all_digits (c ∷ s) = at_end (c ∷ s) || is_digit c && all_digits s

-- `^0[0-9]+$`
unfoldable pub has_leading_zero : Codes → Bool
unfolding all_digits
has_leading_zero (z ∷ d ∷ s) = nat_eq z 48 && is_digit d && all_digits s
has_leading_zero _ = false

unfoldable pub is_numeric_like : Codes → Bool
unfolding matches_number has_leading_zero
is_numeric_like value = matches_number sign value || has_leading_zero value

abbrev pub starts_with : ℕ → Codes → Bool
starts_with c [] = false
starts_with c (x ∷ s) = nat_eq x c

unfoldable pub is_safe_unquoted : Codes → Delimiter → Bool
unfolding strip same_codes is_boolean_or_null_literal is_numeric_like has_code
is_safe_unquoted [] delimiter = false
is_safe_unquoted (x ∷ s) delimiter =
    let value = x ∷ s in
    if not (same_codes value (strip js_trim_ws value))
    then false
    else if is_boolean_or_null_literal value || is_numeric_like value
    then false
    else if has_code 58 value
    then false
    else if has_code quote value || has_code backslash value
    then false
    else if has_code 91 value || has_code 93 value || has_code 123 value || has_code 125 value
    then false
    else if has_code newline value || has_code 13 value || has_code 9 value
    then false
    else if has_code (delimiter_code delimiter) value
    then false
    else not (starts_with 45 value)

unfoldable pub encode_string_literal : Codes → Delimiter → Codes
unfolding is_safe_unquoted escape_string
encode_string_literal value delimiter =
    if is_safe_unquoted value delimiter then value else quote ∷ (escape_string value ++ quote ∷ [])

abbrev pub is_key_start : ℕ → Bool
is_key_start c = leb 65 c && leb c 90 || leb 97 c && leb c 122 || nat_eq c 95

abbrev pub is_key_code : ℕ → Bool
is_key_code c = is_key_start c || is_digit c || nat_eq c 46

unfoldable pub matches_key : Codes → Bool
unfolding at_end
matches_key [] = true
matches_key (c ∷ s) = at_end (c ∷ s) || is_key_code c && matches_key s

-- `^[A-Za-z_][A-Za-z0-9_.]*$`
unfoldable pub is_valid_unquoted_key : Codes → Bool
unfolding matches_key
is_valid_unquoted_key [] = false
is_valid_unquoted_key (c ∷ s) = is_key_start c && matches_key s

unfoldable pub encode_key : Codes → Codes
unfolding is_valid_unquoted_key escape_string
encode_key key =
    if is_valid_unquoted_key key then key else quote ∷ (escape_string key ++ quote ∷ [])

-- `delimiter.join` of the encoded strings.
unfoldable pub encode_and_join : List Codes → Delimiter → Codes
unfolding encode_string_literal
encode_and_join [] delimiter = []
encode_and_join (value ∷ []) delimiter = encode_string_literal value delimiter
encode_and_join (value ∷ more ∷ values) delimiter =
    encode_string_literal value delimiter
    ++ delimiter_code delimiter ∷ encode_and_join (more ∷ values) delimiter
