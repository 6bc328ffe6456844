-- ===== src/Toon/Strings/Examples.antt =====
-- A row with a comma, a quote and a newline in it, and a key with a newline.
use specsmither.Base.{◌≡◌, refl, false, some, [], ◌∷◌, map}
use specsmither.Toon.Strings.Rows.{encode_and_join-read_row}
use specsmither.Toon.Strings.Reader.{read_key, read_row, text}
use specsmither.Toon.Strings.Keys.{encode_key-newline}
use specsmither.Toon.Strings.{
  Codes, comma, encode_and_join, encode_key, encode_string_literal, newline, has_code,
  is_valid_unquoted_key,
}

-- `a,"` and a newline, then `b`.
abbrev awkward : Codes
awkward = 97 ∷ 44 ∷ 34 ∷ 10 ∷ []

abbrev plain : Codes
plain = 98 ∷ []

row_text :
    encode_and_join (awkward ∷ plain ∷ []) comma
    ≡ 34 ∷ 97 ∷ 44 ∷ 92 ∷ 34 ∷ 92 ∷ 110 ∷ 34 ∷ 44 ∷ 98 ∷ []
unfolding encode_and_join
row_text = refl

-- `-1.5e3` is quoted, `1-2` is not.
numeral_quoted :
    encode_string_literal (45 ∷ 49 ∷ 46 ∷ 53 ∷ 101 ∷ 51 ∷ []) comma
    ≡ 34 ∷ 45 ∷ 49 ∷ 46 ∷ 53 ∷ 101 ∷ 51 ∷ 34 ∷ []
unfolding encode_string_literal
numeral_quoted = refl

range_plain : encode_string_literal (49 ∷ 45 ∷ 50 ∷ []) comma ≡ 49 ∷ 45 ∷ 50 ∷ []
unfolding encode_string_literal
range_plain = refl

encode_and_join-read_row_example :
    (read_row comma (encode_and_join (awkward ∷ plain ∷ []) comma)
      ≡ some (map text (awkward ∷ plain ∷ [])))
    × (has_code newline (encode_and_join (awkward ∷ plain ∷ []) comma) ≡ false)
encode_and_join-read_row_example = encode_and_join-read_row comma awkward (plain ∷ [])

encode_key-newline_example :
    ((s : Codes) → read_key (encode_key s) ≡ some s)
    × (encode_key (98 ∷ newline ∷ []) ≡ 98 ∷ newline ∷ [])
unfolding has_code is_valid_unquoted_key
encode_key-newline_example = encode_key-newline plain refl refl
