-- ===== src/Toon/Strings/Keys.antt =====
-- Keys: what `encode_key` writes is read back, but a newline at the end of a key stays as it is.
use specsmither.Toon.Strings.Reader.{read_key}
use specsmither.Toon.Strings.Escapes.{escape_string-hide_all}
use specsmither.Toon.Strings.Literals.{read_quoted-hide_all}
use specsmither.Base.{
  nat_eq, Bool-cases, ◌≡◌, refl, inl, inr, true, false, some, [], ◌∷◌, ◌++◌, arith,
}
use specsmither.Toon.Strings.{
  Codes, quote, newline, has_code, encode_key, is_valid_unquoted_key, matches_key, at_end,
}

key-quote : (k : Codes) → is_valid_unquoted_key k ≡ true → read_key k ≡ some k
unfolding is_valid_unquoted_key read_key
key-quote [] h = absurd (cc)
key-quote (c ∷ s) h = let first : nat_eq c quote ≡ false = ground (arith, h) in rw first refl

key_back : (k : Codes) → read_key (encode_key k) ≡ some k
unfolding encode_key
key_back k = elim (Bool-cases (is_valid_unquoted_key k)) [
  | inl e ↦ rw e (key-quote k e)
  | inr e ↦ rw (e, escape_string-hide_all k) (unfold read_key in read_quoted-hide_all k)
]

matches_key-newline :
    (s : Codes)
    → has_code newline s ≡ false
    → matches_key s ≡ true
    → matches_key (s ++ newline ∷ []) ≡ true
unfolding matches_key has_code at_end
matches_key-newline [] n h = refl
matches_key-newline (c ∷ []) n h = ground (arith, n, h)
matches_key-newline (c ∷ d ∷ s) n h =
    let inner : matches_key (d ∷ s) ≡ true = ground (arith, n, h) in
    let clear : has_code newline (d ∷ s) ≡ false = ground (arith, n) in
    let rest : matches_key (d ∷ s ++ newline ∷ []) ≡ true =
      matches_key-newline (d ∷ s) clear inner in
    ground (arith, n, h, rest)

valid-newline :
    (k : Codes)
    → has_code newline k ≡ false
    → is_valid_unquoted_key k ≡ true
    → is_valid_unquoted_key (k ++ newline ∷ []) ≡ true
unfolding is_valid_unquoted_key has_code
valid-newline [] n h = absurd (cc)
valid-newline (c ∷ s) n h =
    ground (arith, n, h, matches_key-newline s (ground (arith, n)) (ground (arith, h)))

-- An encoded key, taken by itself, is read back. But where a key can stay unquoted, the same key with a newline
-- at its end stays unquoted too, and the newline is written out as it is.
pub encode_key-newline :
    (k : Codes)
    → has_code newline k ≡ false
    → is_valid_unquoted_key k ≡ true
    → ((s : Codes) → read_key (encode_key s) ≡ some s)
      × (encode_key (k ++ newline ∷ []) ≡ k ++ newline ∷ [])
unfolding encode_key
encode_key-newline k n h = (key_back, rw (valid-newline k n h) refl)
