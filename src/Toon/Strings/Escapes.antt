-- ===== src/Toon/Strings/Escapes.antt =====
-- Escaping read back, in the way the format defines it.
use mathlib.Core.List.{append_assoc}
use specsmither.Base.{nat_eq, if◌then◌else◌, ℕ, ◌≡◌, refl, sym, ap, ◌∙◌, [], ◌∷◌, ◌++◌, arith}
use specsmither.Toon.Strings.{Codes, quote, backslash, newline, replace, escape_string}

-- What one code point is escaped to.
unfoldable pub hide : ℕ → Codes
hide c =
    if nat_eq c backslash
    then backslash ∷ backslash ∷ []
    else if nat_eq c quote
    then backslash ∷ quote ∷ []
    else if nat_eq c newline
    then backslash ∷ 110 ∷ []
    else if nat_eq c 13
    then backslash ∷ 114 ∷ []
    else if nat_eq c 9
    then backslash ∷ 116 ∷ []
    else c ∷ []

unfoldable pub hide_all : Codes → Codes
hide_all [] = []
hide_all (c ∷ s) = hide c ++ hide_all s

replace-append :
    (old : ℕ) (new s t : Codes) → replace old new (s ++ t) ≡ replace old new s ++ replace old new t
unfolding replace
replace-append old new [] t = refl
replace-append old new (x ∷ s) t =
    ap (λ k. (if nat_eq x old then new else x ∷ []) ++ k) (replace-append old new s t)
    ∙ sym (
        append_assoc (if nat_eq x old then new else x ∷ []) (replace old new s) (replace old new t))

escape_string-append : (s t : Codes) → escape_string (s ++ t) ≡ escape_string s ++ escape_string t
unfolding escape_string
escape_string-append s t = simp (replace-append)

escape_string-one : (c : ℕ) → escape_string (c ∷ []) ≡ hide c
unfolding escape_string hide replace
escape_string-one c = ground arith

-- The five replacements together are one escape of each code point.
pub escape_string-hide_all : (s : Codes) → escape_string s ≡ hide_all s
unfolding hide_all
escape_string-hide_all [] = unfold escape_string replace in refl
escape_string-hide_all (c ∷ s) =
    escape_string-append (c ∷ []) s
    ∙ ap (λ k. k ++ escape_string s) (escape_string-one c)
    ∙ ap (λ k. hide c ++ k) (escape_string-hide_all s)
