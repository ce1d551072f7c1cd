-- ===== src/Prelude/Texts.antt =====
-- Python's operations on texts. `lower` and `casefold` change the letters of ASCII.
use Prim.Native.Nat.{ℕ, zero, suc, ◌-◌}
use Prim.Native.Char.{Char, code}
use Prim.Native.String.{String, char_at, compare, slice, ◌++◌}
use mathlib.Core.Path.{◌≡◌, refl, ◌∙◌}
use mathlib.Core.Bool.{Bool, true, false, not, ◌&&◌, ◌||◌}
use mathlib.Core.List.{List, [], ◌∷◌}
use native.Mathlib.Omega.{arith}
use text.Mathlib.TextLemmas.{nil-append, cons-append, append-nil}
use text.Mathlib.Text.{◌==◌, is_lt}
use vulnops_hub.Prelude.Tests.{leb, if◌then◌else◌, ◌==◌ as nat_eq}
use vulnops_hub.Prelude.Lists.{any}

abbrev pub str_eq : String → String → Bool
str_eq a b = a == b

abbrev pub str_lt : String → String → Bool
str_lt a b = is_lt (compare a b)

-- `a in xs`, for texts
abbrev pub mem_text : String → List String → Bool
mem_text a xs = any (λ x. str_eq a x) xs

-- `s + t`
abbrev pub concat : String → String → String
concat s t = s ++ t

-- `s[:n]`, for a text of ASCII
abbrev pub first_chars : ℕ → String → String
first_chars n s = slice s 0 n

-- `s[n:]`
unfoldable pub drop_chars : ℕ → String → String
drop_chars zero s = s
drop_chars (suc n) String.[] = String.[]
drop_chars (suc n) (String.◌∷◌ c s) = drop_chars n s

-- `s.startswith(prefix)`
unfoldable pub starts_with : String → String → Bool
starts_with String.[] s = true
starts_with (String.◌∷◌ c p) String.[] = false
starts_with (String.◌∷◌ c p) (String.◌∷◌ d s) = nat_eq (code c) (code d) && starts_with p s

-- the truth value of a text
abbrev pub truthy : String → Bool
truthy String.[] = false
truthy (String.◌∷◌ _ _) = true

-- `str.isspace` of a code point
abbrev pub is_space : ℕ → Bool
is_space n =
    (leb 9 n && leb n 13)
    || (leb 28 n && leb n 32)
    || nat_eq n 0x85
    || nat_eq n 0xa0
    || nat_eq n 0x1680
    || (leb 0x2000 n && leb n 0x200a)
    || nat_eq n 0x2028
    || nat_eq n 0x2029
    || nat_eq n 0x202f
    || nat_eq n 0x205f
    || nat_eq n 0x3000

unfoldable pub lstrip : (ℕ → Bool) → String → String
lstrip drop String.[] = String.[]
lstrip drop (String.◌∷◌ c s) =
    let rest = lstrip drop s in if drop (code c) then rest else String.◌∷◌ c s

unfoldable pub rstrip : (ℕ → Bool) → String → String
rstrip drop String.[] = String.[]
rstrip drop (String.◌∷◌ c s) =
    let rest = rstrip drop s in
    if not (truthy rest) && drop (code c) then String.[] else String.◌∷◌ c rest

-- `s.strip()`
unfoldable pub strip : String → String
unfolding lstrip rstrip
strip s = rstrip is_space (lstrip is_space s)

abbrev lower_char : Char → Char
lower_char c =
    if leb b'A' (code c) && leb (code c) b'Z'
    then char_at "abcdefghijklmnopqrstuvwxyz" (code c - b'A')
    else c

-- `s.lower()`
unfoldable pub lower : String → String
lower String.[] = String.[]
lower (String.◌∷◌ c s) = String.◌∷◌ (lower_char c) (lower s)

abbrev upper_char : Char → Char
upper_char c =
    if leb b'a' (code c) && leb (code c) b'z'
    then char_at "ABCDEFGHIJKLMNOPQRSTUVWXYZ" (code c - b'a')
    else c

-- `s.upper()`
unfoldable pub upper : String → String
upper String.[] = String.[]
upper (String.◌∷◌ c s) = String.◌∷◌ (upper_char c) (upper s)

-- `s.split(sep)[0]`, for a separator of one character
unfoldable pub before : ℕ → String → String
before sep String.[] = String.[]
before sep (String.◌∷◌ c s) =
    let rest = before sep s in if nat_eq (code c) sep then String.[] else String.◌∷◌ c rest

unfoldable pub contains_char : ℕ → String → Bool
contains_char sep String.[] = false
contains_char sep (String.◌∷◌ c s) = nat_eq (code c) sep || contains_char sep s

-- `s.split(sep)[-1]`, for a separator of one character
unfoldable pub after_last : ℕ → String → String
unfolding contains_char
after_last sep String.[] = String.[]
after_last sep (String.◌∷◌ c s) =
    let rest = after_last sep s in
    if contains_char sep s || nat_eq (code c) sep then rest else String.◌∷◌ c s

-- `sorted({x for x in xs if x})`: in order, each once
unfoldable pub insert_sorted : String → List String → List String
insert_sorted a [] = a ∷ []
insert_sorted a (x ∷ xs) =
    let rest = x ∷ insert_sorted a xs in
    if str_eq a x then x ∷ xs else if str_lt a x then a ∷ x ∷ xs else rest

unfoldable pub sorted_set : List String → List String
unfolding insert_sorted
sorted_set [] = []
sorted_set (x ∷ xs) = if truthy x then insert_sorted x (sorted_set xs) else sorted_set xs

-- A separator that the first text does not hold is looked for in the second.
pub before-concat :
    (sep : ℕ) (p v : String)
    → contains_char sep p ≡ false
    → before sep (concat p v) ≡ concat p (before sep v)
unfolding before contains_char
before-concat sep String.[] v h = rw (nil-append v, nil-append (before sep v)) refl
before-concat sep (String.◌∷◌ c p) v h =
    rw (cons-append c p v) (ground (arith, before-concat sep p v, cons-append c p (before sep v)))

-- A text that does not hold the separator is not cut, and one that goes on with it is cut there.
pub before_end :
    (sep : ℕ) (p : String) (c : Char) (v : String)
    → contains_char sep p ≡ false
    → nat_eq (code c) sep ≡ true
    → before sep (concat p (String.◌∷◌ c v)) ≡ p
unfolding before
before_end sep p c v h mark = before-concat sep p (String.◌∷◌ c v) h ∙ (rw mark (append-nil p))

strip_sample : strip " a b  " ≡ "a b"
unfolding strip
strip_sample = refl

lower_sample : lower "PyPI 1.Z" ≡ "pypi 1.z"
unfolding lower
lower_sample = refl

after_last_sample : after_last b'/' "a/bc/de" ≡ "de"
unfolding after_last
after_last_sample = refl

sorted_set_sample : sorted_set ("b" ∷ "" ∷ "a" ∷ "b" ∷ []) ≡ "a" ∷ "b" ∷ []
unfolding sorted_set
sorted_set_sample = refl
