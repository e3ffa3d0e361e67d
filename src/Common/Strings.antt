-- ===== src/Common/Strings.antt =====
-- Python's `str` and `bytes` as lists of numbers (code points, bytes), with the methods that the
-- program calls on them.
pub mod Equality
pub mod Splitting
use Prim.Native.Char.{code}
use Prim.Native.Nat.{ℕ, ◌+◌, ◌/◌, ◌%◌}
use Prim.Native.String.{String}
use mathlib.Core.Bool.{Bool, true, false, not, ◌&&◌, ◌||◌}
use mathlib.Core.List.{List, [], ◌∷◌, ◌++◌, reverse}
use private_onyx_app.Common.Tests.{ltb, leb, ◌==◌, if◌then◌else◌}
use private_onyx_app.Common.Lists.{any, all}

abbrev pub Text : Type 0
Text = List ℕ

abbrev pub codes : String → Text
codes String.[] = []
codes (String.◌∷◌ c s) = code c ∷ codes s

unfoldable pub text_eq : Text → Text → Bool
text_eq [] [] = true
text_eq [] (b ∷ t) = false
text_eq (a ∷ s) [] = false
text_eq (a ∷ s) (b ∷ t) = a == b && text_eq s t

-- `t in names`
unfoldable pub member : Text → List Text → Bool
unfolding any text_eq
member t names = any (text_eq t) names

unfoldable pub is_empty : Text → Bool
is_empty [] = true
is_empty (c ∷ t) = false

-- str.isspace of one character, for the characters that `strip()` and `split()` take off.
unfoldable pub is_space : ℕ → Bool
is_space c =
    (leb 9 c && leb c 13)
    || (leb 28 c && leb c 32)
    || c == 0x85
    || c == 0xa0
    || c == 0x1680
    || (leb 0x2000 c && leb c 0x200a)
    || c == 0x2028
    || c == 0x2029
    || c == 0x202f
    || c == 0x205f
    || c == 0x3000

unfoldable pub is_digit : ℕ → Bool
is_digit c = leb b'0' c && leb c b'9'

-- str.isascii
unfoldable pub is_ascii : Text → Bool
unfolding all
is_ascii = all (λ c. ltb c 128)

-- t.lstrip, where `p` says which characters go
unfoldable pub lstrip : (ℕ → Bool) → Text → Text
lstrip p [] = []
lstrip p (c ∷ t) = if p c then lstrip p t else c ∷ t

-- Characters are taken off the right end: one stays if anything after it stays.
unfoldable pub rstrip : (ℕ → Bool) → Text → Text
rstrip p [] = []
rstrip p (c ∷ t) = let rest = rstrip p t in if p c && is_empty rest then [] else c ∷ rest

unfoldable pub strip : (ℕ → Bool) → Text → Text
unfolding lstrip rstrip is_empty
strip p t = rstrip p (lstrip p t)

unfoldable pub starts_with : Text → Text → Bool
starts_with [] t = true
starts_with (a ∷ s) [] = false
starts_with (a ∷ s) (b ∷ t) = a == b && starts_with s t

-- t.endswith(s)
unfoldable pub ends_with : Text → Text → Bool
unfolding text_eq
ends_with s [] = text_eq s []
ends_with s (b ∷ t) = text_eq s (b ∷ t) || ends_with s t

-- `s in t`
unfoldable pub contains : Text → Text → Bool
unfolding starts_with
contains s [] = starts_with s []
contains s (b ∷ t) = starts_with s (b ∷ t) || contains s t

-- `c in t`, for one character
unfoldable pub contains_char : ℕ → Text → Bool
unfolding any
contains_char c = any (λ d. c == d)

abbrev pub cons_head : ℕ → List Text → List Text
cons_head c [] = (c ∷ []) ∷ []
cons_head c (w ∷ ws) = (c ∷ w) ∷ ws

-- t.split(sep), for one character
unfoldable pub split_on : ℕ → Text → List Text
split_on sep [] = [] ∷ []
split_on sep (c ∷ t) = let rest = split_on sep t in if c == sep then [] ∷ rest else cons_head c rest

-- sep.join(words)
unfoldable pub join : Text → List Text → Text
join sep [] = []
join sep (w ∷ []) = w
join sep (w ∷ (v ∷ ws)) = w ++ (sep ++ join sep (v ∷ ws))

-- t.split(): runs of white space separate the words. `word` is the word being read, reversed.
words_from : Text → Text → List Text
words_from word [] = if is_empty word then [] else reverse word ∷ []
words_from word (c ∷ t) =
    let rest = words_from (if is_space c then [] else c ∷ word) t in
    if is_space c && not (is_empty word) then reverse word ∷ rest else rest

unfoldable pub words : Text → List Text
unfolding words_from is_empty is_space
words = words_from []

-- The UTF-8 bytes of a code point.
encode_char : ℕ → List ℕ
encode_char c =
    if ltb c 0x80
    then c ∷ []
    else if ltb c 0x800
    then (0xc0 + c / 64) ∷ (0x80 + c % 64) ∷ []
    else if ltb c 0x10000
    then (0xe0 + c / 4096) ∷ (0x80 + c / 64 % 64) ∷ (0x80 + c % 64) ∷ []
    else (0xf0 + c / 262144) ∷ (0x80 + c / 4096 % 64) ∷ (0x80 + c / 64 % 64) ∷ (0x80 + c % 64) ∷ []

-- t.encode("utf-8")
unfoldable pub utf8_encode : Text → List ℕ
unfolding encode_char
utf8_encode [] = []
utf8_encode (c ∷ t) = encode_char c ++ utf8_encode t
