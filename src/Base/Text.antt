-- ===== src/Base/Text.antt =====
-- What the program uses of Go's `strings` package, over the code points of a text.
use Prim.Native.Char.{Char, code}
use Prim.Native.String.{String}
use Prim.Native.Nat.{ℕ, ◌+◌, ◌-◌, ◌*◌}
use mathlib.Core.Bool.{Bool, true, false, ◌&&◌, ◌||◌}
use mathlib.Core.List.{List, [], ◌∷◌, map, reverse}
use mathlib.Core.Option
use mathlib.Core.Option.{Option, none, some}
use momu_llmgateway.Base.Tests.{leb, eqb, if◌then◌else◌}
use momu_llmgateway.Base.Int.{ℤ, pos, sub_ℕ}

abbrev pub codes : String → List ℕ
codes String.[] = []
codes (String.◌∷◌ c s) = code c ∷ codes s

-- `strings.ToLower` of one code point, as far as a search for ASCII text can tell: the capitals of
-- ASCII, and the two other code points whose lower case is an ASCII letter, U+0130 and U+212A.
abbrev pub to_lower : ℕ → ℕ
to_lower c =
    if leb b'A' c && leb c b'Z'
    then c + 32
    else if eqb c 0x130
    then b'i'
    else if eqb c 0x212a
    then b'k'
    else c

-- `strings.HasPrefix(s, prefix)`, with its arguments in the other order.
unfoldable pub has_prefix : List ℕ → List ℕ → Bool
has_prefix [] s = true
has_prefix (p ∷ ps) [] = false
has_prefix (p ∷ ps) (c ∷ s) = eqb p c && has_prefix ps s

-- `strings.Contains(s, part)`, with its arguments in the other order.
unfoldable pub contains : List ℕ → List ℕ → Bool
unfolding has_prefix
contains part [] = has_prefix part []
contains part (c ∷ s) = has_prefix part (c ∷ s) || contains part s

unfoldable pub lower_codes : String → List ℕ
lower_codes s = map to_lower (codes s)

-- Equality of texts, as code points.
abbrev pub codes_eq : List ℕ → List ℕ → Bool
codes_eq [] [] = true
codes_eq (c ∷ s) (d ∷ t) = eqb c d && codes_eq s t
codes_eq _ _ = false

-- `unicode.IsSpace`.
abbrev pub is_space : ℕ → Bool
is_space c =
    (leb 9 c && leb c 13)
    || eqb c b' '
    || eqb c 0x85
    || eqb c 0xa0
    || eqb c 0x1680
    || (leb 0x2000 c && leb c 0x200a)
    || eqb c 0x2028
    || eqb c 0x2029
    || eqb c 0x202f
    || eqb c 0x205f
    || eqb c 0x3000

abbrev add_field : List ℕ → List (List ℕ) → List (List ℕ)
add_field [] fields = fields
add_field (c ∷ s) fields = reverse (c ∷ s) ∷ fields

-- `strings.Fields`; the field that is read is held in reverse.
unfoldable pub fields_from : List ℕ → List ℕ → List (List ℕ)
fields_from field [] = add_field field []
fields_from field (c ∷ s) =
    let cut = add_field field (fields_from [] s) in
    let longer = fields_from (c ∷ field) s in if is_space c then cut else longer

abbrev pub drop_space : List ℕ → List ℕ
drop_space [] = []
drop_space (c ∷ s) = let rest = drop_space s in if is_space c then rest else c ∷ s

-- `strings.TrimSpace`.
abbrev pub trim_space : List ℕ → List ℕ
trim_space s = reverse (drop_space (reverse (drop_space s)))

-- `strings.TrimPrefix(s, prefix)`, with its arguments in the other order; the cut text, or none
-- where `s` has no such prefix.
abbrev pub cut_prefix : List ℕ → List ℕ → Option (List ℕ)
cut_prefix [] s = some s
cut_prefix (p ∷ ps) [] = none
cut_prefix (p ∷ ps) (c ∷ s) = if eqb p c then cut_prefix ps s else none

abbrev pub trim_prefix : List ℕ → List ℕ → List ℕ
trim_prefix prefix s = Option.get_or (cut_prefix prefix s) s

-- The decimal digits of `strconv.Atoi`, with the value read so far.
unfoldable pub digits_from : ℕ → List ℕ → Option ℕ
digits_from n [] = some n
digits_from n (c ∷ s) =
    let rest = digits_from (n * 10 + (c - b'0')) s in
    if leb b'0' c && leb c b'9' then rest else none

abbrev unsigned : List ℕ → Option ℕ
unsigned [] = none
unsigned (c ∷ s) = digits_from 0 (c ∷ s)

abbrev bounded : ℕ → (ℕ → ℤ) → Option ℕ → Option ℤ
bounded limit sign none = none
bounded limit sign (some n) = if leb n limit then some (sign n) else none

-- `strconv.Atoi`: an optional sign and digits, within the range of int64; none is its error.
unfoldable pub atoi : List ℕ → Option ℤ
unfolding digits_from
atoi [] = none
atoi (c ∷ s) =
    if eqb c b'-'
    then bounded 9223372036854775808 (sub_ℕ 0) (unsigned s)
    else if eqb c b'+'
    then bounded 9223372036854775807 pos (unsigned s)
    else bounded 9223372036854775807 pos (unsigned (c ∷ s))

-- `strings.SplitN(s, "/", 2)` where `strings.Contains(s, "/")`: the text before the first slash and
-- the text behind it; none where there is no slash.
abbrev with_front : Char → Option (String × String) → Option (String × String)
with_front c none = none
with_front c (some (a, b)) = some (String.◌∷◌ c a, b)

unfoldable pub split_slash : String → Option (String × String)
split_slash String.[] = none
split_slash (String.◌∷◌ c s) =
    let rest = with_front c (split_slash s) in if eqb (code c) b'/' then some ("", s) else rest

-- `strings.TrimPrefix` on a text: what follows the prefix, or none where the text does not begin with
-- it.
unfoldable pub cut_text : String → String → Option String
cut_text String.[] s = some s
cut_text (String.◌∷◌ p ps) String.[] = none
cut_text (String.◌∷◌ p ps) (String.◌∷◌ c s) =
    let rest = cut_text ps s in if eqb (code p) (code c) then rest else none
