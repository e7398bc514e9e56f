-- ===== src/Base/Text.antt =====
-- The Go standard library's functions on text that the code calls: a text is the list of its code
-- points (`[]rune`), in the form in which the code walks it. `strings.TrimSpace`, `strings.Fields`,
-- `strings.Split` by one byte, `strings.TrimPrefix`, `strconv.Atoi`.
use mcp_grand_lyon.Base.Int.{ℤ, pos, negsuc}
use mcp_grand_lyon.Base.Tests.{leb, ◌==◌, if◌then◌else◌}
use Prim.Native.Nat.{ℕ, zero, suc, ◌+◌, ◌-◌, ◌*◌, ◌≤◌}
use Prim.Native.Char.{Char, code}
use Prim.Native.String.{String}
use mathlib.Core.Path.{◌≡◌, refl}
use mathlib.Core.Logic.{◌↔◌}
use mathlib.Core.Bool.{Bool, true, false, ◌&&◌, ◌||◌}
use mathlib.Core.Option.{Option, none, some}
use mathlib.Core.List.{List, [], ◌∷◌, ◌++◌, reverse}
use native.Mathlib.Omega.{arith}

abbrev pub Text : Type 0
Text = List ℕ

-- The code points of a literal.
abbrev pub codes : String → Text
codes String.[] = []
codes (String.◌∷◌ c s) = code c ∷ codes s

unfoldable pub same : Text → Text → Bool
same [] [] = true
same (c ∷ s) (d ∷ t) = c == d && same s t
same _ _ = false

pub same-eq : (s t : Text) → same s t ≡ true → s ≡ t
unfolding same
same-eq [] [] h = refl
same-eq (c ∷ s) (d ∷ t) h = ground (arith, same-eq s t)
same-eq [] (d ∷ t) h = cc
same-eq (c ∷ s) [] h = cc

pub same_refl : (s : Text) → same s s ≡ true
unfolding same
same_refl [] = refl
same_refl (c ∷ s) = ground (arith, same_refl s)

pub same-eq_iff : (s t : Text) → (same s t ≡ true) ↔ (s ≡ t)
same-eq_iff s t = (same-eq s t, λ e. rw e (same_refl t))

-- unicode.IsSpace.
unfoldable pub is_space : ℕ → Bool
is_space c =
    leb 9 c && leb c 13
    || c == 32
    || c == 0x85
    || c == 0xa0
    || c == 0x1680
    || leb 0x2000 c && leb c 0x200a
    || c == 0x2028
    || c == 0x2029
    || c == 0x202f
    || c == 0x205f
    || c == 0x3000

unfoldable pub trim_left : Text → Text
trim_left [] = []
trim_left (c ∷ s) = if is_space c then trim_left s else c ∷ s

unfoldable pub trim_space : Text → Text
unfolding trim_left
trim_space s = reverse (trim_left (reverse (trim_left s)))

trim_left_string : String → String
trim_left_string String.[] = String.[]
trim_left_string (String.◌∷◌ c s) =
    let rest = trim_left_string s in if is_space (code c) then rest else String.◌∷◌ c s

abbrev no_trailing : Char → String → String
no_trailing c String.[] = if is_space (code c) then String.[] else String.◌∷◌ c String.[]
no_trailing c (String.◌∷◌ d s) = String.◌∷◌ c (String.◌∷◌ d s)

trim_right_string : String → String
trim_right_string String.[] = String.[]
trim_right_string (String.◌∷◌ c s) = no_trailing c (trim_right_string s)

-- `strings.TrimSpace` of a text that stays one.
unfoldable pub trim_string : String → String
unfolding trim_left_string trim_right_string is_space
trim_string s = trim_right_string (trim_left_string s)

abbrev flush : Text → List Text → List Text
flush [] words = words
flush (c ∷ word) words = (c ∷ word) ∷ words

-- The words of a text; `word` is the one that is being read, in order.
fields_from : Text → Text → List Text
fields_from word [] = flush word []
fields_from word (c ∷ s) =
    let inside = fields_from (word ++ c ∷ []) s in
    let outside = fields_from [] s in if is_space c then flush word outside else inside

unfoldable pub fields : Text → List Text
unfolding fields_from is_space
fields s = fields_from [] s

split_from : ℕ → Text → Text → List Text
split_from sep part [] = part ∷ []
split_from sep part (c ∷ s) =
    let cut = split_from sep [] s in
    let longer = split_from sep (part ++ c ∷ []) s in if c == sep then part ∷ cut else longer

unfoldable pub split : ℕ → Text → List Text
unfolding split_from
split sep s = split_from sep [] s

-- `strings.Join(words, " ")`.
unfoldable pub join_words : List Text → Text
join_words [] = []
join_words (w ∷ []) = w
join_words (w ∷ v ∷ ws) = w ++ 32 ∷ join_words (v ∷ ws)

abbrev pub is_digit : ℕ → Bool
is_digit c = leb b'0' c && leb c b'9'

-- The value of a run of digits, and nothing for an empty run or another character.
digits_from : ℕ → Text → Option ℕ
digits_from acc [] = some acc
digits_from acc (c ∷ s) =
    let rest = digits_from (acc * 10 + (c - b'0')) s in if is_digit c then rest else none

abbrev digits : Text → Option ℕ
digits [] = none
digits (c ∷ s) = digits_from 0 (c ∷ s)

abbrev pub max_int : ℕ
max_int = 9_223_372_036_854_775_807

negate : ℕ → Option ℤ
negate zero = some (pos 0)
negate (suc n) = if leb n max_int then some (negsuc n) else none

abbrev positive : ℕ → Option ℤ
positive n = if leb n max_int then some (pos n) else none

abbrev then_with : Option ℕ → (ℕ → Option ℤ) → Option ℤ
then_with none k = none
then_with (some n) k = k n

-- An optional sign, at least one digit, and a value that an int64 holds.
unfoldable pub atoi : Text → Option ℤ
unfolding digits_from negate
atoi [] = none
atoi (c ∷ s) =
    if c == b'-'
    then then_with (digits s) negate
    else if c == b'+'
    then then_with (digits s) positive
    else then_with (digits (c ∷ s)) positive

-- An accepted number fits an int64.
abbrev pub FitsInt : ℤ → Type 0
FitsInt (pos n) = n ≤ max_int
FitsInt (negsuc n) = n ≤ max_int

negate-FitsInt : (n : ℕ) (v : ℤ) → negate n ≡ some v → FitsInt v
unfolding negate
negate-FitsInt zero v h = ground arith
negate-FitsInt (suc n) v h = ground arith

atoi_tests :
    (atoi (codes "-12") ≡ some (negsuc 11))
    × (atoi (codes "+07") ≡ some (pos 7))
    × (atoi (codes "1x") ≡ none)
    × (atoi (codes "9223372036854775808") ≡ none)
unfolding atoi
atoi_tests = (refl, refl, refl, refl)

text_tests :
    (trim_space (codes "  a b ") ≡ codes "a b")
    × (fields (codes " a  bc ") ≡ codes "a" ∷ codes "bc" ∷ [])
    × (split b':' (codes "1:2:") ≡ codes "1" ∷ codes "2" ∷ [] ∷ [])
unfolding trim_space fields split is_space
text_tests = (refl, refl, refl)

trim_string_test : trim_string " a b  " ≡ "a b"
unfolding trim_string
trim_string_test = refl
