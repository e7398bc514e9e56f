-- ===== src/Model/Line.antt =====
-- internal/model/helpers.go: `LineMatches`. `strings.ToUpper` is a parameter.
pub mod Prefixes
use mcp_grand_lyon.Base.Text.{join_words}
use mcp_grand_lyon.Base.{
  ℕ, zero, suc, String, Bool, true, false, Option, none, some, List, [], ◌∷◌, ◌++◌, any, length,
  ◌==◌, ◌&&◌, ◌||◌, if◌then◌else◌,
}
use mcp_grand_lyon.Base.Int.{ℤ, leb_ℤ}
use mcp_grand_lyon.Base.Text.{Text, codes, same, fields, split, trim_space, atoi}
use mathlib.Core.List.{reverse}

-- The rest of a text after a prefix, where it has it.
pub after_prefix : Text → Text → Option Text
after_prefix [] s = some s
after_prefix (c ∷ p) [] = none
after_prefix (c ∷ p) (d ∷ s) = let rest = after_prefix p s in if c == d then rest else none

abbrev found : Option Text → Bool
found none = false
found (some t) = true

-- `strings.Contains(s, part)`.
unfoldable pub contains : Text → Text → Bool
unfolding after_prefix
contains part [] = found (after_prefix part [])
contains part (c ∷ s) = found (after_prefix part (c ∷ s)) || contains part s

abbrev or_whole : Option Text → Text → Text
or_whole none s = s
or_whole (some t) s = t

-- `strings.TrimPrefix`.
unfoldable pub trim_prefix : Text → Text → Text
unfolding after_prefix
trim_prefix p s = or_whole (after_prefix p s) s

abbrev pub prefixes : List Text
prefixes =
    codes "METRO "
    ∷ codes "MÉTRO "
    ∷ codes "LIGNE "
    ∷ codes "BUS "
    ∷ codes "TRAM "
    ∷ codes "TRAMWAY "
    ∷ codes "LINE "
    ∷ []

unfoldable pub trim_all : List Text → Text → Text
trim_all [] s = s
trim_all (p ∷ ps) s = trim_all ps (trim_prefix p s)

-- The loop that trims until nothing changes, on fuel.
unfoldable pub trim_rounds : ℕ → Text → Text
trim_rounds zero s = s
trim_rounds (suc fuel) s =
    let next = trim_rounds fuel (trim_all prefixes s) in
    if same (trim_all prefixes s) s then s else next

-- Every round but the last shortens the text, so its length is enough fuel (Prefixes).
unfoldable pub strip_prefixes : Text → Text
unfolding trim_rounds
strip_prefixes s = trim_rounds (length s) s

abbrev noise : List Text
noise =
    []
    ∷ codes "SYTRAL"
    ∷ codes "TCL"
    ∷ codes "LINE"
    ∷ codes "ACTIV"
    ∷ codes "MDL"
    ∷ codes "METRO"
    ∷ codes "MÉTRO"
    ∷ codes "TRAM"
    ∷ codes "BUS"
    ∷ codes "FUNICULAIRE"
    ∷ codes "FUNI"
    ∷ codes "LIGNE"
    ∷ codes "LINEID"
    ∷ codes "ROUTE"
    ∷ []

-- The last part that is not noise, and the whole text where there is none. The parts come last
-- first.
last_part : Text → List Text → Text
last_part whole [] = whole
last_part whole (p ∷ ps) =
    let rest = last_part whole ps in
    if any (λ n. same n (trim_space p)) noise then rest else trim_space p

-- What `clean` returns: a text, or the number that it spells, which `strconv.Itoa` prints.
pub data Cleaned : Type 0 where
  number : ℤ → Cleaned
  words : Text → Cleaned

abbrev as_number : Option ℤ → Text → Cleaned
as_number none s = words s
as_number (some n) s = number n

module _ (upper : Text → Text) where
  unfoldable pub clean : Text → Cleaned
  unfolding join_words last_part
  clean s =
      let stripped = strip_prefixes (upper (join_words (fields s))) in
      let part = last_part stripped (reverse (split b':' stripped)) in as_number (atoi part) part

abbrev pub is_blank : Text → Bool
is_blank s = same (trim_space s) []

abbrev same_number : ℤ → ℤ → Bool
same_number a b = leb_ℤ a b && leb_ℤ b a

abbrev same_cleaned : Cleaned → Cleaned → Bool
same_cleaned (number a) (number b) = same_number a b
same_cleaned (words s) (words t) = same s t
same_cleaned (number a) (words t) = false
same_cleaned (words s) (number b) = false

unfoldable pub line_matches : (Text → Text) → Text → List Text → Bool
line_matches upper query identifiers =
    is_blank query
    || any (λ candidate. same_cleaned (clean upper query) (clean upper candidate)) identifiers
