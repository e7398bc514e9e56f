-- ===== src/Model/PlaceRef/Laws.antt =====
-- Which place references internal/model/helpers.go's `Validate` accepts.
use mcp_grand_lyon.Base.{false, none, some, [], ◌≡◌, ◌≤◌, ◌⊎◌, ◌↔◌, length, arith}
use mcp_grand_lyon.Base.Text.{Text, trim_space}
use mcp_grand_lyon.Model.PlaceRef.{Coordinates, PlaceRef, validate}

-- Only white space.
abbrev pub IsBlank : Text → Type 0
IsBlank s = trim_space s ≡ []

module _ {F : Type 0} (coords : Coordinates F) where
  abbrev pub HasPoint : PlaceRef F → Type 0
  HasPoint ref =
      (lat : F) × (lon : F) × (ref.latitude ≡ some lat)
      × (ref.longitude ≡ some lon)
      × (coords.is_nan lat ≡ false)
      × (coords.is_nan lon ≡ false)
      × (coords.beyond_latitude lat ≡ false)
      × (coords.beyond_longitude lon ≡ false)

  abbrev pub NoPoint : PlaceRef F → Type 0
  NoPoint ref = (ref.latitude ≡ none) × (ref.longitude ≡ none)

  abbrev pub NoText : PlaceRef F → Type 0
  NoText ref = IsBlank ref.place_id × IsBlank ref.query × IsBlank ref.profile_place

  abbrev pub OneText : PlaceRef F → Type 0
  OneText ref =
      (¬ IsBlank ref.place_id × IsBlank ref.query × IsBlank ref.profile_place)
      ⊎ (IsBlank ref.place_id × ¬ IsBlank ref.query × IsBlank ref.profile_place)
      ⊎ (IsBlank ref.place_id × IsBlank ref.query × ¬ IsBlank ref.profile_place)

  -- The texts are short enough, in code points.
  pub record IsShort (ref : PlaceRef F) : Type 0 where
    pub place_id : length ref.place_id ≤ 200
    pub query : length ref.query ≤ 200
    pub profile_place : length ref.profile_place ≤ 64

  -- A reference is accepted exactly if it sets one mode: a point in range and no text, or no point
  -- and one text that is not blank; and if its texts are short enough.
  pub validate-eq-none_iff :
      (ref : PlaceRef F)
      → (validate coords ref ≡ none)
        ↔ (((HasPoint ref × NoText ref) ⊎ (NoPoint ref × OneText ref)) × IsShort ref)
  unfolding validate
  validate-eq-none_iff ref = (λ h. ground arith, λ h. ground arith)
