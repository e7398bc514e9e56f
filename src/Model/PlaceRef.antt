-- ===== src/Model/PlaceRef.antt =====
-- internal/model/types.go and helpers.go: `PlaceRef` and `Validate`. A float64 is abstract: the code
-- only tests it for NaN and compares it with the bounds, which are the four tests of `Coordinates`.
pub mod Laws
use mcp_grand_lyon.Base.{
  ℕ, Bool, true, false, ◌||◌, Option, none, some, List, [], ◌∷◌, ltb, ◌+◌, length, if◌then◌else◌,
  ◌==◌, not, is_some, ◌&&◌,
}
use mcp_grand_lyon.Base.Text.{Text, trim_space}

-- The tests on float64: NaN, and outside [-90, 90] and [-180, 180].
pub record Coordinates (F : Type 0) : Type 0 where
  pub is_nan : F → Bool
  pub beyond_latitude : F → Bool
  pub beyond_longitude : F → Bool

pub record PlaceRef (F : Type 0) : Type 0 where
  pub place_id : Text
  pub query : Text
  pub latitude : Option F
  pub longitude : Option F
  pub profile_place : Text

pub data PlaceError : Type 0 where
  both_required out_of_range one_mode too_long : PlaceError

abbrev pub count_text : Text → ℕ
count_text s = elim (trim_space s) [ [] ↦ 0 | c ∷ t ↦ 1 ]

module _ {F : Type 0} (coords : Coordinates F) where
  open coords use {is_nan, beyond_latitude, beyond_longitude}

  abbrev text_modes : PlaceRef F → ℕ
  text_modes ref = count_text ref.place_id + count_text ref.query + count_text ref.profile_place

  -- The checks after the coordinates, with the number of modes that are set.
  check_modes : PlaceRef F → ℕ → Option PlaceError
  check_modes ref modes =
      if not (modes == 1)
      then some one_mode
      else if ltb 200 (length ref.place_id)
          || ltb 200 (length ref.query)
          || ltb 64 (length ref.profile_place)
      then some too_long
      else none

  check_coordinates : Option F → Option F → PlaceRef F → Option PlaceError
  check_coordinates none none ref = check_modes ref (text_modes ref)
  check_coordinates (some lat) none ref = some both_required
  check_coordinates none (some lon) ref = some both_required
  check_coordinates (some lat) (some lon) ref =
      if is_nan lat || is_nan lon || beyond_latitude lat || beyond_longitude lon
      then some out_of_range
      else check_modes ref (text_modes ref + 1)

  -- No error is `none`.
  unfoldable pub validate : PlaceRef F → Option PlaceError
  unfolding check_modes check_coordinates
  validate ref = check_coordinates ref.latitude ref.longitude ref
