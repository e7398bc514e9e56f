-- ===== src/Service/Facilities.antt =====
-- internal/service/facilities.go: `openingStatusAt`, `facilityData` and `NearbyFacilities`. What
-- `Validate` and `ResolvePoint` give for the location, the provider's answer (its facilities, and
-- whether it also failed) and the minute of the day in Paris are arguments. The texts that print a
-- number are given without it.
pub mod Hours
pub mod Nearby
mod Tests
use mcp_grand_lyon.Base.{
  ℕ, zero, suc, ◌+◌, ◌-◌, ◌*◌, String, Bool, true, false, ◌&&◌, ◌||◌, not, Option, none, some, List,
  [], ◌∷◌, ◌++◌, map, any, filter, take, length, ltb, leb, ◌==◌, ◌=ₛ◌, if◌then◌else◌, is_nil,
  value_or, is_some,
}
use Prim.Native.String.{◌++◌ as ◌+ₛ◌}
use mcp_grand_lyon.Base.Int.{ℤ, pos, negsuc}
use mcp_grand_lyon.Base.Sort.{sort_stable}
use mcp_grand_lyon.Base.Text.{Text, is_digit}
use mcp_grand_lyon.Base.Unique.{unique_by}
use mcp_grand_lyon.Model.Envelope.{Time, Envelope, new_envelope, warn, warn_if}
use mcp_grand_lyon.Model.Float.{Float, Point, distance}

pub data OpenStatus : Type 0 where
  unknown open_now closed : OpenStatus

-- `\s` of package regexp.
abbrev is_blank_char : ℕ → Bool
is_blank_char c = c == 32 || c == 9 || c == 10 || c == 12 || c == 13

skip_blanks : Text → Text
skip_blanks [] = []
skip_blanks (c ∷ s) = let rest = skip_blanks s in if is_blank_char c then rest else c ∷ s

abbrev digit : ℕ → ℕ
digit c = c - b'0'

-- A number and what follows it.
abbrev Parsed : Type 0
Parsed = Option (ℕ × Text)

abbrev small_hour : ℕ → ℕ → Text → Parsed
small_hour c d s =
    if is_digit d && leb (digit c * 10 + digit d) 23 then some (digit c * 10 + digit d, s) else none

-- `([01]?\d|2[0-3]):`.
unfoldable pub parse_hour : Text → Parsed
parse_hour (c ∷ d ∷ s) =
    if not (is_digit c)
    then none
    else if d == b':'
    then some (digit c, s)
    else elim s [ [] ↦ none | e ∷ t ↦ if e == b':' then small_hour c d t else none ]
parse_hour _ = none

-- `([0-5]\d)`.
unfoldable pub parse_minute : Text → Parsed
parse_minute (c ∷ d ∷ s) =
    if is_digit c && is_digit d && leb (digit c) 5 then some (digit c * 10 + digit d, s) else none
parse_minute _ = none

abbrev then_parse : {A : Type 0} → Parsed → (ℕ → Text → Option A) → Option A
then_parse none k = none
then_parse (some (n, s)) k = k n s

-- A time of the day, in minutes.
unfoldable pub parse_clock : Text → Parsed
parse_clock s =
    then_parse (parse_hour s) (λ h t. then_parse (parse_minute t) (λ m u. some (h * 60 + m, u)))

abbrev after_dash : Text → Option Text
after_dash [] = none
after_dash (c ∷ s) = if c == b'-' then some (skip_blanks s) else none

abbrev at_end : ℕ → ℕ → Text → Option (ℕ × ℕ)
at_end start stop s = if is_nil (skip_blanks s) then some (start, stop) else none

abbrev second_clock : ℕ → Option Text → Option (ℕ × ℕ)
second_clock start none = none
second_clock start (some s) = then_parse (parse_clock s) (at_end start)

-- What `simpleOpeningHours` matches, as the minutes of the two times.
unfoldable pub parse_hours : Text → Option (ℕ × ℕ)
unfolding skip_blanks
parse_hours raw =
    then_parse (parse_clock (skip_blanks raw))
      (λ start s. second_clock start (after_dash (skip_blanks s)))

unfoldable pub is_open : ℕ → ℕ → ℕ → Bool
is_open start stop current =
    if ltb stop start
    then leb start current || ltb current stop
    else leb start current && ltb current stop

abbrev status_in : Option (ℕ × ℕ) → ℕ → OpenStatus
status_in none current = unknown
status_in (some (start, stop)) current = if is_open start stop current then open_now else closed

-- `current` is the minute of the day in Paris.
unfoldable pub opening_status_at : Option Text → ℕ → OpenStatus
opening_status_at none current = unknown
opening_status_at (some raw) current = status_in (parse_hours raw) current

pub record Facility (F : Type 0) : Type 0 where
  pub id : String
  pub name : String
  pub category : String
  pub latitude : F
  pub longitude : F
  pub distance_m : Option F
  pub open_status : String
  pub opening_hours_raw : Option Text

pub record FacilityData (F : Type 0) : Type 0 where
  pub facilities : List (String × List (Facility F))
  pub items : List (Facility F)
  pub open_at : Option Time

pub record NearbyFacilitiesInput : Type 0 where
  pub categories : List String
  pub radius_m : ℤ
  pub open_at : Option Time
  pub limit_per_category : ℤ

abbrev supported_categories : List String
supported_categories =
    "toilet" ∷ "drinking_water" ∷ "park" ∷ "garden" ∷ "bike_pump" ∷ "velov_station"
    ∷ "waste_facility" ∷ []

unfoldable pub first_unsupported : List String → Option String
first_unsupported [] = none
first_unsupported (c ∷ cs) =
    let later = first_unsupported cs in
    if any (λ s. s =ₛ c) supported_categories then later else some c

-- `if n == 0 { n = d }`, and the result where it is from `low` to `high`.
abbrev pub or_zero : ℤ → ℕ → ℤ
or_zero (pos zero) d = pos d
or_zero (pos (suc n)) d = pos (suc n)
or_zero (negsuc n) d = negsuc n

abbrev pub within : ℕ → ℕ → ℤ → Option ℕ
within low high (pos n) = if leb low n && leb n high then some n else none
within low high (negsuc n) = none

module _ (fl : Float) (minute_of : Time → ℕ) where
  open fl use {F, literal, lt, of_int}

  abbrev pub in_category : String → Facility F → Bool
  in_category c f = f.category =ₛ c

  abbrev grouped : List String → List (Facility F) → List (String × List (Facility F))
  grouped categories items =
      map (λ c. (c, filter (in_category c) items)) (unique_by ◌=ₛ◌ (λ c. c) categories)

  abbrev pub facility_data : List (Facility F) → List String → Option Time → FacilityData F
  facility_data items categories open_at = record {
    facilities = grouped categories items;
    items = items;
    open_at = open_at;
  }

  abbrev pub reach : Point F → Facility F → F
  reach point f = distance fl point (record { latitude = f.latitude; longitude = f.longitude })

  -- The conditions before the opening hours.
  unfoldable pub is_candidate : List String → Point F → F → Facility F → Bool
  is_candidate categories point radius f =
      any (λ c. c =ₛ f.category) categories && not (lt radius (reach point f))

  abbrev pub status_of : Time → Facility F → OpenStatus
  status_of at f = opening_status_at f.opening_hours_raw (minute_of at)

  abbrev pub is_open_at : Option Time → Facility F → Bool
  is_open_at none f = true
  is_open_at (some at) f = elim (status_of at f) [
    | open_now ↦ true
    | unknown ↦ false
    | closed ↦ false
  ]

  abbrev hides_hours : Option Time → Facility F → Bool
  hides_hours none f = false
  hides_hours (some at) f = elim (status_of at f) [
    | unknown ↦ true
    | open_now ↦ false
    | closed ↦ false
  ]

  abbrev pub placed : Option Time → Point F → Facility F → Facility F
  placed none point f = record f { distance_m = some (reach point f) }
  placed (some at) point f = record f { distance_m = some (reach point f); open_status = "open" }

  abbrev pub nearer : Facility F → Facility F → Bool
  nearer a b = lt (value_or a.distance_m (literal "0")) (value_or b.distance_m (literal "0"))

  -- `byCategory[category]`, sorted and cut.
  unfoldable pub category_items :
      NearbyFacilitiesInput → Point F → F → ℕ → List (Facility F) → String → List (Facility F)
  category_items input point radius limit fs c = take limit (
      sort_stable nearer (
        filter (in_category c) (
          map (placed input.open_at point) (
            filter (is_open_at input.open_at)
              (filter (is_candidate input.categories point radius) fs)))))

  unfoldable pub all_items :
      NearbyFacilitiesInput → Point F → F → ℕ → List (Facility F) → List String → List (Facility F)
  all_items input point radius limit fs [] = []
  all_items input point radius limit fs (c ∷ cs) =
      category_items input point radius limit fs c ++ all_items input point radius limit fs cs

  abbrev pub Facilities : Type 0
  Facilities = Envelope (FacilityData F)

  abbrev empty_data : Option Time → FacilityData F
  empty_data open_at = facility_data [] [] open_at

  unfoldable pub found_facilities :
      Time → NearbyFacilitiesInput → Point F → F → ℕ → List (Facility F) × Bool → Facilities
  found_facilities now input point radius limit (fs, failed) =
      let items = all_items input point radius limit fs input.categories in
      let hidden =
        any (hides_hours input.open_at) (filter (is_candidate input.categories point radius) fs) in
      warn_if hidden
        (warn_if failed
          (new_envelope now "ok" "Found facilities."
            (facility_data items input.categories input.open_at))
          "PARTIAL_RESULT" "facilities" "Some requested facility sources are unavailable." true)
        "PARTIAL_RESULT" "facility_opening_hours"
        "Omitted facilities with unverified opening hours." false

  abbrev unavailable : Time → Option Time → String → String → Facilities
  unavailable now open_at summary message =
      warn (new_envelope now "unavailable" summary (empty_data open_at)) "SOURCE_UNAVAILABLE"
        "facilities" message true

  -- The provider at a point, for categories, a radius and a limit.
  abbrev pub Search : Type 0
  Search = Point F → List String → F → ℕ → List (Facility F) × Bool

  abbrev asked :
      Time → NearbyFacilitiesInput → ℕ → ℕ → Option (Point F) → Option Search → Facilities
  asked now input radius limit none search =
      new_envelope now "not_found" "The facility location could not be resolved."
        (empty_data input.open_at)
  asked now input radius limit (some point) none =
      unavailable now input.open_at "The facility provider is unavailable."
        "The facility provider is unavailable."
  asked now input radius limit (some point) (some search) =
      let answer = search point input.categories (of_int (pos radius)) limit in
      if answer.1 && is_nil answer.0
      then unavailable now input.open_at "Facilities are unavailable." "The facility source failed."
      else found_facilities now input point (of_int (pos radius)) limit answer

  abbrev invalid : Time → Option Time → String → Facilities
  invalid now open_at message = new_envelope now "invalid_request" message (empty_data open_at)

  abbrev ranged :
      Time
      → NearbyFacilitiesInput
      → Option ℕ
      → Option ℕ
      → Option (Point F)
      → Option Search
      → Facilities
  ranged now input (some radius) (some limit) resolved search =
      asked now input radius limit resolved search
  ranged now input _ _ resolved search =
      invalid now input.open_at "Facility radius or limit is outside the supported range."

  abbrev supported :
      Time → NearbyFacilitiesInput → Option String → Option (Point F) → Option Search → Facilities
  supported now input (some category) resolved search =
      invalid now input.open_at ("Unsupported facility category: " +ₛ category)
  supported now input none resolved search =
      ranged now input (within 50 5000 (or_zero input.radius_m 1000))
        (within 1 20 (or_zero input.limit_per_category 5)) resolved search

  -- `location_error` is the message of `Validate`, if there is one.
  unfoldable pub nearby_facilities :
      Time → NearbyFacilitiesInput → Option String → Option (Point F) → Option Search → Facilities
  nearby_facilities now input (some location_error) resolved search =
      invalid now input.open_at ("Invalid location: " +ₛ location_error)
  nearby_facilities now input none resolved search =
      if is_nil input.categories
      then invalid now input.open_at "At least one facility category is required."
      else supported now input (first_unsupported input.categories) resolved search
