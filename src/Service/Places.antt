-- ===== src/Service/Places.antt =====
-- internal/service/place.go: `placeSimilarity`, `searchPlaces` and `ResolvePlace`. The answers of the
-- store's indexes, of the search provider and of the saving of a candidate are arguments, and so is
-- the point that the nearby reference resolves to. The text that prints the number of candidates is
-- given without it.
pub mod Search
pub mod Answer
pub mod Resolve
mod Tests
use mcp_grand_lyon.Base.{
  is_nil, ℕ, ◌+◌, ◌*◌, String, Bool, true, false, ◌&&◌, ◌||◌, not, Option, none, some, List, [],
  ◌∷◌, ◌++◌, map, any, length, take, ltb, ◌==◌, ◌=ₛ◌, if◌then◌else◌, filter, value_or, is_some,
}
use mcp_grand_lyon.Base.Int.{ℤ, pos, or_default}
use mcp_grand_lyon.Base.Sort.{sort_stable}
use mcp_grand_lyon.Base.Text.{Text, same, fields, trim_space}
use mcp_grand_lyon.Base.Unique.{unique_by}
use mcp_grand_lyon.Model.Envelope.{Time, Envelope, WarningItem, new_envelope, warn_if}
use mcp_grand_lyon.Model.Float.{Float, Point, distance}
use mcp_grand_lyon.Model.Names.{Unicode, normalize}

pub record PlaceCandidate (F : Type 0) : Type 0 where
  pub id : Text
  pub name : Text
  pub label : Text
  pub kind : Text
  pub latitude : F
  pub longitude : F
  pub distance_m : Option F
  pub confidence : F

-- What `searchPlaces` asks: no list is an error. There is no provider where the field is nil, and
-- `save` says whether `SaveResolvedPlace` stores a candidate.
pub record PlaceSources (F : Type 0) : Type 0 where
  pub entities : Text → ℕ → Option (List (PlaceCandidate F))
  pub stops : Text → ℕ → Option (List (PlaceCandidate F))
  pub provider : Option (Text → Option (Point F) → List Text → ℕ → Option (List (PlaceCandidate F)))
  pub save : PlaceCandidate F → Bool

abbrev pub place_warning : String → String → WarningItem
place_warning source message = record {
  code = "SOURCE_UNAVAILABLE";
  source = some source;
  message = message;
  retryable = true;
}

abbrev source_warning : String → WarningItem
source_warning source = place_warning source "Place source unavailable."

module _ (fl : Float) (unicode : Unicode) where
  open fl use {F, literal, of_int, div, sub, max, lt, eq}

  -- Candidates and warnings.
  abbrev pub Found : Type 0
  Found = List (PlaceCandidate F) × List WarningItem

  abbrev words : Text → List Text
  words s = fields (normalize unicode s)

  -- internal/service/dispatch.go: `contains`.
  abbrev pub contains : List Text → Text → Bool
  contains values query = any (λ v. unicode.equal_fold v query) values

  unfoldable pub shared_words : List Text → List Text → ℕ
  shared_words [] right = 0
  shared_words (word ∷ left) right =
      (if contains right word then 1 else 0) + shared_words left right

  unfoldable pub place_similarity : Text → Text → F
  place_similarity query name =
      let left = words query in
      let right = words name in
      let shared = shared_words left right in
      if is_nil left || is_nil right
      then literal "0"
      else if shared == length left || shared == length right
      then literal "1"
      else div (of_int (pos (2 * shared))) (of_int (pos (length left + length right)))

  abbrev or_warning : String → Option (List (PlaceCandidate F)) → Found
  or_warning source none = ([], source_warning source ∷ [])
  or_warning source (some cs) = (cs, [])

  abbrev pub join_found : Found → Found → Found
  join_found (cs, ws) (ds, vs) = (cs ++ ds, ws ++ vs)

  -- The loop over the provider's candidates: one that cannot be stored is left out.
  unfoldable pub save_all : (PlaceCandidate F → Bool) → List (PlaceCandidate F) → Found
  save_all save [] = ([], [])
  save_all save (c ∷ cs) =
      let rest = save_all save cs in
      if save c then (c ∷ rest.0, rest.1) else (
        rest.0,
        place_warning "places"
              "Resolved place candidates could not be stored, so their IDs are not reusable."
            ∷ rest.1,
      )

  abbrev stored : (PlaceCandidate F → Bool) → Option (List (PlaceCandidate F)) → Found
  stored save none = ([], source_warning "photon" ∷ [])
  stored save (some cs) = save_all save cs

  abbrev from_provider :
      PlaceSources F
      → Text
      → Option (Point F)
      → List Text
      → ℕ
      → Option (Text → Option (Point F) → List Text → ℕ → Option (List (PlaceCandidate F)))
      → Found
  from_provider s query near types limit none = ([], [])
  from_provider s query near types limit (some search) =
      stored s.save (search query near types limit)

  unfoldable pub local_candidates : PlaceSources F → Text → ℕ → Found
  local_candidates s query limit =
      join_found (or_warning "entities" (s.entities query (limit * 2)))
        (or_warning "gtfs" (s.stops query (limit * 2)))

  unfoldable pub all_candidates : PlaceSources F → Text → Option (Point F) → List Text → ℕ → Found
  all_candidates s query near types limit =
      let local = local_candidates s query limit in
      let remote = from_provider s query near types limit s.provider in
      join_found local (if ltb (length local.0) limit then remote else ([], []))

  -- The types that were asked for, all where none is.
  unfoldable pub is_requested : List Text → PlaceCandidate F → Bool
  is_requested types c = is_nil types || contains types c.kind

  abbrev distance_from : PlaceCandidate F → Option (Point F) → Option F
  distance_from c none = c.distance_m
  distance_from c (some p) =
      some (distance fl p (record { latitude = c.latitude; longitude = c.longitude }))

  unfoldable pub rated : Text → Option (Point F) → PlaceCandidate F → PlaceCandidate F
  rated query near c = record c {
    confidence = max c.confidence (place_similarity query c.name);
    distance_m = distance_from c near;
  }

  -- The loop over the candidates: the first of each identifier among those of a type asked for.
  unfoldable pub unique_candidates :
      Text → Option (Point F) → List Text → List (PlaceCandidate F) → List (PlaceCandidate F)
  unique_candidates query near types cs =
      map (rated query near) (unique_by same (λ c. c.id) (filter (is_requested types) cs))

  unfoldable pub is_exact : Text → PlaceCandidate F → Bool
  is_exact query c = same (normalize unicode c.name) (normalize unicode query)

  abbrev same_bool : Bool → Bool → Bool
  same_bool true b = b
  same_bool false b = not b

  abbrev nearer : Option (Point F) → PlaceCandidate F → PlaceCandidate F → Bool
  nearer none a b = false
  nearer (some p) a b =
      lt (value_or a.distance_m (literal "0")) (value_or b.distance_m (literal "0"))

  unfoldable pub place_before : Text → Option (Point F) → PlaceCandidate F → PlaceCandidate F → Bool
  place_before query near a b =
      if not (same_bool (is_exact query a) (is_exact query b))
      then is_exact query a
      else if not (eq a.confidence b.confidence)
      then lt b.confidence a.confidence
      else nearer near a b

  unfoldable pub search_places : PlaceSources F → Text → Option (Point F) → List Text → ℕ → Found
  search_places s query near types limit =
      let all = all_candidates s query near types limit in
      (
        take limit
            (sort_stable (place_before query near) (unique_candidates query near types all.0)),
        all.1,
      )

  -- `math.Abs(a-b) < 0.05`.
  abbrev close : F → F → Bool
  close a b = lt (max (sub a b) (sub b a)) (literal "0.05")

  unfoldable pub place_status : Text → List (PlaceCandidate F) → String
  place_status query [] = "not_found"
  place_status query (a ∷ []) = "ok"
  place_status query (a ∷ b ∷ cs) =
      if not (is_exact query a) && close a.confidence b.confidence then "ambiguous" else "ok"

  -- The nearby reference: not given, or given with what it resolves to, nothing for an error.
  pub data Nearby : Type 0 where
    anywhere : Nearby
    near_point : Option (Point F) → Nearby

  abbrev point_of : Nearby → Option (Point F)
  point_of anywhere = none
  point_of (near_point p) = p

  abbrev is_unresolved : Nearby → Bool
  is_unresolved anywhere = false
  is_unresolved (near_point p) = not (is_some p)

  unfoldable pub place_answer : Time → Text → Bool → Found → Envelope (List (PlaceCandidate F))
  place_answer now query unresolved (cs, ws) =
      let status = place_status query cs in
      let e = record (new_envelope now status "place candidate(s)." cs) {
        warnings = ws;
        degraded = not (is_nil ws);
      } in
      warn_if unresolved
        (warn_if (status =ₛ "ambiguous") e "AMBIGUOUS_PLACE" "places"
          "Several places match this query." false)
        "PLACE_NOT_FOUND" "places" "The nearby reference could not be resolved." false

  unfoldable pub resolve_place :
      Time → PlaceSources F → Text → Nearby → List Text → ℤ → Envelope (List (PlaceCandidate F))
  resolve_place now s query near types limit =
      if is_nil (trim_space query)
      then new_envelope now "invalid_request" "A place query is required." []
      else place_answer now query (is_unresolved near)
          (search_places s query (point_of near) types (or_default limit 5))
