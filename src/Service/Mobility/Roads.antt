-- ===== src/Service/Mobility/Roads.antt =====
-- The road events that internal/service/mobility.go's `filterRoadEvents` keeps.
use mathlib.Core.Path.{subst}
use mcp_grand_lyon.Base.{
  sym, String, ◌==◌, ◌⊎◌, ◌||◌, ◌≡◌, ◌≢◌, inl, inr, refl, Bool, true, false, not, some, List, [],
  ◌∷◌, any, arith, All, All-filter, All-filter_of_test, filter, length, Pairwise, ◌=ₛ◌, eq_iff,
  Bool-cases, Option-cases,
}
use mcp_grand_lyon.Base.Unique.{HasKey, unique_by-distinct_complete}
use mcp_grand_lyon.Model.Envelope.{IsDegraded, set_payload, warn_if, warn_if-true-IsDegraded}
use mcp_grand_lyon.Model.Float.{Float, Point, distance}
use mcp_grand_lyon.Service.Mobility.{
  RoadEvent, is_matched, filter_road_events, unique_road_events, road_stage, Report,
}

Pairwise-filter :
    {A : Type 0} (R : A → A → Type 0) (p : A → Bool) (xs : List A)
    → Pairwise R xs
    → Pairwise R (filter p xs)
Pairwise-filter R p [] h = tt
Pairwise-filter R p (x ∷ xs) (a, h) = elim (Bool-cases (p x)) [
  | inl t ↦ rw t (All-filter (R x) p xs a, Pairwise-filter R p xs h)
  | inr f ↦ rw f (Pairwise-filter R p xs h)
]

false-true-absurd : false ≡ true → ⊥
false-true-absurd h = ground arith

filter-none_omitted :
    {A : Type 0} (p : A → Bool) (xs : List A)
    → length (filter (λ x. not (p x)) xs) ≡ 0
    → filter p xs ≡ xs
filter-none_omitted p [] h = refl
filter-none_omitted p (x ∷ xs) h = ground (arith, filter-none_omitted p xs)

module _ (fl : Float) where
  open fl use {F, lt, eq, literal}

  -- The event has coordinates, and one of the areas is no further from them than the radius.
  pub record IsWithin (areas : List (Point F)) (radius : F) (e : RoadEvent F) : Type 0 where
    pub place : Point F
    pub placed : (e.latitude ≡ some place.latitude) × (e.longitude ≡ some place.longitude)
    pub close :
        any (λ area. lt (distance fl area place) radius || eq (distance fl area place) radius) areas
        ≡ true

  is_matched-IsWithin :
      (areas : List (Point F)) (radius : F) (e : RoadEvent F)
      → is_matched fl areas radius e ≡ true
      → IsWithin areas radius e
  unfolding is_matched
  is_matched-IsWithin areas radius e h = elim (Option-cases e.latitude) [
    | inl k ↦ elim (false-true-absurd (ground (arith, k, h))) [ ]
    | inr (lat, k) ↦ elim (Option-cases e.longitude) [
      | inl m ↦ elim (false-true-absurd (ground (arith, k, m, h))) [ ]
      | inr (lon, m) ↦ record {
        place = record { latitude = lat; longitude = lon };
        placed = (k, m);
        close = ground (arith, k, m, h);
      }
    ]
  ]

  unique_road_events_complete :
      (es : List (RoadEvent F)) → All (λ v. HasKey (λ k. k.id) v (unique_road_events es)) es
  unfolding unique_road_events
  unique_road_events_complete es = (unique_by-distinct_complete ◌=ₛ◌ (λ e. e.id) eq_iff es).1

  warn_if-not-IsDegraded :
      (b : Bool) (e : Report fl) (code source message : String) (retryable : Bool)
      → b ≡ false
      → IsDegraded (warn_if (not b) e code source message retryable)
  warn_if-not-IsDegraded b e code source message retryable h =
      rw h (warn_if-true-IsDegraded e code source message retryable)

  -- The events that are kept are within the radius, with different identifiers, and all the
  -- events where none is omitted.
  filter_road_events-IsWithin :
      (es : List (RoadEvent F)) (areas : List (Point F)) (radius : F)
      → let (kept, omitted) = filter_road_events fl (unique_road_events es) areas radius in
        All (IsWithin areas radius) kept
        × Pairwise (λ e f. e.id ≢ f.id) kept
        × ((omitted ≡ 0 → kept ≡ unique_road_events es))
  unfolding filter_road_events unique_road_events
  filter_road_events-IsWithin es areas radius = (
    All-filter_of_test _ (is_matched fl areas radius) (is_matched-IsWithin areas radius) _,
    Pairwise-filter _ (is_matched fl areas radius) _
        (unique_by-distinct_complete ◌=ₛ◌ (λ e. e.id) eq_iff es).0,
    filter-none_omitted (is_matched fl areas radius) _,
  )

  -- Where areas were asked for and resolve, the road events of the answer have coordinates no further
  -- than 1500 metres from one of the areas and different identifiers, and each identifier that the
  -- provider gives is among them, or the envelope has a warning, the degraded mark and a status other
  -- than "ok".
  pub road_stage-IsWithin :
      (area : Point F) (areas : List (Point F)) (es : List (RoadEvent F)) (failed : Bool)
      (e : Report fl)
      → let after = road_stage fl false (area ∷ areas) (es, failed) e in
        All (IsWithin (area ∷ areas) (literal "1500")) after.payload.road_events
        × Pairwise (λ k l. k.id ≢ l.id) after.payload.road_events
        × (All (λ v. HasKey (λ k. k.id) v after.payload.road_events) es ⊎ IsDegraded after)
  unfolding road_stage set_payload
  road_stage-IsWithin area areas es failed e =
      let found = filter_road_events fl (unique_road_events es) (area ∷ areas) (literal "1500") in
      let kept = filter_road_events-IsWithin es (area ∷ areas) (literal "1500") in
      (
        kept.0,
        kept.1,
        elim (Bool-cases (found.1 == 0)) [
          | inl z ↦ inl (
              subst (λ ks. All (λ v. HasKey (λ k. k.id) v ks) es) (sym (kept.2 (ground (arith, z))))
                (unique_road_events_complete es))
          | inr n ↦ inr (warn_if-not-IsDegraded (found.1 == 0) _ _ _ _ _ n)
        ],
      )
