-- ===== src/Service/Journey/Velov/Best.antt =====
-- Which pair of stations internal/service/journey.go's `appendVelovOption` selects.
use mcp_grand_lyon.Base.{
  ◌≡◌, ◌⊎◌, true, false, Option, none, some, List, [], ◌∷◌, All, All-map, Bool-cases, arith, refl,
  inl, inr,
}
use mathlib.Core.List.{Memᴰ}
use mcp_grand_lyon.Base.Int.{ℤ, ltb_ℤ, ◌+ℤ◌}
use mcp_grand_lyon.Model.Float.{Float, distance}
use mcp_grand_lyon.Model.Records.{VelovStation}
use mcp_grand_lyon.Service.Journey.Velov.{
  Selection, pair_of, pair_at, place_of, better, scan_destinations, scan_origins, select_stations,
}

All-of_mem {ℓ κ} :
    {A : Type ℓ} {P : A → Type κ} (xs : List A) → ((x : A) → Memᴰ x xs → P x) → All P xs
All-of_mem [] h = tt
All-of_mem (x ∷ xs) h = (h x (Memᴰ.head refl), All-of_mem xs (λ y m. h y (Memᴰ.tail m)))

module _ (fl : Float) (most : ℤ) where
  open fl use {F, literal, to_int, add, div}

  -- No longer than a candidate, where there is one.
  abbrev pub IsNoLonger : Option (Selection F) → Option (Selection F) → Type 0
  IsNoLonger best none = Unit
  IsNoLonger none (some p) = ⊥
  IsNoLonger (some b) (some p) = ltb_ℤ p.duration b.duration ≡ false

  -- The walk to the first station and from the second, in metres.
  abbrev pub walk : F → F → ℤ
  walk a b = to_int (add a b)

  -- The ride at four metres a second.
  abbrev pub ride : VelovStation F → VelovStation F → ℤ
  ride o d = to_int (div (distance fl (place_of fl o) (place_of fl d)) (literal "4.0"))

  -- A pair of stations, each with a distance, with the walk within the limit and the duration of
  -- the ride and the walk together.
  pub record IsCandidate (o d : VelovStation F) (p : Selection F) : Type 0 where
    pub to_first : F
    pub from_second : F
    pub first_placed : o.distance_m ≡ some to_first
    pub second_placed : d.distance_m ≡ some from_second
    pub within_limit : ltb_ℤ most (walk to_first from_second) ≡ false
    pub origin : p.origin ≡ o
    pub destination : p.destination ≡ d
    pub walking : p.walking ≡ walk to_first from_second
    pub duration : p.duration ≡ ride o d +ℤ walk to_first from_second

  -- A candidate of one station of each list, where there is one.
  abbrev pub IsTaken : List (VelovStation F) → List (VelovStation F) → Option (Selection F) → Type 0
  IsTaken os ds none = Unit
  IsTaken os ds (some p) =
      (o : VelovStation F) × (d : VelovStation F) × Memᴰ o os × Memᴰ d ds × IsCandidate o d p

  -- No shorter than what is selected, where the stations have the distances.
  abbrev pub IsBeaten :
      Option (Selection F) → VelovStation F → VelovStation F → Option F → Option F → Type 0
  IsBeaten best o d (some a) (some b) =
      (ltb_ℤ most (walk a b) ≡ true)
      ⊎ ((p : Selection F) × (best ≡ some p) × (ltb_ℤ (ride o d +ℤ walk a b) p.duration ≡ false))
  IsBeaten best o d none b = Unit
  IsBeaten best o d (some a) none = Unit

  better-left : (b c e : Option (Selection F)) → IsNoLonger b e → IsNoLonger (better fl b c) e
  unfolding better
  better-left b c none h = tt
  better-left none c (some p) h = elim h [ ]
  better-left (some b) none (some p) h = h
  better-left (some b) (some c) (some p) h = ground arith

  better-right : (b c : Option (Selection F)) → IsNoLonger (better fl b c) c
  unfolding better
  better-right b none = tt
  better-right none (some p) = ground arith
  better-right (some b) (some p) = ground arith

  module _ {κ} (P : Option (Selection F) → Type κ) where
    better-keeps : (b c : Option (Selection F)) → P b → P c → P (better fl b c)
    unfolding better
    better-keeps b none h k = h
    better-keeps none (some p) h k = k
    better-keeps (some b) (some p) h k = elim (Bool-cases (ltb_ℤ p.duration b.duration)) [
      | inl t ↦ rw t k
      | inr f ↦ rw f h
    ]

    scan_destinations-keeps :
        (o : VelovStation F) (best : Option (Selection F)) (ds : List (VelovStation F))
        → P best
        → All (λ d. P (pair_of fl most o d)) ds
        → P (scan_destinations fl most o best ds)
    unfolding scan_destinations
    scan_destinations-keeps o best [] h k = h
    scan_destinations-keeps o best (d ∷ ds) h (k, ks) =
        scan_destinations-keeps o (better fl best (pair_of fl most o d)) ds
          (better-keeps best _ h k) ks

    scan_origins-keeps :
        (best : Option (Selection F)) (os ds : List (VelovStation F))
        → P best
        → All (λ o. All (λ d. P (pair_of fl most o d)) ds) os
        → P (scan_origins fl most best os ds)
    unfolding scan_origins
    scan_origins-keeps best [] ds h k = h
    scan_origins-keeps best (o ∷ os) ds h (k, ks) =
        scan_origins-keeps (scan_destinations fl most o best ds) os ds
          (scan_destinations-keeps o best ds h k) ks

  scan_destinations-left :
      (o : VelovStation F) (best e : Option (Selection F)) (ds : List (VelovStation F))
      → IsNoLonger best e
      → IsNoLonger (scan_destinations fl most o best ds) e
  unfolding scan_destinations
  scan_destinations-left o best e [] h = h
  scan_destinations-left o best e (d ∷ ds) h =
      scan_destinations-left o (better fl best (pair_of fl most o d)) e ds (better-left best _ e h)

  scan_destinations-right :
      (o : VelovStation F) (best : Option (Selection F)) (ds : List (VelovStation F))
      → All (λ d. IsNoLonger (scan_destinations fl most o best ds) (pair_of fl most o d)) ds
  unfolding scan_destinations
  scan_destinations-right o best [] = tt
  scan_destinations-right o best (d ∷ ds) = (
    scan_destinations-left o (better fl best (pair_of fl most o d)) (pair_of fl most o d) ds
        (better-right best _),
    scan_destinations-right o (better fl best (pair_of fl most o d)) ds,
  )

  scan_origins-left :
      (best e : Option (Selection F)) (os ds : List (VelovStation F))
      → IsNoLonger best e
      → IsNoLonger (scan_origins fl most best os ds) e
  unfolding scan_origins
  scan_origins-left best e [] ds h = h
  scan_origins-left best e (o ∷ os) ds h =
      scan_origins-left (scan_destinations fl most o best ds) e os ds
        (scan_destinations-left o best e ds h)

  scan_origins-right :
      (best : Option (Selection F)) (os ds : List (VelovStation F))
      → All
          (λ o. All (λ d. IsNoLonger (scan_origins fl most best os ds) (pair_of fl most o d)) ds)
          os
  unfolding scan_origins
  scan_origins-right best [] ds = tt
  scan_origins-right best (o ∷ os) ds = (
    All-map _ _
        (λ d h.
          scan_origins-left (scan_destinations fl most o best ds) (pair_of fl most o d) os ds h)
        ds (scan_destinations-right o best ds),
    scan_origins-right (scan_destinations fl most o best ds) os ds,
  )

  abbrev AreCandidates : VelovStation F → VelovStation F → Option (Selection F) → Type 0
  AreCandidates o d none = Unit
  AreCandidates o d (some p) = IsCandidate o d p

  pair_at-AreCandidates :
      (o d : VelovStation F) (a b : Option F)
      → o.distance_m ≡ a
      → d.distance_m ≡ b
      → AreCandidates o d (pair_at fl most o d a b)
  pair_at-AreCandidates o d none b h k = tt
  pair_at-AreCandidates o d (some a) none h k = tt
  pair_at-AreCandidates o d (some a) (some b) h k = elim (Bool-cases (ltb_ℤ most (walk a b))) [
    | inl t ↦ rw t tt
    | inr f ↦ rw f (record {
      to_first = a;
      from_second = b;
      first_placed = h;
      second_placed = k;
      within_limit = f;
      origin = refl;
      destination = refl;
      walking = refl;
      duration = refl;
    })
  ]

  AreCandidates-IsTaken :
      (os ds : List (VelovStation F)) (o d : VelovStation F) (x : Option (Selection F))
      → Memᴰ o os
      → Memᴰ d ds
      → AreCandidates o d x
      → IsTaken os ds x
  AreCandidates-IsTaken os ds o d none m n h = tt
  AreCandidates-IsTaken os ds o d (some p) m n h = (o, d, m, n, h)

  pair_of-IsTaken :
      (os ds : List (VelovStation F)) (o d : VelovStation F)
      → Memᴰ o os
      → Memᴰ d ds
      → IsTaken os ds (pair_of fl most o d)
  unfolding pair_of
  pair_of-IsTaken os ds o d m n =
      AreCandidates-IsTaken os ds o d _ m n
        (pair_at-AreCandidates o d o.distance_m d.distance_m refl refl)

  IsNoLonger-some :
      (best : Option (Selection F)) (p : Selection F)
      → IsNoLonger best (some p)
      → (b : Selection F) × (best ≡ some b) × (ltb_ℤ p.duration b.duration ≡ false)
  IsNoLonger-some none p h = elim h [ ]
  IsNoLonger-some (some b) p h = (b, refl, h)

  pair_at-IsBeaten :
      (best : Option (Selection F)) (o d : VelovStation F) (a b : Option F)
      → IsNoLonger best (pair_at fl most o d a b)
      → IsBeaten best o d a b
  pair_at-IsBeaten best o d none b h = tt
  pair_at-IsBeaten best o d (some a) none h = tt
  pair_at-IsBeaten best o d (some a) (some b) h = elim (Bool-cases (ltb_ℤ most (walk a b))) [
    | inl t ↦ inl t
    | inr f ↦ inr (IsNoLonger-some best _ (rw f at h))
  ]

  pair_of-IsBeaten :
      (best : Option (Selection F)) (o d : VelovStation F)
      → IsNoLonger best (pair_of fl most o d)
      → IsBeaten best o d o.distance_m d.distance_m
  unfolding pair_of
  pair_of-IsBeaten best o d h = pair_at-IsBeaten best o d o.distance_m d.distance_m h

  -- The selected pair, where there is one, has one station of each list, both with a distance, a
  -- walk within the limit, and the time of the ride and the walk as its duration. For any two
  -- stations with a distance, the walk is beyond the limit or a pair is selected that takes no longer.
  pub select_stations-IsBest :
      (os ds : List (VelovStation F))
      → IsTaken os ds (select_stations fl most os ds)
        × All
            (λ o.
              All (λ d. IsBeaten (select_stations fl most os ds) o d o.distance_m d.distance_m) ds)
            os
  unfolding select_stations
  select_stations-IsBest os ds = (
    scan_origins-keeps (IsTaken os ds) none os ds tt
        (All-of_mem os (λ o m. All-of_mem ds (λ d n. pair_of-IsTaken os ds o d m n))),
    All-map _ _ (λ o h. All-map _ _ (λ d k. pair_of-IsBeaten _ o d k) ds h) os
        (scan_origins-right none os ds),
  )
