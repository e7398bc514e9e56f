-- ===== src/Service/Freshness/Extremes.antt =====
-- The oldest and the latest instant that internal/service/freshness.go picks.
use mcp_grand_lyon.Base.{
  ◌≡◌, ◌⊎◌, inl, inr, Bool, false, Option, none, some, List, [], ◌∷◌, arith, All, refl, ltb,
  Bool-cases, Option-cases,
}
use mcp_grand_lyon.Base.Sort.{IsStrictWeak}
use mcp_grand_lyon.Model.Envelope.{Time}
use mcp_grand_lyon.Service.Freshness.{
  known, choose, pick_from, is_after, oldest_observation, latest_retrieval,
}

abbrev with_known : Option Time → List Time → List Time
with_known none ts = ts
with_known (some t) ts = t ∷ ts

-- The instants of the set: nil pointers and zero times left out.
abbrev pub instants : List (Option Time) → List Time
instants [] = []
instants (v ∷ vs) = with_known (known v) (instants vs)

abbrev pub Holds : Time → List Time → Type 0
Holds t [] = ⊥
Holds t (u ∷ us) = (t ≡ u) ⊎ Holds t us

module _ (before : Time → Time → Bool) where
  pick : Option Time → List Time → Option Time
  pick best [] = best
  pick best (t ∷ ts) = pick (choose before best (some t)) ts

  pick_from-eq-pick :
      (best : Option Time) (vs : List (Option Time))
      → pick_from before best vs ≡ pick best (instants vs)
  unfolding pick_from pick
  pick_from-eq-pick best [] = refl
  pick_from-eq-pick best (v ∷ vs) = elim (Option-cases (known v)) [
    | inl e ↦ rw e (pick_from-eq-pick best vs)
    | inr (t, e) ↦ rw e (pick_from-eq-pick (choose before best (some t)) vs)
  ]

  -- t is one of the instants, and none of them comes before it.
  abbrev pub IsFirst : List Time → Option Time → Type 0
  IsFirst ts none = ts ≡ []
  IsFirst ts (some t) = Holds t ts × All (λ u. before u t ≡ false) ts

  module _ (o : IsStrictWeak before) (irrefl : (t : Time) → before t t ≡ false) where
    pick_lem :
        (b : Time) (ts : List Time)
        → (t : Time) × (pick (some b) ts ≡ some t)
          × ((t ≡ b) ⊎ Holds t ts)
          × (before b t ≡ false)
          × All (λ u. before u t ≡ false) ts
    unfolding pick
    pick_lem b [] = (b, refl, inl refl, irrefl b, tt)
    pick_lem b (v ∷ vs) = elim (Bool-cases (before v b)) [
      | inl e ↦
          let (t, found, member, first, rest) = pick_lem v vs in
          rw e (t, found, inr member, o.le_trans t v b first (o.asymm v b e), (first, rest))
      | inr e ↦
          let (t, found, member, first, rest) = pick_lem b vs in
          rw e (t, found, ground arith, first, (o.le_trans t b v first e, rest))
    ]

    pick-IsFirst : (ts : List Time) → IsFirst ts (pick none ts)
    unfolding pick
    pick-IsFirst [] = refl
    pick-IsFirst (b ∷ ts) =
        let (t, found, member, first, rest) = pick_lem b ts in rw found (member, (first, rest))

ltb-IsStrictWeak : IsStrictWeak ltb
ltb-IsStrictWeak = record { asymm = λ a b h. ground arith; le_trans = λ a b c h k. ground arith }

is_after-IsStrictWeak : IsStrictWeak is_after
is_after-IsStrictWeak = record {
  asymm = λ a b h. ground arith;
  le_trans = λ a b c h k. ground arith;
}

-- The oldest observation is one of the known instants of the set with none before it, and is
-- missing exactly where the set has no known instant.
pub oldest_observation-IsFirst :
    (vs : List (Option Time)) → IsFirst ltb (instants vs) (oldest_observation vs)
unfolding oldest_observation
oldest_observation-IsFirst vs =
    rw (pick_from-eq-pick ltb none vs)
      (pick-IsFirst ltb ltb-IsStrictWeak (λ t. ground arith) (instants vs))

-- The latest retrieval is one of the known instants of the set with none after it, and is missing
-- exactly where the set has no known instant.
pub latest_retrieval-IsFirst :
    (vs : List (Option Time)) → IsFirst is_after (instants vs) (latest_retrieval vs)
unfolding latest_retrieval
latest_retrieval-IsFirst vs =
    rw (pick_from-eq-pick is_after none vs)
      (pick-IsFirst is_after is_after-IsStrictWeak (λ t. ground arith) (instants vs))
