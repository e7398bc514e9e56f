-- ===== src/Service/Journey/Ranking.antt =====
-- The order of the trip options and the recommendation of internal/service/journey.go.
use mathlib.Core.List.{Perm}
use mathlib.Core.List.{Memᴰ}
use mathlib.Core.Path.{subst}
use mcp_grand_lyon.Base.{
  String, ◌≡◌, ◌⊎◌, inl, inr, refl, Bool, true, false, Option, none, some, List, [], ◌∷◌, arith,
  All, All-map, Bool-cases,
}
use mcp_grand_lyon.Base.Sort.{
  IsStrictWeak, IsSorted, sort_stable, sort_stable-perm, sort_stable-IsSorted,
}
use mcp_grand_lyon.Model.Envelope.{Time}
use mcp_grand_lyon.Model.Records.{TripOption, TripPreferences}
use mcp_grand_lyon.Service.Journey.{
  ranks_before, first_eligible, evaluate_trip_options, apply_trip_timing, rank_trips,
}

module _ {F : Type 0} (lt : F → F → Bool) (o : IsStrictWeak lt) where
  ranks_before-IsStrictWeak : IsStrictWeak {A = TripOption F} (ranks_before lt)
  ranks_before-IsStrictWeak = record {
    asymm = λ a b h. ground (arith, o.asymm b.score a.score);
    le_trans = λ a b c h k. ground (arith, o.le_trans c.score b.score a.score);
  }

  -- Nothing is eligible; or the option is one of the list, is eligible, and no eligible option
  -- of the list has a greater score.
  abbrev pub IsRecommendation : List (TripOption F) → Option (TripOption F) → Type 0
  IsRecommendation options none = All (λ q. q.eligible ≡ false) options
  IsRecommendation options (some best) =
      (best.eligible ≡ true)
      × Memᴰ best options
      × All (λ q. (q.eligible ≡ false) ⊎ (lt best.score q.score ≡ false)) options

  lt_irrefl : (x : F) → lt x x ≡ false
  lt_irrefl x = ground (arith, o.asymm x x)

  first_eligible-head :
      (x : TripOption F) (xs : List (TripOption F))
      → x.eligible ≡ true
      → some x ≡ first_eligible (x ∷ xs)
  unfolding first_eligible
  first_eligible-head x xs e = simp e

  first_eligible-eq-none :
      (xs : List (TripOption F)) → All (λ q. q.eligible ≡ false) xs → none ≡ first_eligible xs
  unfolding first_eligible
  first_eligible-eq-none [] h = refl
  first_eligible-eq-none (x ∷ xs) (e, h) = simp e (first_eligible-eq-none xs h)

  sorted-IsRecommendation :
      (options : List (TripOption F))
      → IsSorted (ranks_before lt) options
      → IsRecommendation options (first_eligible options)
  unfolding first_eligible
  sorted-IsRecommendation [] s = tt
  sorted-IsRecommendation (x ∷ xs) (below, s) = elim (Bool-cases x.eligible) [
    | inl e ↦ subst (IsRecommendation (x ∷ xs)) (first_eligible-head x xs e) (
      e,
      Memᴰ.head refl,
      (inr (lt_irrefl x.score), All-map _ _ (λ q h. ground (arith, h, e)) xs below),
    )
    | inr e ↦
        let rest : All (λ q. q.eligible ≡ false) xs =
          All-map _ _ (λ q h. ground (arith, h, e)) xs below in
        subst (IsRecommendation (x ∷ xs)) (first_eligible-eq-none (x ∷ xs) (e, rest)) (e, rest)
  ]

  -- Where `<` is a strict weak order on the scores: the options that are returned are those that
  -- were collected, timed and evaluated. The recommendation, if any, is an eligible one of them,
  -- with no greater score among the eligible ones; without one, none of them is eligible.
  pub rank_trips-IsRecommendation :
      (lower : String → String) (p : TripPreferences) (deadline : Option Time) (departure : Time)
      (status : String) (warned : Bool) (options : List (TripOption F))
      → let r = rank_trips lt lower p deadline departure status warned options in
        Perm r.options
          (evaluate_trip_options lower p deadline (apply_trip_timing options departure))
        × IsRecommendation r.options r.recommended
  unfolding rank_trips
  rank_trips-IsRecommendation lower p deadline departure status warned options =
      let timed = evaluate_trip_options lower p deadline (apply_trip_timing options departure) in
      (
        sort_stable-perm (ranks_before lt) timed,
        sorted-IsRecommendation (sort_stable (ranks_before lt) timed)
            (sort_stable-IsSorted (ranks_before lt) ranks_before-IsStrictWeak timed),
      )
