-- ===== src/Base/Unique.antt =====
-- The loops that keep the first value of each key, such as internal/service/freshness.go's
-- `uniqueSources`.
use native.Mathlib.Omega.{arith}
use mathlib.Core.Path.{◌≡◌, refl, subst}
use mathlib.Core.Logic.{◌≢◌, ◌⊎◌, ◌↔◌, inl, inr}
use mathlib.Core.Bool.{Bool, true, false}
use mathlib.Core.List.{List, [], ◌∷◌}
use mcp_grand_lyon.Base.Tests.{if◌then◌else◌, Bool-cases}
use mcp_grand_lyon.Base.Lists.{All, All-map, any, Pairwise}

module _ {ℓ} {A : Type ℓ} {K : Type 0} (key : A → K) where
  -- No key occurs twice.
  abbrev pub HasDistinctKeys : List A → Type ℓ
  HasDistinctKeys = Pairwise (λ v u. key v ≢ key u)

  -- The key of v occurs in the list.
  abbrev pub HasKey : A → List A → Type 0
  HasKey v [] = ⊥
  HasKey v (u ∷ us) = (key u ≡ key v) ⊎ HasKey v us

-- `is` tests keys for equality.
module _ {ℓ} {A : Type ℓ} {K : Type 0} (is : K → K → Bool) (key : A → K) where
  -- The loop that keeps the first value of each key; `seen` has the keys that are set in the map.
  unique_from : List K → List A → List A
  unique_from seen [] = []
  unique_from seen (v ∷ vs) =
      let skip = unique_from seen vs in
      let keep = v ∷ unique_from (key v ∷ seen) vs in
      if any (λ k. is k (key v)) seen then skip else keep

  unfoldable pub unique_by : List A → List A
  unfolding unique_from
  unique_by vs = unique_from [] vs

  abbrev seen_in : List K → K → Bool
  seen_in seen k = any (λ j. is j k) seen

  All-unique_from {κ} :
      (P : A → Type κ) (seen : List K) (vs : List A) → All P vs → All P (unique_from seen vs)
  unfolding unique_from
  All-unique_from P seen [] h = tt
  All-unique_from P seen (v ∷ vs) (p, h) = elim (Bool-cases (seen_in seen (key v))) [
    | inl e ↦ rw e (All-unique_from P seen vs h)
    | inr e ↦ rw e (p, All-unique_from P (key v ∷ seen) vs h)
  ]

  pub All-unique_by {κ} : (P : A → Type κ) (vs : List A) → All P vs → All P (unique_by vs)
  unfolding unique_by
  All-unique_by P vs h = All-unique_from P [] vs h

  unique_from-unseen :
      (seen : List K) (vs : List A) → All (λ u. seen_in seen (key u) ≡ false) (unique_from seen vs)
  unfolding unique_from
  unique_from-unseen seen [] = tt
  unique_from-unseen seen (v ∷ vs) = elim (Bool-cases (seen_in seen (key v))) [
    | inl e ↦ rw e (unique_from-unseen seen vs)
    | inr e ↦ rw e (
      e,
      All-map _ _ (λ u h. ground arith) (unique_from (key v ∷ seen) vs)
          (unique_from-unseen (key v ∷ seen) vs),
    )
  ]

  module _ (is_iff : (j k : K) → (is j k ≡ true) ↔ (j ≡ k)) where
    unique_from-HasDistinctKeys :
        (seen : List K) (vs : List A) → HasDistinctKeys key (unique_from seen vs)
    unfolding unique_from
    unique_from-HasDistinctKeys seen [] = tt
    unique_from-HasDistinctKeys seen (v ∷ vs) = elim (Bool-cases (seen_in seen (key v))) [
      | inl e ↦ rw e (unique_from-HasDistinctKeys seen vs)
      | inr e ↦ rw e (
        All-map _ _ (λ u h. ground (arith, is_iff (key v) (key u))) (unique_from (key v ∷ seen) vs)
            (unique_from-unseen (key v ∷ seen) vs),
        unique_from-HasDistinctKeys (key v ∷ seen) vs,
      )
    ]

    -- The key is among those seen, or is the key of a source that is kept.
    abbrev Covered : List K → List A → A → Type 0
    Covered seen kept v = (seen_in seen (key v) ≡ true) ⊎ HasKey key v kept

    Covered-cons :
        (seen : List K) (u : A) (kept : List A) (v : A)
        → Covered (key u ∷ seen) kept v
        → Covered seen (u ∷ kept) v
    Covered-cons seen u kept v h = ground (arith, is_iff (key u) (key v))

    unique_from-skip :
        (seen : List K) (v : A) (vs : List A)
        → seen_in seen (key v) ≡ true
        → unique_from seen vs ≡ unique_from seen (v ∷ vs)
    unfolding unique_from
    unique_from-skip seen v vs e = rw e

    unique_from-keep :
        (seen : List K) (v : A) (vs : List A)
        → seen_in seen (key v) ≡ false
        → v ∷ unique_from (key v ∷ seen) vs ≡ unique_from seen (v ∷ vs)
    unfolding unique_from
    unique_from-keep seen v vs e = rw e

    unique_from-Covered :
        (seen : List K) (vs : List A) → All (Covered seen (unique_from seen vs)) vs
    unique_from-Covered seen [] = tt
    unique_from-Covered seen (v ∷ vs) = elim (Bool-cases (seen_in seen (key v))) [
      | inl e ↦
          subst (λ kept. All (Covered seen kept) (v ∷ vs)) (unique_from-skip seen v vs e)
            (inl e, unique_from-Covered seen vs)
      | inr e ↦
          subst (λ kept. All (Covered seen kept) (v ∷ vs)) (unique_from-keep seen v vs e)
            (
              inr (inl refl),
              All-map _ _ (Covered-cons seen v (unique_from (key v ∷ seen) vs)) vs
                  (unique_from-Covered (key v ∷ seen) vs),
            )
    ]

    -- The sources that are kept have distinct keys, and every source's key is kept.
    pub unique_by-distinct_complete :
        (vs : List A)
        → HasDistinctKeys key (unique_by vs) × All (λ v. HasKey key v (unique_by vs)) vs
    unfolding unique_by
    unique_by-distinct_complete vs = (
      unique_from-HasDistinctKeys [] vs,
      All-map _ _ (λ v h. ground arith) vs (unique_from-Covered [] vs),
    )
