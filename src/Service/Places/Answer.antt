-- ===== src/Service/Places/Answer.antt =====
-- The envelope that internal/service/place.go's `ResolvePlace` returns.
use mcp_grand_lyon.Base.{
  is_nil, ℕ, ◌*◌, ◌≡◌, ◌≢◌, ◌⊎◌, inl, inr, refl, String, Bool, true, false, none, List, [], ◌∷◌,
  ◌++◌,
}
use mcp_grand_lyon.Base.Int.{ℤ}
use mcp_grand_lyon.Base.Text.{Text, trim_space}
use mcp_grand_lyon.Model.Envelope.{
  Time, Envelope, WarningItem, new_envelope, warn, warn_if, append-ne-nil,
}
use mcp_grand_lyon.Model.Float.{Float}
use mcp_grand_lyon.Model.Names.{Unicode}
use mcp_grand_lyon.Service.Places.{
  PlaceCandidate, PlaceSources, Nearby, is_unresolved, search_places, all_candidates,
  local_candidates, place_answer, resolve_place,
}

-- A warning is carried, and the answer is marked degraded.
abbrev pub IsReported : {D : Type 0} → Envelope D → Type 0
IsReported e = (e.warnings ≢ []) × (e.degraded ≡ true)

warn-IsReported :
    {D : Type 0} (e : Envelope D) (code source message : String) (retryable : Bool)
    → IsReported (warn e code source message retryable)
unfolding warn
warn-IsReported e code source message retryable = (append-ne-nil e.warnings _, refl)

warn_if-IsReported :
    {D : Type 0} (test : Bool) (e : Envelope D) (code source message : String) (retryable : Bool)
    → (test ≡ true) ⊎ IsReported e
    → IsReported (warn_if test e code source message retryable)
unfolding warn_if
warn_if-IsReported true e code source message retryable h =
    warn-IsReported e code source message retryable
warn_if-IsReported false e code source message retryable (inl h) = cc
warn_if-IsReported false e code source message retryable (inr h) = h

pub is_nil-eq-false : (s : Text) → s ≢ [] → is_nil s ≡ false
is_nil-eq-false [] h = elim (h refl) [ ]
is_nil-eq-false (c ∷ s) h = refl

module _ (fl : Float) (unicode : Unicode) where
  open fl use {F}

  place_answer-IsReported :
      (now : Time) (query : Text) (unresolved : Bool) (cs : List (PlaceCandidate F))
      (ws : List WarningItem)
      → (unresolved ≡ true) ⊎ (ws ≢ [])
      → IsReported (place_answer fl unicode now query unresolved (cs, ws))
  unfolding place_answer new_envelope
  place_answer-IsReported now query unresolved cs ws (inl h) =
      warn_if-IsReported _ _ _ _ _ _ (inl h)
  place_answer-IsReported now query unresolved cs [] (inr h) = elim (h refl) [ ]
  place_answer-IsReported now query unresolved cs (w ∷ ws) (inr h) =
      warn_if-IsReported _ _ _ _ _ _ (inr (warn_if-IsReported _ _ _ _ _ _ (inr (h, refl))))

  append-ne-nil_left : (ws vs : List WarningItem) → ws ≢ [] → ws ++ vs ≢ []
  append-ne-nil_left [] vs h = elim (h refl) [ ]
  append-ne-nil_left (w ∷ ws) vs h = λ e. cc

  local_candidates-warned :
      (s : PlaceSources F) (query : Text) (limit : ℕ)
      → ((q : Text) (n : ℕ) → s.entities q n ≡ none) ⊎ ((q : Text) (n : ℕ) → s.stops q n ≡ none)
      → (local_candidates fl unicode s query limit).1 ≢ []
  unfolding local_candidates
  local_candidates-warned s query limit (inl h) = rw (h query (limit * 2)) (λ e. cc)
  local_candidates-warned s query limit (inr h) = rw (h query (limit * 2)) (append-ne-nil _ _)

  -- Where an index of the store fails, or the nearby reference does not resolve, the answer to a query that is
  -- not blank carries a warning and is marked degraded.
  pub resolve_place-IsReported :
      (now : Time) (s : PlaceSources F) (query : Text) (near : Nearby fl unicode)
      (types : List Text) (limit : ℤ)
      → trim_space query ≢ []
      → ((q : Text) (n : ℕ) → s.entities q n ≡ none)
        ⊎ ((q : Text) (n : ℕ) → s.stops q n ≡ none)
        ⊎ (is_unresolved fl unicode near ≡ true)
      → IsReported (resolve_place fl unicode now s query near types limit)
  unfolding resolve_place search_places all_candidates
  resolve_place-IsReported now s query near types limit q h =
      rw (is_nil-eq-false (trim_space query) q) (
        place_answer-IsReported now query _ _ _ (elim h [
          | inl k ↦ inr (append-ne-nil_left _ _ (local_candidates-warned s query _ (inl k)))
          | inr (inl k) ↦ inr (append-ne-nil_left _ _ (local_candidates-warned s query _ (inr k)))
          | inr (inr k) ↦ inl k
        ]))
