-- ===== src/Model/Envelope.antt =====
-- internal/model/types.go and helpers.go: `Envelope`, `SourceProvenance`, `WarningItem`,
-- `NewEnvelope` and `Warn`. The data of an envelope is a type of each tool. The request identifier,
-- which is random, and the schema version, which is constant, are left out. Instants are numbers of
-- nanoseconds since Go's zero time, so `IsZero` is a comparison with 0.
use mcp_grand_lyon.Base.{
  ℕ, String, Bool, true, false, Option, some, List, [], ◌∷◌, ◌++◌, ◌≡◌, refl, ◌=ₛ◌, if◌then◌else◌,
  arith, ◌⊎◌, eq_iff, inl, inr, ◌≢◌,
}

-- A wall-clock instant.
abbrev pub Time : Type 0
Time = ℕ

pub record SourceProvenance : Type 0 where
  pub provider : String
  pub source_id : String
  pub dataset : String
  pub attribution : String
  pub license : String
  pub observed_at : Option Time
  pub retrieved_at : Option Time
  pub age_seconds : Option ℕ
  pub realtime : Bool
  pub stale : Bool

pub record WarningItem : Type 0 where
  pub code : String
  pub source : Option String
  pub message : String
  pub retryable : Bool

pub record Envelope (D : Type 0) : Type 0 where
  pub status : String
  pub generated_at : Time
  pub summary : String
  pub payload : D
  pub sources : List SourceProvenance
  pub warnings : List WarningItem
  pub degraded : Bool

abbrev demote : String → String
demote status = if status =ₛ "ok" then "partial" else status

pub append-ne-nil : (ws : List WarningItem) (w : WarningItem) → ws ++ w ∷ [] ≢ []
append-ne-nil [] w h = cc
append-ne-nil (v ∷ ws) w h = cc

module _ {D : Type 0} where
  -- `now` is `model.Now()`.
  unfoldable pub new_envelope : Time → String → String → D → Envelope D
  new_envelope now status summary payload = record {
    status = status;
    generated_at = now;
    summary = summary;
    payload = payload;
    sources = [];
    warnings = [];
    degraded = false;
  }

  unfoldable pub warn : Envelope D → String → String → String → Bool → Envelope D
  warn e code source message retryable = record e {
    warnings =
        e.warnings
        ++ record { code = code; source = some source; message = message; retryable = retryable }
          ∷ [];
    degraded = true;
    status = demote e.status;
  }

  -- `if test { envelope.Warn(…) }`.
  unfoldable pub warn_if : Bool → Envelope D → String → String → String → Bool → Envelope D
  warn_if test e code source message retryable =
      if test then warn e code source message retryable else e

  -- An envelope that carries a warning is marked degraded, and is not reported as "ok".
  abbrev pub IsHonest : Envelope D → Type 0
  IsHonest e = (e.warnings ≡ []) ⊎ ((e.degraded ≡ true) × (e.status ≢ "ok"))

  pub new_envelope-IsHonest :
      (now : Time) (status summary : String) (payload : D)
      → IsHonest (new_envelope now status summary payload)
  unfolding new_envelope
  new_envelope-IsHonest now status summary payload = inl refl

  pub warn-IsHonest :
      (e : Envelope D) (code source message : String) (retryable : Bool)
      → IsHonest (warn e code source message retryable)
  unfolding warn
  warn-IsHonest e code source message retryable =
      inr (refl, ground (arith, eq_iff e.status "ok", eq_iff "partial" "ok"))

  pub warn_if-IsHonest :
      (test : Bool) (e : Envelope D) (code source message : String) (retryable : Bool)
      → IsHonest e
      → IsHonest (warn_if test e code source message retryable)
  unfolding warn_if
  warn_if-IsHonest true e code source message retryable h =
      warn-IsHonest e code source message retryable
  warn_if-IsHonest false e code source message retryable h = h

  -- An envelope that reports a problem: a warning, the degraded mark, and a status other than "ok".
  abbrev pub IsDegraded : Envelope D → Type 0
  IsDegraded e = (e.warnings ≢ []) × (e.degraded ≡ true) × (e.status ≢ "ok")

  pub warn-IsDegraded :
      (e : Envelope D) (code source message : String) (retryable : Bool)
      → IsDegraded (warn e code source message retryable)
  unfolding warn
  warn-IsDegraded e code source message retryable = (
    append-ne-nil e.warnings _,
    refl,
    ground (arith, eq_iff e.status "ok", eq_iff "partial" "ok"),
  )

  pub warn_if-IsDegraded :
      (test : Bool) (e : Envelope D) (code source message : String) (retryable : Bool)
      → IsDegraded e
      → IsDegraded (warn_if test e code source message retryable)
  unfolding warn_if
  warn_if-IsDegraded true e code source message retryable h =
      warn-IsDegraded e code source message retryable
  warn_if-IsDegraded false e code source message retryable h = h

  pub if-IsHonest :
      (test : Bool) (e f : Envelope D) → IsHonest e → IsHonest f → IsHonest (if test then e else f)
  if-IsHonest true e f h k = h
  if-IsHonest false e f h k = k

  pub warn_if-true-IsDegraded :
      (e : Envelope D) (code source message : String) (retryable : Bool)
      → IsDegraded (warn_if true e code source message retryable)
  unfolding warn_if
  warn_if-true-IsDegraded e code source message retryable =
      warn-IsDegraded e code source message retryable

  pub if-IsDegraded :
      (test : Bool) (e f : Envelope D)
      → IsDegraded e
      → IsDegraded f
      → IsDegraded (if test then e else f)
  if-IsDegraded true e f h k = h
  if-IsDegraded false e f h k = k

  -- `envelope.Sources = append(envelope.Sources, source)`.
  unfoldable pub add_source : Envelope D → SourceProvenance → Envelope D
  add_source e v = record e { sources = e.sources ++ v ∷ [] }

  pub add_source-IsHonest :
      (e : Envelope D) (v : SourceProvenance) → IsHonest e → IsHonest (add_source e v)
  unfolding add_source
  add_source-IsHonest e v h = h

  pub add_source-IsDegraded :
      (e : Envelope D) (v : SourceProvenance) → IsDegraded e → IsDegraded (add_source e v)
  unfolding add_source
  add_source-IsDegraded e v h = h

  -- The data and the summary are no part of what an envelope reports.
  unfoldable pub set_payload : Envelope D → D → String → Envelope D
  set_payload e d summary = record e { payload = d; summary = summary }

  pub set_payload-IsHonest :
      (e : Envelope D) (d : D) (summary : String) → IsHonest e → IsHonest (set_payload e d summary)
  unfolding set_payload
  set_payload-IsHonest e d summary h = h

  pub set_payload-IsDegraded :
      (e : Envelope D) (d : D) (summary : String)
      → IsDegraded e
      → IsDegraded (set_payload e d summary)
  unfolding set_payload
  set_payload-IsDegraded e d summary h = h
