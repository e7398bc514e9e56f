-- ===== src/Storage/Retention.antt =====
-- internal/storage/retention.go: `HistoryRetentionPolicy`, `PruneHistory`, `PruneCache`,
-- `PruneSourceHealth`, `DeleteBriefingHistory` and `DeleteVelovHistory`. Times are compared as the
-- texts that the tables hold. `rowid` and `id` are numbers. The clock's cut-offs are arguments. For
-- `PruneHistory`, so is whether SQLite carries out each statement and the commit: a transaction
-- that does not commit leaves the tables as they were. The others are the run in which every
-- statement succeeds. The counts of deleted rows that the prunings report are left out.
pub mod Bounds
use mcp_grand_lyon.Base.{
  ℕ, suc, ◌-◌, Bool, true, false, not, ◌&&◌, ◌||◌, Option, none, some, List, [], ◌∷◌, filter,
  length, ltb, leb, if◌then◌else◌,
}
use mcp_grand_lyon.Base.Int.{ℤ, pos, negsuc}
use mcp_grand_lyon.Base.Text.{Text, same}
use mcp_grand_lyon.Base.TextOrder.{text_lt}
use mcp_grand_lyon.Storage.Window.{running}

pub record BriefingSnapshot : Type 0 where
  pub id : ℕ
  pub profile_key : Text
  pub captured_at : Text

pub record VelovSnapshot : Type 0 where
  pub id : ℕ
  pub station_id : Text
  pub observed_at : Text

pub record CacheEntry : Type 0 where
  pub rowid : ℕ
  pub retrieved_at : Text
  pub maximum_stale_at : Text
  pub payload_bytes : ℕ

-- `last_at` is `MAX(COALESCE(last_success_at,''),COALESCE(last_failure_at,''))`.
pub record SourceHealth : Type 0 where
  pub rowid : ℕ
  pub last_at : Text

pub record HistoryRetentionPolicy : Type 0 where
  pub briefing_max_age_days : ℤ
  pub briefing_max_count : ℤ
  pub velov_max_age_days : ℤ
  pub velov_max_count : ℤ

abbrev is_negative : ℤ → Bool
is_negative (pos n) = false
is_negative (negsuc n) = true

abbrev is_positive : ℤ → Bool
is_positive (pos (suc n)) = true
is_positive _ = false

unfoldable pub is_valid : HistoryRetentionPolicy → Bool
is_valid p = not (
    is_negative p.briefing_max_age_days
    || is_negative p.briefing_max_count
    || is_negative p.velov_max_age_days
    || is_negative p.velov_max_count)

-- `ORDER BY at DESC, id DESC`.
abbrev pub newer : Text → ℕ → Text → ℕ → Bool
newer at id at' id' = text_lt at' at || not (text_lt at at') && ltb id' id

abbrev pub briefing_newer : BriefingSnapshot → BriefingSnapshot → Bool
briefing_newer a b = newer a.captured_at a.id b.captured_at b.id

abbrev pub velov_newer : VelovSnapshot → VelovSnapshot → Bool
velov_newer a b = newer a.observed_at a.id b.observed_at b.id

abbrev pub cache_newer : CacheEntry → CacheEntry → Bool
cache_newer a b = newer a.retrieved_at a.rowid b.retrieved_at b.rowid

abbrev pub health_newer : SourceHealth → SourceHealth → Bool
health_newer a b = newer a.last_at a.rowid b.last_at b.rowid

-- `PARTITION BY profile_key`.
abbrev pub same_profile : BriefingSnapshot → BriefingSnapshot → Bool
same_profile a b = same a.profile_key b.profile_key

abbrev pub everywhere {ℓ} : {A : Type ℓ} → A → A → Bool
everywhere a b = true

abbrev pub one {ℓ} : {A : Type ℓ} → A → ℕ
one a = 1

-- `position <= n`.
unfoldable pub within_newest {ℓ} :
    {A : Type ℓ} → (A → A → Bool) → (A → A → Bool) → ℕ → List A → A → Bool
within_newest partition ahead n rows r = leb (running partition ahead one rows r) n

-- The rows that `DELETE … WHERE position > n` leaves.
abbrev pub keep_newest {ℓ} : {A : Type ℓ} → (A → A → Bool) → (A → A → Bool) → ℕ → List A → List A
keep_newest partition ahead n rows = filter (within_newest partition ahead n rows) rows

unfoldable pub prune_briefings :
    Text → HistoryRetentionPolicy → List BriefingSnapshot → List BriefingSnapshot
prune_briefings cutoff policy rows =
    let recent =
      if is_positive policy.briefing_max_age_days
      then filter (λ r. not (text_lt r.captured_at cutoff)) rows
      else rows in
    elim policy.briefing_max_count [
      | pos (suc n) ↦ keep_newest same_profile briefing_newer (suc n) recent
      | _ ↦ recent
    ]

unfoldable pub prune_velov : Text → HistoryRetentionPolicy → List VelovSnapshot → List VelovSnapshot
prune_velov cutoff policy rows =
    let recent =
      if is_positive policy.velov_max_age_days
      then filter (λ r. not (text_lt r.observed_at cutoff)) rows
      else rows in
    elim policy.velov_max_count [
      | pos (suc n) ↦ keep_newest everywhere velov_newer (suc n) recent
      | _ ↦ recent
    ]

pub record History : Type 0 where
  pub briefings : List BriefingSnapshot
  pub velov : List VelovSnapshot

-- Whether each step succeeds: the begin, the statement on each table (both of its deletions), and
-- the commit.
pub record Outcomes : Type 0 where
  pub begun : Bool
  pub briefings_pruned : Bool
  pub velov_pruned : Bool
  pub committed : Bool

-- The tables after `PruneHistory`, and whether it returns without an error.
unfoldable pub prune_history :
    Outcomes → Text → Text → HistoryRetentionPolicy → History → History × Bool
prune_history outcomes briefing_cutoff velov_cutoff policy h =
    if is_valid policy
      && outcomes.begun
      && outcomes.briefings_pruned
      && outcomes.velov_pruned
      && outcomes.committed
    then (
      record {
        briefings = prune_briefings briefing_cutoff policy h.briefings;
        velov = prune_velov velov_cutoff policy h.velov;
      },
      true,
    )
    else (h, false)

unfoldable pub delete_briefing_history : Text → List BriefingSnapshot → List BriefingSnapshot × ℕ
delete_briefing_history profile rows =
    let kept = filter (λ r. not (same r.profile_key profile)) rows in
    (kept, length rows - length kept)

abbrev is_empty : Text → Bool
is_empty [] = true
is_empty (c ∷ s) = false

unfoldable pub delete_velov_history : Text → List VelovSnapshot → List VelovSnapshot × ℕ
delete_velov_history station_id rows =
    let kept =
      if is_empty station_id then [] else filter (λ r. not (same r.station_id station_id)) rows in
    (kept, length rows - length kept)

-- Not `position > max_entries OR retained_bytes > max_bytes`.
unfoldable pub is_retained : ℕ → ℕ → List CacheEntry → CacheEntry → Bool
is_retained max_entries max_bytes rows r =
    within_newest everywhere cache_newer max_entries rows r
    && leb (running everywhere cache_newer (λ q. q.payload_bytes) rows r) max_bytes

abbrev pub evict : ℕ → ℕ → List CacheEntry → List CacheEntry
evict max_entries max_bytes rows = filter (is_retained max_entries max_bytes rows) rows

unfoldable pub prune_cache : ℤ → ℤ → Text → List CacheEntry → Option (List CacheEntry)
prune_cache (pos max_entries) (pos max_bytes) now rows =
    some (evict max_entries max_bytes (filter (λ r. text_lt now r.maximum_stale_at) rows))
prune_cache (negsuc n) max_bytes now rows = none
prune_cache (pos max_entries) (negsuc n) now rows = none

-- `LIMIT -1 OFFSET max_entries` deletes the rows past that position.
unfoldable pub prune_source_health : ℤ → Text → List SourceHealth → Option (List SourceHealth)
prune_source_health (pos max_entries) cutoff rows =
    some (
      keep_newest everywhere health_newer max_entries (filter (λ r. text_lt cutoff r.last_at) rows))
prune_source_health (negsuc n) cutoff rows = none
