-- ===== src/Storage/Tests.antt =====
-- The instances of the storage's theorems at concrete inputs.
use mcp_grand_lyon.Base.{
  ◌<◌, ◌+◌, ◌*◌, ◌%◌, none, ◌≡◌, ◌≤◌, ◌⊎◌, true, false, ◌&&◌, [], ◌∷◌, List, All, filter, length,
  refl,
}
use mcp_grand_lyon.Base.Int.{pos}
use mcp_grand_lyon.Base.Text.{codes, same}
use mcp_grand_lyon.Base.TextOrder.{text_lt}
use mcp_grand_lyon.Base.Sort.{IsSorted}
use mcp_grand_lyon.Model.GtfsTime.{hour}
use mcp_grand_lyon.Storage.Timetable.{
  Civil, Query, Services, GtfsDepartureRow, earlier, scheduled_departures,
}
use mcp_grand_lyon.Storage.Timetable.Window.{scheduled_departures-IsTimely}
use mcp_grand_lyon.Storage.Window.{total_if, running}
use mcp_grand_lyon.Storage.Retention.{
  BriefingSnapshot, CacheEntry, HistoryRetentionPolicy, History, Outcomes, within_newest,
  prune_history, is_retained, prune_cache, is_valid,
}
use mcp_grand_lyon.Storage.Retention.Bounds.{prune_history-IsBounded, prune_cache-IsBounded}

abbrev snapshots : List BriefingSnapshot
snapshots =
    record { id = 1; profile_key = codes "home"; captured_at = codes "2025-01-01" }
    ∷ record { id = 2; profile_key = codes "home"; captured_at = codes "2025-01-02" }
    ∷ []

abbrev policy : HistoryRetentionPolicy
policy = record {
  briefing_max_age_days = pos 0;
  briefing_max_count = pos 1;
  velov_max_age_days = pos 30;
  velov_max_count = pos 2;
}

abbrev history : History
history = record { briefings = snapshots; velov = [] }

abbrev all_done : Outcomes
all_done = record { begun = true; briefings_pruned = true; velov_pruned = true; committed = true }

prune_history-IsBounded_example :
    let after = prune_history all_done [] [] policy history in
    (after.1 ≡ (is_valid policy && true && true && true && true))
    × ((after ≡ (history, false))
        ⊎ ((length (filter (λ r. same r.profile_key (codes "home")) after.0.briefings) ≤ 1)
            × (length after.0.velov ≤ 2)))
prune_history-IsBounded_example =
    prune_history-IsBounded all_done [] [] policy 0 1 refl refl history (codes "home")

abbrev entries : List CacheEntry
entries =
    record { rowid = 1; retrieved_at = codes "a"; maximum_stale_at = codes "c"; payload_bytes = 5 }
    ∷ record {
      rowid = 2;
      retrieved_at = codes "b";
      maximum_stale_at = codes "d";
      payload_bytes = 7;
    }
    ∷ []

abbrev kept_entries : List CacheEntry
kept_entries =
    record { rowid = 2; retrieved_at = codes "b"; maximum_stale_at = codes "d"; payload_bytes = 7 }
    ∷ []

prune_cache-IsBounded_example :
    (1 ≤ 9)
    × (total_if (λ r. true) (λ r. r.payload_bytes) kept_entries ≤ 10)
    × All (λ r. text_lt (codes "b") r.maximum_stale_at ≡ true) kept_entries
unfolding prune_cache is_retained within_newest running text_lt total_if
prune_cache-IsBounded_example = prune_cache-IsBounded 9 10 (codes "b") entries kept_entries refl

-- Day 9 of a clock without changes, at eight in the morning.
abbrev plain : Civil
plain = record {
  noon = λ d. 12 * hour + d * (24 * hour);
  civil = λ t. 9;
  date_key = λ d. codes "20250109";
  weekday = λ d. d % 7;
}

abbrev query : Query
query = record { at = 224 * hour; line = []; direction = []; limit = pos 3 }

abbrev always : Services
always = record { calendars = λ id. none; exceptions = λ id day. 1 }

abbrev bus : GtfsDepartureRow
bus = record {
  departure = codes "08:30:00";
  headsign = codes "Part-Dieu";
  route_id = codes "C1";
  short_name = codes "C1";
  long_name = [];
  service_id = codes "S";
}

scheduled_departures-IsTimely_example :
    let ds = scheduled_departures (λ s. s) (λ s. s) plain always query (bus ∷ []) in
    (length ds ≤ 100)
    × IsSorted earlier ds
    × All (λ d. (224 * hour ≤ d.scheduled_at) × (d.scheduled_at < 224 * hour + 24 * hour)) ds
scheduled_departures-IsTimely_example =
    scheduled_departures-IsTimely (λ s. s) (λ s. s) plain always query (bus ∷ [])
