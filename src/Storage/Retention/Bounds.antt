-- ===== src/Storage/Retention/Bounds.antt =====
-- What internal/storage/retention.go leaves in the tables: how much, and which rows.
use mathlib.Core.Path.{subst}
use mcp_grand_lyon.Base.{
  ℕ, suc, ◌≡◌, ◌≤◌, Bool, true, false, not, ◌&&◌, List, arith, filter, length, leb, refl, ap,
  value_or, All, All-filter, All-filter_of_test, sym, ◌∙◌, Bool-cases, inl, inr, some, ◌⊎◌,
}
use mcp_grand_lyon.Base.Int.{pos}
use mcp_grand_lyon.Base.Text.{Text, same, same-eq, same_refl}
use mcp_grand_lyon.Base.TextOrder.{text_lt, text_lt-IsStrictWeak}
use mcp_grand_lyon.Base.Sort.{IsStrictWeak}
use mcp_grand_lyon.Storage.Window.{
  total_if, running, running_bound, running_mono, total_if-filter, total_if_of_test,
  length-filter_total, length_total,
}
use mcp_grand_lyon.Storage.Retention.{
  BriefingSnapshot, VelovSnapshot, CacheEntry, HistoryRetentionPolicy, History, Outcomes, newer,
  one, everywhere, same_profile, briefing_newer, velov_newer, cache_newer, within_newest,
  keep_newest, prune_briefings, prune_velov, prune_history, is_retained, evict, prune_cache,
  is_valid,
}

newer_asymm : (s t : Text) (i j : ℕ) → newer s i t j ≡ true → newer t j s i ≡ false
newer_asymm s t i j h =
    ground (arith, text_lt-IsStrictWeak.asymm s t, text_lt-IsStrictWeak.asymm t s)

newer_le_trans :
    (r s t : Text) (i j k : ℕ)
    → newer s j r i ≡ false
    → newer t k s j ≡ false
    → newer t k r i ≡ false
newer_le_trans r s t i j k h h' = ground (
  arith,
  text_lt-IsStrictWeak.le_trans r s t,
  text_lt-IsStrictWeak.le_trans t s r,
  text_lt-IsStrictWeak.le_trans s r t,
  text_lt-IsStrictWeak.le_trans s t r,
  text_lt-IsStrictWeak.le_trans t r s,
  text_lt-IsStrictWeak.le_trans r t s,
  text_lt-IsStrictWeak.asymm r s,
  text_lt-IsStrictWeak.asymm s t,
  text_lt-IsStrictWeak.asymm r t,
)

module _ {ℓ} {A : Type ℓ} (at : A → Text) (id : A → ℕ) where
  pub newer-IsStrictWeak : IsStrictWeak (λ a b. newer (at a) (id a) (at b) (id b))
  newer-IsStrictWeak = record {
    asymm = λ a b h. newer_asymm (at a) (at b) (id a) (id b) h;
    le_trans = λ a b c h k. newer_le_trans (at a) (at b) (at c) (id a) (id b) (id c) h k;
  }

everywhere_trans {ℓ} :
    {A : Type ℓ}
    → (a b c : A) → everywhere a b ≡ true
    → everywhere b c ≡ true
    → everywhere a c ≡ true
everywhere_trans a b c h k = refl

briefing_newer-IsStrictWeak : IsStrictWeak briefing_newer
briefing_newer-IsStrictWeak = newer-IsStrictWeak (λ r. r.captured_at) (λ r. r.id)

velov_newer-IsStrictWeak : IsStrictWeak velov_newer
velov_newer-IsStrictWeak = newer-IsStrictWeak (λ r. r.observed_at) (λ r. r.id)

cache_newer-IsStrictWeak : IsStrictWeak cache_newer
cache_newer-IsStrictWeak = newer-IsStrictWeak (λ r. r.retrieved_at) (λ r. r.rowid)

same_of_key :
    (key : Text) (q r : BriefingSnapshot)
    → same q.profile_key key ≡ true
    → same r.profile_key key ≡ true
    → same_profile q r ≡ true
same_of_key key q r h k =
    let e : q.profile_key ≡ r.profile_key =
      same-eq q.profile_key key h ∙ sym (same-eq r.profile_key key k) in
    subst (λ t. same q.profile_key t ≡ true) e (same_refl q.profile_key)

module _ {ℓ} {A : Type ℓ} (partition ahead : A → A → Bool) (o : IsStrictWeak ahead) where
  keep_newest_bound :
      (part : A → Bool)
      → ((q r : A) → part q ≡ true → part r ≡ true → partition q r ≡ true)
      → (n : ℕ) (rows : List A) → length (filter part (keep_newest partition ahead n rows)) ≤ n
  unfolding within_newest
  keep_newest_bound part h n rows = omega (
    arith,
    length-filter_total part (keep_newest partition ahead n rows),
    total_if-filter part (within_newest partition ahead n rows) one rows,
    running_bound partition ahead one o part h n rows,
  )

same_profile_trans :
    (a b c : BriefingSnapshot)
    → same_profile a b ≡ true
    → same_profile b c ≡ true
    → same_profile a c ≡ true
same_profile_trans a b c h k =
    subst (λ t. same a.profile_key t ≡ true) (same-eq b.profile_key c.profile_key k) h

briefings_bound :
    (cutoff : Text) (policy : HistoryRetentionPolicy) (n : ℕ)
    → policy.briefing_max_count ≡ pos (suc n)
    → (rows : List BriefingSnapshot) (key : Text)
    → length (filter (λ r. same r.profile_key key) (prune_briefings cutoff policy rows)) ≤ suc n
unfolding prune_briefings
briefings_bound cutoff policy n e rows key = rw e (
    keep_newest_bound same_profile briefing_newer briefing_newer-IsStrictWeak
      (λ r. same r.profile_key key) (same_of_key key) (suc n) _)

velov_kept :
    (n : ℕ) (rows : List VelovSnapshot) → length (keep_newest everywhere velov_newer n rows) ≤ n
velov_kept n rows = omega (
  arith,
  length_total (keep_newest everywhere velov_newer n rows),
  length-filter_total (λ r. true) (keep_newest everywhere velov_newer n rows),
  keep_newest_bound everywhere velov_newer velov_newer-IsStrictWeak (λ r. true) (λ q r h k. refl) n
      rows,
)

velov_bound :
    (cutoff : Text) (policy : HistoryRetentionPolicy) (n : ℕ)
    → policy.velov_max_count ≡ pos (suc n)
    → (rows : List VelovSnapshot) → length (prune_velov cutoff policy rows) ≤ suc n
unfolding prune_velov
velov_bound cutoff policy n e rows = rw e (velov_kept (suc n) _)

-- With positive count limits n + 1 and m + 1, `PruneHistory` either fails and leaves both tables as
-- they were, or it succeeds, and then every profile has at most n + 1 briefing snapshots and there
-- are at most m + 1 bicycle snapshots. It succeeds exactly when the policy has no negative limit
-- and SQLite carries out every statement and the commit.
pub prune_history-IsBounded :
    (outcomes : Outcomes) (briefing_cutoff velov_cutoff : Text) (policy : HistoryRetentionPolicy)
    (n m : ℕ)
    → policy.briefing_max_count ≡ pos (suc n)
    → policy.velov_max_count ≡ pos (suc m)
    → (h : History) (key : Text)
    → (let after = prune_history outcomes briefing_cutoff velov_cutoff policy h in
        (after.1 ≡ (
          is_valid policy
          && outcomes.begun
          && outcomes.briefings_pruned
          && outcomes.velov_pruned
          && outcomes.committed))
        × ((after ≡ (h, false))
            ⊎ ((length (filter (λ r. same r.profile_key key) after.0.briefings) ≤ suc n)
                × (length after.0.velov ≤ suc m))))
unfolding prune_history
prune_history-IsBounded outcomes bc vc policy n m e f h key =
    elim (Bool-cases (
      is_valid policy
      && outcomes.begun
      && outcomes.briefings_pruned
      && outcomes.velov_pruned
      && outcomes.committed)) [
        | inl t ↦ rw t (
          refl,
          inr (briefings_bound bc policy n e h.briefings key, velov_bound vc policy m f h.velov),
        )
        | inr g ↦ rw g (refl, inl refl)
      ]

module _ (max_entries max_bytes : ℕ) (rows : List CacheEntry) where
  evict_bytes :
      total_if (λ r. true) (λ r. r.payload_bytes) (evict max_entries max_bytes rows) ≤ max_bytes
  unfolding is_retained
  evict_bytes = omega (
    arith,
    total_if-filter (λ r. true) (is_retained max_entries max_bytes rows) (λ r. r.payload_bytes)
        rows,
    total_if_of_test (is_retained max_entries max_bytes rows)
        (λ r. leb (running everywhere cache_newer (λ q. q.payload_bytes) rows r) max_bytes)
        (λ r. r.payload_bytes) (λ r h. ground (arith, h)) rows,
    running_bound everywhere cache_newer (λ r. r.payload_bytes) cache_newer-IsStrictWeak (λ r. true)
        (λ q r h k. refl) max_bytes rows,
  )

  evict_entries : length (evict max_entries max_bytes rows) ≤ max_entries
  unfolding is_retained within_newest
  evict_entries = omega (
    arith,
    length_total (evict max_entries max_bytes rows),
    total_if-filter (λ r. true) (is_retained max_entries max_bytes rows) one rows,
    total_if_of_test (is_retained max_entries max_bytes rows)
        (λ r. leb (running everywhere cache_newer one rows r) max_entries) one
        (λ r h. ground (arith, h)) rows,
    running_bound everywhere cache_newer one cache_newer-IsStrictWeak (λ r. true) (λ q r h k. refl)
        max_entries rows,
  )

  is_retained_up :
      (q r : CacheEntry)
      → cache_newer r q ≡ false
      → is_retained max_entries max_bytes rows r ≡ true
      → is_retained max_entries max_bytes rows q ≡ true
  unfolding is_retained within_newest
  is_retained_up q r a h = ground (
    arith,
    running_mono everywhere cache_newer one cache_newer-IsStrictWeak everywhere_trans rows q r refl
        a,
    running_mono everywhere cache_newer (λ q. q.payload_bytes) cache_newer-IsStrictWeak
        everywhere_trans rows q r refl a,
  )

-- When `PruneCache` returns without an error, it leaves at most max_entries entries, whose
-- payloads take at most max_bytes bytes together, and none whose maximum_stale_at, as a text, is
-- not after the text of the present instant.
pub prune_cache-IsBounded :
    (max_entries max_bytes : ℕ) (now : Text) (rows kept : List CacheEntry)
    → prune_cache (pos max_entries) (pos max_bytes) now rows ≡ some kept
    → (length kept ≤ max_entries)
      × (total_if (λ r. true) (λ r. r.payload_bytes) kept ≤ max_bytes)
      × All (λ r. text_lt now r.maximum_stale_at ≡ true) kept
unfolding prune_cache
prune_cache-IsBounded e b now rows kept h =
    let live = filter (λ r. text_lt now r.maximum_stale_at) rows in
    subst
      (λ k.
        (length k ≤ e)
        × (total_if (λ r. true) (λ r. r.payload_bytes) k ≤ b)
        × All (λ r. text_lt now r.maximum_stale_at ≡ true) k)
      (ap (λ k. value_or k kept) h)
      (
        evict_entries e b live,
        evict_bytes e b live,
        All-filter _ (is_retained e b live) live
            (All-filter_of_test _ (λ r. text_lt now r.maximum_stale_at) (λ r k. k) rows),
      )

-- `PruneCache` evicts the oldest: every entry that it keeps is newer than each live entry that
-- it evicts, the later row first among those retrieved at the same time.
pub evict_keeps_newest :
    (max_entries max_bytes : ℕ) (rows : List CacheEntry)
    → All
        (λ r.
          All
            (λ q. cache_newer r q ≡ true)
            (filter (λ q. not (is_retained max_entries max_bytes rows q)) rows))
        (evict max_entries max_bytes rows)
evict_keeps_newest e b rows =
    All-filter_of_test _ (is_retained e b rows)
      (λ r h.
        All-filter_of_test _ (λ q. not (is_retained e b rows q))
          (λ q k. elim (Bool-cases (cache_newer r q)) [
            | inl t ↦ t
            | inr f ↦ ground (arith, is_retained_up e b rows q r f h)
          ])
          rows)
      rows

-- Limiting the briefing history keeps the newest: a snapshot that is kept belongs to another
-- profile than one that is deleted, or is newer than it.
pub keep_newest_keeps_newest :
    (n : ℕ) (rows : List BriefingSnapshot)
    → All
        (λ r.
          All
            (λ q. (same_profile q r ≡ false) ⊎ (briefing_newer r q ≡ true))
            (filter (λ q. not (within_newest same_profile briefing_newer n rows q)) rows))
        (keep_newest same_profile briefing_newer n rows)
unfolding within_newest
keep_newest_keeps_newest n rows =
    All-filter_of_test _ (within_newest same_profile briefing_newer n rows)
      (λ r h.
        All-filter_of_test _ (λ q. not (within_newest same_profile briefing_newer n rows q))
          (λ q k. elim (Bool-cases (same_profile q r)) [
            | inr f ↦ inl f
            | inl t ↦ elim (Bool-cases (briefing_newer r q)) [
              | inl u ↦ inr u
              | inr f ↦ ground (
                arith,
                running_mono same_profile briefing_newer one briefing_newer-IsStrictWeak
                    same_profile_trans rows q r t f,
              )
            ]
          ])
          rows)
      rows
