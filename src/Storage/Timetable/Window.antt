-- ===== src/Storage/Timetable/Window.antt =====
-- Which departures internal/storage/gtfs.go's `ScheduledDepartures` returns, and that the service
-- days that it reads are enough.
use mcp_grand_lyon.Base.{
  ℕ, zero, suc, ◌+◌, ◌-◌, ◌*◌, ◌≡◌, ◌≤◌, ◌<◌, Bool, some, List, [], ◌∷◌, length, length-take, All,
  All-take, All-append, take, arith, Option-cases, inl, inr,
}
use mcp_grand_lyon.Base.Int.{ℤ, pos, negsuc}
use mcp_grand_lyon.Base.Sort.{
  sort_stable, IsSorted, IsStrictWeak, sort_stable-IsSorted, All-sort_stable,
}
use mcp_grand_lyon.Base.Text.{Text}
use mcp_grand_lyon.Model.Envelope.{Time}
use mcp_grand_lyon.Model.GtfsTime.{hour, parse_gtfs_time}
use mcp_grand_lyon.Model.GtfsTime.Bounds.{parse_gtfs_time-bounds}
use mcp_grand_lyon.Storage.Timetable.{
  GtfsDepartureRow, Services, Civil, Query, Departure, departure_of, of_day, of_days, earlier,
  scheduled_departures, bounded_limit,
}

noon_after :
    (noon : ℕ → Time)
    → ((d : ℕ) → noon (suc d) ≡ noon d + 24 * hour)
    → (d : ℕ) → noon d ≡ noon 0 + d * (24 * hour)
noon_after noon h zero = omega arith
noon_after noon h (suc d) = omega (arith, h d, noon_after noon h d)

-- Where noons are 24 hours apart (no change of clocks; the first is at least twelve hours after the
-- origin of time), the six service days that `ScheduledDepartures` reads are enough. Let c be the
-- day of `at`: `at` lies from twelve hours before the noon of c to less than twelve hours after it.
-- Then an accepted time of a service day that falls within the 24 hours from `at` on belongs to a
-- day from four days before c to one day after it.
pub service_days_suffice :
    (noon : ℕ → Time) (at day c : ℕ) (value : Text) (t : Time)
    → ((d : ℕ) → noon (suc d) ≡ noon d + 24 * hour)
    → 12 * hour ≤ noon 0
    → noon c ≤ at + 12 * hour
    → at < noon c + 12 * hour
    → parse_gtfs_time noon value day ≡ some t
    → at ≤ t
    → t < at + 24 * hour
    → (c ≤ day + 4) × (day ≤ c + 1)
service_days_suffice noon at day c value t h start lo hi e from until =
    let (a, b) = parse_gtfs_time-bounds noon value day t e in
    omega (arith, noon_after noon h day, noon_after noon h c, a, b, start, lo, hi, from, until)

earlier-IsStrictWeak : IsStrictWeak earlier
earlier-IsStrictWeak = record {
  asymm = λ a b h. ground (arith, h);
  le_trans = λ a b c h k. ground (arith, h, k);
}

take-IsSorted {ℓ} :
    {A : Type ℓ} (less : A → A → Bool) (n : ℕ) (xs : List A)
    → IsSorted less xs
    → IsSorted less (take n xs)
take-IsSorted less zero xs h = tt
take-IsSorted less (suc n) [] h = tt
take-IsSorted less (suc n) (x ∷ xs) (h, s) = (All-take _ n xs h, take-IsSorted less n xs s)

bounded_limit-le :
    (value : ℤ) (fallback maximum : ℕ)
    → fallback ≤ maximum
    → bounded_limit value fallback maximum ≤ maximum
unfolding bounded_limit
bounded_limit-le (negsuc n) fallback maximum h = h
bounded_limit-le (pos zero) fallback maximum h = h
bounded_limit-le (pos (suc n)) fallback maximum h = ground arith

module _ (upper lower : Text → Text) (cal : Civil) (services : Services) (q : Query) where
  abbrev IsTimely : Departure → Type 0
  IsTimely d = (q.at ≤ d.scheduled_at) × (d.scheduled_at < q.at + 24 * hour)

  departure_of-IsTimely :
      (day : ℕ) (row : GtfsDepartureRow) (d : Departure)
      → departure_of upper lower cal services q day row ≡ some d
      → IsTimely d
  unfolding departure_of
  departure_of-IsTimely day row d h = ground arith

  of_day-IsTimely :
      (day : ℕ) (rows : List GtfsDepartureRow)
      → All IsTimely (of_day upper lower cal services q day rows)
  unfolding of_day
  of_day-IsTimely day [] = tt
  of_day-IsTimely day (row ∷ rows) =
      elim (Option-cases (departure_of upper lower cal services q day row)) [
        | inl e ↦ rw e (of_day-IsTimely day rows)
        | inr (d, e) ↦ rw e (departure_of-IsTimely day row d e, of_day-IsTimely day rows)
      ]

  of_days-IsTimely :
      (count day : ℕ) (rows : List GtfsDepartureRow)
      → All IsTimely (of_days upper lower cal services q count day rows)
  unfolding of_days
  of_days-IsTimely zero day rows = tt
  of_days-IsTimely (suc count) day rows =
      All-append _ _ _ (of_day-IsTimely day rows) (of_days-IsTimely count (suc day) rows)

  -- The departures that are returned number at most a hundred, stand in the order of their times,
  -- and fall within the day from the instant of the query on.
  pub scheduled_departures-IsTimely :
      (rows : List GtfsDepartureRow)
      → let ds = scheduled_departures upper lower cal services q rows in
        (length ds ≤ 100) × IsSorted earlier ds × All IsTimely ds
  unfolding scheduled_departures
  scheduled_departures-IsTimely rows =
      let all = of_days upper lower cal services q 6 (cal.civil q.at - 4) rows in
      let n = bounded_limit q.limit 6 100 in
      (
        omega (
          arith,
          length-take n (sort_stable earlier all),
          bounded_limit-le q.limit 6 100 (omega arith),
        ),
        take-IsSorted earlier n _ (sort_stable-IsSorted earlier earlier-IsStrictWeak all),
        All-take IsTimely n _ (All-sort_stable earlier IsTimely all (of_days-IsTimely 6 _ rows)),
      )
