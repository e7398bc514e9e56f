-- ===== src/Storage/Timetable.antt =====
-- internal/storage/gtfs.go: `ScheduledDepartures` and `serviceRuns`, over the rows that its queries
-- give (those of the stop and its platforms, in the order of the query), and `valueOr`. Days are
-- numbers; `noon` is the instant of a day's noon in Paris, `civil` the day of an instant there,
-- `date_key` a day's text "20060102", and `weekday` Go's `time.Weekday`. `strings.ToUpper` and
-- `strings.ToLower` are parameters.
pub mod Window
use mcp_grand_lyon.Base.{
  ℕ, zero, suc, ◌+◌, ◌-◌, ◌*◌, ◌%◌, Bool, true, false, not, ◌&&◌, ◌||◌, Option, none, some, List,
  [], ◌∷◌, ◌++◌, take, ltb, ◌==◌, if◌then◌else◌,
}
use mcp_grand_lyon.Base.Int.{ℤ, pos, negsuc}
use mcp_grand_lyon.Base.Sort.{sort_stable}
use mcp_grand_lyon.Base.Text.{Text, same, codes}
use mcp_grand_lyon.Base.TextOrder.{text_lt}
use mcp_grand_lyon.Model.Envelope.{Time}
use mcp_grand_lyon.Model.Line.{line_matches, contains}
use mcp_grand_lyon.Model.GtfsTime.{hour, parse_gtfs_time}

-- `gtfsDepartureRow`.
pub record GtfsDepartureRow : Type 0 where
  pub departure : Text
  pub headsign : Text
  pub route_id : Text
  pub short_name : Text
  pub long_name : Text
  pub service_id : Text

-- `gtfsCalendar`; `weekdays` by the day's number from Monday.
pub record GtfsCalendar : Type 0 where
  pub weekdays : ℕ → ℕ
  pub start_date : Text
  pub end_date : Text

-- The tables: a service's calendar, and its exception on a day, 0 where there is none.
pub record Services : Type 0 where
  pub calendars : Text → Option GtfsCalendar
  pub exceptions : Text → Text → ℕ

pub record Civil : Type 0 where
  pub noon : ℕ → Time
  pub civil : Time → ℕ
  pub date_key : ℕ → Text
  pub weekday : ℕ → ℕ

-- The fields of `model.Departure` that are set; `expected_at` is `scheduled_at`.
pub record Departure : Type 0 where
  pub line_id : Text
  pub line_name : Text
  pub destination : Text
  pub scheduled_at : Time

abbrev pub earlier : Departure → Departure → Bool
earlier a b = ltb a.scheduled_at b.scheduled_at

abbrev by_calendar : ℕ → Text → Option GtfsCalendar → Bool
by_calendar weekday date_key none = false
by_calendar weekday date_key (some c) =
    if text_lt date_key c.start_date || text_lt c.end_date date_key
    then false
    else not (c.weekdays ((weekday + 6) % 7) == 0)

unfoldable pub service_runs : Text → ℕ → Text → Services → Bool
service_runs id weekday date_key s =
    let exception = s.exceptions id date_key in
    if exception == 1
    then true
    else if exception == 2
    then false
    else by_calendar weekday date_key (s.calendars id)

abbrev value_or_text : Text → Text → Text
value_or_text [] fallback = fallback
value_or_text (c ∷ value) fallback = c ∷ value

unfoldable pub bounded_limit : ℤ → ℕ → ℕ → ℕ
bounded_limit (negsuc n) fallback maximum = fallback
bounded_limit (pos zero) fallback maximum = fallback
bounded_limit (pos (suc n)) fallback maximum = if ltb maximum (suc n) then maximum else suc n

-- What the query and the request are.
pub record Query : Type 0 where
  pub at : Time
  pub line : Text
  pub direction : Text
  pub limit : ℤ

module _ (upper lower : Text → Text) (cal : Civil) (services : Services) (q : Query) where
  abbrev name_of : GtfsDepartureRow → Text
  name_of row = value_or_text row.short_name (value_or_text row.long_name row.route_id)

  abbrev goes_there : GtfsDepartureRow → Bool
  goes_there row = same q.direction [] || contains (lower q.direction) (lower row.headsign)

  -- The conditions on which the loop skips a row, but for its time.
  unfoldable pub is_wanted : ℕ → GtfsDepartureRow → Bool
  is_wanted day row =
      service_runs row.service_id (cal.weekday day) (cal.date_key day) services
      && (line_matches upper q.line (name_of row ∷ row.route_id ∷ []) && goes_there row)

  abbrev pub in_day : Time → Bool
  in_day t = not (ltb t q.at) && ltb t (q.at + 24 * hour)

  abbrev departure_at : GtfsDepartureRow → Time → Departure
  departure_at row t = record {
    line_id = codes "tcl:" ++ row.route_id;
    line_name = name_of row;
    destination = row.headsign;
    scheduled_at = t;
  }

  abbrev if_in_day : GtfsDepartureRow → Option Time → Option Departure
  if_in_day row none = none
  if_in_day row (some t) = if in_day t then some (departure_at row t) else none

  unfoldable pub departure_of : ℕ → GtfsDepartureRow → Option Departure
  departure_of day row =
      if is_wanted day row then if_in_day row (parse_gtfs_time cal.noon row.departure day) else none

  abbrev append_some : Option Departure → List Departure → List Departure
  append_some none ds = ds
  append_some (some d) ds = d ∷ ds

  unfoldable pub of_day : ℕ → List GtfsDepartureRow → List Departure
  of_day day [] = []
  of_day day (row ∷ rows) = append_some (departure_of day row) (of_day day rows)

  -- `count` days from `day` on.
  unfoldable pub of_days : ℕ → ℕ → List GtfsDepartureRow → List Departure
  of_days zero day rows = []
  of_days (suc count) day rows = of_day day rows ++ of_days count (suc day) rows

  -- `firstDay` is four days before the day of the query, of which there are.
  unfoldable pub scheduled_departures : List GtfsDepartureRow → List Departure
  scheduled_departures rows =
      take (bounded_limit q.limit 6 100) (sort_stable earlier (of_days 6 (cal.civil q.at - 4) rows))
