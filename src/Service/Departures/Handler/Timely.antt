-- ===== src/Service/Departures/Handler/Timely.antt =====
-- What internal/service/transit.go's `NextDepartures` answers.
use mcp_grand_lyon.Base.{
  ℕ, ◌+◌, ◌*◌, ◌≤◌, ◌<◌, ◌≡◌, ◌⊎◌, refl, Bool, true, false, Option, none, some, List, [], ◌∷◌,
  filter, ltb, if◌then◌else◌, length, length-take, All, All-take, All-filter_of_test, All-map_image,
  All-of_forall, All-map, arith,
}
use mcp_grand_lyon.Base.Int.{or_default}
use mcp_grand_lyon.Base.Sort.{
  IsStrictWeak, IsSorted, IsSorted-take, sort_stable, All-sort_stable, sort_stable-IsSorted,
}
use mcp_grand_lyon.Base.Text.{Text}
use mcp_grand_lyon.Model.Envelope.{Time, new_envelope, warn}
use mcp_grand_lyon.Model.GtfsTime.{hour}
use mcp_grand_lyon.Model.Line.{line_matches}
use mcp_grand_lyon.Model.Names.{Unicode}
use mcp_grand_lyon.Service.Places.{PlaceCandidate}
use mcp_grand_lyon.Service.Departures.{
  Departure, NextDeparturesInput, is_wanted, when_of, within_day, instant_of, sooner, goes_there,
  start_at, use_realtime, as_scheduled, Live, Answer, soonest, finish_departures,
}
use mcp_grand_lyon.Service.Departures.Handler.{
  answered, live_answer, Network, Choice, stops, no_stop, choose_stops, scheduled_list,
  live_departures, filtered, scheduled_answer, live_answered, departures_at, next_departures,
}

within_day-in_day :
    (at : Time) (o : Option Time)
    → within_day at o ≡ true
    → (t : Time) × (o ≡ some t) × (at ≤ t) × (t < at + 24 * hour)
within_day-in_day at none h = cc
within_day-in_day at (some t) h = (t, refl, ground arith, ground arith)

lt-asymm : (a b : ℕ) → ltb a b ≡ true → ltb b a ≡ false
lt-asymm a b h = ground arith

le_trans_instants : (a b c : ℕ) → ltb b a ≡ false → ltb c b ≡ false → ltb c a ≡ false
le_trans_instants a b c h k = ground arith

module _ (upper lower : Text → Text) (input : NextDeparturesInput) where
  -- On the line and in the direction asked for, and within the day from `at` on.
  pub record IsTimely (at : Time) (d : Departure) : Type 0 where
    pub on_line : line_matches upper input.line (d.line_name ∷ d.line_id ∷ []) ≡ true
    pub bound : goes_there upper lower input d ≡ true
    pub in_day : (t : Time) × (when_of d ≡ some t) × (at ≤ t) × (t < at + 24 * hour)

  is_wanted-IsTimely :
      (at : Time) (d : Departure) → is_wanted upper lower input at d ≡ true → IsTimely at d
  unfolding is_wanted
  is_wanted-IsTimely at d h = record {
    on_line = ground arith;
    bound = ground arith;
    in_day = within_day-in_day at (when_of d) (ground arith);
  }

  as_scheduled-IsTimely : (at : Time) (d : Departure) → IsTimely at d → IsTimely at (as_scheduled d)
  as_scheduled-IsTimely at d h = record { on_line = h.on_line; bound = h.bound; in_day = h.in_day }

  filter-IsTimely :
      (at : Time) (ds : List Departure)
      → All (IsTimely at) (filter (is_wanted upper lower input at) ds)
  filter-IsTimely at ds = All-filter_of_test _ _ (is_wanted-IsTimely at) ds

  scheduled_list-IsTimely :
      (at : Time) (found : Option (List Departure))
      → All (IsTimely at) (scheduled_list (filtered upper lower input at found))
  scheduled_list-IsTimely at none = tt
  scheduled_list-IsTimely at (some ds) =
      All-map_image _ as_scheduled _
        (All-map _ _ (as_scheduled-IsTimely at) _ (filter-IsTimely at ds))

sooner-IsStrictWeak : IsStrictWeak sooner
sooner-IsStrictWeak = record {
  asymm = λ a b h. lt-asymm (instant_of a) (instant_of b) h;
  le_trans = λ a b c h k. le_trans_instants (instant_of a) (instant_of b) (instant_of c) h k;
}

-- No more departures than the limit, each as it was asked for, the soonest first.
pub record IsBoard {F : Type 0} (P : Departure → Type 0) (limit : ℕ) (e : Answer F) : Type 0 where
  pub limited : length e.payload.departures ≤ limit
  pub wanted : All P e.payload.departures
  pub sorted : IsSorted sooner e.payload.departures

soonest-IsBoard :
    {F : Type 0} (P : Departure → Type 0) (limit : ℕ) (ds : List Departure) (e : Answer F)
    → e.payload.departures ≡ soonest limit ds
    → All P ds
    → IsBoard P limit e
soonest-IsBoard P limit ds e h k = record {
  limited = rw h (omega (arith, length-take limit (sort_stable sooner ds)));
  wanted = rw h (All-take P limit _ (All-sort_stable sooner P ds k));
  sorted = rw h (IsSorted-take sooner limit _ (sort_stable-IsSorted sooner sooner-IsStrictWeak ds));
}

finish_departures-IsBoard :
    {F : Type 0} (P : Departure → Type 0) (stop : PlaceCandidate F) (limit : ℕ)
    (ds : List Departure) (e : Answer F)
    → All P ds
    → IsBoard P limit (finish_departures stop limit ds e)
unfolding finish_departures
finish_departures-IsBoard P stop limit ds e h = soonest-IsBoard P limit ds _ (ground arith) h

if-IsBoard :
    {F : Type 0} (P : Departure → Type 0) (limit : ℕ) (test : Bool) (e f : Answer F)
    → IsBoard P limit e
    → IsBoard P limit f
    → IsBoard P limit (if test then e else f)
if-IsBoard P limit true e f h k = h
if-IsBoard P limit false e f h k = k

empty-IsBoard :
    {F : Type 0} (P : Departure → Type 0) (limit : ℕ) (e : Answer F)
    → e.payload.departures ≡ []
    → IsBoard P limit e
empty-IsBoard P limit e h = record {
  limited = rw h (omega arith);
  wanted = rw h tt;
  sorted = rw h tt;
}

far-use_realtime :
    (offline : Bool) (generated t : Time)
    → offline ≡ false
    → (generated + 300 * 1_000_000_000 < t) ⊎ (t + 300 * 1_000_000_000 < generated)
    → use_realtime offline generated (some t) ≡ false
unfolding use_realtime
far-use_realtime offline generated t online far = ground arith

module _ {F : Type 0} (upper lower : Text → Text) (unicode : Unicode) (net : Network F)
    (input : NextDeparturesInput) where
  abbrev pub at : Time
  at = start_at net.generated input.at

  abbrev pub bound : ℕ
  bound = or_default input.limit 6

  abbrev Wanted : Departure → Type 0
  Wanted = IsTimely upper lower input at

  departures_at-IsBoard :
      (stop : PlaceCandidate F) (others : List (PlaceCandidate F))
      → IsBoard Wanted bound (departures_at upper lower unicode net input stop others)
  unfolding departures_at scheduled_answer live_answered live_departures
  departures_at-IsBoard stop others =
      if-IsBoard Wanted bound _ _ _
        (finish_departures-IsBoard Wanted stop bound _ _
          (scheduled_list-IsTimely upper lower input at _))
        (finish_departures-IsBoard Wanted stop bound _ _ (filter-IsTimely upper lower input at _))

  answered-IsBoard :
      (choice : Choice F) → IsBoard Wanted bound (answered upper lower unicode net input choice)
  unfolding new_envelope warn
  answered-IsBoard (no_stop status summary none) = empty-IsBoard Wanted bound _ refl
  answered-IsBoard (no_stop status summary (some (source, message, retryable))) =
      empty-IsBoard Wanted bound _ refl
  answered-IsBoard (stops stop others) = departures_at-IsBoard stop others

  -- Whatever the stops, the provider and the timetable give, the departures that are answered are no
  -- more than the limit (six where it is not positive), the soonest first, each on the line and in
  -- the direction asked for, at an instant within the twenty-four hours from the one asked for.
  pub next_departures-IsBoard :
      (resolved : List (PlaceCandidate F))
      → IsBoard
          (IsTimely upper lower input (start_at net.generated input.at))
          (or_default input.limit 6)
          (next_departures upper lower unicode net input resolved)
  unfolding next_departures
  next_departures-IsBoard resolved = answered-IsBoard (choose_stops net resolved)

  abbrev pub IsScheduled : Departure → Type 0
  IsScheduled d = (d.realtime ≡ false) × (d.observed_at ≡ none)

  scheduled_list-IsScheduled :
      (found : Option (List Departure)) → All IsScheduled (scheduled_list found)
  scheduled_list-IsScheduled none = tt
  scheduled_list-IsScheduled (some ds) =
      All-map_image IsScheduled as_scheduled ds (All-of_forall _ (λ d. (refl, refl)) ds)

  not_asked :
      (stop : PlaceCandidate F) (provider : Option (PlaceCandidate F → Live))
      → live_answer net stop false provider ≡ ([], false)
  not_asked stop none = refl
  not_asked stop (some provide) = refl

  departures_at-IsScheduled :
      (stop : PlaceCandidate F) (others : List (PlaceCandidate F))
      → use_realtime net.offline net.generated input.at ≡ false
      → IsBoard IsScheduled bound (departures_at upper lower unicode net input stop others)
  unfolding departures_at scheduled_answer live_departures
  departures_at-IsScheduled stop others h =
      rw (h, not_asked stop net.provider)
        (finish_departures-IsBoard IsScheduled stop bound _ _ (scheduled_list-IsScheduled _))

  answered-IsScheduled :
      (choice : Choice F)
      → use_realtime net.offline net.generated input.at ≡ false
      → IsBoard IsScheduled bound (answered upper lower unicode net input choice)
  unfolding new_envelope warn
  answered-IsScheduled (no_stop status summary none) h = empty-IsBoard IsScheduled bound _ refl
  answered-IsScheduled (no_stop status summary (some (source, message, retryable))) h =
      empty-IsBoard IsScheduled bound _ refl
  answered-IsScheduled (stops stop others) h = departures_at-IsScheduled stop others h

  -- Online, and for an instant more than three hundred seconds before or after now, every departure that is answered is a
  -- scheduled one: it is not marked as realtime and carries no observation.
  pub next_departures-IsScheduled :
      (resolved : List (PlaceCandidate F))
      → (t : Time) → net.offline ≡ false
      → input.at ≡ some t
      → (net.generated + 300 * 1_000_000_000 < t) ⊎ (t + 300 * 1_000_000_000 < net.generated)
      → All
          (λ d. (d.realtime ≡ false) × (d.observed_at ≡ none))
          (next_departures upper lower unicode net input resolved).payload.departures
  unfolding next_departures
  next_departures-IsScheduled resolved t online asked far =
      (answered-IsScheduled (choose_stops net resolved)
        (rw asked (far-use_realtime net.offline net.generated t online far))).wanted
