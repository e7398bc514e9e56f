-- ===== src/Service/Departures/Handler/Honest.antt =====
-- The envelope that internal/service/transit.go's `NextDepartures` returns.
use mcp_grand_lyon.Base.{
  ℕ, inl, refl, String, Bool, true, false, Option, none, some, List, [], ◌∷◌, arith, eq_iff,
}
use mcp_grand_lyon.Base.Text.{Text}
use mcp_grand_lyon.Model.Envelope.{
  new_envelope-IsHonest, if-IsHonest, Time, IsHonest, new_envelope, warn-IsHonest, warn_if-IsHonest,
  add_source-IsHonest,
}
use mcp_grand_lyon.Model.Names.{Unicode}
use mcp_grand_lyon.Service.Places.{PlaceCandidate}
use mcp_grand_lyon.Service.Departures.{
  Departure, NextDeparturesInput, Live, Answer, warn_live, warn_scheduled, warn_observed,
  finish_departures,
}
use mcp_grand_lyon.Service.Departures.Handler.{
  opening, answered, Network, Choice, stops, no_stop, choose_stops, scheduled_answer, live_answered,
  departures_at, next_departures,
}

module _ {F : Type 0} (upper lower : Text → Text) (unicode : Unicode) (net : Network F)
    (input : NextDeparturesInput) where
  finish_departures-IsHonest :
      (stop : PlaceCandidate F) (limit : ℕ) (ds : List Departure) (e : Answer F)
      → IsHonest e
      → IsHonest (finish_departures stop limit ds e)
  unfolding finish_departures
  finish_departures-IsHonest stop limit ds e h =
      ground (arith, eq_iff "not_found" "ok", eq_iff "unavailable" "ok")

  warn_live-IsHonest : (live : Live) (e : Answer F) → IsHonest e → IsHonest (warn_live live e)
  unfolding warn_live
  warn_live-IsHonest ([], true) e h = warn-IsHonest e _ _ _ _
  warn_live-IsHonest (d ∷ ds, true) e h = warn-IsHonest e _ _ _ _
  warn_live-IsHonest (ds, false) e h = h

  warn_scheduled-IsHonest :
      (found : Option (List Departure)) (e : Answer F)
      → IsHonest e
      → IsHonest (warn_scheduled net.generated found e)
  unfolding warn_scheduled
  warn_scheduled-IsHonest none e h = warn-IsHonest e _ _ _ _
  warn_scheduled-IsHonest (some ds) e h = warn_if-IsHonest _ _ _ _ _ _ (add_source-IsHonest e _ h)

  warn_observed-IsHonest :
      (maximum : ℕ) (ds : List Departure) (e : Answer F)
      → IsHonest e
      → IsHonest (warn_observed net.generated maximum ds e)
  unfolding warn_observed
  warn_observed-IsHonest maximum ds e h =
      warn_if-IsHonest _ _ _ _ _ _ (warn_if-IsHonest _ _ _ _ _ _ (add_source-IsHonest e _ h))

  scheduled_answer-IsHonest :
      (stop : PlaceCandidate F) (limit : ℕ) (at : Time) (e : Answer F)
      → IsHonest e
      → IsHonest (scheduled_answer upper lower unicode net input stop limit at e)
  unfolding scheduled_answer
  scheduled_answer-IsHonest stop limit at e h =
      finish_departures-IsHonest stop limit _ _ (warn_scheduled-IsHonest _ e h)

  live_answered-IsHonest :
      (stop : PlaceCandidate F) (limit : ℕ) (ds : List Departure) (e : Answer F)
      → IsHonest e
      → IsHonest (live_answered upper lower unicode net stop limit ds e)
  unfolding live_answered
  live_answered-IsHonest stop limit ds e h =
      finish_departures-IsHonest stop limit ds _ (warn_observed-IsHonest _ ds e h)

  opening-IsHonest :
      (live : Live) (stop : PlaceCandidate F) (others : List (PlaceCandidate F))
      → IsHonest (opening upper lower unicode net input live stop others)
  unfolding opening
  opening-IsHonest live stop others =
      warn_live-IsHonest live _ (warn_if-IsHonest _ _ _ _ _ _ (new_envelope-IsHonest _ _ _ _))

  departures_at-IsHonest :
      (stop : PlaceCandidate F) (others : List (PlaceCandidate F))
      → IsHonest (departures_at upper lower unicode net input stop others)
  unfolding departures_at
  departures_at-IsHonest stop others =
      if-IsHonest _ _ _ (scheduled_answer-IsHonest stop _ _ _ (opening-IsHonest _ stop others))
        (live_answered-IsHonest stop _ _ _ (opening-IsHonest _ stop others))

  no_stop-IsHonest :
      (status summary : String) (warning : Option (String × String × Bool))
      → IsHonest (answered upper lower unicode net input (no_stop status summary warning))
  unfolding new_envelope
  no_stop-IsHonest status summary none = inl refl
  no_stop-IsHonest status summary (some (source, message, retryable)) = warn-IsHonest _ _ _ _ _

  answered-IsHonest : (choice : Choice F) → IsHonest (answered upper lower unicode net input choice)
  answered-IsHonest (no_stop status summary warning) = no_stop-IsHonest status summary warning
  answered-IsHonest (stops stop others) = departures_at-IsHonest stop others

  -- On every branch, the envelope of a request for departures has no warning, or is degraded and not
  -- "ok".
  pub next_departures-IsHonest :
      (resolved : List (PlaceCandidate F))
      → IsHonest (next_departures upper lower unicode net input resolved)
  unfolding next_departures
  next_departures-IsHonest resolved = answered-IsHonest (choose_stops net resolved)
