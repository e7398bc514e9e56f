-- ===== src/HttpClient/Flights/Safety.antt =====
-- What every interleaving of callers and goroutines keeps of the flights of
-- internal/httpclient/client.go.
use mcp_grand_lyon.Base.{ℕ, ◌≡◌, ◌<◌, String, Bool, true, false, arith, Option-cases, inl, inr}
use mcp_grand_lyon.HttpClient.Flights.{join_flight}
use mcp_grand_lyon.HttpClient.Flights.World.{
  World, flight_of, enter, finish, leave, Step, enters, finishes, departs, abandons, Reach, here,
  next, IsConsistent, start-IsConsistent, enter-IsTracked, enter-IsListed, finish-IsTracked,
  finish-IsListed, leave-IsTracked, leave-IsListed, leave-next,
}

module _ {R : Type 0} where
  Step-IsConsistent : {b : Bool} {v w : World R} → Step b v w → IsConsistent v → IsConsistent w
  unfolding finish
  Step-IsConsistent (enters b w key) c = record {
    tracked = λ g h. enter-IsTracked w key g c h;
    listed = λ k g h. enter-IsListed w key k g c h;
  }
  Step-IsConsistent (finishes b w f r hf run) c = record {
    tracked = λ g h. finish-IsTracked w f r g c h;
    listed = λ k g h. finish-IsListed w f r k g c h;
  }
  Step-IsConsistent (departs b w f hf p d) c = record {
    tracked = λ g h. leave-IsTracked w f g c hf p (omega (arith, leave-next w f));
    listed = λ k g h. leave-IsListed w f k g c hf p h;
  }
  Step-IsConsistent (abandons w f hf p d) c = record {
    tracked = λ g h. leave-IsTracked w f g c hf p (omega (arith, leave-next w f));
    listed = λ k g h. leave-IsListed w f k g c hf p h;
  }

  -- In every world that the callers and goroutines can reach, each flight counts its callers
  -- exactly, is closed exactly when its goroutine has ended, and is not cancelled while it is open
  -- and a caller waits; each entry of the map is an open flight of that key with a caller.
  pub Reach-IsConsistent : {b : Bool} {w : World R} → Reach b w → IsConsistent w
  Reach-IsConsistent here = start-IsConsistent
  Reach-IsConsistent (next r s) = Step-IsConsistent s (Reach-IsConsistent r)

  -- A caller that enters a reachable world gets an open flight of its own key, which is running, is
  -- not cancelled, and counts it as one more caller.
  pub enter_joins_live :
      {b : Bool} (w : World R) (key : String)
      → Reach b w
      → let f = (join_flight w.client key).1 in
        let v = enter w key in
        (v.key_of f ≡ key)
        × (v.running f ≡ true)
        × ((flight_of v f).done ≡ false)
        × ((flight_of v f).cancelled ≡ false)
        × (0 < v.holds f)
  unfolding enter
  enter_joins_live w key r =
      let c = Reach-IsConsistent r in
      elim (Option-cases (w.client.flights key)) [
        | inl e ↦ ground (arith, e)
        | inr (f, e) ↦ ground (arith, e, c.tracked f, c.listed key f e)
      ]

  -- A result, once published, never changes: whatever step the others take, a closed flight stays
  -- closed with the same response or error.
  pub Step-result_kept :
      {b d : Bool} (v w : World R) (f : ℕ)
      → Reach d v
      → f < v.client.next
      → Step b v w
      → (flight_of v f).done ≡ true
      → ((flight_of w f).done ≡ true) × ((flight_of w f).result ≡ (flight_of v f).result)
  unfolding enter finish leave
  Step-result_kept _ _ f r h (enters b w key) e = elim (Option-cases (w.client.flights key)) [
    | inl n ↦ ground (arith, n)
    | inr (g, n) ↦ ground (arith, n)
  ]
  Step-result_kept _ _ f r h (finishes b w g x hg run) e =
      ground (arith, (Reach-IsConsistent r).tracked f h)
  Step-result_kept _ _ f r h (departs b w g hg p d) e = ground arith
  Step-result_kept _ _ f r h (abandons w g hg p d) e = ground arith
