-- ===== src/HttpClient/Flights.antt =====
-- internal/httpclient/client.go: `flight`, `joinFlight`, `runFlight` and `leaveFlight`.
-- Each of the three holds `flightsMu`, so it is one step of the shared state. A pointer to a flight
-- is a number, the map `flights` a function, and the flights themselves a store from numbers.
-- `R` is what `getDirect` returns, a response or an error. The contexts are reduced to the one
-- thing that the code decides: whether it has called the flight's `cancel`.
pub mod World
pub mod Safety
pub mod Sharing
use mcp_grand_lyon.Base.{
  ℕ, suc, ◌-◌, ◌+◌, String, Bool, true, false, Option, none, some, ◌==◌, leb, if◌then◌else◌, ◌=ₛ◌,
}

-- `done` is the closed channel; `result` the fields `response` and `err`, written before it closes.
pub record Flight (R : Type 0) : Type 0 where
  pub done : Bool
  pub result : Option R
  pub cancelled : Bool
  pub waiters : ℕ

-- `next` is the number of the flight that is allocated next.
pub record Client (R : Type 0) : Type 0 where
  pub flights : String → Option ℕ
  pub store : ℕ → Flight R
  pub next : ℕ

abbrev pub put {ℓ} : {A : Type ℓ} → (ℕ → A) → ℕ → A → ℕ → A
put m f v g = if g == f then v else m g

abbrev pub put_key {ℓ} : {A : Type ℓ} → (String → A) → String → A → String → A
put_key m k v j = if j =ₛ k then v else m j

abbrev pub refers_to : Option ℕ → ℕ → Bool
refers_to none f = false
refers_to (some g) f = g == f

module _ {R : Type 0} where
  abbrev new_flight : Flight R
  new_flight = record { done = false; result = none; cancelled = false; waiters = 1 }

  -- The flight that the caller waits on, and whether it has to run it.
  pub join_flight : Client R → String → Client R × ℕ × Bool
  join_flight c key = elim (c.flights key) [
    | some f ↦ (
      record c { store = put c.store f (record (c.store f) { waiters = suc (c.store f).waiters }) },
      f,
      false,
    )
    | none ↦ (
      record {
        flights = put_key c.flights key (some c.next);
        store = put c.store c.next new_flight;
        next = suc c.next;
      },
      c.next,
      true,
    )
  ]

  -- The end of `runFlight`, with the result of `getDirect` in hand. `delete` is by the key alone.
  pub run_flight : Client R → String → ℕ → R → Client R
  run_flight c key f r = record c {
    flights = put_key c.flights key none;
    store = put c.store f (record (c.store f) { done = true; result = some r; cancelled = true });
  }

  -- `waiters` is positive here (World.IsConsistent), so the truncated `-` is exact.
  pub leave_flight : Client R → String → ℕ → Client R
  leave_flight c key f =
      let left = (c.store f).waiters - 1 in
      if leb left 0
      then record c {
        flights = if refers_to (c.flights key) f then put_key c.flights key none else c.flights;
        store = put c.store f (record (c.store f) { waiters = left; cancelled = true });
      }
      else record c { store = put c.store f (record (c.store f) { waiters = left }) }
