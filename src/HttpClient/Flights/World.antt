-- ===== src/HttpClient/Flights/World.antt =====
-- The callers of `Get` and the goroutines of `runFlight`, as interleaved steps over the client's
-- shared state, and the invariant that every interleaving keeps.
use mcp_grand_lyon.Base.{
  ℕ, suc, ◌-◌, ◌≡◌, ◌<◌, String, Bool, true, false, none, some, arith, eq_iff, Option-cases, inl,
  inr,
}
use mcp_grand_lyon.HttpClient.Flights.{
  Flight, Client, put, new_flight, join_flight, run_flight, leave_flight,
}

-- `key_of` is the key that a flight was created under, `holds` the number of calls of `Get` that
-- have joined it and not yet left, `running` whether its goroutine has still to finish.
pub record World (R : Type 0) : Type 0 where
  pub client : Client R
  pub key_of : ℕ → String
  pub holds : ℕ → ℕ
  pub running : ℕ → Bool

module _ {R : Type 0} where
  abbrev pub flight_of : World R → ℕ → Flight R
  flight_of w f = w.client.store f

  -- The empty client: `flights: map[string]*flight{}`. The store is read at allocated numbers only.
  abbrev pub start : World R
  start = record {
    client = record { flights = λ k. none; store = λ f. new_flight; next = 0 };
    key_of = λ f. "";
    holds = λ f. 0;
    running = λ f. false;
  }

  -- What `Get` does with the flight that it joined: the leader starts the goroutine.
  unfoldable pub enter : World R → String → World R
  unfolding join_flight
  enter w key = elim (w.client.flights key) [
    | some f ↦ record w {
      client = (join_flight w.client key).0;
      holds = put w.holds f (suc (w.holds f));
    }
    | none ↦ record {
      client = (join_flight w.client key).0;
      key_of = put w.key_of w.client.next key;
      holds = put w.holds w.client.next 1;
      running = put w.running w.client.next true;
    }
  ]

  unfoldable pub finish : World R → ℕ → R → World R
  unfolding run_flight
  finish w f r = record w {
    client = run_flight w.client (w.key_of f) f r;
    running = put w.running f false;
  }

  unfoldable pub leave : World R → ℕ → World R
  unfolding leave_flight
  leave w f = record w {
    client = leave_flight w.client (w.key_of f) f;
    holds = put w.holds f (w.holds f - 1);
  }

  -- The steps of all goroutines. A caller leaves when its flight is done, or at any moment by its
  -- own context (`abandons`). The index says whether the step is one of a caller that waits for the
  -- result.
  pub data Step : Bool → World R → World R → Type 0 where
    enters : (b : Bool) (w : World R) (key : String) → Step b w (enter w key)
    finishes :
        (b : Bool) (w : World R) (f : ℕ) (r : R)
        → f < w.client.next
        → w.running f ≡ true
        → Step b w (finish w f r)
    departs :
        (b : Bool) (w : World R) (f : ℕ)
        → f < w.client.next
        → 0 < w.holds f
        → (flight_of w f).done ≡ true
        → Step b w (leave w f)
    abandons :
        (w : World R) (f : ℕ)
        → f < w.client.next
        → 0 < w.holds f
        → (flight_of w f).done ≡ false
        → Step false w (leave w f)

  pub data Reach (b : Bool) : World R → Type 0 where
    here : Reach b start
    next : {v w : World R} → Reach b v → Step b v w → Reach b w

  -- What holds of one flight between two steps.
  pub record IsTracked (w : World R) (f : ℕ) : Type 0 where
    pub counted : (flight_of w f).waiters ≡ w.holds f
    pub live : w.running f ≡ true → (flight_of w f).done ≡ false
    pub ended : w.running f ≡ false → (flight_of w f).done ≡ true
    pub protected : (flight_of w f).done ≡ false → 0 < w.holds f → (flight_of w f).cancelled ≡ false

  -- What holds of an entry of the map.
  pub record IsListed (w : World R) (k : String) (f : ℕ) : Type 0 where
    pub allocated : f < w.client.next
    pub keyed : w.key_of f ≡ k
    pub open_flight : (flight_of w f).done ≡ false
    pub held : 0 < w.holds f

  pub record IsConsistent (w : World R) : Type 0 where
    pub tracked : (f : ℕ) → f < w.client.next → IsTracked w f
    pub listed : (k : String) (f : ℕ) → w.client.flights k ≡ some f → IsListed w k f

  pub start-IsConsistent : IsConsistent start
  start-IsConsistent = record { tracked = λ f h. elim h [ ]; listed = λ k f e. cc }

  pub enter-IsTracked :
      (w : World R) (key : String) (g : ℕ)
      → IsConsistent w
      → g < (enter w key).client.next
      → IsTracked (enter w key) g
  unfolding enter
  enter-IsTracked w key g c h = elim (Option-cases (w.client.flights key)) [
    | inl e ↦ ground (arith, e, c.tracked g)
    | inr (f, e) ↦ ground (arith, e, c.tracked g, c.tracked f, c.listed key f)
  ]

  pub enter-IsListed :
      (w : World R) (key k : String) (g : ℕ)
      → IsConsistent w
      → (enter w key).client.flights k ≡ some g
      → IsListed (enter w key) k g
  unfolding enter
  enter-IsListed w key k g c h = elim (Option-cases (w.client.flights key)) [
    | inl e ↦ ground (arith, e, eq_iff k key, c.listed k g)
    | inr (f, e) ↦ ground (arith, e, c.listed k g, c.listed key f)
  ]

  pub finish-IsTracked :
      (w : World R) (f : ℕ) (r : R) (g : ℕ)
      → IsConsistent w
      → g < w.client.next
      → IsTracked (finish w f r) g
  unfolding finish
  finish-IsTracked w f r g c h = ground (arith, c.tracked g)

  pub finish-IsListed :
      (w : World R) (f : ℕ) (r : R) (k : String) (g : ℕ)
      → IsConsistent w
      → (finish w f r).client.flights k ≡ some g
      → IsListed (finish w f r) k g
  unfolding finish
  finish-IsListed w f r k g c h = ground (arith, c.listed k g, eq_iff k (w.key_of f))

  pub leave-IsTracked :
      (w : World R) (f g : ℕ)
      → IsConsistent w
      → f < w.client.next
      → 0 < w.holds f
      → g < w.client.next
      → IsTracked (leave w f) g
  unfolding leave
  leave-IsTracked w f g c hf p h = ground (arith, c.tracked g, c.tracked f)

  pub leave-IsListed :
      (w : World R) (f : ℕ) (k : String) (g : ℕ)
      → IsConsistent w
      → f < w.client.next
      → 0 < w.holds f
      → (leave w f).client.flights k ≡ some g
      → IsListed (leave w f) k g
  unfolding leave
  leave-IsListed w f k g c hf p h = ground (arith, c.listed k g, c.tracked f, eq_iff k (w.key_of f))

  pub leave-next : (w : World R) (f : ℕ) → (leave w f).client.next ≡ w.client.next
  unfolding leave
  leave-next w f = ground arith
