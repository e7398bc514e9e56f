-- ===== src/HttpClient/Flights/Sharing.antt =====
-- When the flights of internal/httpclient/client.go are shared: at most one request for a key at a
-- time, as long as no caller gives up, and how a caller that gives up breaks it.
use mcp_grand_lyon.Base.{
  ℕ, ◌≡◌, ◌≢◌, ◌<◌, String, Bool, true, false, some, arith, eq_iff, Option-cases, inl, inr,
}
use mcp_grand_lyon.HttpClient.Flights.World.{
  World, flight_of, enter, finish, leave, enters, finishes, departs, Reach, here, next,
  IsConsistent,
}
use mcp_grand_lyon.HttpClient.Flights.Safety.{Reach-IsConsistent}

module _ {R : Type 0} where
  -- Every running flight is the one that the map gives for its key.
  abbrev IsShared : World R → Type 0
  IsShared w =
      (f : ℕ) → w.running f ≡ true → (f < w.client.next) × (w.client.flights (w.key_of f) ≡ some f)

  enter-IsShared :
      (w : World R) (key : String) → IsConsistent w → IsShared w → IsShared (enter w key)
  unfolding enter
  enter-IsShared w key c s f e = elim (Option-cases (w.client.flights key)) [
    | inl n ↦ ground (arith, n, s f, eq_iff (w.key_of f) key, eq_iff key key)
    | inr (g, n) ↦ ground (arith, n, s f)
  ]

  finish-IsShared :
      (w : World R) (f : ℕ) (r : R) → w.running f ≡ true → IsShared w → IsShared (finish w f r)
  unfolding finish
  finish-IsShared w f r run s g e = ground (arith, s f, s g, eq_iff (w.key_of g) (w.key_of f))

  leave-IsShared :
      (w : World R) (f : ℕ)
      → IsConsistent w
      → (flight_of w f).done ≡ true
      → IsShared w
      → IsShared (leave w f)
  unfolding leave
  leave-IsShared w f c d s g e =
      ground (arith, s g, c.listed (w.key_of f) f, eq_iff (w.key_of g) (w.key_of f))

  Reach-IsShared : {w : World R} → Reach true w → IsShared w
  Reach-IsShared here = λ f e. cc
  Reach-IsShared (next r (enters b w key)) =
      enter-IsShared w key (Reach-IsConsistent r) (Reach-IsShared r)
  Reach-IsShared (next r (finishes b w f x hf run)) = finish-IsShared w f x run (Reach-IsShared r)
  Reach-IsShared (next r (departs b w f hf p d)) =
      leave-IsShared w f (Reach-IsConsistent r) d (Reach-IsShared r)

  -- While every caller waits for its result, no two requests for one key run at the same time.
  pub single_flight :
      (w : World R) (f g : ℕ)
      → Reach true w
      → w.running f ≡ true
      → w.running g ≡ true
      → w.key_of f ≡ w.key_of g
      → f ≡ g
  single_flight w f g r hf hg e = ground (arith, Reach-IsShared r f hf, Reach-IsShared r g hg)

  -- `runFlight` deletes whatever the map holds for its key. Where the map already holds a newer
  -- flight g of that key, the end of f removes g, and the next caller starts a second request
  -- beside g, which is still running, open and not cancelled.
  pub finish_drops_newer :
      {b : Bool} (w : World R) (f g : ℕ) (r : R) (k : String)
      → Reach b w
      → w.key_of f ≡ k
      → w.client.flights k ≡ some g
      → f ≢ g
      → let v = enter (finish w f r) k in
        (v.running g ≡ true)
        × (v.running w.client.next ≡ true)
        × (g ≢ w.client.next)
        × (v.key_of g ≡ k)
        × (v.key_of w.client.next ≡ k)
        × ((flight_of v g).done ≡ false)
        × ((flight_of v g).cancelled ≡ false)
  unfolding enter finish
  finish_drops_newer w f g r k reach hk e ne =
      let c = Reach-IsConsistent reach in
      let l = c.listed k g e in
      ground (arith, e, l, c.tracked g l.allocated, eq_iff k (w.key_of f), ne)
