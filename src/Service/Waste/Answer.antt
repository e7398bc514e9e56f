-- ===== src/Service/Waste/Answer.antt =====
-- The answers of internal/service/waste.go's `WasteDropoff`.
use mcp_grand_lyon.Base.{
  ℕ, ◌≤◌, ◌≡◌, ◌=ₛ◌, ◌&&◌, refl, Bool, true, false, Option, some, none, String, List, arith, All,
  All-map, length, is_nil, not, if◌then◌else◌,
}
use mcp_grand_lyon.Base.Int.{ℤ, pos, negsuc}
use mcp_grand_lyon.Base.Text.{Text, trim_space}
use mcp_grand_lyon.Model.Envelope.{Time, new_envelope, warn, set_payload}
use mcp_grand_lyon.Model.Float.{Float, Point}
use mcp_grand_lyon.Model.PlaceRef.{PlaceRef}
use mcp_grand_lyon.Service.Facilities.{within, or_zero}
use mcp_grand_lyon.Service.Waste.{
  WasteFacility, WasteClassification, WasteTaxonomyFile, CompiledWasteRule, load_waste_taxonomy,
}
use mcp_grand_lyon.Service.Waste.Dropoff.{MayAccept, gather_dropoffs-IsDropoff}
use mcp_grand_lyon.Service.Waste.Handler.{
  WasteDropoffInput, WasteData, WasteNetwork, Report, found_dropoffs, asked, refused, ranged,
  at_point, at_location, located, with_rules, waste_dropoff, is_unknown, or_car,
}

within-bounds : (low high : ℕ) (z : ℤ) (n : ℕ) → within low high z ≡ some n → (low ≤ n) × (n ≤ high)
within-bounds low high (pos m) n h = ground arith
within-bounds low high (negsuc m) n h = ground arith

module _ (fl : Float) (lower : Text → Text) (equal_fold : String → String → Bool)
    (minute_of : Time → ℕ) (net : WasteNetwork fl.F) where
  open fl use {F}

  -- At most twenty facilities, each of which may accept the category.
  abbrev pub IsCareful : WasteData F → Type 0
  IsCareful d =
      (length d.facilities ≤ 20)
      × All (MayAccept fl equal_fold minute_of d.classification.category) d.facilities

  abbrev Answer : Type 0
  Answer = Report fl lower equal_fold minute_of net

  warn-IsCareful :
      (e : Answer) (code source message : String) (retryable : Bool)
      → IsCareful e.payload
      → IsCareful (warn e code source message retryable).payload
  unfolding warn
  warn-IsCareful e code source message retryable h = h

  if-IsCareful :
      (b : Bool) (e f : Answer)
      → IsCareful e.payload
      → IsCareful f.payload
      → IsCareful (if b then e else f).payload
  if-IsCareful true e f h k = h
  if-IsCareful false e f h k = k

  refused-IsCareful :
      (now : Time) (c : WasteClassification F) (transport : String) (open_at : Option Time)
      (message : String)
      → IsCareful
          (refused fl lower equal_fold minute_of net now c transport open_at message).payload
  unfolding new_envelope
  refused-IsCareful now c transport open_at message = (ground arith, tt)

  found_dropoffs-IsCareful :
      (c : WasteClassification F) (transport : String) (open_at : Option Time) (point : Point F)
      (radius : F) (limit : ℕ) (answer : List (WasteFacility F) × Bool) (e : Answer)
      → 1 ≤ limit
      → limit ≤ 20
      → IsCareful e.payload
      → IsCareful
          (found_dropoffs fl lower equal_fold minute_of net c transport open_at point radius limit
            answer e).payload
  unfolding found_dropoffs set_payload
  found_dropoffs-IsCareful c transport open_at point radius limit (fs, failed) e low high h =
      let p =
        gather_dropoffs-IsDropoff fl equal_fold minute_of c.category point radius open_at limit fs
          low in
      if-IsCareful (failed && is_nil fs) _ _ (warn-IsCareful e _ _ _ _ h)
        (omega (arith, p.0, high), All-map _ _ (λ f k. k.accepted) _ p.1)

  asked-IsCareful :
      (c : WasteClassification F) (transport : String) (open_at : Option Time) (point : Point F)
      (radius limit : ℕ)
      (provider : Option (Point F → String → F → ℕ → List (WasteFacility F) × Bool)) (e : Answer)
      → 1 ≤ limit
      → limit ≤ 20
      → IsCareful e.payload
      → IsCareful
          (asked fl lower equal_fold minute_of net c transport open_at point radius limit provider
            e).payload
  asked-IsCareful c transport open_at point radius limit none e low high h =
      warn-IsCareful e _ _ _ _ h
  asked-IsCareful c transport open_at point radius limit (some search) e low high h =
      found_dropoffs-IsCareful c transport open_at point _ limit _ e low high h

  ranged-IsCareful :
      (now : Time) (c : WasteClassification F) (transport : String) (open_at : Option Time)
      (point : Point F) (radius limit : Option ℕ) (e : Answer)
      → ((n : ℕ) → limit ≡ some n → (1 ≤ n) × (n ≤ 20))
      → IsCareful e.payload
      → IsCareful
          (ranged fl lower equal_fold minute_of net now c transport open_at point radius limit
            e).payload
  ranged-IsCareful now c transport open_at point none limit e k h =
      refused-IsCareful now c transport open_at _
  ranged-IsCareful now c transport open_at point (some radius) none e k h =
      refused-IsCareful now c transport open_at _
  ranged-IsCareful now c transport open_at point (some radius) (some limit) e k h =
      asked-IsCareful c transport open_at point radius limit net.provider e (k limit refl).0
        (k limit refl).1 h

  at_point-IsCareful :
      (now : Time) (c : WasteClassification F) (transport : String) (input : WasteDropoffInput F)
      (point : Option (Point F)) (e : Answer)
      → IsCareful e.payload
      → IsCareful (at_point fl lower equal_fold minute_of net now c transport input point e).payload
  unfolding new_envelope
  at_point-IsCareful now c transport input none e h = (ground arith, tt)
  at_point-IsCareful now c transport input (some point) e h =
      ranged-IsCareful now c transport input.open_at point _ _ e
        (within-bounds 1 20 (or_zero input.limit 10)) h

  at_location-IsCareful :
      (now : Time) (c : WasteClassification F) (transport : String) (input : WasteDropoffInput F)
      (ref : PlaceRef F) (message : Option String) (e : Answer)
      → IsCareful e.payload
      → IsCareful
          (at_location fl lower equal_fold minute_of net now c transport input ref message
            e).payload
  at_location-IsCareful now c transport input ref (some message) e h =
      refused-IsCareful now c transport input.open_at _
  at_location-IsCareful now c transport input ref none e h =
      at_point-IsCareful now c transport input (net.resolve ref) e h

  located-IsCareful :
      (now : Time) (c : WasteClassification F) (transport : String) (input : WasteDropoffInput F)
      (location : Option (PlaceRef F)) (e : Answer)
      → IsCareful e.payload
      → IsCareful
          (located fl lower equal_fold minute_of net now c transport input location e).payload
  located-IsCareful now c transport input none e h = h
  located-IsCareful now c transport input (some ref) e h =
      if-IsCareful (is_unknown fl lower equal_fold minute_of net c) _ _ h
        (at_location-IsCareful now c transport input ref (net.location_error ref) e h)

  with_rules-IsCareful :
      (now : Time) (transport : String) (input : WasteDropoffInput F)
      (rules : Option (List (CompiledWasteRule F)))
      → IsCareful (with_rules fl lower equal_fold minute_of net now transport input rules).payload
  unfolding new_envelope warn
  with_rules-IsCareful now transport input none = (ground arith, tt)
  with_rules-IsCareful now transport input (some rules) =
      located-IsCareful now _ transport input input.location _ (ground arith, tt)

  -- On every branch, the answer lists at most twenty facilities, and each says nothing of what
  -- it accepts, or lists the category of the answer's classification but for upper and lower case.
  pub waste_dropoff-IsCareful :
      (now : Time) (compile : String → Option (Text → Bool))
      (taxonomy : Option (WasteTaxonomyFile F)) (input : WasteDropoffInput F)
      → IsCareful
          (waste_dropoff fl lower equal_fold minute_of net now compile taxonomy input).payload
  unfolding waste_dropoff
  waste_dropoff-IsCareful now compile taxonomy input =
      if-IsCareful (is_nil (trim_space input.item)) _ _ (refused-IsCareful now _ _ _ _) (
        if-IsCareful (not (or_car input.transport =ₛ "car")) _ _ (refused-IsCareful now _ _ _ _)
          (with_rules-IsCareful now _ input (load_waste_taxonomy fl lower compile taxonomy)))
