-- ===== src/Service/Waste/Dropoff.antt =====
-- The facilities that internal/service/waste.go's `WasteDropoff` keeps.
use mcp_grand_lyon.Base.{
  Bool, ◌⊎◌, ◌&&◌, not, any, is_nil, ℕ, ◌-◌, ◌≤◌, ◌≡◌, ◌==◌, refl, true, false, Option, some, none,
  String, List, [], ◌∷◌, arith, All, length, inl, inr, Bool-cases,
}
use mcp_grand_lyon.Model.Envelope.{Time}
use mcp_grand_lyon.Model.Float.{Float, Point}
use mcp_grand_lyon.Service.Waste.{
  WasteFacility, Decision, not_accepted, too_far, no_hours, closed_then, taken, decide, opened,
  is_refused, is_taken, reach, placed, gather_dropoffs,
}

module _ (fl : Float) (equal_fold : String → String → Bool) (minute_of : Time → ℕ) where
  open fl use {F, lt}

  -- What the facility accepts is not known, or it has the category, but for upper and lower case.
  abbrev pub MayAccept : String → WasteFacility F → Type 0
  MayAccept category f =
      (f.accepted_categories ≡ []) ⊎ (any (λ c. equal_fold c category) f.accepted_categories ≡ true)

  -- It may accept the category, is within the radius, open at the time that was asked for,
  -- if one was, and has its distance from the point.
  pub record IsDropoff (category : String) (point : Point F) (radius : F) (open_at : Option Time)
      (f : WasteFacility F) : Type 0 where
    pub accepted : MayAccept category f
    pub within : lt radius (reach fl equal_fold minute_of point f) ≡ false
    pub open_then : opened fl equal_fold minute_of open_at f ≡ taken
    pub measured : f.distance_m ≡ some (reach fl equal_fold minute_of point f)

  any_accepts :
      (category : String) (cs : List String)
      → (not (is_nil cs) && not (any (λ c. equal_fold c category) cs)) ≡ false
      → (cs ≡ []) ⊎ (any (λ c. equal_fold c category) cs ≡ true)
  any_accepts category [] h = inl refl
  any_accepts category (c ∷ cs) h = inr (ground arith)

  is_refused-MayAccept :
      (category : String) (f : WasteFacility F)
      → is_refused fl equal_fold minute_of category f ≡ false
      → MayAccept category f
  is_refused-MayAccept category f h = any_accepts category f.accepted_categories h

  placed-IsDropoff :
      (category : String) (point : Point F) (radius : F) (open_at : Option Time)
      (f : WasteFacility F)
      → is_refused fl equal_fold minute_of category f ≡ false
      → lt radius (reach fl equal_fold minute_of point f) ≡ false
      → opened fl equal_fold minute_of open_at f ≡ taken
      → IsDropoff category point radius open_at (placed fl equal_fold minute_of open_at point f)
  placed-IsDropoff category point radius none f a b c = record {
    accepted = is_refused-MayAccept category f a;
    within = b;
    open_then = c;
    measured = refl;
  }
  placed-IsDropoff category point radius (some at) f a b c = record {
    accepted = is_refused-MayAccept category f a;
    within = b;
    open_then = c;
    measured = refl;
  }

  is_taken-eq : (d : Decision) → is_taken fl equal_fold minute_of d ≡ true → d ≡ taken
  is_taken-eq not_accepted h = ground arith
  is_taken-eq too_far h = ground arith
  is_taken-eq no_hours h = ground arith
  is_taken-eq closed_then h = ground arith
  is_taken-eq taken h = refl

  -- What is taken passed the tests.
  decide-IsDropoff :
      (category : String) (point : Point F) (radius : F) (open_at : Option Time)
      (f : WasteFacility F)
      → is_taken fl equal_fold minute_of
          (decide fl equal_fold minute_of category point radius open_at f)
        ≡ true
      → IsDropoff category point radius open_at (placed fl equal_fold minute_of open_at point f)
  unfolding decide
  decide-IsDropoff category point radius open_at f h =
      elim (Bool-cases (is_refused fl equal_fold minute_of category f)) [
        | inl t ↦ absurd (ground (arith, t, h))
        | inr a ↦ elim (Bool-cases (lt radius (reach fl equal_fold minute_of point f))) [
          | inl t ↦ absurd (ground (arith, t, a, h))
          | inr b ↦
              placed-IsDropoff category point radius open_at f a b
                (is_taken-eq _ (ground (arith, a, b, h)))
        ]
      ]

  -- The loop takes no more facilities than there is room for, where there is room for one, and each
  -- may accept the category (it says nothing of what it accepts, or lists the category but for upper
  -- and lower case), is within the radius, open at the time that was asked for,
  -- if one was, and has its distance from the point.
  pub gather_dropoffs-IsDropoff :
      (category : String) (point : Point F) (radius : F) (open_at : Option Time) (room : ℕ)
      (fs : List (WasteFacility F))
      → 1 ≤ room
      → let found =
          (gather_dropoffs fl equal_fold minute_of category point radius open_at room
            fs).filtered in
        (length found ≤ room) × All (IsDropoff category point radius open_at) found
  unfolding gather_dropoffs
  gather_dropoffs-IsDropoff category point radius open_at room [] h = (ground arith, tt)
  gather_dropoffs-IsDropoff category point radius open_at room (f ∷ fs) h =
      elim (Bool-cases (
        is_taken fl equal_fold minute_of
          (decide fl equal_fold minute_of category point radius open_at f))) [
            | inl t ↦
                let p = decide-IsDropoff category point radius open_at f t in
                elim (Bool-cases (room == 1)) [
                  | inl e ↦ rw (t, e) (h, (p, tt))
                  | inr e ↦
                      let later =
                        gather_dropoffs-IsDropoff category point radius open_at (room - 1) fs
                          (ground arith) in
                      rw (t, e) (ground (arith, later.0), (p, later.1))
                ]
            | inr t ↦ rw t (gather_dropoffs-IsDropoff category point radius open_at room fs h)
          ]
