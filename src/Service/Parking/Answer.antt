-- ===== src/Service/Parking/Answer.antt =====
-- The envelope that internal/service/parking.go's `ParkingOptions` returns.
use mcp_grand_lyon.Base.{ℕ, String, ◌≡◌, inl, refl, Bool, true, Option, none, some, List, ◌+◌}
use mcp_grand_lyon.Base.Int.{ℤ, or_default}
use mcp_grand_lyon.Model.Envelope.{
  Time, Envelope, IsHonest, new_envelope, warn-IsHonest, warn_if-IsHonest, if-IsHonest, IsDegraded,
  warn-IsDegraded, warn_if-IsDegraded, if-IsDegraded, warn_if-true-IsDegraded,
}
use mcp_grand_lyon.Model.Float.{Float, Point}
use mcp_grand_lyon.Model.Records.{ParkingOption}
use mcp_grand_lyon.Service.Parking.{
  Availability, complete, missing, partial, assemble, parking_options, warn_availability, radius_of,
}

module _ (fl : Float) where
  open fl use {F}

  warn_availability-IsHonest :
      (a : Availability) (e : Envelope (List (ParkingOption F)))
      → IsHonest e
      → IsHonest (warn_availability fl a e)
  warn_availability-IsHonest complete e h = h
  warn_availability-IsHonest missing e h = warn-IsHonest e _ _ _ _
  warn_availability-IsHonest partial e h = warn-IsHonest e _ _ _ _

  assemble-IsHonest :
      (now maximum : ℕ) (failed : Bool) (options : List (ParkingOption F)) (a : Availability)
      → IsHonest (assemble fl now maximum failed options a)
  unfolding assemble new_envelope
  assemble-IsHonest now maximum failed options a = warn_if-IsHonest _ _ _ _ _ _ (
      warn_if-IsHonest _ _ _ _ _ _
        (warn_availability-IsHonest a _ (warn_if-IsHonest _ _ _ _ _ _ (inl refl))))

  -- On every branch, the envelope of a parking request has no warning, or is degraded and not "ok".
  pub parking_options-IsHonest :
      (now : Time) (configured : Option ℤ) (resolved : Option (Point F))
      (provide : Option (Point F → List String → F → ℤ → ℕ → List (ParkingOption F) × Bool))
      (types : List String) (radius minimum limit : ℤ)
      → IsHonest (parking_options fl now configured resolved provide types radius minimum limit)
  unfolding parking_options new_envelope
  parking_options-IsHonest now configured none provide types radius minimum limit = inl refl
  parking_options-IsHonest now configured (some point) none types radius minimum limit = inl refl
  parking_options-IsHonest now configured (some point) (some provide) types radius minimum limit =
      if-IsHonest _ _ _ (warn-IsHonest _ _ _ _ _) (assemble-IsHonest _ _ _ _ _)

  warn_availability-IsDegraded :
      (a : Availability) (e : Envelope (List (ParkingOption F)))
      → IsDegraded e
      → IsDegraded (warn_availability fl a e)
  warn_availability-IsDegraded complete e h = h
  warn_availability-IsDegraded missing e h = warn-IsDegraded e _ _ _ _
  warn_availability-IsDegraded partial e h = warn-IsDegraded e _ _ _ _

  assemble-IsDegraded :
      (now maximum : ℕ) (options : List (ParkingOption F)) (a : Availability)
      → IsDegraded (assemble fl now maximum true options a)
  unfolding assemble
  assemble-IsDegraded now maximum options a = warn_if-IsDegraded _ _ _ _ _ _ (
      warn_if-IsDegraded _ _ _ _ _ _
        (warn_availability-IsDegraded a _ (warn_if-true-IsDegraded _ _ _ _ _)))

  -- A failure of the parking provider is reported, whether or not it also gave options: by a
  -- warning, the degraded mark, and a status other than "ok".
  pub parking_options-failure_reported :
      (now : Time) (configured : Option ℤ) (point : Point F)
      (provide : Point F → List String → F → ℤ → ℕ → List (ParkingOption F) × Bool)
      (types : List String) (radius minimum limit : ℤ)
      → ((p : Point F) (r : F) (n : ℕ) → (provide p types r minimum n).1 ≡ true)
      → IsDegraded
          (parking_options fl now configured (some point) (some provide) types radius minimum limit)
  unfolding parking_options
  parking_options-failure_reported now configured point provide types radius minimum limit h =
      rw (h point (radius_of fl radius) (or_default limit 10 + or_default limit 10))
        (if-IsDegraded _ _ _ (warn-IsDegraded _ _ _ _ _) (assemble-IsDegraded _ _ _ _))
