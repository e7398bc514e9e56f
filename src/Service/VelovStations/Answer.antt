-- ===== src/Service/VelovStations/Answer.antt =====
-- The envelope that internal/service/velov.go's `VelovStations` returns.
use mcp_grand_lyon.Base.{ℕ, ◌*◌, ◌≡◌, inl, refl, Bool, true, Option, none, some}
use mcp_grand_lyon.Base.Int.{ℤ, or_default}
use mcp_grand_lyon.Model.Envelope.{
  Time, IsHonest, new_envelope, warn-IsHonest, warn_if-IsHonest, if-IsHonest, IsDegraded,
  warn-IsDegraded, warn_if-IsDegraded, if-IsDegraded, warn_if-true-IsDegraded, add_source-IsHonest,
  add_source-IsDegraded,
}
use mcp_grand_lyon.Model.Float.{Float, Point}
use mcp_grand_lyon.Model.Records.{VelovStation}
use mcp_grand_lyon.Service.VelovStations.{Stations, assemble_stations, velov_stations, radius_of}

module _ (fl : Float) where
  open fl use {F}

  assemble_stations-IsHonest :
      (now : Time) (maximum : ℕ) (failed : Bool) (record_velov : VelovStation F → Bool)
      (ss : Stations fl)
      → IsHonest (assemble_stations fl now maximum failed record_velov ss)
  unfolding assemble_stations new_envelope
  assemble_stations-IsHonest now maximum failed record_velov ss = warn_if-IsHonest _ _ _ _ _ _ (
      add_source-IsHonest _ _ (
        warn_if-IsHonest _ _ _ _ _ _
          (warn_if-IsHonest _ _ _ _ _ _ (warn_if-IsHonest _ _ _ _ _ _ (inl refl)))))

  assemble_stations-IsDegraded :
      (now : Time) (maximum : ℕ) (record_velov : VelovStation F → Bool) (ss : Stations fl)
      → IsDegraded (assemble_stations fl now maximum true record_velov ss)
  unfolding assemble_stations
  assemble_stations-IsDegraded now maximum record_velov ss = warn_if-IsDegraded _ _ _ _ _ _ (
      add_source-IsDegraded _ _ (
        warn_if-IsDegraded _ _ _ _ _ _
          (warn_if-IsDegraded _ _ _ _ _ _ (warn_if-true-IsDegraded _ _ _ _ _))))

  -- On every branch, the envelope of a request for stations has no warning, or is degraded and not
  -- "ok".
  pub velov_stations-IsHonest :
      (now : Time) (configured : Option ℤ) (resolved : Option (Point F))
      (provide : Option (Point F → F → ℕ → Stations fl × Bool))
      (record_velov : VelovStation F → Bool) (radius : F) (minimum limit : ℤ)
      → IsHonest
          (velov_stations fl now configured resolved provide record_velov radius minimum limit)
  unfolding velov_stations new_envelope
  velov_stations-IsHonest now configured none provide record_velov radius minimum limit = inl refl
  velov_stations-IsHonest now configured (some point) none record_velov radius minimum limit =
      warn-IsHonest _ _ _ _ _
  velov_stations-IsHonest now configured (some point) (some provide) record_velov radius minimum
        limit =
      if-IsHonest _ _ _ (warn-IsHonest _ _ _ _ _) (assemble_stations-IsHonest _ _ _ _ _)

  -- Where the provider fails, with or without stations, the envelope has a warning, the degraded mark
  -- and a status other than "ok".
  pub velov_stations-failure_reported :
      (now : Time) (configured : Option ℤ) (point : Point F)
      (search : Point F → F → ℕ → Stations fl × Bool) (record_velov : VelovStation F → Bool)
      (radius : F) (minimum limit : ℤ)
      → ((r : F) (n : ℕ) → (search point r n).1 ≡ true)
      → IsDegraded (
          velov_stations fl now configured
            (some point)
            (some search)
            record_velov
            radius
            minimum
            limit)
  unfolding velov_stations
  velov_stations-failure_reported now configured point search record_velov radius minimum limit h =
      rw (h (radius_of fl radius) (or_default limit 10 * 2))
        (if-IsDegraded _ _ _ (warn-IsDegraded _ _ _ _ _) (assemble_stations-IsDegraded _ _ _ _))
