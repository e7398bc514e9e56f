-- ===== src/HttpClient/Retry/Delays.antt =====
-- How long internal/httpclient/client.go waits between two attempts.
use mcp_grand_lyon.Base.{
  ℕ, suc, ◌-◌, ◌*◌, ◌^◌, ◌≡◌, ◌≤◌, ◌⊎◌, inl, inr, none, some, [], ◌∷◌, ap, ◌∙◌, arith, refl,
}
use mcp_grand_lyon.Base.Int.{ℤ, pos, ◌≤ℤ◌}
use mcp_grand_lyon.Base.Text.{Text, trim_space, atoi}
use mcp_grand_lyon.HttpClient.Types.{wrap_int64, ns_per_second}
use mcp_grand_lyon.HttpClient.Retry.{
  Net, ParseTime, parse_retry_after, wait_retry_delay, backoff, waits_for,
}

-- Without a `Retry-After` the wait after attempt n + 1 lies between half of its base,
-- 200 ms * 2 ^ n, and the base.
pub backoff_bounds :
    (random n : ℕ)
    → (100_000_000 * 2 ^ n ≤ backoff random (suc n))
      × (backoff random (suc n) ≤ 200_000_000 * 2 ^ n)
unfolding backoff
backoff_bounds random n = let e : suc n - 1 ≡ n = omega arith in rw e (grind arith, grind arith)

-- A wait that the code makes fits the time that is left before the deadline.
pub wait_retry_delay_in_budget :
    (net : Net) (attempt : ℕ) (delay left : ℤ)
    → net.remaining attempt ≡ some left
    → wait_retry_delay net attempt delay ≡ none
    → delay ≤ℤ left
unfolding wait_retry_delay
wait_retry_delay_in_budget net attempt delay left e h = ground arith

Text-cases : (s : Text) → (s ≡ []) ⊎ ((c : ℕ) × (t : Text) × (s ≡ c ∷ t))
Text-cases [] = inl refl
Text-cases (c ∷ s) = inr (c, s, refl)

parse_retry_after_seconds :
    (parse_time : ParseTime) (value : Text) (now seconds : ℕ)
    → atoi (trim_space value) ≡ some (pos seconds)
    → parse_retry_after parse_time value now ≡ some (wrap_int64 (seconds * ns_per_second))
unfolding parse_retry_after atoi
parse_retry_after_seconds parse_time value now seconds e = elim (Text-cases (trim_space value)) [
  | inl blank ↦ ground (arith, rw blank at e)
  | inr (c, s, full) ↦ rw full (rw (rw full at e))
]

-- A `Retry-After` of at most 9223372036 seconds is read exactly.
pub parse_retry_after_exact :
    (parse_time : ParseTime) (value : Text) (now seconds : ℕ)
    → atoi (trim_space value) ≡ some (pos seconds)
    → seconds ≤ 9_223_372_036
    → parse_retry_after parse_time value now ≡ some (pos (seconds * 1_000_000_000))
parse_retry_after_exact parse_time value now seconds e h =
    parse_retry_after_seconds parse_time value now seconds e ∙ ap some (ground arith)

-- From 9223372037 to 18446744073 seconds the product of `time.Duration` and `time.Second` overflows
-- to a negative delay, and the code then does not wait at all, whatever time is left.
pub parse_retry_after_overflow :
    (parse_time : ParseTime) (net : Net) (value : Text) (now attempt seconds left : ℕ)
    → atoi (trim_space value) ≡ some (pos seconds)
    → 9_223_372_037 ≤ seconds
    → seconds ≤ 18_446_744_073
    → net.remaining attempt ≡ some (pos left)
    → waits_for parse_time net (parse_retry_after parse_time value now) attempt ≡ none
unfolding wait_retry_delay
parse_retry_after_overflow parse_time net value now attempt seconds left e h k r =
    rw (parse_retry_after_seconds parse_time value now seconds e) (ground arith)
