-- ===== src/HttpClient/Retry.antt =====
-- internal/httpclient/client.go: `do`, `waitForRetry`, `waitRetryDelay` and `parseRetryAfter`, the
-- sending of one request with at most three attempts.
-- What is outside the client enters as a record of answers, one for each attempt: the transport
-- (with the redirects that it follows), the clock, the random numbers and the context.
-- `http.ParseTime` is a parameter.
pub mod Attempts
pub mod Delays
use mcp_grand_lyon.Base.{
  ℕ, suc, zero, ◌+◌, ◌-◌, ◌*◌, ◌/◌, ◌%◌, ◌^◌, Bool, true, false, ◌&&◌, ◌||◌, Option, none, some,
  ◌==◌, ltb, if◌then◌else◌, [], ◌∷◌,
}
use mcp_grand_lyon.Base.Int.{ℤ, pos, negsuc, ltb_ℤ, leb_ℤ}
use mcp_grand_lyon.Base.Text.{Text, trim_space, atoi, max_int}
use Prim.Native.Nat.{min}
use mcp_grand_lyon.HttpClient.Types.{
  ContextError, HttpError, offline, origin_not_allowed, request_failed, retry_budget, context,
  Result, ok, err, Upstream, ns_per_second, wrap_int64,
}

abbrev pub maximum_attempts : ℕ
maximum_attempts = 3

-- 200 ms.
abbrev pub first_retry_delay : ℕ
first_retry_delay = 200_000_000

abbrev pub retryable_status : ℕ → Bool
retryable_status s = s == 408 || s == 429 || s == 500 || s == 502 || s == 503 || s == 504

-- `client.http.Do`: an answer, or an error that is or is not `ErrOriginNotAllowed`.
pub data Sent : Type 0 where
  answered : Upstream → Sent
  failed : Bool → Sent

-- At attempt n: the outcome of sending, `ctx.Err()` after it, the clock, `time.Until(deadline)` when
-- the wait begins, the random number, and the context's error if it ends before the timer.
pub record Net : Type 0 where
  pub sent : ℕ → Sent
  pub ctx_err : ℕ → Option ContextError
  pub clock : ℕ → ℕ
  pub remaining : ℕ → Option ℤ
  pub random : ℕ → ℕ
  pub interrupted : ℕ → Option ContextError

-- `http.ParseTime`: an instant in nanoseconds. `Sub` saturates at the largest int64.
abbrev pub ParseTime : Type 0
ParseTime = Text → Option ℕ

abbrev delay_until : ℕ → Option ℕ → Option ℤ
delay_until now none = none
delay_until now (some at) = some (pos (min (at - now) max_int))

abbrev from_seconds : Option ℤ → Option ℤ → Option ℤ
from_seconds (some (pos seconds)) date = some (wrap_int64 (seconds * ns_per_second))
from_seconds (some (negsuc n)) date = date
from_seconds none date = date

abbrev is_empty : Text → Bool
is_empty [] = true
is_empty (c ∷ s) = false

unfoldable pub parse_retry_after : ParseTime → Text → ℕ → Option ℤ
parse_retry_after parse_time value now =
    let value' = trim_space value in
    if is_empty value'
    then none
    else from_seconds (atoi value') (delay_until now (parse_time value'))

abbrev over_budget : Option ℤ → ℤ → Bool
over_budget none delay = false
over_budget (some left) delay = ltb_ℤ left delay

abbrev interrupted_by : Option ContextError → Option HttpError
interrupted_by none = none
interrupted_by (some e) = some (context e)

unfoldable pub wait_retry_delay : Net → ℕ → ℤ → Option HttpError
wait_retry_delay net attempt delay =
    if over_budget (net.remaining attempt) delay
    then some retry_budget
    else if leb_ℤ delay (pos 0)
    then none
    else interrupted_by (net.interrupted attempt)

-- `base/2 + rand.Int63n(base/2 + 1)` with `base = firstRetryDelay << (attempt - 1)`.
unfoldable pub backoff : ℕ → ℕ → ℕ
backoff random attempt =
    let base = first_retry_delay * 2 ^ (attempt - 1) in base / 2 + random % (base / 2 + 1)

unfoldable pub wait_for_retry : Net → ℕ → Option HttpError
unfolding backoff wait_retry_delay
wait_for_retry net attempt =
    wait_retry_delay net attempt (pos (backoff (net.random attempt) attempt))

-- What one round of the loop decides: to return, or to go on with the next attempt.
pub data Verdict : Type 0 where
  stop : Result Upstream → Verdict
  again : Verdict

abbrev after_wait : Option HttpError → Verdict
after_wait none = again
after_wait (some e) = stop (err e)

abbrev after_failure : Option ContextError → Bool → Bool → Option HttpError → Verdict
after_failure (some e) refused last waited = stop (err (context e))
after_failure none true last waited = stop (err origin_not_allowed)
after_failure none false true waited = stop (err request_failed)
after_failure none false false waited = after_wait waited

module _ (parse_time : ParseTime) (net : Net) where
  abbrev pub waits_for : Option ℤ → ℕ → Option HttpError
  waits_for (some delay) attempt = wait_retry_delay net attempt delay
  waits_for none attempt = wait_for_retry net attempt

  abbrev judge_sent : Sent → ℕ → Verdict
  judge_sent (answered r) attempt =
      if retryable_status r.status && ltb attempt maximum_attempts
      then after_wait
          (waits_for (parse_retry_after parse_time r.retry_after (net.clock attempt)) attempt)
      else stop (ok r)
  judge_sent (failed refused) attempt =
      after_failure (net.ctx_err attempt) refused (attempt == maximum_attempts)
        (wait_for_retry net attempt)

  unfoldable pub judge : ℕ → Verdict
  judge attempt = judge_sent (net.sent attempt) attempt

  abbrev decide : Verdict → ℕ → Result Upstream × ℕ → Result Upstream × ℕ
  decide (stop r) attempt later = (r, attempt)
  decide again attempt later = later

  -- The loop with `rounds` attempts left, and how many requests have been sent when it returns.
  unfoldable pub attempts : ℕ → ℕ → Result Upstream × ℕ
  attempts zero attempt = (err request_failed, attempt - 1)
  attempts (suc rounds) attempt =
      let later = attempts rounds (suc attempt) in decide (judge attempt) attempt later

  -- `valid` is the verdict of `validateURL`. A URL that `url.Parse` has accepted makes a request.
  unfoldable pub do_request : Bool → Bool → Result Upstream × ℕ
  unfolding attempts
  do_request is_offline valid =
      if is_offline
      then (err offline, 0)
      else if valid
      then attempts maximum_attempts 1
      else (err origin_not_allowed, 0)
