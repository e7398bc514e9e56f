-- ===== src/HttpClient/Types.antt =====
-- internal/httpclient/client.go: the errors, the responses, and the integers that `time.Duration`
-- holds. Headers are reduced to the three that the client reads.
use mcp_grand_lyon.Base.{ℕ, ◌-◌, ◌%◌, Bool, List, ltb, if◌then◌else◌}
use mcp_grand_lyon.Base.Int.{ℤ, pos, negsuc}
use mcp_grand_lyon.Base.Text.{Text}

-- `ctx.Err()`.
pub data ContextError : Type 0 where
  canceled deadline_exceeded : ContextError

pub data HttpError : Type 0 where
  offline origin_not_allowed invalid_limit response_too_large response_encoding : HttpError
  request_failed download_failed retry_budget : HttpError
  context : ContextError → HttpError

pub data Result {ℓ} (A : Type ℓ) : Type ℓ where
  ok : A → Result A
  err : HttpError → Result A

-- What a read of the body gives: its bytes, and the error that ends it where it is cut short.
pub record Stream : Type 0 where
  pub bytes : List ℕ
  pub broken : Bool

-- The upstream's answer. `content_lengths` are the values of the header, `content_length` the field
-- of that name, -1 where it is unknown.
pub record Upstream : Type 0 where
  pub status : ℕ
  pub retry_after : Text
  pub content_encoding : Text
  pub content_lengths : List Text
  pub content_length : ℤ
  pub body : Stream

-- What the client gives its caller.
pub record Response : Type 0 where
  pub status_code : ℕ
  pub payload : List ℕ

abbrev pub ns_per_second : ℕ
ns_per_second = 1_000_000_000

-- The int64 of a product: it wraps.
abbrev pub wrap_int64 : ℕ → ℤ
wrap_int64 n =
    let m = n % 18_446_744_073_709_551_616 in
    if ltb m 9_223_372_036_854_775_808 then pos m else negsuc (18_446_744_073_709_551_615 - m)
