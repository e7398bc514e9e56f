-- ===== src/HttpClient/Transfer/Bounds.antt =====
-- What a response of internal/httpclient/client.go holds: the whole body, within the limit.
use mcp_grand_lyon.Base.{
  ℕ, suc, ◌≡◌, ◌≤◌, ◌<◌, ◌↔◌, false, Option, none, arith, length, length-take,
}
use mcp_grand_lyon.Base.Int.{pos}
use mcp_grand_lyon.HttpClient.Types.{
  ContextError, ok, err, Upstream, Response, Stream, response_too_large,
}
use mcp_grand_lyon.HttpClient.Transfer.{
  Lower, read_limit, validate_response, read_body, read_response,
}

-- Below the largest int64, `maxBytes + 1` does not wrap.
pub read_limit-exact :
    (max_bytes : ℕ)
    → max_bytes < 9_223_372_036_854_775_807
    → read_limit max_bytes ≡ pos (suc max_bytes)
read_limit-exact max_bytes small = ground arith

read_body-ok :
    (ctx : Option ContextError) (status max_bytes : ℕ) (body : Stream) (p : Response)
    → max_bytes < 9_223_372_036_854_775_807
    → read_body ctx status body max_bytes ≡ ok p
    → (body.broken ≡ false)
      × (length body.bytes ≤ max_bytes)
      × (p.status_code ≡ status)
      × (p.payload ≡ body.bytes)
unfolding read_body
read_body-ok ctx status max_bytes body p small h =
    ground (arith, read_limit-exact max_bytes small, length-take (suc max_bytes) body.bytes)

read_body-fits :
    (ctx : Option ContextError) (status max_bytes : ℕ) (body : Stream)
    → max_bytes < 9_223_372_036_854_775_807
    → body.broken ≡ false
    → length body.bytes ≤ max_bytes
    → read_body ctx status body max_bytes
      ≡ ok (record { status_code = status; payload = body.bytes })
unfolding read_body
read_body-fits ctx status max_bytes body small w h =
    ground (arith, read_limit-exact max_bytes small)

read_body-too_large :
    (ctx : Option ContextError) (status max_bytes : ℕ) (body : Stream)
    → max_bytes < 9_223_372_036_854_775_807
    → max_bytes < length body.bytes
    → read_body ctx status body max_bytes ≡ err response_too_large
unfolding read_body
read_body-too_large ctx status max_bytes body small h =
    ground (arith, read_limit-exact max_bytes small, length-take (suc max_bytes) body.bytes)

-- Headers that pass, a body that is not cut short, and a length within the limit.
pub record IsReadable (lower : Lower) (r : Upstream) (max_bytes : ℕ) : Type 0 where
  pub checked : validate_response lower r max_bytes ≡ none
  pub whole : r.body.broken ≡ false
  pub bounded : length r.body.bytes ≤ max_bytes

abbrev pub response_of : Upstream → Response
response_of r = record { status_code = r.status; payload = r.body.bytes }

-- For a limit below the largest int64, a response is returned exactly for an upstream answer with headers that pass, a body that is not
-- cut short and a length within the limit, and it holds the whole body.
pub read_response-eq-ok_iff :
    (lower : Lower) (ctx : Option ContextError) (r : Upstream) (max_bytes : ℕ) (p : Response)
    → max_bytes < 9_223_372_036_854_775_807
    → (read_response lower ctx r max_bytes ≡ ok p)
      ↔ (IsReadable lower r max_bytes × (p ≡ response_of r))
unfolding read_response
read_response-eq-ok_iff lower ctx r max_bytes p small = (to, from)
  where
    to :
        read_response lower ctx r max_bytes ≡ ok p
        → IsReadable lower r max_bytes × (p ≡ response_of r)
    to h = ground (arith, read_body-ok ctx r.status max_bytes r.body p small)

    from :
        IsReadable lower r max_bytes × (p ≡ response_of r)
        → read_response lower ctx r max_bytes ≡ ok p
    from (g, e) =
        rw (g.checked, read_response)
          (rw e (read_body-fits ctx r.status max_bytes r.body small g.whole g.bounded))

-- A body that is longer than a limit below the largest int64 is refused as too large, also where it is cut short later.
pub read_response-too_large :
    (lower : Lower) (ctx : Option ContextError) (r : Upstream) (max_bytes : ℕ)
    → max_bytes < 9_223_372_036_854_775_807
    → validate_response lower r max_bytes ≡ none
    → max_bytes < length r.body.bytes
    → read_response lower ctx r max_bytes ≡ err response_too_large
unfolding read_response
read_response-too_large lower ctx r max_bytes small e h =
    rw (e, read_response) (read_body-too_large ctx r.status max_bytes r.body small h)
