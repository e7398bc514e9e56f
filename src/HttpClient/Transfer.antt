-- ===== src/HttpClient/Transfer.antt =====
-- internal/httpclient/client.go: `validateResponse`, `readResponse`, `writeDownload`, `getDirect`
-- and `Download`: the bounds on what is read, and the file that a download leaves.
-- `strings.ToLower` over Unicode is a parameter. The result of `acquire` (a permit, or the context's
-- error) and that of `do` are arguments; the permits themselves are not modelled.
pub mod Bounds
pub mod Publish
use mcp_grand_lyon.Base.{
  ℕ, suc, zero, String, Bool, true, false, ◌&&◌, ◌||◌, not, Option, none, some, ◌==◌, ltb, leb,
  if◌then◌else◌, List, [], ◌∷◌, length, take, ◌=ₛ◌, ◌+◌,
}
use mcp_grand_lyon.Base.Int.{ℤ, pos, negsuc, ltb_ℤ}
use mcp_grand_lyon.Base.Text.{Text, trim_space, atoi, same, codes}
use mcp_grand_lyon.HttpClient.Types.{
  ContextError, HttpError, origin_not_allowed, invalid_limit, response_too_large, response_encoding,
  request_failed, download_failed, context, Result, ok, err, Upstream, Response, Stream, wrap_int64,
}

-- `strings.ToLower`.
abbrev pub Lower : Type 0
Lower = Text → Text

check_lengths : ℕ → List Text → Option HttpError
check_lengths max_bytes [] = none
check_lengths max_bytes (value ∷ values) = elim (atoi (trim_space value)) [
  | none ↦ some request_failed
  | some (negsuc n) ↦ some request_failed
  | some (pos size) ↦
      if ltb max_bytes size then some response_too_large else check_lengths max_bytes values
]

abbrev or_else : Option HttpError → Option HttpError → Option HttpError
or_else none e = e
or_else (some d) e = some d

unfoldable pub validate_response : Lower → Upstream → ℕ → Option HttpError
unfolding check_lengths
validate_response lower r max_bytes =
    let encoding = trim_space (lower r.content_encoding) in
    if not (same encoding [] || same encoding (codes "identity"))
    then some response_encoding
    else or_else (check_lengths max_bytes r.content_lengths)
        (if ltb_ℤ (pos max_bytes) r.content_length then some response_too_large else none)

-- Reading `io.LimitReader(body, n)` to its end: an error of the body shows only where fewer than n
-- bytes come before it, and nothing is read where n is not positive.
unfoldable pub read_limited : ℤ → Stream → Stream
read_limited (negsuc n) body = record { bytes = []; broken = false }
read_limited (pos n) body =
    if leb n (length body.bytes) then record { bytes = take n body.bytes; broken = false } else body

-- The int64 `maxBytes + 1`.
abbrev pub read_limit : ℕ → ℤ
read_limit max_bytes = wrap_int64 (suc max_bytes)

abbrev read_error : Option ContextError → HttpError
read_error none = request_failed
read_error (some e) = context e

-- What `readResponse` does past the headers; `ctx` is `ctx.Err()` once the read has failed.
unfoldable pub read_body : Option ContextError → ℕ → Stream → ℕ → Result Response
unfolding read_limited
read_body ctx status body max_bytes =
    let read = read_limited (read_limit max_bytes) body in
    if read.broken
    then err (read_error ctx)
    else if ltb max_bytes (length read.bytes)
    then err response_too_large
    else ok (record { status_code = status; payload = read.bytes })

unfoldable pub read_response : Lower → Option ContextError → Upstream → ℕ → Result Response
read_response lower ctx r max_bytes = elim (validate_response lower r max_bytes) [
  | some e ↦ err e
  | none ↦ read_body ctx r.status r.body max_bytes
]

-- The files by path, and which of the system's operations succeed. `copied` is false where a write
-- fails; what was written before that is of no consequence.
abbrev pub Files : Type 0
Files = String → Option (List ℕ)

pub record Disk : Type 0 where
  pub created : Bool
  pub secured : Bool
  pub copied : Bool
  pub synced : Bool
  pub closed : Bool
  pub renamed : Bool
  pub removed : Bool

abbrev pub store_file : Files → String → Option (List ℕ) → Files
store_file fs path v p = if p =ₛ path then v else fs p

-- The deferred function, where the file is not published.
abbrev clean_up : Disk → String → Files → Files
clean_up disk temporary fs = if disk.removed then store_file fs temporary none else fs

abbrev published : Files → String → String → List ℕ → Files
published fs temporary dest bytes = store_file (store_file fs temporary none) dest (some bytes)

-- `temporary` is the name that `os.CreateTemp` gives.
unfoldable pub write_download :
    Option ContextError → Disk → Stream → String → String → ℕ → Files → Files × Option HttpError
unfolding read_limited
write_download ctx disk body temporary dest max_bytes fs =
    let opened = store_file fs temporary (some []) in
    let read = read_limited (read_limit max_bytes) body in
    let written = store_file fs temporary (some read.bytes) in
    if not disk.created
    then (fs, some download_failed)
    else if not disk.secured
    then (clean_up disk temporary opened, some download_failed)
    else if read.broken || not disk.copied
    then (clean_up disk temporary written, some (read_error ctx))
    else if ltb max_bytes (length read.bytes)
    then (clean_up disk temporary written, some response_too_large)
    else if not (disk.synced && disk.closed && disk.renamed)
    then (clean_up disk temporary written, some download_failed)
    else (published fs temporary dest read.bytes, none)

-- `Get` without the sharing: a permit, the attempts, and the bounded read.
unfoldable pub get_direct :
    Lower → Option ContextError → Option HttpError → Result Upstream → ℕ → Result Response
get_direct lower ctx (some e) sent max_bytes = err e
get_direct lower ctx none (err e) max_bytes = err e
get_direct lower ctx none (ok r) max_bytes = read_response lower ctx r max_bytes

abbrev downloaded : Upstream → Files × Option HttpError → Files × Result Response
downloaded r (fs, none) = (fs, ok (record { status_code = r.status; payload = [] }))
downloaded r (fs, some e) = (fs, err e)

-- `max_bytes` is an int64; the first guard makes it positive.
unfoldable pub download :
    Lower
    → Option ContextError
    → Option HttpError
    → Result Upstream
    → Disk
    → String
    → String
    → ℤ
    → Files
    → Files × Result Response
download lower ctx acquired sent disk temporary dest (negsuc n) fs = (fs, err invalid_limit)
download lower ctx acquired sent disk temporary dest (pos zero) fs = (fs, err invalid_limit)
download lower ctx (some e) sent disk temporary dest (pos (suc n)) fs = (fs, err e)
download lower ctx none (err e) disk temporary dest (pos (suc n)) fs = (fs, err e)
download lower ctx none (ok r) disk temporary dest (pos (suc n)) fs =
    if r.status == 200
    then elim (validate_response lower r (suc n)) [
      | some e ↦ (fs, err e)
      | none ↦ downloaded r (write_download ctx disk r.body temporary dest (suc n) fs)
    ]
    else (fs, read_response lower ctx r (suc n))
