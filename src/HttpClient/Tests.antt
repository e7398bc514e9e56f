-- ===== src/HttpClient/Tests.antt =====
-- Runs of the client's model, and the instances of its theorems at concrete inputs.
use mcp_grand_lyon.Base.{
  ℕ, ◌≡◌, ◌≢◌, ◌≤◌, Bool, true, false, none, some, refl, arith, [], ◌∷◌, ◌⊎◌, ◌↔◌, if◌then◌else◌,
  ◌=ₛ◌, eq_iff,
}
use mcp_grand_lyon.Base.Int.{pos, negsuc}
use mcp_grand_lyon.Base.Text.{codes, atoi, trim_space, is_space}
use mcp_grand_lyon.HttpClient.Types.{ok, Upstream, Response}
use mcp_grand_lyon.HttpClient.Flights.World.{
  World, start, enter, finish, leave, enters, finishes, abandons, Reach, here, next, flight_of,
  IsConsistent,
}
use mcp_grand_lyon.HttpClient.Flights.Safety.{Reach-IsConsistent, Step-result_kept}
use mcp_grand_lyon.HttpClient.Flights.Sharing.{single_flight, finish_drops_newer}
use mcp_grand_lyon.HttpClient.Retry.{
  judge, Net, Sent, answered, failed, ParseTime, do_request, parse_retry_after, waits_for,
  retryable_status,
}
use mcp_grand_lyon.HttpClient.Retry.Attempts.{do_request-ok}
use mcp_grand_lyon.HttpClient.Retry.Delays.{parse_retry_after_overflow}
use mcp_grand_lyon.HttpClient.Transfer.{read_limited, Disk, Files, read_response, write_download}
use mcp_grand_lyon.HttpClient.Transfer.Bounds.{IsReadable, response_of, read_response-eq-ok_iff}
use mcp_grand_lyon.HttpClient.Transfer.Publish.{write_download-published}

-- A caller of "a" that waits.
abbrev one_caller : World ℕ
one_caller = enter start "a"

one_caller_reach : {b : Bool} → Reach b one_caller
one_caller_reach {b} = next here (enters b start "a")

Reach-IsConsistent_example : IsConsistent one_caller
Reach-IsConsistent_example = Reach-IsConsistent {b = true} one_caller_reach

single_flight_example : ◌≡◌ {A = ℕ} 0 0
unfolding enter
single_flight_example = single_flight one_caller 0 0 one_caller_reach refl refl refl

-- The goroutine of flight 0 has ended with 7.
abbrev ended : World ℕ
ended = finish one_caller 0 7

ended_reach : Reach true ended
unfolding enter
ended_reach = next one_caller_reach (finishes true one_caller 0 7 (omega arith) refl)

Step-result_kept_example :
    ((flight_of (enter ended "a") 0).done ≡ true)
    × ((flight_of (enter ended "a") 0).result ≡ (flight_of ended 0).result)
unfolding enter finish
Step-result_kept_example =
    Step-result_kept ended (enter ended "a") 0 ended_reach (omega arith) (enters true ended "a")
      refl

-- The caller of "a" gives up, and another one starts flight 1 while flight 0 has yet to end.
abbrev abandoned : World ℕ
abandoned = leave one_caller 0

abbrev replaced : World ℕ
replaced = enter abandoned "a"

replaced_reach : Reach false replaced
unfolding enter
replaced_reach =
    next (next one_caller_reach (abandons one_caller 0 (omega arith) (omega arith) refl))
      (enters false abandoned "a")

finish_drops_newer_example :
    let v = enter (finish replaced 0 7) "a" in
    (v.running 1 ≡ true)
    × (v.running replaced.client.next ≡ true)
    × (1 ≢ replaced.client.next)
    × (v.key_of 1 ≡ "a")
    × (v.key_of replaced.client.next ≡ "a")
    × ((flight_of v 1).done ≡ false)
    × ((flight_of v 1).cancelled ≡ false)
unfolding enter leave
finish_drops_newer_example =
    finish_drops_newer replaced 0 1 7 "a" replaced_reach refl refl (λ h. omega (arith, h))

abbrev no_time : ParseTime
no_time s = none

abbrev page : Upstream
page = record {
  status = 200;
  retry_after = [];
  content_encoding = [];
  content_lengths = codes "3" ∷ [];
  content_length = pos 3;
  body = record { bytes = 1 ∷ 2 ∷ 3 ∷ []; broken = false };
}

abbrev calm : ℕ → Sent → Net
calm n s = record {
  sent = λ i. s;
  ctx_err = λ i. none;
  clock = λ i. 0;
  remaining = λ i. some (pos n);
  random = λ i. i;
  interrupted = λ i. none;
}

do_request-ok_example :
    (1 ≤ 1)
    × (1 ≤ 3)
    × (answered page ≡ answered page)
    × ((retryable_status 200 ≡ false) ⊎ (◌≡◌ {A = ℕ} 1 3))
    × Unit {0}
unfolding do_request judge
do_request-ok_example = do_request-ok no_time (calm 9 (answered page)) page 1 refl

parse_retry_after_overflow_example :
    waits_for no_time (calm 9 (failed false)) (parse_retry_after no_time (codes "9223372037") 5) 1
    ≡ none
unfolding atoi trim_space is_space
parse_retry_after_overflow_example =
    parse_retry_after_overflow no_time (calm 9 (failed false)) (codes "9223372037") 5 1
      9_223_372_037 9 refl (omega arith) (omega arith) refl

abbrev page_response : Response
page_response = record { status_code = 200; payload = 1 ∷ 2 ∷ 3 ∷ [] }

read_response-eq-ok_iff_example :
    (read_response (λ s. s) none page 3 ≡ ok page_response)
    ↔ (IsReadable (λ s. s) page 3 × (page_response ≡ response_of page))
read_response-eq-ok_iff_example =
    read_response-eq-ok_iff (λ s. s) none page 3 page_response (omega arith)

abbrev chunked : Upstream
chunked = record page { content_lengths = []; content_length = negsuc 0 }

abbrev sound_disk : Disk
sound_disk = record {
  created = true;
  secured = true;
  copied = true;
  synced = true;
  closed = true;
  renamed = true;
  removed = true;
}

abbrev files : Files
files path = if path =ₛ "feed.zip" then some (9 ∷ []) else none

write_download-published_example :
    let fs' = (write_download none sound_disk page.body "tmp" "feed.zip" 3 files).0 in
    (fs' "feed.zip" ≡ some (1 ∷ 2 ∷ 3 ∷ []))
    × (false ≡ false)
    × (3 ≤ 3)
    × (fs' "notes" ≡ files "notes")
unfolding write_download read_limited
write_download-published_example =
    write_download-published none sound_disk page.body "tmp" "feed.zip" 3 files
      (λ e. ground (arith, e, eq_iff "tmp" "feed.zip")) refl "notes" (omega arith)
      (λ e. ground (arith, e, eq_iff "notes" "feed.zip")) refl
