-- ===== src/HttpClient/Retry/Attempts.antt =====
-- How many requests internal/httpclient/client.go's `do` sends, and which answer it returns.
use mcp_grand_lyon.Base.{
  List, [], ◌∷◌, All, zero, ℕ, suc, zero, ◌+◌, ◌≡◌, ◌≢◌, ◌⊎◌, ◌≤◌, ◌<◌, true, false, none, arith,
  inl, inr, refl,
}
use native.Mathlib.Decide.{ℕ_discrete}
use mathlib.Core.Path.{subst}
use mcp_grand_lyon.HttpClient.Types.{Result, ok, err, request_failed, Upstream}
use mcp_grand_lyon.HttpClient.Retry.{
  Sent, answered, failed, Net, ParseTime, retryable_status, wait_for_retry, wait_retry_delay,
  Verdict, stop, again, judge, attempts, do_request,
}

Verdict-cases : (v : Verdict) → (v ≡ again) ⊎ ((r : Result Upstream) × (v ≡ stop r))
Verdict-cases again = inl refl
Verdict-cases (stop r) = inr (r, refl)

-- An answer or a failure after which the loop may try again.
abbrev IsRetryable : Sent → Type 0
IsRetryable (answered u) = retryable_status u.status ≡ true
IsRetryable (failed refused) = refused ≡ false

module _ (parse_time : ParseTime) (net : Net) where
  abbrev Goes : ℕ → Type 0
  Goes i = judge parse_time net i ≡ again

  judge_last : judge parse_time net 3 ≢ again
  unfolding judge
  judge_last e = ground arith

  judge-again : (i : ℕ) → Goes i → IsRetryable (net.sent i)
  unfolding judge
  judge-again i e = ground arith

  judge-ok :
      (i : ℕ) (u : Upstream)
      → judge parse_time net i ≡ stop (ok u)
      → (net.sent i ≡ answered u) × ((retryable_status u.status ≡ false) ⊎ (3 ≤ i))
  unfolding judge
  judge-ok i u e = ground arith

  judge-request_failed :
      (i : ℕ)
      → judge parse_time net i ≡ stop (err request_failed)
      → (net.sent i ≡ failed false) × (net.ctx_err i ≡ none) × (i ≡ 3)
  unfolding judge wait_for_retry wait_retry_delay
  judge-request_failed i e = ground arith

  -- The loop returns the first verdict to stop, and the last attempt is one.
  attempts_found :
      (rounds a : ℕ)
      → a + suc rounds ≡ 4
      → let (r, n) = attempts parse_time net (suc rounds) a in
        (a ≤ n) × (n ≤ 3) × (judge parse_time net n ≡ stop r) × ((i : ℕ) → a ≤ i → i < n → Goes i)
  unfolding attempts
  attempts_found zero a s = elim (Verdict-cases (judge parse_time net a)) [
    | inr (r, e) ↦ rw e (omega arith, omega arith, e, λ i h k. absurd (omega arith))
    | inl e ↦ let last : a ≡ 3 = omega arith in absurd (judge_last (rw last at e))
  ]
  attempts_found (suc rounds) a s = elim (Verdict-cases (judge parse_time net a)) [
    | inr (r, e) ↦ rw e (omega arith, omega arith, e, λ i h k. absurd (omega arith))
    | inl e ↦
        let (first, last, stops, goes) = attempts_found rounds (suc a) (omega arith) in
        rw e (
          omega arith,
          last,
          stops,
          λ i h k. elim (ℕ_discrete i a) [ yes p ↦ rw p e | no p ↦ goes i (omega arith) k ],
        )
  ]

  do_request_found :
      (r : Result Upstream) (n : ℕ)
      → do_request parse_time net false true ≡ (r, n)
      → (1 ≤ n) × (n ≤ 3) × (judge parse_time net n ≡ stop r) × ((i : ℕ) → 1 ≤ i → i < n → Goes i)
  unfolding do_request
  do_request_found r n e =
      subst
        (λ (p : Result Upstream × ℕ).
          (1 ≤ p.1)
          × (p.1 ≤ 3)
          × (judge parse_time net p.1 ≡ stop p.0)
          × ((i : ℕ) → 1 ≤ i → i < p.1 → Goes i))
        e (attempts_found 2 1 refl)

  -- The outcomes of the requests before the n-th, the latest first.
  abbrev pub earlier : ℕ → List Sent
  earlier zero = []
  earlier (suc zero) = []
  earlier (suc (suc i)) = net.sent (suc i) ∷ earlier (suc i)

  earlier-IsRetryable : (n : ℕ) → ((i : ℕ) → 1 ≤ i → i < n → Goes i) → All IsRetryable (earlier n)
  earlier-IsRetryable zero goes = tt
  earlier-IsRetryable (suc zero) goes = tt
  earlier-IsRetryable (suc (suc i)) goes = (
    judge-again (suc i) (goes (suc i) (omega arith) (omega arith)),
    earlier-IsRetryable (suc i) (λ j h k. goes j h (omega arith)),
  )

  -- What a valid request outside offline mode sends when it returns an answer: between one and
  -- three requests; the answer is that of the last request, and its status is not retryable unless
  -- it is the third; every request before the last had a retryable status or failed at an allowed
  -- origin.
  pub do_request-ok :
      (u : Upstream) (n : ℕ)
      → do_request parse_time net false true ≡ (ok u, n)
      → (1 ≤ n)
        × (n ≤ 3)
        × (net.sent n ≡ answered u)
        × ((retryable_status u.status ≡ false) ⊎ (n ≡ 3))
        × All IsRetryable (earlier n)
  do_request-ok u n e =
      let (first, last, stops, goes) = do_request_found (ok u) n e in
      let (sent, third) = judge-ok n u stops in
      (first, last, sent, ground (arith, third), earlier-IsRetryable n goes)

  -- `ErrRequestFailed` is returned only after three requests, of which the third failed at an
  -- allowed origin while the context was alive, and the first two had a retryable status or failed
  -- at an allowed origin.
  pub do_request-request_failed :
      (n : ℕ)
      → do_request parse_time net false true ≡ (err request_failed, n)
      → (n ≡ 3) × (net.sent 3 ≡ failed false) × (net.ctx_err 3 ≡ none) × All IsRetryable (earlier 3)
  do_request-request_failed n e =
      let (first, last, stops, goes) = do_request_found (err request_failed) n e in
      let (sent, alive, third) = judge-request_failed n stops in
      (
        third,
        rw third at sent,
        rw third at alive,
        earlier-IsRetryable 3 (λ i h k. goes i h (omega (arith, third))),
      )
