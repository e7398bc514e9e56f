-- ===== src/HttpClient/Origins/Redirects.antt =====
-- internal/httpclient/client.go, `checkRedirect`: the requests that a chain of redirects sends.
use mcp_grand_lyon.Base.{
  ◌≤◌, ◌≡◌, ◌≢◌, ◌⊎◌, refl, ◌∙◌, arith, Bool, true, false, some, List, [], ◌∷◌, ◌++◌, length, any,
}
use mcp_grand_lyon.Base.Text.{Text, same, same-eq, same_refl, codes}
use mcp_grand_lyon.HttpClient.Types.{ok}
use mcp_grand_lyon.HttpClient.Origins.{
  Url, Urls, Credentials, Request, allowed_hosts, accepts, validate_url, origin, check_redirect,
  redirected,
}

module _ (urls : Urls) (cfg : Credentials) where
  -- What a request may go to: https, to a fixed host, on the port of https, with no credentials, no
  -- fragment and nothing opaque in the URL.
  pub record IsAllowed (u : Url) : Type 0 where
    pub plain : (u.opaque ≡ []) × (u.has_user ≡ false) × (u.fragment ≡ [])
    pub https : u.scheme ≡ codes "https"
    pub port :
        (urls.equal_fold u.host (urls.lower u.hostname) ≡ true)
        ⊎ (urls.equal_fold u.host (urls.lower u.hostname ++ codes ":443") ≡ true)
    pub host : any (same (urls.lower u.hostname)) (allowed_hosts cfg.transitous_enabled) ≡ true

  accepts-IsAllowed : (u : Url) → accepts urls cfg u ≡ true → IsAllowed u
  unfolding accepts
  accepts-IsAllowed u h = record {
    plain = (same-eq _ _ (ground arith), ground arith, same-eq _ _ (ground arith));
    https = same-eq _ _ (ground arith);
    port = ground arith;
    host = ground arith;
  }

  -- The requests that a chain of redirects from the first one has sent, the newest first: each hop
  -- is what net/http makes of a target and `checkRedirect` lets pass.
  pub data Sends (first : Request urls cfg) : List (Request urls cfg) → Type 0 where
    start : Sends first (first ∷ [])
    hop :
        (u : Url) (r p : Request urls cfg) (older : List (Request urls cfg))
        → Sends first (p ∷ older)
        → check_redirect urls cfg (redirected urls cfg first u) (p ∷ older) ≡ ok r
        → Sends first (r ∷ p ∷ older)

  -- Every URL that was redirected to is, as it is printed, one that a request may go to.
  pub AreAllowed : List (Request urls cfg) → Type 0
  AreAllowed [] = Unit
  AreAllowed (r ∷ []) = Unit
  AreAllowed (r ∷ q ∷ via) =
      ((u : Url) → urls.parse (urls.print r.url) ≡ some u → IsAllowed u) × AreAllowed (q ∷ via)

  -- A request that follows one at another origin carries no Authorization.
  pub AreStripped : List (Request urls cfg) → Type 0
  AreStripped [] = Unit
  AreStripped (r ∷ []) = Unit
  AreStripped (r ∷ q ∷ via) =
      ((origin urls cfg r.url ≡ origin urls cfg q.url) ⊎ (r.authorized ≡ false))
      × AreStripped (q ∷ via)

  accepted-IsAllowed :
      (raw : Text) (u v : Url)
      → validate_url urls cfg raw ≡ ok v
      → urls.parse raw ≡ some u
      → IsAllowed u
  unfolding validate_url
  accepted-IsAllowed raw u v h k = accepts-IsAllowed u (ground arith)

  check_redirect-length :
      (r q : Request urls cfg) (via : List (Request urls cfg))
      → check_redirect urls cfg r via ≡ ok q
      → length via ≤ 5
  unfolding check_redirect
  check_redirect-length r q via h = ground arith

  check_redirect-IsAllowed :
      (r q : Request urls cfg) (via : List (Request urls cfg))
      → check_redirect urls cfg r via ≡ ok q
      → (u : Url) → urls.parse (urls.print q.url) ≡ some u
      → IsAllowed u
  unfolding check_redirect validate_url
  check_redirect-IsAllowed r q [] h u k = accepts-IsAllowed u (ground arith)
  check_redirect-IsAllowed r q (p ∷ via) h u k = accepts-IsAllowed u (ground arith)

  check_redirect-AreStripped :
      (r q p : Request urls cfg) (via : List (Request urls cfg))
      → check_redirect urls cfg r (p ∷ via) ≡ ok q
      → (origin urls cfg q.url ≡ origin urls cfg p.url) ⊎ (q.authorized ≡ false)
  unfolding check_redirect
  check_redirect-AreStripped r q p via h =
      ground (arith, same-eq (origin urls cfg r.url) (origin urls cfg p.url))

  -- However the upstream redirects, at most six requests are sent, each one after the first to a URL
  -- that is allowed as it is printed.
  pub redirects-AreAllowed :
      (first : Request urls cfg) (via : List (Request urls cfg))
      → Sends first via
      → (length via ≤ 6) × AreAllowed via
  unfolding AreAllowed
  redirects-AreAllowed first via start = (omega arith, tt)
  redirects-AreAllowed first via (hop u r p older s h) = (
    omega (arith, check_redirect-length _ r (p ∷ older) h),
    (check_redirect-IsAllowed _ r (p ∷ older) h, (redirects-AreAllowed first (p ∷ older) s).1),
  )

  -- In a chain of redirects, a request that follows one at another origin carries no Authorization.
  pub redirects-AreStripped :
      (first : Request urls cfg) (via : List (Request urls cfg)) → Sends first via → AreStripped via
  unfolding AreStripped
  redirects-AreStripped first via start = tt
  redirects-AreStripped first via (hop u r p older s h) =
      (check_redirect-AreStripped _ r p older h, redirects-AreStripped first (p ∷ older) s)

  check_redirect-same_origin :
      (r p : Request urls cfg) (u : Url) (older : List (Request urls cfg))
      → length older ≤ 4
      → validate_url urls cfg (urls.print r.url) ≡ ok u
      → origin urls cfg r.url ≡ origin urls cfg p.url
      → check_redirect urls cfg r (p ∷ older) ≡ ok r
  unfolding check_redirect
  check_redirect-same_origin r p u older b v o = ground (arith, same_refl (origin urls cfg p.url))

  check_redirect-other_origin :
      (r p : Request urls cfg) (u : Url) (older : List (Request urls cfg))
      → length older ≤ 4
      → validate_url urls cfg (urls.print r.url) ≡ ok u
      → origin urls cfg r.url ≢ origin urls cfg p.url
      → check_redirect urls cfg r (p ∷ older) ≡ ok (record r { authorized = false })
  unfolding check_redirect
  check_redirect-other_origin r p u older b v o =
      ground (arith, same-eq (origin urls cfg r.url) (origin urls cfg p.url))

  abbrev at : Bool → Url → Request urls cfg
  at authorized u = record { url = u; authorized = authorized }

  -- A request with credentials is redirected to u at another origin and from there to v at u's
  -- origin, both of them allowed, and net/http forwards the header to v (as it does to a subdomain of the
  -- first host): the hop to u carries no Authorization, and the hop to v, which is not at the first
  -- origin either, carries it.
  pub authorization_returns :
      (f u v a b : Url)
      → validate_url urls cfg (urls.print u) ≡ ok a
      → validate_url urls cfg (urls.print v) ≡ ok b
      → urls.forwards f v ≡ true
      → origin urls cfg u ≢ origin urls cfg f
      → origin urls cfg v ≡ origin urls cfg u
      → Sends (at true f) (at true v ∷ at false u ∷ at true f ∷ [])
  unfolding redirected
  authorization_returns f u v a b hu hv fv d e =
      hop v (at true v) (at false u) (at true f ∷ [])
        (hop u (at false u) (at true f) [] start (
          check_redirect-other_origin (redirected urls cfg (at true f) u) (at true f) a []
            (omega arith) hu d
          ∙ refl))
        ((rw fv refl)
          ∙ check_redirect-same_origin (at true v) (at false u) b (at true f ∷ []) (omega arith) hv
              e)
