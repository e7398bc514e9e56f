-- ===== src/HttpClient/Origins.antt =====
-- internal/httpclient/client.go: `validateURL`, `checkRedirect`, `origin`, the fixed hosts of
-- `NewWithTransport` and the credentials of `do`. A URL is what `net/url` gives of one: its parser,
-- its printer, `strings.ToLower` and `strings.EqualFold` are parameters, and so is the rule by which
-- net/http copies the first request's Authorization to a redirect's target.
pub mod Redirects
mod Tests
use mcp_grand_lyon.Base.{
  ℕ, Bool, true, false, not, ◌&&◌, ◌||◌, Option, none, some, List, [], ◌∷◌, ◌++◌, length, any, ltb,
  if◌then◌else◌,
}
use mcp_grand_lyon.Base.Text.{Text, same, codes}
use mcp_grand_lyon.HttpClient.Types.{HttpError, origin_not_allowed, Result, ok, err}

-- `hostname` and `port` are the results of the methods.
pub record Url : Type 0 where
  pub opaque : Text
  pub has_user : Bool
  pub fragment : Text
  pub scheme : Text
  pub host : Text
  pub hostname : Text
  pub port : Text

-- The functions of the standard library; `forwards first target` is net/http's rule.
pub record Urls : Type 0 where
  pub parse : Text → Option Url
  pub print : Url → Text
  pub lower : Text → Text
  pub equal_fold : Text → Text → Bool
  pub forwards : Url → Url → Bool

abbrev pub maximum_redirects : ℕ
maximum_redirects = 5

unfoldable pub allowed_hosts : Bool → List Text
allowed_hosts transitous =
    codes "data.grandlyon.com"
    ∷ codes "download.data.grandlyon.com"
    ∷ (if transitous then codes "api.transitous.org" ∷ [] else [])

abbrev is_empty : Text → Bool
is_empty s = same s []

-- The configuration's fields that are read here.
pub record Credentials : Type 0 where
  pub transitous_enabled : Bool
  pub username : Text
  pub password : Text

module _ (urls : Urls) (cfg : Credentials) where
  -- The tests of `validateURL` on a URL that parses.
  unfoldable pub accepts : Url → Bool
  accepts u =
      let name = urls.lower u.hostname in
      is_empty u.opaque
      && not u.has_user
      && is_empty u.fragment
      && same u.scheme (codes "https")
      && not (is_empty name)
      && (urls.equal_fold u.host name || urls.equal_fold u.host (name ++ codes ":443"))
      && any (same name) (allowed_hosts cfg.transitous_enabled)

  abbrev accepted : Option Url → Result Url
  accepted none = err origin_not_allowed
  accepted (some u) = if accepts u then ok u else err origin_not_allowed

  unfoldable pub validate_url : Text → Result Url
  validate_url raw = accepted (urls.parse raw)

  unfoldable pub origin : Url → Text
  origin u = urls.lower (
      u.scheme
      ++ codes "://"
      ++ u.hostname
      ++ codes ":"
      ++ (if is_empty u.port then codes "443" else u.port))

  -- A request: where it goes, and whether it carries the Authorization header.
  pub record Request : Type 0 where
    pub url : Url
    pub authorized : Bool

  -- The request that `do` builds.
  unfoldable pub first_request : Bool → Url → Request
  first_request auth u = record {
    url = u;
    authorized = auth && not (is_empty cfg.username) && not (is_empty cfg.password);
  }

  -- The Authorization header is deleted where the hop before, the newest, has another origin.
  abbrev guarded : Request → List Request → Request
  guarded r [] = r
  guarded r (previous ∷ older) =
      if same (origin r.url) (origin previous.url) then r else record r { authorized = false }

  abbrev checked : Request → List Request → Result Url → Result Request
  checked r via (err e) = err e
  checked r via (ok u) = ok (guarded r via)

  -- `via` has the newest request first.
  unfoldable pub check_redirect : Request → List Request → Result Request
  check_redirect r via =
      if ltb maximum_redirects (length via)
      then err origin_not_allowed
      else checked r via (validate_url (urls.print r.url))

  -- What net/http makes of a redirect to a target: the headers are the first request's.
  unfoldable pub redirected : Request → Url → Request
  redirected first u = record {
    url = u;
    authorized = first.authorized && urls.forwards first.url u;
  }
