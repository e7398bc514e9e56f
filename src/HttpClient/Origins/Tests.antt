-- ===== src/HttpClient/Origins/Tests.antt =====
-- The instances of the theorems on redirects at concrete URLs.
use mcp_grand_lyon.Base.{◌≡◌, ◌≢◌, ◌≤◌, refl, arith, Bool, true, false, some, List, [], ◌∷◌, length}
use mcp_grand_lyon.Base.Text.{Text, same, codes}
use mcp_grand_lyon.HttpClient.Types.{ok, err, origin_not_allowed}
use mcp_grand_lyon.HttpClient.Origins.{
  Url, Urls, Credentials, Request, validate_url, origin, accepts, allowed_hosts, check_redirect,
  redirected,
}
use mcp_grand_lyon.HttpClient.Origins.Redirects.{
  Sends, start, hop, AreAllowed, AreStripped, redirects-AreAllowed, redirects-AreStripped,
  authorization_returns,
}

abbrev url_at : Text → Url
url_at host = record {
  opaque = [];
  has_user = false;
  fragment = [];
  scheme = codes "https";
  host = host;
  hostname = host;
  port = [];
}

-- A printed URL is its host alone, since the tests read no more of it.
abbrev urls : Urls
urls = record {
  parse = λ raw. some (url_at raw);
  print = λ u. u.host;
  lower = λ s. s;
  equal_fold = same;
  forwards = λ first target. true;
}

abbrev credentials : Credentials
credentials = record {
  transitous_enabled = false;
  username = codes "user";
  password = codes "secret";
}

abbrev data_url : Url
data_url = url_at (codes "data.grandlyon.com")

abbrev download_url : Url
download_url = url_at (codes "download.data.grandlyon.com")

abbrev request_at : Bool → Url → Request urls credentials
request_at authorized u = record { url = u; authorized = authorized }

download-accepted : validate_url urls credentials (urls.print download_url) ≡ ok download_url
unfolding validate_url accepts allowed_hosts same
download-accepted = refl

other_host-refused : validate_url urls credentials (codes "example.org") ≡ err origin_not_allowed
unfolding validate_url accepts allowed_hosts same
other_host-refused = refl

origins_differ : origin urls credentials download_url ≢ origin urls credentials data_url
unfolding origin same
origins_differ h = ground arith

abbrev chain : List (Request urls credentials)
chain = request_at true download_url ∷ request_at false download_url ∷ request_at true data_url ∷ []

chain_sent : Sends urls credentials (request_at true data_url) chain
unfolding check_redirect redirected validate_url accepts allowed_hosts same origin
chain_sent =
    hop download_url (request_at true download_url) (request_at false download_url)
      (request_at true data_url ∷ [])
      (hop download_url (request_at false download_url) (request_at true data_url) [] start refl)
      refl

authorization_returns_example : Sends urls credentials (request_at true data_url) chain
authorization_returns_example =
    authorization_returns urls credentials data_url download_url download_url download_url
      download_url download-accepted download-accepted refl origins_differ refl

redirects-AreAllowed_example : (length chain ≤ 6) × AreAllowed urls credentials chain
redirects-AreAllowed_example =
    redirects-AreAllowed urls credentials (request_at true data_url) chain chain_sent

redirects-AreStripped_example : AreStripped urls credentials chain
redirects-AreStripped_example =
    redirects-AreStripped urls credentials (request_at true data_url) chain chain_sent
