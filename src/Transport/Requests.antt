-- ===== src/Transport/Requests.antt =====
-- transport.go, error_boundary.go, statsig_metadata.go: the requests that the SDK makes. What the
-- HTTP client gives for a request is an argument. The name of a header is as the code spells it.
use Prim.Native.String.{◌++◌ as ◌<>◌}
use statsig_go_sdk.Prelude.{
  ℕ, String, Bool, true, false, Option, none, some, List, [], ◌∷◌, ◌==◌, if◌then◌else◌,
}
use statsig_go_sdk.Prelude.Int.{ℤ, pos}
use statsig_go_sdk.Value.{int64}
use statsig_go_sdk.Runtime.{Runtime}
use statsig_go_sdk.Store.State.{IdList}
use statsig_go_sdk.Transport.{HttpResult, failed, Retried, post_request_internal}

-- `statsigMetadata`
pub record StatsigMetadata : Type 0 where
  pub sdk_type : String
  pub sdk_version : String
  pub language_version : String

-- `runtime.Version()[2:]`: the version without "go".
abbrev pub without_two : String → String
without_two (String.◌∷◌ c (String.◌∷◌ d s)) = s
without_two _ = ""

-- `getStatsigMetadata`
unfoldable pub get_statsig_metadata : String → StatsigMetadata
get_statsig_metadata go_version = record {
  sdk_type = "go-sdk";
  sdk_version = "1.12.1";
  language_version = without_two go_version;
}

abbrev pub default_endpoint : String
default_endpoint = "https://statsigapi.net/v1"

-- `defaultString`
abbrev pub default_string : String → String → String
default_string v d = if v == "" then d else v

-- `strings.TrimSuffix`
unfoldable pub trim_suffix : String → String → String
trim_suffix String.[] suffix = ""
trim_suffix (String.◌∷◌ c s) suffix =
    let rest = trim_suffix s suffix in if String.◌∷◌ c s == suffix then "" else String.◌∷◌ c rest

-- `transport`, without its HTTP client.
pub record Transport : Type 0 where
  pub api : String
  pub sdk_key : String
  pub metadata : StatsigMetadata
  pub local_mode : Bool
  pub session_id : String

-- `newTransport`, with the API of the options, the ID of the session and Go's version.
unfoldable pub new_transport : String → String → Bool → String → String → Transport
unfolding trim_suffix get_statsig_metadata
new_transport secret api local_mode session_id go_version = record {
  api = trim_suffix (default_string api default_endpoint) "/";
  sdk_key = secret;
  metadata = get_statsig_metadata go_version;
  local_mode = local_mode;
  session_id = session_id;
}

pub record HttpRequest : Type 0 where
  pub method : String
  pub url : String
  pub headers : List (String × String)
  pub body : Option String

-- The URL to which a boundary with the API of the options reports.
abbrev pub report_url : String → String
report_url api = default_string api default_endpoint <> "/sdk_exception"

module _ (r : Runtime) where
  abbrev decimal : ℤ → String
  decimal n = r.format_value (int64 n)

  -- The request of `doRequest`, at a time in milliseconds.
  unfoldable pub new_request : Transport → String → String → ℤ → HttpRequest
  new_request t endpoint body now = record {
    method = "POST";
    url = t.api <> endpoint;
    headers =
        ("STATSIG-API-KEY", t.sdk_key)
        ∷ ("Content-Type", "application/json")
        ∷ ("STATSIG-CLIENT-TIME", decimal now)
        ∷ ("STATSIG-SERVER-SESSION-ID", t.session_id)
        ∷ ("STATSIG-SDK-TYPE", t.metadata.sdk_type)
        ∷ ("STATSIG-SDK-VERSION", t.metadata.sdk_version)
        ∷ [];
    body = some body;
  }

  -- The request of `get` for what a list lacks.
  unfoldable pub range_request : IdList → HttpRequest
  range_request list = record {
    method = "GET";
    url = list.url;
    headers = ("Range", "bytes=" <> (decimal (pos list.size) <> "-")) ∷ [];
    body = none;
  }

  -- The request of `logException`.
  unfoldable pub exception_request : String → String → StatsigMetadata → String → ℤ → HttpRequest
  exception_request api sdk_key metadata body now = record {
    method = "POST";
    url = report_url api;
    headers =
        ("Content-Type", "application/json")
        ∷ ("STATSIG-API-KEY", sdk_key)
        ∷ ("STATSIG-CLIENT-TIME", decimal now)
        ∷ ("STATSIG-SDK-TYPE", metadata.sdk_type)
        ∷ ("STATSIG-SDK-VERSION", metadata.sdk_version)
        ∷ [];
    body = some body;
  }

  -- The HTTP client gives an answer at each attempt; `is_url` says whether `http.NewRequest` takes
  -- the URL, and `clock` has the time of each attempt.
  module _ (client : ℕ → HttpRequest → HttpResult) (is_url : String → Bool) (clock : ℕ → ℤ) where
    -- `doRequest`
    unfoldable pub do_request : Transport → String → String → ℕ → HttpResult
    unfolding new_request
    do_request t endpoint body i =
        if is_url (t.api <> endpoint)
        then client i (new_request t endpoint body (clock i))
        else failed none

    -- `postRequestInternal` over `doRequest`; the body is `none` if the input has no JSON.
    abbrev pub answers : Transport → String → Option String → ℕ → HttpResult
    answers t endpoint none i = failed none
    answers t endpoint (some body) i = do_request t endpoint body i

    abbrev has_json : Option String → Bool
    has_json none = false
    has_json (some body) = true

    unfoldable pub post : Transport → String → Option String → ℕ → ℕ → Retried
    unfolding post_request_internal do_request
    post t endpoint body retries backoff =
        post_request_internal t.local_mode (has_json body) (answers t endpoint body) retries backoff
