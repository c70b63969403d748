-- ===== src/Tests/Requests.antt =====
-- The requests of a transport whose API ends in a slash.
use Prim.Native.String.{◌++◌ as ◌<>◌}
use statsig_go_sdk.Prelude.{◌≡◌, refl, false}
use statsig_go_sdk.Prelude.Int.{pos}
use statsig_go_sdk.Transport.Requests.{
  Transport, new_transport, new_request, report_url, get_statsig_metadata,
}
use statsig_go_sdk.Transport.Slashes.{new_request-slash}
use statsig_go_sdk.Tests.Data.{test_runtime}

abbrev proxied : Transport
proxied = new_transport "secret-key" ("https://proxy/v1" <> "/") false "session" "go1.21"

proxied-metadata : proxied.metadata.language_version ≡ "1.21"
unfolding new_transport get_statsig_metadata
proxied-metadata = refl

new_request-slash_example :
    ((new_request test_runtime proxied "/log_event" "{}" (pos 1700000000000)).url
      ≡ "https://proxy/v1/log_event")
    × (report_url ("https://proxy/v1" <> "/") ≡ "https://proxy/v1//sdk_exception")
new_request-slash_example =
    new_request-slash test_runtime "secret-key" "https://proxy/v1" false "session" "go1.21"
      "/log_event" "{}" (pos 1700000000000)
