-- ===== src/Transport.antt =====
-- transport.go: requests to the server and their retries. What the HTTP client and the JSON decoder
-- give at each attempt is an argument; a time is in nanoseconds.
pub mod Retries
pub mod Requests
pub mod Slashes
use statsig_go_sdk.Prelude.{
  ℕ, zero, suc, ◌+◌, ◌*◌, Bool, true, false, ◌&&◌, ◌||◌, Option, none, some, List, [], ◌∷◌, leb,
  ltb, nat_eq, if◌then◌else◌,
}

-- What a caller sees: the status code of the response, if there is one, and whether an error comes
-- with it.
pub record Reply : Type 0 where
  pub status : Option ℕ
  pub is_error : Bool

-- What `client.Do` gives: an error, perhaps with a response, or a response with its status code and
-- whether its body decodes.
pub data HttpResult : Type 0 where
  failed : Option ℕ → HttpResult
  response : ℕ → Bool → HttpResult

-- One attempt, and whether to try again.
pub record Attempt : Type 0 where
  pub reply : Reply
  pub retry_again : Bool

-- `shouldRetry`
unfoldable pub should_retry : ℕ → Bool
should_retry code =
    nat_eq code 408
    || nat_eq code 500
    || nat_eq code 502
    || nat_eq code 503
    || nat_eq code 504
    || nat_eq code 522
    || nat_eq code 524
    || nat_eq code 599

abbrev pub is_success : ℕ → Bool
is_success code = leb 200 code && ltb code 300

-- The function that `postRequestInternal` passes to `retry`.
unfoldable pub attempt : HttpResult → Attempt
unfolding should_retry
attempt (failed none) = record {
  reply = record { status = none; is_error = true };
  retry_again = false;
}
attempt (failed (some code)) = record {
  reply = record { status = some code; is_error = true };
  retry_again = true;
}
attempt (response code decodes) =
    if is_success code
    then record {
      reply = record { status = some code; is_error = if decodes then false else true };
      retry_again = false;
    }
    else record {
      reply = record { status = some code; is_error = true };
      retry_again = should_retry code;
    }

-- What a run of `retry` does: its reply, the calls it made, and the sleeps between them.
pub record Retried : Type 0 where
  pub reply : Reply
  pub calls : ℕ
  pub sleeps : List ℕ

abbrev pub backoff_multiplier : ℕ
backoff_multiplier = 10

-- `retry`; the `i`-th call of the function gives `fn i`.
unfoldable pub retry : ℕ → ℕ → (ℕ → Attempt) → Retried
retry zero backoff fn = record { reply = (fn 0).reply; calls = 1; sleeps = [] }
retry (suc retries) backoff fn =
    let rest = retry retries (backoff * backoff_multiplier) (λ i. fn (suc i)) in
    if (fn 0).retry_again
    then record { reply = rest.reply; calls = suc rest.calls; sleeps = backoff ∷ rest.sleeps }
    else record { reply = (fn 0).reply; calls = 1; sleeps = [] }

-- `postRequestInternal`: nothing is sent in local mode, or if the input has no JSON.
unfoldable pub post_request_internal : Bool → Bool → (ℕ → HttpResult) → ℕ → ℕ → Retried
unfolding retry attempt
post_request_internal local_mode marshals server retries backoff =
    if local_mode
    then record { reply = record { status = none; is_error = false }; calls = 0; sleeps = [] }
    else if marshals
    then retry retries backoff (λ i. attempt (server i))
    else record { reply = record { status = none; is_error = true }; calls = 0; sleeps = [] }

abbrev pub max_retries : ℕ
max_retries = 5

-- `time.Second`
abbrev pub second : ℕ
second = 1000000000

-- `postRequest`, and `retryablePostRequest` as the logger calls it.
abbrev pub post_request : Bool → Bool → (ℕ → HttpResult) → Retried
post_request local_mode marshals server = post_request_internal local_mode marshals server 0 0

abbrev pub retryable_post_request : Bool → Bool → (ℕ → HttpResult) → ℕ → Retried
retryable_post_request local_mode marshals server retries =
    post_request_internal local_mode marshals server retries second
