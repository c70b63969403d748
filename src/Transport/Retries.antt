-- ===== src/Transport/Retries.antt =====
-- How often a request is sent, how long the pauses are, and which answer is the reply.
use statsig_go_sdk.Prelude.{
  ℕ, zero, suc, ◌+◌, ◌*◌, ◌≤◌, ◌≡◌, refl, Bool, true, false, none, some, List, [], ◌∷◌, arith, ◌⊎◌,
  inl, inr, Bool-cases,
}
use statsig_go_sdk.Transport.{
  Reply, Attempt, Retried, HttpResult, is_success, attempt, retry, backoff_multiplier,
  post_request_internal, max_retries, second, retryable_post_request,
}

-- The pauses of an exponential backoff.
abbrev pub pauses : ℕ → ℕ → List ℕ
pauses zero backoff = []
pauses (suc n) backoff = backoff ∷ pauses n (backoff * backoff_multiplier)

-- The calls before the `n`-th ask to be tried again.
abbrev pub AllAgain : ℕ → (ℕ → Attempt) → Type 0
AllAgain zero fn = Unit
AllAgain (suc n) fn = ((fn 0).retry_again ≡ true) × AllAgain n (λ i. fn (suc i))

pub retry-outcome :
    (retries backoff : ℕ) (fn : ℕ → Attempt)
    → (n : ℕ) × (n ≤ retries)
      × AllAgain n fn
      × ((n ≡ retries) ⊎ ((fn n).retry_again ≡ false))
      × (retry retries backoff fn
          ≡ record { reply = (fn n).reply; calls = suc n; sleeps = pauses n backoff })
unfolding retry
retry-outcome zero backoff fn = (0, omega arith, tt, inl refl, refl)
retry-outcome (suc retries) backoff fn =
    let (n, le, again, last, ran) =
      retry-outcome retries (backoff * backoff_multiplier) (λ i. fn (suc i)) in
    elim (Bool-cases (fn 0).retry_again) [
      | inl more ↦ (
        suc n,
        omega arith,
        (more, again),
        elim last [ inl all ↦ inl (omega arith) | inr ended ↦ inr ended ],
        rw (more, ran),
      )
      | inr done ↦ (0, omega arith, tt, inr done, rw done)
    ]

-- An answer after which `attempt` asks to be tried again: a response with an error, or a status
-- code of the list of `shouldRetry`.
pub attempt-again :
    (result : HttpResult)
    → (attempt result).retry_again ≡ true
    → (code : ℕ) × ((attempt result).reply ≡ record { status = some code; is_error = true })
unfolding attempt
attempt-again (HttpResult.failed none) h = cc
attempt-again (HttpResult.failed (some code)) h = (code, refl)
attempt-again (HttpResult.response code decodes) h = elim (Bool-cases (is_success code)) [
  | inl good ↦ absurd (ground (arith, good))
  | inr bad ↦ (code, rw bad)
]

-- The sum of the pauses.
abbrev pub total : List ℕ → ℕ
total [] = 0
total (t ∷ ts) = t + total ts

total-pauses : (n : ℕ) → n ≤ max_retries → total (pauses n second) ≤ 11111 * second
total-pauses zero h = omega arith
total-pauses (suc zero) h = omega arith
total-pauses (suc (suc zero)) h = omega arith
total-pauses (suc (suc (suc zero))) h = omega arith
total-pauses (suc (suc (suc (suc zero)))) h = omega arith
total-pauses (suc (suc (suc (suc (suc zero))))) h = omega arith
total-pauses (suc (suc (suc (suc (suc (suc n)))))) h = absurd (omega arith)

bounded :
    (run : Retried) (n : ℕ) (reply : Reply)
    → n ≤ max_retries
    → run ≡ record { reply = reply; calls = suc n; sleeps = pauses n second }
    → (run.calls ≤ 6) × (total run.sleeps ≤ 11111 * second)
bounded run n reply le ran = rw ran (omega arith, total-pauses n le)

-- Events that are logged are sent at most six times, with pauses of at most 11111 seconds in all.
pub retryable_post_request-bounded :
    (local_mode marshals : Bool) (server : ℕ → HttpResult)
    → let run = retryable_post_request local_mode marshals server max_retries in
      (run.calls ≤ 6) × (total run.sleeps ≤ 11111 * second)
unfolding post_request_internal
retryable_post_request-bounded true marshals server = (omega arith, omega arith)
retryable_post_request-bounded false false server = (omega arith, omega arith)
retryable_post_request-bounded false true server =
    let (n, le, _, _, ran) = retry-outcome max_retries second (λ i. attempt (server i)) in
    bounded (retry max_retries second (λ i. attempt (server i))) n (attempt (server n)).reply le ran
