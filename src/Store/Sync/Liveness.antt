-- ===== src/Store/Sync/Liveness.antt =====
-- A network that stays away is reported.
use statsig_go_sdk.Prelude.{
  ℕ, zero, suc, ◌+◌, ◌*◌, ◌≤◌, ◌<◌, ◌≡◌, refl, subst, sym, ap, ◌∙◌, ◌↔◌, ◌⊎◌, ◌&&◌, Bool, true,
  false, none, List, [], ◌∷◌, ◌++◌, arith, ltb, ltb-ge, ltb→lt, Bool-cases, inl, inr, if◌then◌else◌,
}
use statsig_go_sdk.Runtime.{Runtime}
use statsig_go_sdk.Store.State.{Store}
use statsig_go_sdk.Store.Sync.{
  Setup, failed, Effect, log_exception, sync_outdated_max, handle_sync_error,
  fetch_config_specs_from_server, poll_for_ruleset_changes,
}

not_silent : (e : Effect) (es : List Effect) → e ∷ es ≡ [] → ⊥
not_silent e es h = cc

told_once : (now later : List Effect) → now ≡ log_exception ∷ [] → now ++ later ≡ [] → ⊥
told_once now later told e = not_silent log_exception later (subst (λ es. es ++ later ≡ []) told e)

more_is_longer : (a n i : ℕ) → a * i ≤ (a + n) * i
more_is_longer a n i = omega arith

module _ (r : Runtime) (setup : Setup) where
  -- Polls in a row that the server does not answer.
  abbrev pub failing_polls : ℕ → Store → Store × List Effect
  failing_polls zero s = (s, [])
  failing_polls (suc n) s =
      let (s1, effects) = poll_for_ruleset_changes r setup s false none failed in
      let (s2, later) = failing_polls n s1 in (s2, effects ++ later)

  next : (c n : ℕ) → c + 1 + n ≡ c + suc n
  next c n = omega arith

  third :
      (down adapted : Bool) (x y z : Store × List Effect)
      → down ≡ false
      → (if down then x else if adapted && false then y else z) ≡ z
  third true adapted x y z h = absurd (ground (arith, h))
  third false true x y z h = refl
  third false false x y z h = refl

  poll-failed :
      (s : Store)
      → s.shutdown ≡ false
      → poll_for_ruleset_changes r setup s false none failed ≡ handle_sync_error setup s false
  unfolding poll_for_ruleset_changes fetch_config_specs_from_server
  poll-failed s up = third s.shutdown setup.has_adapter _ _ _ up

  -- A failure, with what it says of the effects.
  poll-step :
      (s : Store)
      → s.shutdown ≡ false
      → let (s1, effects) = poll_for_ruleset_changes r setup s false none failed in
        (s1.shutdown ≡ false)
        × (((effects ≡ log_exception ∷ [])
              × (sync_outdated_max < (s.sync_failure_count + 1) * setup.config_sync_interval))
            ⊎ ((effects ≡ [])
                × ((s.sync_failure_count + 1) * setup.config_sync_interval ≤ sync_outdated_max)
                × (s1.sync_failure_count ≡ s.sync_failure_count + 1)))
  unfolding handle_sync_error
  poll-step s up =
      rw (poll-failed s up)
        (elim (Bool-cases
          (ltb sync_outdated_max ((s.sync_failure_count + 1) * setup.config_sync_interval))) [
            | inl late ↦ rw late (up, inl (refl, ltb→lt _ _ late))
            | inr soon ↦ rw soon (up, inr (refl, ltb-ge _ _ soon, refl))
          ])

  -- While the server does not answer, nothing is reported as long as the failures that are counted
  -- make up two minutes at most, and something is reported once they make up more: an exception is
  -- logged after every stretch of failing polls that is longer than two minutes.
  pub failing_polls-reported :
      (n : ℕ) (s : Store)
      → s.shutdown ≡ false
      → s.sync_failure_count * setup.config_sync_interval ≤ sync_outdated_max
      → ((failing_polls n s).1 ≡ [])
        ↔ ((s.sync_failure_count + n) * setup.config_sync_interval ≤ sync_outdated_max)
  failing_polls-reported zero s up low = (λ _. omega arith, λ _. refl)
  failing_polls-reported (suc n) s up low =
      let (s1, effects) = poll_for_ruleset_changes r setup s false none failed in
      let later = (failing_polls n s1).1 in
      let i = setup.config_sync_interval in
      let (up1, outcome) = poll-step s up in
      elim outcome [
        | inl (told, late) ↦ (
          λ e. absurd (told_once effects later told e),
          λ low'. absurd (omega (arith, more_is_longer (s.sync_failure_count + 1) n i)),
        )
        | inr (silent, low1, more) ↦
            subst
              (λ es. (es ++ later ≡ []) ↔ ((s.sync_failure_count + suc n) * i ≤ sync_outdated_max))
              (sym silent)
              (subst (λ k. (later ≡ []) ↔ (k * i ≤ sync_outdated_max))
                (ap (λ k. k + n) more ∙ next s.sync_failure_count n)
                (failing_polls-reported n s1 up1
                  (subst (λ k. k * i ≤ sync_outdated_max) (sym more) low1)))
      ]
