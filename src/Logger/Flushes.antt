-- ===== src/Logger/Flushes.antt =====
-- What a flush sends.
use statsig_go_sdk.Prelude.{
  ℕ, ◌+◌, ◌≤◌, String, ◌≡◌, sym, ap, ◌∙◌, Bool, List, [], ◌∷◌, ◌++◌, append-nil, arith, length,
  length-append, Bool-cases, inl, inr,
}
use statsig_go_sdk.Prelude.Int.{ℤ}
use statsig_go_sdk.Diagnostics.{
  Marker, DiagnosticsContext, DiagnosticsBase, Diagnostics, initialize, config_sync, api_call,
  serialize_with_sampling, clear_markers,
}
use statsig_go_sdk.Logger.{LogEvent, diagnostic, Batch, Logger, flush_internal, log_internal}
use statsig_go_sdk.Logger.Flush.{is_disabled, log_diagnostics_event, log_diagnostics_events, flush}
use statsig_go_sdk.Logger.Buffer.{
  sent, Conserves, Conserves-trans, flush_internal-Conserves, log_internal-Conserves,
}

abbrev pub IsDiagnostic : LogEvent → Type 0
IsDiagnostic (diagnostic event) = Unit
IsDiagnostic _ = ⊥

abbrev pub AllDiagnostic : List LogEvent → Type 0
AllDiagnostic [] = Unit
AllDiagnostic (e ∷ es) = IsDiagnostic e × AllDiagnostic es

AllDiagnostic-append :
    (es fs : List LogEvent) → AllDiagnostic es → AllDiagnostic fs → AllDiagnostic (es ++ fs)
AllDiagnostic-append [] fs h g = g
AllDiagnostic-append (e ∷ es) fs (one, h) g = (one, AllDiagnostic-append es fs h g)

-- Diagnostics are added, `n` events at most.
abbrev Adds : ℕ → Logger → Logger → List Batch → Type 0
Adds n l l' batches =
    (es : List LogEvent) × Conserves l l' batches es × AllDiagnostic es × (length es ≤ n)

Adds-trans :
    (n m : ℕ) (l l1 l2 : Logger) (bs cs : List Batch)
    → Adds n l l1 bs
    → Adds m l1 l2 cs
    → Adds (n + m) l l2 (bs ++ cs)
Adds-trans n m l l1 l2 bs cs (es, c, all, le) (fs, c', all', le') = (
  es ++ fs,
  Conserves-trans l l1 l2 bs cs es fs c c',
  AllDiagnostic-append es fs all all',
  omega (arith, length-append es fs),
)

-- A buffer that is flushed in the end.
then_flush :
    (l m : Logger) (bs : List Batch) (es : List LogEvent) (closing : Bool)
    → Conserves l m bs es
    → let (l', cs) = flush_internal m closing in
      (l'.events ≡ []) × (sent (bs ++ cs) ≡ l.events ++ es)
then_flush l m bs es closing h =
    let (flushed, empty, _) = flush_internal-Conserves m closing in
    let batches = bs ++ (flush_internal m closing).1 in
    (
      empty,
      sym (append-nil (sent batches))
          ∙ ap (λ xs. sent batches ++ xs) (sym empty)
          ∙ Conserves-trans l m (flush_internal m closing).0 bs (flush_internal m closing).1 es [] h
              flushed
          ∙ ap (λ xs. l.events ++ xs) (append-nil es),
    )

module _ (now : ℤ) where
  diagnostics_event-Adds :
      (draw : String → ℕ) (l : Logger) (d : DiagnosticsBase)
      → let (l', d', batches) = log_diagnostics_event now draw l d in Adds 1 l l' batches
  unfolding log_diagnostics_event
  diagnostics_event-Adds draw l d = elim (Bool-cases (is_disabled now l.options d.context)) [
    | inl off ↦ rw off ([], sym (append-nil l.events), tt, omega arith)
    | inr on ↦ rw on (go (serialize_with_sampling draw d))
  ]
    where
      result : List Marker → Logger × DiagnosticsBase × List Batch
      result ms = elim ms [
        | [] ↦ (l, d, [])
        | m ∷ ms ↦
            let (l', batches) = log_internal l (
              diagnostic (record {
                event_name = "statsig::diagnostics";
                context = d.context;
                markers = m ∷ ms;
                time = now;
              })) in
            (l', clear_markers d, batches)
      ]

      go : (ms : List Marker) → let (l', d', batches) = result ms in Adds 1 l l' batches
      go [] = ([], sym (append-nil l.events), tt, omega arith)
      go (m ∷ ms) = (_, log_internal-Conserves l _, (tt, tt), omega arith)

  -- A flush sends what the buffer held and after it at most three events of diagnostics, and leaves
  -- the buffer empty.
  pub flush-sends :
      (draw : DiagnosticsContext → String → ℕ) (l : Logger) (d : Diagnostics) (closing : Bool)
      → let (l', d', batches) = flush now draw l d closing in
        (l'.events ≡ [])
        × ((es : List LogEvent) × (sent batches ≡ l.events ++ es)
            × AllDiagnostic es
            × (length es ≤ 3))
  unfolding flush log_diagnostics_events
  flush-sends draw l d closing =
      let (l1, d1, sent1) = log_diagnostics_event now (draw initialize) l d.init_diagnostics in
      let (l2, d2, sent2) = log_diagnostics_event now (draw config_sync) l1 d.sync_diagnostics in
      let (l3, d3, sent3) = log_diagnostics_event now (draw api_call) l2 d.api_diagnostics in
      let (es, c, all, le) : Adds 3 l l3 (sent1 ++ (sent2 ++ sent3)) =
        Adds-trans 1 2 l l1 l3 sent1 (sent2 ++ sent3)
          (diagnostics_event-Adds (draw initialize) l d.init_diagnostics)
          (Adds-trans 1 1 l1 l2 l3 sent2 sent3
            (diagnostics_event-Adds (draw config_sync) l1 d.sync_diagnostics)
            (diagnostics_event-Adds (draw api_call) l2 d.api_diagnostics)) in
      let (empty, whole) = then_flush l l3 (sent1 ++ (sent2 ++ sent3)) es closing c in
      (empty, (es, whole, all, le))
