-- ===== src/Logger/Buffer.antt =====
-- No event is lost, sent twice or reordered, and the buffer is bounded.
use statsig_go_sdk.Prelude.{
  ◌<◌, ◌≡◌, refl, sym, ap, ◌∙◌, Bool, false, List, [], ◌∷◌, ◌++◌, append-nil, append_assoc, arith,
  leb, length, Bool-cases, inl, inr,
}
use statsig_go_sdk.Logger.{LogEvent, Batch, Logger, flush_internal, log_internal}

-- The events of a sequence of batches, in the order in which they are sent.
abbrev pub sent : List Batch → List LogEvent
sent [] = []
sent (b ∷ bs) = b.events ++ sent bs

pub sent-append : (bs cs : List Batch) → sent (bs ++ cs) ≡ sent bs ++ sent cs
sent-append [] cs = refl
sent-append (b ∷ bs) cs =
    ap (λ es. b.events ++ es) (sent-append bs cs) ∙ sym (append_assoc b.events (sent bs) (sent cs))

-- What was sent and what is left is what was there, followed by what was added.
abbrev pub Conserves : Logger → Logger → List Batch → List LogEvent → Type 0
Conserves l l' batches added = sent batches ++ l'.events ≡ l.events ++ added

pub Conserves-trans :
    (l m n : Logger) (bs cs : List Batch) (ds es : List LogEvent)
    → Conserves l m bs ds
    → Conserves m n cs es
    → Conserves l n (bs ++ cs) (ds ++ es)
Conserves-trans l m n bs cs ds es h g =
    ap (λ xs. xs ++ n.events) (sent-append bs cs)
    ∙ append_assoc (sent bs) (sent cs) n.events
    ∙ ap (λ xs. sent bs ++ xs) g
    ∙ sym (append_assoc (sent bs) m.events es)
    ∙ ap (λ xs. xs ++ es) h
    ∙ append_assoc l.events ds es

pub flush_internal-Conserves :
    (l : Logger) (closing : Bool)
    → let (l', batches) = flush_internal l closing in
      Conserves l l' batches [] × (l'.events ≡ []) × (l'.max_events ≡ l.max_events)
unfolding flush_internal
flush_internal-Conserves l closing = go l.events
  where
    go :
        (es : List LogEvent)
        → let (l', batches) = flush_internal (record l { events = es }) closing in
          Conserves (record l { events = es }) l' batches []
          × (l'.events ≡ [])
          × (l'.max_events ≡ l.max_events)
    go [] = (refl, refl, refl)
    go (e ∷ es) = (append-nil ((e ∷ es) ++ []), refl, refl)

pub log_internal-Conserves :
    (l : Logger) (event : LogEvent)
    → let (l', batches) = log_internal l event in Conserves l l' batches (event ∷ [])
unfolding log_internal
log_internal-Conserves l event =
    elim (Bool-cases (leb l.max_events (length (l.events ++ (event ∷ []))))) [
      | inl full ↦ rw full (
          (flush_internal-Conserves (record l { events = l.events ++ (event ∷ []) }) false).0
          ∙ append-nil (l.events ++ (event ∷ [])))
      | inr fits ↦ rw fits refl
    ]

-- A logged event leaves the buffer below its limit.
pub log_internal-bounded :
    (l : Logger) (event : LogEvent)
    → 0 < l.max_events
    → let (l', batches) = log_internal l event in
      (length l'.events < l'.max_events) × (l'.max_events ≡ l.max_events)
unfolding log_internal
log_internal-bounded l event positive =
    elim (Bool-cases (leb l.max_events (length (l.events ++ (event ∷ []))))) [
      | inl full ↦
          let (_, empty, same) =
            flush_internal-Conserves (record l { events = l.events ++ (event ∷ []) }) false in
          rw (full, empty, same) (positive, refl)
      | inr fits ↦ rw fits (ground (arith, fits), refl)
    ]

-- What happens to the buffer: an event is added, or it is flushed.
pub data Operation : Type 0 where
  add : LogEvent → Operation
  flush_buffer : Bool → Operation

abbrev pub operate : Logger → Operation → Logger × List Batch
operate l (add event) = log_internal l event
operate l (flush_buffer closing) = flush_internal l closing

abbrev pub run : Logger → List Operation → Logger × List Batch
run l [] = (l, [])
run l (op ∷ ops) =
    let (l1, sent1) = operate l op in let (l2, sent2) = run l1 ops in (l2, sent1 ++ sent2)

abbrev pub added : Operation → List LogEvent
added (add event) = event ∷ []
added (flush_buffer closing) = []

abbrev pub all_added : List Operation → List LogEvent
all_added [] = []
all_added (op ∷ ops) = added op ++ all_added ops

operate-Conserves :
    (l : Logger) (op : Operation) → Conserves l (operate l op).0 (operate l op).1 (added op)
operate-Conserves l (add event) = log_internal-Conserves l event
operate-Conserves l (flush_buffer closing) = (flush_internal-Conserves l closing).0

-- However events are logged and the buffer is flushed, the batches and then the buffer hold the
-- events that were there and those that were logged: each once, in their order.
pub run-Conserves :
    (l : Logger) (ops : List Operation)
    → sent (run l ops).1 ++ (run l ops).0.events ≡ l.events ++ all_added ops
run-Conserves l [] = sym (append-nil l.events)
run-Conserves l (op ∷ ops) =
    Conserves-trans l (operate l op).0 (run (operate l op).0 ops).0 (operate l op).1
      (run (operate l op).0 ops).1 (added op) (all_added ops) (operate-Conserves l op)
      (run-Conserves (operate l op).0 ops)

operate-bounded :
    (l : Logger) (op : Operation)
    → 0 < l.max_events
    → (length (operate l op).0.events < (operate l op).0.max_events)
      × ((operate l op).0.max_events ≡ l.max_events)
operate-bounded l (add event) positive = log_internal-bounded l event positive
operate-bounded l (flush_buffer closing) positive =
    let (_, empty, same) = flush_internal-Conserves l closing in rw (empty, same) (positive, refl)

-- A buffer that is below its limit stays below it.
pub run-bounded :
    (l : Logger) (ops : List Operation)
    → length l.events < l.max_events
    → length (run l ops).0.events < (run l ops).0.max_events
run-bounded l [] below = below
run-bounded l (op ∷ ops) below =
    run-bounded (operate l op).0 ops (operate-bounded l op (omega arith)).0
