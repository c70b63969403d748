-- ===== src/Client/Sessions/Kept.antt =====
-- What a client keeps through a session, by each way that a call changes it.
use statsig_go_sdk.Prelude.{
  ℕ, ◌+◌, String, ◌≡◌, sym, subst, List, [], ◌∷◌, ◌++◌, zero, suc, arith, if◌then◌else◌,
}
use statsig_go_sdk.Evaluator.Result.{Outcome, ok, panic, out_of_fuel}
use statsig_go_sdk.Evaluator.Condition.{Evaluator}
use statsig_go_sdk.ErrorBoundary.{Captured, is_seen}
use statsig_go_sdk.ErrorBoundary.Laws.{count}
use statsig_go_sdk.Logger.Buffer.{sent, sent-append}
use statsig_go_sdk.Logger.Privacy.{AllPublic, AllPublic-append}
use statsig_go_sdk.Client.{Logged, LayerHandle}
use statsig_go_sdk.Client.Sessions.Fine.{IsFine, OnOk, IsServed, IsFineLayer}
use statsig_go_sdk.Client.Sessions.{Session, handle_at, sends, captured, serves, hands_out, reads}

abbrev pub AllFine : List LayerHandle → Type 0
AllFine [] = Unit
AllFine (layer ∷ layers) = IsFineLayer layer × AllFine layers

AllFine-append :
    (layers : List LayerHandle) (layer : LayerHandle)
    → AllFine layers
    → IsFineLayer layer
    → AllFine (layers ++ (layer ∷ []))
AllFine-append [] layer h one = (one, tt)
AllFine-append (_ ∷ layers) layer (first, h) one = (first, AllFine-append layers layer h one)

-- No private attributes in the buffer, in what was sent, or in what a read of a layer may log; each
-- exception that the boundary has seen was reported once, and no other.
pub record IsKept (s : Session) : Type 0 where
  pub buffered : AllPublic s.client.logger.events
  pub sent_public : AllPublic (sent s.batches)
  pub layers_fine : AllFine s.layers
  pub told :
      (message : String)
      → count message s.reports ≡ (if is_seen message s.client.boundary.seen then 1 else 0)

count-append :
    (message : String) (ms ns : List String)
    → count message (ms ++ ns) ≡ count message ms + count message ns
count-append message [] ns = ground arith
count-append message (m ∷ ms) ns = ground (arith, count-append message ms ns)

pub sends-IsKept :
    (s : Session) (out : Logged) → IsKept s → IsFine s.client.logger out → IsKept (sends s out)
sends-IsKept s out k fine =
    let (gone, left) = fine k.buffered in
    record {
      buffered = left;
      sent_public =
          subst AllPublic (sym (sent-append s.batches out.1))
            (AllPublic-append (sent s.batches) (sent out.1) k.sent_public gone);
      layers_fine = k.layers_fine;
      told = k.told;
    }

captured-IsKept :
    {A : Type 0} (s : Session) (out : Captured Logged A)
    → IsKept s
    → IsServed s.client.logger s.client.boundary out
    → IsKept (captured s out)
captured-IsKept s out k (fine, new) =
    let k' = sends-IsKept s out.state k fine in
    record {
      buffered = k'.buffered;
      sent_public = k'.sent_public;
      layers_fine = k.layers_fine;
      told = λ message.
          ground (arith, count-append message s.reports out.reports, k.told message, new message);
    }

pub serves-IsKept :
    {A : Type 0} (s : Session) (m : Outcome (Captured Logged A))
    → IsKept s
    → OnOk (IsServed s.client.logger s.client.boundary) m
    → OnOk IsKept (serves s m)
serves-IsKept s (ok out) k h = captured-IsKept s out k h
serves-IsKept s (panic p) k h = tt
serves-IsKept s out_of_fuel k h = tt

pub hands_out-IsKept :
    (s : Session) (m : Outcome (Captured Logged LayerHandle))
    → IsKept s
    → OnOk (λ out. IsServed s.client.logger s.client.boundary out × IsFineLayer out.value) m
    → OnOk IsKept (hands_out s m)
hands_out-IsKept s (ok out) k (h, fine) =
    let k' = captured-IsKept s out k h in
    record {
      buffered = k'.buffered;
      sent_public = k'.sent_public;
      layers_fine = AllFine-append s.layers out.value k.layers_fine fine;
      told = k'.told;
    }
hands_out-IsKept s (panic p) k h = tt
hands_out-IsKept s out_of_fuel k h = tt

pub reads-IsKept :
    (s : Session) (n : ℕ) (layers : List LayerHandle) (parameter : String)
    → IsKept s
    → AllFine layers
    → IsKept (reads s (handle_at n layers) parameter)
reads-IsKept s n [] parameter k h = k
reads-IsKept s zero (layer ∷ layers) parameter k (fine, h) =
    sends-IsKept s _ k (fine s.client.logger parameter)
reads-IsKept s (suc n) (layer ∷ layers) parameter k (fine, h) =
    reads-IsKept s n layers parameter k h

-- A change of the evaluator alone.
pub evaluator-IsKept :
    (s : Session) (e : Evaluator)
    → IsKept s
    → IsKept (record s { client = record s.client { evaluator = e } })
evaluator-IsKept s e k = record {
  buffered = k.buffered;
  sent_public = k.sent_public;
  layers_fine = k.layers_fine;
  told = k.told;
}
