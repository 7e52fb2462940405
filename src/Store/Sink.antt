-- ===== src/Store/Sink.antt =====
-- crates/store/src/sink.rs: the queue between the read loop and the writer. The bounded channel is
-- tokio's and is a parameter, with what its documentation says of it as laws. Counters are unbounded.
pub mod Queue
pub mod Examples
use kalshi_alpha.Prelude.{
  ℕ, zero, suc, ◌+◌, ◌≤◌, ◌≡◌, Option, none, some, List, [], ◌∷◌, ◌++◌, length,
}

pub data Sent : Type 0 where
  accepted full closed : Sent

-- What is in the channel after a `try_send` and after a `try_recv`.
abbrev pub SendLaw : {R : Type 0} → List R → R → List R → Sent → Type 0
SendLaw before r after accepted = after ≡ before ++ (r ∷ [])
SendLaw before r after full = after ≡ before
SendLaw before r after closed = after ≡ before

abbrev pub RecvLaw : {R : Type 0} → List R → List R → Option R → Type 0
RecvLaw before after none = after ≡ before
RecvLaw before after (some r) = before ≡ r ∷ after

pub record Mpsc (R : Type 0) : Type 1 where
  pub State : Type 0
  pub contents : State → List R
  pub max_capacity : ℕ
  pub try_send : State → R → State × Sent
  pub try_recv : State → State × Option R
  pub send_law :
      (q : State) (r : R) → SendLaw (contents q) r (contents (try_send q r).0) (try_send q r).1
  pub recv_law : (q : State) → RecvLaw (contents q) (contents (try_recv q).0) (try_recv q).1
  pub bounded : (q : State) → length (contents q) ≤ max_capacity

pub data Offered : Type 0 where
  queued_record dropped_record writer_is_gone : Offered

pub record SinkMetrics : Type 0 where
  pub offered : ℕ
  pub queued : ℕ
  pub dropped : ℕ
  pub writer_gone : ℕ

abbrev pub no_metrics : SinkMetrics
no_metrics = record { offered = 0; queued = 0; dropped = 0; writer_gone = 0 }

module _ {R : Type 0} (mpsc : Mpsc R) where
  -- The arms of `offer`, after it has counted the offer.
  abbrev pub count_sent : SinkMetrics → Sent → SinkMetrics × Offered
  count_sent m accepted = (record m { queued = m.queued + 1 }, queued_record)
  count_sent m full = (record m { dropped = m.dropped + 1 }, dropped_record)
  count_sent m closed = (record m { writer_gone = m.writer_gone + 1 }, writer_is_gone)

  unfoldable pub offer : mpsc.State × SinkMetrics → R → (mpsc.State × SinkMetrics) × Offered
  offer (q, m) r =
      let (q', sent) = mpsc.try_send q r in
      let (m', outcome) = count_sent (record m { offered = m.offered + 1 }) sent in
      ((q', m'), outcome)

  -- A turn of `drain`: it goes on while a record comes.
  abbrev pub on_received :
      (mpsc.State → mpsc.State × List R) → mpsc.State × Option R → mpsc.State × List R
  on_received continue (q, none) = (q, [])
  on_received continue (q, some r) = let (q', rs) = continue q in (q', r ∷ rs)

  unfoldable pub drain : ℕ → mpsc.State → mpsc.State × List R
  drain zero q = (q, [])
  drain (suc left) q = on_received (λ q'. drain left q') (mpsc.try_recv q)
