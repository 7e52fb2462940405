-- ===== src/Store/Sink/Queue.antt =====
-- The queue of crates/store/src/sink.rs loses nothing that it accepted, and its counters add up.
use kalshi_alpha.Prelude.{
  ℕ, zero, suc, ◌+◌, ◌≡◌, refl, sym, ap, ◌∙◌, Option, none, some, List, [], ◌∷◌, ◌++◌, append-nil,
  append_assoc, length, arith,
}
use kalshi_alpha.Store.Sink.{
  Sent, accepted, full, closed, SendLaw, RecvLaw, Mpsc, SinkMetrics, no_metrics, count_sent, offer,
  on_received, drain,
}

-- What the read loop and the writer do with the queue.
pub data QueueStep (R : Type 0) : Type 0 where
  offers : (r : R) → QueueStep R
  drains : (max : ℕ) → QueueStep R

-- What the channel answered to each offer, the records that it accepted, and those that were
-- received, in their order.
pub record Traffic (R : Type 0) : Type 0 where
  pub answers : List Sent
  pub taken : List R
  pub received : List R

-- The record of an offer, where the channel accepted it.
abbrev pub taken_of : {R : Type 0} → R → Sent → List R
taken_of r accepted = r ∷ []
taken_of r full = []
taken_of r closed = []

-- How many answers are an acceptance, a full channel, and a closed one.
abbrev pub accepted_in : List Sent → ℕ
accepted_in [] = 0
accepted_in (accepted ∷ xs) = accepted_in xs + 1
accepted_in (full ∷ xs) = accepted_in xs
accepted_in (closed ∷ xs) = accepted_in xs

abbrev pub full_in : List Sent → ℕ
full_in [] = 0
full_in (accepted ∷ xs) = full_in xs
full_in (full ∷ xs) = full_in xs + 1
full_in (closed ∷ xs) = full_in xs

abbrev pub closed_in : List Sent → ℕ
closed_in [] = 0
closed_in (accepted ∷ xs) = closed_in xs
closed_in (full ∷ xs) = closed_in xs
closed_in (closed ∷ xs) = closed_in xs + 1

module _ {R : Type 0} (mpsc : Mpsc R) where
  abbrev pub QueueState : Type 0
  QueueState = (mpsc.State × SinkMetrics) × Traffic R

  abbrev pub step : QueueState → QueueStep R → QueueState
  step ((q, m), t) (offers r) =
      let sent = (mpsc.try_send q r).1 in
      (
        (offer mpsc (q, m) r).0,
        record t { answers = sent ∷ t.answers; taken = t.taken ++ taken_of r sent },
      )
  step ((q, m), t) (drains max) =
      let (q', rs) = drain mpsc max q in ((q', m), record t { received = t.received ++ rs })

  abbrev pub steps : QueueState → List (QueueStep R) → QueueState
  steps s [] = s
  steps s (x ∷ xs) = steps (step s x) xs

  -- What was accepted is what was received and then what is queued; each counter is the number of
  -- the offers with its answer.
  pub record IsSound (s : QueueState) : Type 0 where
    pub kept : s.1.taken ≡ s.1.received ++ mpsc.contents s.0.0
    pub queued : s.0.1.queued ≡ accepted_in s.1.answers
    pub dropped : s.0.1.dropped ≡ full_in s.1.answers
    pub gone : s.0.1.writer_gone ≡ closed_in s.1.answers
    pub offered : s.0.1.offered ≡ length s.1.answers

  received_lem :
      (continue : mpsc.State → mpsc.State × List R) (before : List R) (x : mpsc.State × Option R)
      → RecvLaw before (mpsc.contents x.0) x.1
      → ((q : mpsc.State) → mpsc.contents q ≡ (continue q).1 ++ mpsc.contents (continue q).0)
      → before ≡ (on_received mpsc continue x).1 ++ mpsc.contents (on_received mpsc continue x).0
  received_lem continue before (q', none) h t = sym h
  received_lem continue before (q', some r) h t = h ∙ ap (λ l. r ∷ l) (t q')

  pub drain_lem :
      (max : ℕ) (q : mpsc.State)
      → mpsc.contents q ≡ (drain mpsc max q).1 ++ mpsc.contents (drain mpsc max q).0
  unfolding drain
  drain_lem zero q = refl
  drain_lem (suc left) q =
      received_lem (λ q'. drain mpsc left q') (mpsc.contents q) (mpsc.try_recv q) (mpsc.recv_law q)
        (λ q'. drain_lem left q')

  step-IsSound : (s : QueueState) (x : QueueStep R) → IsSound s → IsSound (step s x)
  unfolding offer
  step-IsSound ((q, m), t) (offers r) i = sent (mpsc.try_send q r) (mpsc.send_law q r)
    where
      sent :
          (x : mpsc.State × Sent)
          → SendLaw (mpsc.contents q) r (mpsc.contents x.0) x.1
          → IsSound (
            (x.0, (count_sent mpsc (record m { offered = m.offered + 1 }) x.1).0),
            record t { answers = x.1 ∷ t.answers; taken = t.taken ++ taken_of r x.1 },
          )
      sent (q', accepted) h = record {
        kept = rw (h, i.kept) (append_assoc t.received (mpsc.contents q) (r ∷ []));
        queued = omega (arith, i.queued);
        dropped = i.dropped;
        gone = i.gone;
        offered = omega (arith, i.offered);
      }
      sent (q', full) h = record {
        kept = rw (h, append-nil t.taken) i.kept;
        queued = i.queued;
        dropped = omega (arith, i.dropped);
        gone = i.gone;
        offered = omega (arith, i.offered);
      }
      sent (q', closed) h = record {
        kept = rw (h, append-nil t.taken) i.kept;
        queued = i.queued;
        dropped = i.dropped;
        gone = omega (arith, i.gone);
        offered = omega (arith, i.offered);
      }
  step-IsSound ((q, m), t) (drains max) i = record {
    kept =
        i.kept
        ∙ ap (λ l. t.received ++ l) (drain_lem max q)
        ∙ sym (append_assoc t.received (drain mpsc max q).1 (mpsc.contents (drain mpsc max q).0));
    queued = i.queued;
    dropped = i.dropped;
    gone = i.gone;
    offered = i.offered;
  }

  steps-IsSound : (s : QueueState) (xs : List (QueueStep R)) → IsSound s → IsSound (steps s xs)
  steps-IsSound s [] h = h
  steps-IsSound s (x ∷ xs) h = steps-IsSound (step s x) xs (step-IsSound s x h)

  -- From an empty queue, whatever offers and drains come in whatever order, the records received and
  -- then those queued are the records that the channel accepted, in their order; the counters are
  -- the numbers of the offers that it accepted, of those it was full for, of those that met a writer
  -- that is gone, and of all offers.
  pub queue_lem :
      (q : mpsc.State) (xs : List (QueueStep R))
      → mpsc.contents q ≡ []
      → IsSound (steps ((q, no_metrics), record { answers = []; taken = []; received = [] }) xs)
  queue_lem q xs e =
      steps-IsSound ((q, no_metrics), record { answers = []; taken = []; received = [] }) xs
        (record { kept = sym e; queued = refl; dropped = refl; gone = refl; offered = refl })
