-- ===== src/Daemon/Writing/Ending.antt =====
-- How `writer_task` of bin/capture.rs ends.
use kalshi_alpha.Prelude.{
  ℕ, zero, suc, ◌-◌, ◌+◌, ◌≤◌, ◌<◌, ◌≡◌, Bool, true, false, refl, sym, ap, subst, ◌∙◌, Option, none,
  some, List, [], ◌∷◌, ◌++◌, append-nil, length, length-append, Result, ok, err, ℤ, arith,
}
use kalshi_alpha.Prelude.Text.{Text}
use kalshi_alpha.Store.Channel.{Channel}
use kalshi_alpha.Store.Session.{Calendar}
use kalshi_alpha.Store.Disk.{Disk}
use kalshi_alpha.Store.Sink.{Sent, accepted, full, closed, Mpsc, SendLaw, on_received, drain}
use kalshi_alpha.Store.Sink.Queue.{drain_lem}
use kalshi_alpha.Store.Writer.{WriteError, ParquetStore}
use kalshi_alpha.Store.Writer.Steps.{close_all}
use kalshi_alpha.Store.Writer.Invariant.{IsStore}
use kalshi_alpha.Store.Writer.Closing.{close_all_lem}
use kalshi_alpha.Daemon.Writing.{
  TaskEvent, shut_down, Task, write_batch_of, note_offer, note_offers, task_loop, on_drained,
  drain_rest, closed_with, close_task, after_drain, after_loop, writer_task,
}
use kalshi_alpha.Daemon.Writing.Drained.{
  concat, Start, Wrote, nothing_yet, IsTask, write_batch_of-IsTask, moved-IsTask,
  note_offers-IsTask, loop-IsTask, loop-broken,
}

-- So many turns of the final drain without an offer before them.
abbrev pub quiet : {R : Type 0} → ℕ → List (List R)
quiet zero = []
quiet (suc n) = [] ∷ quiet n

-- An empty drain has met an empty queue, where `try_recv` fails for no other reason.
module _ {R : Type 0} (mpsc : Mpsc R)
    (never_spurious : (q : mpsc.State) → (mpsc.try_recv q).1 ≡ none → mpsc.contents q ≡ []) where
  drained_none :
      (left : ℕ) (q : mpsc.State) → (drain mpsc (suc left) q).1 ≡ [] → mpsc.contents q ≡ []
  unfolding drain
  drained_none left q = go (mpsc.try_recv q) (never_spurious q)
    where
      go :
          (x : mpsc.State × Option R)
          → (x.1 ≡ none → mpsc.contents q ≡ [])
          → (on_received mpsc (λ q'. drain mpsc left q') x).1 ≡ []
          → mpsc.contents q ≡ []
      go (q', none) f h = f refl
      go (q', some r) f h = absurd (cc)

module _ {R : Type 0} (channel_of : R → Channel) (D : Disk) (calendar : Calendar)
    (expected_rows : Channel → List R → ℕ)
    (encode : Channel → Text → List R → Result Unit (Option (ℕ × ℕ))) (mpsc : Mpsc R)
    (max_batch_rows : ℕ) where
  abbrev State : Type 0
  State = Task channel_of D calendar expected_rows encode mpsc max_batch_rows

  abbrev Task? :
      Start channel_of D calendar expected_rows encode mpsc max_batch_rows → Option State → Type 0
  Task? start none = ⊥
  Task? start (some t) =
      IsTask channel_of D calendar expected_rows encode mpsc max_batch_rows start t
      × (mpsc.contents t.queue ≡ [])

  queued_one :
      (r : R) (t : State) (x : mpsc.State × Sent)
      → SendLaw (mpsc.contents t.queue) r (mpsc.contents x.0) x.1
      → length (
          mpsc.contents
            (note_offer channel_of D calendar expected_rows encode mpsc max_batch_rows r t x).queue)
        ≤ length (mpsc.contents t.queue) + 1
  queued_one r t (q, accepted) h =
      omega (arith, ap length h, length-append (mpsc.contents t.queue) (r ∷ []))
  queued_one r t (q, full) h = omega (arith, ap length h)
  queued_one r t (q, closed) h = omega (arith, ap length h)

  queued_at_most :
      (rs : List R) (t : State)
      → length (
          mpsc.contents
            (note_offers channel_of D calendar expected_rows encode mpsc max_batch_rows rs t).queue)
        ≤ length (mpsc.contents t.queue) + length rs
  queued_at_most [] t = omega arith
  queued_at_most (r ∷ rs) t = omega (
    arith,
    queued_at_most rs (
        note_offer channel_of D calendar expected_rows encode mpsc max_batch_rows r t
          (mpsc.try_send t.queue r)),
    queued_one r t (mpsc.try_send t.queue r) (mpsc.send_law t.queue r),
  )

  module _ (never_spurious : (q : mpsc.State) → (mpsc.try_recv q).1 ≡ none → mpsc.contents q ≡ [])
      (some_rows : 0 < max_batch_rows) where
    emptied :
        (q q' : mpsc.State)
        → mpsc.contents q ≡ [] ++ mpsc.contents q'
        → (drain mpsc max_batch_rows q).1 ≡ []
        → mpsc.contents q' ≡ []
    emptied q q' e h =
        sym e
        ∙ drained_none mpsc never_spurious (max_batch_rows - 1) q
            (subst (λ k. (drain mpsc k q).1 ≡ []) (omega arith) h)

    on_drained-Task :
        (start : Start channel_of D calendar expected_rows encode mpsc max_batch_rows) (now : ℤ)
        (next : State → Option State) (t : State)
        → IsTask channel_of D calendar expected_rows encode mpsc max_batch_rows start t
        → ((t' : State)
            → IsTask channel_of D calendar expected_rows encode mpsc max_batch_rows start t'
            → length (mpsc.contents t'.queue) < length (mpsc.contents t.queue)
            → Task? start (next t'))
        → Task? start (
            on_drained channel_of D calendar expected_rows encode mpsc max_batch_rows now next t
              (drain mpsc max_batch_rows t.queue))
    on_drained-Task start now next t i k =
        go (drain mpsc max_batch_rows t.queue) (drain_lem mpsc max_batch_rows t.queue)
          (λ q e. emptied t.queue q e)
      where
        go :
            (x : mpsc.State × List R)
            → mpsc.contents t.queue ≡ x.1 ++ mpsc.contents x.0
            → ((q : mpsc.State)
                → mpsc.contents t.queue ≡ [] ++ mpsc.contents q
                → x.1 ≡ []
                → mpsc.contents q ≡ [])
            → Task? start (
                on_drained channel_of D calendar expected_rows encode mpsc max_batch_rows now next t
                  x)
        go (q, []) e f = (
          moved-IsTask channel_of D calendar expected_rows encode mpsc max_batch_rows start t q i
              (sym e),
          f q e refl,
        )
        go (q, r ∷ rs) e f =
            k
              (write_batch_of channel_of D calendar expected_rows encode mpsc max_batch_rows
                (r ∷ rs) now (record t { queue = q }))
              (write_batch_of-IsTask channel_of D calendar expected_rows encode mpsc max_batch_rows
                start (r ∷ rs) now t q i e)
              (unfold write_batch_of in
                omega (arith, ap length e, length-append (r ∷ rs) (mpsc.contents q)))

    -- With no more offers the drain ends.
    quiet-Task :
        (n : ℕ) (start : Start channel_of D calendar expected_rows encode mpsc max_batch_rows)
        (now : ℤ) (t : State)
        → IsTask channel_of D calendar expected_rows encode mpsc max_batch_rows start t
        → length (mpsc.contents t.queue) < n
        → Task? start (
            drain_rest channel_of D calendar expected_rows encode mpsc max_batch_rows
              (quiet n)
              now
              t)
    unfolding drain_rest
    quiet-Task zero start now t i h = absurd (omega arith)
    quiet-Task (suc n) start now t i h =
        on_drained-Task start now
          (λ t'.
            drain_rest channel_of D calendar expected_rows encode mpsc max_batch_rows (quiet n) now
              t')
          t i λ t' i' h'. quiet-Task n start now t' i' (omega (arith, h, h'))

    drain_rest-Task :
        (busy : List (List R)) (n : ℕ)
        (start : Start channel_of D calendar expected_rows encode mpsc max_batch_rows) (now : ℤ)
        (t : State)
        → IsTask channel_of D calendar expected_rows encode mpsc max_batch_rows start t
        → mpsc.max_capacity < n
        → Task? start (
            drain_rest channel_of D calendar expected_rows encode mpsc max_batch_rows
              (busy ++ quiet n)
              now
              t)
    unfolding drain_rest
    drain_rest-Task [] n start now t i h =
        quiet-Task n start now t i (omega (arith, h, mpsc.bounded t.queue))
    drain_rest-Task (offers ∷ busy) n start now t i h =
        on_drained-Task start now
          (λ t'.
            drain_rest channel_of D calendar expected_rows encode mpsc max_batch_rows
              (busy ++ quiet n) now t')
          (note_offers channel_of D calendar expected_rows encode mpsc max_batch_rows offers t)
          (note_offers-IsTask channel_of D calendar expected_rows encode mpsc max_batch_rows start
            offers t i)
          λ t' i' h'. drain_rest-Task busy n start now t' i' h

    -- The task has returned. What was queued and accepted was handed on, but for what is queued, and
    -- of that there is no more than was offered late; no file is open; and `write_grouped` was called
    -- with the batches, and `close_all` after them.
    abbrev pub Ended :
        Start channel_of D calendar expected_rows encode mpsc max_batch_rows
        → List R
        → ℤ
        → Option (State × Result WriteError Unit)
        → Type 0
    Ended start late ended_at none = ⊥
    Ended start late ended_at (some (t, r)) =
        (start.0 ++ t.taken ≡ concat t.batches ++ mpsc.contents t.queue)
        × ((length (mpsc.contents t.queue) ≤ length late)
            × ((t.world.1.files ≡ [])
                × ((v : D.State × ParquetStore) × (Wrote channel_of D calendar expected_rows encode
                        mpsc max_batch_rows start.1 t.batches v
                      × (t.world ≡ (close_all D calendar ended_at v).0)))))

    close-Ended :
        (start : Start channel_of D calendar expected_rows encode mpsc max_batch_rows)
        (late : List R) (ended_at : ℤ) (o : Option State)
        → Task? start o
        → Ended start late ended_at (
            after_drain channel_of D calendar expected_rows encode mpsc max_batch_rows late ended_at
              o)
    unfolding close_task
    close-Ended start late ended_at none h = h
    close-Ended start late ended_at (some t) h =
        go (close_all D calendar ended_at t'.world)
          (close_all_lem calendar D ended_at t'.world.0 t'.world.1 i.store.0) refl
      where
        t' : State
        t' = note_offers channel_of D calendar expected_rows encode mpsc max_batch_rows late t

        i : IsTask channel_of D calendar expected_rows encode mpsc max_batch_rows start t'
        i =
            note_offers-IsTask channel_of D calendar expected_rows encode mpsc max_batch_rows start
              late t h.0

        few : length (mpsc.contents t'.queue) ≤ length late
        few = omega (arith, queued_at_most late t, ap length h.1)

        go :
            (x : (D.State × ParquetStore) × Result WriteError Unit)
            → x.0.1.files ≡ []
            → close_all D calendar ended_at t'.world ≡ x
            → Ended start late ended_at (
                some
                  (closed_with channel_of D calendar expected_rows encode mpsc max_batch_rows t' x))
        go (world, ok y) e h = (i.kept, (few, (e, (t'.world, (i.worked, sym (ap (λ y. y.0) h))))))
        go (world, err y) e h = (i.kept, (few, (e, (t'.world, (i.worked, sym (ap (λ y. y.0) h))))))

    -- When `try_recv` fails on an empty queue alone, batches may have rows, a shutdown is among the
    -- events, and in the final drain more turns than the capacity come without an offer, `writer_task`
    -- returns, from a well-formed store and whatever calls of the disk fail: the records queued at the
    -- start and those accepted until it returns are those of its batches, in their order, and then
    -- those that are left in the queue, which are no more than were offered after the drain; it has
    -- called `write_grouped` with each batch in turn, between some rolls, and `close_all` after that;
    -- and no file is open.
    pub writer_task_lem :
        (events rest : List (TaskEvent R)) (busy : List (List R)) (n : ℕ) (late : List R)
        (now ended_at : ℤ) (t : State)
        → IsStore calendar t.world.1
        → t.taken ≡ []
        → t.batches ≡ []
        → mpsc.max_capacity < n
        → Ended
            (mpsc.contents t.queue, t.world)
            late
            ended_at
            (writer_task channel_of D calendar expected_rows encode mpsc max_batch_rows
              (events ++ (shut_down ∷ rest))
              (busy ++ quiet n)
              late
              now
              ended_at
              t)
    unfolding writer_task
    writer_task_lem events rest busy n late now ended_at t i none_taken no_batch h =
        let start : Start channel_of D calendar expected_rows encode mpsc max_batch_rows =
          (mpsc.contents t.queue, t.world) in
        let first : IsTask channel_of D calendar expected_rows encode mpsc max_batch_rows start t =
          record {
            store = i;
            worked =
                subst
                  (λ bs.
                    Wrote channel_of D calendar expected_rows encode mpsc max_batch_rows t.world bs
                      t.world)
                  (sym no_batch) nothing_yet;
            kept = rw (none_taken, no_batch) (append-nil start.0);
          } in
        go
          (task_loop channel_of D calendar expected_rows encode mpsc max_batch_rows
            (events ++ (shut_down ∷ rest)) t)
          (loop-broken channel_of D calendar expected_rows encode mpsc max_batch_rows events rest t)
          (loop-IsTask channel_of D calendar expected_rows encode mpsc max_batch_rows start
            (events ++ (shut_down ∷ rest)) t first)
      where
        go :
            (x : State × Bool)
            → x.1 ≡ false
            → IsTask channel_of D calendar expected_rows encode mpsc max_batch_rows
                (mpsc.contents t.queue, t.world)
                x.0
            → Ended
                (mpsc.contents t.queue, t.world)
                late
                ended_at
                (after_loop channel_of D calendar expected_rows encode mpsc max_batch_rows
                  (busy ++ quiet n)
                  late
                  now
                  ended_at
                  x)
        go (t', true) e i' = absurd (cc)
        go (t', false) e i' =
            close-Ended (mpsc.contents t.queue, t.world) late ended_at
              (drain_rest channel_of D calendar expected_rows encode mpsc max_batch_rows
                (busy ++ quiet n) now t')
              (drain_rest-Task busy n (mpsc.contents t.queue, t.world) now t' i' h)
