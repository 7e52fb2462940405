-- ===== src/Daemon/Writing/Drained.antt =====
-- The loop of `writer_task` of bin/capture.rs hands on what the queue accepted, in order.
use kalshi_alpha.Prelude.{
  ℕ, ◌-◌, ◌≡◌, refl, sym, ap, ◌∙◌, Bool, true, false, Option, none, some, List, [], ◌∷◌, ◌++◌,
  append-nil, append_assoc, Result, ℤ,
}
use kalshi_alpha.Prelude.Text.{Text}
use kalshi_alpha.Store.Channel.{Channel}
use kalshi_alpha.Store.Session.{Calendar}
use kalshi_alpha.Store.Disk.{Disk}
use kalshi_alpha.Store.Sink.{Sent, accepted, full, closed, Mpsc, SendLaw, RecvLaw, drain}
use kalshi_alpha.Store.Sink.Queue.{drain_lem}
use kalshi_alpha.Store.Writer.{ParquetStore}
use kalshi_alpha.Store.Writer.Steps.{next, roll_due_files, due}
use kalshi_alpha.Store.Writer.Invariant.{Ends, next-Ends, IsStore}
use kalshi_alpha.Store.Writer.Runs.{Ends-both, write_records-IsStore, close_each-IsStore}
use kalshi_alpha.Daemon.Grouping.{group_by_channel, write_groups, write_grouped}
use kalshi_alpha.Daemon.Writing.{
  TaskEvent, shut_down, tick, received, offered, Task, write_batch_of, on_received, note_offer,
  task_turn, while_on, task_loop, note_offers,
}

abbrev pub concat {ℓ} : {A : Type ℓ} → List (List A) → List A
concat [] = []
concat (xs ∷ xss) = xs ++ concat xss

concat-last {ℓ} :
    {A : Type ℓ} (xss : List (List A)) (xs : List A) → concat (xss ++ (xs ∷ [])) ≡ concat xss ++ xs
concat-last [] xs = append-nil xs
concat-last (ys ∷ xss) xs =
    ap (λ l. ys ++ l) (concat-last xss xs) ∙ sym (append_assoc ys (concat xss) xs)

module _ {R : Type 0} (channel_of : R → Channel) (D : Disk) (calendar : Calendar)
    (expected_rows : Channel → List R → ℕ)
    (encode : Channel → Text → List R → Result Unit (Option (ℕ × ℕ))) (mpsc : Mpsc R)
    (max_batch_rows : ℕ) where
  abbrev pub State : Type 0
  State = Task channel_of D calendar expected_rows encode mpsc max_batch_rows

  write_groups-IsStore :
      (groups : List (Channel × List R)) (now : ℤ) (d : D.State) (s : ParquetStore)
      → IsStore calendar s
      → Ends
          (IsStore calendar)
          (λ t. Unit)
          (write_groups channel_of D calendar expected_rows encode groups now (d, s))
  unfolding write_groups
  write_groups-IsStore [] now d s i = (i, tt)
  write_groups-IsStore ((channel, group) ∷ groups) now d s i =
      next-Ends (IsStore calendar) (λ t. Unit) (λ t. Unit) _ _
        (write_records-IsStore calendar D expected_rows encode channel group now d s i)
        λ _ d' s' i' _. write_groups-IsStore groups now d' s' i'

  abbrev World : Type 0
  World = D.State × ParquetStore

  -- What is queued at the start, and the disk and the store.
  abbrev pub Start : Type 0
  Start = List R × World

  -- Between some calls of `roll_due_files`, `write_grouped` was called with each of the batches.
  pub data Wrote (first : World) : List (List R) → World → Type 0 where
    nothing_yet : Wrote first [] first
    wrote :
        {batches : List (List R)} {w : World} (batch : List R) (now : ℤ)
        → Wrote first batches w
        → Wrote first
            (batches ++ (batch ∷ []))
            (write_grouped channel_of D calendar expected_rows encode batch now w).0
    rolled :
        {batches : List (List R)} {w : World} (now : ℤ)
        → Wrote first batches w
        → Wrote first batches (roll_due_files D calendar now w).0

  -- The store is well formed, its batches were written, and what was accepted is what was given to
  -- `write_grouped` and then what is queued, behind what was queued at the start.
  pub record IsTask (start : Start) (t : State) : Type 0 where
    pub store : IsStore calendar t.world.1
    pub worked : Wrote start.1 t.batches t.world
    pub kept : start.0 ++ t.taken ≡ concat t.batches ++ mpsc.contents t.queue

  pub write_batch_of-IsTask :
      (start : Start) (batch : List R) (now : ℤ) (t : State) (q : mpsc.State)
      → IsTask start t
      → mpsc.contents t.queue ≡ batch ++ mpsc.contents q
      → IsTask start (
          write_batch_of channel_of D calendar expected_rows encode mpsc max_batch_rows batch now
            (record t { queue = q }))
  unfolding write_batch_of write_grouped
  write_batch_of-IsTask start batch now t q i e = record {
    store =
        Ends-both (IsStore calendar) (λ s. Unit)
          (write_grouped channel_of D calendar expected_rows encode batch now t.world)
          (write_groups-IsStore (group_by_channel channel_of batch []) now t.world.0 t.world.1
            i.store);
    worked = wrote batch now i.worked;
    kept =
        i.kept
        ∙ ap (λ l. concat t.batches ++ l) e
        ∙ sym (append_assoc (concat t.batches) batch (mpsc.contents q))
        ∙ ap (λ l. l ++ mpsc.contents q) (sym (concat-last t.batches batch));
  }

  pub moved-IsTask :
      (start : Start) (t : State) (q : mpsc.State)
      → IsTask start t
      → mpsc.contents q ≡ mpsc.contents t.queue
      → IsTask start (record t { queue = q })
  moved-IsTask start t q i e = record { store = i.store; worked = i.worked; kept = rw e i.kept }

  received-IsTask :
      (start : Start) (now : ℤ) (t : State) (x : mpsc.State × Option R)
      → IsTask start t
      → RecvLaw (mpsc.contents t.queue) (mpsc.contents x.0) x.1
      → IsTask start
          (on_received channel_of D calendar expected_rows encode mpsc max_batch_rows now t x).0
  received-IsTask start now t (q, none) i h = moved-IsTask start t q i h
  received-IsTask start now t (q, some r) i h =
      write_batch_of-IsTask start (r ∷ (drain mpsc (max_batch_rows - 1) q).1) now t
        (drain mpsc (max_batch_rows - 1) q).0 i
        (h ∙ ap (λ l. r ∷ l) (drain_lem mpsc (max_batch_rows - 1) q))

  offered-IsTask :
      (start : Start) (r : R) (t : State) (x : mpsc.State × Sent)
      → IsTask start t
      → SendLaw (mpsc.contents t.queue) r (mpsc.contents x.0) x.1
      → IsTask start
          (note_offer channel_of D calendar expected_rows encode mpsc max_batch_rows r t x)
  offered-IsTask start r t (q, full) i h = moved-IsTask start t q i h
  offered-IsTask start r t (q, closed) i h = moved-IsTask start t q i h
  offered-IsTask start r t (q, accepted) i h = record {
    store = i.store;
    worked = i.worked;
    kept =
        sym (append_assoc start.0 t.taken (r ∷ []))
        ∙ ap (λ l. l ++ (r ∷ [])) i.kept
        ∙ append_assoc (concat t.batches) (mpsc.contents t.queue) (r ∷ [])
        ∙ ap (λ l. concat t.batches ++ l) (sym h);
  }

  turn-IsTask :
      (start : Start) (e : TaskEvent R) (t : State)
      → IsTask start t
      → IsTask start
          (task_turn channel_of D calendar expected_rows encode mpsc max_batch_rows e t).0
  unfolding task_turn roll_due_files
  turn-IsTask start shut_down t i = i
  turn-IsTask start (tick now) t i = record {
    store =
        Ends-both (IsStore calendar) (λ s. Unit) (roll_due_files D calendar now t.world)
          (next-Ends (IsStore calendar) (λ s. Unit) (λ s. Unit) _ _
            (close_each-IsStore calendar D (due D calendar t.world.1.config now t.world.1.files)
              t.world.0 t.world.1 i.store)
            λ _ d' s' i' _. (i', tt));
    worked = rolled now i.worked;
    kept = i.kept;
  }
  turn-IsTask start (received now) t i =
      received-IsTask start now t (mpsc.try_recv t.queue) i (mpsc.recv_law t.queue)
  turn-IsTask start (offered r) t i =
      offered-IsTask start r t (mpsc.try_send t.queue r) i (mpsc.send_law t.queue r)

  pub note_offers-IsTask :
      (start : Start) (rs : List R) (t : State)
      → IsTask start t
      → IsTask start
          (note_offers channel_of D calendar expected_rows encode mpsc max_batch_rows rs t)
  note_offers-IsTask start [] t i = i
  note_offers-IsTask start (r ∷ rs) t i =
      note_offers-IsTask start rs
        (note_offer channel_of D calendar expected_rows encode mpsc max_batch_rows r t
          (mpsc.try_send t.queue r))
        (offered-IsTask start r t (mpsc.try_send t.queue r) i (mpsc.send_law t.queue r))

  while-IsTask :
      (start : Start) (next : State → State × Bool) (x : State × Bool)
      → IsTask start x.0
      → ((t : State) → IsTask start t → IsTask start (next t).0)
      → IsTask start
          (while_on channel_of D calendar expected_rows encode mpsc max_batch_rows next x).0
  while-IsTask start next (t, true) i k = k t i
  while-IsTask start next (t, false) i k = i

  pub loop-IsTask :
      (start : Start) (es : List (TaskEvent R)) (t : State)
      → IsTask start t
      → IsTask start
          (task_loop channel_of D calendar expected_rows encode mpsc max_batch_rows es t).0
  unfolding task_loop
  loop-IsTask start [] t i = i
  loop-IsTask start (e ∷ es) t i =
      while-IsTask start
        (λ t'. task_loop channel_of D calendar expected_rows encode mpsc max_batch_rows es t')
        (task_turn channel_of D calendar expected_rows encode mpsc max_batch_rows e t)
        (turn-IsTask start e t i) (λ t' i'. loop-IsTask start es t' i')

  while-broken :
      (next : State → State × Bool) (x : State × Bool)
      → ((t : State) → (next t).1 ≡ false)
      → (while_on channel_of D calendar expected_rows encode mpsc max_batch_rows next x).1 ≡ false
  while-broken next (t, true) k = k t
  while-broken next (t, false) k = refl

  -- A shutdown breaks the loop, where nothing before it has.
  pub loop-broken :
      (es rest : List (TaskEvent R)) (t : State)
      → (task_loop channel_of D calendar expected_rows encode mpsc max_batch_rows
          (es ++ (shut_down ∷ rest))
          t).1
        ≡ false
  unfolding task_loop task_turn
  loop-broken [] rest t = refl
  loop-broken (e ∷ es) rest t =
      while-broken
        (λ t'.
          task_loop channel_of D calendar expected_rows encode mpsc max_batch_rows
            (es ++ (shut_down ∷ rest)) t')
        (task_turn channel_of D calendar expected_rows encode mpsc max_batch_rows e t)
        (λ t'. loop-broken es rest t')
