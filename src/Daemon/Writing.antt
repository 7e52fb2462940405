-- ===== src/Daemon/Writing.antt =====
-- `writer_task` of bin/capture.rs. What its `select!` sees is a list of events, among which stand the
-- offers of the read loop, which come between its turns; a task whose events are used up still waits.
-- The loop that drains the queue at the end has a list of the offers that come before each of its
-- turns, and still runs when that is used up; more offers may come before the task returns.
pub mod Drained
pub mod Ending
pub mod Examples
use kalshi_alpha.Prelude.{
  ℕ, zero, suc, ◌-◌, Bool, true, false, Option, none, some, List, [], ◌∷◌, ◌++◌, Result, ok, err, ℤ,
}
use kalshi_alpha.Prelude.Text.{Text}
use kalshi_alpha.Store.Channel.{Channel}
use kalshi_alpha.Store.Session.{Calendar}
use kalshi_alpha.Store.Disk.{Disk}
use kalshi_alpha.Store.Sink.{Sent, accepted, full, closed, Mpsc, drain}
use kalshi_alpha.Store.Writer.{WriteError, ParquetStore, StoreStats, stats}
use kalshi_alpha.Store.Writer.Steps.{roll_due_files, close_all}
use kalshi_alpha.Daemon.Grouping.{write_grouped}

-- A shutdown that the task sees, a tick of the interval, a `recv` that completes, and an offer. On an
-- empty queue `recv` completes when the channel is closed alone.
pub data TaskEvent (R : Type 0) : Type 0 where
  shut_down : TaskEvent R
  tick : (now : ℤ) → TaskEvent R
  received : (now : ℤ) → TaskEvent R
  offered : (r : R) → TaskEvent R

module _ {R : Type 0} (channel_of : R → Channel) (D : Disk) (calendar : Calendar)
    (expected_rows : Channel → List R → ℕ)
    (encode : Channel → Text → List R → Result Unit (Option (ℕ × ℕ))) (mpsc : Mpsc R)
    (max_batch_rows : ℕ) where
  -- `taken` and `batches` are no variables of the source: the records that the queue accepted and
  -- the batches given to `write_grouped`, for the theorems.
  pub record Task : Type 0 where
    pub world : D.State × ParquetStore
    pub queue : mpsc.State
    pub shared : StoreStats
    pub taken : List R
    pub batches : List (List R)

  -- A batch is written, and its error is logged.
  unfoldable pub write_batch_of : List R → ℤ → Task → Task
  unfolding write_grouped
  write_batch_of batch now t = record t {
    world = (write_grouped channel_of D calendar expected_rows encode batch now t.world).0;
    batches = t.batches ++ (batch ∷ []);
  }

  -- `true` when the loop goes on.
  abbrev pub on_received : ℤ → Task → mpsc.State × Option R → Task × Bool
  on_received now t (q, none) = (record t { queue = q }, false)
  on_received now t (q, some r) =
      let (q', more) = drain mpsc (max_batch_rows - 1) q in
      (write_batch_of (r ∷ more) now (record t { queue = q' }), true)

  abbrev pub note_offer : R → Task → mpsc.State × Sent → Task
  note_offer r t (q, accepted) = record t { queue = q; taken = t.taken ++ (r ∷ []) }
  note_offer r t (q, full) = record t { queue = q }
  note_offer r t (q, closed) = record t { queue = q }

  unfoldable pub task_turn : TaskEvent R → Task → Task × Bool
  unfolding write_batch_of roll_due_files drain stats
  task_turn shut_down t = (t, false)
  task_turn (tick now) t =
      let world = (roll_due_files D calendar now t.world).0 in
      (record t { world = world; shared = stats world.1 }, true)
  task_turn (received now) t = on_received now t (mpsc.try_recv t.queue)
  task_turn (offered r) t = (note_offer r t (mpsc.try_send t.queue r), true)

  abbrev pub while_on : (Task → Task × Bool) → Task × Bool → Task × Bool
  while_on next (t, true) = next t
  while_on next (t, false) = (t, false)

  -- `true` when the loop still waits for an event.
  unfoldable pub task_loop : List (TaskEvent R) → Task → Task × Bool
  unfolding task_turn
  task_loop [] t = (t, true)
  task_loop (e ∷ es) t = while_on (λ t'. task_loop es t') (task_turn e t)

  abbrev pub note_offers : List R → Task → Task
  note_offers [] t = t
  note_offers (r ∷ rs) t = note_offers rs (note_offer r t (mpsc.try_send t.queue r))

  -- The loop that drains what is queued: it has ended when a drain is empty.
  abbrev pub on_drained : ℤ → (Task → Option Task) → Task → mpsc.State × List R → Option Task
  on_drained now next t (q, []) = some (record t { queue = q })
  on_drained now next t (q, r ∷ rs) = next (write_batch_of (r ∷ rs) now (record t { queue = q }))

  abbrev drain_turn : ℤ → (Task → Option Task) → Task → Option Task
  drain_turn now next t = on_drained now next t (drain mpsc max_batch_rows t.queue)

  unfoldable pub drain_rest : List (List R) → ℤ → Task → Option Task
  unfolding write_batch_of drain
  drain_rest [] now t = none
  drain_rest (offers ∷ later) now t =
      drain_turn now (λ t'. drain_rest later now t') (note_offers offers t)

  abbrev pub closed_with :
      Task → (D.State × ParquetStore) × Result WriteError Unit → Task × Result WriteError Unit
  closed_with t (world, ok _) = (record t { world = world; shared = stats world.1 }, ok tt)
  closed_with t (world, err e) = (record t { world = world }, err e)

  -- Every open file is closed, and the statistics are shared where that succeeds.
  unfoldable pub close_task : ℤ → Task → Task × Result WriteError Unit
  unfolding close_all stats
  close_task ended_at t = closed_with t (close_all D calendar ended_at t.world)

  abbrev pub after_drain : List R → ℤ → Option Task → Option (Task × Result WriteError Unit)
  after_drain late ended_at none = none
  after_drain late ended_at (some t) = some (close_task ended_at (note_offers late t))

  abbrev pub after_loop :
      List (List R)
      → List R
      → (now ended_at : ℤ) → Task × Bool
      → Option (Task × Result WriteError Unit)
  after_loop arrivals late now ended_at (t, true) = none
  after_loop arrivals late now ended_at (t, false) =
      after_drain late ended_at (drain_rest arrivals now t)

  -- `none` while the task has not returned.
  unfoldable pub writer_task :
      List (TaskEvent R)
      → List (List R)
      → List R
      → (now ended_at : ℤ) → Task
      → Option (Task × Result WriteError Unit)
  unfolding task_loop drain_rest close_task
  writer_task events arrivals late now ended_at t =
      after_loop arrivals late now ended_at (task_loop events t)
