-- ===== src/Daemon/Writing/Examples.antt =====
-- A writer whose queue holds one record: it rolls, takes a batch, and stops with
-- records queued and more that come while it ends.
use kalshi_alpha.Prelude.{ℕ, ◌≡◌, refl, none, some, Option, List, [], ◌∷◌, ◌++◌, arith, pos}
use kalshi_alpha.Store.Channel.{Channel, trade, ticker}
use kalshi_alpha.Store.Sink.Examples.{slot}
use kalshi_alpha.Store.Writer.{stats}
use kalshi_alpha.Store.Writer.Examples.{disk, calendar, empty_store}
use kalshi_alpha.Daemon.Examples.{channel_of, count_rows, encoded}
use kalshi_alpha.Daemon.Writing.{TaskEvent, shut_down, tick, received, offered, Task, writer_task}
use kalshi_alpha.Daemon.Writing.Ending.{quiet, Ended, writer_task_lem}

abbrev before : List (TaskEvent (Channel × ℕ))
before = tick (pos 3) ∷ received (pos 4) ∷ offered (ticker, 2) ∷ offered (trade, 3) ∷ []

abbrev task_of : (n : ℕ) → Task channel_of disk calendar count_rows encoded slot n
task_of n = record {
  world = (0, empty_store);
  queue = some (trade, 1);
  shared = unfold stats in stats empty_store;
  taken = [];
  batches = [];
}

never_spurious : (q : Option (Channel × ℕ)) → (slot.try_recv q).1 ≡ none → slot.contents q ≡ []
never_spurious none h = refl
never_spurious (some r) h = absurd (cc)

writer_task_lem_example :
    Ended channel_of disk calendar count_rows encoded slot 4 never_spurious
      (omega arith)
      ((trade, 1) ∷ [], (0, empty_store))
      ((ticker, 6) ∷ [])
      (pos 6)
      (writer_task channel_of disk calendar count_rows encoded slot 4
        (before ++ (shut_down ∷ offered (trade, 4) ∷ []))
        ((((trade, 5) ∷ []) ∷ []) ++ quiet 2)
        ((ticker, 6) ∷ [])
        (pos 5)
        (pos 6)
        (task_of 4))
writer_task_lem_example =
    writer_task_lem channel_of disk calendar count_rows encoded slot 4 never_spurious (omega arith)
      before (offered (trade, 4) ∷ []) (((trade, 5) ∷ []) ∷ []) 2 ((ticker, 6) ∷ []) (pos 5) (pos 6)
      (task_of 4) (tt, (tt, omega arith)) refl refl (omega arith)
