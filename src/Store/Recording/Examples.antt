-- ===== src/Store/Recording/Examples.antt =====
-- Two deltas recorded on a disk that never fails.
use kalshi_alpha.Prelude.{ℕ, refl, List, [], ◌∷◌, pos, Result}
use kalshi_alpha.Store.Channel.{orderbook_delta}
use kalshi_alpha.Store.Writer.Steps.{write_records}
use kalshi_alpha.Store.Writer.Examples.{good_disk, calendar, empty_store}
use kalshi_alpha.Store.Writer.Records.{Settled}
use kalshi_alpha.Store.Writer.{WriteError}
use kalshi_alpha.Store.Writer.Logged.{logged, LoggedWorld}
use kalshi_alpha.Store.Writer.Kept.{Taken}
use kalshi_alpha.Store.Encode.{Row}
use kalshi_alpha.Store.Encode.Batches.{expected_rows}
use kalshi_alpha.Store.Encode.Examples.{
  sample_json, accepts, accepts_complete, good_delta, good_delta-Ready,
}
use kalshi_alpha.Store.Recording.{encoder, record_lem}

abbrev size_of : List Row → ℕ
size_of rows = 64

abbrev recorded_run : LoggedWorld calendar good_disk × Result WriteError ℕ
recorded_run =
    write_records (logged good_disk) calendar (expected_rows sample_json)
      (encoder sample_json accepts size_of accepts_complete calendar good_disk) orderbook_delta
      (good_delta ∷ good_delta ∷ []) (pos 5) ((0, []), empty_store)

record_lem_example : Settled 0 0 0 2 2 recorded_run × Taken calendar good_disk [] 2 recorded_run
unfolding expected_rows
record_lem_example =
    record_lem sample_json accepts size_of accepts_complete calendar good_disk orderbook_delta
      good_delta (good_delta ∷ []) (pos 5) 0 [] empty_store tt (refl, tt)
      (good_delta-Ready, (good_delta-Ready, tt))
