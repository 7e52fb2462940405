-- ===== src/Lib.antt =====
-- Verification of kalshi-alpha, a recorder of an exchange's market data.
--
-- The program. `crates/common` has exact fixed-point values: decimal text to scaled integers and back
-- (`parse.rs`), prices in micro-dollars (`px.rs`), quantities in hundredths (`qty.rs`), their products
-- (`notional.rs`), tickers that name directories (`ticker.rs`) and the tick grids of markets
-- (`ranges.rs`). `crates/ingest` receives the exchange's streams: `book.rs` keeps the book of a market
-- from snapshots and sequenced deltas, `ws.rs` keeps the sequence stream of each subscription and
-- decides how to recover one, and `rest.rs` limits the rate of requests, retries them, finds the
-- markets and keeps a registry of them. `crates/store` writes what was received to Parquet files by
-- channel and date (`writer.rs`), with the record of the session beside them (`session.rs`). The
-- daemon of `bin/capture.rs` runs a connection, which subscribes to the markets and puts what it
-- receives into a bounded queue (`sink.rs`), a task that takes batches from the queue to the writer,
-- and a task that asks for the list of markets from time to time and hands the new ones to the
-- connection. A connection that is lost is opened again after a wait.
--
-- The files.
--   Prelude          integers with the `i64` and `i128` operations of the source, `Result`, `Exec` for
--                    code that may panic, texts as lists of code points, lists and Boolean tests.
--   Common.Parse     crates/common/src/parse.rs: `parse_scaled`, `format_scaled`. Grammar says which
--                    texts denote which values; Accept and RoundTrip compare the code with it.
--   Common.Px, Common.Qty, Common.Notional, Common.Ticker, Common.Ranges
--                    the files of crates/common/src with those names.
--   Ingest.Book      crates/ingest/src/book.rs. Levels is the `BTreeMap` of a side as a sorted list,
--                    Pricing the convention that is a type parameter, Types the data. Snapshot is about
--                    `apply_snapshot`, Gaps and Runs about `receive_delta`, Invariants about
--                    `check_invariants`; View has the derived prices, AnyBook either convention.
--   Ingest.Subscription, Ingest.Registry
--                    crates/ingest/src/ws.rs: `SubscriptionState`, `SubscriptionRegistry`,
--                    `RecoveryMethod`, `recovery_for_error`; `ErrorBody` of crates/ingest/src/wire.rs.
--   Ingest.Limiter   crates/ingest/src/rest.rs: `Bucket`, and a turn of `RateLimiter::acquire`.
--   Ingest.Markets   crates/ingest/src/rest.rs: `MarketRegistry`; Reconcile is about `reconcile`.
--   Ingest.Client    crates/ingest/src/rest.rs: `RestClient::get_json` (Retry), `discover_markets`
--                    (Discovery), `signing_prefix_from` and `truncate` (Urls). Doubling has the waits.
--   Ingest.Backoff   crates/ingest/src/ws.rs: `Backoff`.
--   Ingest.Connection
--                    crates/ingest/src/ws.rs: `PricingConvention`, `Command` and `Connection`.
--                    Commands says what a connection has sent.
--   Ingest.Wire      crates/ingest/src/wire.rs.
--   Ingest.Auth      crates/ingest/src/auth.rs; Query is about the text that is signed.
--   Store.Channel, Store.Session
--                    `Channel` of crates/store/src/schema.rs, and crates/store/src/session.rs.
--   Store.Writer     crates/store/src/writer.rs: its state and pure functions; Steps has the
--                    operations that call a Disk. Runs is about every order of them, Closing about
--                    `roll_due_files` and `close_all`, Records about `write_batch` and `write_records`;
--                    Logged has a disk that keeps its calls, and Kept compares them with the store.
--   Store.Schema, Store.Encode
--                    crates/store/src/schema.rs and crates/store/src/encode.rs: Rows has the loop
--                    bodies, Batches `encode` and `expected_rows`, Conforming fits rows to schemas.
--                    Store.Recording joins the encoder to the writer.
--   Store.Sink       crates/store/src/sink.rs: the queue in front of the writer.
--   Store.GridHistory
--                    crates/store/src/grid_history.rs.
--   Store.Quarantine crates/store/src/quarantine.rs; Complete is about `inspect`, Candidates about
--                    the files that are inspected, Moves about the scan.
--   Daemon.Config, Daemon.Startup
--                    bin/capture.rs: the configuration, and `run_capture` up to the REST client.
--   Daemon.Subscribing
--                    bin/capture.rs: `markets_needing_subscription`, `subscribe_markets`.
--   Daemon.Capture   bin/capture.rs: `run_connection`. Sound is about the subscriptions and the books,
--                    Described about the records made of the frames, Received about the queue.
--   Daemon.Grouping, Daemon.Writing
--                    bin/capture.rs: `write_grouped`, which takes a batch to the writer, and
--                    `writer_task`, which takes the batches from the queue.
--   Daemon.Reconciling, Daemon.Reconnecting
--                    bin/capture.rs: `reconcile_task`, and the connection loop of `run_capture`.
--                    Subscribed joins `reconcile_task` to `run_connection`.
--
-- State and operations. A method that changes its object takes the record and returns the new one.
-- Code that may panic returns `Exec`: `last + 1` at the greatest `u64`, `%` by a step of 0, and
-- `apply_delta`, whose body is `todo!()`; theorems on `receive_delta_with` hold for every function
-- in its place. An asynchronous task takes the list of the events that its `select!` sees, in any
-- order; what a theorem must remember of a task and the source does not keep is a field of its
-- state that no operation reads: `sent` of a connection and of the reconciler, `taken` and
-- `batches` of the writer task, `delays` of the connection loop. Hash maps are lists of entries,
-- and theorems look entries up by key. What is not code of the repository is a parameter: the file
-- system and Parquet as a `Disk` that answers each call with success or failure, HTTP as a
-- `Network`, `serde_json`, `chrono` and tokio's channel as records of functions, and Arrow as a
-- test of the rows of a batch. A step that fails keeps what was done before it.
-- Where a theorem is about what such a call has done, the parameter is wrapped in one that keeps its
-- calls. The groups of a batch are taken in the order in which their channels came, where the hash map
-- of the source may take any.
--
-- Bounds and fuel. Prices, quantities and tokens are integers with the `i64` tests of the source
-- written out; counters of events are unbounded. The printer of decimal numbers has the number itself
-- as fuel, which its proofs show to be enough. Paging has the number of pages of a status as fuel, and
-- is shown to end below it where the cursors of the exchange run out. The final drain of `writer_task`
-- goes on while it has a list of the offers that come before its next turn, and is shown to end when
-- more turns than the capacity of the queue come without one. All else is structural recursion.
--
-- Not modelled: sockets, HTTP, files, RSA, serde, Parquet, log lines and the asynchronous runtime,
-- which are third-party code or I/O; the calls by which the REST client adopts the limits of the
-- account; the heartbeat, metrics and signal tasks, the spawning and joining of tasks, and the
-- probes of `bin/subcommands.rs`.
pub mod Prelude
pub mod Common
pub mod Ingest
pub mod Store
pub mod Daemon
