-- ===== src/Daemon/Reconnecting.antt =====
-- The connection loop of `run_capture` in bin/capture.rs, over what its connections come to.
pub mod Waits
pub mod Examples
use kalshi_alpha.Prelude.{
  ℕ, ◌+◌, Bool, true, false, List, [], ◌∷◌, ◌++◌, if◌then◌else◌, Result, ok, err,
}
use kalshi_alpha.Ingest.Connection.{WsError}
use kalshi_alpha.Ingest.Backoff.{Jitter, Backoff, new_backoff, next_delay}

-- Whether a shutdown is found before the connection, how the connection ends, what `rand` draws for the wait, and whether a shutdown ends the wait.
pub record Attempt : Type 0 where
  pub notified : Bool
  pub outcome : Result WsError Unit
  pub drawn : ℕ
  pub shut_down : Bool

-- `delays` is no variable of the source: the waits so far.
pub record Reconnecting : Type 0 where
  pub backoff : Backoff
  pub reconnects : ℕ
  pub delays : List ℕ

abbrev pub after_loss : ℕ → Reconnecting → Reconnecting
after_loss drawn s = record {
  backoff = (next_delay s.backoff drawn).0;
  reconnects = s.reconnects + 1;
  delays = s.delays ++ ((next_delay s.backoff drawn).1 ∷ []);
}

abbrev pub on_outcome :
    (Reconnecting → Reconnecting) → Result WsError Unit → ℕ → Bool → Reconnecting → Reconnecting
on_outcome next (ok reason) drawn shut s = s
on_outcome next (err e) drawn true s = after_loss drawn s
on_outcome next (err e) drawn false s = next (after_loss drawn s)

unfoldable pub connection_loop : List Attempt → Reconnecting → Reconnecting
unfolding next_delay
connection_loop [] s = s
connection_loop (a ∷ attempts) s =
    let lived = on_outcome (λ s'. connection_loop attempts s') a.outcome a.drawn a.shut_down s in
    if a.notified then s else lived

-- The loop at its start.
abbrev pub not_connected : (initial max : ℕ) → Jitter → Reconnecting
not_connected initial max jitter = record {
  backoff = new_backoff initial max jitter;
  reconnects = 0;
  delays = [];
}
