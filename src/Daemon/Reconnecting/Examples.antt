-- ===== src/Daemon/Reconnecting/Examples.antt =====
-- Two connections that are lost, at a first wait of half a second.
use kalshi_alpha.Prelude.{true, false, List, [], ◌∷◌, err}
use kalshi_alpha.Ingest.Connection.{WsError}
use kalshi_alpha.Ingest.Backoff.{Jitter}
use kalshi_alpha.Daemon.Reconnecting.{Attempt}

abbrev lost_twice : List Attempt
lost_twice =
    record { notified = false; outcome = err WsError.transport; drawn = 3; shut_down = false }
    ∷ record {
      notified = false;
      outcome = err (WsError.idle_timeout 35);
      drawn = 9;
      shut_down = false;
    }
    ∷ []

abbrev jitter : Jitter
jitter = record { is_positive = true; spread = λ n. 5 }
