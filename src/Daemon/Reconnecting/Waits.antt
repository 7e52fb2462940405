-- ===== src/Daemon/Reconnecting/Waits.antt =====
-- The waits of the connection loop of bin/capture.rs grow from loss to loss.
use kalshi_alpha.Prelude.{ℕ, ◌≡◌, false, List, [], ◌∷◌, err}
use kalshi_alpha.Ingest.Connection.{WsError}
use kalshi_alpha.Daemon.Reconnecting.{Attempt, Reconnecting}

-- The attempt ends in an error, and no shutdown ends its wait.
-- A connection that is lost, with no shutdown before it or in the wait behind it.
abbrev pub IsLost : Attempt → Type 0
IsLost a = ((e : WsError) × (a.outcome ≡ err e)) × ((a.shut_down ≡ false) × (a.notified ≡ false))

drawn_of : List Attempt → List ℕ
drawn_of [] = []
drawn_of (a ∷ attempts) = a.drawn ∷ drawn_of attempts
