-- ===== src/Host.antt =====
-- cmd/host/main.go: `serveWithReconnect`, which keeps the host registered with the relay.
use remotedesk.Prelude.{ℕ, ◌*◌, Bool, true, false, List, [], ◌∷◌, min}
pub mod Backoff
pub mod Command
mod Tests

abbrev pub min_backoff : ℕ
min_backoff = 1_000_000_000

abbrev pub max_backoff : ℕ
max_backoff = 30 * min_backoff

pub data Action : Type 0 where
  sleeps : ℕ → Action
  -- `ui.SetIdentity(h.ID, h.PIN)` and `h.Serve()`, until the connection is lost.
  serves : Action

-- The loop, on the outcomes of `tunnel.Connect`: whether each call succeeds.
pub serve_with_reconnect : ℕ → List Bool → List Action
serve_with_reconnect backoff [] = []
serve_with_reconnect backoff (true ∷ rest) = serves ∷ serve_with_reconnect min_backoff rest
serve_with_reconnect backoff (false ∷ rest) =
    sleeps backoff ∷ serve_with_reconnect (min (backoff * 2) max_backoff) rest
