-- ===== src/Relay/Accept.antt =====
-- `Serve`: the accept loop with its backoff and its cap on concurrent connections. What
-- `ln.Accept` returns, and the connections that end meanwhile, are a list of events.
use remotedesk.Prelude.{
  ℕ, zero, suc, ◌-◌, ◌*◌, Bool, true, false, List, [], ◌∷◌, ltb, ◌==◌, if◌then◌else◌,
}
use remotedesk.Relay.{Limits, second}
pub mod Backoff
pub mod Cap

pub data Arrival : Type 0 where
  -- `ln.Accept` returns a connection, a transient error, or `net.ErrClosed`.
  accepted failed closed : Arrival
  -- A goroutine of `handleConn` ends, and its deferred receive frees a slot of `sem`.
  finished : Arrival

-- `tempDelay` and the number of values in `sem`.
pub record Acceptor : Type 0 where
  pub temp_delay : ℕ
  pub active : ℕ

pub data Action : Type 0 where
  serves drops frees : Action
  sleeps : ℕ → Action

abbrev pub millisecond : ℕ
millisecond = 1_000_000

backoff : ℕ → ℕ
backoff temp_delay =
    let d = if temp_delay == 0 then 5 * millisecond else temp_delay * 2 in
    if ltb second d then second else d

-- One event while the loop runs; `none` of `serve` below is where it returns.
unfoldable pub accept_step : Limits → Arrival → Acceptor → Acceptor × Action
unfolding backoff
accept_step s accepted st =
    if ltb st.active s.max_conns
    then (record st { temp_delay = 0; active = suc st.active }, serves)
    else (record st { temp_delay = 0 }, drops)
accept_step s failed st = let d = backoff st.temp_delay in (record st { temp_delay = d }, sleeps d)
accept_step s closed st = (st, frees)
accept_step s finished st = (record st { active = st.active - 1 }, frees)

-- The loop ends at `closed`; what comes after it is not seen.
unfoldable pub serve : Limits → Acceptor → List Arrival → Acceptor × List Action
serve s st [] = (st, [])
serve s st (closed ∷ rest) = (st, [])
serve s st (a ∷ rest) =
    let (st', act) = accept_step s a st in let (last, acts) = serve s st' rest in (last, act ∷ acts)

abbrev pub idle : Acceptor
idle = record { temp_delay = 0; active = 0 }
