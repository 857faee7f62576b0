-- ===== src/Relay/Consent.antt =====
-- `awaitConsent` and `resolve`. The wait is cut where the goroutine blocks: `await_consent` runs up
-- to the `select`, and `end_consent` is what follows it.
use remotedesk.Prelude.{
  ℕ, Bool, true, false, [], ◌∷◌, ◌++◌, Option, none, some, Bytes, set, lookup, insert, delete,
  get_elem?, length, if◌then◌else◌,
}
use remotedesk.Wire.{ControlMsg, Op}
use remotedesk.Relay.{HostReg, Server}
use remotedesk.Relay.Registry.{update_reg, send}
pub mod Effect
pub mod Answers
pub mod Replies

pub data Consent : Type 0 where
  granted denied : Consent
  waiting : ℕ → Consent

abbrev pub incoming_msg : Bytes → ControlMsg
incoming_msg session = record {
  op = Op.incoming;
  unattended = false;
  id = [];
  pin = [];
  session = session;
  from = [];
  error = [];
}

-- `delete(reg.pending, session)`
abbrev pub forget : Bytes → HostReg → HostReg
forget session reg = record reg { pending = delete session reg.pending }

-- `reg.pending[session] = result`
abbrev pub remember : Bytes → ℕ → HostReg → HostReg
remember session ch reg = record reg { pending = insert session ch reg.pending }

-- `result := make(chan bool, 1)` is the next index of `results`. `delivered`: `reg.send` succeeds.
unfoldable pub await_consent : Bool → ℕ → Bool → Bytes → Server → Server × Consent
unfolding send
await_consent delivered addr unattended session s =
    let ch = length s.results in
    let s' : Server = record s { results = s.results ++ (none ∷ []) } in
    if unattended
    then (s, granted)
    else if delivered
    then (
      update_reg addr (λ reg. send true (incoming_msg session) (remember session ch reg)) s',
      waiting ch,
    )
    else (update_reg addr (λ reg. forget session (remember session ch reg)) s', denied)

-- What ends the `select`.
pub data Wake : Type 0 where
  received timed_out : Wake

-- A receive is possible only while the channel holds a value, which it takes out. The deferred call
-- deletes the pending entry on both ways out.
receive : Option (Option Bool) → ℕ → Bytes → ℕ → Server → Option (Server × Bool)
receive none addr session ch s = none
receive (some none) addr session ch s = none
receive (some (some ok)) addr session ch s =
    some (update_reg addr (forget session) (record s { results = set s.results ch none }), ok)

unfoldable pub end_consent : Wake → ℕ → Bytes → ℕ → Server → Option (Server × Bool)
unfolding receive
end_consent timed_out addr session ch s = some (update_reg addr (forget session) s, false)
end_consent received addr session ch s = receive (get_elem? s.results ch) addr session ch s

-- `select { case ch <- ok: default: }` on a channel of capacity 1.
offer : Bool → Option (Option Bool) → ℕ → Server → Server
offer ok none ch s = s
offer ok (some none) ch s = record s { results = set s.results ch (some ok) }
offer ok (some (some old)) ch s = s

-- `if ch != nil`
offer_to : Option ℕ → Bool → Server → Server
unfolding offer
offer_to none ok s = s
offer_to (some ch) ok s = offer ok (get_elem? s.results ch) ch s

unfoldable pub resolve : HostReg → Bytes → Bool → Server → Server
unfolding offer_to
resolve reg session ok s = offer_to (lookup session reg.pending) ok s
