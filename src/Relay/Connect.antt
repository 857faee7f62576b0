-- ===== src/Relay/Connect.antt =====
-- `serveConnect`: validate a viewer's request, get the host's consent, splice. The goroutine is cut
-- at the wait for consent.
use remotedesk.Prelude.{
  ℕ, Bool, true, false, List, [], ◌∷◌, ◌++◌, Option, none, some, Bytes, codes, set, lookup,
  get_elem?, if◌then◌else◌,
}
use remotedesk.Id.{Rand, new_id}
use remotedesk.Wire.{ControlMsg, ConnectRequest, Op}
use remotedesk.Relay.{HostReg, Server}
use remotedesk.Relay.Auth.{AuthResult, auth_ok, auth_bad_pin, auth_locked, authenticate}
use remotedesk.Relay.Registry.{update_reg, send}
use remotedesk.Relay.Consent.{Consent, granted, denied, waiting, await_consent}
pub mod Effect
pub mod Admission
pub mod Answers
pub mod Knocks
pub mod Episode

-- The reasons of `newCh.Reject`.
pub data Rejection : Type 0 where
  bad_request no_such_host too_many_attempts invalid_pin rejected_by_host : Rejection

-- Where a viewer's goroutine stands.
pub data Viewer : Type 0 where
  rejected : Rejection → Viewer
  awaits : ℕ → Bytes → ℕ → Viewer
  consented : ℕ → Bytes → Viewer
  bridged : ℕ → Bytes → Viewer
  gave_up : Viewer

-- What the environment decides in one call: the clock, the random numbers of the session's ID, and
-- whether the host's control channel takes an alert and a request.
pub record Env : Type 0 where
  pub now : ℕ
  pub trip : ℕ
  pub session_draw : Rand
  pub alert_delivered : Bool
  pub request_delivered : Bool

abbrev pub alert_text : Bytes
alert_text =
    codes "multiple failed connection attempts detected; new attempts are temporarily blocked"

abbrev pub alert_msg : Bytes → ControlMsg
alert_msg text = record {
  op = Op.alert;
  unattended = false;
  id = [];
  pin = [];
  session = [];
  from = [];
  error = text;
}

-- `none` is a panic, which ends the whole process: `rand.Int` failed, or a pointer dangles (which
-- `Relay.System` excludes).
abbrev pub Outcome : Type 0
Outcome = Option (Server × Viewer)

abbrev of_consent : ℕ → Bytes → Consent → Viewer
of_consent addr session granted = consented addr session
of_consent addr session denied = rejected rejected_by_host
of_consent addr session (waiting ch) = awaits addr session ch

-- The case `authOK`: a session ID, and the host's consent.
ask_for : Env → ℕ → HostReg → Option Bytes → Server → Outcome
ask_for env addr reg none s = none
ask_for env addr reg (some session) s =
    let (s', consent) = await_consent env.request_delivered addr reg.unattended session s in
    some (s', of_consent addr session consent)

ask_host : Env → ℕ → HostReg → Server → Outcome
unfolding ask_for
ask_host env addr reg s = ask_for env addr reg (new_id env.session_draw) s

-- The `switch` on the outcome of the PIN check.
on_auth : Env → ℕ → HostReg → AuthResult → Bool → Server → Outcome
unfolding ask_host
on_auth env addr reg auth_ok just_locked s = ask_host env addr reg s
on_auth env addr reg auth_locked true s = some (
  update_reg addr (send env.alert_delivered (alert_msg alert_text)) s,
  rejected too_many_attempts,
)
on_auth env addr reg auth_locked false s = some (s, rejected too_many_attempts)
on_auth env addr reg auth_bad_pin just_locked s = some (s, rejected invalid_pin)

-- `authenticate` writes to the registration that `lookup` found.
check_pin : Env → ℕ → HostReg → Bytes → Server → Outcome
unfolding on_auth
check_pin env addr reg pin s =
    let (reg', res, just_locked) = authenticate s.limits env.now env.trip reg pin in
    on_auth env addr reg' res just_locked (record s { regs = set s.regs addr reg' })

on_reg : Env → Bytes → ℕ → Option HostReg → Server → Outcome
unfolding check_pin
on_reg env pin addr none s = none
on_reg env pin addr (some reg) s = check_pin env addr reg pin s

-- `if reg == nil`
on_host : Env → Bytes → Option ℕ → Server → Outcome
unfolding on_reg
on_host env pin none s = some (s, rejected no_such_host)
on_host env pin (some addr) s = on_reg env pin addr (get_elem? s.regs addr) s

-- Up to the wait for the host. The request is `none` where `json.Unmarshal` refuses it.
unfoldable pub serve_connect : Env → Option ConnectRequest → Server → Outcome
unfolding on_host
serve_connect env none s = some (s, rejected bad_request)
serve_connect env (some req) s = on_host env req.pin (lookup req.id s.hosts) s

-- After the wait.
unfoldable pub after_consent : ℕ → Bytes → Bool → Viewer
after_consent addr session true = consented addr session
after_consent addr session false = rejected rejected_by_host

-- `newCh.Accept` and `reg.conn.OpenChannel` may fail; otherwise the two channels are spliced.
unfoldable pub open_bridge : Bool → Bool → ℕ → Bytes → Viewer
open_bridge accepted opened addr session =
    if accepted then (if opened then bridged addr session else gave_up) else gave_up
