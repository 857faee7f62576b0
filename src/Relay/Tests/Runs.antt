-- ===== src/Relay/Tests/Runs.antt =====
-- A run of the relay: a host registers, a viewer asks for it, and the host accepts.
use remotedesk.Prelude.{
  ◌≡◌, refl, true, false, [], ◌∷◌, Option, none, some, Bytes, codes, bytes_eq, lookup, insert,
  delete, get_elem?,
}
use remotedesk.Id.{Rand, new_id, new_pin}
use remotedesk.Wire.{ControlMsg, ConnectRequest, Op}
use remotedesk.Relay.{Limits}
use remotedesk.Relay.Auth.{authenticate}
use remotedesk.Relay.Registry.{register, register_loop, send}
use remotedesk.Relay.Consent.{await_consent, end_consent, resolve, received}
use remotedesk.Relay.Connect.{Env, bridged, serve_connect, after_consent, open_bridge}
use remotedesk.Relay.Control.{Draws, serve_control}
use remotedesk.Relay.System.{
  System, Event, dial_control, control_msg, dial_connect, wake, splice, step, Reach, start, next,
}

abbrev pub limits : Limits
limits = record { max_pin_attempts = 3; lockout = 600; handshake_timeout = 15; max_conns = 2 }

abbrev pub seven : Rand
seven = λ bound. some 7

abbrev pub host_id : Bytes
host_id = codes "000-000-007"

abbrev pub host_pin : Bytes
host_pin = codes "000007"

abbrev pub msg : Op → Bytes → ControlMsg
msg op session = record {
  op = op;
  unattended = false;
  id = [];
  pin = [];
  session = session;
  from = [];
  error = [];
}

abbrev pub draws : Draws
draws = record { id_draws = seven ∷ []; pin_draw = seven; delivered = true }

abbrev pub env : Env
env = record {
  now = 10;
  trip = 11;
  session_draw = seven;
  alert_delivered = true;
  request_delivered = true;
}

abbrev pub request : ConnectRequest
request = record { id = host_id; pin = host_pin }

abbrev pub dialled : Event
dialled = dial_control (codes "fp")

abbrev pub registers : Event
registers = control_msg draws 0 (msg Op.register [])

abbrev pub connects : Event
connects = dial_connect env (some request)

abbrev pub accepts : Event
accepts = control_msg draws 0 (msg Op.accept host_id)

abbrev pub run : Event → Option System → Option System
run e none = none
run e (some sys) = step e sys

pub bridged_run :
    (sys : System) × Reach limits
      (splice true true 0 ∷ wake received 0 ∷ accepts ∷ connects ∷ registers ∷ dialled ∷ [])
      sys
    × (get_elem? sys.viewers 0 ≡ some (bridged 0 host_id))
unfolding step serve_connect serve_control register register_loop await_consent end_consent resolve
    authenticate new_id new_pin bytes_eq lookup insert delete send after_consent open_bridge
bridged_run = (
  _,
  next (splice true true 0)
      (next (wake received 0)
        (next accepts (next connects (next registers (next dialled start refl) refl) refl) refl)
        refl)
      refl,
  refl,
)
