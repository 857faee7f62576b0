-- ===== src/Relay/Tests.antt =====
-- The relay on concrete inputs: a host that registers, a viewer that it accepts, and a guesser.
use remotedesk.Prelude.{
  ◌⊎◌, ℕ, ◌+◌, ◌≤◌, inl, inr, ◌<◌, ◌≡◌, ◌≢◌, ◌↔◌, refl, IfSome, true, false, List, [], ◌∷◌, Option,
  none, some, Bytes, codes, bytes_eq, ne_of_bytes_eq, lookup, insert, delete, get_elem?, arith,
}
use remotedesk.Id.{Rand, new_id, new_pin}
use remotedesk.Wire.{ControlMsg, ConnectRequest, Op}
use remotedesk.Relay.{Limits, HostReg, Server}
use remotedesk.Relay.Auth.{auth_ok, auth_bad_pin, auth_locked, authenticate, Attempt, attempt_all}
use remotedesk.Relay.Auth.Rate.{guesses, guesses-le}
use remotedesk.Relay.Registry.Loop.{register_loop_ends}
use remotedesk.Relay.Connect.Admission.{IsPastPin, Admission, serve_connect_admits}
use remotedesk.Relay.Accept.{
  Arrival, accepted, failed, finished, serves, drops, frees, sleeps, accept_step, serve, idle,
}
use remotedesk.Wire.{chan_control, other}
use remotedesk.Relay.Handle.{Peer, handle_conn, rejects_channel, serves_control}
use remotedesk.Relay.Handle.Peers.{answered, deadline_after, peers_served}
use remotedesk.Relay.Accept.Backoff.{serve_backoff}
use remotedesk.Relay.System.Online.Invariant.{Online, Reach-Online}
use remotedesk.Relay.Registry.{register, register_loop, send}
use remotedesk.Relay.Consent.{await_consent, end_consent, resolve, received, timed_out}
use remotedesk.Relay.Connect.Knocks.{Knock, Leaves}
use remotedesk.Relay.Connect.Episode.{alert, lockout_episode}
use remotedesk.Relay.Connect.{
  rejected, invalid_pin, too_many_attempts, Env, bridged, serve_connect, after_consent, open_bridge,
}
use remotedesk.Relay.Control.{Draws, serve_control}
use remotedesk.Relay.System.{
  System, Event, dial_control, control_msg, dial_connect, wake, splice, step, Reach, start, next,
  boot,
}
use remotedesk.Relay.System.Waiting.{Waits, Decides, waiting_is_decided}
use remotedesk.Tunnel.Host.{HostConfig, Input}
use remotedesk.Tunnel.Host.Consent.{Allowed, bridged-Allowed}
use remotedesk.Relay.System.Consented.{Agreed}
use remotedesk.Relay.System.Consented.Invariant.{bridged-Agreed}
mod Runs
mod Agents
use remotedesk.Relay.Splice.{
  Event as Bridging, viewer_ch, data_ch, arrives, moves, fails, handles, runs, bridging,
}
use remotedesk.Relay.Splice.Flows.{viewer_sent, host_sent}
use remotedesk.Relay.Splice.Bridge.{IsOpen, Ends, bridge_serves}
use remotedesk.Tunnel.Splice.Flows.{Prefix}
use remotedesk.Relay.Tests.Runs.{
  limits, seven, host_id, host_pin, msg, draws, env, request, dialled, registers, connects, accepts,
  run, bridged_run,
}

bridged-Agreed_example :
    Agreed
      (splice true true 0 ∷ wake received 0 ∷ accepts ∷ connects ∷ registers ∷ dialled ∷ [])
      0
      host_id
bridged-Agreed_example = bridged-Agreed 0 0 host_id bridged_run.1 bridged_run.2

-- The relay once that viewer waits.
waiting_run :
    (sys : System) × (run connects (run registers (run dialled (some (boot limits)))) ≡ some sys)
unfolding step serve_connect serve_control register register_loop await_consent authenticate new_id
    new_pin bytes_eq lookup insert delete send
waiting_run = (_, refl)

viewer-Waits : Waits waiting_run.0 0 0 host_id 0
unfolding waiting_run step serve_connect serve_control register register_loop await_consent
    authenticate new_id new_pin bytes_eq lookup insert delete send
viewer-Waits = record { viewer = refl; asked = (_, refl, refl); unanswered = refl; online = refl }

waiting_is_decided_example :
    Decides (wake timed_out 0) waiting_run.0 0 0 host_id false
    × ((replied : System) × (step (control_msg draws 0 (msg Op.reject host_id)) waiting_run.0
          ≡ some replied)
        × Decides (wake received 0) replied 0 0 host_id false)
waiting_is_decided_example =
    waiting_is_decided waiting_run.0 0 0 host_id 0 false draws (msg Op.reject host_id) viewer-Waits
      refl refl

Reach-Online_example : Online bridged_run.0
Reach-Online_example = Reach-Online bridged_run.1

abbrev reg : HostReg
reg = record {
  id = host_id;
  pin = host_pin;
  unattended = false;
  fp = [];
  sent = [];
  pending = [];
  failures = 0;
  lock_until = 0;
}

abbrev online : Server
online = record { limits = limits; hosts = (host_id, 0) ∷ []; regs = reg ∷ []; results = [] }

serve_connect_admits_example :
    IfSome
      (λ r. IsPastPin r.1 ↔ Admission env (some request) online)
      (serve_connect env (some request) online)
serve_connect_admits_example = serve_connect_admits env (some request) online

abbrev guess : ℕ → Attempt
guess t = record { now = t; trip = t + 1; pin = codes "000000" }

abbrev right_pin : ℕ → Attempt
right_pin t = record { now = t; trip = t; pin = host_pin }

wrong : codes "000000" ≢ host_pin
unfolding bytes_eq
wrong = ne_of_bytes_eq (codes "000000") host_pin refl

lockout_run :
    (attempt_all limits reg (guess 1 ∷ guess 3 ∷ guess 5 ∷ right_pin 600 ∷ right_pin 606 ∷ [])).1
    ≡ (auth_bad_pin, false)
      ∷ (auth_bad_pin, false)
      ∷ (auth_locked, true)
      ∷ (auth_locked, false)
      ∷ (auth_ok, false)
      ∷ []
unfolding attempt_all authenticate bytes_eq
lockout_run = refl

-- Three viewers with a wrong PIN, and one with the right PIN, while the host is locked.
abbrev knock : ℕ → Bytes → Knock
knock t pin = (record env { now = t; trip = t + 1 }, pin)

lockout_episode_example :
    Leaves host_id 0
      (knock 1 (codes "000000")
        ∷ knock 3 (codes "000000")
        ∷ knock 5 (codes "000000")
        ∷ knock 600 host_pin
        ∷ [])
      (record reg { lock_until = 606; sent = alert ∷ [] })
      (rejected invalid_pin
        ∷ rejected invalid_pin
        ∷ rejected too_many_attempts
        ∷ rejected too_many_attempts
        ∷ [])
      online
unfolding bytes_eq lookup
lockout_episode_example =
    lockout_episode host_id 0 0 10 reg (knock 1 (codes "000000"))
      (knock 3 (codes "000000") ∷ knock 5 (codes "000000") ∷ []) (knock 600 host_pin ∷ []) online
      (refl, refl) refl (omega arith) (omega arith) (wrong, (wrong, (wrong, tt))) (omega arith)

guesses-le_example :
    guesses (attempt_all limits reg (guess 1 ∷ guess 3 ∷ guess 5 ∷ guess 7 ∷ [])).1 ≤ 3
guesses-le_example =
    guesses-le limits 0 10 reg (guess 1 ∷ guess 3 ∷ guess 5 ∷ guess 7 ∷ []) (omega arith)
      (omega arith) refl (omega arith) (omega arith) (wrong, (wrong, (wrong, (wrong, tt))))

abbrev eight : Rand
eight = λ bound. some 8

other_id : codes "000-000-008" ≢ host_id
unfolding bytes_eq
other_id = ne_of_bytes_eq (codes "000-000-008") host_id refl

register_loop_ends_example :
    (id : Bytes) × (register_loop (seven ∷ eight ∷ []) online.hosts ≡ some id)
    × (lookup id online.hosts ≡ none)
unfolding new_id
register_loop_ends_example =
    register_loop_ends (seven ∷ eight ∷ []) (host_id ∷ codes "000-000-008" ∷ []) online.hosts
      (refl, (refl, tt)) ((other_id, tt), (tt, tt)) (omega arith)

abbrev rush : List Arrival
rush = accepted ∷ accepted ∷ accepted ∷ failed ∷ finished ∷ accepted ∷ []

rush_run :
    (serve limits idle rush).1 ≡ serves ∷ serves ∷ drops ∷ sleeps 5_000_000 ∷ frees ∷ serves ∷ []
unfolding serve accept_step
rush_run = refl

serve_backoff_example :
    (serve limits idle (accepted ∷ failed ∷ failed ∷ [])).1
    ≡ (accept_step limits accepted idle).1 ∷ sleeps 5_000_000 ∷ sleeps 10_000_000 ∷ []
serve_backoff_example = serve_backoff limits idle 2

-- A host whose handshake takes 2 and whose channel comes at 5, before the deadline of 16.
abbrev peer : Peer
peer = record {
  key = codes "k";
  shakes_at = some 3;
  channels = (5, other (codes "x")) ∷ (900, chan_control) ∷ [];
}

peers_served_example :
    (answered (handle_conn (λ key. key) none limits 1 peer)
      ≡ rejects_channel ∷ serves_control (codes "k") ∷ [])
    × (deadline_after none (handle_conn (λ key. key) none limits 1 peer) ≡ none)
peers_served_example = peers_served (λ key. key) none limits 1 peer

-- The viewer sends two bytes, the host's channel ends, and the bridge is taken down.
abbrev bridge_events : List Bridging
bridge_events =
    arrives viewer_ch (1 ∷ 2 ∷ [])
    ∷ moves viewer_ch
    ∷ moves viewer_ch
    ∷ fails 0 data_ch
    ∷ handles
    ∷ handles
    ∷ []

bridge_run : (runs bridge_events bridging).from_viewer.written ≡ 1 ∷ 2 ∷ []
unfolding runs remotedesk.Relay.Splice.step
bridge_run = refl

bridge_serves_example :
    Prefix (runs bridge_events bridging).from_viewer.written (viewer_sent [] bridge_events)
    × Prefix (runs bridge_events bridging).from_data.written (host_sent [] bridge_events)
    × (IsOpen (runs bridge_events bridging) ⊎ Ends (runs bridge_events bridging))
bridge_serves_example = bridge_serves bridge_events
