-- ===== src/Relay/System.antt =====
-- The relay as a whole: the control loops and the viewers' goroutines over one server, in any
-- interleaving. A step is what one goroutine does between two points where it blocks; what it
-- writes in between is guarded by the mutexes of `Server` and `hostReg`.
use remotedesk.Prelude.{
  ℕ, Bool, true, false, ◌≡◌, List, [], ◌∷◌, ◌++◌, Option, none, some, Bytes, set, get_elem?,
}
use remotedesk.Wire.{ControlMsg, ConnectRequest}
use remotedesk.Relay.{HostReg, Server, Limits}
use remotedesk.Relay.Consent.{Wake, end_consent}
use remotedesk.Relay.Connect.{
  Viewer, Env, awaits, consented, serve_connect, after_consent, open_bridge,
}
use remotedesk.Relay.Control.{
  Control, Draws, unregistered, registered, closed, new_reg, serve_control, end_control,
}
use mathlib.Core.Option
pub mod Online
pub mod Consented
pub mod Waiting

-- A control loop has the index of its registration.
pub record System : Type 0 where
  pub server : Server
  pub controls : List Control
  pub viewers : List Viewer

pub data Event : Type 0 where
  dial_control : Bytes → Event
  control_msg : Draws → ℕ → ControlMsg → Event
  hang_up : ℕ → Event
  dial_connect : Env → Option ConnectRequest → Event
  wake : Wake → ℕ → Event
  splice : Bool → Bool → ℕ → Event

-- The state after `NewWithOptions`.
abbrev pub boot : Limits → System
boot limits = record {
  server = record { limits = limits; hosts = []; regs = []; results = [] };
  controls = [];
  viewers = [];
}

woken : ℕ → Bytes → ℕ → Option (Server × Bool) → System → System
woken addr session i none sys = sys
woken addr session i (some (server, ok)) sys = record sys {
  server = server;
  viewers = set sys.viewers i (after_consent addr session ok);
}

wake_viewer : Wake → ℕ → Viewer → System → System
unfolding woken
wake_viewer w i (awaits addr session ch) sys =
    woken addr session i (end_consent w addr session ch sys.server) sys
wake_viewer w i viewer sys = sys

splice_viewer : Bool → Bool → ℕ → Viewer → System → System
splice_viewer accepted opened i (consented addr session) sys = record sys {
  viewers = set sys.viewers i (open_bridge accepted opened addr session);
}
splice_viewer accepted opened i viewer sys = sys

on_viewer : Option Viewer → (Viewer → System → System) → System → System
on_viewer none f sys = sys
on_viewer (some viewer) f sys = f viewer sys

pub step_control : Draws → ℕ → ControlMsg → Option Control → System → Option System
step_control env addr msg none sys = some sys
step_control env addr msg (some state) sys =
    Option.map (λ r. record sys { server = r.0; controls = set sys.controls addr r.1 })
      (serve_control env addr msg state sys.server)

pub step_hang_up : ℕ → Option Control → System → System
step_hang_up addr none sys = sys
step_hang_up addr (some state) sys = record sys {
  server = end_control addr state sys.server;
  controls = set sys.controls addr closed;
}

-- An event that is not possible in a state leaves it as it is; `none` is a panic.
unfoldable pub step : Event → System → Option System
unfolding wake_viewer splice_viewer on_viewer step_control step_hang_up
step (dial_control fp) sys =
    let server = sys.server in
    some (record sys {
      server = record server { regs = server.regs ++ (new_reg fp ∷ []) };
      controls = sys.controls ++ (unregistered ∷ []);
    })
step (control_msg env addr msg) sys = step_control env addr msg (get_elem? sys.controls addr) sys
step (hang_up addr) sys = some (step_hang_up addr (get_elem? sys.controls addr) sys)
step (dial_connect env req) sys =
    Option.map (λ r. record sys { server = r.0; viewers = sys.viewers ++ (r.1 ∷ []) })
      (serve_connect env req sys.server)
step (wake w i) sys = some (on_viewer (get_elem? sys.viewers i) (wake_viewer w i) sys)
step (splice accepted opened i) sys =
    some (on_viewer (get_elem? sys.viewers i) (splice_viewer accepted opened i) sys)

-- The states that the relay can reach, with the events so far, the latest first.
pub data Reach (limits : Limits) : List Event → System → Type 0 where
  start : Reach limits [] (boot limits)
  next :
      {past : List Event} {sys after : System} (e : Event)
      → Reach limits past sys
      → step e sys ≡ some after
      → Reach limits (e ∷ past) after
