-- ===== src/Tunnel/Tests.antt =====
-- The agents' connections, run on concrete outcomes.
use remotedesk.Prelude.{
  ◌⊎◌, ◌≡◌, refl, ◌↔◌, Bool, true, false, List, [], ◌∷◌, map, none, some, Bytes, codes,
}
use remotedesk.Wire.{ControlMsg, Op}
use remotedesk.Tunnel.{KeyCheck, fixed, ignored, left_open}
use remotedesk.Tunnel.Host.{HostConfig, Input, connect, connected, serve}
use remotedesk.Tunnel.Host.{Link as HostLink}
use remotedesk.Tunnel.Viewer.{Link as ViewerLink}
use remotedesk.Tunnel.Host.Connecting.{IsUp, Registers, Tidy, connect-Registers}
use remotedesk.Tunnel.Host.Replies.{replied, requests, answer, serve-replies}
use remotedesk.Tunnel.Viewer.{ViewerConfig, dial, local_forward_listener}
use remotedesk.Tunnel.Viewer.Dialling.{told, AllFinished, dial_tells, forwards_finish}
use remotedesk.Tunnel.Splice.{Splice, Event, a, b, arrives, moves, fails, ended, runs, spliced}
use remotedesk.Tunnel.Splice.Ends.{Settled, IsBusy, splice_serves}
use remotedesk.Tunnel.Splice.Flows.{Prefix}

abbrev msg : Op → ControlMsg
msg op = record {
  op = op;
  unattended = false;
  id = codes "000-000-007";
  pin = codes "000007";
  session = codes "s1";
  from = [];
  error = [];
}

abbrev pinned : HostConfig
pinned = record {
  relay_addr = codes "relay:7700";
  relay_key = some (codes "key");
  unattended = false;
  has_handler = true;
  has_prompt = true;
  has_alert = false;
}

abbrev pins : KeyCheck → Bool
pins (fixed key) = true
pins ignored = false

abbrev host_link : HostLink
host_link = record {
  dialed = true;
  shaken = pins;
  opened = true;
  sent = true;
  reply = some (msg Op.registered);
}

connect_run : (connect pinned host_link).1 ≡ connected (codes "000-000-007") (codes "000007")
unfolding connect remotedesk.Tunnel.host_key_callback
connect_run = refl

connect-Registers_example :
    ((id pin : Bytes)
      → ((connect pinned host_link).1 ≡ connected id pin)
        ↔ (IsUp pinned host_link × Registers (some (msg Op.registered)) id pin))
    × Tidy (connect pinned host_link)
connect-Registers_example = connect-Registers pinned host_link

abbrev inputs : List Input
inputs =
    record { msg = msg Op.incoming; says = false; delivered = true }
    ∷ record { msg = msg Op.alert; says = true; delivered = true }
    ∷ record { msg = msg Op.incoming; says = true; delivered = false }
    ∷ record { msg = msg Op.incoming; says = true; delivered = true }
    ∷ []

serve-replies_example : replied (serve pinned inputs) ≡ map (answer pinned) (requests inputs)
serve-replies_example = serve-replies pinned inputs

abbrev viewer : ViewerConfig
viewer = record {
  relay_addr = codes "relay:7700";
  relay_key = none;
  id = codes "000-000-007";
  pin = codes "000007";
}

abbrev link : Bool → ViewerLink
link opened = record { dialed = true; shaken = λ check. true; opened = opened }

dial_tells_example :
    ((dial viewer (link false)).1 ≡ false)
    × (left_open false (dial viewer (link false)).0 ≡ (dial viewer (link false)).1)
    × (told (dial viewer (link false)).0
        ≡ record { id = codes "000-000-007"; pin = codes "000007" } ∷ [])
dial_tells_example = dial_tells viewer (link false)

forwards_finish_example :
    AllFinished viewer
      (link true ∷ link false ∷ [])
      (local_forward_listener viewer (link true ∷ link false ∷ []))
forwards_finish_example = forwards_finish viewer (link true ∷ link false ∷ [])

-- `a` sends two bytes, of which one is written when `b` breaks, and that goroutine ends.
abbrev events : List Event
events =
    arrives a (1 ∷ 2 ∷ [])
    ∷ arrives b (9 ∷ [])
    ∷ moves a
    ∷ moves b
    ∷ fails 1 a
    ∷ moves a
    ∷ moves a
    ∷ []

events_run : (runs events spliced).from_a.written ≡ 1 ∷ []
unfolding runs remotedesk.Tunnel.Splice.step
events_run = refl

splice_serves_example :
    Prefix (runs events spliced).from_a.written (1 ∷ 2 ∷ [])
    × Prefix (runs events spliced).from_b.written (9 ∷ [])
    × (IsBusy (runs events spliced) ⊎ Settled (runs events spliced))
splice_serves_example = splice_serves events
