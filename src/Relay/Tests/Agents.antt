-- ===== src/Relay/Tests/Agents.antt =====
-- The host agent behind that run, alone and as its command starts it.
use remotedesk.Prelude.{
  ℕ, ◌+◌, ◌≤◌, inl, inr, ◌<◌, ◌≡◌, ◌≢◌, ◌↔◌, refl, IfSome, true, false, List, [], ◌∷◌, Option, none,
  some, Bytes, codes, Any, bytes_eq, ne_of_bytes_eq, lookup, insert, delete, get_elem?, arith,
}
use remotedesk.Wire.{Op}
use remotedesk.Tunnel.Host.{HostConfig, Input}
use remotedesk.Tunnel.Host.Consent.{Allowed, bridged-Allowed}
use remotedesk.Relay.Tests.Runs.{msg, host_id, bridged_run}
use remotedesk.Config.{World, stored}
use remotedesk.Config.Tests.Library.{lib}
use remotedesk.Host.Command.{Flags as HostFlags, Agent, runs, main as start_host}
use remotedesk.Host.Command.Terminal.{Prompted, TypedYes, terminal_consents}

-- The host behind that run: it asks its user, who says yes.
abbrev asking : HostConfig
asking = record {
  relay_addr = codes "relay:7700";
  relay_key = none;
  unattended = false;
  has_handler = true;
  has_prompt = true;
  has_alert = false;
}

abbrev asked : List Input
asked = record { msg = msg Op.incoming host_id; says = true; delivered = true } ∷ []

bridged-Allowed_example : Allowed asking asked host_id
unfolding remotedesk.Tunnel.Host.serve remotedesk.Tunnel.Host.on_message
bridged-Allowed_example =
    bridged-Allowed 0 0 host_id asking asked bridged_run.1 bridged_run.2
      (tt, (tt, ((λ e. inr (inl refl)), (tt, ((λ e. inl refl), (tt, tt))))))

-- The agent of that run as its command starts it, on a terminal where a yes is typed.
abbrev host_flags : HostFlags
host_flags = record {
  relay_addr = codes "relay:7700";
  relay_key = [];
  unattended = false;
  key_path = codes "k";
  vnc_listen = [];
  vnc_password = [];
  no_relay = false;
  use_tray = false;
  show_version = false;
}

abbrev host_world : World
host_world = record {
  base = none;
  made = false;
  disk = record { files = []; searchable = λ path. true };
  fresh = some (codes "me");
  write = stored;
}

agent_run : (a : Agent) × ((start_host lib host_flags host_world true).1 ≡ runs a)
unfolding start_host remotedesk.Config.load_or_create_signer remotedesk.Config.path_or_default
    remotedesk.Config.read_file remotedesk.Config.write_file remotedesk.Config.parse_relay_key
    remotedesk.Prelude.trim_left remotedesk.Prelude.trim_right lookup insert bytes_eq
agent_run = (_, refl)

abbrev prompted : List Prompted
prompted =
    (record { msg = msg Op.incoming host_id; says = true; delivered = true }, some (codes "y")) ∷ []

terminal_consents_example : Any (TypedYes host_id) prompted
unfolding agent_run start_host remotedesk.Config.load_or_create_signer
    remotedesk.Config.path_or_default remotedesk.Config.read_file remotedesk.Config.write_file
    remotedesk.Config.parse_relay_key remotedesk.Prelude.trim_left remotedesk.Prelude.trim_right
    remotedesk.Tunnel.Host.serve remotedesk.Tunnel.Host.on_message remotedesk.Tray.confirm
    remotedesk.Tray.is_yes lookup insert bytes_eq
terminal_consents_example =
    terminal_consents lib host_flags host_world true agent_run.0 0 0 host_id prompted agent_run.1
      refl refl bridged_run.1 (tt, (tt, ((λ e. inr (inl refl)), (tt, ((λ e. inl refl), (tt, tt))))))
      (refl, tt) bridged_run.2
