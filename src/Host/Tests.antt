-- ===== src/Host/Tests.antt =====
-- A connection that is lost, and three attempts that fail.
use remotedesk.Prelude.{◌≡◌, refl, true, false, [], ◌∷◌, some, none, codes}
use remotedesk.Host.{sleeps, serves, serve_with_reconnect, min_backoff}
use remotedesk.Config.{World, stored}
use remotedesk.Config.Tests.Library.{lib}
use remotedesk.Host.Command.{Flags, Agent, runs, main}
use remotedesk.Host.Command.Guards.{Guarded, HasPassword, host_guards}

reconnect_run :
    serve_with_reconnect min_backoff (false ∷ false ∷ true ∷ false ∷ [])
    ≡ sleeps 1_000_000_000 ∷ sleeps 2_000_000_000 ∷ serves ∷ sleeps 1_000_000_000 ∷ []
unfolding serve_with_reconnect
reconnect_run = refl

abbrev flags : Flags
flags = record {
  relay_addr = codes "relay:7700";
  relay_key = codes "ssh-k";
  unattended = false;
  key_path = [];
  vnc_listen = codes ":5900";
  vnc_password = [];
  no_relay = false;
  use_tray = false;
  show_version = false;
}

abbrev world : World
world = record {
  base = some (codes "/home/me/.config");
  made = true;
  disk = record { files = []; searchable = λ path. true };
  fresh = some (codes "me");
  write = stored;
}

main_run :
    (a : Agent) × (main lib flags world true ≡ (some (codes ":5900", codes "remotedesk"), runs a))
unfolding main remotedesk.Host.Command.local_vnc remotedesk.Config.load_or_create_signer
    remotedesk.Config.path_or_default remotedesk.Config.dir remotedesk.Config.read_file
    remotedesk.Config.write_file remotedesk.Config.parse_relay_key remotedesk.Config.has_prefix
    remotedesk.Prelude.trim_left remotedesk.Prelude.trim_right remotedesk.Prelude.lookup
    remotedesk.Prelude.insert remotedesk.Prelude.bytes_eq
main_run = (_, refl)

host_guards_example :
    ((a : Agent) → (main lib flags world true).1 ≡ runs a → Guarded flags a)
    × HasPassword (main lib flags world true).0
host_guards_example = host_guards lib flags world true
