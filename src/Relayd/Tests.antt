-- ===== src/Relayd/Tests.antt =====
-- The daemon with a file of two keys.
use remotedesk.Prelude.{
  ◌≡◌, refl, true, false, List, [], ◌∷◌, Option, none, some, Bytes, codes, pos,
}
use remotedesk.Config.{Disk, World, stored}
use remotedesk.Config.Tests.Library.{lib, lib-Lawful}
use remotedesk.Relayd.{Flags, Setup, serves, main, load_authorized_keys}
use remotedesk.Relayd.Daemon.{LetsIn, relay-LetsIn}

abbrev flags : Flags
flags = record {
  show_version = false;
  key_path = codes "k";
  auth_keys = codes "a";
  options = record {
    max_pin_attempts = pos 5;
    lockout_duration = pos 30;
    handshake_timeout = pos 15;
    max_conns = pos 512;
  };
}

abbrev world : World
world = record {
  base = none;
  made = false;
  disk = record {
    files = (codes "a", record { content = codes "xy"; readable = true }) ∷ [];
    searchable = λ path. true;
  };
  fresh = some (codes "me");
  write = stored;
}

comes_up : (setup : Setup) × (main lib flags world true ≡ serves setup)
unfolding main load_authorized_keys remotedesk.Relayd.collect
    remotedesk.Config.load_or_create_signer remotedesk.Config.path_or_default
    remotedesk.Config.read_file remotedesk.Config.write_file remotedesk.Prelude.lookup
    remotedesk.Prelude.insert remotedesk.Prelude.bytes_eq
comes_up = (_, refl)

relay-LetsIn_example : LetsIn lib flags world comes_up.0
relay-LetsIn_example = relay-LetsIn lib flags world true comes_up.0 lib-Lawful comes_up.1
