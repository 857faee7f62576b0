-- ===== src/Host/Command.antt =====
-- cmd/host/main.go: `main`, from its flags to what runs, and `serveLocal`.
use remotedesk.Prelude.{
  ℕ, Bool, true, false, not, List, [], ◌∷◌, map, Option, none, some, Bytes, codes, bytes_eq,
  if◌then◌else◌,
}
use remotedesk.Config.{
  KeyLib, Disk, World, Loaded, signs, refuses, RelayKey, unpinned, pinned, no_file, bad_line,
  load_or_create_signer, parse_relay_key, path_or_default,
}
use remotedesk.Tray.{ConsoleUi}
use remotedesk.Tunnel.Host.{HostConfig}
pub mod Guards
pub mod Terminal

pub record Flags : Type 0 where
  pub relay_addr : Bytes
  pub relay_key : Bytes
  pub unattended : Bool
  pub key_path : Bytes
  pub vnc_listen : Bytes
  pub vnc_password : Bytes
  pub no_relay : Bool
  pub use_tray : Bool
  pub show_version : Bool

pub data Ui : Type 0 where
  console : ConsoleUi → Ui
  systray : Ui

-- `rfb.Options`, with the screen and the sink of the machine.
pub record RfbOptions : Type 0 where
  pub password : Bytes
  pub name : Bytes

-- The agent behind the relay: `Handler` serves RFB on each stream.
pub record Agent : Type 0 where
  pub signer : Bytes
  pub cfg : HostConfig
  pub ui : Ui
  pub handler : RfbOptions

pub data Stage : Type 0 where
  no_dir no_signer no_relay_key : Stage

pub data Start : Type 0 where
  prints_version no_screen blocks : Start
  fatal : Stage → Start
  runs : Agent → Start

-- The local listener's address and password.
unfoldable pub local_vnc : Flags → Option (Bytes × Bytes)
local_vnc flags =
    let pw = if bytes_eq flags.vnc_password [] then codes "remotedesk" else flags.vnc_password in
    if not (bytes_eq flags.vnc_listen []) then some (flags.vnc_listen, pw) else none

-- `serveLocal`, on the connections that `Accept` gives until it fails: the options of each session.
unfoldable pub serve_local : Bytes → ℕ → List RfbOptions
serve_local password ℕ.zero = []
serve_local password (ℕ.suc n) =
    record { password = password; name = codes "remotedesk" } ∷ serve_local password n

abbrev pub new_ui : Flags → Ui
new_ui flags =
    if flags.use_tray then systray else console (record { auto_accept = flags.unattended })

-- `OnIncoming` is `ui.Confirm`, and `OnAlert` is not set.
abbrev pub agent : Flags → Bytes → Option Bytes → Agent
agent flags signer relay_key = record {
  signer = signer;
  cfg = record {
    relay_addr = flags.relay_addr;
    relay_key = relay_key;
    unattended = flags.unattended;
    has_handler = true;
    has_prompt = true;
    has_alert = false;
  };
  ui = new_ui flags;
  handler = record { password = []; name = codes "remotedesk" };
}

abbrev pub with_relay_key : Flags → Bytes → RelayKey → Start
with_relay_key flags signer unpinned = runs (agent flags signer none)
with_relay_key flags signer (pinned key) = runs (agent flags signer (some key))
with_relay_key flags signer failure = fatal no_relay_key

abbrev pub with_signer : KeyLib → Flags → Disk × Loaded → Start
with_signer lib flags (disk, refuses failure) = fatal no_signer
with_signer lib flags (disk, signs signer) =
    with_relay_key flags signer (parse_relay_key lib disk flags.relay_key)

abbrev pub with_path : KeyLib → Flags → World → Option Bytes → Start
with_path lib flags world none = fatal no_dir
with_path lib flags world (some path) =
    with_signer lib flags (load_or_create_signer lib world.fresh world.write path world.disk)

-- The local listener, if there is one, and what the command comes to.
unfoldable pub main : KeyLib → Flags → World → Bool → Option (Bytes × Bytes) × Start
main lib flags world has_screen =
    if flags.show_version
    then (none, prints_version)
    else if not has_screen
    then (none, no_screen)
    else if flags.no_relay
    then (local_vnc flags, blocks)
    else (
      local_vnc flags,
      with_path lib flags world
          (path_or_default flags.key_path (codes "host_key") world.base world.made),
    )
