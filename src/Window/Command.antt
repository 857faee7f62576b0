-- ===== src/Window/Command.antt =====
-- cmd/viewer/main.go: `main`, from its flags to the forwarded port or the window.
use remotedesk.Prelude.{
  ◌≡◌, ◌≢◌, ◌↔◌, refl, subst, Bool, true, false, ◌||◌, [], Option, none, some, Bytes, codes,
  bytes_eq, ne_of_bytes_eq, Spaces, if◌then◌else◌,
}
use remotedesk.Config.{
  KeyLib, Disk, World, Loaded, signs, refuses, RelayKey, unpinned, pinned, no_file, bad_line,
  load_or_create_signer, parse_relay_key, path_or_default,
}
use remotedesk.Config.Pinning.{parse_relay_key_pins}
use remotedesk.Tunnel.Viewer.{ViewerConfig}

pub record Flags : Type 0 where
  pub relay_addr : Bytes
  pub relay_key : Bytes
  pub host_id : Bytes
  pub pin : Bytes
  pub key_path : Bytes
  pub forward : Bool
  pub listen : Bytes
  pub show_version : Bool

pub data Stage : Type 0 where
  no_target no_dir no_signer no_relay_key : Stage

-- `LocalForward` on an address, or one `Dial`, whose stream the client and the window use.
pub data Start : Type 0 where
  prints_version : Start
  fatal : Stage → Start
  forwards : ViewerConfig → Bytes → Bytes → Start
  opens_window : ViewerConfig → Bytes → Start

abbrev config : Flags → Option Bytes → ViewerConfig
config flags relay_key = record {
  relay_addr = flags.relay_addr;
  relay_key = relay_key;
  id = flags.host_id;
  pin = flags.pin;
}

abbrev started : Flags → Bytes → Option Bytes → Start
started flags signer relay_key =
    if flags.forward
    then forwards (config flags relay_key) signer flags.listen
    else opens_window (config flags relay_key) signer

abbrev with_relay_key : Flags → Bytes → RelayKey → Start
with_relay_key flags signer unpinned = started flags signer none
with_relay_key flags signer (pinned key) = started flags signer (some key)
with_relay_key flags signer failure = fatal no_relay_key

abbrev with_signer : KeyLib → Flags → Disk × Loaded → Start
with_signer lib flags (disk, refuses failure) = fatal no_signer
with_signer lib flags (disk, signs signer) =
    with_relay_key flags signer (parse_relay_key lib disk flags.relay_key)

abbrev with_path : KeyLib → Flags → World → Option Bytes → Start
with_path lib flags world none = fatal no_dir
with_path lib flags world (some path) =
    with_signer lib flags (load_or_create_signer lib world.fresh world.write path world.disk)

unfoldable pub main : KeyLib → Flags → World → Start
main lib flags world =
    if flags.show_version
    then prints_version
    else if bytes_eq flags.host_id [] || bytes_eq flags.pin []
    then fatal no_target
    else with_path lib flags world
        (path_or_default flags.key_path (codes "viewer_key") world.base world.made)

-- The configuration of what has started.
abbrev pub configured : Start → Option ViewerConfig
configured (forwards cfg signer listen) = some cfg
configured (opens_window cfg signer) = some cfg
configured prints_version = none
configured (fatal stage) = none

-- What the viewer does of what its flags say.
pub record Targeted (flags : Flags) (cfg : ViewerConfig) : Type 0 where
  pub id : cfg.id ≡ flags.host_id
  pub pin : cfg.pin ≡ flags.pin
  pub has_id : cfg.id ≢ []
  pub has_pin : cfg.pin ≢ []
  pub unchecked : (cfg.relay_key ≡ none) ↔ Spaces flags.relay_key

-- The flags name a host.
abbrev Named : Flags → Type 0
Named flags = (flags.host_id ≢ []) × (flags.pin ≢ [])

some_inj : {x y : ViewerConfig} → some x ≡ some y → x ≡ y
some_inj h = cc

started-Targeted :
    (flags : Flags) (signer : Bytes) (key : Option Bytes) (cfg : ViewerConfig)
    → Named flags
    → (key ≡ none) ↔ Spaces flags.relay_key
    → configured (started flags signer key) ≡ some cfg
    → Targeted flags cfg
started-Targeted flags signer key cfg (has_id, has_pin) checks h = by_forward flags.forward h
  where
    mine : Targeted flags (config flags key)
    mine = record { id = refl; pin = refl; has_id = has_id; has_pin = has_pin; unchecked = checks }

    by_forward :
        (b : Bool)
        → configured (
            if b
            then forwards (config flags key) signer flags.listen
            else opens_window (config flags key) signer)
          ≡ some cfg
        → Targeted flags cfg
    by_forward true e = subst (Targeted flags) (some_inj e) mine
    by_forward false e = subst (Targeted flags) (some_inj e) mine

key-Targeted :
    (lib : KeyLib) (disk : Disk) (flags : Flags) (signer : Bytes) (key : RelayKey)
    (cfg : ViewerConfig)
    → Named flags
    → parse_relay_key lib disk flags.relay_key ≡ key
    → configured (with_relay_key flags signer key) ≡ some cfg
    → Targeted flags cfg
key-Targeted lib disk flags signer unpinned cfg named e h =
    let pins = (parse_relay_key_pins lib disk flags.relay_key).0 in
    started-Targeted flags signer none cfg named ((λ n. pins.0 e), (λ n. refl)) h
key-Targeted lib disk flags signer (pinned key) cfg named e h =
    let pins = (parse_relay_key_pins lib disk flags.relay_key).0 in
    started-Targeted flags signer (some key) cfg named ((λ n. cc), (λ blank. cc (e, pins.1 blank)))
      h
key-Targeted lib disk flags signer no_file cfg named e h = cc
key-Targeted lib disk flags signer bad_line cfg named e h = cc

path-Targeted :
    (lib : KeyLib) (flags : Flags) (world : World) (path : Option Bytes) (cfg : ViewerConfig)
    → Named flags
    → configured (with_path lib flags world path) ≡ some cfg
    → Targeted flags cfg
path-Targeted lib flags world none cfg named h = cc
path-Targeted lib flags world (some path) cfg named h =
    let (disk, loaded) = load_or_create_signer lib world.fresh world.write path world.disk in
    by_signer disk loaded h
  where
    by_signer :
        (disk : Disk) (loaded : Loaded)
        → configured (with_signer lib flags (disk, loaded)) ≡ some cfg
        → Targeted flags cfg
    by_signer disk (refuses failure) h = cc
    by_signer disk (signs signer) h =
        key-Targeted lib disk flags signer (parse_relay_key lib disk flags.relay_key) cfg named refl
          h

-- Whether it forwards a port or opens a window, the viewer asks for the host and with the PIN of its
-- flags, neither of them empty, and checks the relay's key unless that flag is blank.
pub viewer_targets :
    (lib : KeyLib) (flags : Flags) (world : World) (cfg : ViewerConfig)
    → configured (main lib flags world) ≡ some cfg
    → Targeted flags cfg
unfolding main
viewer_targets lib flags world cfg h =
    by_flags flags.show_version (bytes_eq flags.host_id []) (bytes_eq flags.pin []) refl refl h
  where
    path : Option Bytes
    path = path_or_default flags.key_path (codes "viewer_key") world.base world.made

    by_flags :
        (version no_id no_pin : Bool)
        → bytes_eq flags.host_id [] ≡ no_id
        → bytes_eq flags.pin [] ≡ no_pin
        → configured (
            if version
            then prints_version
            else if no_id || no_pin
            then fatal no_target
            else with_path lib flags world path)
          ≡ some cfg
        → Targeted flags cfg
    by_flags true no_id no_pin p q h = cc
    by_flags false true no_pin p q h = cc
    by_flags false false true p q h = cc
    by_flags false false false p q h =
        path-Targeted lib flags world path cfg
          (ne_of_bytes_eq flags.host_id [] p, ne_of_bytes_eq flags.pin [] q) h
