-- ===== src/Host/Command/Guards.antt =====
-- What guards the host that the command starts.
use remotedesk.Prelude.{
  ◌≡◌, ◌≢◌, ◌↔◌, ◌⊎◌, refl, subst, sym, ◌&&◌, Bool, true, false, not, [], Option, none, some, Bytes,
  codes, bytes_eq, ne_of_bytes_eq, Spaces, if◌then◌else◌,
}
use remotedesk.Config.{
  KeyLib, Disk, World, Loaded, signs, refuses, RelayKey, unpinned, pinned, no_file, bad_line,
  load_or_create_signer, parse_relay_key, path_or_default,
}
use remotedesk.Config.Pinning.{parse_relay_key_pins}
use remotedesk.Tray.{ConsoleUi, confirm}
use remotedesk.Tray.Console.{Accepts, confirm_iff}
use remotedesk.Wire.{chan_data}
use remotedesk.Tunnel.Host.{register_msg, prompts, accept_data, handle_data, handled}
use remotedesk.Host.Command.{
  Flags, Ui, console, systray, Agent, Start, prints_version, no_screen, blocks, runs, local_vnc,
  new_ui, agent, with_relay_key, with_signer, with_path, main,
}

-- The agent is put together from the flags, with a key for the relay unless that flag is blank.
abbrev pub Built : Flags → Agent → Type 0
Built flags a =
    (signer : Bytes) × (key : Option Bytes) × (a ≡ agent flags signer key)
    × ((key ≡ none) ↔ Spaces flags.relay_key)

runs_inj : {a b : Agent} → runs a ≡ runs b → a ≡ b
runs_inj h = cc

key-Built :
    (lib : KeyLib) (disk : Disk) (flags : Flags) (signer : Bytes) (key : RelayKey) (a : Agent)
    → parse_relay_key lib disk flags.relay_key ≡ key
    → with_relay_key flags signer key ≡ runs a
    → Built flags a
key-Built lib disk flags signer unpinned a e h =
    let pins = (parse_relay_key_pins lib disk flags.relay_key).0 in
    (signer, none, sym (runs_inj h), ((λ n. pins.0 e), (λ n. refl)))
key-Built lib disk flags signer (pinned key) a e h =
    let pins = (parse_relay_key_pins lib disk flags.relay_key).0 in
    (signer, some key, sym (runs_inj h), ((λ n. cc), (λ blank. cc (e, pins.1 blank))))
key-Built lib disk flags signer no_file a e h = cc
key-Built lib disk flags signer bad_line a e h = cc

signer-Built :
    (lib : KeyLib) (flags : Flags) (disk : Disk) (loaded : Loaded) (a : Agent)
    → with_signer lib flags (disk, loaded) ≡ runs a
    → Built flags a
signer-Built lib flags disk (refuses failure) a h = cc
signer-Built lib flags disk (signs signer) a h =
    key-Built lib disk flags signer (parse_relay_key lib disk flags.relay_key) a refl h

path-Built :
    (lib : KeyLib) (flags : Flags) (world : World) (path : Option Bytes) (a : Agent)
    → with_path lib flags world path ≡ runs a
    → Built flags a
path-Built lib flags world none a h = cc
path-Built lib flags world (some path) a h =
    let (disk, loaded) = load_or_create_signer lib world.fresh world.write path world.disk in
    signer-Built lib flags disk loaded a h

-- The local listener, if there is one, has a password.
abbrev pub HasPassword : Option (Bytes × Bytes) → Type 0
HasPassword none = Unit {0}
HasPassword (some (addr, pw)) = pw ≢ []

local_vnc-HasPassword : (flags : Flags) → HasPassword (local_vnc flags)
unfolding local_vnc
local_vnc-HasPassword flags =
    by_flags (not (bytes_eq flags.vnc_listen [])) (bytes_eq flags.vnc_password []) refl
  where
    by_flags :
        (listens blank : Bool)
        → bytes_eq flags.vnc_password [] ≡ blank
        → HasPassword (
            if listens
            then some (flags.vnc_listen, (if blank then codes "remotedesk" else flags.vnc_password))
            else none)
    by_flags false blank e = tt
    by_flags true true e = λ h. cc
    by_flags true false e = ne_of_bytes_eq flags.vnc_password [] e

pub main-Built :
    (lib : KeyLib) (flags : Flags) (world : World) (has_screen : Bool)
    → ((a : Agent) → (main lib flags world has_screen).1 ≡ runs a → Built flags a)
      × HasPassword (main lib flags world has_screen).0
unfolding main
main-Built lib flags world has_screen = by_flags flags.show_version has_screen flags.no_relay
  where
    start : Start
    start =
        with_path lib flags world
          (path_or_default flags.key_path (codes "host_key") world.base world.made)

    chosen : Bool → Bool → Bool → Option (Bytes × Bytes) × Start
    chosen version screen local_only =
        if version
        then (none, prints_version)
        else if not screen
        then (none, no_screen)
        else if local_only
        then (local_vnc flags, blocks)
        else (local_vnc flags, start)

    by_flags :
        (version screen local_only : Bool)
        → ((a : Agent) → (chosen version screen local_only).1 ≡ runs a → Built flags a)
          × HasPassword (chosen version screen local_only).0
    by_flags true screen local_only = ((λ a h. cc), tt)
    by_flags false false local_only = ((λ a h. cc), tt)
    by_flags false true true = ((λ a h. cc), local_vnc-HasPassword flags)
    by_flags false true false = (
      (λ a h.
          path-Built lib flags world
            (path_or_default flags.key_path (codes "host_key") world.base world.made) a h),
      local_vnc-HasPassword flags,
    )

-- Nobody is asked, or a yes was typed.
abbrev pub SaidYes : Flags → Option Bytes → Type 0
SaidYes flags read =
    (flags.unattended ≡ true) ⊎ ((line : Bytes) × (read ≡ some line) × Accepts line)

-- A console is there unless the flag asks for the tray, and it accepts what its user accepts.
abbrev pub Answers : Flags → Ui → Type 0
Answers flags (console ui) =
    (flags.use_tray ≡ false)
    × ((read : Option Bytes) → (confirm ui read ≡ true) ↔ SaidYes flags read)
Answers flags systray = flags.use_tray ≡ true

-- What the agent does of what its flags say.
pub record Guarded (flags : Flags) (a : Agent) : Type 0 where
  -- It asks, through its UI, unless it is unattended.
  pub asks : prompts a.cfg ≡ not flags.unattended
  pub answers : Answers flags a.ui
  -- It tells the relay the same, and keeps to it.
  pub told : (register_msg a.cfg).unattended ≡ flags.unattended
  pub mode : a.cfg.unattended ≡ flags.unattended
  -- The relay's key is checked unless the flag is blank.
  pub unchecked : (a.cfg.relay_key ≡ none) ↔ Spaces flags.relay_key
  -- An accepted data channel goes to the handler, whatever could be dialled.
  pub serves : (reached : Bool) → accept_data a.cfg chan_data true reached ≡ handled

not-and : (b : Bool) → (not b && true) ≡ not b
not-and true = refl
not-and false = refl

ui-Answers : (flags : Flags) → Answers flags (new_ui flags)
ui-Answers flags = by_flag flags.use_tray refl
  where
    ui : ConsoleUi
    ui = record { auto_accept = flags.unattended }

    by_flag : (b : Bool) → flags.use_tray ≡ b → Answers flags (if b then systray else console ui)
    by_flag true e = e
    by_flag false e = (e, confirm_iff ui)

agent-Guarded :
    (flags : Flags) (signer : Bytes) (key : Option Bytes)
    → (key ≡ none) ↔ Spaces flags.relay_key
    → Guarded flags (agent flags signer key)
unfolding accept_data handle_data
agent-Guarded flags signer key h = record {
  asks = not-and flags.unattended;
  answers = ui-Answers flags;
  told = refl;
  mode = refl;
  unchecked = h;
  serves = λ reached. refl;
}

Built-Guarded : (flags : Flags) (a : Agent) → Built flags a → Guarded flags a
Built-Guarded flags a (signer, key, same, h) =
    subst (Guarded flags) (sym same) (agent-Guarded flags signer key h)

-- The agent that the command runs asks its user unless it was told to be unattended, and tells the
-- relay so. It asks on the tray if it was told to, and otherwise on the console, which accepts exactly
-- if the agent is unattended or a yes is typed. It checks the relay's key unless that flag is blank, and hands each accepted data
-- channel to its handler. A local listener has a password.
pub host_guards :
    (lib : KeyLib) (flags : Flags) (world : World) (has_screen : Bool)
    → ((a : Agent) → (main lib flags world has_screen).1 ≡ runs a → Guarded flags a)
      × HasPassword (main lib flags world has_screen).0
host_guards lib flags world has_screen =
    let (built, password) = main-Built lib flags world has_screen in
    ((λ a h. Built-Guarded flags a (built a h)), password)
