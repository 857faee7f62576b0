-- ===== src/Relayd.antt =====
-- cmd/relayd/main.go: the keys that may connect, and the daemon's end.
use remotedesk.Prelude.{
  ℕ, zero, suc, Bool, true, false, not, List, [], ◌∷◌, ◌++◌, Option, none, some, Bytes, codes,
  bytes_eq, lookup, insert, length, if◌then◌else◌,
}
use remotedesk.Config.{
  KeyLib, Disk, ReadResult, found, missing, broken, read_file, load_or_create_signer, Loaded, signs,
  refuses, World, path_or_default,
}
use remotedesk.Relay.{Options}
pub mod Authorized
pub mod Daemon
mod Tests

-- The loop over the file's text. Each round takes one key off it.
unfoldable pub collect : KeyLib → ℕ → Bytes → List (Bytes × Bool) → List (Bytes × Bool)
collect lib zero text allowed = allowed
collect lib (suc n) [] allowed = allowed
collect lib (suc n) (c ∷ text) allowed = elim (lib.parse_authorized (c ∷ text)) [
  | none ↦ allowed
  | some (key, rest) ↦ collect lib n rest (insert key true allowed)
]

-- `allowed[k]`
abbrev pub is_allowed : Option Bool → Bool
is_allowed none = false
is_allowed (some b) = b

abbrev pub no_keys : List (Bytes × Bool) → Bool
no_keys [] = true
no_keys (entry ∷ allowed) = false

abbrev pub predicate : List (Bytes × Bool) → Option (Bytes → Bool)
predicate allowed = if no_keys allowed then none else some (λ key. is_allowed (lookup key allowed))

abbrev pub from_read : KeyLib → ReadResult → Option (Bytes → Bool)
from_read lib missing = none
from_read lib broken = none
from_read lib (found text) = predicate (collect lib (length text) text [])

-- The predicate on keys, or an error.
unfoldable pub load_authorized_keys : KeyLib → Disk → Bytes → Option (Bytes → Bool)
load_authorized_keys lib disk path = from_read lib (read_file path disk)

pub record Flags : Type 0 where
  pub show_version : Bool
  pub key_path : Bytes
  pub auth_keys : Bytes
  pub options : Options

-- What the daemon serves with.
pub record Setup : Type 0 where
  pub signer : Bytes
  pub authorize : Option (Bytes → Bool)
  pub options : Options

pub data Stage : Type 0 where
  no_dir no_signer no_authorized no_listener : Stage

pub data Start : Type 0 where
  prints_version : Start
  fatal : Stage → Start
  serves : Setup → Start

abbrev pub listening : Bool → Setup → Start
listening listens setup = if listens then serves setup else fatal no_listener

abbrev pub restricted : Bool → Bytes → Options → Option (Bytes → Bool) → Start
restricted listens signer options none = fatal no_authorized
restricted listens signer options (some authorize) =
    listening listens (record { signer = signer; authorize = some authorize; options = options })

-- The part of `main` after the host key: `authorize` stays nil only without a file.
abbrev pub authorized : KeyLib → Flags → Bool → Disk × Loaded → Start
authorized lib flags listens (disk, refuses failure) = fatal no_signer
authorized lib flags listens (disk, signs signer) =
    if not (bytes_eq flags.auth_keys [])
    then restricted listens signer flags.options (load_authorized_keys lib disk flags.auth_keys)
    else listening listens (record { signer = signer; authorize = none; options = flags.options })

abbrev pub with_path : KeyLib → Flags → World → Bool → Option Bytes → Start
with_path lib flags world listens none = fatal no_dir
with_path lib flags world listens (some path) =
    authorized lib flags listens (load_or_create_signer lib world.fresh world.write path world.disk)

-- `main`, up to `Serve`.
unfoldable pub main : KeyLib → Flags → World → Bool → Start
main lib flags world listens =
    if flags.show_version
    then prints_version
    else with_path lib flags world listens
        (path_or_default flags.key_path (codes "relay_host_key") world.base world.made)

-- What ends the daemon: `Serve` returns, or a signal comes.
pub data Cause : Type 0 where
  served signalled : Cause

pub data Act : Type 0 where
  closes_listener waits_for_serve exits_with_error exits_cleanly : Act

unfoldable pub shut_down : Cause → List Act
shut_down served = exits_with_error ∷ []
shut_down signalled = closes_listener ∷ waits_for_serve ∷ exits_cleanly ∷ []
