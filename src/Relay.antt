-- ===== src/Relay.antt =====
-- internal/relay/relay.go: the broker's state and its options.
-- `*hostReg` is shared between the registry, the control loop and the viewers' goroutines, so the
-- registrations live in a store, `regs`, and a pointer is an index of it. A result channel of
-- `awaitConsent` (capacity 1) is an index of `results`. Times and durations are numbers of
-- nanoseconds; each reading of the clock is an argument.
use remotedesk.Prelude.{
  ℕ, zero, suc, ◌*◌, Bool, true, false, List, [], ◌∷◌, Option, none, some, Bytes, ℤ, pos, negsuc,
}
use remotedesk.Wire.{ControlMsg}
pub mod Auth
pub mod Handle
pub mod Registry
pub mod Store
pub mod Change
pub mod Consent
pub mod Connect
pub mod Accept
pub mod Control
pub mod Splice
pub mod System
mod Tests

abbrev pub second : ℕ
second = 1_000_000_000

abbrev default_max_pin_attempts : ℕ
default_max_pin_attempts = 5

abbrev default_lockout : ℕ
default_lockout = 30 * second

abbrev default_handshake_timeout : ℕ
default_handshake_timeout = 15 * second

abbrev default_max_conns : ℕ
default_max_conns = 512

-- The options with an `int` or a `Duration`, which a caller may leave at zero, or set below it.
pub record Options : Type 0 where
  pub max_pin_attempts : ℤ
  pub lockout_duration : ℤ
  pub handshake_timeout : ℤ
  pub max_conns : ℤ

-- The same fields of a `Server`.
pub record Limits : Type 0 where
  pub max_pin_attempts : ℕ
  pub lockout : ℕ
  pub handshake_timeout : ℕ
  pub max_conns : ℕ

-- `if o <= 0 { o = d }`
abbrev or_default : ℤ → ℕ → ℕ
or_default (pos zero) d = d
or_default (pos (suc n)) d = suc n
or_default (negsuc n) d = d

pub new_with_options : Options → Limits
new_with_options o = record {
  max_pin_attempts = or_default o.max_pin_attempts default_max_pin_attempts;
  lockout = or_default o.lockout_duration default_lockout;
  handshake_timeout = or_default o.handshake_timeout default_handshake_timeout;
  max_conns = or_default o.max_conns default_max_conns;
}

-- A registered host agent. `sent` is what has been written to its control channel, in order.
pub record HostReg : Type 0 where
  pub id : Bytes
  pub pin : Bytes
  pub unattended : Bool
  pub fp : Bytes
  pub sent : List ControlMsg
  pub pending : List (Bytes × ℕ)
  pub failures : ℕ
  pub lock_until : ℕ

pub record Server : Type 0 where
  pub limits : Limits
  pub hosts : List (Bytes × ℕ)
  pub regs : List HostReg
  pub results : List (Option Bool)
