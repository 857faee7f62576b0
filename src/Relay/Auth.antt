-- ===== src/Relay/Auth.antt =====
-- `authenticate`: the PIN check with its lockout.
use remotedesk.Prelude.{
  ℕ, suc, ◌+◌, ◌≤◌, ◌≡◌, Bool, true, false, List, [], ◌∷◌, Bytes, bytes_eq, ltb, leb, ◌==◌,
  if◌then◌else◌,
}
use remotedesk.Relay.{Limits, HostReg}
pub mod Decision
pub mod Lockout
pub mod Rate

pub data AuthResult : Type 0 where
  auth_ok auth_bad_pin auth_locked : AuthResult

-- `crypto/subtle`: 1 if the two slices have the same length and contents, and 0 otherwise.
pub constant_time_compare : Bytes → Bytes → ℕ
constant_time_compare a b = if bytes_eq a b then 1 else 0

-- The two readings of the clock: the second one is made only where the attempt trips the lock.
unfoldable pub authenticate : Limits → ℕ → ℕ → HostReg → Bytes → HostReg × AuthResult × Bool
unfolding constant_time_compare
authenticate s now trip reg pin =
    let failures = reg.failures + 1 in
    if ltb now reg.lock_until
    then (reg, auth_locked, false)
    else if constant_time_compare pin reg.pin == 1
    then (record reg { failures = 0 }, auth_ok, false)
    else if leb s.max_pin_attempts failures
    then (record reg { failures = 0; lock_until = trip + s.lockout }, auth_locked, true)
    else (record reg { failures = failures }, auth_bad_pin, false)

-- One call of `authenticate` on a registration.
pub record Attempt : Type 0 where
  pub now : ℕ
  pub trip : ℕ
  pub pin : Bytes

-- The calls on one registration are serialised by `attemptMu`.
unfoldable pub attempt_all : Limits → HostReg → List Attempt → HostReg × List (AuthResult × Bool)
attempt_all s reg [] = (reg, [])
attempt_all s reg (a ∷ rest) =
    let (reg', res, just_locked) = authenticate s a.now a.trip reg a.pin in
    let (last, later) = attempt_all s reg' rest in (last, (res, just_locked) ∷ later)
