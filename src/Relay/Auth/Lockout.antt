-- ===== src/Relay/Auth/Lockout.antt =====
-- What one attempt does to the lockout: it is refused under the lock, it counts, or it trips the lock.
use remotedesk.Prelude.{ℕ, ◌+◌, ◌≤◌, ◌<◌, ◌≡◌, ◌≢◌, inl, inr, true, false, Bytes, arith}
use remotedesk.Relay.{Limits, HostReg}
use remotedesk.Relay.Auth.{auth_bad_pin, auth_locked, authenticate}
use remotedesk.Relay.Auth.Decision.{wrong_pin_cases}

pub locked_refuses :
    (s : Limits) (now trip : ℕ) (reg : HostReg) (pin : Bytes)
    → now < reg.lock_until
    → authenticate s now trip reg pin ≡ (reg, auth_locked, false)
unfolding authenticate
locked_refuses s now trip reg pin h = ground arith

pub wrong_pin_counts :
    (s : Limits) (now trip : ℕ) (reg : HostReg) (pin : Bytes)
    → pin ≢ reg.pin
    → reg.lock_until ≤ now
    → reg.failures + 1 < s.max_pin_attempts
    → authenticate s now trip reg pin
      ≡ (record reg { failures = reg.failures + 1 }, auth_bad_pin, false)
wrong_pin_counts s now trip reg pin h unlocked few = elim (wrong_pin_cases s now trip reg pin h) [
  | inl (locked, e) ↦ absurd (omega arith)
  | inr (inl (o, f, e)) ↦ e
  | inr (inr (o, many, e)) ↦ absurd (omega arith)
]

pub wrong_pin_trips :
    (s : Limits) (now trip : ℕ) (reg : HostReg) (pin : Bytes)
    → pin ≢ reg.pin
    → reg.lock_until ≤ now
    → s.max_pin_attempts ≤ reg.failures + 1
    → authenticate s now trip reg pin
      ≡ (record reg { failures = 0; lock_until = trip + s.lockout }, auth_locked, true)
wrong_pin_trips s now trip reg pin h unlocked many = elim (wrong_pin_cases s now trip reg pin h) [
  | inl (locked, e) ↦ absurd (omega arith)
  | inr (inl (o, few, e)) ↦ absurd (omega arith)
  | inr (inr (o, m, e)) ↦ e
]
