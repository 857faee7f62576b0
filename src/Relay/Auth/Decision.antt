-- ===== src/Relay/Auth/Decision.antt =====
-- What one PIN check decides.
use remotedesk.Prelude.{
  ℕ, ◌+◌, ◌≤◌, ◌<◌, ◌≡◌, ◌≢◌, ◌↔◌, ◌⊎◌, true, false, Bytes, bytes_eq_iff, arith,
}
use remotedesk.Relay.{Limits, HostReg}
use remotedesk.Relay.Auth.{auth_ok, auth_bad_pin, auth_locked, authenticate}

module _ (s : Limits) (now trip : ℕ) (reg : HostReg) (pin : Bytes) where
  -- The result is `auth_ok` exactly when the host is not locked and the PIN is the host's;
  -- `auth_bad_pin` exactly when it is not locked, the PIN differs and the failure count stays below
  -- the limit.
  pub authenticate_decides :
      (((authenticate s now trip reg pin).1 ≡ auth_ok) ↔ ((reg.lock_until ≤ now) × (pin ≡ reg.pin)))
      × (((authenticate s now trip reg pin).1 ≡ auth_bad_pin)
          ↔ ((reg.lock_until ≤ now) × (pin ≢ reg.pin) × (reg.failures + 1 < s.max_pin_attempts)))
  unfolding authenticate
  authenticate_decides = ground (arith, bytes_eq_iff pin reg.pin)

  -- The effect on the record: only the two counters change.
  pub authenticate_frame :
      let r = (authenticate s now trip reg pin).0 in
      (r.id ≡ reg.id)
      × (r.pin ≡ reg.pin)
      × (r.unattended ≡ reg.unattended)
      × (r.fp ≡ reg.fp)
      × (r.sent ≡ reg.sent)
      × (r.pending ≡ reg.pending)
  unfolding authenticate
  authenticate_frame = ground arith

  -- What a wrong PIN does: refused under a lock, counted, or counted and locking.
  pub wrong_pin_cases :
      pin ≢ reg.pin
      → ((now < reg.lock_until) × (authenticate s now trip reg pin ≡ (reg, auth_locked, false)))
        ⊎ ((reg.lock_until ≤ now)
            × (reg.failures + 1 < s.max_pin_attempts)
            × (authenticate s now trip reg pin
                ≡ (record reg { failures = reg.failures + 1 }, auth_bad_pin, false)))
        ⊎ ((reg.lock_until ≤ now)
            × (s.max_pin_attempts ≤ reg.failures + 1)
            × (authenticate s now trip reg pin
                ≡ (record reg { failures = 0; lock_until = trip + s.lockout }, auth_locked, true)))
  unfolding authenticate
  wrong_pin_cases h = ground (arith, bytes_eq_iff pin reg.pin)
