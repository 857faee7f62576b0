-- ===== src/Relay/Connect/Admission.antt =====
-- Who gets past the PIN check.
use remotedesk.Prelude.{
  ℕ, ◌≤◌, ◌≡◌, ◌↔◌, refl, Bool, true, false, Option, none, some, Bytes, get_elem?, lookup, IfSome,
}
use remotedesk.Id.{new_id}
use remotedesk.Wire.{ConnectRequest}
use remotedesk.Relay.{HostReg, Server}
use remotedesk.Relay.Auth.{AuthResult, auth_ok, auth_bad_pin, auth_locked, authenticate}
use remotedesk.Relay.Auth.Decision.{authenticate_decides}
use remotedesk.Relay.Consent.{Consent, granted, denied, waiting}
use remotedesk.Relay.Connect.{
  Env, Viewer, rejected, bad_request, no_such_host, too_many_attempts, invalid_pin,
  rejected_by_host, awaits, consented, bridged, gave_up, of_consent, Outcome, ask_for, on_auth,
  check_pin, on_reg, on_host, serve_connect,
}

-- The states that a viewer reaches only behind the PIN check.
abbrev pub IsPastPin : Viewer → Type 0
IsPastPin (rejected rejected_by_host) = Unit {0}
IsPastPin (rejected bad_request) = ⊥
IsPastPin (rejected no_such_host) = ⊥
IsPastPin (rejected too_many_attempts) = ⊥
IsPastPin (rejected invalid_pin) = ⊥
IsPastPin (awaits addr session ch) = Unit {0}
IsPastPin (consented addr session) = Unit {0}
IsPastPin (bridged addr session) = Unit {0}
IsPastPin gave_up = Unit {0}

-- The PIN is that of the host at `addr`, which is not locked at `now`.
abbrev pub Fits : ℕ → Bytes → HostReg → Type 0
Fits now pin reg = (reg.lock_until ≤ now) × (pin ≡ reg.pin)

-- The request is well formed, its host is online and not locked, and its PIN is the host's.
abbrev pub Admission : Env → Option ConnectRequest → Server → Type 0
Admission env req s =
    (r : ConnectRequest) × (addr : ℕ) × (reg : HostReg) × (req ≡ some r)
    × (lookup r.id s.hosts ≡ some addr)
    × (get_elem? s.regs addr ≡ some reg)
    × Fits env.now r.pin reg

of_consent-IsPastPin :
    (addr : ℕ) (session : Bytes) (c : Consent) → IsPastPin (of_consent addr session c)
of_consent-IsPastPin addr session granted = tt
of_consent-IsPastPin addr session denied = tt
of_consent-IsPastPin addr session (waiting ch) = tt

ask_for-IsPastPin :
    (env : Env) (addr : ℕ) (reg : HostReg) (session : Option Bytes) (s : Server)
    → IfSome (λ r. IsPastPin r.1) (ask_for env addr reg session s)
unfolding ask_for
ask_for-IsPastPin env addr reg none s = tt
ask_for-IsPastPin env addr reg (some session) s = of_consent-IsPastPin addr session _

on_auth_passes :
    (env : Env) (addr : ℕ) (reg : HostReg) (res : AuthResult) (just_locked : Bool) (s : Server)
    → IfSome (λ r. IsPastPin r.1 ↔ (res ≡ auth_ok)) (on_auth env addr reg res just_locked s)
unfolding on_auth
on_auth_passes env addr reg auth_ok just_locked s =
    both (ask_for env addr reg (new_id env.session_draw) s)
      (ask_for-IsPastPin env addr reg (new_id env.session_draw) s)
  where
    both :
        (o : Outcome)
        → IfSome (λ r. IsPastPin r.1) o
        → IfSome (λ r. IsPastPin r.1 ↔ (auth_ok ≡ auth_ok)) o
    both none h = tt
    both (some r) h = (λ _. refl, λ _. h)
on_auth_passes env addr reg auth_locked true s = (λ h. absurd h, λ e. cc)
on_auth_passes env addr reg auth_locked false s = (λ h. absurd h, λ e. cc)
on_auth_passes env addr reg auth_bad_pin just_locked s = (λ h. absurd h, λ e. cc)

check_pin_passes :
    (env : Env) (addr : ℕ) (reg : HostReg) (pin : Bytes) (s : Server)
    → IfSome (λ r. IsPastPin r.1 ↔ Fits env.now pin reg) (check_pin env addr reg pin s)
unfolding check_pin
check_pin_passes env addr reg pin s = decide _ (
    on_auth_passes env addr (authenticate s.limits env.now env.trip reg pin).0
      (authenticate s.limits env.now env.trip reg pin).1
      (authenticate s.limits env.now env.trip reg pin).2 _)
  where
    decide :
        (o : Outcome)
        → IfSome
            (λ r. IsPastPin r.1 ↔ ((authenticate s.limits env.now env.trip reg pin).1 ≡ auth_ok))
            o
        → IfSome (λ r. IsPastPin r.1 ↔ Fits env.now pin reg) o
    decide none h = tt
    decide (some r) h =
        let (to, from) = (authenticate_decides s.limits env.now env.trip reg pin).0 in
        (λ p. to (h.0 p), λ f. h.1 (from f))

on_reg_passes :
    (env : Env) (req : ConnectRequest) (addr : ℕ) (found : Option HostReg) (s : Server)
    → lookup req.id s.hosts ≡ some addr
    → get_elem? s.regs addr ≡ found
    → IfSome (λ r. IsPastPin r.1 ↔ Admission env (some req) s) (on_reg env req.pin addr found s)
unfolding on_reg
on_reg_passes env req addr none s at e = tt
on_reg_passes env req addr (some reg) s at e =
    decide (check_pin env addr reg req.pin s) (check_pin_passes env addr reg req.pin s)
  where
    fits_only :
        (q : ConnectRequest) (a : ℕ) (r : HostReg)
        → some req ≡ some q
        → lookup q.id s.hosts ≡ some a
        → get_elem? s.regs a ≡ some r
        → Fits env.now q.pin r
        → Fits env.now req.pin reg
    fits_only q a r same at' found fits = let eq : reg ≡ r = cc in (rw eq fits.0, cc)

    decide :
        (o : Outcome)
        → IfSome (λ r. IsPastPin r.1 ↔ Fits env.now req.pin reg) o
        → IfSome (λ r. IsPastPin r.1 ↔ Admission env (some req) s) o
    decide none h = tt
    decide (some r) h = (
      λ p. (req, addr, reg, refl, at, e, h.0 p),
      λ (q, a, x, same, at', found, fits). h.1 (fits_only q a x same at' found fits),
    )

on_host_passes :
    (env : Env) (req : ConnectRequest) (found : Option ℕ) (s : Server)
    → lookup req.id s.hosts ≡ found
    → IfSome (λ r. IsPastPin r.1 ↔ Admission env (some req) s) (on_host env req.pin found s)
unfolding on_host
on_host_passes env req none s e = (λ h. absurd h, λ (q, addr, reg, same, at, found, fits). cc)
on_host_passes env req (some addr) s e = on_reg_passes env req addr (get_elem? s.regs addr) s e refl

-- A viewer gets past the PIN check exactly when its request is well formed, names a host that is
-- online and not locked, and carries that host's PIN. (No outcome is a panic of `rand.Int`.)
pub serve_connect_admits :
    (env : Env) (req : Option ConnectRequest) (s : Server)
    → IfSome (λ r. IsPastPin r.1 ↔ Admission env req s) (serve_connect env req s)
unfolding serve_connect
serve_connect_admits env none s = (λ h. absurd h, λ (q, addr, reg, same, at, found, fits). cc)
serve_connect_admits env (some req) s = on_host_passes env req (lookup req.id s.hosts) s refl
