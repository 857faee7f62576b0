-- ===== src/Relay/Connect/Knocks.antt =====
-- Viewers of one host, one after the other, and what each of them leaves.
use remotedesk.Prelude.{
  ℕ, zero, suc, ◌≡◌, ◌≢◌, refl, ap, sym, ◌∙◌, true, false, List, [], ◌∷◌, Option, none, some, Bytes,
  set, modify, get_elem?, lookup, get_elem?-set_ne,
}
use remotedesk.Relay.{HostReg, Server}
use remotedesk.Relay.Auth.{auth_bad_pin, auth_locked, authenticate, Attempt}
use remotedesk.Relay.Registry.{send}
use remotedesk.Relay.Connect.{
  Env, Viewer, rejected, invalid_pin, too_many_attempts, alert_msg, alert_text, Outcome, on_auth,
  check_pin, on_reg, on_host, serve_connect,
}

-- A viewer that asks for a host, with a PIN.
abbrev pub Knock : Type 0
Knock = Env × Bytes

abbrev pub attempt_of : Knock → Attempt
attempt_of (env, pin) = record { now = env.now; trip = env.trip; pin = pin }

abbrev also : Viewer → Option (Server × List Viewer) → Option (Server × List Viewer)
also v none = none
also v (some (s, vs)) = some (s, v ∷ vs)

abbrev and_then : Outcome → (Server → Option (Server × List Viewer)) → Option (Server × List Viewer)
and_then none later = none
and_then (some (s, v)) later = also v (later s)

-- The viewers of one host, one after the other.
abbrev pub visits : Bytes → List Knock → Server → Option (Server × List Viewer)
visits id [] s = some (s, [])
visits id ((env, pin) ∷ knocks) s =
    and_then (serve_connect env (some (record { id = id; pin = pin })) s) (λ t. visits id knocks t)

-- The host at an address of the store.
abbrev pub IsAt : Bytes → ℕ → HostReg → Server → Type 0
IsAt id addr reg s = (lookup id s.hosts ≡ some addr) × (get_elem? s.regs addr ≡ some reg)

-- The server is as before but for the registration at the address.
pub record Frame (addr : ℕ) (s t : Server) : Type 0 where
  pub same_limits : t.limits ≡ s.limits
  pub same_hosts : t.hosts ≡ s.hosts
  pub same_others : (i : ℕ) → i ≢ addr → get_elem? t.regs i ≡ get_elem? s.regs i

-- The viewers are answered, and leave the registration as given.
abbrev pub Leaves : Bytes → ℕ → List Knock → HostReg → List Viewer → Server → Type 0
Leaves id addr knocks reg answers s =
    (t : Server) × (visits id knocks s ≡ some (t, answers)) × IsAt id addr reg t × Frame addr s t

Frame-trans : {addr : ℕ} {s t u : Server} → Frame addr s t → Frame addr t u → Frame addr s u
Frame-trans h k = record {
  same_limits = k.same_limits ∙ h.same_limits;
  same_hosts = k.same_hosts ∙ h.same_hosts;
  same_others = λ i ne. k.same_others i ne ∙ h.same_others i ne;
}

pub Leaves-cons :
    (id pin : Bytes) (addr : ℕ) (env : Env) (knocks : List Knock) {reg : HostReg} (v : Viewer)
    {answers : List Viewer} {s t : Server}
    → serve_connect env (some (record { id = id; pin = pin })) s ≡ some (t, v)
    → Frame addr s t
    → Leaves id addr knocks reg answers t
    → Leaves id addr ((env, pin) ∷ knocks) reg (v ∷ answers) s
Leaves-cons id pin addr env knocks v e frame (u, ran, at, more) = (
  u,
  ap (λ o. and_then o (λ t. visits id knocks t)) e ∙ ap (also v) ran,
  at,
  Frame-trans frame more,
)

pub set_found :
    (regs : List HostReg) (i : ℕ) {r : HostReg} (q : HostReg)
    → get_elem? regs i ≡ some r
    → get_elem? (set regs i q) i ≡ some q
set_found [] i q e = cc
set_found (x ∷ regs) zero q e = refl
set_found (x ∷ regs) (suc i) q e = set_found regs i q e

abbrev pub put : ℕ → HostReg → Server → Server
put addr reg s = record s { regs = set s.regs addr reg }

pub put-IsAt :
    (id : Bytes) (addr : ℕ) (reg new : HostReg) (s : Server)
    → IsAt id addr reg s
    → IsAt id addr new (put addr new s)
put-IsAt id addr reg new s (at, found) = (at, set_found s.regs addr new found)

pub put-Frame : (addr : ℕ) (new : HostReg) (s : Server) → Frame addr s (put addr new s)
put-Frame addr new s = record {
  same_limits = refl;
  same_hosts = refl;
  same_others = λ i ne. get_elem?-set_ne s.regs addr i new (λ e. ne (sym e));
}

-- `serveConnect` where `authenticate` is wrong or locked without an alert.
pub refused :
    (env : Env) (id pin : Bytes) (addr : ℕ) (reg new : HostReg) (s : Server)
    → IsAt id addr reg s
    → authenticate s.limits env.now env.trip reg pin ≡ (new, auth_locked, false)
    → serve_connect env (some (record { id = id; pin = pin })) s
      ≡ some (put addr new s, rejected too_many_attempts)
unfolding serve_connect on_host on_reg check_pin on_auth
refused env id pin addr reg new s (at, found) e = rw (at, found, e) refl

pub counted :
    (env : Env) (id pin : Bytes) (addr : ℕ) (reg new : HostReg) (s : Server)
    → IsAt id addr reg s
    → authenticate s.limits env.now env.trip reg pin ≡ (new, auth_bad_pin, false)
    → serve_connect env (some (record { id = id; pin = pin })) s
      ≡ some (put addr new s, rejected invalid_pin)
unfolding serve_connect on_host on_reg check_pin on_auth
counted env id pin addr reg new s (at, found) e = rw (at, found, e) refl

-- The same server after the alert.
abbrev pub alerted : Env → ℕ → HostReg → Server → Server
alerted env addr new s = record s {
  regs = modify addr (send env.alert_delivered (alert_msg alert_text)) (set s.regs addr new);
}

pub tripped :
    (env : Env) (id pin : Bytes) (addr : ℕ) (reg new : HostReg) (s : Server)
    → IsAt id addr reg s
    → authenticate s.limits env.now env.trip reg pin ≡ (new, auth_locked, true)
    → serve_connect env (some (record { id = id; pin = pin })) s
      ≡ some (alerted env addr new s, rejected too_many_attempts)
unfolding serve_connect on_host on_reg check_pin on_auth
tripped env id pin addr reg new s (at, found) e = rw (at, found, e) refl
