-- ===== src/Relay/Connect/Effect.antt =====
-- A viewer's request touches neither the registry nor any ID.
use remotedesk.Prelude.{
  ℕ, ◌≡◌, refl, Bool, true, false, Option, none, some, Bytes, get_elem?, lookup, IfSome,
}
use remotedesk.Id.{new_id}
use remotedesk.Wire.{ConnectRequest}
use remotedesk.Relay.{HostReg, Server}
use remotedesk.Relay.Store.{Keeps, Keeps-refl, Keeps-trans, set-SameIds}
use remotedesk.Relay.Auth.{AuthResult, auth_ok, auth_bad_pin, auth_locked, authenticate}
use remotedesk.Relay.Auth.Decision.{authenticate_frame}
use remotedesk.Relay.Consent.Effect.{update_reg-Keeps, await_consent-Keeps, send-id}
use remotedesk.Relay.Connect.{Env, Outcome, ask_for, on_auth, on_reg, on_host, serve_connect}

abbrev Kept : Server → Outcome → Type 0
Kept s = IfSome (λ r. Keeps s r.0)

ask_for-Keeps :
    (env : Env) (addr : ℕ) (reg : HostReg) (session : Option Bytes) (s : Server)
    → Kept s (ask_for env addr reg session s)
unfolding ask_for
ask_for-Keeps env addr reg none s = tt
ask_for-Keeps env addr reg (some session) s =
    await_consent-Keeps env.request_delivered addr reg.unattended session s

on_auth-Keeps :
    (env : Env) (addr : ℕ) (reg : HostReg) (res : AuthResult) (just_locked : Bool) (s : Server)
    → Kept s (on_auth env addr reg res just_locked s)
unfolding on_auth
on_auth-Keeps env addr reg auth_ok just_locked s =
    ask_for-Keeps env addr reg (new_id env.session_draw) s
on_auth-Keeps env addr reg auth_locked true s = update_reg-Keeps addr _ s (λ r. send-id _ _ r)
on_auth-Keeps env addr reg auth_locked false s = Keeps-refl s
on_auth-Keeps env addr reg auth_bad_pin just_locked s = Keeps-refl s

Kept-trans : {s t : Server} (o : Outcome) → Keeps s t → Kept t o → Kept s o
Kept-trans none h k = tt
Kept-trans (some r) h k = Keeps-trans h k

on_reg-Keeps :
    (env : Env) (pin : Bytes) (addr : ℕ) (found : Option HostReg) (s : Server)
    → get_elem? s.regs addr ≡ found
    → Kept s (on_reg env pin addr found s)
unfolding on_reg
on_reg-Keeps env pin addr none s e = tt
on_reg-Keeps env pin addr (some reg) s e =
    let result = authenticate s.limits env.now env.trip reg pin in
    Kept-trans _
      (record {
        same_hosts = refl;
        same_ids =
            set-SameIds addr s.regs result.0 e
              (authenticate_frame s.limits env.now env.trip reg pin).0;
      })
      (on_auth-Keeps env addr result.0 result.1 result.2 _)

on_host-Keeps :
    (env : Env) (pin : Bytes) (found : Option ℕ) (s : Server) → Kept s (on_host env pin found s)
unfolding on_host
on_host-Keeps env pin none s = Keeps-refl s
on_host-Keeps env pin (some addr) s = on_reg-Keeps env pin addr (get_elem? s.regs addr) s refl

pub serve_connect-Keeps :
    (env : Env) (req : Option ConnectRequest) (s : Server)
    → IfSome (λ r. Keeps s r.0) (serve_connect env req s)
unfolding serve_connect
serve_connect-Keeps env none s = Keeps-refl s
serve_connect-Keeps env (some req) s = on_host-Keeps env req.pin (lookup req.id s.hosts) s
