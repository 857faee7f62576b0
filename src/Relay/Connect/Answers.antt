-- ===== src/Relay/Connect/Answers.antt =====
-- What a viewer's request does to the open questions, and what it needs to get past the PIN check.
use remotedesk.Prelude.{
  ℕ, ◌+◌, ◌≡◌, refl, sym, ◌∙◌, ap, Bool, true, false, Option, none, some, Bytes, get_elem?, set,
  lookup, length, IfSome, arith, get_elem?-set_self, get_elem?-lt,
}
use remotedesk.Id.{new_id}
use remotedesk.Wire.{ConnectRequest}
use remotedesk.Relay.{HostReg, Server}
use remotedesk.Relay.Change.{
  Change, Calm, Calm-refl, Calm-then, IsUnattended, Shrinks, Shrunk, modify-Shrunk, set-Shrunk,
  Shrunk-Calm,
}
use remotedesk.Relay.Auth.{AuthResult, auth_ok, auth_bad_pin, auth_locked, authenticate}
use remotedesk.Relay.Auth.Decision.{authenticate_frame}
use remotedesk.Relay.Consent.{Consent, granted, denied, waiting, await_consent}
use remotedesk.Relay.Consent.Answers.{Asked, await_consent-Asked, send-Shrinks}
use remotedesk.Relay.Connect.{
  Env, Viewer, rejected, awaits, consented, bridged, gave_up, of_consent, Outcome, ask_for, on_auth,
  on_reg, on_host, serve_connect,
}

-- By the state in which the viewer's goroutine is left.
abbrev pub Requested : Server → Server × Viewer → Type 0
Requested s (t, rejected why) = Calm s t
Requested s (t, awaits addr session ch) =
    Change (some (addr, session)) none none s t
    × (ch ≡ length s.results)
    × (length t.results ≡ length s.results + 1)
Requested s (t, consented addr session) = Calm s t × IsUnattended s addr
Requested s (t, bridged addr session) = ⊥
Requested s (t, gave_up) = ⊥

of_Asked :
    (addr : ℕ) (session : Bytes) (reg : HostReg) (s : Server) (r : Server × Consent)
    → get_elem? s.regs addr ≡ some reg
    → Asked addr reg.unattended session s r
    → Requested s (r.0, of_consent addr session r.1)
of_Asked addr session reg s (t, granted) here (calm, mode) = (calm, (reg, here, mode))
of_Asked addr session reg s (t, denied) here calm = calm
of_Asked addr session reg s (t, waiting ch) here asked = asked

ask_for-Requested :
    (env : Env) (addr : ℕ) (reg : HostReg) (session : Option Bytes) (s : Server)
    → get_elem? s.regs addr ≡ some reg
    → IfSome (Requested s) (ask_for env addr reg session s)
unfolding ask_for
ask_for-Requested env addr reg none s here = tt
ask_for-Requested env addr reg (some session) s here =
    of_Asked addr session reg s (await_consent env.request_delivered addr reg.unattended session s)
      here (await_consent-Asked env.request_delivered addr reg.unattended session s)

on_auth-Requested :
    (env : Env) (addr : ℕ) (reg : HostReg) (res : AuthResult) (just_locked : Bool) (s : Server)
    → get_elem? s.regs addr ≡ some reg
    → IfSome (Requested s) (on_auth env addr reg res just_locked s)
unfolding on_auth
on_auth-Requested env addr reg auth_ok just_locked s here =
    ask_for-Requested env addr reg (new_id env.session_draw) s here
on_auth-Requested env addr reg auth_locked true s here =
    Shrunk-Calm s _ (modify-Shrunk addr _ s.regs (send-Shrinks _ _)) (omega arith) (λ ch e. e)
on_auth-Requested env addr reg auth_locked false s here = Calm-refl s
on_auth-Requested env addr reg auth_bad_pin just_locked s here = Calm-refl s

Requested-before :
    (s t : Server) (r : Server × Viewer)
    → Shrunk s.regs t.regs
    → t.results ≡ s.results
    → Requested t r
    → Requested s r
Requested-before s t (u, rejected why) h same c = Calm-then s t u h same c
Requested-before s t (u, awaits addr session ch) h same (c, n, room) =
    (Calm-then s t u h same c, n ∙ ap length same, room ∙ ap (λ l. length l + 1) same)
Requested-before s t (u, consented addr session) h same (c, (q, found, mode)) =
    let (reg, was, k) = h addr q found in
    (Calm-then s t u h same c, (reg, was, sym k.same_mode ∙ mode))
Requested-before s t (u, bridged addr session) h same n = absurd n
Requested-before s t (u, gave_up) h same n = absurd n

IfSome-before :
    (s t : Server) (o : Outcome)
    → Shrunk s.regs t.regs
    → t.results ≡ s.results
    → IfSome (Requested t) o
    → IfSome (Requested s) o
IfSome-before s t none h same c = tt
IfSome-before s t (some r) h same c = Requested-before s t r h same c

authenticate-Shrinks :
    (env : Env) (s : Server) (reg : HostReg) (pin : Bytes)
    → Shrinks reg (authenticate s.limits env.now env.trip reg pin).0
authenticate-Shrinks env s reg pin =
    let frame = authenticate_frame s.limits env.now env.trip reg pin in
    record { fewer = λ session ch e. ap (lookup session) (sym frame.5) ∙ e; same_mode = frame.2 }

on_reg-Requested :
    (env : Env) (pin : Bytes) (addr : ℕ) (found : Option HostReg) (s : Server)
    → get_elem? s.regs addr ≡ found
    → IfSome (Requested s) (on_reg env pin addr found s)
unfolding on_reg
on_reg-Requested env pin addr none s e = tt
on_reg-Requested env pin addr (some reg) s e =
    let result = authenticate s.limits env.now env.trip reg pin in
    IfSome-before s (record s { regs = set s.regs addr result.0 }) _
      (set-Shrunk addr s.regs reg result.0 e (authenticate-Shrinks env s reg pin)) refl
      (on_auth-Requested env addr result.0 result.1 result.2 _
        (get_elem?-set_self s.regs addr result.0 (get_elem?-lt s.regs addr reg e)))

on_host-Requested :
    (env : Env) (pin : Bytes) (found : Option ℕ) (s : Server)
    → IfSome (Requested s) (on_host env pin found s)
unfolding on_host
on_host-Requested env pin none s = Calm-refl s
on_host-Requested env pin (some addr) s =
    on_reg-Requested env pin addr (get_elem? s.regs addr) s refl

pub serve_connect-Requested :
    (env : Env) (req : Option ConnectRequest) (s : Server)
    → IfSome (Requested s) (serve_connect env req s)
unfolding serve_connect
serve_connect-Requested env none s = Calm-refl s
serve_connect-Requested env (some req) s = on_host-Requested env req.pin (lookup req.id s.hosts) s
