-- ===== src/Relay/System/Online/Invariant.antt =====
-- Every step of the relay keeps the registry in agreement with the control loops.
use remotedesk.Prelude.{
  ℕ, ◌≡◌, refl, sym, subst, inl, inr, Bool, List, [], ◌∷◌, ◌++◌, lookup-nil, Option, none, some,
  Bytes, set, get_elem?, set_same, IfSome, IfSome-some,
}
use mathlib.Core.Option
use remotedesk.Wire.{ControlMsg}
use remotedesk.Relay.{Server, Limits}
use remotedesk.Relay.Store.{Keeps}
use remotedesk.Relay.Consent.{Wake, end_consent}
use remotedesk.Relay.Consent.Effect.{end_consent-Keeps}
use remotedesk.Relay.Connect.{Viewer, Outcome, awaits, consented, serve_connect}
use remotedesk.Relay.Connect.Effect.{serve_connect-Keeps}
use remotedesk.Relay.Control.{Control, Draws, unregistered, registered, closed, serve_control}
use remotedesk.Relay.Control.Effect.{
  Effect, serve_control-Effect, end_control_registered, end_control_other,
}
use remotedesk.Relay.System.{
  System, Event, dial_control, control_msg, hang_up, dial_connect, wake, splice, step, step_control,
  step_hang_up, on_viewer, wake_viewer, woken, splice_viewer, Reach, start, next, boot,
}
use remotedesk.Relay.System.Online.{IsOnline, IsOnline-same}
use remotedesk.Relay.System.Online.Steps.{
  dial-IsOnline, close-IsOnline, leave-IsOnline, register-IsOnline,
}

abbrev pub Online : System → Type 0
Online sys = IsOnline sys.server.hosts sys.server.regs sys.controls

Keeps-IsOnline :
    {s t : Server} {controls : List Control}
    → Keeps s t
    → IsOnline s.hosts s.regs controls
    → IsOnline t.hosts t.regs controls
Keeps-IsOnline {s} {t} {controls} k v =
    subst (λ h. IsOnline h t.regs controls) (sym k.same_hosts) (IsOnline-same k.same_ids v)

Effect-Online :
    (sys : System) (addr : ℕ) (state : Control) (o : Option (Server × Control))
    → Online sys
    → get_elem? sys.controls addr ≡ some state
    → IfSome (Effect addr state sys.server) o
    → IfSome Online
        (Option.map (λ r. record sys { server = r.0; controls = set sys.controls addr r.1 }) o)
Effect-Online sys addr state none v here h = tt
Effect-Online sys addr state (some (t, state')) v here (inl (k, same)) =
    rw (same, set_same sys.controls addr state here) (Keeps-IsOnline k v)
Effect-Online sys addr state (some (t, state')) v here (inr (r, was, same)) =
    rw same (register-IsOnline v addr refl refl (rw was at here) r)

step_control-Online :
    (env : Draws) (addr : ℕ) (msg : ControlMsg) (found : Option Control) (sys : System)
    → Online sys
    → get_elem? sys.controls addr ≡ found
    → IfSome Online (step_control env addr msg found sys)
unfolding step_control
step_control-Online env addr msg none sys v e = v
step_control-Online env addr msg (some state) sys v e =
    Effect-Online sys addr state (serve_control env addr msg state sys.server) v e
      (serve_control-Effect env addr msg state sys.server)

step_hang_up-Online :
    (addr : ℕ) (found : Option Control) (sys : System)
    → Online sys
    → get_elem? sys.controls addr ≡ found
    → Online (step_hang_up addr found sys)
unfolding step_hang_up
step_hang_up-Online addr none sys v e = v
step_hang_up-Online addr (some registered) sys v e =
    let (id, at, found) = v.listed addr e in
    rw (end_control_registered addr sys.server at) (leave-IsOnline v addr id e at)
step_hang_up-Online addr (some unregistered) sys v e =
    rw (end_control_other addr unregistered sys.server (λ q. cc))
      (close-IsOnline v addr e (λ q. cc))
step_hang_up-Online addr (some closed) sys v e =
    rw (end_control_other addr closed sys.server (λ q. cc)) (close-IsOnline v addr e (λ q. cc))

connect-Online :
    (sys : System) (o : Outcome)
    → Online sys
    → IfSome (λ r. Keeps sys.server r.0) o
    → IfSome Online
        (Option.map (λ r. record sys { server = r.0; viewers = sys.viewers ++ (r.1 ∷ []) }) o)
connect-Online sys none v h = tt
connect-Online sys (some r) v h = Keeps-IsOnline h v

woken-Online :
    (addr : ℕ) (session : Bytes) (i : ℕ) (o : Option (Server × Bool)) (sys : System)
    → Online sys
    → IfSome (λ r. Keeps sys.server r.0) o
    → Online (woken addr session i o sys)
unfolding woken
woken-Online addr session i none sys v h = v
woken-Online addr session i (some (t, ok)) sys v h = Keeps-IsOnline h v

wake_viewer-Online :
    (w : Wake) (i : ℕ) (viewer : Option Viewer) (sys : System)
    → Online sys
    → Online (on_viewer viewer (wake_viewer w i) sys)
unfolding on_viewer wake_viewer
wake_viewer-Online w i none sys v = v
wake_viewer-Online w i (some (awaits addr session ch)) sys v =
    woken-Online addr session i (end_consent w addr session ch sys.server) sys v
      (end_consent-Keeps w addr session ch sys.server)
wake_viewer-Online w i (some viewer) sys v = v

splice_viewer-Online :
    (accepted opened : Bool) (i : ℕ) (viewer : Option Viewer) (sys : System)
    → Online sys
    → Online (on_viewer viewer (splice_viewer accepted opened i) sys)
unfolding on_viewer splice_viewer
splice_viewer-Online accepted opened i none sys v = v
splice_viewer-Online accepted opened i (some (consented addr session)) sys v = v
splice_viewer-Online accepted opened i (some viewer) sys v = v

step-Online : (e : Event) (sys : System) → Online sys → IfSome Online (step e sys)
unfolding step
step-Online (dial_control fp) sys v = dial-IsOnline v _
step-Online (control_msg env addr msg) sys v =
    step_control-Online env addr msg (get_elem? sys.controls addr) sys v refl
step-Online (hang_up addr) sys v = step_hang_up-Online addr (get_elem? sys.controls addr) sys v refl
step-Online (dial_connect env req) sys v =
    connect-Online sys (serve_connect env req sys.server) v (serve_connect-Keeps env req sys.server)
step-Online (wake w i) sys v = wake_viewer-Online w i (get_elem? sys.viewers i) sys v
step-Online (splice accepted opened i) sys v =
    splice_viewer-Online accepted opened i (get_elem? sys.viewers i) sys v

boot-Online : (limits : Limits) → Online (boot limits)
boot-Online limits = record {
  fits = refl;
  listed = λ a r. cc;
  live = λ id a found. cc (lookup-nil {V = ℕ} id);
}

-- In every state that the relay reaches, a host is in the registry exactly while its control loop
-- is registered: a registered loop's ID leads back to that loop, so no two of them share an ID; an
-- ID in the registry belongs to a registered loop, and its pointer does not dangle.
pub Reach-Online :
    {limits : Limits} {past : List Event} {sys : System} → Reach limits past sys → Online sys
Reach-Online {limits} start = boot-Online limits
Reach-Online (next {sys = before} e r taken) =
    IfSome-some Online _ _ (step-Online e before (Reach-Online r)) taken
