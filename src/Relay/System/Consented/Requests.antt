-- ===== src/Relay/System/Consented/Requests.antt =====
-- What the hosts and the viewers' requests do keeps the invariant.
use remotedesk.Prelude.{
  ℕ, ◌≡◌, refl, sym, subst, ap, inl, inr, Bool, true, false, List, [], ◌∷◌, ◌++◌, Option, none,
  some, Bytes, length, lookup-nil, set, get_elem?-append_cases, IfSome, arith,
}
use mathlib.Core.Option
use remotedesk.Wire.{ControlMsg, Op}
use remotedesk.Relay.{Server, HostReg}
use remotedesk.Relay.Change.{Change, Calm, Calm-refl}
use remotedesk.Relay.Connect.{Viewer, Outcome, rejected, awaits, consented, bridged, gave_up}
use remotedesk.Relay.Connect.Answers.{Requested}
use remotedesk.Relay.Control.{Control, Draws, new_reg, serve_control}
use remotedesk.Relay.Control.Answers.{accepts, opens, serve_control-Change, end_control-Calm}
use remotedesk.Relay.System.{System, Event, control_msg, hang_up, step_control, step_hang_up}
use remotedesk.Relay.System.Consented.{IsConsented}
use remotedesk.Relay.System.Consented.Steps.{Says, SaysOpen, Enters, Moved, change-IsConsented}

abbrev pub Consented : List Event → System → Type 0
Consented past sys = IsConsented past sys.server sys.viewers

-- A step that opens no question and moves no viewer.
pub Calm-Consented :
    {past : List Event} {s t : Server} {viewers : List Viewer} (e : Event)
    → IsConsented past s viewers
    → Calm s t
    → IsConsented (e ∷ past) t viewers
Calm-Consented {viewers = vs} e v c =
    change-IsConsented vs vs e none none none v c tt tt (λ i viewer h. inl h) (λ a q ch h. absurd h)

pub dial-Calm : (fp : Bytes) (s : Server) → Calm s (record s { regs = s.regs ++ (new_reg fp ∷ []) })
dial-Calm fp s = record {
  room = omega arith;
  asked = λ addr session ch (reg, found, waits).
      elim (get_elem?-append_cases s.regs (new_reg fp) reg addr found) [
        | inl old ↦ inl (reg, old, waits)
        | inr (_, new) ↦ cc (ap (λ (r : HostReg). r.pending) new, lookup-nil {V = ℕ} session)
      ];
  answered = λ ch e. inl e;
  opened = λ addr (reg, found, mode).
      elim (get_elem?-append_cases s.regs (new_reg fp) reg addr found) [
        | inl old ↦ inl (reg, old, mode)
        | inr (_, new) ↦ cc (ap (λ (r : HostReg). r.unattended) new)
      ];
}

accepts-Says :
    (env : Draws) (addr : ℕ) (msg : ControlMsg) (op : Op)
    → msg.op ≡ op
    → Says (accepts addr op msg.session) (control_msg env addr msg)
accepts-Says env addr msg Op.accept e = (refl, e, refl)
accepts-Says env addr msg _ e = tt

opens-SaysOpen :
    (env : Draws) (addr : ℕ) (msg : ControlMsg) (op : Op) (unattended : Bool)
    → msg.op ≡ op
    → msg.unattended ≡ unattended
    → SaysOpen (opens addr op unattended) (control_msg env addr msg)
opens-SaysOpen env addr msg Op.register true e u = (refl, e, u)
opens-SaysOpen env addr msg Op.register false e u = tt
opens-SaysOpen env addr msg _ unattended e u = tt

control-Consented :
    {past : List Event} (env : Draws) (addr : ℕ) (msg : ControlMsg) (sys : System)
    (o : Option (Server × Control))
    → Consented past sys
    → IfSome
        (λ r.
          Change none
            (accepts addr msg.op msg.session)
            (opens addr msg.op msg.unattended)
            sys.server
            r.0)
        o
    → IfSome
        (Consented (control_msg env addr msg ∷ past))
        (Option.map (λ r. record sys { server = r.0; controls = set sys.controls addr r.1 }) o)
control-Consented env addr msg sys none v c = tt
control-Consented env addr msg sys (some r) v c =
    change-IsConsented sys.viewers sys.viewers (control_msg env addr msg) none
      (accepts addr msg.op msg.session) (opens addr msg.op msg.unattended) v c
      (accepts-Says env addr msg msg.op refl)
      (opens-SaysOpen env addr msg msg.op msg.unattended refl refl) (λ i viewer h. inl h)
      (λ a q ch h. absurd h)

pub step_control-Consented :
    {past : List Event} (env : Draws) (addr : ℕ) (msg : ControlMsg) (found : Option Control)
    (sys : System)
    → Consented past sys
    → IfSome (Consented (control_msg env addr msg ∷ past)) (step_control env addr msg found sys)
unfolding step_control
step_control-Consented env addr msg none sys v =
    Calm-Consented (control_msg env addr msg) v (Calm-refl sys.server)
step_control-Consented env addr msg (some state) sys v =
    control-Consented env addr msg sys (serve_control env addr msg state sys.server) v
      (serve_control-Change env addr msg state sys.server)

pub step_hang_up-Consented :
    {past : List Event} (addr : ℕ) (found : Option Control) (sys : System)
    → Consented past sys
    → Consented (hang_up addr ∷ past) (step_hang_up addr found sys)
unfolding step_hang_up
step_hang_up-Consented addr none sys v = Calm-Consented (hang_up addr) v (Calm-refl sys.server)
step_hang_up-Consented addr (some state) sys v =
    Calm-Consented (hang_up addr) v (end_control-Calm addr state sys.server)

-- A new viewer at the end of the list.
joins :
    (past : List Event) (ask : Option (ℕ × Bytes)) (n : ℕ) (viewers : List Viewer) (new : Viewer)
    → Enters past ask n new
    → Moved past ask n viewers (viewers ++ (new ∷ []))
joins past ask n viewers new h i v found = elim (get_elem?-append_cases viewers new v i found) [
  | inl old ↦ inl old
  | inr (_, same) ↦ inr (subst (Enters past ask n) (sym same) h)
]

pub request-Consented :
    {past : List Event} (e : Event) (sys : System) (o : Outcome)
    → Consented past sys
    → IfSome (Requested sys.server) o
    → IfSome
        (Consented (e ∷ past))
        (Option.map (λ r. record sys { server = r.0; viewers = sys.viewers ++ (r.1 ∷ []) }) o)
request-Consented e sys none v h = tt
request-Consented {past} e sys (some (t, rejected why)) v c =
    change-IsConsented sys.viewers _ e none none none v c tt tt
      (joins (e ∷ past) none (length sys.server.results) sys.viewers (rejected why) tt)
      (λ a q ch h. absurd h)
request-Consented {past} e sys (some (t, awaits addr session ch)) v (c, n, room) =
    change-IsConsented sys.viewers _ e (some (addr, session)) none none v c tt tt
      (joins (e ∷ past) (some (addr, session)) (length sys.server.results) sys.viewers
        (awaits addr session ch) (refl, refl, n))
      (λ a q k h. omega (arith, h.2, room))
request-Consented {past} e sys (some (t, consented addr session)) v (c, mode) =
    change-IsConsented sys.viewers _ e none none none v c tt tt
      (joins (e ∷ past) none (length sys.server.results) sys.viewers (consented addr session)
        (inl (inr (v.mode_said addr mode))))
      (λ a q ch h. absurd h)
request-Consented e sys (some (t, bridged addr session)) v h = absurd h
request-Consented e sys (some (t, gave_up)) v h = absurd h
