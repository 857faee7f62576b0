-- ===== src/Relay/Control/Effect.antt =====
-- What one message of the control loop does to the registry.
use remotedesk.Prelude.{
  ℕ, ◌≡◌, ◌≢◌, ap, true, false, lookup, insert, refl, ◌∙◌, sym, ◌⊎◌, inl, inr, Bool, Option, none,
  some, Bytes, get_elem?, delete, IfSome,
}
use remotedesk.Wire.{ControlMsg, Op}
use remotedesk.Relay.{HostReg, Server}
use remotedesk.Relay.Store.{Keeps, Keeps-refl, id_at, get_elem?-id_at}
use remotedesk.Relay.Registry.Effect.{Registers, register-Registers}
use remotedesk.Relay.Consent.Effect.{update_reg-Keeps, resolve-Keeps, send-id}
use remotedesk.Relay.Control.{
  Control, unregistered, registered, closed, Draws, answer, on_register, resolve_at, on_op,
  serve_control, end_control,
}

-- Either nothing happens to the registry, or the host is registered.
abbrev pub Effect : ℕ → Control → Server → Server × Control → Type 0
Effect addr state s (t, state') =
    (Keeps s t × (state' ≡ state))
    ⊎ (Registers addr s t × (state ≡ unregistered) × (state' ≡ registered))

Registers-within :
    {addr : ℕ} {s t u v : Server} → Keeps s t → Registers addr t u → Keeps u v → Registers addr s v
Registers-within {addr} h r k = record {
  id = r.id;
  free = ap (lookup r.id) (sym h.same_hosts) ∙ r.free;
  entered = k.same_hosts ∙ r.entered ∙ ap (insert r.id addr) h.same_hosts;
  same_length = k.same_ids.same_length ∙ r.same_length ∙ h.same_ids.same_length;
  own = λ lt. k.same_ids.same_id addr ∙ r.own (rw h.same_ids.same_length lt);
  others = λ a ne. k.same_ids.same_id a ∙ r.others a ne ∙ h.same_ids.same_id a;
}

answer-Effect :
    (env : Draws) (addr : ℕ) (s t : Server) (o : Option Server)
    → Keeps s t
    → IfSome (Registers addr t) o
    → IfSome (Effect addr unregistered s) (answer env addr o)
unfolding answer
answer-Effect env addr s t none k h = tt
answer-Effect env addr s t (some u) k h =
    inr (Registers-within k h (update_reg-Keeps addr _ u (λ r. send-id _ _ r)), refl, refl)

on_register-Effect :
    (env : Draws) (addr : ℕ) (unattended : Bool) (s : Server)
    → IfSome (Effect addr unregistered s) (on_register env addr unattended s)
unfolding on_register
on_register-Effect env addr unattended s =
    answer-Effect env addr s _ _ (update_reg-Keeps addr _ s (λ r. refl))
      (register-Registers env.id_draws env.pin_draw addr _)

on_reply-Keeps :
    (found : Option HostReg) (session : Bytes) (ok : Bool) (s : Server)
    → Keeps s (resolve_at found session ok s)
unfolding resolve_at
on_reply-Keeps none session ok s = Keeps-refl s
on_reply-Keeps (some reg) session ok s = resolve-Keeps reg session ok s

on_op-Effect :
    (env : Draws) (addr : ℕ) (op : Op) (msg : ControlMsg) (state : Control) (s : Server)
    → IfSome (Effect addr state s) (on_op env addr op msg state s)
unfolding on_op
on_op-Effect env addr Op.register msg unregistered s = on_register-Effect env addr msg.unattended s
on_op-Effect env addr Op.register msg registered s = inl (Keeps-refl s, refl)
on_op-Effect env addr Op.register msg closed s = inl (Keeps-refl s, refl)
on_op-Effect env addr Op.accept msg state s =
    inl (on_reply-Keeps (get_elem? s.regs addr) msg.session true s, refl)
on_op-Effect env addr Op.reject msg state s =
    inl (on_reply-Keeps (get_elem? s.regs addr) msg.session false s, refl)
on_op-Effect env addr op msg state s = inl (Keeps-refl s, refl)

pub serve_control-Effect :
    (env : Draws) (addr : ℕ) (msg : ControlMsg) (state : Control) (s : Server)
    → IfSome (Effect addr state s) (serve_control env addr msg state s)
unfolding serve_control
serve_control-Effect env addr msg closed s = inl (Keeps-refl s, refl)
serve_control-Effect env addr msg state s = on_op-Effect env addr msg.op msg state s

-- The end of a registered loop takes its own ID out of the registry.
pub end_control_registered :
    (addr : ℕ) (s : Server) {id : Bytes}
    → id_at s.regs addr ≡ some id
    → end_control addr registered s ≡ record s { hosts = delete id s.hosts }
unfolding end_control
end_control_registered addr s {id} e =
    let (reg, found, same) = get_elem?-id_at s.regs addr e in rw (found, same)

pub end_control_other :
    (addr : ℕ) (state : Control) (s : Server) → state ≢ registered → end_control addr state s ≡ s
unfolding end_control
end_control_other addr registered s h = absurd (h refl)
end_control_other addr _ s h = refl
