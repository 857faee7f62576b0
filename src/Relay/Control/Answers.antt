-- ===== src/Relay/Control/Answers.antt =====
-- What a message of the control loop does to the open questions.
use remotedesk.Prelude.{
  ℕ, ◌≡◌, refl, sym, ◌∙◌, ap, Bool, true, false, Option, none, some, Bytes, get_elem?, lookup,
  length, IfSome, inl, inr, ◌⊎◌, arith, get_elem?-modify_back,
}
use remotedesk.Wire.{ControlMsg, Op}
use remotedesk.Relay.{HostReg, Server}
use remotedesk.Relay.Change.{
  Change, Calm, Calm-refl, Calm-weaken, IsUnattended, Opens, Shrinks-refl, Shrunk, modify-Shrunk,
  Shrunk-Calm,
}
use remotedesk.Relay.Registry.{update_reg, unregister}
use remotedesk.Relay.Registry.Effect.{register-Shrunk}
use remotedesk.Relay.Consent.Answers.{yes_to, resolve-Change, send-Shrinks}
use remotedesk.Relay.Control.{
  Control, unregistered, registered, closed, Draws, answer, on_register, resolve_at, on_op,
  serve_control, end_control, unregister_at, registered_msg,
}

-- The question that a message answers with yes, and the host that it lets be unattended.
abbrev pub accepts : ℕ → Op → Bytes → Option (ℕ × Bytes)
accepts addr Op.accept session = some (addr, session)
accepts addr op session = none

abbrev pub opens : ℕ → Op → Bool → Option ℕ
opens addr Op.register true = some addr
opens addr op unattended = none

-- Registering takes over the mode of the message: only `true` lets the host be unattended.
mode_opened :
    (addr a : ℕ) (unattended : Bool) (s : Server)
    → IsUnattended (update_reg addr (λ reg. record reg { unattended = unattended }) s) a
    → IsUnattended s a ⊎ Opens (opens addr Op.register unattended) a
mode_opened addr a true s (reg, found, mode) =
    let (r, was, from) = get_elem?-modify_back addr _ s.regs a reg found in
    elim from [
      | inl same ↦ inl (r, was, ap (λ x. x.unattended) (sym same) ∙ mode)
      | inr (at, _) ↦ inr at
    ]
mode_opened addr a false s (reg, found, mode) =
    let (r, was, from) = get_elem?-modify_back addr _ s.regs a reg found in
    elim from [
      | inl same ↦ inl (r, was, ap (λ x. x.unattended) (sym same) ∙ mode)
      | inr (_, new) ↦ cc (ap (λ (x : HostReg). x.unattended) new)
    ]

mode-Change :
    (addr : ℕ) (unattended : Bool) (s : Server)
    → Change none none
        (opens addr Op.register unattended)
        s
        (update_reg addr (λ reg. record reg { unattended = unattended }) s)
mode-Change addr unattended s = record {
  room = omega arith;
  asked = λ a session ch (reg, found, waits).
      let (r, was, from) = get_elem?-modify_back addr _ s.regs a reg found in
      elim from [
        | inl same ↦ inl (r, was, ap (λ x. lookup session x.pending) (sym same) ∙ waits)
        | inr (_, new) ↦ inl (r, was, ap (λ x. lookup session x.pending) (sym new) ∙ waits)
      ];
  answered = λ ch e. inl e;
  opened = λ a u. mode_opened addr a unattended s u;
}

-- More changes of registrations after one.
Change-then :
    {open_host : Option ℕ} (s t u : Server)
    → Change none none open_host s t
    → Shrunk t.regs u.regs
    → u.results ≡ t.results
    → Change none none open_host s u
Change-then s t u c h same = record {
  room = omega (arith, c.room, ap length same);
  asked = λ a session ch (q, found, waits).
      let (r, was, k) = h a q found in
      elim (c.asked a session ch (r, was, k.fewer session ch waits)) [
        | inl old ↦ inl old
        | inr n ↦ absurd n.0
      ];
  answered = λ ch e. c.answered ch (ap (λ l. get_elem? l ch) (sym same) ∙ e);
  opened = λ a (q, found, mode).
      let (r, was, k) = h a q found in c.opened a (r, was, sym k.same_mode ∙ mode);
}

answer-Change :
    {open_host : Option ℕ} (env : Draws) (addr : ℕ) (s t : Server) (o : Option Server)
    → Change none none open_host s t
    → IfSome (λ u. Shrunk t.regs u.regs × (u.results ≡ t.results)) o
    → IfSome (λ r. Change none none open_host s r.0) (answer env addr o)
unfolding answer
answer-Change env addr s t none c h = tt
answer-Change env addr s t (some u) c h =
    Change-then s u _ (Change-then s t u c h.0 h.1)
      (modify-Shrunk addr _ u.regs (λ r. send-Shrinks env.delivered (registered_msg r) r)) refl

on_register-Change :
    (env : Draws) (addr : ℕ) (unattended : Bool) (s : Server)
    → IfSome
        (λ r. Change none none (opens addr Op.register unattended) s r.0)
        (on_register env addr unattended s)
unfolding on_register
on_register-Change env addr unattended s =
    answer-Change env addr s _ _ (mode-Change addr unattended s)
      (register-Shrunk env.id_draws env.pin_draw addr _)

resolve_at-Change :
    (found : Option HostReg) (session : Bytes) (ok : Bool) (addr : ℕ) (s : Server)
    → get_elem? s.regs addr ≡ found
    → Change none (yes_to ok addr session) none s (resolve_at found session ok s)
unfolding resolve_at
resolve_at-Change none session ok addr s e = Calm-weaken (yes_to ok addr session) none (Calm-refl s)
resolve_at-Change (some reg) session ok addr s e = resolve-Change reg session ok addr s e

on_op-Change :
    (env : Draws) (addr : ℕ) (op : Op) (msg : ControlMsg) (state : Control) (s : Server)
    → IfSome
        (λ r. Change none (accepts addr op msg.session) (opens addr op msg.unattended) s r.0)
        (on_op env addr op msg state s)
unfolding on_op
on_op-Change env addr Op.register msg unregistered s = on_register-Change env addr msg.unattended s
on_op-Change env addr Op.register msg registered s = Calm-weaken none _ (Calm-refl s)
on_op-Change env addr Op.register msg closed s = Calm-weaken none _ (Calm-refl s)
on_op-Change env addr Op.accept msg state s =
    resolve_at-Change (get_elem? s.regs addr) msg.session true addr s refl
on_op-Change env addr Op.reject msg state s =
    resolve_at-Change (get_elem? s.regs addr) msg.session false addr s refl
on_op-Change env addr op msg state s = Calm-refl s

pub serve_control-Change :
    (env : Draws) (addr : ℕ) (msg : ControlMsg) (state : Control) (s : Server)
    → IfSome
        (λ r.
          Change none (accepts addr msg.op msg.session) (opens addr msg.op msg.unattended) s r.0)
        (serve_control env addr msg state s)
unfolding serve_control
serve_control-Change env addr msg closed s = Calm-weaken _ _ (Calm-refl s)
serve_control-Change env addr msg state s = on_op-Change env addr msg.op msg state s

unregister_at-Calm : (found : Option HostReg) (s : Server) → Calm s (unregister_at found s)
unfolding unregister_at unregister
unregister_at-Calm none s = Calm-refl s
unregister_at-Calm (some reg) s =
    Shrunk-Calm s _ (λ a q e. (q, e, Shrinks-refl q)) (omega arith) (λ ch e. e)

pub end_control-Calm : (addr : ℕ) (state : Control) (s : Server) → Calm s (end_control addr state s)
unfolding end_control
end_control-Calm addr registered s = unregister_at-Calm (get_elem? s.regs addr) s
end_control-Calm addr _ s = Calm-refl s
