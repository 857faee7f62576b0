-- ===== src/Relay/Control.antt =====
-- `serveControl`: the loop over the messages of a host's control channel, one message at a time.
use remotedesk.Prelude.{ℕ, Bool, true, false, List, [], ◌∷◌, Option, none, some, Bytes, get_elem?}
use remotedesk.Id.{Rand}
use remotedesk.Wire.{ControlMsg, Op}
use remotedesk.Relay.{HostReg, Server}
use remotedesk.Relay.Registry.{update_reg, send, register, unregister}
use remotedesk.Relay.Consent.{resolve}
use mathlib.Core.Option
pub mod Effect
pub mod Answers
pub mod Replies

-- The variable `registered`, and whether the loop still runs.
pub data Control : Type 0 where
  unregistered registered closed : Control

abbrev pub registered_msg : HostReg → ControlMsg
registered_msg reg = record {
  op = Op.registered;
  unattended = false;
  id = reg.id;
  pin = reg.pin;
  session = [];
  from = [];
  error = [];
}

-- `&hostReg{...}` for a new control channel.
abbrev pub new_reg : Bytes → HostReg
new_reg fp = record {
  id = [];
  pin = [];
  unattended = false;
  fp = fp;
  sent = [];
  pending = [];
  failures = 0;
  lock_until = 0;
}

-- The environment of one message: the outcomes of `rand.Int`, and whether the reply is delivered.
pub record Draws : Type 0 where
  pub id_draws : List Rand
  pub pin_draw : Rand
  pub delivered : Bool

answer : Draws → ℕ → Option Server → Option (Server × Control)
answer env addr none = none
answer env addr (some s) =
    some (update_reg addr (λ reg. send env.delivered (registered_msg reg) reg) s, registered)

on_register : Draws → ℕ → Bool → Server → Option (Server × Control)
unfolding answer
on_register env addr unattended s = answer env addr (
    register env.id_draws env.pin_draw addr
      (update_reg addr (λ reg. record reg { unattended = unattended }) s))

resolve_at : Option HostReg → Bytes → Bool → Server → Server
resolve_at none session ok s = s
resolve_at (some reg) session ok s = resolve reg session ok s

on_reply : ℕ → Bytes → Bool → Server → Server
unfolding resolve_at
on_reply addr session ok s = resolve_at (get_elem? s.regs addr) session ok s

-- The `switch` on `msg.Op`, by the state of the loop. `none` is a panic.
on_op : Draws → ℕ → Op → ControlMsg → Control → Server → Option (Server × Control)
unfolding on_register on_reply
on_op env addr Op.register msg unregistered s = on_register env addr msg.unattended s
on_op env addr Op.register msg registered s = some (s, registered)
on_op env addr Op.accept msg state s = some (on_reply addr msg.session true s, state)
on_op env addr Op.reject msg state s = some (on_reply addr msg.session false s, state)
on_op env addr op msg state s = some (s, state)

-- A loop that has ended reads no message.
unfoldable pub serve_control : Draws → ℕ → ControlMsg → Control → Server → Option (Server × Control)
unfolding on_op
serve_control env addr msg closed s = some (s, closed)
serve_control env addr msg state s = on_op env addr msg.op msg state s

-- The end of the loop: a decoding error, or the channel's end.
unregister_at : Option HostReg → Server → Server
unregister_at none s = s
unregister_at (some reg) s = unregister reg.id s

pub end_control : ℕ → Control → Server → Server
unfolding unregister_at unregister
end_control addr registered s = unregister_at (get_elem? s.regs addr) s
end_control addr state s = s
