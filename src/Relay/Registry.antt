-- ===== src/Relay/Registry.antt =====
-- The registry of online hosts: `register`, `unregister`, `lookup` and `hostReg.send`.
use remotedesk.Prelude.{
  ℕ, Bool, true, false, List, [], ◌∷◌, ◌++◌, Option, none, some, Bytes, modify, lookup, insert,
  delete, get_elem?, if◌then◌else◌,
}
use remotedesk.Id.{Rand, new_id, new_pin}
use remotedesk.Wire.{ControlMsg}
use remotedesk.Relay.{HostReg, Server}
use mathlib.Core.Option
pub mod Loop
pub mod Effect

-- Write through the pointer `addr`.
abbrev pub update_reg : ℕ → (HostReg → HostReg) → Server → Server
update_reg addr f s = record s { regs = modify addr f s.regs }

-- `r.enc.Encode(msg)`: `delivered` says whether the control channel took the message.
unfoldable pub send : Bool → ControlMsg → HostReg → HostReg
send delivered msg reg = if delivered then record reg { sent = reg.sent ++ (msg ∷ []) } else reg

-- `for { candidate := id.NewID(); ... }`, on the outcomes of the calls of `rand.Int`. `none`: the
-- outcomes given are used up, or one of them is an error, which panics.
unfoldable pub register_loop : List Rand → List (Bytes × ℕ) → Option Bytes
register_loop [] hosts = none
register_loop (draw ∷ draws) hosts =
    let again = register_loop draws hosts in
    elim (new_id draw) [
      | none ↦ none
      | some candidate ↦ elim (lookup candidate hosts) [
        | none ↦ some candidate
        | some taken ↦ again
      ]
    ]

-- `s.hosts[reg.id] = reg`, with a fresh ID and PIN. `none` is a panic of `id.NewID` or `id.NewPIN`.
enter : ℕ → Option Bytes → Option Bytes → Server → Option Server
enter addr none pin s = none
enter addr (some id) none s = none
enter addr (some id) (some pin) s = some (record s {
  regs = modify addr (λ reg. record reg { id = id; pin = pin }) s.regs;
  hosts = insert id addr s.hosts;
})

unfoldable pub register : List Rand → Rand → ℕ → Server → Option Server
unfolding enter
register draws pin_draw addr s = enter addr (register_loop draws s.hosts) (new_pin pin_draw) s

unfoldable pub unregister : Bytes → Server → Server
unregister host_id s = record s { hosts = delete host_id s.hosts }
