-- ===== src/Relay/Registry/Effect.antt =====
-- What a registration changes in the registry.
use remotedesk.Prelude.{
  ℕ, zero, suc, ◌<◌, ◌≡◌, ◌≢◌, refl, ap, List, [], ◌∷◌, Option, none, some, Bytes, lookup, insert,
  modify, length, length-modify, IfSome, arith,
}
use remotedesk.Id.{Rand, new_pin}
use remotedesk.Relay.{HostReg, Server}
use remotedesk.Relay.Store.{id_at}
use remotedesk.Relay.Change.{Shrunk, modify-Shrunk}
use remotedesk.Relay.Registry.{register, register_loop, enter}
use remotedesk.Relay.Registry.Loop.{register_loop-free}

-- `t` is `s` with the registration at `addr` entered under an ID that no online host had.
pub record Registers (addr : ℕ) (s t : Server) : Type 0 where
  pub id : Bytes
  pub free : lookup id s.hosts ≡ none
  pub entered : t.hosts ≡ insert id addr s.hosts
  pub same_length : length t.regs ≡ length s.regs
  pub own : addr < length s.regs → id_at t.regs addr ≡ some id
  pub others : (a : ℕ) → a ≢ addr → id_at t.regs a ≡ id_at s.regs a

id_at-modify_own :
    (addr : ℕ) (f : HostReg → HostReg) (id : Bytes) (regs : List HostReg)
    → ((r : HostReg) → (f r).id ≡ id)
    → addr < length regs
    → id_at (modify addr f regs) addr ≡ some id
id_at-modify_own addr f id [] h lt = elim lt [ ]
id_at-modify_own zero f id (r ∷ regs) h lt = ap some (h r)
id_at-modify_own (suc addr) f id (r ∷ regs) h lt = id_at-modify_own addr f id regs h (omega arith)

id_at-modify_ne :
    (addr : ℕ) (f : HostReg → HostReg) (regs : List HostReg) (a : ℕ)
    → a ≢ addr
    → id_at (modify addr f regs) a ≡ id_at regs a
id_at-modify_ne addr f [] a h = refl
id_at-modify_ne zero f (r ∷ regs) zero h = absurd (h refl)
id_at-modify_ne zero f (r ∷ regs) (suc a) h = refl
id_at-modify_ne (suc addr) f (r ∷ regs) zero h = refl
id_at-modify_ne (suc addr) f (r ∷ regs) (suc a) h =
    id_at-modify_ne addr f regs a (λ e. h (ap suc e))

register_effect :
    (addr : ℕ) (s : Server) (id pin : Bytes)
    → lookup id s.hosts ≡ none
    → Registers addr s (record s {
      regs = modify addr (λ reg. record reg { id = id; pin = pin }) s.regs;
      hosts = insert id addr s.hosts;
    })
register_effect addr s id pin free = record {
  id = id;
  free = free;
  entered = refl;
  same_length = length-modify addr _ s.regs;
  own = id_at-modify_own addr _ id s.regs (λ r. refl);
  others = id_at-modify_ne addr _ s.regs;
}

enter-Registers :
    (addr : ℕ) (id pin : Option Bytes) (s : Server)
    → ((i : Bytes) → id ≡ some i → lookup i s.hosts ≡ none)
    → IfSome (Registers addr s) (enter addr id pin s)
unfolding enter
enter-Registers addr none pin s free = tt
enter-Registers addr (some id) none s free = tt
enter-Registers addr (some id) (some pin) s free = register_effect addr s id pin (free id refl)

pub register-Registers :
    (draws : List Rand) (pin_draw : Rand) (addr : ℕ) (s : Server)
    → IfSome (Registers addr s) (register draws pin_draw addr s)
unfolding register
register-Registers draws pin_draw addr s =
    enter-Registers addr (register_loop draws s.hosts) (new_pin pin_draw) s
      (register_loop-free draws s.hosts)

enter-Shrunk :
    (addr : ℕ) (id pin : Option Bytes) (s : Server)
    → IfSome (λ t. Shrunk s.regs t.regs × (t.results ≡ s.results)) (enter addr id pin s)
unfolding enter
enter-Shrunk addr none pin s = tt
enter-Shrunk addr (some id) none s = tt
enter-Shrunk addr (some id) (some pin) s = (
  modify-Shrunk addr _ s.regs (λ r. record { fewer = λ session ch e. e; same_mode = refl }),
  refl,
)

pub register-Shrunk :
    (draws : List Rand) (pin_draw : Rand) (addr : ℕ) (s : Server)
    → IfSome (λ t. Shrunk s.regs t.regs × (t.results ≡ s.results)) (register draws pin_draw addr s)
unfolding register
register-Shrunk draws pin_draw addr s =
    enter-Shrunk addr (register_loop draws s.hosts) (new_pin pin_draw) s
