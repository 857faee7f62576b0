-- ===== src/Relay/System/Online.antt =====
-- The registry agrees with the control loops, in every state that the relay reaches.
use remotedesk.Prelude.{
  ℕ, zero, suc, ◌≡◌, sym, ◌∙◌, List, Option, some, Bytes, lookup, get_elem?, length,
}
use remotedesk.Relay.{HostReg}
use remotedesk.Relay.Store.{id_at, SameIds}
use remotedesk.Relay.Control.{Control, registered}
pub mod Steps
pub mod Invariant

-- `hosts` holds exactly the control loops that are registered, each under its own ID.
pub record IsOnline (hosts : List (Bytes × ℕ)) (regs : List HostReg) (controls : List Control)
    : Type 0 where
  pub fits : length controls ≡ length regs
  pub listed :
      (a : ℕ)
      → get_elem? controls a ≡ some registered
      → (id : Bytes) × (id_at regs a ≡ some id) × (lookup id hosts ≡ some a)
  pub live :
      (id : Bytes) (a : ℕ)
      → lookup id hosts ≡ some a
      → (id_at regs a ≡ some id) × (get_elem? controls a ≡ some registered)

pub IsOnline-same :
    {hosts : List (Bytes × ℕ)} {rs qs : List HostReg} {controls : List Control}
    → SameIds rs qs
    → IsOnline hosts rs controls
    → IsOnline hosts qs controls
IsOnline-same h v = record {
  fits = v.fits ∙ sym h.same_length;
  listed = λ a r. let (id, at, found) = v.listed a r in (id, h.same_id a ∙ at, found);
  live = λ id a found. let (at, r) = v.live id a found in (h.same_id a ∙ at, r);
}
