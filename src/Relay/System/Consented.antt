-- ===== src/Relay/System/Consented.antt =====
-- A viewer gets through only with the host's consent: the evidence, and the invariant.
use remotedesk.Prelude.{
  ℕ, ◌<◌, ◌≡◌, ◌⊎◌, inl, inr, Bool, true, List, [], ◌∷◌, Option, some, Bytes, get_elem?, length,
}
use remotedesk.Wire.{Op}
use remotedesk.Relay.{Server}
use remotedesk.Relay.Change.{Pending, IsUnattended}
use remotedesk.Relay.Connect.{Viewer, awaits, consented, bridged}
use remotedesk.Relay.System.{System, Event, control_msg}
pub mod Steps
pub mod Requests
pub mod Invariant

-- The event is the host at `addr` accepting the session.
abbrev pub IsAccept : ℕ → Bytes → Event → Type 0
IsAccept addr session (control_msg env a msg) =
    (a ≡ addr) × (msg.op ≡ Op.accept) × (msg.session ≡ session)
IsAccept addr session e = ⊥

-- The event is the host at `addr` registering as unattended.
abbrev pub IsOpening : ℕ → Event → Type 0
IsOpening addr (control_msg env a msg) =
    (a ≡ addr) × (msg.op ≡ Op.register) × (msg.unattended ≡ true)
IsOpening addr e = ⊥

abbrev pub Happened : (Event → Type 0) → List Event → Type 0
Happened P [] = ⊥
Happened P (e ∷ past) = P e ⊎ Happened P past

-- The host registered as unattended, or it accepted this session.
abbrev pub Agreed : List Event → ℕ → Bytes → Type 0
Agreed past addr session = Happened (IsOpening addr) past ⊎ Happened (IsAccept addr session) past

-- What a viewer's state needs in its past.
abbrev pub Justified : List Event → Viewer → Type 0
Justified past (consented addr session) = Agreed past addr session
Justified past (bridged addr session) = Agreed past addr session
Justified past viewer = Unit {0}

pub record IsConsented (past : List Event) (s : Server) (viewers : List Viewer) : Type 0 where
  -- A pending session has its channel, and only the viewer of that session waits on it.
  pub has_room :
      (addr : ℕ) (session : Bytes) (ch : ℕ) → Pending s addr session ch → ch < length s.results
  pub owner :
      (addr : ℕ) (session : Bytes) (ch i a : ℕ) (q : Bytes)
      → Pending s addr session ch
      → get_elem? viewers i ≡ some (awaits a q ch)
      → (a ≡ addr) × (q ≡ session)
  pub waits_room :
      (i a ch : ℕ) (q : Bytes) → get_elem? viewers i ≡ some (awaits a q ch) → ch < length s.results
  -- A yes in a channel was said for the session that waits on it.
  pub answer_for :
      (i a ch : ℕ) (q : Bytes)
      → get_elem? viewers i ≡ some (awaits a q ch)
      → get_elem? s.results ch ≡ some (some true)
      → Happened (IsAccept a q) past
  pub mode_said : (addr : ℕ) → IsUnattended s addr → Happened (IsOpening addr) past
  pub justified : (i : ℕ) (v : Viewer) → get_elem? viewers i ≡ some v → Justified past v
