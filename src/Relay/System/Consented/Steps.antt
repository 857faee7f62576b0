-- ===== src/Relay/System/Consented/Steps.antt =====
-- The invariant under a change of the server, with viewers that enter new states.
use remotedesk.Prelude.{
  ℕ, ◌<◌, ◌≡◌, sym, subst, ◌∙◌, ◌⊎◌, inl, inr, true, List, ◌∷◌, Option, none, some, Bytes,
  get_elem?, length, get_elem?-lt, arith,
}
use remotedesk.Relay.{Server}
use remotedesk.Relay.Change.{Change, Pending, Asks, Answers, Opens}
use remotedesk.Relay.Connect.{Viewer, awaits, consented, bridged}
use remotedesk.Relay.System.{Event}
use remotedesk.Relay.System.Consented.{IsAccept, IsOpening, Happened, Justified, IsConsented}

Justified-later :
    (e : Event) (past : List Event) (v : Viewer) → Justified past v → Justified (e ∷ past) v
Justified-later e past (consented addr session) (inl h) = inl (inr h)
Justified-later e past (consented addr session) (inr h) = inr (inr h)
Justified-later e past (bridged addr session) (inl h) = inl (inr h)
Justified-later e past (bridged addr session) (inr h) = inr (inr h)
Justified-later e past v h = tt

-- The event says what the server takes from it.
abbrev pub Says : Option (ℕ × Bytes) → Event → Type 0
Says none e = Unit {0}
Says (some (addr, session)) e = IsAccept addr session e

abbrev pub SaysOpen : Option ℕ → Event → Type 0
SaysOpen none e = Unit {0}
SaysOpen (some addr) e = IsOpening addr e

-- A viewer's new state: it asks the new question, or it is justified.
abbrev pub Enters : List Event → Option (ℕ × Bytes) → ℕ → Viewer → Type 0
Enters past ask n (awaits a q ch) = Asks ask n a q ch
Enters past ask n v = Justified past v

Enters-Justified :
    (past : List Event) (ask : Option (ℕ × Bytes)) (n : ℕ) (v : Viewer)
    → Enters past ask n v
    → Justified past v
Enters-Justified past ask n (awaits a q ch) h = tt
Enters-Justified past ask n v h = h

-- All viewers are as before, but for those that enter a new state.
abbrev pub Moved : List Event → Option (ℕ × Bytes) → ℕ → List Viewer → List Viewer → Type 0
Moved past ask n old new =
    (i : ℕ) (v : Viewer)
    → get_elem? new i ≡ some v
    → (get_elem? old i ≡ some v) ⊎ Enters past ask n v

Asks-channel : (ask : Option (ℕ × Bytes)) (n a ch : ℕ) (q : Bytes) → Asks ask n a q ch → ch ≡ n
Asks-channel none n a ch q h = absurd h
Asks-channel (some (b, p)) n a ch q h = h.2

Asks-unique :
    (ask : Option (ℕ × Bytes)) (n a b ch : ℕ) (q p : Bytes)
    → Asks ask n a q ch
    → Asks ask n b p ch
    → (a ≡ b) × (q ≡ p)
Asks-unique none n a b ch q p h k = absurd h
Asks-unique (some (c, r)) n a b ch q p h k = (h.0 ∙ sym k.0, h.1 ∙ sym k.1)

SaysOpen-happens :
    (open_host : Option ℕ) (e : Event) (addr : ℕ)
    → SaysOpen open_host e
    → Opens open_host addr
    → IsOpening addr e
SaysOpen-happens none e addr said h = absurd h
SaysOpen-happens (some a) e addr said h = subst (λ x. IsOpening x e) (sym h) said

-- A yes goes to the session that the event names.
Says-IsAccept :
    {past : List Event} {s : Server} {viewers : List Viewer} (reply : Option (ℕ × Bytes))
    (e : Event) (i a ch : ℕ) (q : Bytes)
    → IsConsented past s viewers
    → Says reply e
    → Answers reply s ch
    → get_elem? viewers i ≡ some (awaits a q ch)
    → IsAccept a q e
Says-IsAccept none e i a ch q v said h w = absurd h
Says-IsAccept (some (b, p)) e i a ch q v said h w =
    let (same, same') = v.owner b p ch i a q h w in
    subst (λ x. IsAccept x q e) (sym same) (subst (λ x. IsAccept b x e) (sym same') said)

Answers-room :
    {past : List Event} {s : Server} {viewers : List Viewer} (reply : Option (ℕ × Bytes)) (ch : ℕ)
    → IsConsented past s viewers
    → Answers reply s ch
    → ch < length s.results
Answers-room none ch v h = absurd h
Answers-room (some (b, p)) ch v h = v.has_room b p ch h

module _ {past : List Event} {s t : Server} (viewers moved : List Viewer) (e : Event)
    (ask reply : Option (ℕ × Bytes)) (open_host : Option ℕ) (v : IsConsented past s viewers)
    (c : Change ask reply open_host s t) (said : Says reply e) (said_open : SaysOpen open_host e)
    (m : Moved (e ∷ past) ask (length s.results) viewers moved)
    (asker : (a : ℕ) (q : Bytes) (ch : ℕ)
      → Asks ask (length s.results) a q ch
      → ch < length t.results) where
  owner_kept :
      (addr : ℕ) (session : Bytes) (ch i a : ℕ) (q : Bytes)
      → Pending t addr session ch
      → get_elem? moved i ≡ some (awaits a q ch)
      → (a ≡ addr) × (q ≡ session)
  owner_kept addr session ch i a q p w = elim (c.asked addr session ch p) [
    | inl old ↦ elim (m i (awaits a q ch) w) [
      | inl was ↦ v.owner addr session ch i a q old was
      | inr new ↦ absurd (
          omega
            (arith, v.has_room addr session ch old, Asks-channel ask (length s.results) a ch q new))
    ]
    | inr (asks, _) ↦ elim (m i (awaits a q ch) w) [
      | inl was ↦ absurd (
          omega (
            arith,
            v.waits_room i a ch q was,
            Asks-channel ask (length s.results) addr ch session asks,
          ))
      | inr new ↦ Asks-unique ask (length s.results) a addr ch q session new asks
    ]
  ]

  waits_kept :
      (i a ch : ℕ) (q : Bytes) → get_elem? moved i ≡ some (awaits a q ch) → ch < length t.results
  waits_kept i a ch q w = elim (m i (awaits a q ch) w) [
    | inl was ↦ omega (arith, v.waits_room i a ch q was, c.room)
    | inr new ↦ asker a q ch new
  ]

  answer_kept :
      (i a ch : ℕ) (q : Bytes)
      → get_elem? moved i ≡ some (awaits a q ch)
      → get_elem? t.results ch ≡ some (some true)
      → Happened (IsAccept a q) (e ∷ past)
  answer_kept i a ch q w yes' = elim (m i (awaits a q ch) w) [
    | inl was ↦ elim (c.answered ch yes') [
      | inl old ↦ inr (v.answer_for i a ch q was old)
      | inr new ↦ inl (Says-IsAccept reply e i a ch q v said new was)
    ]
    | inr new ↦
        let fresh = Asks-channel ask (length s.results) a ch q new in
        elim (c.answered ch yes') [
          | inl old ↦ absurd (omega (arith, fresh, get_elem?-lt s.results ch (some true) old))
          | inr ans ↦ absurd (omega (arith, fresh, Answers-room reply ch v ans))
        ]
  ]

  pub change-IsConsented : IsConsented (e ∷ past) t moved
  change-IsConsented = record {
    has_room = λ addr session ch p. elim (c.asked addr session ch p) [
      | inl old ↦ omega (arith, v.has_room addr session ch old, c.room)
      | inr (_, within) ↦ within
    ];
    owner = owner_kept;
    waits_room = waits_kept;
    answer_for = answer_kept;
    mode_said = λ addr u. elim (c.opened addr u) [
      | inl old ↦ inr (v.mode_said addr old)
      | inr new ↦ inl (SaysOpen-happens open_host e addr said_open new)
    ];
    justified = λ i viewer found. elim (m i viewer found) [
      | inl old ↦ Justified-later e past viewer (v.justified i viewer old)
      | inr new ↦ Enters-Justified (e ∷ past) ask (length s.results) viewer new
    ];
  }
