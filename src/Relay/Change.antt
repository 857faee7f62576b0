-- ===== src/Relay/Change.antt =====
-- What an operation of the server does to the questions that wait for a host's consent: the pending
-- sessions, the result channels and the `unattended` flags.
use remotedesk.Prelude.{
  ℕ, ◌≤◌, ◌<◌, ◌≡◌, refl, ap, sym, ◌∙◌, ◌⊎◌, inl, inr, true, List, Option, none, some, Bytes,
  lookup, modify, set, get_elem?, subst, get_elem?-modify_back, get_elem?-set_back, length, arith,
}
use remotedesk.Relay.{HostReg, Server}

-- A session that waits at a host, on a channel.
abbrev pub Pending : Server → ℕ → Bytes → ℕ → Type 0
Pending s addr session ch =
    (reg : HostReg) × (get_elem? s.regs addr ≡ some reg) × (lookup session reg.pending ≡ some ch)

abbrev pub IsUnattended : Server → ℕ → Type 0
IsUnattended s addr = (reg : HostReg) × (get_elem? s.regs addr ≡ some reg) × (reg.unattended ≡ true)

-- The new question of an operation, on the channel `n`, and no other.
abbrev pub Asks : Option (ℕ × Bytes) → ℕ → ℕ → Bytes → ℕ → Type 0
Asks none n addr session ch = ⊥
Asks (some (a, q)) n addr session ch = (addr ≡ a) × (session ≡ q) × (ch ≡ n)

-- The question that an operation answers with yes.
abbrev pub Answers : Option (ℕ × Bytes) → Server → ℕ → Type 0
Answers none s ch = ⊥
Answers (some (a, q)) s ch = Pending s a q ch

abbrev pub Opens : Option ℕ → ℕ → Type 0
Opens none addr = ⊥
Opens (some a) addr = addr ≡ a

-- From `s` to `t` at most the question `ask` is new, at most `reply` is answered yes, and at most
-- the host `open_host` becomes unattended.
pub record Change (ask reply : Option (ℕ × Bytes)) (open_host : Option ℕ) (s t : Server)
    : Type 0 where
  pub room : length s.results ≤ length t.results
  pub asked :
      (addr : ℕ) (session : Bytes) (ch : ℕ)
      → Pending t addr session ch
      → Pending s addr session ch
        ⊎ (Asks ask (length s.results) addr session ch × (ch < length t.results))
  pub answered :
      (ch : ℕ)
      → get_elem? t.results ch ≡ some (some true)
      → (get_elem? s.results ch ≡ some (some true)) ⊎ Answers reply s ch
  pub opened : (addr : ℕ) → IsUnattended t addr → IsUnattended s addr ⊎ Opens open_host addr

abbrev pub Calm : Server → Server → Type 0
Calm = Change none none none

pub Calm-refl : (s : Server) → Calm s s
Calm-refl s = record {
  room = omega arith;
  asked = λ addr session ch p. inl p;
  answered = λ ch e. inl e;
  opened = λ addr u. inl u;
}

-- `q` is `r` with at most the pending sessions of `r`, on the same channels.
pub record Shrinks (r q : HostReg) : Type 0 where
  pub fewer :
      (session : Bytes) (ch : ℕ)
      → lookup session q.pending ≡ some ch
      → lookup session r.pending ≡ some ch
  pub same_mode : q.unattended ≡ r.unattended

-- Every registration of `qs` is one of `rs` that shrank.
abbrev pub Shrunk : List HostReg → List HostReg → Type 0
Shrunk rs qs =
    (a : ℕ) (q : HostReg)
    → get_elem? qs a ≡ some q
    → (r : HostReg) × (get_elem? rs a ≡ some r) × Shrinks r q

pub Shrinks-refl : (r : HostReg) → Shrinks r r
Shrinks-refl r = record { fewer = λ session ch e. e; same_mode = refl }

pub modify-Shrunk :
    (i : ℕ) (f : HostReg → HostReg) (rs : List HostReg)
    → ((r : HostReg) → Shrinks r (f r))
    → Shrunk rs (modify i f rs)
modify-Shrunk i f rs h a q e =
    let (r, found, from) = get_elem?-modify_back i f rs a q e in
    (
      r,
      found,
      elim from [
        | inl same ↦ subst (Shrinks r) (sym same) (Shrinks-refl r)
        | inr (_, new) ↦ subst (Shrinks r) (sym new) (h r)
      ],
    )

pub set-Shrunk :
    (i : ℕ) (rs : List HostReg) (r q : HostReg)
    → get_elem? rs i ≡ some r
    → Shrinks r q
    → Shrunk rs (set rs i q)
set-Shrunk i rs r q here h a p e = elim (get_elem?-set_back rs i q a p e) [
  | inl old ↦ (p, old, Shrinks-refl p)
  | inr (at, new) ↦ (r, ap (get_elem? rs) at ∙ here, subst (Shrinks r) (sym new) h)
]

-- Operations that write to registrations without asking, and to channels without saying yes.
pub Shrunk-Calm :
    (s t : Server)
    → Shrunk s.regs t.regs
    → length s.results ≤ length t.results
    → ((ch : ℕ)
        → get_elem? t.results ch ≡ some (some true)
        → get_elem? s.results ch ≡ some (some true))
    → Calm s t
Shrunk-Calm s t h room yes' = record {
  room = room;
  asked = λ addr session ch (q, found, waits).
      let (r, was, k) = h addr q found in inl (r, was, k.fewer session ch waits);
  answered = λ ch e. inl (yes' ch e);
  opened =
      λ addr (q, found, u). let (r, was, k) = h addr q found in inl (r, was, sym k.same_mode ∙ u);
}

-- A change of registrations alone, before another operation.
pub Calm-then :
    {ask : Option (ℕ × Bytes)} {open_host : Option ℕ} (s t u : Server)
    → Shrunk s.regs t.regs
    → t.results ≡ s.results
    → Change ask none open_host t u
    → Change ask none open_host s u
Calm-then s t u h same c = record {
  room = rw same at c.room;
  asked = λ addr session ch p. elim (c.asked addr session ch p) [
    | inl (q, found, waits) ↦
        let (r, was, k) = h addr q found in inl (r, was, k.fewer session ch waits)
    | inr new ↦ inr (rw same at new)
  ];
  answered = λ ch e. elim (c.answered ch e) [ inl old ↦ inl (rw same at old) | inr n ↦ absurd n ];
  opened = λ addr v. elim (c.opened addr v) [
    | inl (q, found, w) ↦ let (r, was, k) = h addr q found in inl (r, was, sym k.same_mode ∙ w)
    | inr new ↦ inr new
  ];
}

pub Calm-weaken :
    (reply : Option (ℕ × Bytes)) (open_host : Option ℕ) {s t : Server}
    → Calm s t
    → Change none reply open_host s t
Calm-weaken reply open_host c = record {
  room = c.room;
  asked = c.asked;
  answered = λ ch e. elim (c.answered ch e) [ inl old ↦ inl old | inr n ↦ absurd n ];
  opened = λ addr u. elim (c.opened addr u) [ inl old ↦ inl old | inr n ↦ absurd n ];
}
