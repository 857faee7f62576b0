-- ===== src/Relay/Consent/Answers.antt =====
-- What the wait for consent and the host's replies do to the questions that are open.
use remotedesk.Prelude.{
  ℕ, ◌+◌, ◌≤◌, ◌≡◌, refl, ap, sym, subst, ◌∙◌, ◌⊎◌, inl, inr, Bool, true, false, List, [], ◌∷◌,
  ◌++◌, Option, none, some, Bytes, lookup, insert, lookup-insert, lookup-delete, bytes_eq_iff,
  modify, set, get_elem?, length, length-append, length-set, get_elem?-append_cases,
  get_elem?-modify_back, get_elem?-set_back, arith, IfSome,
}
use remotedesk.Wire.{ControlMsg}
use remotedesk.Relay.{HostReg, Server}
use remotedesk.Relay.Change.{
  Change, Calm, Calm-refl, Pending, Shrinks, Shrinks-refl, modify-Shrunk, Shrunk-Calm, Calm-weaken,
}
use remotedesk.Relay.Registry.{update_reg, send}
use remotedesk.Relay.Consent.{
  Consent, granted, denied, waiting, Wake, received, timed_out, await_consent, end_consent, receive,
  offer, offer_to, resolve, forget, remember, incoming_msg,
}

forget-Shrinks : (session : Bytes) (r : HostReg) → Shrinks r (forget session r)
forget-Shrinks session r = record {
  fewer = λ q ch e. ground (arith, lookup-delete session q r.pending);
  same_mode = refl;
}

forget-remember-Shrinks :
    (session : Bytes) (n : ℕ) (r : HostReg) → Shrinks r (forget session (remember session n r))
forget-remember-Shrinks session n r = record {
  fewer = λ q ch e. ground (
    arith,
    lookup-delete session q (insert session n r.pending),
    lookup-insert session q n r.pending,
  );
  same_mode = refl;
}

pub send-Shrinks :
    (delivered : Bool) (msg : ControlMsg) (r : HostReg) → Shrinks r (send delivered msg r)
unfolding send
send-Shrinks true msg r = record { fewer = λ session ch e. e; same_mode = refl }
send-Shrinks false msg r = Shrinks-refl r

-- A channel that was just made holds nothing.
append-back :
    (results : List (Option Bool)) (ch : ℕ)
    → get_elem? (results ++ (none ∷ [])) ch ≡ some (some true)
    → get_elem? results ch ≡ some (some true)
append-back results ch e = elim (get_elem?-append_cases results none (some true) ch e) [
  | inl old ↦ old
  | inr (_, new) ↦ cc
]

-- What `await_consent` has done when it reaches the `select`, or returns before it.
abbrev pub Asked : ℕ → Bool → Bytes → Server → Server × Consent → Type 0
Asked addr unattended session s (t, granted) = Calm s t × (unattended ≡ true)
Asked addr unattended session s (t, denied) = Calm s t
Asked addr unattended session s (t, waiting ch) =
    Change (some (addr, session)) none none s t
    × (ch ≡ length s.results)
    × (length t.results ≡ length s.results + 1)

ask-Change :
    (addr : ℕ) (session : Bytes) (msg : ControlMsg) (s : Server)
    → Change (some (addr, session)) none none s (
        update_reg addr
          (λ reg. send true msg (remember session (length s.results) reg))
          (record s { results = s.results ++ (none ∷ []) }))
unfolding send
ask-Change addr session msg s = record {
  room = omega (arith, length-append s.results (none ∷ []));
  asked = λ a q ch (reg, found, waits).
      let (r, was, from) = get_elem?-modify_back addr _ s.regs a reg found in
      elim from [
        | inl same ↦ inl (r, was, ap (λ x. lookup q x.pending) (sym same) ∙ waits)
        | inr (at, new) ↦
            elim (new_question q ch r (ap (λ x. lookup q x.pending) (sym new) ∙ waits)) [
              | inl old ↦ inl (r, was, old)
              | inr (e, n) ↦ inr ((at, e, n), omega (arith, n, length-append s.results (none ∷ [])))
            ]
      ];
  answered = λ ch e. inl (append-back s.results ch e);
  opened = λ a (reg, found, u).
      let (r, was, from) = get_elem?-modify_back addr _ s.regs a reg found in
      elim from [
        | inl same ↦ inl (r, was, ap (λ x. x.unattended) (sym same) ∙ u)
        | inr (_, new) ↦ inl (r, was, ap (λ x. x.unattended) (sym new) ∙ u)
      ];
}
  where
    new_question :
        (q : Bytes) (ch : ℕ) (r : HostReg)
        → lookup q (insert session (length s.results) r.pending) ≡ some ch
        → (lookup q r.pending ≡ some ch) ⊎ ((q ≡ session) × (ch ≡ length s.results))
    new_question q ch r e =
        ground (arith, lookup-insert session q (length s.results) r.pending, bytes_eq_iff session q)

pub await_consent-Asked :
    (delivered : Bool) (addr : ℕ) (unattended : Bool) (session : Bytes) (s : Server)
    → Asked addr unattended session s (await_consent delivered addr unattended session s)
unfolding await_consent
await_consent-Asked delivered addr true session s = (Calm-refl s, refl)
await_consent-Asked true addr false session s =
    (ask-Change addr session (incoming_msg session) s, refl, length-append s.results (none ∷ []))
await_consent-Asked false addr false session s =
    Shrunk-Calm s _
      (modify-Shrunk addr _ s.regs (λ r. forget-remember-Shrinks session (length s.results) r))
      (omega (arith, length-append s.results (none ∷ []))) (append-back s.results)

-- Waking up opens no question, and reports yes only if the channel held yes.
abbrev pub Woken : ℕ → Server → Server × Bool → Type 0
Woken ch s (t, ok) = Calm s t × (ok ≡ true → get_elem? s.results ch ≡ some (some true))

forget-Calm :
    (addr : ℕ) (session : Bytes) (s : Server) (results : List (Option Bool))
    → length s.results ≤ length results
    → ((ch : ℕ)
        → get_elem? results ch ≡ some (some true)
        → get_elem? s.results ch ≡ some (some true))
    → Calm s (record s { regs = modify addr (forget session) s.regs; results = results })
forget-Calm addr session s results room back =
    Shrunk-Calm s _ (modify-Shrunk addr _ s.regs (forget-Shrinks session)) room back

receive-Woken :
    (slot : Option (Option Bool)) (addr : ℕ) (session : Bytes) (ch : ℕ) (s : Server)
    → get_elem? s.results ch ≡ slot
    → IfSome (Woken ch s) (receive slot addr session ch s)
unfolding receive
receive-Woken none addr session ch s e = tt
receive-Woken (some none) addr session ch s e = tt
receive-Woken (some (some ok)) addr session ch s e = (
  forget-Calm addr session s (set s.results ch none) (omega (arith, length-set s.results ch none))
      (λ c h. elim (get_elem?-set_back s.results ch none c (some true) h) [
        | inl old ↦ old
        | inr (_, new) ↦ cc
      ]),
  λ yes'. rw yes' at e,
)

pub end_consent-Woken :
    (w : Wake) (addr : ℕ) (session : Bytes) (ch : ℕ) (s : Server)
    → IfSome (Woken ch s) (end_consent w addr session ch s)
unfolding end_consent
end_consent-Woken timed_out addr session ch s =
    (forget-Calm addr session s s.results (omega arith) (λ c h. h), λ e. cc)
end_consent-Woken received addr session ch s =
    receive-Woken (get_elem? s.results ch) addr session ch s refl

-- The question that a reply answers with yes.
abbrev pub yes_to : Bool → ℕ → Bytes → Option (ℕ × Bytes)
yes_to true addr session = some (addr, session)
yes_to false addr session = none

offer-Change :
    (ok : Bool) (slot : Option (Option Bool)) (addr : ℕ) (session : Bytes) (ch : ℕ) (s : Server)
    → Pending s addr session ch
    → Change none (yes_to ok addr session) none s (offer ok slot ch s)
unfolding offer
offer-Change ok none addr session ch s p = Calm-weaken (yes_to ok addr session) none (Calm-refl s)
offer-Change true (some none) addr session ch s p = record {
  room = omega (arith, length-set s.results ch (some true));
  asked = λ a q c w. inl w;
  answered = λ c e. elim (get_elem?-set_back s.results ch (some true) c (some true) e) [
    | inl old ↦ inl old
    | inr (at, _) ↦ inr (subst (Pending s addr session) (sym at) p)
  ];
  opened = λ a u. inl u;
}
offer-Change false (some none) addr session ch s p = record {
  room = omega (arith, length-set s.results ch (some false));
  asked = λ a q c w. inl w;
  answered = λ c e. elim (get_elem?-set_back s.results ch (some false) c (some true) e) [
    | inl old ↦ inl old
    | inr (_, new) ↦ cc
  ];
  opened = λ a u. inl u;
}
offer-Change ok (some (some old)) addr session ch s p =
    Calm-weaken (yes_to ok addr session) none (Calm-refl s)

offer_to-Change :
    (target : Option ℕ) (ok : Bool) (addr : ℕ) (session : Bytes) (s : Server)
    → ((ch : ℕ) → target ≡ some ch → Pending s addr session ch)
    → Change none (yes_to ok addr session) none s (offer_to target ok s)
unfolding offer_to
offer_to-Change none ok addr session s p = Calm-weaken (yes_to ok addr session) none (Calm-refl s)
offer_to-Change (some ch) ok addr session s p =
    offer-Change ok (get_elem? s.results ch) addr session ch s (p ch refl)

-- A reply of the host at `addr` answers the question of its session there, and no other.
pub resolve-Change :
    (reg : HostReg) (session : Bytes) (ok : Bool) (addr : ℕ) (s : Server)
    → get_elem? s.regs addr ≡ some reg
    → Change none (yes_to ok addr session) none s (resolve reg session ok s)
unfolding resolve
resolve-Change reg session ok addr s here =
    offer_to-Change (lookup session reg.pending) ok addr session s (λ ch e. (reg, here, e))
