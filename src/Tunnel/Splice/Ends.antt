-- ===== src/Tunnel/Splice/Ends.antt =====
-- `splice` closes both connections, and returns once one direction has ended.
use mathlib.Core.Path.{ap₂}
use remotedesk.Prelude.{
  ℕ, ◌≡◌, refl, subst, sym, ◌≢◌, ◌⊎◌, inl, inr, Bool, true, false, ◌||◌, List, [], ◌∷◌, Bytes,
}
use remotedesk.Tunnel.Splice.Flows.{Prefix, came_a, came_b, splice_carries}
use remotedesk.Tunnel.Splice.{
  Copier, reading, writing, closing_a, closing_b, ended, Flow, Splice, a, b, Event, arrives, moves,
  fails, read, advance, give_up, closes_a, closes_b, step, runs, spliced,
}

-- What a goroutine has closed so far.
abbrev ShutAt : Bool → Bool → Copier → Type 0
ShutAt a_closed b_closed closing_b = a_closed ≡ true
ShutAt a_closed b_closed ended = (a_closed ≡ true) × (b_closed ≡ true)
ShutAt a_closed b_closed copier = Unit {0}

abbrev Shut : Splice → Type 0
Shut s = ShutAt s.a_closed s.b_closed s.from_a.copier × ShutAt s.a_closed s.b_closed s.from_b.copier

or-true : (x y : Bool) → x ≡ true → (x || y) ≡ true
or-true true y h = refl
or-true false y h = cc

true-or : (x : Bool) → (x || true) ≡ true
true-or true = refl
true-or false = refl

more-Shut : (x y p q : Bool) (copier : Copier) → ShutAt x y copier → ShutAt (x || p) (y || q) copier
more-Shut x y p q reading h = tt
more-Shut x y p q (writing chunk) h = tt
more-Shut x y p q closing_a h = tt
more-Shut x y p q closing_b h = or-true x p h
more-Shut x y p q ended (h, k) = (or-true x p h, or-true y q k)

read-Shut :
    (x y : Bool) (unread : List Bytes) (f : Flow)
    → f.copier ≡ reading
    → ShutAt x y (read unread f).copier
read-Shut x y [] f e = rw e tt
read-Shut x y (chunk ∷ rest) f e = tt

advance-Shut :
    (x y dst_closed : Bool) (copier : Copier) (f : Flow)
    → f.copier ≡ copier
    → ShutAt x y copier
    → ShutAt (x || closes_a copier) (y || closes_b copier) (advance dst_closed copier f).copier
advance-Shut x y dst_closed reading f e h = read-Shut (x || false) (y || false) f.unread f e
advance-Shut x y true (writing chunk) f e h = tt
advance-Shut x y false (writing chunk) f e h = tt
advance-Shut x y dst_closed closing_a f e h = true-or x
advance-Shut x y dst_closed closing_b f e h = (or-true x false h, true-or y)
advance-Shut x y dst_closed ended f e (h, k) = rw e (or-true x false h, or-true y false k)

give_up-Shut :
    (x y : Bool) (n : ℕ) (dst_closed : Bool) (copier : Copier) (f : Flow)
    → f.copier ≡ copier
    → ShutAt x y copier
    → ShutAt x y (give_up n dst_closed copier f).copier
give_up-Shut x y n dst_closed reading f e h = tt
give_up-Shut x y n dst_closed (writing chunk) f e h = tt
give_up-Shut x y n dst_closed closing_a f e h = rw e h
give_up-Shut x y n dst_closed closing_b f e h = rw e h
give_up-Shut x y n dst_closed ended f e h = rw e h

runs-Shut : (es : List Event) (s : Splice) → Shut s → Shut (runs es s)
unfolding runs step
runs-Shut [] s h = h
runs-Shut (arrives a chunk ∷ es) s h = runs-Shut es (step (arrives a chunk) s) h
runs-Shut (arrives b chunk ∷ es) s h = runs-Shut es (step (arrives b chunk) s) h
runs-Shut (moves a ∷ es) s (h, k) = runs-Shut es (step (moves a) s) (
  advance-Shut s.a_closed s.b_closed s.b_closed s.from_a.copier s.from_a refl h,
  more-Shut s.a_closed s.b_closed (closes_a s.from_a.copier) (closes_b s.from_a.copier)
      s.from_b.copier k,
)
runs-Shut (moves b ∷ es) s (h, k) = runs-Shut es (step (moves b) s) (
  more-Shut s.a_closed s.b_closed (closes_a s.from_b.copier) (closes_b s.from_b.copier)
      s.from_a.copier h,
  advance-Shut s.a_closed s.b_closed s.a_closed s.from_b.copier s.from_b refl k,
)
runs-Shut (fails n a ∷ es) s (h, k) =
    runs-Shut es (step (fails n a) s)
      (give_up-Shut s.a_closed s.b_closed n s.b_closed s.from_a.copier s.from_a refl h, k)
runs-Shut (fails n b ∷ es) s (h, k) =
    runs-Shut es (step (fails n b) s)
      (h, give_up-Shut s.a_closed s.b_closed n s.a_closed s.from_b.copier s.from_b refl k)

-- The pending call of each goroutine fails, and the goroutine gets to run twice.
abbrev pub turns : List Event
turns = fails 0 a ∷ moves a ∷ moves a ∷ fails 0 b ∷ moves b ∷ moves b ∷ []

-- Both goroutines have signalled, so that `splice` returns, and both connections are closed.
abbrev pub Returned : Splice → Type 0
Returned s =
    (s.from_a.copier ≡ ended)
    × (s.from_b.copier ≡ ended)
    × (s.a_closed ≡ true)
    × (s.b_closed ≡ true)

abbrev one : Flow → Flow
one f = advance true f.copier f

failing_ends :
    (unread : List Bytes) (copier : Copier) (written : Bytes)
    → (one (
        one (
          give_up 0 true copier
            (record { unread = unread; copier = copier; written = written })))).copier
      ≡ ended
failing_ends unread reading w = refl
failing_ends unread (writing chunk) w = refl
failing_ends unread closing_a w = refl
failing_ends unread closing_b w = refl
failing_ends unread ended w = refl

abbrev both_closed : Flow → Flow → Splice
both_closed f g = record { from_a = f; from_b = g; a_closed = true; b_closed = true }

turns-Returned : (f g : Flow) → Returned (runs turns (both_closed f g))
unfolding runs step
turns-Returned f g =
    (failing_ends f.unread f.copier f.written, failing_ends g.unread g.copier g.written, refl, refl)

-- Both connections are closed, which makes the pending calls fail, and then `splice` returns.
abbrev pub Settled : Splice → Type 0
Settled s = (s.a_closed ≡ true) × (s.b_closed ≡ true) × Returned (runs turns s)

closed-Settled : (s : Splice) → s.a_closed ≡ true → s.b_closed ≡ true → Settled s
closed-Settled s p q =
    let same : both_closed s.from_a s.from_b ≡ s =
      ap₂ (λ x y. record { from_a = s.from_a; from_b = s.from_b; a_closed = x; b_closed = y })
        (sym p) (sym q) in
    (p, q, subst (λ t. Returned (runs turns t)) same (turns-Returned s.from_a s.from_b))

splice_returns :
    (es : List Event)
    → ((runs es spliced).from_a.copier ≡ ended) ⊎ ((runs es spliced).from_b.copier ≡ ended)
    → Settled (runs es spliced)
splice_returns es done =
    let s = runs es spliced in
    let (h, k) = runs-Shut es spliced (tt, tt) in
    elim done [
      | inl e ↦ let (p, q) = subst (ShutAt s.a_closed s.b_closed) e h in closed-Settled s p q
      | inr e ↦ let (p, q) = subst (ShutAt s.a_closed s.b_closed) e k in closed-Settled s p q
    ]

-- Both goroutines copy, or are about to close the connections.
abbrev pub IsBusy : Splice → Type 0
IsBusy s = (s.from_a.copier ≢ ended) × (s.from_b.copier ≢ ended)

ended_cases : (copier : Copier) → (copier ≢ ended) ⊎ (copier ≡ ended)
ended_cases reading = inl (λ e. cc)
ended_cases (writing chunk) = inl (λ e. cc)
ended_cases closing_a = inl (λ e. cc)
ended_cases closing_b = inl (λ e. cc)
ended_cases ended = inr refl

splice_settles : (es : List Event) → IsBusy (runs es spliced) ⊎ Settled (runs es spliced)
splice_settles es = elim (ended_cases (runs es spliced).from_a.copier) [
  | inr e ↦ inr (splice_returns es (inl e))
  | inl h ↦ elim (ended_cases (runs es spliced).from_b.copier) [
    | inr e ↦ inr (splice_returns es (inr e))
    | inl k ↦ inl (h, k)
  ]
]

-- In every interleaving: what was written to a connection is a first part of what has arrived from the
-- other, in order, so that `splice` loses nothing in between, and repeats and reorders nothing. And as
-- soon as one direction has ended, both connections are closed, and once the pending call of the other
-- direction has then failed, `splice` returns after two more steps of its goroutine.
pub splice_serves :
    (es : List Event)
    → Prefix (runs es spliced).from_a.written (came_a [] es)
      × Prefix (runs es spliced).from_b.written (came_b [] es)
      × (IsBusy (runs es spliced) ⊎ Settled (runs es spliced))
splice_serves es = let (to_b, to_a) = splice_carries es in (to_b, to_a, splice_settles es)
