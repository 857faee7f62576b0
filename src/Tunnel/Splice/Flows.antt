-- ===== src/Tunnel/Splice/Flows.antt =====
-- What `splice` carries, and what is closed when it returns.
use remotedesk.Prelude.{
  ℕ, ◌≡◌, refl, ap, sym, ◌∙◌, Bool, true, false, List, [], ◌∷◌, ◌++◌, append-nil, append_assoc,
  Bytes, take, drop, take-append-drop,
}
use remotedesk.Tunnel.Splice.{
  Copier, reading, writing, closing_a, closing_b, ended, Flow, Splice, a, b, Event, arrives, moves,
  fails, read, advance, give_up, arrive, step, runs, spliced,
}

abbrev pub joined : List Bytes → Bytes
joined [] = []
joined (chunk ∷ chunks) = chunk ++ joined chunks

-- All that has arrived from `a`, and from `b`, after what came before.
abbrev pub came_a : Bytes → List Event → Bytes
came_a before [] = before
came_a before (arrives a chunk ∷ es) = came_a (before ++ chunk) es
came_a before (arrives b chunk ∷ es) = came_a before es
came_a before (moves side ∷ es) = came_a before es
came_a before (fails n side ∷ es) = came_a before es

abbrev pub came_b : Bytes → List Event → Bytes
came_b before [] = before
came_b before (arrives b chunk ∷ es) = came_b (before ++ chunk) es
came_b before (arrives a chunk ∷ es) = came_b before es
came_b before (moves side ∷ es) = came_b before es
came_b before (fails n side ∷ es) = came_b before es

-- What is written is a first part of what came; while the goroutine copies, the rest is at hand.
abbrev pub Prefix : Bytes → Bytes → Type 0
Prefix done all = (rest : Bytes) × (all ≡ done ++ rest)

abbrev CarriesAt : Bytes → Flow → Copier → Type 0
CarriesAt all f reading = all ≡ f.written ++ joined f.unread
CarriesAt all f (writing chunk) = all ≡ f.written ++ (chunk ++ joined f.unread)
CarriesAt all f copier = Prefix f.written all

abbrev Carries : Bytes → Flow → Type 0
Carries all f = CarriesAt all f f.copier

pub joined-snoc :
    (chunks : List Bytes) (chunk : Bytes) → joined (chunks ++ (chunk ∷ [])) ≡ joined chunks ++ chunk
joined-snoc [] chunk = append-nil chunk
joined-snoc (c ∷ chunks) chunk =
    ap (c ++◌) (joined-snoc chunks chunk) ∙ sym (append_assoc c (joined chunks) chunk)

arrive-Carries :
    (all chunk : Bytes) (f : Flow) (copier : Copier)
    → CarriesAt all f copier
    → CarriesAt (all ++ chunk) (arrive chunk f) copier
arrive-Carries all chunk f reading h =
    ap (◌++ chunk) h
    ∙ append_assoc f.written (joined f.unread) chunk
    ∙ ap (f.written ++◌) (sym (joined-snoc f.unread chunk))
arrive-Carries all chunk f (writing held) h =
    ap (◌++ chunk) h
    ∙ append_assoc f.written (held ++ joined f.unread) chunk
    ∙ ap (f.written ++◌) (
        append_assoc held (joined f.unread) chunk
        ∙ ap (held ++◌) (sym (joined-snoc f.unread chunk)))
arrive-Carries all chunk f closing_a (rest, h) =
    (rest ++ chunk, ap (◌++ chunk) h ∙ append_assoc f.written rest chunk)
arrive-Carries all chunk f closing_b (rest, h) =
    (rest ++ chunk, ap (◌++ chunk) h ∙ append_assoc f.written rest chunk)
arrive-Carries all chunk f ended (rest, h) =
    (rest ++ chunk, ap (◌++ chunk) h ∙ append_assoc f.written rest chunk)

read-Carries :
    (all : Bytes) (unread : List Bytes) (f : Flow)
    → f.copier ≡ reading
    → all ≡ f.written ++ joined unread
    → f.unread ≡ unread
    → Carries all (read unread f)
read-Carries all [] f at h e = rw at (h ∙ ap (λ l. f.written ++ joined l) (sym e))
read-Carries all (chunk ∷ rest) f at h e = h

advance-Carries :
    (all : Bytes) (dst_closed : Bool) (copier : Copier) (f : Flow)
    → f.copier ≡ copier
    → CarriesAt all f copier
    → Carries all (advance dst_closed copier f)
advance-Carries all dst_closed reading f at h = read-Carries all f.unread f at h refl
advance-Carries all true (writing chunk) f at h = (chunk ++ joined f.unread, h)
advance-Carries all false (writing chunk) f at h =
    h ∙ sym (append_assoc f.written chunk (joined f.unread))
advance-Carries all dst_closed closing_a f at h = h
advance-Carries all dst_closed closing_b f at h = h
advance-Carries all dst_closed ended f at h = rw at h

give_up-Carries :
    (all : Bytes) (n : ℕ) (dst_closed : Bool) (copier : Copier) (f : Flow)
    → f.copier ≡ copier
    → CarriesAt all f copier
    → Carries all (give_up n dst_closed copier f)
give_up-Carries all n true (writing chunk) f at h = (chunk ++ joined f.unread, h)
give_up-Carries all n false (writing chunk) f at h = (
  drop n chunk ++ joined f.unread,
  h
      ∙ ap (λ c. f.written ++ (c ++ joined f.unread)) (sym (take-append-drop n chunk))
      ∙ ap (f.written ++◌) (append_assoc (take n chunk) (drop n chunk) (joined f.unread))
      ∙ sym (append_assoc f.written (take n chunk) (drop n chunk ++ joined f.unread)),
)
give_up-Carries all n dst_closed reading f at h = (joined f.unread, h)
give_up-Carries all n dst_closed closing_a f at h = rw at h
give_up-Carries all n dst_closed closing_b f at h = rw at h
give_up-Carries all n dst_closed ended f at h = rw at h

Carries-Prefix :
    (all : Bytes) (f : Flow) (copier : Copier) → CarriesAt all f copier → Prefix f.written all
Carries-Prefix all f reading h = (joined f.unread, h)
Carries-Prefix all f (writing chunk) h = (chunk ++ joined f.unread, h)
Carries-Prefix all f closing_a h = h
Carries-Prefix all f closing_b h = h
Carries-Prefix all f ended h = h

runs-Carries :
    (es : List Event) (s : Splice) (x y : Bytes)
    → Carries x s.from_a
    → Carries y s.from_b
    → Prefix (runs es s).from_a.written (came_a x es)
      × Prefix (runs es s).from_b.written (came_b y es)
unfolding runs step
runs-Carries [] s x y h k =
    (Carries-Prefix x s.from_a s.from_a.copier h, Carries-Prefix y s.from_b s.from_b.copier k)
runs-Carries (arrives a chunk ∷ es) s x y h k =
    runs-Carries es (step (arrives a chunk) s) (x ++ chunk) y
      (arrive-Carries x chunk s.from_a s.from_a.copier h) k
runs-Carries (arrives b chunk ∷ es) s x y h k =
    runs-Carries es (step (arrives b chunk) s) x (y ++ chunk) h
      (arrive-Carries y chunk s.from_b s.from_b.copier k)
runs-Carries (moves a ∷ es) s x y h k =
    runs-Carries es (step (moves a) s) x y
      (advance-Carries x s.b_closed s.from_a.copier s.from_a refl h) k
runs-Carries (moves b ∷ es) s x y h k =
    runs-Carries es (step (moves b) s) x y h
      (advance-Carries y s.a_closed s.from_b.copier s.from_b refl k)
runs-Carries (fails n a ∷ es) s x y h k =
    runs-Carries es (step (fails n a) s) x y
      (give_up-Carries x n s.b_closed s.from_a.copier s.from_a refl h) k
runs-Carries (fails n b ∷ es) s x y h k =
    runs-Carries es (step (fails n b) s) x y h
      (give_up-Carries y n s.a_closed s.from_b.copier s.from_b refl k)

-- In every interleaving, what was written to a connection is a first part of what has arrived from the
-- other, in order: `splice` loses nothing in between, and repeats and reorders nothing.
pub splice_carries :
    (es : List Event)
    → Prefix (runs es spliced).from_a.written (came_a [] es)
      × Prefix (runs es spliced).from_b.written (came_b [] es)
splice_carries es = runs-Carries es spliced [] [] refl refl
