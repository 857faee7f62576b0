-- ===== src/Relay/Splice/Flows.antt =====
-- What the goroutines of a bridge carry, and what its handler has closed, in every interleaving.
use remotedesk.Prelude.{
  ℕ, ◌≡◌, refl, ap, sym, subst, ◌∙◌, Bool, true, false, ◌||◌, List, [], ◌∷◌, ◌++◌, append_assoc,
  Bytes, take, drop, take-append-drop, if◌then◌else◌,
}
use remotedesk.Tunnel.Splice.Flows.{joined, joined-snoc, Prefix}
use remotedesk.Relay.Splice.{
  Copier, reading, writing, ended, Flow, Handler, splicing, closing_data, closing_viewer, returned,
  Bridged, viewer_ch, data_ch, Event, arrives, moves, fails, handles, copy_read, copy, stop,
  is_ended, handle, receive, step, runs,
}

-- All that has arrived from the viewer, and from the host, after what came before.
abbrev pub viewer_sent : Bytes → List Event → Bytes
viewer_sent before [] = before
viewer_sent before (arrives viewer_ch chunk ∷ es) = viewer_sent (before ++ chunk) es
viewer_sent before (arrives data_ch chunk ∷ es) = viewer_sent before es
viewer_sent before (moves side ∷ es) = viewer_sent before es
viewer_sent before (fails n side ∷ es) = viewer_sent before es
viewer_sent before (handles ∷ es) = viewer_sent before es

abbrev pub host_sent : Bytes → List Event → Bytes
host_sent before [] = before
host_sent before (arrives data_ch chunk ∷ es) = host_sent (before ++ chunk) es
host_sent before (arrives viewer_ch chunk ∷ es) = host_sent before es
host_sent before (moves side ∷ es) = host_sent before es
host_sent before (fails n side ∷ es) = host_sent before es
host_sent before (handles ∷ es) = host_sent before es

-- While the goroutine copies, what is not written is at hand.
abbrev pub CarriesAt : Bytes → Flow → Copier → Type 0
CarriesAt all f reading = all ≡ f.written ++ joined f.unread
CarriesAt all f (writing chunk) = all ≡ f.written ++ (chunk ++ joined f.unread)
CarriesAt all f ended = Prefix f.written all

abbrev pub Carries : Bytes → Flow → Type 0
Carries all f = CarriesAt all f f.copier

joined-after :
    (before chunk : Bytes) (chunks : List Bytes)
    → (before ++ joined chunks) ++ chunk ≡ before ++ joined (chunks ++ (chunk ∷ []))
joined-after before chunk chunks =
    append_assoc before (joined chunks) chunk ∙ ap (before ++◌) (sym (joined-snoc chunks chunk))

receive-Carries :
    (all chunk : Bytes) (f : Flow) (copier : Copier)
    → CarriesAt all f copier
    → CarriesAt (all ++ chunk) (receive chunk f) copier
receive-Carries all chunk f reading h = ap (◌++ chunk) h ∙ joined-after f.written chunk f.unread
receive-Carries all chunk f (writing held) h =
    ap (◌++ chunk) h
    ∙ append_assoc f.written (held ++ joined f.unread) chunk
    ∙ ap (f.written ++◌) (joined-after held chunk f.unread)
receive-Carries all chunk f ended (rest, h) =
    (rest ++ chunk, ap (◌++ chunk) h ∙ append_assoc f.written rest chunk)

copy_read-Carries :
    (all : Bytes) (unread : List Bytes) (f : Flow)
    → f.copier ≡ reading
    → all ≡ f.written ++ joined unread
    → f.unread ≡ unread
    → Carries all (copy_read unread f)
copy_read-Carries all [] f at h e = rw at (h ∙ ap (λ l. f.written ++ joined l) (sym e))
copy_read-Carries all (chunk ∷ rest) f at h e = h

copy-Carries :
    (all : Bytes) (dst_closed : Bool) (copier : Copier) (f : Flow)
    → f.copier ≡ copier
    → CarriesAt all f copier
    → Carries all (copy dst_closed copier f)
copy-Carries all dst_closed reading f at h = copy_read-Carries all f.unread f at h refl
copy-Carries all true (writing chunk) f at h = (chunk ++ joined f.unread, h)
copy-Carries all false (writing chunk) f at h =
    h ∙ sym (append_assoc f.written chunk (joined f.unread))
copy-Carries all dst_closed ended f at h = rw at h

stop-Carries :
    (all : Bytes) (n : ℕ) (dst_closed : Bool) (copier : Copier) (f : Flow)
    → f.copier ≡ copier
    → CarriesAt all f copier
    → Carries all (stop n dst_closed copier f)
stop-Carries all n dst_closed reading f at h = (joined f.unread, h)
stop-Carries all n true (writing chunk) f at h = (chunk ++ joined f.unread, h)
stop-Carries all n false (writing chunk) f at h = (
  drop n chunk ++ joined f.unread,
  h
      ∙ ap (λ c. f.written ++ (c ++ joined f.unread)) (sym (take-append-drop n chunk))
      ∙ ap (f.written ++◌) (append_assoc (take n chunk) (drop n chunk) (joined f.unread))
      ∙ sym (append_assoc f.written (take n chunk) (drop n chunk ++ joined f.unread)),
)
stop-Carries all n dst_closed ended f at h = rw at h

pub Carries-Prefix :
    (all : Bytes) (f : Flow) (copier : Copier) → CarriesAt all f copier → Prefix f.written all
Carries-Prefix all f reading h = (joined f.unread, h)
Carries-Prefix all f (writing chunk) h = (chunk ++ joined f.unread, h)
Carries-Prefix all f ended h = h

-- What the handler has closed: nothing while it waits.
abbrev pub ClosedAt : Bool → Bool → Handler → Type 0
ClosedAt viewer_closed data_closed splicing = (viewer_closed ≡ false) × (data_closed ≡ false)
ClosedAt viewer_closed data_closed closing_data = Unit {0}
ClosedAt viewer_closed data_closed closing_viewer = data_closed ≡ true
ClosedAt viewer_closed data_closed returned = (viewer_closed ≡ true) × (data_closed ≡ true)

pub record Holds (x y : Bytes) (s : Bridged) : Type 0 where
  pub to_host : Carries x s.from_viewer
  pub to_viewer : Carries y s.from_data
  pub closed : ClosedAt s.viewer_closed s.data_closed s.handler

wakes-Holds :
    {x y : Bytes} (done : Bool) (s : Bridged)
    → Holds x y s
    → Holds x y (if done then record s { handler = closing_data } else s)
wakes-Holds true s h = record { to_host = h.to_host; to_viewer = h.to_viewer; closed = tt }
wakes-Holds false s h = h

handle-Holds :
    {x y : Bytes} (handler : Handler) (s : Bridged)
    → s.handler ≡ handler
    → Holds x y s
    → Holds x y (handle handler s)
handle-Holds splicing s at h =
    wakes-Holds (is_ended s.from_viewer.copier || is_ended s.from_data.copier) s h
handle-Holds closing_data s at h = record {
  to_host = h.to_host;
  to_viewer = h.to_viewer;
  closed = refl;
}
handle-Holds closing_viewer s at h = record {
  to_host = h.to_host;
  to_viewer = h.to_viewer;
  closed = (refl, subst (ClosedAt s.viewer_closed s.data_closed) at h.closed);
}
handle-Holds returned s at h = h

pub runs-Holds :
    {x y : Bytes} (es : List Event) (s : Bridged)
    → Holds x y s
    → Holds (viewer_sent x es) (host_sent y es) (runs es s)
unfolding runs step
runs-Holds [] s h = h
runs-Holds {x} (arrives viewer_ch chunk ∷ es) s h =
    runs-Holds es (step (arrives viewer_ch chunk) s) (record {
      to_host = receive-Carries x chunk s.from_viewer s.from_viewer.copier h.to_host;
      to_viewer = h.to_viewer;
      closed = h.closed;
    })
runs-Holds {x} {y} (arrives data_ch chunk ∷ es) s h =
    runs-Holds es (step (arrives data_ch chunk) s) (record {
      to_host = h.to_host;
      to_viewer = receive-Carries y chunk s.from_data s.from_data.copier h.to_viewer;
      closed = h.closed;
    })
runs-Holds {x} (moves viewer_ch ∷ es) s h = runs-Holds es (step (moves viewer_ch) s) (record {
  to_host = copy-Carries x s.data_closed s.from_viewer.copier s.from_viewer refl h.to_host;
  to_viewer = h.to_viewer;
  closed = h.closed;
})
runs-Holds {x} {y} (moves data_ch ∷ es) s h = runs-Holds es (step (moves data_ch) s) (record {
  to_host = h.to_host;
  to_viewer = copy-Carries y s.viewer_closed s.from_data.copier s.from_data refl h.to_viewer;
  closed = h.closed;
})
runs-Holds {x} (fails n viewer_ch ∷ es) s h = runs-Holds es (step (fails n viewer_ch) s) (record {
  to_host = stop-Carries x n s.data_closed s.from_viewer.copier s.from_viewer refl h.to_host;
  to_viewer = h.to_viewer;
  closed = h.closed;
})
runs-Holds {x} {y} (fails n data_ch ∷ es) s h = runs-Holds es (step (fails n data_ch) s) (record {
  to_host = h.to_host;
  to_viewer = stop-Carries y n s.viewer_closed s.from_data.copier s.from_data refl h.to_viewer;
  closed = h.closed;
})
runs-Holds (handles ∷ es) s h = runs-Holds es (step handles s) (handle-Holds s.handler s refl h)
