-- ===== src/Relay/Splice/Bridge.antt =====
-- A bridge between a viewer and a host, from its opening to its end.
use remotedesk.Prelude.{
  ◌≡◌, refl, ap, sym, subst, ◌⊎◌, inl, inr, Bool, true, false, ◌||◌, List, [], ◌∷◌, if◌then◌else◌,
}
use remotedesk.Tunnel.Splice.Flows.{Prefix}
use remotedesk.Relay.Splice.{
  Copier, reading, writing, ended, Flow, Handler, splicing, closing_data, closing_viewer, returned,
  Bridged, viewer_ch, data_ch, Event, fails, handles, stop, is_ended, step, runs, bridging,
}
use remotedesk.Relay.Splice.Flows.{
  viewer_sent, host_sent, ClosedAt, Holds, Carries-Prefix, runs-Holds,
}

-- The handler gets to run three times.
abbrev pub closes : List Event
closes = handles ∷ handles ∷ handles ∷ []

-- And then the pending call of each goroutine fails, as it does once the peer has answered `Close`.
abbrev pub turns : List Event
turns = handles ∷ handles ∷ handles ∷ fails 0 viewer_ch ∷ fails 0 data_ch ∷ []

-- The handler waits, both goroutines copy, and both channels are open.
abbrev pub IsOpen : Bridged → Type 0
IsOpen s =
    (s.handler ≡ splicing)
    × (is_ended s.from_viewer.copier || is_ended s.from_data.copier ≡ false)
    × (s.viewer_closed ≡ false)
    × (s.data_closed ≡ false)

-- The handler has returned, and both channels are closed.
abbrev pub HasClosed : Bridged → Type 0
HasClosed s = (s.handler ≡ returned) × (s.viewer_closed ≡ true) × (s.data_closed ≡ true)

-- And neither goroutine is left.
abbrev pub IsGone : Bridged → Type 0
IsGone s = HasClosed s × (s.from_viewer.copier ≡ ended) × (s.from_data.copier ≡ ended)

-- The handler returns by its own steps, and the goroutines once their calls fail.
abbrev pub Ends : Bridged → Type 0
Ends s = HasClosed (runs closes s) × IsGone (runs turns s)

stop_ends :
    (dst_closed : Bool) (copier : Copier) (f : Flow)
    → f.copier ≡ copier
    → (stop 0 dst_closed copier f).copier ≡ ended
stop_ends dst_closed reading f at = refl
stop_ends dst_closed (writing chunk) f at = refl
stop_ends dst_closed ended f at = at

abbrev both_end : Flow → Flow → Handler → Bool → Bool → Bridged
both_end f g handler viewer_closed data_closed = record {
  from_viewer = f;
  from_data = g;
  handler = handler;
  viewer_closed = viewer_closed;
  data_closed = data_closed;
}

-- What is left of `closes` and of `turns` after one step of the handler.
abbrev Left : Bridged → Type 0
Left s =
    HasClosed (runs (handles ∷ handles ∷ []) s)
    × IsGone (runs (handles ∷ handles ∷ fails 0 viewer_ch ∷ fails 0 data_ch ∷ []) s)

closing-Left : (f g : Flow) (v d : Bool) → Left (both_end f g closing_data v d)
unfolding runs step
closing-Left f g v d = (
  (refl, refl, refl),
  ((refl, refl, refl), stop_ends true f.copier f refl, stop_ends true g.copier g refl),
)

wakes :
    (f g : Flow) (v d : Bool)
    → (is_ended f.copier || is_ended g.copier) ≡ true
    → step handles (both_end f g splicing v d) ≡ both_end f g closing_data v d
unfolding step
wakes f g v d h = ap (λ b. if b then both_end f g closing_data v d else both_end f g splicing v d) h

waiting-Ends :
    (f g : Flow) (v d done : Bool)
    → (is_ended f.copier || is_ended g.copier) ≡ done
    → ClosedAt v d splicing
    → IsOpen (both_end f g splicing v d) ⊎ Ends (both_end f g splicing v d)
unfolding runs
waiting-Ends f g v d false h (p, q) = inl (refl, h, p, q)
waiting-Ends f g v d true h (p, q) = inr (subst Left (sym (wakes f g v d h)) (closing-Left f g v d))

closed-Ends : (f g : Flow) → Ends (both_end f g returned true true)
unfolding runs step
closed-Ends f g = (
  (refl, refl, refl),
  ((refl, refl, refl), stop_ends true f.copier f refl, stop_ends true g.copier g refl),
)

turns-Ends :
    (f g : Flow) (handler : Handler) (v d : Bool)
    → ClosedAt v d handler
    → IsOpen (both_end f g handler v d) ⊎ Ends (both_end f g handler v d)
unfolding runs step
turns-Ends f g splicing v d h = waiting-Ends f g v d (is_ended f.copier || is_ended g.copier) refl h
turns-Ends f g closing_data v d h = inr (closed-Ends f g)
turns-Ends f g closing_viewer v true h = inr (closed-Ends f g)
turns-Ends f g closing_viewer v false h = cc
turns-Ends f g returned true true h = inr (closed-Ends f g)
turns-Ends f g returned true false (p, q) = cc
turns-Ends f g returned false d (p, q) = cc

-- In every interleaving: what the host was sent is a first part of what the viewer sent, and what the
-- viewer was sent a first part of what the host sent, both in order. And the bridge is open with both
-- goroutines copying, or after at most three more steps of the handler it has returned and both
-- channels are closed, and once the pending call of each goroutine has then failed, neither is left.
pub bridge_serves :
    (es : List Event)
    → Prefix (runs es bridging).from_viewer.written (viewer_sent [] es)
      × Prefix (runs es bridging).from_data.written (host_sent [] es)
      × (IsOpen (runs es bridging) ⊎ Ends (runs es bridging))
bridge_serves es =
    let s = runs es bridging in
    let start : Holds [] [] bridging = record {
      to_host = refl;
      to_viewer = refl;
      closed = (refl, refl);
    } in
    let h = runs-Holds es bridging start in
    (
      Carries-Prefix (viewer_sent [] es) s.from_viewer s.from_viewer.copier h.to_host,
      Carries-Prefix (host_sent [] es) s.from_data s.from_data.copier h.to_viewer,
      turns-Ends s.from_viewer s.from_data s.handler s.viewer_closed s.data_closed h.closed,
    )
