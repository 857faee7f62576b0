-- ===== src/Relay/Splice.antt =====
-- internal/relay/relay.go: `splice`, and the end of `serveConnect`, which closes the two channels when
-- `splice` has returned. An event is a step of one of the two goroutines or of the handler, or the
-- arrival of bytes, so that a list of events is an interleaving.
use remotedesk.Prelude.{ℕ, Bool, true, false, ◌||◌, List, [], ◌∷◌, ◌++◌, Bytes, take, if◌then◌else◌}
pub mod Flows
pub mod Bridge

-- Where a goroutine is: in `Read`, in `Write` with what it has read, and past its signal, which never
-- blocks, since `done` has room for both.
pub data Copier : Type 0 where
  reading : Copier
  writing : Bytes → Copier
  ended : Copier

-- One direction: what has arrived and is not read, and what was written.
pub record Flow : Type 0 where
  pub unread : List Bytes
  pub copier : Copier
  pub written : Bytes

-- Where the handler is: at `<-done`, before each of the deferred calls of `Close`, and past them.
pub data Handler : Type 0 where
  splicing closing_data closing_viewer returned : Handler

pub record Bridged : Type 0 where
  pub from_viewer : Flow
  pub from_data : Flow
  pub handler : Handler
  pub viewer_closed : Bool
  pub data_closed : Bool

-- `viewerCh` and `dataCh`. A goroutine is named for the channel that it reads.
pub data Side : Type 0 where
  viewer_ch data_ch : Side

-- A goroutine's call succeeds, or it fails and a `Write` has then written some bytes.
pub data Event : Type 0 where
  arrives : Side → Bytes → Event
  moves : Side → Event
  fails : ℕ → Side → Event
  handles : Event

-- `Read`: where nothing has arrived it blocks. `Close` only sends a message, so that a pending `Read`
-- of a closed channel ends, by `fails`, once the peer has answered it or the connection is gone.
abbrev pub copy_read : List Bytes → Flow → Flow
copy_read [] f = f
copy_read (chunk ∷ rest) f = record f { unread = rest; copier = writing chunk }

-- A step of `cp`, which has whether its destination is closed, where `Write` fails.
abbrev pub copy : Bool → Copier → Flow → Flow
copy dst_closed reading f = copy_read f.unread f
copy dst_closed (writing chunk) f =
    if dst_closed
    then record f { copier = ended }
    else record f { copier = reading; written = f.written ++ chunk }
copy dst_closed ended f = f

-- `io.Copy` ends: at the end of the source, or with an error.
abbrev pub stop : ℕ → Bool → Copier → Flow → Flow
stop n dst_closed reading f = record f { copier = ended }
stop n dst_closed (writing chunk) f = record f {
  copier = ended;
  written = if dst_closed then f.written else f.written ++ take n chunk;
}
stop n dst_closed ended f = f

abbrev pub is_ended : Copier → Bool
is_ended ended = true
is_ended copier = false

-- `<-done`, and then the deferred calls, of which the last one is made first.
abbrev pub handle : Handler → Bridged → Bridged
handle splicing s =
    if is_ended s.from_viewer.copier || is_ended s.from_data.copier
    then record s { handler = closing_data }
    else s
handle closing_data s = record s { handler = closing_viewer; data_closed = true }
handle closing_viewer s = record s { handler = returned; viewer_closed = true }
handle returned s = s

abbrev pub receive : Bytes → Flow → Flow
receive chunk f = record f { unread = f.unread ++ (chunk ∷ []) }

unfoldable pub step : Event → Bridged → Bridged
step (arrives viewer_ch chunk) s = record s { from_viewer = receive chunk s.from_viewer }
step (arrives data_ch chunk) s = record s { from_data = receive chunk s.from_data }
step (moves viewer_ch) s = record s {
  from_viewer = copy s.data_closed s.from_viewer.copier s.from_viewer;
}
step (moves data_ch) s = record s {
  from_data = copy s.viewer_closed s.from_data.copier s.from_data;
}
step (fails n viewer_ch) s = record s {
  from_viewer = stop n s.data_closed s.from_viewer.copier s.from_viewer;
}
step (fails n data_ch) s = record s {
  from_data = stop n s.viewer_closed s.from_data.copier s.from_data;
}
step handles s = handle s.handler s

unfoldable pub runs : List Event → Bridged → Bridged
runs [] s = s
runs (e ∷ es) s = runs es (step e s)

abbrev silent : Flow
silent = record { unread = []; copier = reading; written = [] }

abbrev pub bridging : Bridged
bridging = record {
  from_viewer = silent;
  from_data = silent;
  handler = splicing;
  viewer_closed = false;
  data_closed = false;
}
