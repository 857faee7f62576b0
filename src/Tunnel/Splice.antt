-- ===== src/Tunnel/Splice.antt =====
-- `splice` of internal/tunnel/common.go: two goroutines that copy between two connections. An event
-- is a step of one of them or the arrival of bytes, so that a list of events is an interleaving.
use remotedesk.Prelude.{
  ℕ, Bool, true, false, ◌&&◌, ◌||◌, not, List, [], ◌∷◌, ◌++◌, Bytes, take, if◌then◌else◌,
}
pub mod Ends
pub mod Flows

-- Where a goroutine is: in `Read`, in `Write` with what it has read, before the closing of `a`, before
-- that of `b`, and past its signal.
pub data Copier : Type 0 where
  reading : Copier
  writing : Bytes → Copier
  closing_a closing_b ended : Copier

-- One direction: what has arrived and is not read, and what was written.
pub record Flow : Type 0 where
  pub unread : List Bytes
  pub copier : Copier
  pub written : Bytes

pub record Splice : Type 0 where
  pub from_a : Flow
  pub from_b : Flow
  pub a_closed : Bool
  pub b_closed : Bool

pub data Side : Type 0 where
  a b : Side

-- A goroutine's call succeeds, or it fails and a `Write` has then written some bytes. The goroutine
-- `a` copies from `a` to `b`.
pub data Event : Type 0 where
  arrives : Side → Bytes → Event
  moves : Side → Event
  fails : ℕ → Side → Event

-- `Read`: where nothing has arrived it blocks. A pending `Read` of a closed source ends by `fails`: at
-- once for a `net.Conn`, and for an SSH channel once the peer has answered the close.
abbrev pub read : List Bytes → Flow → Flow
read [] f = f
read (chunk ∷ rest) f = record f { unread = rest; copier = writing chunk }

-- A step of `cp`, which has whether its destination is closed, where `Write` fails.
abbrev pub advance : Bool → Copier → Flow → Flow
advance dst_closed reading f = read f.unread f
advance dst_closed (writing chunk) f =
    if dst_closed
    then record f { copier = closing_a }
    else record f { copier = reading; written = f.written ++ chunk }
advance dst_closed closing_a f = record f { copier = closing_b }
advance dst_closed closing_b f = record f { copier = ended }
advance dst_closed ended f = f

-- `io.Copy` ends: at the end of the source, or with an error.
abbrev pub give_up : ℕ → Bool → Copier → Flow → Flow
give_up n dst_closed (writing chunk) f = record f {
  copier = closing_a;
  written = if dst_closed then f.written else f.written ++ take n chunk;
}
give_up n dst_closed reading f = record f { copier = closing_a }
give_up n dst_closed copier f = f

-- What a step of a goroutine closes.
abbrev pub closes_a : Copier → Bool
closes_a closing_a = true
closes_a copier = false

abbrev pub closes_b : Copier → Bool
closes_b closing_b = true
closes_b copier = false

abbrev pub arrive : Bytes → Flow → Flow
arrive chunk f = record f { unread = f.unread ++ (chunk ∷ []) }

unfoldable pub step : Event → Splice → Splice
step (arrives a chunk) s = record s { from_a = arrive chunk s.from_a }
step (arrives b chunk) s = record s { from_b = arrive chunk s.from_b }
step (moves a) s = record s {
  from_a = advance s.b_closed s.from_a.copier s.from_a;
  a_closed = s.a_closed || closes_a s.from_a.copier;
  b_closed = s.b_closed || closes_b s.from_a.copier;
}
step (moves b) s = record s {
  from_b = advance s.a_closed s.from_b.copier s.from_b;
  a_closed = s.a_closed || closes_a s.from_b.copier;
  b_closed = s.b_closed || closes_b s.from_b.copier;
}
step (fails n a) s = record s { from_a = give_up n s.b_closed s.from_a.copier s.from_a }
step (fails n b) s = record s { from_b = give_up n s.a_closed s.from_b.copier s.from_b }

unfoldable pub runs : List Event → Splice → Splice
runs [] s = s
runs (e ∷ es) s = runs es (step e s)

abbrev idle : Flow
idle = record { unread = []; copier = reading; written = [] }

abbrev pub spliced : Splice
spliced = record { from_a = idle; from_b = idle; a_closed = false; b_closed = false }
