-- ===== src/Rfb/Session.antt =====
-- internal/rfb/server.go: `loop` and the messages that it reads. What the client has sent is a list
-- of bytes, which ends where the client disconnects.
use remotedesk.Prelude.{
  ℕ, zero, suc, ◌+◌, ◌-◌, ◌*◌, ◌/◌, Bool, true, false, ◌≡◌, not, List, [], ◌∷◌, ◌++◌, Option, none,
  some, Bytes, length, take, drop, ltb, ◌==◌, if◌then◌else◌,
}
use remotedesk.BigEndian.{put_u16, put_u32, get_u16, get_u32}
use remotedesk.Rfb.{
  Image, Rectangle, PixelFormat, dx, dy, msg_set_pixel_format, msg_set_encodings,
  msg_framebuffer_update_request, msg_key_event, msg_pointer_event, msg_client_cut_text,
  encoding_raw,
}
use remotedesk.Rfb.Format
use remotedesk.Rfb.Pixel.{encode_rect_into, then_bytes}
use remotedesk.Rfb.Diff.{dirty_rects, whole}
pub mod Resume
pub mod Rounds
pub mod Panics
pub mod Broken
mod Tests

-- The calls of the sink, the frames that are written, and the waits, in order.
pub data Effect : Type 0 where
  key_event : ℕ → Bool → Effect
  pointer_event : ℕ → ℕ → ℕ → Effect
  sends : Bytes → Effect
  sleeps : ℕ → Effect

-- How the session ends: with `nil`, with an error, or by a panic. `waits`: it has not ended.
pub data End : Type 0 where
  clean failed panicked waits : End

-- `lastFrame` is the zero time, `none`, before the first frame.
pub record Session : Type 0 where
  pub pf : PixelFormat
  pub min_frame : ℕ
  pub prev : Option Image
  pub last_frame : Option ℕ

-- What the environment gives to one message: the clock at `time.Since`, the frame that the screen
-- captures, which may fail, where a write of the update fails, after so many bytes, and the clock at
-- the end.
pub record Env : Type 0 where
  pub now : ℕ
  pub capture : Option Image
  pub breaks : Option ℕ
  pub done : ℕ

pub data Step : Type 0 where
  goes : Session → List Effect → Bytes → Step
  ends : List Effect → End → Step

-- `io.CopyN(io.Discard, s.r, n)`
unfoldable pub discard : ℕ → Bytes → Option Bytes
discard n bs = if ltb (length bs) n then none else some (drop n bs)

unfoldable pub read_set_pixel_format : Bytes → Option (PixelFormat × Bytes)
read_set_pixel_format (p0 ∷ p1 ∷ p2 ∷ rest) = Format.read rest
read_set_pixel_format bs = none

unfoldable pub read_set_encodings : Bytes → Option Bytes
unfolding discard
read_set_encodings (pad ∷ c0 ∷ c1 ∷ rest) = discard (get_u16 c0 c1 * 4) rest
read_set_encodings bs = none

-- The flag `incremental`.
unfoldable pub read_fbur : Bytes → Option (Bool × Bytes)
read_fbur (b0 ∷ b1 ∷ b2 ∷ b3 ∷ b4 ∷ b5 ∷ b6 ∷ b7 ∷ b8 ∷ rest) = some (not (b0 == 0), rest)
read_fbur bs = none

unfoldable pub read_key_event : Bytes → Option (Effect × Bytes)
read_key_event (b0 ∷ b1 ∷ b2 ∷ b3 ∷ b4 ∷ b5 ∷ b6 ∷ rest) =
    some (key_event (get_u32 b3 b4 b5 b6) (not (b0 == 0)), rest)
read_key_event bs = none

unfoldable pub read_pointer_event : Bytes → Option (Effect × Bytes)
read_pointer_event (b0 ∷ b1 ∷ b2 ∷ b3 ∷ b4 ∷ rest) =
    some (pointer_event (get_u16 b1 b2) (get_u16 b3 b4) b0, rest)
read_pointer_event bs = none

unfoldable pub read_client_cut_text : Bytes → Option Bytes
unfolding discard
read_client_cut_text (b0 ∷ b1 ∷ b2 ∷ b3 ∷ b4 ∷ b5 ∷ b6 ∷ rest) = discard (get_u32 b3 b4 b5 b6) rest
read_client_cut_text bs = none

-- The rectangles of one update: all of the frame for a full request and for the first frame.
unfoldable pub update_rects : Bool → Option Image → Image → List Rectangle
update_rects false prev img = whole img ∷ []
update_rects true none img = whole img ∷ []
update_rects true (some prev) img = dirty_rects prev img

-- One rectangle: its position and size, the encoding Raw, its pixels. `none` is a panic.
unfoldable pub put_rect : PixelFormat → Image → Rectangle → Option Bytes
put_rect pf img r =
    then_bytes
      (some (
        put_u16 r.min_x
        ++ (put_u16 r.min_y ++ (put_u16 (dx r) ++ (put_u16 (dy r) ++ put_u32 encoding_raw)))))
      (encode_rect_into pf img r.min_x r.min_y (dx r) (dy r))

unfoldable pub put_rects : PixelFormat → Image → List Rectangle → Option Bytes
put_rects pf img [] = some []
put_rects pf img (r ∷ rects) = then_bytes (put_rect pf img r) (put_rects pf img rects)

-- The message type, a byte of padding, the number of rectangles, and the rectangles.
unfoldable pub put_update : PixelFormat → Image → List Rectangle → Option Bytes
put_update pf img rects =
    then_bytes (some (0 ∷ 0 ∷ put_u16 (length rects))) (put_rects pf img rects)

-- The writes of the update, up to the `Flush`. The client has the bytes before the one that failed.
unfoldable pub deliver : Env → Session → Image → List Effect → Bytes → Bytes → Option ℕ → Step
deliver env s img pauses rest bs none =
    goes (record s { prev = some img; last_frame = some env.done }) (pauses ++ (sends bs ∷ [])) rest
deliver env s img pauses rest bs (some n) = ends (pauses ++ (sends (take n bs) ∷ [])) failed

-- A panic comes at the first pixel, when nothing has left the buffer.
unfoldable pub sent : Env → Session → Image → List Effect → Bytes → Option Bytes → Step
unfolding deliver
sent env s img pauses rest none = ends pauses panicked
sent env s img pauses rest (some bs) = deliver env s img pauses rest bs env.breaks

unfoldable pub send_framebuffer_update :
    Env → Bool → Option Image → Session → List Effect → Bytes → Step
unfolding sent
send_framebuffer_update env incremental none s pauses rest = ends pauses failed
send_framebuffer_update env incremental (some img) s pauses rest =
    sent env s img pauses rest (put_update s.pf img (update_rects incremental s.prev img))

-- `if d := time.Since(lastFrame); d < s.minFrame { time.Sleep(s.minFrame - d) }`
unfoldable pub pace : Session → ℕ → Option ℕ → List Effect
pace s now none = []
pace s now (some last) =
    if ltb (now - last) s.min_frame then sleeps (s.min_frame - (now - last)) ∷ [] else []

unfoldable pub on_fbur : Env → Session → Option (Bool × Bytes) → Step
on_fbur env s none = ends [] failed
on_fbur env s (some (incremental, rest)) =
    let pauses = if incremental then pace s env.now s.last_frame else [] in
    send_framebuffer_update env incremental env.capture s pauses rest

unfoldable pub on_format : Session → Option (PixelFormat × Bytes) → Step
on_format s none = ends [] failed
on_format s (some (pf, rest)) = goes (record s { pf = pf }) [] rest

unfoldable pub on_event : Session → Option (Effect × Bytes) → Step
on_event s none = ends [] failed
on_event s (some (effect, rest)) = goes s (effect ∷ []) rest

unfoldable pub on_skipped : Session → Option Bytes → Step
on_skipped s none = ends [] failed
on_skipped s (some rest) = goes s [] rest

-- The `switch` on the message type.
unfoldable pub dispatch : Env → Session → ℕ → Bytes → Step
dispatch env s typ rest =
    if typ == msg_set_pixel_format
    then on_format s (read_set_pixel_format rest)
    else if typ == msg_set_encodings
    then on_skipped s (read_set_encodings rest)
    else if typ == msg_framebuffer_update_request
    then on_fbur env s (read_fbur rest)
    else if typ == msg_key_event
    then on_event s (read_key_event rest)
    else if typ == msg_pointer_event
    then on_event s (read_pointer_event rest)
    else if typ == msg_client_cut_text
    then on_skipped s (read_client_cut_text rest)
    else ends [] failed

-- One round of the loop. The end of the stream between two messages is no error.
unfoldable pub round : Env → Session → Bytes → Step
round env s [] = ends [] clean
round env s (typ ∷ rest) = dispatch env s typ rest

unfoldable pub prepend : List Effect → List Effect × End → List Effect × End
prepend effects (later, fin) = (effects ++ later, fin)

unfoldable pub continue : Step → (Session → Bytes → List Effect × End) → List Effect × End
continue (ends effects fin) more = (effects, fin)
continue (goes s effects rest) more = prepend effects (more s rest)

-- The loop, with the environment of each round in turn; where they are used up it waits.
unfoldable pub loop : List Env → Session → Bytes → List Effect × End
loop [] s bs = ([], waits)
loop (env ∷ envs) s bs = continue (round env s bs) (λ s' rest. loop envs s' rest)
