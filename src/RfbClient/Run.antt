-- ===== src/RfbClient/Run.antt =====
-- internal/rfbclient/io.go: `Run`, the loop over the server's messages.
use remotedesk.Prelude.{
  ℕ, zero, suc, ◌+◌, ◌*◌, Bool, true, false, List, [], ◌∷◌, ◌++◌, Bytes, length, drop, ltb, ◌==◌,
  if◌then◌else◌,
}
use remotedesk.BigEndian.{get_u16, get_u32}
use remotedesk.RfbClient.Decode.{
  Framebuffer, Decoded, decoded, failed, panicked, and_then, read_framebuffer_update,
}
pub mod Mirror

abbrev pub msg_framebuffer_update : ℕ
msg_framebuffer_update = 0

abbrev pub msg_set_colour_map_entries : ℕ
msg_set_colour_map_entries = 1

abbrev pub msg_bell : ℕ
msg_bell = 2

abbrev pub msg_server_cut_text : ℕ
msg_server_cut_text = 3

-- `io.CopyN(io.Discard, c.r, n)`
unfoldable pub discard : ℕ → Bytes → Decoded Bytes
discard n bs = if ltb (length bs) n then failed else decoded (drop n bs)

unfoldable pub skip_colour_map : Bytes → Decoded Bytes
unfolding discard
skip_colour_map (pad ∷ f0 ∷ f1 ∷ c0 ∷ c1 ∷ rest) = discard (get_u16 c0 c1 * 6) rest
skip_colour_map bs = failed

unfoldable pub skip_cut_text : Bytes → Decoded Bytes
unfolding discard
skip_cut_text (p0 ∷ p1 ∷ p2 ∷ l0 ∷ l1 ∷ l2 ∷ l3 ∷ rest) = discard (get_u32 l0 l1 l2 l3) rest
skip_cut_text bs = failed

-- One message: the framebuffer after it, the rest of the stream, and whether `OnUpdate` is called.
pub record Round : Type 0 where
  pub fb : Framebuffer
  pub rest : Bytes
  pub updated : Bool

unfoldable pub read_message : ℕ → Bytes → Framebuffer → Decoded Round
unfolding and_then skip_colour_map skip_cut_text
read_message typ bs fb =
    if typ == msg_framebuffer_update
    then and_then (read_framebuffer_update bs fb)
        (λ (done, rest). decoded (record { fb = done; rest = rest; updated = true }))
    else if typ == msg_set_colour_map_entries
    then and_then (skip_colour_map bs)
        (λ rest. decoded (record { fb = fb; rest = rest; updated = false }))
    else if typ == msg_bell
    then decoded (record { fb = fb; rest = bs; updated = false })
    else if typ == msg_server_cut_text
    then and_then (skip_cut_text bs)
        (λ rest. decoded (record { fb = fb; rest = rest; updated = false }))
    else failed

-- How `Run` ends: with `nil`, with an error, or by a panic. `unfinished`: the rounds are used up.
pub data Ending : Type 0 where
  clean fails panics unfinished : Ending

-- The framebuffers at the calls of `OnUpdate`.
abbrev pub Shown : Type 0
Shown = List Framebuffer × Ending

unfoldable pub after_message : Decoded Round → (Framebuffer → Bytes → Shown) → Shown
after_message failed more = ([], fails)
after_message panicked more = ([], panics)
after_message (decoded r) more =
    let (frames, ending) = more r.fb r.rest in (if r.updated then r.fb ∷ frames else frames, ending)

-- Each round takes at least the type of one message.
unfoldable pub run : ℕ → Bytes → Framebuffer → Shown
unfolding after_message
run zero bs fb = ([], unfinished)
run (suc n) [] fb = ([], clean)
run (suc n) (typ ∷ bs) fb = after_message (read_message typ bs fb) (λ done rest. run n rest done)
