-- ===== src/RfbClient.antt =====
-- internal/rfbclient: the viewer's side of RFB. The messages are the bytes that `write` is given.
use remotedesk.Prelude.{
  ℕ, zero, suc, ◌+◌, ◌-◌, ◌%◌, Bool, true, false, List, [], ◌∷◌, ◌++◌, Bytes, ℤ, pos, negsuc,
  length, leb, if◌then◌else◌,
}
use remotedesk.BigEndian.{put_u16, put_u32}
use remotedesk.Rfb.{
  msg_set_pixel_format, msg_set_encodings, msg_framebuffer_update_request, msg_key_event,
  msg_pointer_event,
}
pub mod Dialogue
pub mod Served
pub mod Unfailing
pub mod Decode
pub mod Run
pub mod Handshake
mod Tests

-- The dimensions come from two `uint16` of ServerInit.
pub record Client : Type 0 where
  pub width : ℕ
  pub height : ℕ

-- `uint16(v)` and `uint32(v)` of a signed number.
unfoldable pub wrap : ℕ → ℤ → ℕ
wrap size (pos n) = n % size
wrap size (negsuc n) = size - 1 - n % size

-- `max - 1`
abbrev pub pred : ℕ → ℤ
pred zero = negsuc 0
pred (suc n) = pos n

unfoldable pub clamp : ℤ → ℕ → ℤ
clamp (negsuc n) max = pos 0
clamp (pos v) max = if leb max v then pred max else pos v

abbrev pub flag : Bool → ℕ
flag true = 1
flag false = 0

unfoldable pub set_pixel_format_msg : Bytes
set_pixel_format_msg =
    (msg_set_pixel_format ∷ 0 ∷ 0 ∷ 0 ∷ [])
    ++ (32 ∷ 24 ∷ 0 ∷ 1 ∷ 0 ∷ 255 ∷ 0 ∷ 255 ∷ 0 ∷ 255 ∷ 16 ∷ 8 ∷ 0 ∷ 0 ∷ 0 ∷ 0 ∷ [])

-- `for _, e := range encodings`
unfoldable pub put_encodings : List ℤ → Bytes
unfolding wrap
put_encodings [] = []
put_encodings (e ∷ encodings) = put_u32 (wrap 4294967296 e) ++ put_encodings encodings

unfoldable pub set_encodings_msg : List ℤ → Bytes
set_encodings_msg encodings =
    msg_set_encodings ∷ 0 ∷ (put_u16 (length encodings) ++ put_encodings encodings)

unfoldable pub request_update_msg : Client → Bool → Bytes
request_update_msg c incremental =
    msg_framebuffer_update_request
    ∷ flag incremental
    ∷ (put_u16 0 ++ (put_u16 0 ++ (put_u16 c.width ++ put_u16 c.height)))

unfoldable pub pointer_msg : Client → ℤ → ℤ → ℕ → Bytes
unfolding wrap clamp
pointer_msg c x y buttons =
    msg_pointer_event
    ∷ buttons
    ∷ (put_u16 (wrap 65536 (clamp x c.width)) ++ put_u16 (wrap 65536 (clamp y c.height)))

unfoldable pub key_msg : ℕ → Bool → Bytes
key_msg keysym is_down = msg_key_event ∷ flag is_down ∷ 0 ∷ 0 ∷ put_u32 keysym
