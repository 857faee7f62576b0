-- ===== src/Rfb.antt =====
-- internal/rfb: the server's side of RFB 3.8. The stream is a list of bytes.
-- `image.RGBA` has its bounds, its stride and its bytes. A byte's offset is relative to that of the
-- upper left corner, as `PixOffset(b.Min.X+x, b.Min.Y+y)` is; `pix` gives the byte at an offset.
use remotedesk.Prelude.{ℕ, ◌+◌, ◌-◌, ◌*◌, Option, Bytes}
pub mod Format
pub mod Pixel
pub mod Diff
pub mod Session
pub mod Auth
pub mod Handshake
pub mod Serve
mod Tests

pub record Image : Type 0 where
  pub width : ℕ
  pub height : ℕ
  pub stride : ℕ
  pub pix : ℕ → ℕ

abbrev pub pix_offset : Image → ℕ → ℕ → ℕ
pix_offset img x y = y * img.stride + x * 4

-- `image.Rectangle`, with its `Dx` and `Dy`.
pub record Rectangle : Type 0 where
  pub min_x : ℕ
  pub min_y : ℕ
  pub max_x : ℕ
  pub max_y : ℕ

abbrev pub dx : Rectangle → ℕ
dx r = r.max_x - r.min_x

abbrev pub dy : Rectangle → ℕ
dy r = r.max_y - r.min_y

-- The fields are `uint8` and `uint16`.
pub record PixelFormat : Type 0 where
  pub bits_per_pixel : ℕ
  pub depth : ℕ
  pub big_endian : ℕ
  pub true_color : ℕ
  pub red_max : ℕ
  pub green_max : ℕ
  pub blue_max : ℕ
  pub red_shift : ℕ
  pub green_shift : ℕ
  pub blue_shift : ℕ

abbrev pub default_pixel_format : PixelFormat
default_pixel_format = record {
  bits_per_pixel = 32;
  depth = 24;
  big_endian = 0;
  true_color = 1;
  red_max = 255;
  green_max = 255;
  blue_max = 255;
  red_shift = 16;
  green_shift = 8;
  blue_shift = 0;
}

-- The types of the client's messages, which internal/rfbclient declares with the same values.
abbrev pub msg_set_pixel_format : ℕ
msg_set_pixel_format = 0

abbrev pub msg_set_encodings : ℕ
msg_set_encodings = 2

abbrev pub msg_framebuffer_update_request : ℕ
msg_framebuffer_update_request = 3

abbrev pub msg_key_event : ℕ
msg_key_event = 4

abbrev pub msg_pointer_event : ℕ
msg_pointer_event = 5

abbrev pub msg_client_cut_text : ℕ
msg_client_cut_text = 6

abbrev pub encoding_raw : ℕ
encoding_raw = 0
