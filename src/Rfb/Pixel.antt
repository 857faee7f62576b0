-- ===== src/Rfb/Pixel.antt =====
-- internal/rfb/pixel.go: framebuffer pixels in the client's format.
use Prim.Native.Nat.{bit_or}
use remotedesk.Prelude.{
  ℕ, zero, suc, ◌+◌, ◌-◌, ◌*◌, ◌/◌, ◌%◌, ◌^◌, List, [], ◌∷◌, ◌++◌, Option, none, some, Bytes, leb,
  ◌==◌, if◌then◌else◌,
}
use remotedesk.Rfb.{Image, PixelFormat, pix_offset}
use remotedesk.Rfb.Format.{bytes_per_pixel}
pub mod Direct

-- `v << s` on `uint32`.
abbrev pub shl32 : ℕ → ℕ → ℕ
shl32 v s = v * 2 ^ s % 2 ^ 32

-- `uint32(c) * uint32(max) / 255`
abbrev pub channel : ℕ → ℕ → ℕ
channel c max_c = c * max_c % 2 ^ 32 / 255

unfoldable pub pixel_value : PixelFormat → ℕ → ℕ → ℕ → ℕ
pixel_value pf r g b =
    bit_or
      (bit_or (shl32 (channel r pf.red_max) pf.red_shift)
        (shl32 (channel g pf.green_max) pf.green_shift))
      (shl32 (channel b pf.blue_max) pf.blue_shift)

-- `byte(val >> (8 * uint(i)))`
abbrev pub byte_at : ℕ → ℕ → ℕ
byte_at val i = val / 2 ^ (8 * i) % 256

-- `for i := 0; i < n; i++`, the bytes that `f` gives.
unfoldable pub fill : ℕ → (ℕ → ℕ) → Bytes
fill zero f = []
fill (suc n) f = f 0 ∷ fill n (λ i. f (suc i))

-- `pix` has four bytes: the write of a fifth panics, which is `none`.
unfoldable pub encode_pixel : PixelFormat → ℕ → ℕ → ℕ → Option Bytes
unfolding pixel_value fill
encode_pixel pf r g b =
    let bpp = bytes_per_pixel pf in
    let val = pixel_value pf r g b in
    let pix =
      if pf.big_endian == 0
      then fill bpp (λ i. byte_at val i)
      else fill bpp (λ i. byte_at val (bpp - 1 - i)) in
    if leb bpp 4 then some pix else none

-- `dst = append(dst, ...)`
unfoldable pub then_bytes : Option Bytes → Option Bytes → Option Bytes
then_bytes none later = none
then_bytes (some bs) none = none
then_bytes (some bs) (some later) = some (bs ++ later)

-- `for fx := rx; fx < rx+rw; fx++`, from the offset of the first pixel.
unfoldable pub encode_row : PixelFormat → Image → ℕ → ℕ → Option Bytes
unfolding then_bytes
encode_row pf img row zero = some []
encode_row pf img row (suc n) =
    then_bytes (encode_pixel pf (img.pix row) (img.pix (row + 1)) (img.pix (row + 2)))
      (encode_row pf img (row + 4) n)

-- `for fy := ry; fy < ry+rh; fy++`
unfoldable pub encode_rows : PixelFormat → Image → ℕ → ℕ → ℕ → ℕ → Option Bytes
unfolding then_bytes
encode_rows pf img rx fy rw zero = some []
encode_rows pf img rx fy rw (suc n) =
    then_bytes (encode_row pf img (pix_offset img rx fy) rw) (encode_rows pf img rx (suc fy) rw n)

unfoldable pub encode_rect_into : PixelFormat → Image → ℕ → ℕ → ℕ → ℕ → Option Bytes
encode_rect_into pf img rx ry rw rh = encode_rows pf img rx ry rw rh
