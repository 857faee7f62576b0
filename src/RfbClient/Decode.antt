-- ===== src/RfbClient/Decode.antt =====
-- internal/rfbclient/io.go: the server's messages, decoded into the framebuffer. What the server has
-- sent is a list of bytes, which ends where it disconnects.
use remotedesk.Prelude.{
  ℕ, zero, suc, ◌+◌, ◌-◌, ◌*◌, Bool, true, false, ◌&&◌, List, [], ◌∷◌, ◌++◌, Option, none, some,
  Bytes, length, take, drop, ltb, leb, ◌==◌, if◌then◌else◌,
}
use remotedesk.BigEndian.{get_u16, get_u32}
use remotedesk.Rfb.{encoding_raw}
pub mod Paint
pub mod Rows
pub mod Rects
pub mod Copy
pub mod Update

-- `image.NewRGBA(image.Rect(0, 0, c.Width, c.Height))`: the stride is four times the width.
pub record Framebuffer : Type 0 where
  pub width : ℕ
  pub height : ℕ
  pub pix : ℕ → ℕ

abbrev pub fb_offset : Framebuffer → ℕ → ℕ → ℕ
fb_offset fb x y = y * (fb.width * 4) + x * 4

-- `len(c.fb.Pix)`
abbrev pub fb_length : Framebuffer → ℕ
fb_length fb = fb.height * (fb.width * 4)

abbrev pub encoding_copy_rect : ℕ
encoding_copy_rect = 1

-- An error, which ends `Run`, or a panic.
pub data Decoded {ℓ} (A : Type ℓ) : Type ℓ where
  decoded : A → Decoded A
  failed panicked : Decoded A

-- `if err != nil { return err }`
unfoldable pub and_then {ℓ κ} : {A : Type ℓ} {B : Type κ} → Decoded A → (A → Decoded B) → Decoded B
and_then (decoded a) f = f a
and_then failed f = failed
and_then panicked f = panicked

-- `io.ReadFull` of `n` bytes.
unfoldable pub read_full : ℕ → Bytes → Decoded (Bytes × Bytes)
read_full n bs = if ltb (length bs) n then failed else decoded (take n bs, drop n bs)

-- One pixel, unless it lies behind the last byte.
unfoldable pub put_pixel : ℕ → ℕ → ℕ → ℕ → Framebuffer → Framebuffer
put_pixel di r g b fb = if leb (fb_length fb) (di + 3) then fb else record fb {
  pix = λ i.
      if i == di
      then r
      else if i == di + 1
      then g
      else if i == di + 2
      then b
      else if i == di + 3
      then 255
      else fb.pix i;
}

-- `for i := 0; i < w; i++`, over the four bytes of each pixel of a row.
unfoldable pub paint : Bytes → ℕ → Framebuffer → Framebuffer
unfolding put_pixel
paint (b ∷ g ∷ r ∷ pad ∷ row) di fb = paint row (di + 4) (put_pixel di r g b fb)
paint row di fb = fb

-- `for j := 0; j < h; j++`
unfoldable pub decode_raw : ℕ → ℕ → ℕ → ℕ → Bytes → Framebuffer → Decoded (Framebuffer × Bytes)
unfolding read_full and_then paint
decode_raw x y w zero bs fb = decoded (fb, bs)
decode_raw x y w (suc h) bs fb =
    and_then (read_full (w * 4) bs)
      (λ (row, rest). decode_raw x (suc y) w h rest (paint row (fb_offset fb x y) fb))

-- Whether the slices of the rows are in bounds; if not, slicing panics.
unfoldable pub rows_fit : Framebuffer → ℕ → ℕ → ℕ → Bool
rows_fit fb right y zero = true
rows_fit fb right y (suc h) =
    leb (fb_offset fb right y) (fb_length fb) && rows_fit fb right (suc y) h

-- Copy one row from the snapshot `old`.
abbrev pub copy_row : Framebuffer → ℕ → ℕ → ℕ → Framebuffer → Framebuffer
copy_row old from to n fb = record fb {
  pix = λ i. if leb to i && ltb i (to + n) then old.pix (from + (i - to)) else fb.pix i;
}

unfoldable pub copy_rows : Framebuffer → ℕ → ℕ → ℕ → ℕ → ℕ → ℕ → Framebuffer → Framebuffer
copy_rows old sx sy x y w zero fb = fb
copy_rows old sx sy x y w (suc h) fb =
    copy_rows old sx (suc sy) x (suc y) w h
      (copy_row old (fb_offset fb sx sy) (fb_offset fb x y) (w * 4) fb)

unfoldable pub decode_copy_rect :
    ℕ → ℕ → ℕ → ℕ → Bytes → Framebuffer → Decoded (Framebuffer × Bytes)
unfolding rows_fit copy_rows
decode_copy_rect x y w h (s0 ∷ s1 ∷ s2 ∷ s3 ∷ rest) fb =
    let sx = get_u16 s0 s1 in
    let sy = get_u16 s2 s3 in
    if rows_fit fb (sx + w) sy h && rows_fit fb (x + w) y h
    then decoded (copy_rows fb sx sy x y w h fb, rest)
    else panicked
decode_copy_rect x y w h bs fb = failed

unfoldable pub read_rectangle : Bytes → Framebuffer → Decoded (Framebuffer × Bytes)
read_rectangle (x0 ∷ x1 ∷ y0 ∷ y1 ∷ w0 ∷ w1 ∷ h0 ∷ h1 ∷ e0 ∷ e1 ∷ e2 ∷ e3 ∷ rest) fb =
    let enc = get_u32 e0 e1 e2 e3 in
    if enc == encoding_raw
    then decode_raw (get_u16 x0 x1) (get_u16 y0 y1) (get_u16 w0 w1) (get_u16 h0 h1) rest fb
    else if enc == encoding_copy_rect
    then decode_copy_rect (get_u16 x0 x1) (get_u16 y0 y1) (get_u16 w0 w1) (get_u16 h0 h1) rest fb
    else failed
read_rectangle bs fb = failed

-- `for i := 0; i < int(nrects); i++`
unfoldable pub read_rectangles : ℕ → Bytes → Framebuffer → Decoded (Framebuffer × Bytes)
unfolding and_then
read_rectangles zero bs fb = decoded (fb, bs)
read_rectangles (suc n) bs fb =
    and_then (read_rectangle bs fb) (λ (fb', rest). read_rectangles n rest fb')

unfoldable pub read_framebuffer_update : Bytes → Framebuffer → Decoded (Framebuffer × Bytes)
read_framebuffer_update (pad ∷ n0 ∷ n1 ∷ rest) fb = read_rectangles (get_u16 n0 n1) rest fb
read_framebuffer_update bs fb = failed
