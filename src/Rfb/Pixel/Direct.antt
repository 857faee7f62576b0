-- ===== src/Rfb/Pixel/Direct.antt =====
-- Pixels in 32 bits, little-endian, with eight bits for each colour: blue, green, red, zero.
use Prim.Native.Nat.{bit_or}
use mathlib.Core.Path.{ap₂}
use remotedesk.Prelude.{
  ℕ, zero, suc, ◌++◌, length, ◌+◌, ◌*◌, ◌^◌, ◌<◌, ◌≡◌, refl, ap, ◌∙◌, bit_or-disjoint, [], ◌∷◌,
  some, Bytes, IsByte, arith,
}
use remotedesk.Rfb.{Image, pix_offset, default_pixel_format}
use remotedesk.Rfb.Pixel.{
  encode_pixel, pixel_value, fill, shl32, channel, then_bytes, encode_row, encode_rows,
}

-- A colour of eight bits, at a shift of the default format.
abbrev channel_shifted : ℕ → ℕ → ℕ
channel_shifted c s = shl32 (channel c 255) s

value_direct :
    (r g b : ℕ)
    → r < 256
    → g < 256
    → b < 256
    → pixel_value default_pixel_format r g b ≡ r * 65536 + g * 256 + b
unfolding pixel_value
value_direct r g b hr hg hb =
    let red : channel_shifted r 16 ≡ r * 2 ^ 16 = omega arith in
    let green : channel_shifted g 8 ≡ g * 2 ^ 8 = omega arith in
    let blue : channel_shifted b 0 ≡ b = omega arith in
    let above : r * 2 ^ 16 + g * 2 ^ 8 ≡ (r * 256 + g) * 2 ^ 8 = omega arith in
    ap₂ bit_or (ap₂ bit_or red green ∙ bit_or-disjoint 16 r (g * 2 ^ 8) (omega arith) ∙ above) blue
    ∙ bit_or-disjoint 8 (r * 256 + g) b (omega arith)
    ∙ omega arith

pub encode_direct :
    (r g b : ℕ)
    → IsByte r
    → IsByte g
    → IsByte b
    → encode_pixel default_pixel_format r g b ≡ some (b ∷ g ∷ r ∷ 0 ∷ [])
unfolding encode_pixel fill
encode_direct r g b hr hg hb =
    let v = value_direct r g b hr hg hb in
    ap some (
      ap₂ ◌∷◌ (omega (arith, v)) (
        ap₂ ◌∷◌ (omega (arith, v))
          (ap₂ ◌∷◌ (omega (arith, v)) (ap (λ x. x ∷ []) (omega (arith, v))))))

-- What the rows of a rectangle are in this format.
abbrev pub row_bytes : Image → ℕ → ℕ → Bytes
row_bytes img row zero = []
row_bytes img row (suc n) =
    img.pix (row + 2) ∷ img.pix (row + 1) ∷ img.pix row ∷ 0 ∷ row_bytes img (row + 4) n

abbrev pub rows_bytes : Image → ℕ → ℕ → ℕ → ℕ → Bytes
rows_bytes img x y w zero = []
rows_bytes img x y w (suc h) = row_bytes img (pix_offset img x y) w ++ rows_bytes img x (suc y) w h

pub length-row_bytes : (img : Image) (row n : ℕ) → length (row_bytes img row n) ≡ n * 4
length-row_bytes img row zero = refl
length-row_bytes img row (suc n) = omega (arith, length-row_bytes img (row + 4) n)

-- The frame is made of bytes.
abbrev pub HasBytes : Image → Type 0
HasBytes img = (i : ℕ) → IsByte (img.pix i)

encode_row-direct :
    (img : Image) (row n : ℕ)
    → HasBytes img
    → encode_row default_pixel_format img row n ≡ some (row_bytes img row n)
unfolding encode_row then_bytes
encode_row-direct img row zero h = refl
encode_row-direct img row (suc n) h =
    ap₂ then_bytes
      (encode_direct (img.pix row) (img.pix (row + 1)) (img.pix (row + 2)) (h _) (h _) (h _))
      (encode_row-direct img (row + 4) n h)

pub encode_rows-direct :
    (img : Image) (x y w h : ℕ)
    → HasBytes img
    → encode_rows default_pixel_format img x y w h ≡ some (rows_bytes img x y w h)
unfolding encode_rows then_bytes
encode_rows-direct img x y w zero b = refl
encode_rows-direct img x y w (suc h) b =
    ap₂ then_bytes (encode_row-direct img (pix_offset img x y) w b)
      (encode_rows-direct img x (suc y) w h b)
