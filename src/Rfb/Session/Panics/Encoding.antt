-- ===== src/Rfb/Session/Panics/Encoding.antt =====
-- When the encoding of an update panics: where a pixel takes more than four bytes.
use remotedesk.Prelude.{
  ◌<◌, ◌+◌, ◌-◌, ◌↔◌, ℕ, zero, suc, ◌≤◌, ◌≡◌, refl, ◌⊎◌, inl, inr, List, [], ◌∷◌, Option, none,
  some, Bytes, arith,
}
use remotedesk.Rfb.{PixelFormat, Image, Rectangle, dx, dy}
use remotedesk.Rfb.Pixel.{encode_pixel, then_bytes, encode_row, encode_rows, encode_rect_into}
use remotedesk.Rfb.Diff.{whole}
use remotedesk.Rfb.Session.{put_rect, put_rects, put_update}

abbrev pub IsWide : PixelFormat → Type 0
IsWide pf = 40 ≤ pf.bits_per_pixel

then_bytes-none : (a b : Option Bytes) → then_bytes a b ≡ none → (a ≡ none) ⊎ (b ≡ none)
unfolding then_bytes
then_bytes-none none b h = inl refl
then_bytes-none (some xs) none h = inr refl
then_bytes-none (some xs) (some ys) h = cc

encode_pixel-none : (pf : PixelFormat) (r g b : ℕ) → encode_pixel pf r g b ≡ none → IsWide pf
unfolding encode_pixel
encode_pixel-none pf r g b h = ground (arith, h)

encode_row-none :
    (pf : PixelFormat) (img : Image) (row n : ℕ) → encode_row pf img row n ≡ none → IsWide pf
unfolding encode_row
encode_row-none pf img row zero h = cc
encode_row-none pf img row (suc n) h = elim (then_bytes-none _ _ h) [
  | inl pixel ↦ encode_pixel-none pf (img.pix row) _ _ pixel
  | inr later ↦ encode_row-none pf img (row + 4) n later
]

encode_rows-none :
    (pf : PixelFormat) (img : Image) (x y w n : ℕ) → encode_rows pf img x y w n ≡ none → IsWide pf
unfolding encode_rows
encode_rows-none pf img x y w zero h = cc
encode_rows-none pf img x y w (suc n) h = elim (then_bytes-none _ _ h) [
  | inl row ↦ encode_row-none pf img _ w row
  | inr later ↦ encode_rows-none pf img x (suc y) w n later
]

put_rect-none :
    (pf : PixelFormat) (img : Image) (r : Rectangle) → put_rect pf img r ≡ none → IsWide pf
unfolding put_rect encode_rect_into
put_rect-none pf img r h = elim (then_bytes-none _ _ h) [
  | inl head ↦ cc
  | inr rows ↦ encode_rows-none pf img r.min_x r.min_y (dx r) (dy r) rows
]

put_rects-none :
    (pf : PixelFormat) (img : Image) (rects : List Rectangle)
    → put_rects pf img rects ≡ none
    → IsWide pf
unfolding put_rects
put_rects-none pf img [] h = cc
put_rects-none pf img (r ∷ rects) h = elim (then_bytes-none _ _ h) [
  | inl rect ↦ put_rect-none pf img r rect
  | inr later ↦ put_rects-none pf img rects later
]

pub put_update-none :
    (pf : PixelFormat) (img : Image) (rects : List Rectangle)
    → put_update pf img rects ≡ none
    → IsWide pf
unfolding put_update
put_update-none pf img rects h = elim (then_bytes-none _ _ h) [
  | inl head ↦ cc
  | inr rows ↦ put_rects-none pf img rects rows
]

then_bytes-nothing : (a : Option Bytes) → then_bytes a none ≡ none
unfolding then_bytes
then_bytes-nothing none = refl
then_bytes-nothing (some bs) = refl

encode_pixel-wide : (pf : PixelFormat) (r g b : ℕ) → IsWide pf → encode_pixel pf r g b ≡ none
unfolding encode_pixel
encode_pixel-wide pf r g b h = ground arith

encode_rect-wide :
    (pf : PixelFormat) (img : Image) (x y w h : ℕ)
    → IsWide pf
    → encode_rect_into pf img x y (suc w) (suc h) ≡ none
unfolding encode_rect_into encode_rows encode_row then_bytes
encode_rect-wide pf img x y w h wide = rw (encode_pixel-wide pf _ _ _ wide) refl

encode_frame-wide :
    (pf : PixelFormat) (img : Image) (w h : ℕ)
    → IsWide pf
    → 0 < w
    → 0 < h
    → encode_rect_into pf img 0 0 w h ≡ none
encode_frame-wide pf img (suc w) (suc h) wide hw hh = encode_rect-wide pf img 0 0 w h wide
encode_frame-wide pf img zero h wide hw hh = absurd (omega arith)
encode_frame-wide pf img (suc w) zero wide hw hh = absurd (omega arith)

put_whole-wide :
    (pf : PixelFormat) (img : Image)
    → 0 < img.width
    → 0 < img.height
    → IsWide pf
    → put_update pf img (whole img ∷ []) ≡ none
unfolding put_update put_rects put_rect then_bytes
put_whole-wide pf img hw hh wide =
    rw (encode_frame-wide pf img (img.width - 0) (img.height - 0) wide (omega arith) (omega arith))
      refl

-- The update of a whole frame that is not empty panics exactly in a format of forty bits per pixel or
-- more.
pub put_whole-panics :
    (pf : PixelFormat) (img : Image)
    → 0 < img.width
    → 0 < img.height
    → (put_update pf img (whole img ∷ []) ≡ none) ↔ IsWide pf
put_whole-panics pf img hw hh =
    (put_update-none pf img (whole img ∷ []), put_whole-wide pf img hw hh)
