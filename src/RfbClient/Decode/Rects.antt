-- ===== src/RfbClient/Decode/Rects.antt =====
-- The rectangles of an update, read from the bytes that the server sends for them.
use remotedesk.Prelude.{
  ℕ, ◌+◌, ◌<◌, ◌≡◌, refl, ap, ◌∙◌, ◌⊎◌, inl, inr, List, [], ◌∷◌, ◌++◌, Bytes, leb, ltb, length,
  arith, append_assoc, Bool-cases, some, All, Any,
}
use mathlib.Core.Path.{ap₂}
use remotedesk.BigEndian.{put_u16, put_u32, get-put_word}
use remotedesk.Rfb.{Image, Rectangle, dx, dy, pix_offset, default_pixel_format, encoding_raw}
use remotedesk.Rfb.Pixel.{then_bytes, encode_rect_into}
use remotedesk.Rfb.Pixel.Direct.{rows_bytes, HasBytes, encode_rows-direct}
use remotedesk.Rfb.Diff.Coverage.{Contains}
use remotedesk.Rfb.Diff.Bounds.{IsInside}
use remotedesk.Rfb.Session.{put_rect, put_rects}
use remotedesk.RfbClient.Decode.{
  Framebuffer, Decoded, decoded, decode_raw, and_then, read_rectangle, read_rectangles,
}
use remotedesk.RfbClient.Decode.Rows.{offset, Outside, Drawn, decode_raw-Drawn}

abbrev rect_head : Rectangle → Bytes
rect_head r =
    put_u16 r.min_x
    ++ (put_u16 r.min_y ++ (put_u16 (dx r) ++ (put_u16 (dy r) ++ put_u32 encoding_raw)))

-- The bytes of one rectangle, in the format that the client asks for.
abbrev pub rect_bytes : Image → Rectangle → Bytes
rect_bytes img r = rect_head r ++ rows_bytes img r.min_x r.min_y (dx r) (dy r)

abbrev pub rects_bytes : Image → List Rectangle → Bytes
rects_bytes img [] = []
rects_bytes img (r ∷ rects) = rect_bytes img r ++ rects_bytes img rects

put_rect-direct :
    (img : Image) (r : Rectangle)
    → HasBytes img
    → put_rect default_pixel_format img r ≡ some (rect_bytes img r)
unfolding put_rect encode_rect_into then_bytes
put_rect-direct img r b =
    ap (then_bytes (some (rect_head r))) (encode_rows-direct img r.min_x r.min_y (dx r) (dy r) b)

pub put_rects-direct :
    (img : Image) (rects : List Rectangle)
    → HasBytes img
    → put_rects default_pixel_format img rects ≡ some (rects_bytes img rects)
unfolding put_rects then_bytes
put_rects-direct img [] b = refl
put_rects-direct img (r ∷ rects) b =
    ap₂ then_bytes (put_rect-direct img r b) (put_rects-direct img rects b)

-- A frame whose dimensions fit their 16 bits.
pub record HasSize (img : Image) : Type 0 where
  pub width_pos : 0 < img.width
  pub height_pos : 0 < img.height
  pub width_fits : img.width < 65536
  pub height_fits : img.height < 65536

read_rectangle-raw :
    (img : Image) (r : Rectangle) (rest : Bytes) (fb : Framebuffer)
    → HasSize img
    → IsInside img r
    → read_rectangle (rect_bytes img r ++ rest) fb
      ≡ decode_raw r.min_x r.min_y
          (dx r)
          (dy r)
          (rows_bytes img r.min_x r.min_y (dx r) (dy r) ++ rest)
          fb
unfolding read_rectangle
read_rectangle-raw img r rest fb s i =
    let x = get-put_word r.min_x (omega arith) in
    let y = get-put_word r.min_y (omega arith) in
    let w = get-put_word (dx r) (omega arith) in
    let h = get-put_word (dy r) (omega arith) in
    λ j.
      decode_raw (x j) (y j) (w j) (h j) (rows_bytes img r.min_x r.min_y (dx r) (dy r) ++ rest) fb

-- Each pixel shows the frame, or it lies in no rectangle and is as before.
abbrev pub Showing : Image → ℕ → List Rectangle → Framebuffer → Framebuffer → Type 0
Showing img width rects fb done =
    (px py c : ℕ)
    → px < width
    → c < 3
    → (done.pix (offset width px py + c) ≡ img.pix (pix_offset img px py + c))
      ⊎ ((Any (Contains px py) rects → ⊥)
          × (done.pix (offset width px py + c) ≡ fb.pix (offset width px py + c)))

Contains-cases :
    (px py : ℕ) (r : Rectangle)
    → Contains px py r ⊎ ((Contains px py r → ⊥) × Outside r.min_x r.min_y (dx r) (dy r) px py)
Contains-cases px py r = elim (Bool-cases (leb r.min_x px)) [
  | inr e ↦ inr (λ (a, b, c, d). absurd (ground arith), inl (ground arith))
  | inl e ↦ elim (Bool-cases (ltb px r.max_x)) [
    | inr k ↦ inr (λ (a, b, c, d). absurd (ground arith), inr (inl (ground arith)))
    | inl k ↦ elim (Bool-cases (leb r.min_y py)) [
      | inr l ↦ inr (λ (a, b, c, d). absurd (ground arith), inr (inr (inl (ground arith))))
      | inl l ↦ elim (Bool-cases (ltb py r.max_y)) [
        | inr m ↦ inr (λ (a, b, c, d). absurd (ground arith), inr (inr (inr (ground arith))))
        | inl m ↦ inl (ground arith, ground arith, ground arith, ground arith)
      ]
    ]
  ]
]

module _ (img : Image) (width : ℕ) (r : Rectangle) (rects : List Rectangle)
    (fb mid done : Framebuffer) (d : Drawn img width r.min_x r.min_y (dx r) (dy r) fb mid)
    (later : Showing img width rects mid done) where
  showing_case :
      (px py c : ℕ)
      → px < width
      → c < 3
      → (done.pix (offset width px py + c) ≡ img.pix (pix_offset img px py + c))
        ⊎ ((Any (Contains px py) rects → ⊥)
            × (done.pix (offset width px py + c) ≡ mid.pix (offset width px py + c)))
      → Contains px py r ⊎ ((Contains px py r → ⊥) × Outside r.min_x r.min_y (dx r) (dy r) px py)
      → (done.pix (offset width px py + c) ≡ img.pix (pix_offset img px py + c))
        ⊎ ((Any (Contains px py) (r ∷ rects) → ⊥)
            × (done.pix (offset width px py + c) ≡ fb.pix (offset width px py + c)))
  showing_case px py c hp hc (inl e) k = inl e
  showing_case px py c hp hc (inr (absent, e)) (inl (x0, x1, y0, y1)) =
      inl (e ∙ d.inside px py c x0 (omega arith) y0 (omega arith) hc)
  showing_case px py c hp hc (inr (absent, e)) (inr (not_here, o)) =
      inr (λ any. elim any [ inl h ↦ not_here h | inr h ↦ absent h ], e ∙ d.outside px py c hp hc o)

  Showing-cons : Showing img width (r ∷ rects) fb done
  Showing-cons px py c hp hc =
      showing_case px py c hp hc (later px py c hp hc) (Contains-cases px py r)

-- The client reads back just the rectangles that were sent, whatever follows them.
pub read_rectangles-Showing :
    (img : Image) (rects : List Rectangle) (rest : Bytes) (fb : Framebuffer)
    → HasSize img
    → fb.width ≡ img.width
    → fb.height ≡ img.height
    → All (IsInside img) rects
    → (done : Framebuffer) × (read_rectangles (length rects) (rects_bytes img rects ++ rest) fb
        ≡ decoded (done, rest))
      × (done.width ≡ img.width)
      × (done.height ≡ img.height)
      × Showing img img.width rects fb done
unfolding read_rectangles and_then
read_rectangles-Showing img [] rest fb s ew eh i =
    (fb, refl, ew, eh, λ px py c hp hc. inr (λ any. any, refl))
read_rectangles-Showing img (r ∷ rects) rest fb s ew eh (i, is) =
    let after = rects_bytes img rects ++ rest in
    let (mid, e, d) =
      decode_raw-Drawn img img.width img.height r.min_x r.min_y (dx r) (dy r) after fb ew eh
        (omega arith) (omega arith) in
    let (done, e', ew', eh', later) =
      read_rectangles-Showing img rects rest mid s (d.same_width ∙ ew) (d.same_height ∙ eh) is in
    let next : Framebuffer × Bytes → Decoded (Framebuffer × Bytes) =
      λ (fb', bs). read_rectangles (length rects) bs fb' in
    let first =
      ap (λ bs. read_rectangle bs fb) (append_assoc (rect_bytes img r) (rects_bytes img rects) rest)
      ∙ read_rectangle-raw img r after fb s i
      ∙ e in
    (
      done,
      ap (λ q. and_then q next) first ∙ e',
      ew',
      eh',
      Showing-cons img img.width r rects fb mid done d later,
    )
