-- ===== src/RfbClient/Decode/Rows.antt =====
-- A rectangle of the frame, decoded from the bytes that the server encodes it to.
use native.Mathlib.Nat.{mul-le-mul_right}
use remotedesk.Prelude.{
  take-append, drop-append, ℕ, zero, suc, ◌+◌, ◌-◌, ◌*◌, ◌≤◌, ◌<◌, ◌≡◌, refl, ap, sym, subst, ◌∙◌,
  ◌⊎◌, inl, inr, ◌++◌, Bytes, ltb, length, arith, append_assoc, length-append, Bool-cases,
}
use remotedesk.Rfb.{Image, pix_offset}
use remotedesk.Rfb.Pixel.Direct.{row_bytes, rows_bytes, length-row_bytes}
use remotedesk.RfbClient.Decode.{
  Framebuffer, Decoded, decoded, fb_length, fb_offset, read_full, paint, decode_raw, and_then,
}
use remotedesk.RfbClient.Decode.Paint.{Painted, paint-Painted}

-- The offset of a pixel in a framebuffer of the width `w`.
abbrev pub offset : ℕ → ℕ → ℕ → ℕ
offset w x y = y * (w * 4) + x * 4

-- The pixel lies outside the rectangle.
abbrev pub Outside : ℕ → ℕ → ℕ → ℕ → ℕ → ℕ → Type 0
Outside x y w h px py = (px < x) ⊎ (x + w ≤ px) ⊎ (py < y) ⊎ (y + h ≤ py)

-- The rectangle shows the frame; all other pixels are as before.
pub record Drawn (img : Image) (width x y w h : ℕ) (fb done : Framebuffer) : Type 0 where
  pub same_width : done.width ≡ fb.width
  pub same_height : done.height ≡ fb.height
  pub inside :
      (px py c : ℕ)
      → x ≤ px
      → px < x + w
      → y ≤ py
      → py < y + h
      → c < 3
      → done.pix (offset width px py + c) ≡ img.pix (pix_offset img px py + c)
  pub outside :
      (px py c : ℕ)
      → px < width
      → c < 3
      → Outside x y w h px py
      → done.pix (offset width px py + c) ≡ fb.pix (offset width px py + c)

next_row : (a b k : ℕ) → a < b → a * k + k ≤ b * k
next_row a b k h = omega (arith, mul-le-mul_right k h)

pub row_fits :
    (width height x y w : ℕ)
    → x + w ≤ width
    → y < height
    → offset width x y + w * 4 ≤ height * (width * 4)
row_fits width height x y w h k = omega (arith, next_row y height (width * 4) k)

before_row :
    (width px py c x y : ℕ)
    → px < width
    → c < 3
    → py < y
    → offset width px py + c < offset width x y
before_row width px py c x y h k l = omega (arith, next_row py y (width * 4) l)

after_row :
    (width px py c x y w : ℕ)
    → x + w ≤ width
    → y < py
    → offset width x y + w * 4 ≤ offset width px py + c
after_row width px py c x y w h l = omega (arith, next_row y py (width * 4) l)

read_full-append :
    (n : ℕ) (row rest : Bytes) → length row ≡ n → read_full n (row ++ rest) ≡ decoded (row, rest)
unfolding read_full
read_full-append n row rest h =
    ground (arith, take-append row rest, drop-append row rest, length-append row rest)

trichotomy : (a b : ℕ) → (a < b) ⊎ (a ≡ b) ⊎ (b < a)
trichotomy a b = elim (Bool-cases (ltb a b)) [
  | inl e ↦ inl (ground arith)
  | inr e ↦ elim (Bool-cases (ltb b a)) [
    | inl k ↦ inr (inr (ground arith))
    | inr k ↦ inr (inl (ground arith))
  ]
]

-- Moving along a row, which is row `y`.
pub along :
    (m x y px py c : ℕ) → py ≡ y → x ≤ px → py * m + px * 4 + c ≡ y * m + x * 4 + (px - x) * 4 + c
along m x y px py c e h = ap (λ q. q * m + px * 4 + c) e ∙ omega arith

-- Where a byte of another pixel lies, seen from a row of the rectangle.
beside_row :
    (width x w px py y c : ℕ)
    → px < width
    → c < 3
    → x + w ≤ width
    → (px < x) ⊎ (x + w ≤ px) ⊎ (py < y) ⊎ (y < py)
    → (py < y) ⊎ (py ≡ y) ⊎ (y < py)
    → (offset width px py + c < offset width x y)
      ⊎ (offset width x y + w * 4 ≤ offset width px py + c)
beside_row width x w px py y c hp hc hx o (inl l) = inl (before_row width px py c x y hp hc l)
beside_row width x w px py y c hp hc hx o (inr (inr l)) = inr (after_row width px py c x y w hx l)
beside_row width x w px py y c hp hc hx (inl l) (inr (inl e)) =
    let same = ap (λ q. q * (width * 4)) e in inl (omega (arith, same))
beside_row width x w px py y c hp hc hx (inr (inl l)) (inr (inl e)) =
    let same = ap (λ q. q * (width * 4)) e in inr (omega (arith, same))
beside_row width x w px py y c hp hc hx (inr (inr (inl l))) (inr (inl e)) = absurd (omega arith)
beside_row width x w px py y c hp hc hx (inr (inr (inr l))) (inr (inl e)) = absurd (omega arith)

module _ (x y w h px py : ℕ) where
  Outside-rest : Outside x y w (suc h) px py → Outside x (suc y) w h px py
  Outside-rest (inl k) = inl k
  Outside-rest (inr (inl k)) = inr (inl k)
  Outside-rest (inr (inr (inl k))) = inr (inr (inl (omega arith)))
  Outside-rest (inr (inr (inr k))) = inr (inr (inr (omega arith)))

  Outside-row : Outside x y w (suc h) px py → (px < x) ⊎ (x + w ≤ px) ⊎ (py < y) ⊎ (y < py)
  Outside-row (inl k) = inl k
  Outside-row (inr (inl k)) = inr (inl k)
  Outside-row (inr (inr (inl k))) = inr (inr (inl k))
  Outside-row (inr (inr (inr k))) = inr (inr (inr (omega arith)))

module _ (img : Image) (width x w : ℕ) (hx : x + w ≤ width) (y h : ℕ) (fb mid done : Framebuffer)
    (p : Painted img (pix_offset img x y) w (offset width x y) fb mid)
    (d : Drawn img width x (suc y) w h mid done) where
  draw_inside :
      (px py c : ℕ)
      → x ≤ px
      → px < x + w
      → y ≤ py
      → py < y + suc h
      → c < 3
      → (py < y) ⊎ (py ≡ y) ⊎ (y < py)
      → done.pix (offset width px py + c) ≡ img.pix (pix_offset img px py + c)
  draw_inside px py c x0 x1 y0 y1 hc (inl k) = absurd (omega arith)
  draw_inside px py c x0 x1 y0 y1 hc (inr (inl e)) =
      d.outside px py c (omega arith) hc (inr (inr (inl (omega arith))))
      ∙ ap mid.pix (along (width * 4) x y px py c e x0)
      ∙ p.inside (px - x) c (omega arith) hc
      ∙ ap img.pix (sym (along img.stride x y px py c e x0))
  draw_inside px py c x0 x1 y0 y1 hc (inr (inr k)) = d.inside px py c x0 x1 k (omega arith) hc

  pub Drawn-suc : Drawn img width x y w (suc h) fb done
  Drawn-suc = record {
    same_width = d.same_width ∙ p.same_width;
    same_height = d.same_height ∙ p.same_height;
    inside = λ px py c x0 x1 y0 y1 hc. draw_inside px py c x0 x1 y0 y1 hc (trichotomy py y);
    outside = λ px py c hp hc o.
        d.outside px py c hp hc (Outside-rest x y w h px py o)
        ∙ p.outside (offset width px py + c) (
            beside_row width x w px py y c hp hc hx (Outside-row x y w h px py o)
              (trichotomy py y));
  }

-- The rectangle's bytes are read, and no more.
pub decode_raw-Drawn :
    (img : Image) (width height x y w h : ℕ) (rest : Bytes) (fb : Framebuffer)
    → fb.width ≡ width
    → fb.height ≡ height
    → x + w ≤ width
    → y + h ≤ height
    → (done : Framebuffer) × (decode_raw x y w h (rows_bytes img x y w h ++ rest) fb
        ≡ decoded (done, rest))
      × Drawn img width x y w h fb done
unfolding decode_raw and_then
decode_raw-Drawn img width height x y w zero rest fb ew eh hx hy = (
  fb,
  refl,
  record {
    same_width = refl;
    same_height = refl;
    inside = λ px py c x0 x1 y0 y1 hc. absurd (omega arith);
    outside = λ px py c hp hc o. refl;
  },
)
decode_raw-Drawn img width height x y w (suc h) rest fb ew eh hx hy =
    let row = row_bytes img (pix_offset img x y) w in
    let later = rows_bytes img x (suc y) w h in
    let mid = paint row (fb_offset fb x y) fb in
    let room : fb_offset fb x y + w * 4 ≤ fb_length fb =
      row_fits fb.width fb.height x y w (omega arith) (omega arith) in
    let p = paint-Painted img (pix_offset img x y) w (fb_offset fb x y) fb room in
    let (done, e, d) =
      decode_raw-Drawn img width height x (suc y) w h rest mid (p.same_width ∙ ew)
        (p.same_height ∙ eh) hx (omega arith) in
    let next : Bytes × Bytes → Decoded (Framebuffer × Bytes) =
      λ (line, after). decode_raw x (suc y) w h after (paint line (fb_offset fb x y) fb) in
    let first =
      ap (read_full (w * 4)) (append_assoc row later rest)
      ∙ read_full-append (w * 4) row (later ++ rest)
          (length-row_bytes img (pix_offset img x y) w) in
    (
      done,
      ap (λ q. and_then q next) first ∙ e,
      Drawn-suc img width x w hx y h fb mid done
          (subst (λ q. Painted img (pix_offset img x y) w (offset q x y) fb mid) ew p) d,
    )
