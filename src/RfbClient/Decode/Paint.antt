-- ===== src/RfbClient/Decode/Paint.antt =====
-- One row of pixels, painted from the bytes that the server encodes it to.
use remotedesk.Prelude.{
  ℕ, zero, suc, ◌+◌, ◌*◌, ◌≤◌, ◌<◌, ◌≡◌, refl, ap, ◌∙◌, ◌⊎◌, inl, inr, false, leb, ◌==◌,
  if◌then◌else◌, arith,
}
use remotedesk.Rfb.{Image}
use remotedesk.Rfb.Pixel.Direct.{row_bytes}
use remotedesk.RfbClient.Decode.{Framebuffer, fb_length, put_pixel, paint}

-- The pixels from offset `di` on are those of the frame from `row` on; all other bytes are as before.
pub record Painted (img : Image) (row n di : ℕ) (fb done : Framebuffer) : Type 0 where
  pub same_width : done.width ≡ fb.width
  pub same_height : done.height ≡ fb.height
  pub inside : (k c : ℕ) → k < n → c < 3 → done.pix (di + k * 4 + c) ≡ img.pix (row + k * 4 + c)
  pub outside : (i : ℕ) → (i < di) ⊎ (di + n * 4 ≤ i) → done.pix i ≡ fb.pix i

-- The pixel, where it is in bounds.
abbrev pixel_put : ℕ → ℕ → ℕ → ℕ → Framebuffer → Framebuffer
pixel_put di r g b fb = record fb {
  pix = λ i.
      if i == di
      then r
      else if i == di + 1
      then g
      else if i == di + 2
      then b
      else if i == di + 3
      then 255
      else fb.pix i;
}

put_pixel-put :
    (di r g b : ℕ) (fb : Framebuffer)
    → di + 4 ≤ fb_length fb
    → put_pixel di r g b fb ≡ pixel_put di r g b fb
unfolding put_pixel
put_pixel-put di r g b fb h =
    let fits : leb (fb_length fb) (di + 3) ≡ false = ground arith in rw fits

pixel_put-outside :
    (di r g b i : ℕ) (fb : Framebuffer)
    → (i < di) ⊎ (di + 4 ≤ i)
    → (pixel_put di r g b fb).pix i ≡ fb.pix i
pixel_put-outside di r g b i fb h = ground arith

pixel_put-inside :
    (img : Image) (row di c : ℕ) (fb : Framebuffer)
    → c < 3
    → (pixel_put di (img.pix row) (img.pix (row + 1)) (img.pix (row + 2)) fb).pix (di + c)
      ≡ img.pix (row + c)
pixel_put-inside img row di zero fb h = ground arith
pixel_put-inside img row di (suc zero) fb h = ground arith
pixel_put-inside img row di (suc (suc zero)) fb h = ground arith
pixel_put-inside img row di (suc (suc (suc c))) fb h = absurd (omega arith)

Painted-first :
    (img : Image) (row n di : ℕ) (fb done : Framebuffer)
    → Painted img
        (row + 4)
        n
        (di + 4)
        (pixel_put di (img.pix row) (img.pix (row + 1)) (img.pix (row + 2)) fb)
        done
    → (k c : ℕ) → k < suc n
    → c < 3
    → done.pix (di + k * 4 + c) ≡ img.pix (row + k * 4 + c)
Painted-first img row n di fb done p zero c hk hc =
    let to : di + 0 * 4 + c ≡ di + c = omega arith in
    let from : row + c ≡ row + 0 * 4 + c = omega arith in
    ap done.pix to
    ∙ p.outside (di + c) (inl (omega arith))
    ∙ pixel_put-inside img row di c fb hc
    ∙ ap img.pix from
Painted-first img row n di fb done p (suc k) c hk hc =
    let to : di + suc k * 4 + c ≡ di + 4 + k * 4 + c = omega arith in
    let from : row + 4 + k * 4 + c ≡ row + suc k * 4 + c = omega arith in
    ap done.pix to ∙ p.inside k c (omega arith) hc ∙ ap img.pix from

Painted-suc :
    (img : Image) (row n di : ℕ) (fb done : Framebuffer)
    → Painted img
        (row + 4)
        n
        (di + 4)
        (pixel_put di (img.pix row) (img.pix (row + 1)) (img.pix (row + 2)) fb)
        done
    → Painted img row (suc n) di fb done
Painted-suc img row n di fb done p = record {
  same_width = p.same_width;
  same_height = p.same_height;
  inside = Painted-first img row n di fb done p;
  outside = λ i h.
      p.outside i (elim h [ inl k ↦ inl (omega arith) | inr k ↦ inr (omega arith) ])
      ∙ pixel_put-outside di (img.pix row) (img.pix (row + 1)) (img.pix (row + 2)) i fb
          (elim h [ inl k ↦ inl k | inr k ↦ inr (omega arith) ]);
}

pub paint-Painted :
    (img : Image) (row n di : ℕ) (fb : Framebuffer)
    → di + n * 4 ≤ fb_length fb
    → Painted img row n di fb (paint (row_bytes img row n) di fb)
unfolding paint
paint-Painted img row zero di fb h = record {
  same_width = refl;
  same_height = refl;
  inside = λ k c hk hc. absurd (omega arith);
  outside = λ i k. refl;
}
paint-Painted img row (suc n) di fb h =
    let mid = pixel_put di (img.pix row) (img.pix (row + 1)) (img.pix (row + 2)) fb in
    let put =
      put_pixel-put di (img.pix row) (img.pix (row + 1)) (img.pix (row + 2)) fb (omega arith) in
    Painted-suc img row n di fb _
      (rw put (paint-Painted img (row + 4) n (di + 4) mid (omega arith)))
