-- ===== src/Rfb/Diff/Tiles.antt =====
-- Tiles of two frames: what `tile_differs` compares.
use remotedesk.Prelude.{
  ℕ, zero, suc, ◌+◌, ◌-◌, ◌*◌, ◌≤◌, ◌<◌, ◌≡◌, ◌≢◌, ap, sym, ◌∙◌, true, false, ==_iff, arith,
}
use remotedesk.Rfb.{Image, pix_offset}
use remotedesk.Rfb.Diff.{same_bytes, tile_differs}

-- One of the four bytes of the pixel is not the same.
abbrev pub Differs : Image → Image → ℕ → ℕ → Type 0
Differs prev cur x y =
    (c : ℕ) × (c < 4) × (prev.pix (pix_offset prev x y + c) ≢ cur.pix (pix_offset cur x y + c))

same_bytes-eq :
    (prev cur : Image) (po co n i : ℕ)
    → same_bytes prev cur po co n ≡ true
    → i < n
    → prev.pix (po + i) ≡ cur.pix (co + i)
unfolding same_bytes
same_bytes-eq prev cur po co zero i h lt = absurd (omega arith)
same_bytes-eq prev cur po co (suc n) zero h lt = ground (arith, ==_iff (prev.pix po) (cur.pix co))
same_bytes-eq prev cur po co (suc n) (suc i) h lt =
    ground (arith, same_bytes-eq prev cur (suc po) (suc co) n i)

tile_same :
    (prev cur : Image) (x y w h j i : ℕ)
    → tile_differs prev cur x y w h ≡ false
    → j < h
    → i < w * 4
    → prev.pix (pix_offset prev x (y + j) + i) ≡ cur.pix (pix_offset cur x (y + j) + i)
unfolding tile_differs
tile_same prev cur x y w zero j i e lt k = absurd (omega arith)
tile_same prev cur x y w (suc h) zero i e lt k =
    ground (arith, same_bytes-eq prev cur (pix_offset prev x y) (pix_offset cur x y) (w * 4) i)
tile_same prev cur x y w (suc h) (suc j) i e lt k =
    ground (arith, tile_same prev cur x (suc y) w h j i)

place :
    (img : Image) (tx ty x y c : ℕ)
    → tx ≤ x
    → ty ≤ y
    → pix_offset img tx (ty + (y - ty)) + ((x - tx) * 4 + c) ≡ pix_offset img x y + c
place img tx ty x y c x0 y0 =
    let down : ty + (y - ty) ≡ y = omega arith in
    ap (λ q. q * img.stride + tx * 4 + ((x - tx) * 4 + c)) down ∙ omega arith

-- A pixel of an unchanged tile is the same.
pub pixel_same :
    (prev cur : Image) (tx ty tw th x y : ℕ)
    → tile_differs prev cur tx ty tw th ≡ false
    → tx ≤ x
    → x < tx + tw
    → ty ≤ y
    → y < ty + th
    → Differs prev cur x y
    → ⊥
pixel_same prev cur tx ty tw th x y e x0 x1 y0 y1 (c, c4, ne) = ne (
    ap prev.pix (sym (place prev tx ty x y c x0 y0))
    ∙ tile_same prev cur tx ty tw th (y - ty) ((x - tx) * 4 + c) e (omega arith) (omega arith)
    ∙ ap cur.pix (place cur tx ty x y c x0 y0))
