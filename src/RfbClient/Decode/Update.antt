-- ===== src/RfbClient/Decode/Update.antt =====
-- A framebuffer update from end to end: the server's bytes make the client's framebuffer show the
-- server's frame.
use remotedesk.Prelude.{
  ℕ, ◌+◌, ◌*◌, ◌/◌, ◌%◌, ◌<◌, ◌≡◌, refl, ap, sym, ◌∙◌, inl, inr, Bool, true, false, List, ◌∷◌, ◌++◌,
  Bytes, ◌==◌, ==_iff, length, arith, Option, none, some, All, Any,
}
use remotedesk.BigEndian.{put_u16, get_u16}
use remotedesk.Rfb.{Image, Rectangle, pix_offset, default_pixel_format}
use remotedesk.Rfb.Pixel.{then_bytes}
use remotedesk.Rfb.Pixel.Direct.{HasBytes}
use remotedesk.Rfb.Diff.{whole, rounds}
use remotedesk.Rfb.Diff.Count.{length-dirty_rects}
use remotedesk.Rfb.Diff.Coverage.{Contains, dirty_rects-Contains}
use remotedesk.Rfb.Diff.Bounds.{IsInside, dirty_rects-IsInside}
use remotedesk.Rfb.Session.{update_rects, put_update}
use remotedesk.RfbClient.Decode.{Framebuffer, decoded, read_rectangles, read_framebuffer_update}
use remotedesk.RfbClient.Decode.Rows.{offset}
use remotedesk.RfbClient.Decode.Rects.{
  HasSize, rects_bytes, put_rects-direct, read_rectangles-Showing,
}

-- The framebuffer shows the frame: red, green and blue of every pixel.
pub record Shows (img : Image) (fb : Framebuffer) : Type 0 where
  pub same_width : fb.width ≡ img.width
  pub same_height : fb.height ≡ img.height
  pub same_pixel :
      (x y c : ℕ)
      → x < img.width
      → y < img.height
      → c < 3
      → fb.pix (offset img.width x y + c) ≡ img.pix (pix_offset img x y + c)

whole-IsInside : (img : Image) → HasSize img → IsInside img (whole img)
whole-IsInside img s = record {
  has_width = s.width_pos;
  has_height = s.height_pos;
  in_width = omega arith;
  in_height = omega arith;
}

update_rects-IsInside :
    (incremental : Bool) (prev : Option Image) (img : Image)
    → HasSize img
    → All (IsInside img) (update_rects incremental prev img)
unfolding update_rects
update_rects-IsInside false prev img s = (whole-IsInside img s, tt)
update_rects-IsInside true none img s = (whole-IsInside img s, tt)
update_rects-IsInside true (some prev) img s =
    dirty_rects-IsInside prev img s.width_pos s.height_pos

-- A pixel that no rectangle covers has not changed since the last frame.
module _ (img : Image) (fb : Framebuffer) (x y c : ℕ) (hx : x < img.width) (hy : y < img.height)
    (hc : c < 3) where
  same_or_differs :
      (prev : Image) (same : Bool)
      → (prev.pix (pix_offset prev x y + c) == img.pix (pix_offset img x y + c)) ≡ same
      → Shows prev fb
      → fb.width ≡ img.width
      → fb.height ≡ img.height
      → (Any (Contains x y) (update_rects true (some prev) img) → ⊥)
      → fb.pix (offset img.width x y + c) ≡ img.pix (pix_offset img x y + c)
  unfolding update_rects
  same_or_differs prev true e p ew eh absent =
      ap fb.pix (ap (λ w. offset w x y + c) (sym ew ∙ p.same_width))
      ∙ p.same_pixel x y c (omega (arith, p.same_width)) (omega (arith, p.same_height)) hc
      ∙ (==_iff (prev.pix (pix_offset prev x y + c)) (img.pix (pix_offset img x y + c))).0 e
  same_or_differs prev false e p ew eh absent = absurd (
      absent (
        dirty_rects-Contains prev img x y hx hy (λ w h. (
          c,
          omega arith,
          λ q. ground (
            arith,
            ==_iff (prev.pix (pix_offset prev x y + c)) (img.pix (pix_offset img x y + c)),
          ),
        ))))

  unchanged :
      (incremental : Bool) (prev : Option Image)
      → ((p : Image) → prev ≡ some p → Shows p fb)
      → fb.width ≡ img.width
      → fb.height ≡ img.height
      → (Any (Contains x y) (update_rects incremental prev img) → ⊥)
      → fb.pix (offset img.width x y + c) ≡ img.pix (pix_offset img x y + c)
  unfolding update_rects
  unchanged false prev p ew eh absent = absurd (absent (inl (omega arith, hx, omega arith, hy)))
  unchanged true none p ew eh absent = absurd (absent (inl (omega arith, hx, omega arith, hy)))
  unchanged true (some prev) p ew eh absent = same_or_differs prev _ refl (p prev refl) ew eh absent

-- The rectangles of a frame can be counted in 16 bits.
abbrev pub HasRoom : Image → Type 0
HasRoom img = rounds img.height * rounds img.width < 65536

update_rects-fit :
    (incremental : Bool) (prev : Option Image) (img : Image)
    → HasRoom img
    → length (update_rects incremental prev img) < 65536
unfolding update_rects
update_rects-fit false prev img h = omega arith
update_rects-fit true none img h = omega arith
update_rects-fit true (some prev) img h = omega (arith, length-dirty_rects prev img)

-- The bytes of an update, after its message type.
abbrev pub update_bytes : Image → List Rectangle → Bytes
update_bytes img rects = 0 ∷ (put_u16 (length rects) ++ rects_bytes img rects)

pub put_update-direct :
    (img : Image) (rects : List Rectangle)
    → HasBytes img
    → put_update default_pixel_format img rects ≡ some (0 ∷ update_bytes img rects)
unfolding put_update then_bytes
put_update-direct img rects b =
    ap (then_bytes (some (0 ∷ 0 ∷ put_u16 (length rects)))) (put_rects-direct img rects b)

pub read_update-Shows :
    (incremental : Bool) (prev : Option Image) (img : Image) (fb : Framebuffer) (rest : Bytes)
    → HasSize img
    → ((p : Image) → prev ≡ some p → Shows p fb)
    → fb.width ≡ img.width
    → fb.height ≡ img.height
    → HasRoom img
    → (done : Framebuffer) × (read_framebuffer_update
          (update_bytes img (update_rects incremental prev img) ++ rest)
          fb
        ≡ decoded (done, rest))
      × Shows img done
unfolding read_framebuffer_update
read_update-Shows incremental prev img fb rest s p ew eh few =
    let rects = update_rects incremental prev img in
    let (done, e, ew', eh', showing) =
      read_rectangles-Showing img rects rest fb s ew eh
        (update_rects-IsInside incremental prev img s) in
    let count : get_u16 (length rects / 256 % 256) (length rects % 256) ≡ length rects =
      omega (arith, update_rects-fit incremental prev img few) in
    (
      done,
      ap (λ n. read_rectangles n (rects_bytes img rects ++ rest) fb) count ∙ e,
      record {
        same_width = ew';
        same_height = eh';
        same_pixel = λ x y c hx hy hc. elim (showing x y c hx hc) [
          | inl shown ↦ shown
          | inr (absent, kept) ↦
              kept ∙ unchanged img fb x y c hx hy hc incremental prev p ew eh absent
        ];
      },
    )
