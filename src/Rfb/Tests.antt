-- ===== src/Rfb/Tests.antt =====
-- Runs of the server's side on small frames, and the instances of its theorems.
use remotedesk.Prelude.{ℕ, ◌≡◌, refl, [], ◌∷◌, ◌++◌, some, Any, ◌==◌, if◌then◌else◌, arith}
use remotedesk.Rfb.{Image, PixelFormat}
use remotedesk.Rfb.Format.{write, read}
use remotedesk.Rfb.Format.RoundTrip.{read-write}
use remotedesk.Rfb.Diff.{dirty_rects, all_rects, row_rects, tile_differs, same_bytes, flush, begin}
use remotedesk.Rfb.Diff.Coverage.{Contains, dirty_rects-Contains}

-- A frame of one row and 40 pixels, in which one byte stands out.
abbrev strip : ℕ → ℕ → Image
strip at v = record { width = 40; height = 1; stride = 160; pix = λ i. if i == at then v else 0 }

abbrev before : Image
before = strip 141 7

abbrev after : Image
after = strip 141 8

-- The second tile of the row, which is eight pixels wide.
test_dirty :
    dirty_rects before after ≡ (record { min_x = 32; min_y = 0; max_x = 40; max_y = 1 } ∷ [])
unfolding dirty_rects all_rects row_rects tile_differs same_bytes flush begin
test_dirty = refl

test_clean : dirty_rects before before ≡ []
unfolding dirty_rects all_rects row_rects tile_differs same_bytes flush begin
test_clean = refl

dirty_rects-Contains_example : Any (Contains 35 0) (dirty_rects before after)
dirty_rects-Contains_example =
    dirty_rects-Contains before after 35 0 (omega arith) (omega arith)
      (λ w h. (1, omega arith, λ e. absurd (omega arith)))

abbrev rgb565 : PixelFormat
rgb565 = record {
  bits_per_pixel = 16;
  depth = 16;
  big_endian = 1;
  true_color = 1;
  red_max = 31;
  green_max = 63;
  blue_max = 31;
  red_shift = 11;
  green_shift = 5;
  blue_shift = 0;
}

read-write_example : read (write rgb565 ++ (3 ∷ [])) ≡ some (rgb565, 3 ∷ [])
read-write_example =
    read-write rgb565 (3 ∷ [])
      (record { red_fits = omega arith; green_fits = omega arith; blue_fits = omega arith })
