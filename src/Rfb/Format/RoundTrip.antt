-- ===== src/Rfb/Format/RoundTrip.antt =====
-- A pixel format is read as it was written.
use remotedesk.Prelude.{ℕ, ◌<◌, ◌/◌, ◌%◌, ◌≡◌, ◌++◌, Option, some, Bytes, arith}
use remotedesk.BigEndian.{get_u16}
use remotedesk.Rfb.{PixelFormat}
use remotedesk.Rfb.Format.{write, read}

-- The maxima are `uint16`.
pub record HasWidths (pf : PixelFormat) : Type 0 where
  pub red_fits : pf.red_max < 65536
  pub green_fits : pf.green_max < 65536
  pub blue_fits : pf.blue_max < 65536

get-put_word : (v : ℕ) → v < 65536 → get_u16 (v / 256 % 256) (v % 256) ≡ v
get-put_word v h = omega arith

some_format :
    (pf : PixelFormat) (rest : Bytes) {r g b : ℕ}
    → r ≡ pf.red_max
    → g ≡ pf.green_max
    → b ≡ pf.blue_max
    → ◌≡◌ {A = Option (PixelFormat × Bytes)}
        (some (record pf { red_max = r; green_max = g; blue_max = b }, rest))
        (some (pf, rest))
some_format pf rest er eg eb i =
    some (record pf { red_max = er i; green_max = eg i; blue_max = eb i }, rest)

-- Reading what write wrote gives the same pixel format, whose maxima fit 16 bits, and leaves what
-- comes after it.
pub read-write :
    (pf : PixelFormat) (rest : Bytes) → HasWidths pf → read (write pf ++ rest) ≡ some (pf, rest)
unfolding read write
read-write pf rest h =
    some_format pf rest (get-put_word pf.red_max h.red_fits)
      (get-put_word pf.green_max h.green_fits) (get-put_word pf.blue_max h.blue_fits)
