-- ===== src/Rfb/Format.antt =====
-- internal/rfb/pixel.go: the pixel format on the wire.
use remotedesk.Prelude.{
  ℕ, ◌+◌, ◌<◌, ◌/◌, ◌≡◌, refl, List, [], ◌∷◌, ◌++◌, Option, none, some, Bytes, IsByte, arith,
}
use remotedesk.BigEndian.{put_u16, get_u16}
use remotedesk.Rfb.{PixelFormat}
pub mod RoundTrip

unfoldable pub write : PixelFormat → Bytes
write pf =
    pf.bits_per_pixel
    ∷ (pf.depth
        ∷ (pf.big_endian
            ∷ (pf.true_color
                ∷ (put_u16 pf.red_max
                    ++ (put_u16 pf.green_max
                        ++ (put_u16 pf.blue_max
                            ++ (pf.red_shift
                                ∷ (pf.green_shift ∷ (pf.blue_shift ∷ (0 ∷ (0 ∷ (0 ∷ []))))))))))))

-- `io.ReadFull` of 16 bytes, and the rest of the stream; `none` where it ends before.
unfoldable pub read : Bytes → Option (PixelFormat × Bytes)
read (b0 ∷ b1 ∷ b2 ∷ b3 ∷ b4 ∷ b5 ∷ b6 ∷ b7 ∷ b8 ∷ b9 ∷ b10 ∷ b11 ∷ b12 ∷ b13 ∷ b14 ∷ b15 ∷ rest) =
    some (
      record {
        bits_per_pixel = b0;
        depth = b1;
        big_endian = b2;
        true_color = b3;
        red_max = get_u16 b4 b5;
        green_max = get_u16 b6 b7;
        blue_max = get_u16 b8 b9;
        red_shift = b10;
        green_shift = b11;
        blue_shift = b12;
      },
      rest,
    )
read bs = none

abbrev pub bytes_per_pixel : PixelFormat → ℕ
bytes_per_pixel pf = pf.bits_per_pixel / 8
