-- ===== src/RfbClient/Decode/Copy.antt =====
-- CopyRect: a part of the framebuffer, copied to another place.
use native.Mathlib.Nat.{add-mul}
use remotedesk.Prelude.{
  ℕ, zero, suc, ◌+◌, ◌-◌, ◌*◌, ◌≤◌, ◌<◌, ◌≡◌, refl, ap, sym, subst, ◌∙◌, inl, inr, ◌++◌, Bytes,
  true, arith,
}
use remotedesk.BigEndian.{put_u16, put_u32, get-put_word}
use remotedesk.Rfb.{Image}
use remotedesk.RfbClient.Decode.{
  Framebuffer, decoded, fb_length, fb_offset, rows_fit, copy_row, copy_rows, decode_copy_rect,
  read_rectangle, encoding_copy_rect,
}
use remotedesk.RfbClient.Decode.Paint.{Painted}
use remotedesk.RfbClient.Decode.Rows.{offset, Outside, Drawn, Drawn-suc, row_fits}

rows_fit-true :
    (fb : Framebuffer) (right y h : ℕ)
    → right ≤ fb.width
    → y + h ≤ fb.height
    → rows_fit fb right y h ≡ true
unfolding rows_fit
rows_fit-true fb right y zero hx hy = refl
rows_fit-true fb right y (suc h) hx hy =
    let here : fb_offset fb right y ≤ fb_length fb =
      omega (arith, row_fits fb.width fb.height right y 0 (omega arith) (omega arith)) in
    ground (arith, rows_fit-true fb right (suc y) h hx (omega arith))

-- The framebuffer as a frame that lies `to - from` bytes behind.
abbrev shifted : Framebuffer → ℕ → ℕ → Image
shifted old from to = record {
  width = old.width;
  height = old.height;
  stride = old.width * 4;
  pix = λ i. old.pix (i + from - to);
}

copy_row-Painted :
    (old fb : Framebuffer) (first_from first_to from to n : ℕ)
    → from + first_to ≡ to + first_from
    → Painted (shifted old first_from first_to) to n to fb (copy_row old from to (n * 4) fb)
copy_row-Painted old fb first_from first_to from to n e = record {
  same_width = refl;
  same_height = refl;
  inside = λ k c hk hc.
      let same : from + (to + k * 4 + c - to) ≡ to + k * 4 + c + first_from - first_to =
        omega arith in
      ground (arith, ap old.pix same);
  outside = λ i o. elim o [ inl before ↦ ground arith | inr after ↦ ground arith ];
}

next_row_offset : (y m : ℕ) → suc y * m ≡ y * m + m
next_row_offset y m = omega arith

-- A row further on, both places move by the same number of bytes.
next_even :
    (sy y m sx x from to : ℕ)
    → sy * m + sx * 4 + to ≡ y * m + x * 4 + from
    → suc sy * m + sx * 4 + to ≡ suc y * m + x * 4 + from
next_even sy y m sx x from to e = omega (arith, next_row_offset sy m, next_row_offset y m)

copy_rows-Drawn :
    (old : Framebuffer) (from to sx sy x y w h : ℕ) (fb : Framebuffer)
    → fb.width ≡ old.width
    → x + w ≤ old.width
    → fb_offset old sx sy + to ≡ fb_offset old x y + from
    → Drawn (shifted old from to) old.width x y w h fb (copy_rows old sx sy x y w h fb)
unfolding copy_rows
copy_rows-Drawn old from to sx sy x y w zero fb ew hx e = record {
  same_width = refl;
  same_height = refl;
  inside = λ px py c x0 x1 y0 y1 hc. absurd (omega arith);
  outside = λ px py c hp hc o. refl;
}
copy_rows-Drawn old from to sx sy x y w (suc h) fb ew hx e =
    let mid = copy_row old (fb_offset fb sx sy) (fb_offset fb x y) (w * 4) fb in
    let done = copy_rows old sx (suc sy) x (suc y) w h mid in
    let even : fb_offset fb sx sy + to ≡ fb_offset fb x y + from =
      subst (λ q. sy * (q * 4) + sx * 4 + to ≡ y * (q * 4) + x * 4 + from) (sym ew) e in
    let painted = copy_row-Painted old fb from to (fb_offset fb sx sy) (fb_offset fb x y) w even in
    Drawn-suc (shifted old from to) old.width x w hx y h fb mid done
      (subst (λ q. Painted (shifted old from to) (offset q x y) w (offset q x y) fb mid) ew painted)
      (copy_rows-Drawn old from to sx (suc sy) x (suc y) w h mid ew hx
        (next_even sy y (old.width * 4) sx x from to e))

-- The target shows what the source showed before, and every other pixel is as it was.
pub record Copied (sx sy x y w h : ℕ) (fb done : Framebuffer) : Type 0 where
  pub same_width : done.width ≡ fb.width
  pub same_height : done.height ≡ fb.height
  pub inside :
      (i j c : ℕ)
      → i < w
      → j < h
      → c < 3
      → done.pix (fb_offset fb (x + i) (y + j) + c) ≡ fb.pix (fb_offset fb (sx + i) (sy + j) + c)
  pub outside :
      (px py c : ℕ)
      → px < fb.width
      → c < 3
      → Outside x y w h px py
      → done.pix (fb_offset fb px py + c) ≡ fb.pix (fb_offset fb px py + c)

same_place :
    (m sx sy x y i j c : ℕ)
    → (y + j) * m + (x + i) * 4 + c + (sy * m + sx * 4) - (y * m + x * 4)
      ≡ (sy + j) * m + (sx + i) * 4 + c
same_place m sx sy x y i j c = omega (arith, add-mul y j m, add-mul sy j m)

copy_rows-Copied :
    (fb : Framebuffer) (sx sy x y w h : ℕ)
    → x + w ≤ fb.width
    → Copied sx sy x y w h fb (copy_rows fb sx sy x y w h fb)
copy_rows-Copied fb sx sy x y w h hx =
    let d =
      copy_rows-Drawn fb (fb_offset fb sx sy) (fb_offset fb x y) sx sy x y w h fb refl hx
        (omega arith) in
    record {
      same_width = d.same_width;
      same_height = d.same_height;
      inside = λ i j c hi hj hc.
          d.inside (x + i) (y + j) c (omega arith) (omega arith) (omega arith) (omega arith) hc
          ∙ ap fb.pix (same_place (fb.width * 4) sx sy x y i j c);
      outside = d.outside;
    }

-- The source and the target lie in the framebuffer, whose dimensions fit 16 bits.
pub record IsIn (fb : Framebuffer) (sx sy x y w h : ℕ) : Type 0 where
  pub source_width : sx + w ≤ fb.width
  pub source_height : sy + h ≤ fb.height
  pub target_width : x + w ≤ fb.width
  pub target_height : y + h ≤ fb.height
  pub width_fits : fb.width < 65536
  pub height_fits : fb.height < 65536

-- The bytes of a rectangle of this encoding, as RFC 6143 has them.
abbrev pub copy_rect_bytes : ℕ → ℕ → ℕ → ℕ → ℕ → ℕ → Bytes
copy_rect_bytes sx sy x y w h =
    put_u16 x
    ++ (put_u16 y
        ++ (put_u16 w ++ (put_u16 h ++ (put_u32 encoding_copy_rect ++ (put_u16 sx ++ put_u16 sy)))))

decode_copies :
    (fb : Framebuffer) (sx sy x y w h : ℕ) (rest : Bytes)
    → IsIn fb sx sy x y w h
    → decode_copy_rect x y w h (put_u16 sx ++ (put_u16 sy ++ rest)) fb
      ≡ decoded (copy_rows fb sx sy x y w h fb, rest)
unfolding decode_copy_rect
decode_copies fb sx sy x y w h rest i =
    let sx' = get-put_word sx (omega arith) in
    let sy' = get-put_word sy (omega arith) in
    rw (sx', sy')
      (ground (
        arith,
        rows_fit-true fb (sx + w) sy h i.source_width i.source_height,
        rows_fit-true fb (x + w) y h i.target_width i.target_height,
      ))

-- A CopyRect whose source and target lie in the framebuffer neither fails nor panics, takes its own
-- bytes off the stream, and leaves the target with the pixels that the source had before, also where
-- the two overlap, and every other pixel as it was.
pub copy_rect-Copied :
    (fb : Framebuffer) (sx sy x y w h : ℕ) (rest : Bytes)
    → IsIn fb sx sy x y w h
    → (done : Framebuffer) × (read_rectangle (copy_rect_bytes sx sy x y w h ++ rest) fb
        ≡ decoded (done, rest))
      × Copied sx sy x y w h fb done
unfolding read_rectangle
copy_rect-Copied fb sx sy x y w h rest i =
    let x' = get-put_word x (omega arith) in
    let y' = get-put_word y (omega arith) in
    let w' = get-put_word w (omega arith) in
    let h' = get-put_word h (omega arith) in
    (
      copy_rows fb sx sy x y w h fb,
      (λ j. decode_copy_rect (x' j) (y' j) (w' j) (h' j) (put_u16 sx ++ (put_u16 sy ++ rest)) fb)
          ∙ decode_copies fb sx sy x y w h rest i,
      copy_rows-Copied fb sx sy x y w h i.target_width,
    )
