-- ===== src/Rfb/Diff/Coverage.antt =====
-- No change is missed: a pixel that differs lies in a dirty rectangle.
use remotedesk.Prelude.{
  ℕ, zero, suc, ◌+◌, ◌-◌, ◌*◌, ◌≤◌, ◌<◌, ◌≡◌, refl, ◌⊎◌, inl, inr, min, Bool, true, false,
  Bool-cases, ◌&&◌, [], ◌∷◌, ◌++◌, Option, none, some, ltb, ◌==◌, if◌then◌else◌, Any,
  Any-append_left, Any-append_right, arith,
}
use remotedesk.Rfb.{Image, Rectangle}
use remotedesk.Rfb.Diff.{
  tile_size, tile_differs, flush, begin, row_rects, rounds, all_rects, whole, dirty_rects,
}
use remotedesk.Rfb.Diff.Tiles.{Differs, pixel_same}

-- The rectangle contains the pixel.
abbrev pub Contains : ℕ → ℕ → Rectangle → Type 0
Contains x y r = (r.min_x ≤ x) × (x < r.max_x) × (r.min_y ≤ y) × (y < r.max_y)

-- The run that is open before column `tx` contains the pixel's column.
abbrev Held : Option ℕ → ℕ → ℕ → Type 0
Held none x tx = ⊥
Held (some run_start) x tx = (run_start ≤ x) × (x < tx)

-- An open run began at `tx` or before.
abbrev Begun : Option ℕ → ℕ → Type 0
Begun none tx = Unit
Begun (some run_start) tx = run_start ≤ tx

Held-lt : (run_start : Option ℕ) (x tx : ℕ) → Held run_start x tx → x < tx
Held-lt none x tx h = absurd h
Held-lt (some run_start) x tx h = h.1

flush-Contains :
    (ty th x y end_x tx : ℕ) (run_start : Option ℕ)
    → ty ≤ y
    → y < ty + th
    → x < end_x
    → Held run_start x tx
    → Any (Contains x y) (flush ty th run_start end_x)
unfolding flush
flush-Contains ty th x y end_x tx none y0 y1 x1 h = absurd h
flush-Contains ty th x y end_x tx (some run_start) y0 y1 x1 h = inl (h.0, x1, y0, y1)

begin-Begun :
    (run_start : Option ℕ) (tx : ℕ)
    → Begun run_start tx
    → Begun (begin run_start tx) (tx + tile_size)
unfolding begin
begin-Begun none tx h = omega arith
begin-Begun (some run_start) tx h = omega arith

begin-Held :
    (run_start : Option ℕ) (x tx : ℕ)
    → Begun run_start tx
    → Held run_start x tx ⊎ ((tx ≤ x) × (x < tx + tile_size))
    → Held (begin run_start tx) x (tx + tile_size)
unfolding begin
begin-Held none x tx b (inl h) = absurd h
begin-Held none x tx b (inr h) = h
begin-Held (some run_start) x tx b (inl h) = (h.0, omega arith)
begin-Held (some run_start) x tx b (inr h) = (omega arith, h.1)

lt_cases : (a b : ℕ) → (a < b) ⊎ (b ≤ a)
lt_cases a b = elim (Bool-cases (ltb a b)) [
  | inl e ↦ inl (ground arith)
  | inr e ↦ inr (ground arith)
]

module _ (prev cur : Image) (x y ty th : ℕ) (y0 : ty ≤ y) (y1 : y < ty + th) (x1 : x < cur.width)
    (d : Differs prev cur x y) where
  -- What a row still owes to the pixel.
  abbrev Due : ℕ → Option ℕ → Type 0
  Due tx run_start = Held run_start x tx ⊎ (tx ≤ x)

  last_flush :
      (tx : ℕ) (run_start : Option ℕ)
      → cur.width ≤ tx
      → Due tx run_start
      → Any (Contains x y) (flush ty th run_start cur.width)
  last_flush tx run_start e (inl h) = flush-Contains ty th x y cur.width tx run_start y0 y1 x1 h
  last_flush tx run_start e (inr h) = absurd (omega arith)

  abbrev tile : ℕ → Bool
  tile tx = tile_differs prev cur tx ty (min tile_size (cur.width - tx)) th

  in_tile : (tx : ℕ) → tile tx ≡ false → tx ≤ x → x < tx + tile_size → ⊥
  in_tile tx e h k =
      pixel_same prev cur tx ty (min tile_size (cur.width - tx)) th x y e h (omega arith) y0 y1 d

  Due-next :
      (tx : ℕ) (run_start : Option ℕ)
      → Begun run_start tx
      → Due tx run_start
      → Due (tx + tile_size) (begin run_start tx)
  Due-next tx run_start b (inl h) = inl (begin-Held run_start x tx b (inl h))
  Due-next tx run_start b (inr h) = elim (lt_cases x (tx + tile_size)) [
    | inl k ↦ inl (begin-Held run_start x tx b (inr (h, k)))
    | inr k ↦ inr k
  ]

  -- The rounds that are left pay what is due.
  abbrev Pays : ℕ → Type 0
  Pays n =
      (tx : ℕ) (run_start : Option ℕ)
      → cur.width ≤ tx + n * tile_size
      → Begun run_start tx
      → Due tx run_start
      → Any (Contains x y) (row_rects n prev cur ty th tx run_start)

  row_step :
      (n tx : ℕ) (run_start : Option ℕ) (inside differs : Bool)
      → ltb tx cur.width ≡ inside
      → tile tx ≡ differs
      → cur.width ≤ tx + suc n * tile_size
      → Begun run_start tx
      → Pays n
      → Due tx run_start
      → Any (Contains x y) (
          if inside
          then (if differs then [] else flush ty th run_start tx)
            ++ row_rects n prev cur ty th
                (tx + tile_size)
                (if differs then begin run_start tx else none)
          else flush ty th run_start cur.width)
  row_step n tx run_start false differs i e w b again h = last_flush tx run_start (ground arith) h
  row_step n tx run_start true true i e w b again h =
      again (tx + tile_size) (begin run_start tx) (omega arith) (begin-Begun run_start tx b)
        (Due-next tx run_start b h)
  row_step n tx run_start true false i e w b again (inl h) =
      Any-append_left (Contains x y) (flush ty th run_start tx) _
        (flush-Contains ty th x y tx tx run_start y0 y1 (Held-lt run_start x tx h) h)
  row_step n tx run_start true false i e w b again (inr h) =
      Any-append_right (Contains x y) (flush ty th run_start tx) _ (
        again (tx + tile_size) none (omega arith) tt (
          inr
            (elim (lt_cases x (tx + tile_size)) [ inl k ↦ absurd (in_tile tx e h k) | inr k ↦ k ])))

  row_rects-Contains : (n : ℕ) → Pays n
  unfolding row_rects
  row_rects-Contains zero tx run_start w b h = last_flush tx run_start (omega arith) h
  row_rects-Contains (suc n) tx run_start w b h =
      row_step n tx run_start (ltb tx cur.width) (tile tx) refl refl w b (row_rects-Contains n) h

-- Every pixel of the rows from `ty` on.
rows_step :
    (n : ℕ) (prev cur : Image) (ty x y : ℕ)
    → x < cur.width
    → ty ≤ y
    → y < cur.height
    → Differs prev cur x y
    → (y < ty + tile_size) ⊎ (ty + tile_size ≤ y)
    → (ty + tile_size ≤ y → Any (Contains x y) (all_rects n prev cur (ty + tile_size)))
    → Any (Contains x y) (
        row_rects (rounds cur.width) prev cur ty (min tile_size (cur.height - ty)) 0 none
        ++ all_rects n prev cur (ty + tile_size))
rows_step n prev cur ty x y x1 y0 y1 d (inl h) again =
    Any-append_left (Contains x y)
      (row_rects (rounds cur.width) prev cur ty (min tile_size (cur.height - ty)) 0 none) _
      (row_rects-Contains prev cur x y ty (min tile_size (cur.height - ty)) y0 (omega arith) x1 d
        (rounds cur.width) 0 none (omega arith) tt (inr (omega arith)))
rows_step n prev cur ty x y x1 y0 y1 d (inr h) again =
    Any-append_right (Contains x y)
      (row_rects (rounds cur.width) prev cur ty (min tile_size (cur.height - ty)) 0 none) _
      (again h)

all_rects-Contains :
    (n : ℕ) (prev cur : Image) (ty x y : ℕ)
    → cur.height ≤ ty + n * tile_size
    → x < cur.width
    → ty ≤ y
    → y < cur.height
    → Differs prev cur x y
    → Any (Contains x y) (all_rects n prev cur ty)
unfolding all_rects
all_rects-Contains zero prev cur ty x y e x1 y0 y1 d = absurd (omega arith)
all_rects-Contains (suc n) prev cur ty x y e x1 y0 y1 d =
    let inside : ltb ty cur.height ≡ true = ground arith in
    rw inside (
      rows_step n prev cur ty x y x1 y0 y1 d (lt_cases y (ty + tile_size))
        (λ h. all_rects-Contains n prev cur (ty + tile_size) x y (omega arith) x1 h y1 d))

choose :
    (prev cur : Image) (x y : ℕ) (same : Bool)
    → x < cur.width
    → y < cur.height
    → (same ≡ true → Differs prev cur x y)
    → Any (Contains x y) (if same then all_rects (rounds cur.height) prev cur 0 else whole cur ∷ [])
choose prev cur x y true x1 y1 d =
    all_rects-Contains (rounds cur.height) prev cur 0 x y (omega arith) x1 (omega arith) y1 (d refl)
choose prev cur x y false x1 y1 d = inl (omega arith, x1, omega arith, y1)

-- Every pixel in which two frames of one size differ lies in one of the rectangles, and so does
-- every pixel of a frame whose size is new. (The rounds of the two loops are enough for that.)
pub dirty_rects-Contains :
    (prev cur : Image) (x y : ℕ)
    → x < cur.width
    → y < cur.height
    → (prev.width ≡ cur.width → prev.height ≡ cur.height → Differs prev cur x y)
    → Any (Contains x y) (dirty_rects prev cur)
unfolding dirty_rects
dirty_rects-Contains prev cur x y x1 y1 d =
    choose prev cur x y (prev.width == cur.width && prev.height == cur.height) x1 y1
      (λ e. d (ground arith) (ground arith))
