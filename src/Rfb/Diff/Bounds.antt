-- ===== src/Rfb/Diff/Bounds.antt =====
-- The dirty rectangles lie in the frame.
use remotedesk.Prelude.{
  ℕ, zero, suc, ◌+◌, ◌-◌, ◌≤◌, ◌<◌, ◌≡◌, refl, min, Bool, true, false, ◌&&◌, [], ◌∷◌, ◌++◌, Option,
  none, some, ◌⊎◌, inl, inr, ltb, ◌==◌, if◌then◌else◌, All, All-append, arith,
}
use remotedesk.Rfb.{Image, Rectangle}
use remotedesk.Rfb.Diff.{
  tile_size, tile_differs, flush, begin, row_rects, rounds, all_rects, whole, dirty_rects,
}

-- The rectangle is not empty, and no part of it is outside the frame.
pub record IsInside (img : Image) (r : Rectangle) : Type 0 where
  pub has_width : r.min_x < r.max_x
  pub has_height : r.min_y < r.max_y
  pub in_width : r.max_x ≤ img.width
  pub in_height : r.max_y ≤ img.height

-- An open run has begun before column `tx`, and in the frame.
abbrev Opened : ℕ → Option ℕ → ℕ → Type 0
Opened w none tx = Unit
Opened w (some run_start) tx = (run_start < tx) × (run_start < w)

flush-IsInside :
    (cur : Image) (ty th end_x tx : ℕ) (run_start : Option ℕ)
    → 0 < th
    → ty + th ≤ cur.height
    → end_x ≤ cur.width
    → (end_x ≡ tx) ⊎ (end_x ≡ cur.width)
    → Opened cur.width run_start tx
    → All (IsInside cur) (flush ty th run_start end_x)
unfolding flush
flush-IsInside cur ty th end_x tx none t0 t1 x1 at h = tt
flush-IsInside cur ty th end_x tx (some run_start) t0 t1 x1 at h = (
  record {
    has_width = elim at [ inl e ↦ omega arith | inr e ↦ omega arith ];
    has_height = omega arith;
    in_width = x1;
    in_height = t1;
  },
  tt,
)

begin-Opened :
    (w tx : ℕ) (run_start : Option ℕ)
    → tx < w
    → Opened w run_start tx
    → Opened w (begin run_start tx) (tx + tile_size)
unfolding begin
begin-Opened w tx none k h = (omega arith, k)
begin-Opened w tx (some run_start) k h = (omega arith, h.1)

module _ (prev cur : Image) (ty th : ℕ) (t0 : 0 < th) (t1 : ty + th ≤ cur.height) where
  abbrev Stays : ℕ → Type 0
  Stays n =
      (tx : ℕ) (run_start : Option ℕ)
      → Opened cur.width run_start tx
      → All (IsInside cur) (row_rects n prev cur ty th tx run_start)

  last_flush :
      (tx : ℕ) (run_start : Option ℕ)
      → Opened cur.width run_start tx
      → All (IsInside cur) (flush ty th run_start cur.width)
  last_flush tx run_start h =
      flush-IsInside cur ty th cur.width tx run_start t0 t1 (omega arith) (inr refl) h

  row_step :
      (n tx : ℕ) (run_start : Option ℕ) (inside differs : Bool)
      → ltb tx cur.width ≡ inside
      → Opened cur.width run_start tx
      → Stays n
      → All (IsInside cur) (
          if inside
          then (if differs then [] else flush ty th run_start tx)
            ++ row_rects n prev cur ty th
                (tx + tile_size)
                (if differs then begin run_start tx else none)
          else flush ty th run_start cur.width)
  row_step n tx run_start false differs i h again = last_flush tx run_start h
  row_step n tx run_start true true i h again =
      again (tx + tile_size) (begin run_start tx)
        (begin-Opened cur.width tx run_start (ground arith) h)
  row_step n tx run_start true false i h again =
      All-append (IsInside cur) (flush ty th run_start tx) _
        (flush-IsInside cur ty th tx tx run_start t0 t1 (ground arith) (inl refl) h)
        (again (tx + tile_size) none tt)

  row_rects-IsInside : (n : ℕ) → Stays n
  unfolding row_rects
  row_rects-IsInside zero tx run_start h = last_flush tx run_start h
  row_rects-IsInside (suc n) tx run_start h =
      row_step n tx run_start (ltb tx cur.width)
        (tile_differs prev cur tx ty (min tile_size (cur.width - tx)) th) refl h
        (row_rects-IsInside n)

rows_step :
    (n : ℕ) (prev cur : Image) (ty : ℕ) (inside : Bool)
    → ltb ty cur.height ≡ inside
    → All (IsInside cur) (all_rects n prev cur (ty + tile_size))
    → All (IsInside cur) (
        if inside
        then row_rects (rounds cur.width) prev cur ty (min tile_size (cur.height - ty)) 0 none
          ++ all_rects n prev cur (ty + tile_size)
        else [])
rows_step n prev cur ty false i h = tt
rows_step n prev cur ty true i h =
    let below : ty < cur.height = ground arith in
    All-append (IsInside cur)
      (row_rects (rounds cur.width) prev cur ty (min tile_size (cur.height - ty)) 0 none) _
      (row_rects-IsInside prev cur ty (min tile_size (cur.height - ty)) (omega arith) (omega arith)
        (rounds cur.width) 0 none tt)
      h

all_rects-IsInside :
    (n : ℕ) (prev cur : Image) (ty : ℕ) → All (IsInside cur) (all_rects n prev cur ty)
unfolding all_rects
all_rects-IsInside zero prev cur ty = tt
all_rects-IsInside (suc n) prev cur ty =
    rows_step n prev cur ty (ltb ty cur.height) refl
      (all_rects-IsInside n prev cur (ty + tile_size))

choose :
    (prev cur : Image) (same : Bool)
    → 0 < cur.width
    → 0 < cur.height
    → All (IsInside cur) (if same then all_rects (rounds cur.height) prev cur 0 else whole cur ∷ [])
choose prev cur true w h = all_rects-IsInside (rounds cur.height) prev cur 0
choose prev cur false w h =
    (record { has_width = w; has_height = h; in_width = omega arith; in_height = omega arith }, tt)

-- No rectangle is empty, or sticks out of a frame that is not empty.
pub dirty_rects-IsInside :
    (prev cur : Image) → 0 < cur.width → 0 < cur.height → All (IsInside cur) (dirty_rects prev cur)
unfolding dirty_rects
dirty_rects-IsInside prev cur w h =
    choose prev cur (prev.width == cur.width && prev.height == cur.height) w h
