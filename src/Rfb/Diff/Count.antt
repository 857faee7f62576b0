-- ===== src/Rfb/Diff/Count.antt =====
-- How many rectangles there are: the count goes into 16 bits of the update's header.
use remotedesk.Prelude.{
  ℕ, zero, suc, ◌+◌, ◌-◌, ◌*◌, ◌≤◌, ◌≡◌, refl, min, Bool, true, false, ◌&&◌, [], ◌∷◌, ◌++◌, Option,
  none, some, ltb, ◌==◌, if◌then◌else◌, length, length-append, max, arith,
}
use remotedesk.Rfb.{Image}
use remotedesk.Rfb.Diff.{
  tile_size, tile_differs, flush, begin, row_rects, rounds, all_rects, whole, dirty_rects,
}

-- One more rectangle, where a run is open.
abbrev opened : Option ℕ → ℕ
opened none = 0
opened (some run_start) = 1

length-flush :
    (ty th end_x : ℕ) (run_start : Option ℕ)
    → length (flush ty th run_start end_x) ≡ opened run_start
unfolding flush
length-flush ty th end_x none = refl
length-flush ty th end_x (some run_start) = refl

opened-begin : (run_start : Option ℕ) (tx : ℕ) → opened (begin run_start tx) ≡ 1
unfolding begin
opened-begin none tx = refl
opened-begin (some run_start) tx = refl

module _ (prev cur : Image) (ty th : ℕ) where
  row_step :
      (n tx : ℕ) (run_start : Option ℕ) (inside differs : Bool)
      → ((tx' : ℕ) (open_run : Option ℕ)
          → length (row_rects n prev cur ty th tx' open_run) ≤ n + opened open_run)
      → length (
          if inside
          then (if differs then [] else flush ty th run_start tx)
            ++ row_rects n prev cur ty th
                (tx + tile_size)
                (if differs then begin run_start tx else none)
          else flush ty th run_start cur.width)
        ≤ suc n + opened run_start
  row_step n tx run_start false differs again =
      omega (arith, length-flush ty th cur.width run_start)
  row_step n tx run_start true true again =
      omega (arith, again (tx + tile_size) (begin run_start tx), opened-begin run_start tx)
  row_step n tx run_start true false again = omega (
    arith,
    length-append (flush ty th run_start tx) (row_rects n prev cur ty th (tx + tile_size) none),
    length-flush ty th tx run_start,
    again (tx + tile_size) none,
  )

  length-row_rects :
      (n tx : ℕ) (run_start : Option ℕ)
      → length (row_rects n prev cur ty th tx run_start) ≤ n + opened run_start
  unfolding row_rects
  length-row_rects zero tx run_start = omega (arith, length-flush ty th cur.width run_start)
  length-row_rects (suc n) tx run_start =
      row_step n tx run_start (ltb tx cur.width)
        (tile_differs prev cur tx ty (min tile_size (cur.width - tx)) th) (length-row_rects n)

rows_step :
    (n : ℕ) (prev cur : Image) (ty : ℕ) (inside : Bool)
    → length (all_rects n prev cur (ty + tile_size)) ≤ n * rounds cur.width
    → length (
        if inside
        then row_rects (rounds cur.width) prev cur ty (min tile_size (cur.height - ty)) 0 none
          ++ all_rects n prev cur (ty + tile_size)
        else [])
      ≤ suc n * rounds cur.width
rows_step n prev cur ty false h = omega arith
rows_step n prev cur ty true h = omega (
  arith,
  length-append (row_rects (rounds cur.width) prev cur ty (min tile_size (cur.height - ty)) 0 none)
      (all_rects n prev cur (ty + tile_size)),
  length-row_rects prev cur ty (min tile_size (cur.height - ty)) (rounds cur.width) 0 none,
)

length-all_rects :
    (n : ℕ) (prev cur : Image) (ty : ℕ) → length (all_rects n prev cur ty) ≤ n * rounds cur.width
unfolding all_rects
length-all_rects zero prev cur ty = omega arith
length-all_rects (suc n) prev cur ty =
    rows_step n prev cur ty (ltb ty cur.height) (length-all_rects n prev cur (ty + tile_size))

choose :
    (prev cur : Image) (same : Bool)
    → length (if same then all_rects (rounds cur.height) prev cur 0 else whole cur ∷ [])
      ≤ max 1 (rounds cur.height * rounds cur.width)
choose prev cur true = omega (arith, length-all_rects (rounds cur.height) prev cur 0)
choose prev cur false = omega arith

-- There are no more rectangles than tiles (or one, for a frame without pixels).
pub length-dirty_rects :
    (prev cur : Image)
    → length (dirty_rects prev cur) ≤ max 1 (rounds cur.height * rounds cur.width)
unfolding dirty_rects
length-dirty_rects prev cur = choose prev cur (prev.width == cur.width && prev.height == cur.height)
