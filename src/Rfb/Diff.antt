-- ===== src/Rfb/Diff.antt =====
-- internal/rfb/diff.go: the rectangles in which two frames differ.
use remotedesk.Prelude.{
  ℕ, zero, suc, ◌+◌, ◌-◌, ◌*◌, ◌/◌, min, Bool, true, false, ◌||◌, not, ◌&&◌, List, [], ◌∷◌, ◌++◌,
  Option, none, some, ltb, ◌==◌, if◌then◌else◌,
}
use remotedesk.Rfb.{Image, Rectangle, pix_offset}
pub mod Tiles
pub mod Coverage
pub mod Bounds
pub mod Count

abbrev pub tile_size : ℕ
tile_size = 32

-- `bytes.Equal(prev.Pix[po:po+n], cur.Pix[co:co+n])`
unfoldable pub same_bytes : Image → Image → ℕ → ℕ → ℕ → Bool
same_bytes prev cur po co zero = true
same_bytes prev cur po co (suc n) =
    prev.pix po == cur.pix co && same_bytes prev cur (suc po) (suc co) n

-- The scanlines `y` and on of a tile.
unfoldable pub tile_differs : Image → Image → ℕ → ℕ → ℕ → ℕ → Bool
tile_differs prev cur x y w zero = false
tile_differs prev cur x y w (suc h) =
    not (same_bytes prev cur (pix_offset prev x y) (pix_offset cur x y) (w * 4))
    || tile_differs prev cur x (suc y) w h

-- `flush(endX)`: the rectangle of a run that has begun.
unfoldable pub flush : ℕ → ℕ → Option ℕ → ℕ → List Rectangle
flush ty th none end_x = []
flush ty th (some run_start) end_x =
    record { min_x = run_start; min_y = ty; max_x = end_x; max_y = ty + th } ∷ []

-- `if runStart < 0 { runStart = tx }`
unfoldable pub begin : Option ℕ → ℕ → Option ℕ
begin none tx = some tx
begin (some run_start) tx = some run_start

-- `for tx := 0; tx < w; tx += tileSize`, then `flush(w)`. The first argument is the number of
-- rounds left.
unfoldable pub row_rects : ℕ → Image → Image → ℕ → ℕ → ℕ → Option ℕ → List Rectangle
unfolding flush begin
row_rects zero prev cur ty th tx run_start = flush ty th run_start cur.width
row_rects (suc n) prev cur ty th tx run_start =
    let differs = tile_differs prev cur tx ty (min tile_size (cur.width - tx)) th in
    let closed = if differs then [] else flush ty th run_start tx in
    let next = if differs then begin run_start tx else none in
    let more = row_rects n prev cur ty th (tx + tile_size) next in
    if ltb tx cur.width then closed ++ more else flush ty th run_start cur.width

-- The rounds of `for t := 0; t < n; t += tileSize`.
abbrev pub rounds : ℕ → ℕ
rounds n = (n + (tile_size - 1)) / tile_size

-- `for ty := 0; ty < h; ty += tileSize`
unfoldable pub all_rects : ℕ → Image → Image → ℕ → List Rectangle
all_rects zero prev cur ty = []
all_rects (suc n) prev cur ty =
    let th = min tile_size (cur.height - ty) in
    let rects = row_rects (rounds cur.width) prev cur ty th 0 none in
    let more = all_rects n prev cur (ty + tile_size) in
    if ltb ty cur.height then rects ++ more else []

-- `image.Rect(0, 0, w, h)`
abbrev pub whole : Image → Rectangle
whole img = record { min_x = 0; min_y = 0; max_x = img.width; max_y = img.height }

unfoldable pub dirty_rects : Image → Image → List Rectangle
dirty_rects prev cur =
    if prev.width == cur.width && prev.height == cur.height
    then all_rects (rounds cur.height) prev cur 0
    else whole cur ∷ []
