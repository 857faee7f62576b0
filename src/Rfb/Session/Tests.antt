-- ===== src/Rfb/Session/Tests.antt =====
-- A client that asks for forty bits per pixel, and a connection that breaks.
use remotedesk.Prelude.{◌++◌, ◌≡◌, refl, List, [], ◌∷◌, none, some, Bytes, ◌⊎◌, replicate}
use remotedesk.Rfb.{Image, default_pixel_format}
use remotedesk.Rfb.Session.{
  Session, Env, panicked, loop, continue, round, dispatch, on_format, read_set_pixel_format,
  prepend, on_fbur, read_fbur, send_framebuffer_update, put_update, put_rects, update_rects,
  put_rect, sent,
}
use remotedesk.Rfb.Format.{read}
use remotedesk.Rfb.Pixel.{then_bytes, encode_rect_into, encode_rows, encode_row, encode_pixel}
use remotedesk.Rfb.Session.Panics.{AsksWide, session_panics}
use remotedesk.Rfb.Session.Panics.Encoding.{IsWide}

abbrev fresh : Session
fresh = record { pf = default_pixel_format; min_frame = 50_000_000; prev = none; last_frame = none }

abbrev pixel : Image
pixel = record { width = 1; height = 1; stride = 4; pix = λ i. 7 }

abbrev env : Env
env = record { now = 5; capture = some pixel; breaks = none; done = 6 }

-- A SetPixelFormat of forty bits per pixel.
abbrev wide_format : Bytes
wide_format = 0 ∷ 0 ∷ 0 ∷ 0 ∷ 40 ∷ replicate 15 1

abbrev asks_update : Bytes
asks_update = 3 ∷ replicate 9 0

panic_run : (loop (env ∷ env ∷ []) fresh (wide_format ++ asks_update)).1 ≡ panicked
unfolding loop continue round dispatch on_format read_set_pixel_format read prepend on_fbur
    read_fbur send_framebuffer_update put_update then_bytes put_rects update_rects put_rect
    encode_rect_into encode_rows encode_row encode_pixel sent
panic_run = refl

session_panics_example : IsWide default_pixel_format ⊎ AsksWide fresh (wide_format ++ asks_update)
session_panics_example =
    session_panics (env ∷ env ∷ []) fresh (wide_format ++ asks_update) panic_run

-- The connection takes five bytes of the second update.
abbrev breaking : List Env
breaking = env ∷ record env { breaks = some 5 } ∷ env ∷ []

abbrev three_updates : Bytes
three_updates = asks_update ++ (asks_update ++ asks_update)
