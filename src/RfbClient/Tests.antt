-- ===== src/RfbClient/Tests.antt =====
-- Runs of the client's side, and the instances of its theorems.
use remotedesk.Prelude.{
  ℕ, ◌+◌, ◌%◌, ◌≡◌, refl, true, false, List, [], ◌∷◌, ◌++◌, map, none, some, pos, negsuc, replicate,
  length, suc, arith,
}
use remotedesk.Rfb.{Image, default_pixel_format}
use remotedesk.Rfb.Session.{Session, Env, loop}
use remotedesk.RfbClient.{Client, pointer_msg}
use remotedesk.RfbClient.Dialogue.{
  Call, set_pixel_format, set_encodings, request_update, send_pointer, send_key, messages,
  HasScreen,
}
use remotedesk.RfbClient.Decode.{Framebuffer, decoded, read_rectangle}
use remotedesk.RfbClient.Decode.Copy.{copy_rect_bytes, Copied, copy_rect-Copied}
use remotedesk.RfbClient.Unfailing.{EndsWell, viewer-EndsWell}
use remotedesk.RfbClient.Run.{run, clean}
use remotedesk.RfbClient.Run.Mirror.{
  Exchange, env_of, call_of, stream, IsGood, Mirrored, screen-Mirrored,
}

abbrev client : Client
client = record { width = 2; height = 1 }

abbrev screen : HasScreen client
screen = record {
  width_pos = omega arith;
  width_fits = omega arith;
  height_pos = omega arith;
  height_fits = omega arith;
}

abbrev fresh : Session
fresh = record { pf = default_pixel_format; min_frame = 50_000_000; prev = none; last_frame = none }

-- A position outside the screen goes to its border.
test_pointer : pointer_msg client (negsuc 4) (pos 9) 1 ≡ (5 ∷ 1 ∷ 0 ∷ 0 ∷ 0 ∷ 0 ∷ [])
unfolding pointer_msg
test_pointer = refl

-- Without a screen the position wraps around.
test_pointer_empty :
    pointer_msg (record { width = 0; height = 0 }) (pos 3) (pos 3) 1
    ≡ (5 ∷ 1 ∷ 255 ∷ 255 ∷ 255 ∷ 255 ∷ [])
unfolding pointer_msg
test_pointer_empty = refl

abbrev frame : ℕ → Image
frame v = record { width = 2; height = 1; stride = 8; pix = λ i. (i + v) % 256 }

abbrev exchanges : List Exchange
exchanges =
    record { incremental = false; now = 0; image = frame 10; done = 1 }
    ∷ record { incremental = true; now = 2; image = frame 77; done = 3 }
    ∷ []

-- An environment for each of the calls, and one for the end of the stream.
abbrev envs : List Env
envs = replicate 6 (record { now = 5; capture = some (frame 10); breaks = none; done = 6 })

abbrev calls : List Call
calls =
    set_pixel_format
    ∷ set_encodings (pos 1 ∷ pos 0 ∷ [])
    ∷ send_key 65 true
    ∷ send_pointer (pos 7) (negsuc 0) 1
    ∷ request_update true
    ∷ []

frame-IsGood : (v : ℕ) → IsGood client (frame v)
frame-IsGood v = record {
  has_size = record {
    width_pos = omega arith;
    height_pos = omega arith;
    width_fits = omega arith;
    height_fits = omega arith;
  };
  has_bytes = λ i. omega arith;
  has_room = omega arith;
  same_width = refl;
  same_height = refl;
}

abbrev black : Framebuffer
black = record { width = 2; height = 1; pix = λ i. 0 }

screen-Mirrored_example :
    (frames : List Framebuffer) × (run
        (suc (length exchanges))
        (stream (loop (map env_of exchanges) fresh (messages client (map call_of exchanges))).0)
        black
      ≡ (frames, clean))
    × Mirrored exchanges frames
screen-Mirrored_example =
    screen-Mirrored client exchanges fresh black screen refl
      (frame-IsGood 10, (frame-IsGood 77, tt)) (λ p h. cc) refl refl

viewer-EndsWell_example : EndsWell envs (loop envs fresh (messages client calls)).1
viewer-EndsWell_example =
    viewer-EndsWell client envs fresh calls screen
      (tt, (omega arith, (omega arith, (tt, (tt, tt))))) (omega arith)

-- Four pixels in a row, of which the second and the third go one to the right.
abbrev row : Framebuffer
row = record { width = 4; height = 1; pix = λ i. i }

copy_rect-Copied_example :
    (done : Framebuffer) × (read_rectangle (copy_rect_bytes 1 0 2 0 2 1 ++ (9 ∷ [])) row
      ≡ decoded (done, 9 ∷ []))
    × Copied 1 0 2 0 2 1 row done
copy_rect-Copied_example = copy_rect-Copied row 1 0 2 0 2 1 (9 ∷ []) (record {
  source_width = omega arith;
  source_height = omega arith;
  target_width = omega arith;
  target_height = omega arith;
  width_fits = omega arith;
  height_fits = omega arith;
})
