-- ===== src/Window/Tests.antt =====
-- Frames of the window, run on a small screen.
use remotedesk.Prelude.{
  ℕ, ◌≡◌, refl, true, false, List, [], ◌∷◌, none, some, Bytes, codes, pos, negsuc, replicate,
  length, ◌<◌, All, arith,
}
use remotedesk.Input.{Robot, up}
use remotedesk.Input.Keys.{letter, special}
use remotedesk.Rfb.{default_pixel_format}
use remotedesk.Rfb.Session.{Session, Env, loop}
use remotedesk.RfbClient.{Client}
use remotedesk.RfbClient.Dialogue.{messages, HasScreen, send_pointer, send_key}
use remotedesk.Window.{Devices, update, updates, Game, new_game, reports, swaps, writes, runs}
use remotedesk.Config.{World, stored}
use remotedesk.Config.Tests.Library.{lib}
use remotedesk.Tunnel.Viewer.{ViewerConfig}
use remotedesk.Window.Command.{Flags, main, configured}
use remotedesk.Window.Drives.{Driven, window_drives}
use remotedesk.Window.Strokes.{KeysExist}
use remotedesk.Window.Pull.{two_draws, window_shows}

abbrev client : Client
client = record { width = 2; height = 1 }

abbrev screen : HasScreen client
screen = record {
  width_pos = omega arith;
  width_fits = omega arith;
  height_pos = omega arith;
  height_fits = omega arith;
}

-- A scroll with the left button held, and Shift and a.
abbrev frame : Devices
frame = record {
  cursor_x = pos 7;
  cursor_y = negsuc 0;
  left_pressed = true;
  middle_pressed = false;
  right_pressed = false;
  wheel = some up;
  just_pressed = letter 0 ∷ special (codes "F13") ∷ [];
  just_released = special (codes "ShiftLeft") ∷ [];
}

frame_calls :
    update frame
    ≡ send_pointer (pos 7) (negsuc 0) 1
      ∷ send_pointer (pos 7) (negsuc 0) 9
      ∷ send_pointer (pos 7) (negsuc 0) 1
      ∷ send_key 97 true
      ∷ send_key 0xffe1 false
      ∷ []
unfolding update remotedesk.Window.key_calls remotedesk.Window.button_mask
    remotedesk.Input.Keys.keysym remotedesk.Prelude.lookup remotedesk.Prelude.bytes_eq
frame_calls = refl

abbrev fresh : Session
fresh = record { pf = default_pixel_format; min_frame = 50_000_000; prev = none; last_frame = none }

abbrev envs : List Env
envs = replicate 6 (record { now = 5; capture = none; breaks = none; done = 6 })

abbrev robot : Robot
robot = record { prev_buttons = 0 }

frame-KeysExist : All KeysExist (frame ∷ [])
frame-KeysExist = (((omega arith, (tt, tt)), (tt, tt)), tt)

frame_room : length (updates (frame ∷ [])) < length envs
unfolding updates update remotedesk.Window.key_calls remotedesk.Window.button_mask
    remotedesk.Input.Keys.keysym remotedesk.Prelude.lookup remotedesk.Prelude.bytes_eq
frame_room = omega arith

window_drives_example :
    Driven robot (frame ∷ []) (loop envs fresh (messages client (updates (frame ∷ []))))
window_drives_example =
    window_drives client envs fresh robot (frame ∷ []) screen frame-KeysExist frame_room

abbrev window : Game
window = new_game (1 ∷ 2 ∷ 3 ∷ []) (0 ∷ 0 ∷ 0 ∷ [])

window_shows_example :
    (runs two_draws (runs (reports ∷ writes ∷ swaps ∷ []) window)).frame ≡ window.image
window_shows_example = window_shows window (writes ∷ swaps ∷ []) tt

abbrev flags : Flags
flags = record {
  relay_addr = codes "relay:7700";
  relay_key = [];
  host_id = codes "000-000-007";
  pin = codes "000007";
  key_path = codes "k";
  forward = true;
  listen = codes ":5901";
  show_version = false;
}

abbrev world : World
world = record {
  base = none;
  made = false;
  disk = record { files = []; searchable = λ path. true };
  fresh = some (codes "me");
  write = stored;
}

main_run : (cfg : ViewerConfig) × (configured (main lib flags world) ≡ some cfg)
unfolding main remotedesk.Config.load_or_create_signer remotedesk.Config.path_or_default
    remotedesk.Config.read_file remotedesk.Config.write_file remotedesk.Config.parse_relay_key
    remotedesk.Prelude.trim_left remotedesk.Prelude.trim_right remotedesk.Prelude.lookup
    remotedesk.Prelude.insert remotedesk.Prelude.bytes_eq
main_run = (_, refl)
