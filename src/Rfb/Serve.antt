-- ===== src/Rfb/Serve.antt =====
-- `Serve` of internal/rfb/server.go: the defaults of its options, the handshake, and the loop. The
-- connection is closed when it returns.
use remotedesk.Prelude.{
  ℕ, zero, suc, ◌/◌, List, [], ◌∷◌, Option, none, some, Bytes, codes, bytes_eq, ℤ, pos, negsuc,
  if◌then◌else◌,
}
use remotedesk.Rfb.{default_pixel_format}
use remotedesk.Rfb.Auth.{Cipher}
use remotedesk.Rfb.Handshake.{Host, handshake}
use remotedesk.Rfb.Session.{Session, Env, Effect, End, sends, failed, loop, prepend}

pub record Options : Type 0 where
  pub password : Bytes
  pub name : Bytes
  pub max_fps : ℤ

abbrev pub name_or_default : Bytes → Bytes
name_or_default name = if bytes_eq name [] then codes "remotedesk" else name

-- `if opts.MaxFPS <= 0 { opts.MaxFPS = 20 }`
abbrev pub fps_or_default : ℤ → ℕ
fps_or_default (pos zero) = 20
fps_or_default (pos (suc n)) = suc n
fps_or_default (negsuc n) = 20

-- The session, with the `minFrame` that `loop` sets at its start.
abbrev pub new_session : Options → Session
new_session opts = record {
  pf = default_pixel_format;
  min_frame = 1_000_000_000 / fps_or_default opts.max_fps;
  prev = none;
  last_frame = none;
}

-- The screen's dimensions and the challenge that `rand.Read` would draw.
abbrev pub host_of : Options → ℕ → ℕ → Option Bytes → Host
host_of opts width height challenge = record {
  password = opts.password;
  name = name_or_default opts.name;
  width = width;
  height = height;
  challenge = challenge;
}

abbrev pub after_handshake :
    List Env → Session → Bytes × Option (Unit {0} × Bytes) → List Effect × End
after_handshake envs s (out, none) = (sends out ∷ [], failed)
after_handshake envs s (out, some (u, rest)) = prepend (sends out ∷ []) (loop envs s rest)

unfoldable pub serve :
    Cipher → Options → ℕ → ℕ → Option Bytes → List Env → Bytes → List Effect × End
serve new_cipher opts width height challenge envs bs =
    after_handshake envs (new_session opts)
      (handshake new_cipher (host_of opts width height challenge) bs)
