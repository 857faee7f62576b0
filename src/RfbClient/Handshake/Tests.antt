-- ===== src/RfbClient/Handshake/Tests.antt =====
-- Instances of the theorems on the handshakes, with a toy cipher for DES.
use remotedesk.Prelude.{
  List, ◌∷◌, pos, replicate, ◌≡◌, refl, ap, true, Option, [], ◌++◌, none, some, Bytes, bytes_eq,
  codes, length, ◌==◌, if◌then◌else◌, length-append, arith,
}
use remotedesk.Rfb.Session.{Env, sends, prepend}
use remotedesk.Rfb.Serve.{Options, new_session, serve}
use remotedesk.RfbClient.{Client}
use remotedesk.RfbClient.Dialogue.{messages, HasScreen, send_key, answers}
use remotedesk.RfbClient.Served.{from_start, session_understood}
use remotedesk.Rfb.Auth.{Cipher, client_response, vnc_auth_response, or_zeros, password_key}
use remotedesk.Rfb.Auth.Response.{TakesKeys}
use remotedesk.Rfb.Auth.Key.{length-password_key}
use remotedesk.Rfb.Handshake.{Host, handshake}
use remotedesk.RfbClient.Handshake.{connect}
use remotedesk.RfbClient.Handshake.Agreement.{
  FitsWire, FillsBlocks, requests, host_open, client_open, host_locked, client_locked,
  locked-agrees,
}
use remotedesk.Rfb.Handshake.Guard.{Answers, handshake-Answers}

-- It encrypts every block to the key.
abbrev toy : Cipher
toy key = if length key == 8 then some (λ block. key) else none

toy-TakesKeys : TakesKeys toy
toy-TakesKeys = record {
  takes = λ key h. let fits : (length key == 8) ≡ true = ground arith in (λ block. key, rw fits);
}

toy-FillsBlocks : FillsBlocks toy
unfolding client_response vnc_auth_response or_zeros
toy-FillsBlocks = record {
  fills = λ challenge password h.
      let fits : (length (password_key password) == 8) ≡ true =
        ground (arith, length-password_key password) in
      rw fits (
        omega (
          arith,
          length-append (password_key password) (password_key password),
          length-password_key password,
        ));
}

abbrev challenge : Bytes
challenge = codes "0123456789abcdef"

abbrev host : Bytes → Host
host password = record {
  password = password;
  name = codes "desk";
  width = 800;
  height = 600;
  challenge = some challenge;
}

fits : (password : Bytes) → FitsWire (host password)
fits password = record {
  width_fits = omega arith;
  height_fits = omega arith;
  name_fits = omega arith;
}

abbrev client : Client
client = record { width = 800; height = 600 }

abbrev options : Options
options = record { password = []; name = codes "desk"; max_fps = pos 0 }

abbrev envs : List Env
envs = replicate 4 (record { now = 5; capture = none; breaks = none; done = 6 })

screen : HasScreen client
screen = record {
  width_pos = omega arith;
  width_fits = omega arith;
  height_pos = omega arith;
  height_fits = omega arith;
}

session_understood_example :
    (connect toy (codes "any") (host_open (host []) ++ [])
      ≡ (client_open, some (record { width = 800; height = 600 }, [])))
    × (serve toy options 800 600
          (some challenge)
          envs
          (client_open ++ messages client (send_key 65 true ∷ []))
        ≡ prepend
            (sends (host_open (host [])) ∷ [])
            (answers client envs (new_session options) (from_start (send_key 65 true ∷ []))))
unfolding bytes_eq
session_understood_example =
    session_understood toy options 800 600 (some challenge) envs (send_key 65 true ∷ [])
      (codes "any") [] refl (fits []) screen (omega arith, tt)

locked-agrees_example :
    (handshake toy
        (host (codes "secret"))
        (client_locked (client_response toy challenge (codes "secret")) [])
      ≡ (host_locked (host (codes "secret")) challenge [], some (tt, requests ++ [])))
    × (connect toy (codes "secret") (host_locked (host (codes "secret")) challenge []) ≡ (
      client_locked (client_response toy challenge (codes "secret")) [],
      some (record { width = 800; height = 600 }, []),
    ))
unfolding bytes_eq
locked-agrees_example =
    locked-agrees toy (codes "secret") challenge (host (codes "secret")) [] [] toy-TakesKeys
      toy-FillsBlocks refl refl refl refl (fits (codes "secret"))

handshake-Answers_example :
    (ver stream shared : Bytes) × (client_locked (client_response toy challenge (codes "secret")) []
      ≡ ver ++ stream)
    × (length ver ≡ 12)
    × (length shared ≡ 1)
    × Answers toy (host (codes "secret")) stream (shared ++ (requests ++ []))
unfolding bytes_eq
handshake-Answers_example =
    handshake-Answers toy (host (codes "secret"))
      (client_locked (client_response toy challenge (codes "secret")) []) (requests ++ []) refl
      (ap (λ (r : Bytes × Option (Unit {0} × Bytes)). r.1) locked-agrees_example.0)
