-- ===== src/RfbClient/Served.antt =====
-- A whole session: `Connect` and the calls of a client, against `Serve`.
use remotedesk.Prelude.{
  ℕ, ◌≡◌, ap, ◌∙◌, true, List, [], ◌∷◌, ◌++◌, append_assoc, Option, some, Bytes, bytes_eq, pos, All,
  arith,
}
use remotedesk.Rfb.Auth.{Cipher}
use remotedesk.Rfb.Session.{Env, sends, loop, prepend}
use remotedesk.Rfb.Serve.{Options, new_session, host_of, after_handshake, serve}
use remotedesk.RfbClient.{Client, set_pixel_format_msg, set_encodings_msg}
use remotedesk.RfbClient.Dialogue.{
  Call, set_pixel_format, set_encodings, messages, HasScreen, Fits, answers, messages_understood,
}
use remotedesk.RfbClient.Handshake.{connect}
use remotedesk.RfbClient.Handshake.Agreement.{
  FitsWire, requests, host_open, client_open, open-agrees,
}

-- The client's first calls are those of its handshake.
abbrev pub from_start : List Call → List Call
from_start calls = set_pixel_format ∷ set_encodings (pos 1 ∷ pos 0 ∷ []) ∷ calls

requests-messages :
    (c : Client) (calls : List Call) → requests ++ messages c calls ≡ messages c (from_start calls)
requests-messages c calls =
    append_assoc set_pixel_format_msg (set_encodings_msg (pos 1 ∷ pos 0 ∷ [])) (messages c calls)

serve-answers :
    (new_cipher : Cipher) (opts : Options) (width height : ℕ) (challenge : Option Bytes)
    (envs : List Env) (calls : List Call)
    → bytes_eq opts.password [] ≡ true
    → FitsWire (host_of opts width height challenge)
    → HasScreen (record { width = width; height = height })
    → All Fits calls
    → serve new_cipher opts width height challenge envs
        (client_open ++ messages (record { width = width; height = height }) calls)
      ≡ prepend (sends (host_open (host_of opts width height challenge)) ∷ []) (
          answers
            (record { width = width; height = height })
            envs
            (new_session opts)
            (from_start calls))
unfolding serve
serve-answers new_cipher opts width height challenge envs calls open_host fits screen h =
    let c : Client = record { width = width; height = height } in
    let host = host_of opts width height challenge in
    let s = new_session opts in
    ap (after_handshake envs s)
      (open-agrees new_cipher [] host (messages c calls) [] open_host fits).0
    ∙ ap (λ bs. prepend (sends (host_open host) ∷ []) (loop envs s bs)) (requests-messages c calls)
    ∙ ap (prepend (sends (host_open host) ∷ []))
        (messages_understood c envs s (from_start calls) screen (tt, (omega arith, h)))

-- A whole session without a password, as over the tunnel: what `Serve` writes in its handshake makes
-- the client ready, with the screen's dimensions; and on the bytes that the client writes, in its
-- handshake and for any calls after it, `Serve` does what the calls mean, from its first message to the
-- end of the stream. The screen has a positive size, dimensions and the name's length fit their words,
-- and the calls' arguments fit the source's types.
pub session_understood :
    (new_cipher : Cipher) (opts : Options) (width height : ℕ) (challenge : Option Bytes)
    (envs : List Env) (calls : List Call) (password rest : Bytes)
    → bytes_eq opts.password [] ≡ true
    → FitsWire (host_of opts width height challenge)
    → HasScreen (record { width = width; height = height })
    → All Fits calls
    → (connect new_cipher password (host_open (host_of opts width height challenge) ++ rest)
        ≡ (client_open, some (record { width = width; height = height }, rest)))
      × (serve new_cipher opts width height challenge envs
            (client_open ++ messages (record { width = width; height = height }) calls)
          ≡ prepend (sends (host_open (host_of opts width height challenge)) ∷ []) (
              answers
                (record { width = width; height = height })
                envs
                (new_session opts)
                (from_start calls)))
session_understood new_cipher opts width height challenge envs calls password rest open_host fits
      screen h =
    (
      (open-agrees new_cipher password (host_of opts width height challenge) [] rest open_host
          fits).1,
      serve-answers new_cipher opts width height challenge envs calls open_host fits screen h,
    )
