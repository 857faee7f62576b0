-- ===== src/Rfb/Handshake.antt =====
-- internal/rfb/server.go: the handshake. It is run on all that the client sends, and gives all that
-- the server writes.
use remotedesk.Prelude.{
  ℕ, Bool, true, false, [], ◌∷◌, ◌++◌, Option, none, some, Bytes, codes, length, bytes_eq,
}
use remotedesk.BigEndian.{put_u16, put_u32}
use remotedesk.Stream.{Io, fail, bind, get, put}
use remotedesk.Rfb.{default_pixel_format}
use remotedesk.Rfb.Format
use remotedesk.Rfb.Auth.{Cipher, check_vnc_auth}
pub mod Guard

abbrev pub version : Bytes
version = codes "RFB 003.008" ++ (10 ∷ [])

abbrev pub sec_type_none : ℕ
sec_type_none = 1

abbrev pub sec_type_vnc_auth : ℕ
sec_type_vnc_auth = 2

-- The options, the bounds of the screen, and the challenge that `rand.Read` draws, unless it fails.
pub record Host : Type 0 where
  pub password : Bytes
  pub name : Bytes
  pub width : ℕ
  pub height : ℕ
  pub challenge : Option Bytes

abbrev pub auth_reason : Bytes
auth_reason = codes "authentication failed"

-- `sendSecurityResult`
abbrev pub security_result : Bool → Bytes
security_result true = put_u32 0
security_result false = put_u32 1 ++ (put_u32 (length auth_reason) ++ auth_reason)

unfoldable pub security_none : Io (Unit {0})
security_none =
    bind (put (1 ∷ sec_type_none ∷ [])) (λ u. bind (get 1) (λ sel. put (security_result true)))

unfoldable pub answer_challenge : Bool → Io (Unit {0})
answer_challenge true = put (security_result true)
answer_challenge false = bind (put (security_result false)) (λ u. fail)

unfoldable pub challenge_client : Cipher → Bytes → Option Bytes → Io (Unit {0})
challenge_client new_cipher password none = fail
challenge_client new_cipher password (some challenge) = bind (put challenge) (λ u.
    bind (get 16)
      (λ response. answer_challenge (check_vnc_auth new_cipher challenge response password)))

unfoldable pub on_selected : Cipher → Host → Bool → Io (Unit {0})
on_selected new_cipher h false = fail
on_selected new_cipher h true = challenge_client new_cipher h.password h.challenge

unfoldable pub security_vnc_auth : Cipher → Host → Io (Unit {0})
security_vnc_auth new_cipher h =
    bind (put (1 ∷ sec_type_vnc_auth ∷ []))
      (λ u. bind (get 1) (λ sel. on_selected new_cipher h (bytes_eq sel (sec_type_vnc_auth ∷ []))))

unfoldable pub security : Cipher → Host → Bool → Io (Unit {0})
security new_cipher h true = security_none
security new_cipher h false = security_vnc_auth new_cipher h

-- ServerInit.
unfoldable pub server_init : Host → Bytes
server_init h =
    put_u16 h.width
    ++ (put_u16 h.height
        ++ (Format.write default_pixel_format ++ (put_u32 (length h.name) ++ h.name)))

unfoldable pub handshake : Cipher → Host → Io (Unit {0})
handshake new_cipher h = bind (put version) (λ u. bind (get 12) (λ ver.
    bind (security new_cipher h (bytes_eq h.password []))
      (λ v. bind (get 1) (λ shared. put (server_init h)))))
