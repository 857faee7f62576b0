-- ===== src/RfbClient/Handshake.antt =====
-- internal/rfbclient/client.go: the handshake. It is run on all that the server sends, and gives all
-- that the client writes.
use remotedesk.Prelude.{
  ℕ, zero, suc, Bool, true, false, List, [], ◌∷◌, ◌++◌, Option, none, some, Bytes, pos, length,
  bytes_eq, ◌==◌, ◌||◌, if◌then◌else◌,
}
use remotedesk.BigEndian.{get_u16, get_u32}
use remotedesk.Stream.{Io, pure, fail, bind, get, put, split}
use remotedesk.Rfb.Auth.{Cipher, client_response}
use remotedesk.Rfb.Handshake.{version, sec_type_none, sec_type_vnc_auth}
use remotedesk.RfbClient.{Client, set_pixel_format_msg, set_encodings_msg}
pub mod Agreement
pub mod Refusal
mod Tests

-- `has(t)`
unfoldable pub has : ℕ → Bytes → Bool
has t [] = false
has t (x ∷ types) = x == t || has t types

unfoldable pub do_security : Cipher → Bytes → Bool → Bool → Io (Unit {0})
do_security new_cipher password true vnc = put (sec_type_none ∷ [])
do_security new_cipher password false true =
    bind (put (sec_type_vnc_auth ∷ []))
      (λ u. bind (get 16) (λ challenge. put (client_response new_cipher challenge password)))
do_security new_cipher password false false = fail

-- The big-endian number of four bytes.
unfoldable pub word : Bytes → ℕ
word (a ∷ b ∷ c ∷ d ∷ rest) = get_u32 a b c d
word bs = 0

-- `readString` reads on after an error; its text is not used.
unfoldable pub read_text : Option (Bytes × Bytes) → Option (Bytes × Bytes)
read_text none = some ([], [])
read_text (some (text, rest)) = some (text, rest)

unfoldable pub read_string : Io Bytes
read_string bs = ([], read_text ((bind (get 4) (λ l. get (word l)) bs).1))

-- `SecurityResult`
unfoldable pub on_result : ℕ → Io (Unit {0})
on_result zero = pure tt
on_result (suc n) = fail

unfoldable pub dimensions : Bytes → Client
dimensions (w0 ∷ w1 ∷ h0 ∷ h1 ∷ rest) = record { width = get_u16 w0 w1; height = get_u16 h0 h1 }
dimensions bs = record { width = 0; height = 0 }

-- After ClientInit: ServerInit, and the requests of a format and of the encodings.
unfoldable pub read_init : Io Client
read_init = bind (get 4) (λ dims. bind (get 16) (λ pf. bind read_string (λ name.
    bind (put set_pixel_format_msg)
      (λ u. bind (put (set_encodings_msg (pos 1 ∷ pos 0 ∷ []))) (λ v. pure (dimensions dims))))))

-- The number of security types; a server that refuses sends none.
unfoldable pub read_types : ℕ → Io Bytes
read_types zero = fail
read_types (suc n) = get (suc n)

abbrev pub count_of : Bytes → ℕ
count_of [] = 0
count_of (n ∷ rest) = n

unfoldable pub connect : Cipher → Bytes → Io Client
connect new_cipher password = bind (get 12) (λ ver. bind (put version) (λ u. bind (get 1) (λ n.
    bind (read_types (count_of n)) (λ types.
      bind (do_security new_cipher password (has 1 types) (has 2 types)) (λ v.
        bind (get 4) (λ result.
          bind (on_result (word result)) (λ w. bind (put (1 ∷ [])) (λ x. read_init))))))))
