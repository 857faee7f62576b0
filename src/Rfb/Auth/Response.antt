-- ===== src/Rfb/Auth/Response.antt =====
-- The server's check of a client's response.
use remotedesk.Prelude.{
  ◌≡◌, ap, sym, ◌∙◌, ◌↔◌, true, Option, none, some, Bytes, length, bytes_eq_iff, arith,
}
use remotedesk.Rfb.Auth.{
  Cipher, vnc_auth_response, compare_response, check_vnc_auth, or_zeros, client_response,
  password_key, encrypt_both,
}
use remotedesk.Rfb.Auth.Key.{length-password_key}
use mathlib.Core.Option

-- `des.NewCipher` fails only for a key whose size is not eight bytes.
pub record TakesKeys (new_cipher : Cipher) : Type 0 where
  pub takes :
      (key : Bytes) → length key ≡ 8 → (encrypt : Bytes → Bytes) × (new_cipher key ≡ some encrypt)

compare_iff :
    (expected : Option Bytes) (response : Bytes)
    → (compare_response expected response ≡ true) ↔ (expected ≡ some response)
unfolding compare_response
compare_iff none response = (λ e. cc, λ e. cc)
compare_iff (some expected) response = (
  λ e. ground (arith, bytes_eq_iff expected response),
  λ e.
      let same : expected ≡ response = cc in
      let long : length response ≡ length expected = ap length (sym same) in
      ground (arith, bytes_eq_iff expected response),
)

-- The server accepts a response exactly when it is the encryption of the challenge under the key of
-- its own password.
check_vnc_auth_iff :
    (new_cipher : Cipher) (challenge response password : Bytes)
    → (check_vnc_auth new_cipher challenge response password ≡ true)
      ↔ (vnc_auth_response new_cipher challenge password ≡ some response)
unfolding check_vnc_auth
check_vnc_auth_iff new_cipher challenge response password =
    compare_iff (vnc_auth_response new_cipher challenge password) response

response-some :
    (new_cipher : Cipher) (challenge password : Bytes) (encrypt : Bytes → Bytes)
    → new_cipher (password_key password) ≡ some encrypt
    → vnc_auth_response new_cipher challenge password ≡ some (encrypt_both challenge encrypt)
unfolding vnc_auth_response
response-some new_cipher challenge password encrypt e = ap (Option.map (encrypt_both challenge)) e

client_response-some :
    (new_cipher : Cipher) (challenge password r : Bytes)
    → vnc_auth_response new_cipher challenge password ≡ some r
    → client_response new_cipher challenge password ≡ r
unfolding client_response or_zeros
client_response-some new_cipher challenge password r e = ap or_zeros e

-- A client is accepted if its password has the same key as the server's and the cipher takes keys
-- of eight bytes: whatever the challenge, its response is the one that the server expects.
pub client_accepted :
    (new_cipher : Cipher) (challenge theirs ours : Bytes)
    → TakesKeys new_cipher
    → password_key theirs ≡ password_key ours
    → check_vnc_auth new_cipher challenge (client_response new_cipher challenge theirs) ours ≡ true
client_accepted new_cipher challenge theirs ours h e =
    let (encrypt, ok) = h.takes (password_key theirs) (length-password_key theirs) in
    let sent =
      client_response-some new_cipher challenge theirs (encrypt_both challenge encrypt)
        (response-some new_cipher challenge theirs encrypt ok) in
    let expected = response-some new_cipher challenge ours encrypt (ap new_cipher (sym e) ∙ ok) in
    (check_vnc_auth_iff new_cipher challenge (client_response new_cipher challenge theirs) ours).1
      (expected ∙ ap some (sym sent))
