-- ===== src/Rfb/Auth.antt =====
-- internal/rfb/auth.go, and internal/rfbclient/auth.go, which has the same `vncAuthResponse` but for
-- its answer to an error. `crypto/des` is the parameter `new_cipher`: `none` is an error.
use Prim.Native.Nat.{bit_and, bit_or}
use remotedesk.Prelude.{
  ℕ, zero, suc, ◌-◌, ◌*◌, ◌/◌, ◌%◌, Bool, true, false, not, ◌||◌, List, [], ◌∷◌, ◌++◌, map, Option,
  none, some, Bytes, length, take, replicate, slice, bytes_eq, ◌==◌, if◌then◌else◌,
}
use mathlib.Core.Option
pub mod Key
pub mod Response
mod Tests

-- `des.NewCipher`: from a key to the encryption of a block.
abbrev pub Cipher : Type 0
Cipher = Bytes → Option (Bytes → Bytes)

-- `for i := 0; i < 8; i++`, from the round `n` to the end.
unfoldable pub reverse_loop : ℕ → ℕ → ℕ → ℕ
reverse_loop zero r b = r
reverse_loop (suc n) r b = reverse_loop n (bit_or (r * 2 % 256) (bit_and b 1)) (b / 2)

unfoldable pub reverse_bits : ℕ → ℕ
unfolding reverse_loop
reverse_bits b = reverse_loop 8 0 b

-- `key := make([]byte, 8); copy(key, password)`
unfoldable pub key_bytes : Bytes → Bytes
key_bytes password = take 8 password ++ replicate (8 - length password) 0

unfoldable pub password_key : Bytes → Bytes
unfolding reverse_bits key_bytes
password_key password = map reverse_bits (key_bytes password)

-- The two blocks of the challenge.
abbrev pub encrypt_both : Bytes → (Bytes → Bytes) → Bytes
encrypt_both challenge encrypt = encrypt (slice 0 8 challenge) ++ encrypt (slice 8 16 challenge)

unfoldable pub vnc_auth_response : Cipher → Bytes → Bytes → Option Bytes
unfolding password_key
vnc_auth_response new_cipher challenge password =
    Option.map (encrypt_both challenge) (new_cipher (password_key password))

-- `subtle.ConstantTimeCompare(expected, response) == 1`, after the check of the lengths.
unfoldable pub compare_response : Option Bytes → Bytes → Bool
compare_response none response = false
compare_response (some expected) response =
    if not (length response == length expected) then false else bytes_eq expected response

unfoldable pub check_vnc_auth : Cipher → Bytes → Bytes → Bytes → Bool
unfolding compare_response
check_vnc_auth new_cipher challenge response password =
    compare_response (vnc_auth_response new_cipher challenge password) response

-- The client's `vncAuthResponse` answers an error with 16 zero bytes.
unfoldable pub or_zeros : Option Bytes → Bytes
or_zeros none = replicate 16 0
or_zeros (some response) = response

unfoldable pub client_response : Cipher → Bytes → Bytes → Bytes
unfolding or_zeros
client_response new_cipher challenge password =
    or_zeros (vnc_auth_response new_cipher challenge password)
