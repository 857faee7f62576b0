-- ===== src/Rfb/Auth/Tests.antt =====
-- Instances of the theorems on VNC authentication, with a toy cipher for DES.
use remotedesk.Prelude.{
  ◌+◌, ◌%◌, ◌-◌, ◌≡◌, refl, ◌↔◌, true, [], ◌∷◌, ◌++◌, none, some, Bytes, codes, length, take,
  replicate, ◌==◌, if◌then◌else◌, arith,
}
use remotedesk.Rfb.Auth.{Cipher, reverse_bits, reverse_loop, password_key}
use remotedesk.Rfb.Auth.Key.{password_key-eq}
use remotedesk.Rfb.Auth.Response.{TakesKeys}

test_reverse : reverse_bits 0x61 ≡ 0x86
unfolding reverse_bits reverse_loop
test_reverse = refl

abbrev mix : Bytes → Bytes → Bytes
mix [] block = []
mix (k ∷ key) [] = []
mix (k ∷ key) (b ∷ block) = (k + b) % 256 ∷ mix key block

abbrev toy : Cipher
toy key = if length key == 8 then some (mix key) else none

toy-TakesKeys : TakesKeys toy
toy-TakesKeys = record {
  takes = λ key h. let fits : (length key == 8) ≡ true = ground arith in (mix key, rw fits);
}

abbrev challenge : Bytes
challenge = codes "0123456789abcdef"

password_key-eq_example :
    (password_key (codes "hunter2!") ≡ password_key (codes "hunter2!long")) ↔ (
      take 8 (codes "hunter2!") ++ replicate (8 - 8) 0
      ≡ take 8 (codes "hunter2!long") ++ replicate (8 - 12) 0)
password_key-eq_example =
    password_key-eq (codes "hunter2!") (codes "hunter2!long")
      (
        omega arith,
        (
          omega arith,
          (
            omega arith,
            (omega arith, (omega arith, (omega arith, (omega arith, (omega arith, tt))))),
          ),
        ),
      )
      (
        omega arith,
        (
          omega arith,
          (
            omega arith,
            (
              omega arith,
              (
                omega arith,
                (
                  omega arith,
                  (
                    omega arith,
                    (omega arith, (omega arith, (omega arith, (omega arith, (omega arith, tt))))),
                  ),
                ),
              ),
            ),
          ),
        ),
      )
