-- ===== src/Rfb/Auth/Key.antt =====
-- The DES key of a password.
use mathlib.Core.Path.{ap₂}
use remotedesk.Prelude.{
  all_below, all_below_holds, ℕ, zero, suc, ◌-◌, ◌≡◌, refl, ap, sym, ◌∙◌, true, ◌↔◌, [], ◌∷◌, ◌++◌,
  map, Bytes, IsByte, All, All-append, All-take, length, take, replicate, length-append,
  length-take, length-replicate, ◌==◌, ==_iff, arith,
}
use remotedesk.Rfb.Auth.{reverse_loop, reverse_bits, key_bytes, password_key}

reverse_table : all_below 256 (λ b. reverse_bits (reverse_bits b) == b) ≡ true
unfolding all_below reverse_bits reverse_loop
reverse_table = refl

-- Reversing twice gives the byte back.
reverse-reverse : (b : ℕ) → IsByte b → reverse_bits (reverse_bits b) ≡ b
reverse-reverse b h =
    (==_iff (reverse_bits (reverse_bits b)) b).0
      (all_below_holds 256 (λ x. reverse_bits (reverse_bits x) == x) b reverse_table h)

map_reverse-eq :
    (xs ys : Bytes)
    → All IsByte xs
    → All IsByte ys
    → map reverse_bits xs ≡ map reverse_bits ys
    → xs ≡ ys
map_reverse-eq [] [] h k e = refl
map_reverse-eq [] (y ∷ ys) h k e = cc
map_reverse-eq (x ∷ xs) [] h k e = cc
map_reverse-eq (x ∷ xs) (y ∷ ys) (hx, hs) (ky, ks) e =
    let head : reverse_bits x ≡ reverse_bits y = cc in
    let tail : map reverse_bits xs ≡ map reverse_bits ys = cc in
    ap₂ ◌∷◌ (sym (reverse-reverse x hx) ∙ ap reverse_bits head ∙ reverse-reverse y ky)
      (map_reverse-eq xs ys hs ks tail)

All-replicate : (n : ℕ) → All IsByte (replicate n 0)
All-replicate zero = tt
All-replicate (suc n) = (omega arith, All-replicate n)

key_bytes-All : (password : Bytes) → All IsByte password → All IsByte (key_bytes password)
unfolding key_bytes
key_bytes-All password h =
    All-append IsByte (take 8 password) (replicate (8 - length password) 0)
      (All-take IsByte 8 password h) (All-replicate (8 - length password))

-- Two passwords, which are made of bytes, have the same key exactly when they agree in their first
-- eight bytes, where a shorter password continues with zero bytes.
pub password_key-eq :
    (p q : Bytes)
    → All IsByte p
    → All IsByte q
    → (password_key p ≡ password_key q)
      ↔ (take 8 p ++ replicate (8 - length p) 0 ≡ take 8 q ++ replicate (8 - length q) 0)
unfolding password_key key_bytes
password_key-eq p q hp hq = (
  map_reverse-eq (key_bytes p) (key_bytes q) (key_bytes-All p hp) (key_bytes-All q hq),
  ap (map reverse_bits),
)

length-map_reverse : (xs : Bytes) → length (map reverse_bits xs) ≡ length xs
length-map_reverse [] = refl
length-map_reverse (x ∷ xs) = ap suc (length-map_reverse xs)

pub length-password_key : (password : Bytes) → length (password_key password) ≡ 8
unfolding password_key key_bytes
length-password_key password = omega (
  arith,
  length-map_reverse (key_bytes password),
  length-append (take 8 password) (replicate (8 - length password) 0),
  length-take 8 password,
  length-replicate {A = ℕ} (8 - length password) 0,
)
