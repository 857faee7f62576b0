-- ===== src/Id/Format.antt =====
-- The shape of connection IDs and PINs, and that they carry the whole random number.
use remotedesk.Prelude.{
  ℕ, ◌^◌, ◌<◌, ◌≡◌, refl, ◌∙◌, [], ◌∷◌, ◌++◌, some, Bytes, length, get_elem?, slice, take, All,
  arith,
}
use remotedesk.Id.{Rand, IsInRange, bound_loop, rand_digits, group, new_id, new_pin}
use remotedesk.Id.Digits.{
  IsDigit, digits, number, length-digits, digits-IsDigit, number-digits, zero_pad-decimal,
  bound_loop-pow,
}

-- An ID without its two dashes.
abbrev pub ungroup : Bytes → Bytes
ungroup s = take 3 s ++ (slice 4 7 s ++ slice 8 11 s)

-- "NNN-NNN-NNN": the digits stand for `v`.
pub record IsId (s : Bytes) (v : ℕ) : Type 0 where
  pub size : length s ≡ 11
  pub first_dash : get_elem? s 3 ≡ some b'-'
  pub second_dash : get_elem? s 7 ≡ some b'-'
  pub all_digits : All IsDigit (ungroup s)
  pub value : number 0 (ungroup s) ≡ v

group_shape :
    (n : Bytes)
    → length n ≡ 9
    → (length (group n) ≡ 11)
      × (get_elem? (group n) 3 ≡ some b'-')
      × (get_elem? (group n) 7 ≡ some b'-')
      × (ungroup (group n) ≡ n)
group_shape (a ∷ b ∷ c ∷ d ∷ e ∷ f ∷ g ∷ h ∷ i ∷ []) p = (refl, refl, refl, refl)
group_shape _ p = absurd (omega arith)

-- For a number that `rand.Int` may return, the digits are the last `n` digits of that number.
rand_digits-digits :
    (rand : Rand) (n v : ℕ)
    → IsInRange rand
    → 0 < n
    → rand (10 ^ n) ≡ some v
    → (rand_digits rand n ≡ some (digits n v)) × (v < 10 ^ n)
unfolding rand_digits
rand_digits-digits rand n v ok hn e =
    let bound : bound_loop n 1 ≡ 10 ^ n = bound_loop-pow n 1 ∙ omega arith in
    (rw (bound, e, zero_pad-decimal n v hn (ok _ v e)), ok _ v e)

digits-IsId : (v : ℕ) → v < 10 ^ 9 → IsId (group (digits 9 v)) v
digits-IsId v h =
    let (size, first, second, same) = group_shape (digits 9 v) (length-digits 9 v) in
    record {
      size = size;
      first_dash = first;
      second_dash = second;
      all_digits = rw same (digits-IsDigit 9 v);
      value = rw same (number-digits 9 v h);
    }

-- `NewID` returns an ID of the form "NNN-NNN-NNN" whose digits are the number that was drawn.
pub new_id-IsId :
    (rand : Rand) (v : ℕ)
    → IsInRange rand
    → rand (10 ^ 9) ≡ some v
    → (s : Bytes) × (new_id rand ≡ some s) × IsId s v
unfolding new_id
new_id-IsId rand v ok e =
    let (digits_of, below) = rand_digits-digits rand 9 v ok (omega arith) e in
    (group (digits 9 v), rw digits_of, digits-IsId v below)

-- A PIN has six digits.
pub record IsPin (s : Bytes) (v : ℕ) : Type 0 where
  pub size : length s ≡ 6
  pub all_digits : All IsDigit s
  pub value : number 0 s ≡ v

-- `NewPIN` returns exactly six digits, leading zeros included, which are the number that was drawn.
new_pin-IsPin :
    (rand : Rand) (v : ℕ)
    → IsInRange rand
    → rand (10 ^ 6) ≡ some v
    → (s : Bytes) × (new_pin rand ≡ some s) × IsPin s v
unfolding new_pin
new_pin-IsPin rand v ok e =
    let (digits_of, below) = rand_digits-digits rand 6 v ok (omega arith) e in
    (
      digits 6 v,
      digits_of,
      record {
        size = length-digits 6 v;
        all_digits = digits-IsDigit 6 v;
        value = number-digits 6 v below;
      },
    )
