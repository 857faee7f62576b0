-- ===== src/Id/Digits.antt =====
-- The padded decimal form that `fmt.Sprintf("%0*d", n, v)` prints, digit by digit.
use remotedesk.Prelude.{
  ℕ, zero, suc, ◌+◌, ◌-◌, ◌*◌, ◌/◌, ◌%◌, ◌^◌, ◌≤◌, ◌<◌, ◌≡◌, refl, sym, ap, ◌∙◌, [], ◌∷◌, ◌++◌,
  Bytes, length, length-append, replicate, All, All-append, arith, append_assoc, append-nil,
}
use remotedesk.Id.{decimal_loop, decimal, zero_pad, bound_loop}
use native.Mathlib.Decide.{dec_lt}
use native.Mathlib.Nat.{pow-suc}

abbrev pub IsDigit : ℕ → Type 0
IsDigit d = (b'0' ≤ d) × (d ≤ b'9')

-- The last `n` decimal digits of `v`.
pub digits : ℕ → ℕ → Bytes
digits zero v = []
digits (suc n) v = digits n (v / 10) ++ ((b'0' + v % 10) ∷ [])

-- The number that a text of digits stands for.
pub number : ℕ → Bytes → ℕ
number acc [] = acc
number acc (d ∷ ds) = number (acc * 10 + (d - b'0')) ds

digits-suc : (n v : ℕ) → digits n (v / 10) ++ ((b'0' + v % 10) ∷ []) ≡ digits (suc n) v
unfolding digits
digits-suc n v = refl

pub length-digits : (n v : ℕ) → length (digits n v) ≡ n
unfolding digits
length-digits zero v = refl
length-digits (suc n) v =
    omega
      (arith, length-append (digits n (v / 10)) ((b'0' + v % 10) ∷ []), length-digits n (v / 10))

pub digits-IsDigit : (n v : ℕ) → All IsDigit (digits n v)
unfolding digits
digits-IsDigit zero v = tt
digits-IsDigit (suc n) v =
    All-append IsDigit (digits n (v / 10)) _ (digits-IsDigit n (v / 10)) (omega arith)

number-snoc :
    (acc d : ℕ) (ds : Bytes) → number acc (ds ++ (d ∷ [])) ≡ number acc ds * 10 + (d - b'0')
unfolding number
number-snoc acc d [] = refl
number-snoc acc d (x ∷ ds) = number-snoc (acc * 10 + (x - b'0')) d ds

pub number-digits : (n v : ℕ) → v < 10 ^ n → number 0 (digits n v) ≡ v
unfolding digits number
number-digits zero v h = omega arith
number-digits (suc n) v h =
    number-snoc 0 (b'0' + v % 10) (digits n (v / 10))
    ∙ omega (arith, number-digits n (v / 10) (omega (arith, pow-suc 10 n)))

replicate-snoc : (n d : ℕ) → replicate n d ++ (d ∷ []) ≡ d ∷ replicate n d
replicate-snoc zero d = refl
replicate-snoc (suc n) d = ap (◌∷◌ d) (replicate-snoc n d)

digits-zero : (n : ℕ) → digits n 0 ≡ replicate n b'0'
unfolding digits
digits-zero zero = refl
digits-zero (suc n) = ap (λ t. t ++ (b'0' ∷ [])) (digits-zero n) ∙ replicate-snoc n b'0'

zero_pad-snoc : (m d : ℕ) (s : Bytes) → zero_pad (suc m) (s ++ (d ∷ [])) ≡ zero_pad m s ++ (d ∷ [])
unfolding zero_pad
zero_pad-snoc m d s =
    let e : suc m - length (s ++ (d ∷ [])) ≡ m - length s =
      omega (arith, length-append s (d ∷ [])) in
    rw e (sym (append_assoc _ s (d ∷ [])))

decimal_loop_small : (fuel v : ℕ) → v < 10 → decimal_loop (suc fuel) v ≡ (b'0' + v % 10) ∷ []
unfolding decimal_loop
decimal_loop_small fuel v h = ground arith

decimal_loop_big :
    (fuel v : ℕ)
    → 10 ≤ v
    → decimal_loop (suc fuel) v ≡ decimal_loop fuel (v / 10) ++ ((b'0' + v % 10) ∷ [])
unfolding decimal_loop
decimal_loop_big fuel v h = ground arith

zero_pad-nil : (n : ℕ) → zero_pad n [] ≡ digits n 0
unfolding zero_pad
zero_pad-nil n =
    let e : n - 0 ≡ n = omega arith in
    rw (e, append-nil {A = ℕ} (replicate n b'0')) (sym (digits-zero n))

zero_pad_small :
    (m fuel v : ℕ) → v < 10 → zero_pad (suc m) (decimal_loop (suc fuel) v) ≡ digits (suc m) v
unfolding digits
zero_pad_small m fuel v h =
    let e : 0 ≡ v / 10 = omega arith in
    rw (decimal_loop_small fuel v h, zero_pad-snoc m (b'0' + v % 10) [], zero_pad-nil m, e)

zero_pad-decimal_loop :
    (m fuel v : ℕ)
    → v < fuel
    → v < 10 ^ suc m
    → zero_pad (suc m) (decimal_loop fuel v) ≡ digits (suc m) v
zero_pad-decimal_loop m zero v hf h = absurd (omega arith)
zero_pad-decimal_loop zero (suc fuel) v hf h = zero_pad_small 0 fuel v (omega arith)
zero_pad-decimal_loop (suc m) (suc fuel) v hf h = elim (dec_lt v 10) [
  | yes small ↦ zero_pad_small (suc m) fuel v small
  | no big ↦
      rw
        (
          decimal_loop_big fuel v (omega arith),
          zero_pad-snoc (suc m) (b'0' + v % 10) (decimal_loop fuel (v / 10)),
          zero_pad-decimal_loop m fuel (v / 10) (omega arith) (omega (arith, pow-suc 10 (suc m))),
        )
        (digits-suc (suc m) v)
]

-- `%0*d` prints exactly the last `n` digits of a number that has at most `n`.
pub zero_pad-decimal : (n v : ℕ) → 0 < n → v < 10 ^ n → zero_pad n (decimal v) ≡ digits n v
unfolding decimal
zero_pad-decimal zero v hn h = absurd (omega arith)
zero_pad-decimal (suc m) v hn h = zero_pad-decimal_loop m (suc v) v (omega arith) h

pub bound_loop-pow : (n k : ℕ) → bound_loop n k ≡ k * 10 ^ n
unfolding bound_loop
bound_loop-pow zero k = omega arith
bound_loop-pow (suc n) k =
    bound_loop-pow n (k * 10) ∙ omega (arith, ap (λ (t : ℕ). k * t) (pow-suc 10 n))
