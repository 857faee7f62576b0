-- ===== src/Stream.antt =====
-- Reading from and writing to a connection, as the handshakes of internal/rfb and internal/rfbclient
-- do. `none` is an error; a write succeeds.
use remotedesk.Prelude.{
  ℕ, zero, suc, ◌≡◌, refl, sym, ◌∙◌, ap, [], ◌∷◌, ◌++◌, Option, none, some, Bytes, length, arith,
}

-- Code that reads a stream and writes another: what it writes, and its result with the rest.
abbrev pub Io {ℓ} : Type ℓ → Type ℓ
Io A = Bytes → Bytes × Option (A × Bytes)

abbrev pub pure {ℓ} : {A : Type ℓ} → A → Io A
pure a bs = ([], some (a, bs))

abbrev pub fail {ℓ} : {A : Type ℓ} → Io A
fail bs = ([], none)

unfoldable pub resume {ℓ κ} :
    {A : Type ℓ} {B : Type κ} → Bytes → Option (A × Bytes) → (A → Io B) → Bytes × Option (B × Bytes)
resume out none f = (out, none)
resume out (some (a, rest)) f = let (later, res) = f a rest in (out ++ later, res)

-- `if err != nil { return err }`
abbrev pub bind {ℓ κ} : {A : Type ℓ} {B : Type κ} → Io A → (A → Io B) → Io B
bind m f bs = let (out, res) = m bs in resume out res f

unfoldable pub split_head : ℕ → Option (Bytes × Bytes) → Option (Bytes × Bytes)
split_head b none = none
split_head b (some (row, rest)) = some (b ∷ row, rest)

unfoldable pub split : ℕ → Bytes → Option (Bytes × Bytes)
split zero bs = some ([], bs)
split (suc n) [] = none
split (suc n) (b ∷ bs) = split_head b (split n bs)

-- `io.ReadFull` of `n` bytes, and a flushed write.
abbrev pub get : ℕ → Io Bytes
get n bs = ([], split n bs)

abbrev pub put : Bytes → Io (Unit {0})
put out bs = (out, some (tt, bs))

pub split-append :
    (n : ℕ) (row rest : Bytes) → length row ≡ n → split n (row ++ rest) ≡ some (row, rest)
unfolding split split_head
split-append zero [] rest h = refl
split-append zero (b ∷ row) rest h = absurd (omega arith)
split-append (suc n) [] rest h = absurd (omega arith)
split-append (suc n) (b ∷ row) rest h = ap (split_head b) (split-append n row rest (omega arith))

resume-some {ℓ κ} :
    {A : Type ℓ} {B : Type κ} (out : Bytes) (o : Option (A × Bytes)) (f : A → Io B) (b : B)
    (rest : Bytes)
    → (resume out o f).1 ≡ some (b, rest)
    → (a : A) × (mid : Bytes) × (o ≡ some (a, mid)) × ((f a mid).1 ≡ some (b, rest))
unfolding resume
resume-some out none f b rest h = cc
resume-some out (some (a, mid)) f b rest h = (a, mid, refl, h)

-- Code that succeeds has succeeded in each of its parts.
pub bind-some {ℓ κ} :
    {A : Type ℓ} {B : Type κ} (m : Io A) (f : A → Io B) (bs : Bytes) (b : B) (rest : Bytes)
    → (bind m f bs).1 ≡ some (b, rest)
    → (a : A) × (mid : Bytes) × ((m bs).1 ≡ some (a, mid)) × ((f a mid).1 ≡ some (b, rest))
bind-some m f bs b rest h = resume-some (m bs).0 (m bs).1 f b rest h

pub some_inj {ℓ} : {A : Type ℓ} {p q : A} → some p ≡ some q → p ≡ q
some_inj h = cc

split_head-some :
    (b : ℕ) (o : Option (Bytes × Bytes)) (p : Bytes × Bytes)
    → split_head b o ≡ some p
    → (q : Bytes × Bytes) × (o ≡ some q) × (p ≡ (b ∷ q.0, q.1))
unfolding split_head
split_head-some b none p h = cc
split_head-some b (some q) p h = (q, refl, sym (some_inj h))

-- What was read is what came first.
pub split-some :
    (n : ℕ) (bs : Bytes) (p : Bytes × Bytes)
    → split n bs ≡ some p
    → (bs ≡ p.0 ++ p.1) × (length p.0 ≡ n)
unfolding split
split-some zero bs p h =
    let same : ([], bs) ≡ p = some_inj h in
    (ap (λ (q : Bytes × Bytes). q.0 ++ q.1) same, ap (λ (q : Bytes × Bytes). length q.0) (sym same))
split-some (suc n) [] p h = cc
split-some (suc n) (b ∷ bs) p h =
    let (q, e, same) = split_head-some b (split n bs) p h in
    let (cut, long) = split-some n bs q e in
    (
      ap (◌∷◌ b) cut ∙ ap (λ (r : Bytes × Bytes). r.0 ++ r.1) (sym same),
      ap (λ (r : Bytes × Bytes). length r.0) same ∙ ap suc long,
    )
