-- ===== src/BigEndian.antt =====
-- encoding/binary with `binary.BigEndian`, as internal/rfb and internal/rfbclient use it.
use remotedesk.Prelude.{ℕ, ◌+◌, ◌*◌, ◌/◌, ◌%◌, ◌<◌, ◌≡◌, [], ◌∷◌, Bytes, arith}

-- `byte(v >> 8), byte(v)`: `AppendUint16` of a value that is converted to `uint16` first.
abbrev pub put_u16 : ℕ → Bytes
put_u16 v = v / 256 % 256 ∷ (v % 256 ∷ [])

abbrev pub put_u32 : ℕ → Bytes
put_u32 v = v / 16777216 % 256 ∷ (v / 65536 % 256 ∷ (v / 256 % 256 ∷ (v % 256 ∷ [])))

abbrev pub get_u16 : ℕ → ℕ → ℕ
get_u16 hi lo = hi * 256 + lo

abbrev pub get_u32 : ℕ → ℕ → ℕ → ℕ → ℕ
get_u32 a b c d = ((a * 256 + b) * 256 + c) * 256 + d

get-put_u16 : (v : ℕ) → get_u16 (v / 256 % 256) (v % 256) ≡ v % 65536
get-put_u16 v = omega arith

get-put_u32 :
    (v : ℕ)
    → get_u32 (v / 16777216 % 256) (v / 65536 % 256) (v / 256 % 256) (v % 256) ≡ v % 4294967296
get-put_u32 v = omega arith

pub get-put_word : (v : ℕ) → v < 65536 → get_u16 (v / 256 % 256) (v % 256) ≡ v
get-put_word v h = omega arith
