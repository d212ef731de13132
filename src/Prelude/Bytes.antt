-- ===== src/Prelude/Bytes.antt =====
-- Numbers as bytes, the lowest first.
use Prim.Native.Nat.{ℕ, zero, suc, ◌+◌, ◌*◌, ◌/◌, ◌%◌, ◌^◌, ◌<◌}
use mathlib.Core.List.{List, [], ◌∷◌}
use mathlib.Core.Path.{◌≡◌}
use native.Mathlib.Omega.{arith}

abbrev pub Bytes : Type 0
Bytes = List ℕ

-- `to_le_bytes` of an unsigned integer of `k` bytes.
abbrev pub le_bytes : ℕ → ℕ → Bytes
le_bytes zero n = []
le_bytes (suc k) n = n % 256 ∷ le_bytes k (n / 256)

abbrev pub from_le_bytes : Bytes → ℕ
from_le_bytes [] = 0
from_le_bytes (b ∷ bs) = b + 256 * from_le_bytes bs

pub le_bytes-round : (k n : ℕ) → n < 256 ^ k → from_le_bytes (le_bytes k n) ≡ n
le_bytes-round zero n h = ground arith
le_bytes-round (suc k) n h =
    let p : ℕ = 256 ^ k in
    let fits : n / 256 < p = grind arith in
    let ih = le_bytes-round k (n / 256) fits in omega (arith, ih)
