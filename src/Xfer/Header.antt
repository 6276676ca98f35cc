-- ===== src/Xfer/Header.antt =====
-- The length that a header carries.
use kvflow.Prelude.{zero, suc, refl, ◌%◌, ◌-◌, ◌<◌, ◌≡◌, ap, ◌^◌, arith}
use kvflow.Int.{wrap64, ℤ, IsInt64, pos, negsuc}
use kvflow.Xfer.{to_bytes, from_bytes, to_unsigned, ℕ, wrap64, length}

-- Eight bytes of an unsigned number below 2 ^ 64 give it back.
pub from_bytes-to_bytes : (v : ℕ) → v < 2 ^ 64 → from_bytes 0 (to_bytes 8 v) ≡ v
unfolding from_bytes to_bytes
from_bytes-to_bytes v h = omega arith

pub length-to_bytes : (k v : ℕ) → length (to_bytes k v) ≡ k
unfolding to_bytes
length-to_bytes zero v = refl
length-to_bytes (suc k) v = ap suc (length-to_bytes k v)

-- The receiver reads the `int64` that the sender wrote.
pub header_lem : (n : ℤ) → IsInt64 n → wrap64 (pos (from_bytes 0 (to_bytes 8 (to_unsigned n)))) ≡ n
unfolding wrap64
header_lem (pos n) h = rw (from_bytes-to_bytes (n % 2 ^ 64) (omega arith)) (ground (arith, h.below))
header_lem (negsuc n) h =
    rw (from_bytes-to_bytes (2 ^ 64 - 1 - n % 2 ^ 64) (omega arith)) (ground (arith, h.above))
