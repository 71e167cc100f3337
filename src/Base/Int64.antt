-- ===== src/Base/Int64.antt =====
-- Signed numbers of 64 bits: addition, and the wrap-around of its result.
use Prim.Native.Nat.{ℕ, suc, ◌+◌, ◌-◌, ◌%◌, ◌^◌}
use aisphere_kit.Base.Tests.{ltb, if◌then◌else◌}
use aisphere_kit.Base.Clock.{ℤ, pos, negsuc}

abbrev minus : ℕ → ℕ → ℤ
minus a b = if ltb a b then negsuc (b - a - 1) else pos (a - b)

abbrev pub plus : ℤ → ℤ → ℤ
plus (pos a) (pos b) = pos (a + b)
plus (pos a) (negsuc b) = minus a (suc b)
plus (negsuc a) (pos b) = minus b (suc a)
plus (negsuc a) (negsuc b) = negsuc (suc (a + b))

abbrev residue : ℤ → ℕ
residue (pos n) = n % 2 ^ 64
residue (negsuc n) = 2 ^ 64 - 1 - n % 2 ^ 64

abbrev signed : ℕ → ℤ
signed n = if ltb n (2 ^ 63) then pos n else negsuc (2 ^ 64 - 1 - n)

-- The number of 64 bits that a result is kept as.
unfoldable pub wrap64 : ℤ → ℤ
wrap64 n = signed (residue n)
