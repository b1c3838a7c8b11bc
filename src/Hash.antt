-- ===== src/Hash.antt =====
-- The hash of include/hash.h, the same file in every lab from Lab4 on (Lab10/12-nat/include/hash.h).
use Prim.Native.Nat.{bit_xor}
use ucas_computer_network_la.Prelude.{ℕ, ◌%◌, ◌/◌, ◌<◌, List, [], ◌∷◌, arith}

abbrev pub hash_8bits : ℕ
hash_8bits = 256

-- A `u8` result that starts at 0 and takes each byte by exclusive or.
unfoldable pub hash8_from : ℕ → List ℕ → ℕ
hash8_from result [] = result
hash8_from result (b ∷ bs) = hash8_from (bit_xor result b % 256) bs

unfoldable pub hash8 : List ℕ → ℕ
hash8 buf = hash8_from 0 buf % 256

pub hash8-lt : (buf : List ℕ) → hash8 buf < 256
unfolding hash8
hash8-lt buf = omega arith

-- The bytes of a `u32` and of a `u16` in memory, on a little-endian machine.
abbrev pub bytes_u32 : ℕ → List ℕ
bytes_u32 x = x % 256 ∷ (x / 256) % 256 ∷ (x / 65536) % 256 ∷ (x / 16777216) % 256 ∷ []

abbrev pub bytes_u16 : ℕ → List ℕ
bytes_u16 x = x % 256 ∷ (x / 256) % 256 ∷ []
