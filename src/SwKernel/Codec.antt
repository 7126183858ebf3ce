-- ===== src/SwKernel/Codec.antt =====
-- The packing of a system call into a message, against a reader of little-endian numbers.
use team_os_3_0_baios.Base.{
  ℕ, zero, suc, ◌+◌, ◌*◌, ◌/◌, ◌^◌, ◌<◌, ◌≡◌, refl, List, [], ◌∷◌, arith, take, drop, pow-suc,
}
use team_os_3_0_baios.SwKernel.{Request, le_bytes, pack}

-- The number that little-endian bytes stand for.
abbrev pub from_le : List ℕ → ℕ
from_le [] = 0
from_le (b ∷ bs) = b + 256 * from_le bs

-- A system call read from a message: 4 bytes for the number, 8 for each argument.
abbrev pub unpack : List ℕ → Request
unpack bs = record {
  nr = from_le (take 4 bs);
  arg0 = from_le (take 8 (drop 4 bs));
  arg1 = from_le (take 8 (drop 12 bs));
  arg2 = from_le (take 8 (drop 20 bs));
  arg3 = from_le (take 8 (drop 28 bs));
}

from_le-le_bytes : (n x : ℕ) → x < 256 ^ n → from_le (le_bytes n x) ≡ x
unfolding le_bytes
from_le-le_bytes zero x h = omega arith
from_le-le_bytes (suc n) x h =
    omega (arith, from_le-le_bytes n (x / 256) (omega (arith, pow-suc 256 n)))

-- The hardware side can read back the number and the arguments of every system call that fits the
-- machine's words.
pub unpack-pack :
    (r : Request)
    → r.nr < 2 ^ 32
    → r.arg0 < 2 ^ 64
    → r.arg1 < 2 ^ 64
    → r.arg2 < 2 ^ 64
    → r.arg3 < 2 ^ 64
    → unpack (pack r) ≡ r
unfolding pack
unpack-pack r a b c d e = λ i. record {
  nr = from_le-le_bytes 4 r.nr a i;
  arg0 = from_le-le_bytes 8 r.arg0 b i;
  arg1 = from_le-le_bytes 8 r.arg1 c i;
  arg2 = from_le-le_bytes 8 r.arg2 d i;
  arg3 = from_le-le_bytes 8 r.arg3 e i;
}

-- The message counts 40 bytes of data, and the packing fills 36: the four behind are zeros.
pub pack_tail : (r : Request) → take 4 (drop 36 (pack r)) ≡ 0 ∷ 0 ∷ 0 ∷ 0 ∷ []
unfolding pack
pack_tail r = refl
