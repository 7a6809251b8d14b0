-- ===== src/Prelude/Octets.antt =====
-- Byte strings as lists of numbers, the whole numbers, and `int.from_bytes` in both its readings.
use Prim.Native.Nat.{ℕ, ◌+◌, ◌-◌, ◌*◌, ◌<◌}
use mathlib.Core.List.{List, [], ◌∷◌, ◌++◌}
use srp.Prelude.Tests.{ltb, if◌then◌else◌}

abbrev pub Bytes : Type 0
Bytes = List ℕ

-- Every element is a byte.
abbrev pub AreBytes : Bytes → Type 0
AreBytes [] = Unit
AreBytes (b ∷ bs) = (b < 256) × AreBytes bs

pub AreBytes-append : (xs ys : Bytes) → AreBytes xs → AreBytes ys → AreBytes (xs ++ ys)
AreBytes-append [] ys h k = k
AreBytes-append (x ∷ xs) ys h k = (h.0, AreBytes-append xs ys h.1 k)

-- int.from_bytes(body, "big"), going on from the number that was read so far
abbrev pub from_bytes_onto : ℕ → Bytes → ℕ
from_bytes_onto acc [] = acc
from_bytes_onto acc (b ∷ bs) = from_bytes_onto (acc * 256 + b) bs

-- `negsuc n` is -(n + 1).
pub data ℤ : Type 0 where
  pos : ℕ → ℤ
  negsuc : ℕ → ℤ

-- acc * 256 + b, for a byte b
abbrev pub push_byte : ℤ → ℕ → ℤ
push_byte (pos n) b = pos (n * 256 + b)
push_byte (negsuc n) b = negsuc (n * 256 + 255 - b)

abbrev pub signed_onto : ℤ → Bytes → ℤ
signed_onto acc [] = acc
signed_onto acc (b ∷ bs) = signed_onto (push_byte acc b) bs

-- int.from_bytes(body, "big", signed=True): the digits above the first byte are all its high bit
abbrev pub from_bytes_signed : Bytes → ℤ
from_bytes_signed [] = pos 0
from_bytes_signed (b ∷ bs) =
    if ltb b 128 then signed_onto (pos 0) (b ∷ bs) else signed_onto (negsuc 0) (b ∷ bs)
