-- ===== src/Buffer.antt =====
-- lib/buffer.c: the operations on the contents of a buffer, the bytes between its start and its
-- length. Growth of the allocation (`EnsureCapacity`) succeeds; a byte is a number below 256.
pub mod Order
pub mod Hex
mod Tests
use Prim.Native.Nat.{compare, Ordering}
use mathlib.Core.List.{reverse}
use leech.Base.{
  ℕ, ◌+◌, ◌-◌, ◌/◌, ◌%◌, Bool, true, false, ◌&&◌, List, [], ◌∷◌, ◌++◌, ltb, leb, ◌==◌,
  if◌then◌else◌, length, Bytes,
}

-- `LCH_BufferAppend`
abbrev pub append : Bytes → ℕ → Bytes
append self byte = self ++ byte ∷ []

-- The first loop of `LCH_BufferTrim`, over the bytes from `start` on.
unfoldable pub trim_start : ℕ → Bytes → Bytes
trim_start ch [] = []
trim_start ch (b ∷ bs) = let rest = trim_start ch bs in if b == ch then rest else b ∷ bs

-- `LCH_BufferTrim`: the second loop walks back from the end and stops at `start`.
unfoldable pub trim : Bytes → ℕ → Bytes
unfolding trim_start
trim buffer ch = reverse (trim_start ch (reverse (trim_start ch buffer)))

-- `memcmp` on two ranges of one length, by its sign: bytes compare as unsigned.
unfoldable pub memcmp : Bytes → Bytes → Ordering
memcmp [] [] = Ordering.eq
memcmp (a ∷ rest) (b ∷ bs) = elim (compare a b) [
  | Ordering.lt ↦ Ordering.lt
  | Ordering.eq ↦ memcmp rest bs
  | Ordering.gt ↦ Ordering.gt
]
memcmp _ _ = Ordering.eq

-- `LCH_BufferCompare`: -1, 0 and 1 are `lt`, `eq` and `gt`. The shorter buffer is the lesser.
unfoldable pub buffer_compare : Bytes → Bytes → Ordering
unfolding memcmp
buffer_compare self other =
    if ltb (length self) (length other)
    then Ordering.lt
    else if ltb (length other) (length self)
    then Ordering.gt
    else memcmp self other

-- `LCH_BufferEqual`
unfoldable pub equal : Bytes → Bytes → Bool
unfolding buffer_compare
equal self other = elim (buffer_compare self other) [ Ordering.eq ↦ true | _ ↦ false ]

-- `LCH_BufferIsPrintable`: a `char` above 127 is negative, or above the range.
unfoldable pub is_printable : Bytes → Bool
is_printable [] = true
is_printable (b ∷ bs) = leb 32 b && ltb b 127 && is_printable bs
