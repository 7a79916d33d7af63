-- ===== src/Buffer/Order.antt =====
-- Comparison of buffers: equality is decided, and the order is total.
use Prim.Native.Nat.{Ordering}
use leech.Base.{true, [], ◌∷◌, ◌≡◌, ◌↔◌, refl, arith, length, Bytes}
use leech.Buffer.{memcmp, buffer_compare, equal}

memcmp_refl : (a : Bytes) → memcmp a a ≡ Ordering.eq
unfolding memcmp
memcmp_refl [] = refl
memcmp_refl (x ∷ xs) = ground (arith, memcmp_refl xs)

memcmp-eq : (a b : Bytes) → length a ≡ length b → memcmp a b ≡ Ordering.eq → a ≡ b
unfolding memcmp
memcmp-eq [] [] l h = refl
memcmp-eq [] (y ∷ ys) l h = absurd (omega arith)
memcmp-eq (x ∷ xs) [] l h = absurd (omega arith)
memcmp-eq (x ∷ xs) (y ∷ ys) l h = ground (arith, memcmp-eq xs ys)

-- Two buffers compare as equal exactly when they hold the same bytes.
pub equal_iff : (a b : Bytes) → (equal a b ≡ true) ↔ (a ≡ b)
unfolding equal buffer_compare
equal_iff a b = ground (arith, memcmp-eq a b, memcmp_refl a)
