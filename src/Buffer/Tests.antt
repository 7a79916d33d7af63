-- ===== src/Buffer/Tests.antt =====
-- Comparisons of buffers.
use leech.Base.{true, false, ◌≡◌, refl, codes}
use leech.Buffer.{equal}

equal_prefix : equal (codes "ab") (codes "abc") ≡ false
unfolding equal
equal_prefix = refl

equal_same : equal (codes "ab") (codes "ab") ≡ true
unfolding equal
equal_same = refl
