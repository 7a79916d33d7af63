-- ===== src/Head/Strip.antt =====
-- lib/string_lib.c: what `LCH_StringStrip` makes of a string.
use leech.Base.{
  ℕ, suc, ◌+◌, ◌-◌, ◌<◌, true, false, [], ◌∷◌, ◌++◌, length, length-append, take-append,
  drop-append, ◌≡◌, refl, sym, ◌∙◌, ap, ◌==◌, ltb, arith, Bytes, Bool-cases, inl, inr, append-nil,
  ok, aborted, append_assoc,
}
use leech.CString.{strchr, strip_loop, strip}

-- The characters of a string are all in the set.
pub data AllIn (charset : Bytes) : Bytes → Type 0 where
  all_nil : AllIn charset []
  all_next :
      {c : ℕ} {str : Bytes} → strchr charset c ≡ true → AllIn charset str → AllIn charset (c ∷ str)

-- The first and the last character of a string are not in the set.
pub data Stripped (charset : Bytes) : Bytes → Type 0 where
  single : (c : ℕ) → strchr charset c ≡ false → Stripped charset (c ∷ [])
  wider :
      (first : ℕ) (mid : Bytes) (last : ℕ)
      → strchr charset first ≡ false
      → strchr charset last ≡ false
      → Stripped charset (first ∷ mid ++ last ∷ [])

module _ (charset : Bytes) where
  eq_refl : (n : ℕ) → (n == n) ≡ true
  eq_refl n = ground arith

  zero-add : (n : ℕ) → 0 + n ≡ n
  zero-add n = omega arith

  strip_loop-before :
      (pre str : Bytes) (cursor end : ℕ)
      → AllIn charset pre
      → strip_loop charset (pre ++ str) cursor cursor end
        ≡ strip_loop charset str (cursor + length pre) (cursor + length pre) end
  unfolding strip_loop
  strip_loop-before [] str cursor end all_nil =
      ap (λ n. strip_loop charset str n n end) (omega arith)
  strip_loop-before (c ∷ pre) str cursor end (all_next h rest) = rw h (
      rw (eq_refl cursor) (
        strip_loop-before pre str (suc cursor) end rest
        ∙ ap (λ n. strip_loop charset str n n end) (omega arith)))

  strip_loop-after :
      (post : Bytes) (cursor start end : ℕ)
      → AllIn charset post
      → start < cursor
      → strip_loop charset post cursor start end ≡ (start, end)
  unfolding strip_loop
  strip_loop-after [] cursor start end all_nil lt = refl
  strip_loop-after (c ∷ post) cursor start end (all_next h rest) lt =
      let ne : (start == cursor) ≡ false = ground arith in
      rw h (rw ne (strip_loop-after post (suc cursor) start end rest (omega arith)))

  strip_loop-inside :
      (mid : Bytes) (last : ℕ) (post : Bytes) (cursor start end : ℕ)
      → strchr charset last ≡ false
      → AllIn charset post
      → start < cursor
      → strip_loop charset (mid ++ last ∷ post) cursor start end
        ≡ (start, cursor + suc (length mid))
  unfolding strip_loop
  strip_loop-inside [] last post cursor start end out h lt = rw out (
      strip_loop-after post (suc cursor) start (suc cursor) h (omega arith)
      ∙ ap (λ n. (start, n)) (omega arith))
  strip_loop-inside (c ∷ mid) last post cursor start end out h lt =
      let ne : (start == cursor) ≡ false = ground arith in
      let on : (e : ℕ)
          → strip_loop charset (mid ++ last ∷ post) (suc cursor) start e
            ≡ (start, cursor + suc (length (c ∷ mid))) =
        λ e.
          strip_loop-inside mid last post (suc cursor) start e out h (omega arith)
          ∙ ap (λ n. (start, n)) (omega arith) in
      elim (Bool-cases (strchr charset c)) [
        | inl e ↦ rw e (rw ne (on end))
        | inr e ↦ rw e (on (suc cursor))
      ]

  -- Where the body of a string starts and where it ends
  strip_loop-body :
      (body post : Bytes) (cursor : ℕ)
      → Stripped charset body
      → AllIn charset post
      → strip_loop charset (body ++ post) cursor cursor 0 ≡ (cursor, cursor + length body)
  unfolding strip_loop
  strip_loop-body body post cursor (single c out) h = rw out (
      strip_loop-after post (suc cursor) cursor (suc cursor) h (omega arith)
      ∙ ap (λ n. (cursor, n)) (omega arith))
  strip_loop-body body post cursor (wider first mid last out_first out) h = rw out_first (
      rw (append_assoc mid (last ∷ []) post) (
        strip_loop-inside mid last post (suc cursor) cursor (suc cursor) out h (omega arith)
        ∙ ap (λ n. (cursor, n)) (rw (length-append mid (last ∷ [])) (omega arith))))

  -- `LCH_StringStrip` takes off what stands before and behind, and leaves the rest as it is.
  pub strip_lem :
      (pre body post : Bytes)
      → AllIn charset pre
      → Stripped charset body
      → AllIn charset post
      → strip (pre ++ (body ++ post)) charset ≡ ok body
  unfolding strip
  strip_lem pre body post before h after =
      let ends : strip_loop charset (pre ++ (body ++ post)) 0 0 0
          ≡ (length pre, length pre + length body) =
        strip_loop-before pre (body ++ post) 0 0 before
        ∙ ap (λ n. strip_loop charset (body ++ post) n n 0) (zero-add (length pre))
        ∙ strip_loop-body body post (length pre) h after in
      let le : ltb (length pre + length body) (length pre) ≡ false = ground arith in
      let size : (length pre + length body) - length pre ≡ length body = omega arith in
      rw ends
        (rw le (rw size (rw (drop-append pre (body ++ post)) (rw (take-append body post) refl))))

  strip_loop-end : (n : ℕ) → strip_loop charset [] n n 0 ≡ (n, 0)
  unfolding strip_loop
  strip_loop-end n = refl

  -- A string that holds nothing but such characters breaks `LCH_StringStrip`.
  pub strip-AllIn :
      (c : ℕ) (str : Bytes) → AllIn charset (c ∷ str) → strip (c ∷ str) charset ≡ aborted
  unfolding strip
  strip-AllIn c str h =
      let ends : strip_loop charset (c ∷ str) 0 0 0 ≡ (suc (length str), 0) =
        ap (λ s. strip_loop charset s 0 0 0) (sym (append-nil (c ∷ str)))
        ∙ strip_loop-before (c ∷ str) [] 0 0 h
        ∙ ap (λ n. strip_loop charset [] n n 0) (zero-add (suc (length str)))
        ∙ strip_loop-end (suc (length str)) in
      let lt : ltb 0 (suc (length str)) ≡ true = ground arith in rw ends (rw lt refl)
