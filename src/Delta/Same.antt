-- ===== src/Delta/Same.antt =====
-- A turn of a loop of the merge does what that of Reference does.
use leech.Base.{
  ℕ, suc, ◌+◌, ◌≤◌, Bool, true, false, Option-cases, if◌then◌else◌, ◌≡◌, arith, Bytes, Result, ok,
  failed, aborted, ◌>>=◌, inl, inr, refl, ap, ◌∙◌,
}
use leech.Json.Syntax.{Json, Fields, no_fields, field, get, set, remove, size}
use leech.Json.Dictionary.{Dictionary, dictionary_remove}
use leech.Delta.Merge.{Operations, Merging, merged_entries, take, take_from}

module _ {N : Type 0} where
  pub size-set_le :
      (fields : Fields N) (key : Bytes) (v : Json N) → size (set fields key v) ≤ suc (size fields)
  unfolding size set
  size-set_le no_fields key v = omega arith
  size-set_le (field k w fields) key v = ground (arith, size-set_le fields key v)

  -- The number of operations of a delta
  abbrev pub weight : Operations N → ℕ
  weight operations = size operations.inserts + size operations.deletes + size operations.updates

  -- The same outcome with and without the arrays, and what holds of the dictionaries
  pub data Same (I : Merging N → Type 0)
      : Result (Merging N × Fields N) → Result (Operations N × Fields N) → Type 0 where
    same_ok :
        (p : Merging N) (q : Operations N) (rest : Fields N)
        → merged_entries p ≡ q
        → I p
        → Same I (ok (p, rest)) (ok (q, rest))
    same_failed : Same I failed failed
    same_aborted : Same I aborted aborted

  module _ {I : Merging N → Type 0} where
    pub if-Same :
        (b : Bool) {x y : Result (Merging N × Fields N)} {x' y' : Result (Operations N × Fields N)}
        → Same I x x'
        → Same I y y'
        → Same I (if b then x else y) (if b then x' else y')
    if-Same true s t = s
    if-Same false s t = t

    pub take_from-Same :
        (d : Dictionary N) (key : Bytes)
        (next : Json N × Dictionary N → Result (Merging N × Fields N))
        (next' : Json N × Fields N → Result (Operations N × Fields N))
        → ((v : Json N)
            → Same I (next (v, dictionary_remove d key)) (next' (v, remove d.entries key)))
        → Same I (take_from d key >>= next) (take d.entries key >>= next')
    take_from-Same d key next next' s = elim (Option-cases (get d.entries key)) [
      | inl e ↦ rw e same_aborted
      | inr (v, e) ↦ rw e (s v)
    ]

    pub take-Same :
        (fields : Fields N) (key : Bytes) (next : Json N × Fields N → Result (Merging N × Fields N))
        (next' : Json N × Fields N → Result (Operations N × Fields N))
        → ((v : Json N) → Same I (next (v, remove fields key)) (next' (v, remove fields key)))
        → Same I (take fields key >>= next) (take fields key >>= next')
    take-Same fields key next next' s = elim (Option-cases (get fields key)) [
      | inl e ↦ rw e same_aborted
      | inr (v, e) ↦ rw e (s v)
    ]

    pub bind-Same :
        {J : Merging N → Type 0} {run : Result (Merging N × Fields N)}
        {run' : Result (Operations N × Fields N)}
        (next : Merging N × Fields N → Result (Merging N × Fields N))
        (next' : Operations N × Fields N → Result (Operations N × Fields N))
        → Same I run run'
        → ((p : Merging N) (rest : Fields N)
            → I p
            → Same J (next (p, rest)) (next' (merged_entries p, rest)))
        → Same J (run >>= next) (run' >>= next')
    bind-Same next next' (same_ok p q rest e has) s = rw (← e) (s p rest has)
    bind-Same next next' same_failed s = same_failed
    bind-Same next next' same_aborted s = same_aborted

    pub Same-ok :
        {run : Result (Merging N × Fields N)} {run' : Result (Operations N × Fields N)}
        {q : Operations N} {rest : Fields N}
        → Same I run run'
        → run' ≡ ok (q, rest)
        → (p : Merging N) × (run ≡ ok (p, rest)) × (merged_entries p ≡ q) × I p
    Same-ok (same_ok p q rest e has) done =
        (p, ap (λ r. ok (p, r)) (ground arith), e ∙ ground arith, has)
    Same-ok same_failed done = cc
    Same-ok same_aborted done = cc

    pub Same-failed :
        {run : Result (Merging N × Fields N)} {run' : Result (Operations N × Fields N)}
        → Same I run run'
        → run' ≡ failed
        → run ≡ failed
    Same-failed (same_ok p q rest e has) done = cc
    Same-failed same_failed done = refl
    Same-failed same_aborted done = cc
