-- ===== src/Delta/Loop.antt =====
-- The loops of the merge, over all keys of the child, by what a step does at its key.
use leech.Base.{
  true, false, List, [], ◌∷◌, Option, none, some, if◌then◌else◌, ◌≡◌, refl, sym, ◌∙◌, subst, arith,
  Bytes, Result, ok, inl, inr, Bool-cases,
}
use leech.Buffer.{equal}
use leech.Buffer.Order.{equal_iff}
use leech.Json.Syntax.{Json, Fields, get, remove}
use leech.Json.Fields.{listed, Once, get-remove, equal_refl}
use leech.Delta.Merge.{Operations}
use leech.Delta.Reference.{plain_keys}
use leech.Delta.Cells.{Cell, cell, AllDistinct}

abbrev pub applied : {N : Type 0} → (Cell N → Json N → Cell N) → Cell N → Option (Json N) → Cell N
applied after c none = c
applied after c (some v) = after c v

-- A step that is ready at its key succeeds, changes that key only, and takes it from the child.
abbrev pub Steps :
    {N : Type 0}
    → (Operations N → Fields N → Bytes → Result (Operations N × Fields N))
    → (Cell N → Json N → Cell N)
    → (Cell N → Json N → Type 0)
    → Type 0
Steps {N} body after Ready =
    (parent : Operations N) (child : Fields N) (key : Bytes) (v : Json N)
    → get child key ≡ some v
    → Ready (cell parent key) v
    → (p : Operations N) × (body parent child key ≡ ok (p, remove child key))
      × (AllDistinct parent → AllDistinct p)
      × ((j : Bytes)
          → cell p j ≡ (if equal key j then after (cell parent key) v else cell parent j))

-- A key that stands once is none of those behind it.
pub listed-ne :
    (key k : Bytes) (rest : List Bytes)
    → listed rest key ≡ false
    → listed rest k ≡ true
    → equal key k ≡ false
listed-ne key k rest h l = ground (arith, equal_iff key k)

module _ {N : Type 0} (body : Operations N → Fields N → Bytes → Result (Operations N × Fields N))
    (after : Cell N → Json N → Cell N) (Ready : Cell N → Json N → Type 0)
    (steps : Steps body after Ready) where
  -- Each key that is still to come is in the child, and its step is ready.
  abbrev pub AllReady : List Bytes → Operations N → Fields N → Type 0
  AllReady ks parent child =
      (k : Bytes)
      → listed ks k ≡ true
      → (v : Json N) × (get child k ≡ some v) × Ready (cell parent k) v

  spread :
      (key j : Bytes) (ks : List Bytes) (parent p : Operations N) (child : Fields N) (v : Json N)
      → get child key ≡ some v
      → listed ks key ≡ false
      → cell p j ≡ (if equal key j then after (cell parent key) v else cell parent j)
      → (if listed ks j then applied after (cell p j) (get (remove child key) j) else cell p j) ≡ (
          if listed (key ∷ ks) j
          then applied after (cell parent j) (get child j)
          else cell parent j)
  spread key j ks parent p child v e once cells = elim (Bool-cases (equal key j)) [
    | inl same ↦
        let k : key ≡ j = (equal_iff key j).0 same in
        rw (cells, same, rw k at once, rw k at e) (rw k)
    | inr other ↦ rw (cells, other, get-remove child key j) (rw other)
  ]

  pub merge_keys-cell :
      (ks : List Bytes) (parent : Operations N) (child : Fields N)
      → Once ks
      → AllReady ks parent child
      → (p : Operations N) × (rest : Fields N) × (plain_keys body ks parent child ≡ ok (p, rest))
        × (AllDistinct parent → AllDistinct p)
        × ((j : Bytes)
            → cell p j ≡ (
                if listed ks j then applied after (cell parent j) (get child j) else cell parent j))
  unfolding plain_keys
  merge_keys-cell [] parent child once ready = (parent, child, refl, λ o. o, λ j. refl)
  merge_keys-cell (key ∷ ks) parent child once ready =
      let (v, e, r) = ready key (rw equal_refl) in
      let (p, stepped, kept, cells) = steps parent child key v e r in
      let ready' : AllReady ks p (remove child key) = λ k l.
        let (w, f, s) = ready k (ground (arith, l)) in
        let other = listed-ne key k ks once.0 l in
        (
          w,
          get-remove child key k ∙ rw other f,
          subst (λ c. Ready c w) (sym (cells k ∙ rw other)) s,
        ) in
      let (q, rest, done, keeps, all) = merge_keys-cell ks p (remove child key) once.1 ready' in
      (
        q,
        rest,
        rw stepped done,
        λ o. keeps (kept o),
        λ j. all j ∙ spread key j ks parent p child v e once.0 (cells j),
      )
