-- ===== src/Block/Identify.antt =====
-- lib/block.c: `LCH_BlockIdFromArgument`, from the files of the directory `blocks`; a directory that does
-- not exist has none.
use leech.Base.{
  ℕ, suc, ◌+◌, refl, ap, ◌∙◌, arith, inl, inr, Bool-cases, List, [], ◌∷◌, ◌++◌, length, Bool, true,
  false, ◌&&◌, ◌||◌, not, leb, ◌==◌, if◌then◌else◌, ◌≡◌, Bytes, Result, ok, failed,
}
use leech.CString.{string_equal, starts_with}
use leech.Head.{genisis_block_id}

-- `LCH_BlockIsGenisisId`
abbrev pub is_genisis_id : Bytes → Bool
is_genisis_id block_id = string_equal block_id genisis_block_id

-- The characters that `IsValidBlockId` accepts
unfoldable pub is_hex : ℕ → Bool
is_hex c = (leb b'0' c && leb c b'9') || (leb b'a' c && leb c b'f')

unfoldable pub all_hex : Bytes → Bool
unfolding is_hex
all_hex [] = true
all_hex (c ∷ block_id) = is_hex c && all_hex block_id

-- `IsValidBlockId`
unfoldable pub is_valid_block_id : Bytes → Bool
unfolding all_hex
is_valid_block_id block_id = all_hex block_id && (length block_id == length genisis_block_id)

-- The loop over the names: the last that matches, and how many match
unfoldable pub match_loop : Bytes → List Bytes → Bytes × ℕ → Bytes × ℕ
unfolding is_valid_block_id
match_loop argument [] found = found
match_loop argument (filename ∷ blocks) (last, num_matching) =
    let matching = match_loop argument blocks (filename, suc num_matching) in
    let ignored = match_loop argument blocks (last, num_matching) in
    if not (is_valid_block_id filename)
    then ignored
    else if starts_with filename argument
    then matching
    else ignored

-- `LCH_BlockIdFromArgument`
unfoldable pub block_id_from_argument : List Bytes → Bytes → Result Bytes
unfolding match_loop
block_id_from_argument blocks argument =
    let (block_id, num_matching) = match_loop argument (blocks ++ genisis_block_id ∷ []) ([], 0) in
    if num_matching == 1 then ok block_id else failed

-- The names that are block identifiers and start with the argument
unfoldable pub matching : Bytes → List Bytes → List Bytes
unfolding is_valid_block_id
matching argument [] = []
matching argument (name ∷ names) =
    let later = matching argument names in
    if is_valid_block_id name && starts_with name argument then name ∷ later else later

-- The element of a list that has just one
unfoldable pub only {ℓ} : {A : Type ℓ} → List A → Result A
only (a ∷ []) = ok a
only _ = failed

unfoldable last_of : Bytes → List Bytes → Bytes
last_of last [] = last
last_of last (name ∷ names) = last_of name names

match_loop-matching :
    (argument : Bytes) (names : List Bytes) (last : Bytes) (n : ℕ)
    → match_loop argument names (last, n)
      ≡ (last_of last (matching argument names), n + length (matching argument names))
unfolding match_loop matching last_of
match_loop-matching argument [] last n = ap (λ m. (last, m)) (omega arith)
match_loop-matching argument (name ∷ names) last n = elim (Bool-cases (is_valid_block_id name)) [
  | inr e ↦ rw e (match_loop-matching argument names last n)
  | inl e ↦ elim (Bool-cases (starts_with name argument)) [
    | inr e' ↦ rw e (rw e' (match_loop-matching argument names last n))
    | inl e' ↦ rw e (
        rw e' (
          match_loop-matching argument names name (suc n)
          ∙ ap (λ m. (last_of name (matching argument names), m)) (omega arith)))
  ]
]

only-last :
    (names : List Bytes)
    → (if (0 + length names) == 1 then ok (last_of [] names) else failed) ≡ only names
unfolding last_of only
only-last [] = refl
only-last (name ∷ []) = refl
only-last (name ∷ other ∷ names) =
    let ne : ((0 + length (name ∷ other ∷ names)) == 1) ≡ false = ground arith in rw ne refl

-- `LCH_BlockIdFromArgument` gives the one identifier that starts with the argument, among the files
-- and that of the genesis block. It fails if there is none, or more than one.
pub block_id_from_argument-only :
    (blocks : List Bytes) (argument : Bytes)
    → block_id_from_argument blocks argument
      ≡ only (matching argument (blocks ++ genisis_block_id ∷ []))
unfolding block_id_from_argument
block_id_from_argument-only blocks argument =
    rw (match_loop-matching argument (blocks ++ genisis_block_id ∷ []) [] 0)
      (only-last (matching argument (blocks ++ genisis_block_id ∷ [])))
