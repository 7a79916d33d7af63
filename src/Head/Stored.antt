-- ===== src/Head/Stored.antt =====
-- lib/head.c: what `LCH_HeadSet` stores is what `LCH_HeadGet` finds.
use leech.Base.{
  false, [], ◌∷◌, some, ◌≡◌, refl, Bytes, Bool-cases, inl, inr, ℕ, ok, aborted, ap, sym, ◌∙◌,
  append-nil,
}
use leech.Buffer.{equal}
use leech.Buffer.Order.{equal_iff}
use leech.Json.Fields.{equal_refl}
use leech.CString.{until_null, strip}
use leech.Head.{Files, read_file, write_file, head_get, head_set, white_space}
use leech.Head.Strip.{AllIn, all_nil, Stripped, strip_lem, strip-AllIn}

pub read_file-write_file :
    (files : Files) (name contents : Bytes)
    → read_file (write_file files name contents) name ≡ some contents
unfolding read_file write_file
read_file-write_file [] name contents = rw (equal_refl name) refl
read_file-write_file ((file, old) ∷ files) name contents = elim (Bool-cases (equal file name)) [
  | inl e ↦ rw e (rw e refl)
  | inr e ↦ rw e (rw e (read_file-write_file files name contents))
]

-- The file of another name is as it was.
pub read_file-write_file-other :
    (files : Files) (name contents other : Bytes)
    → equal name other ≡ false
    → read_file (write_file files name contents) other ≡ read_file files other
unfolding read_file write_file
read_file-write_file-other [] name contents other ne = rw ne refl
read_file-write_file-other ((file, old) ∷ files) name contents other ne =
    elim (Bool-cases (equal file name)) [
      | inl e ↦
          let apart : equal file other ≡ false =
            ap (λ f. equal f other) ((equal_iff file name).0 e) ∙ ne in
          rw e (rw apart refl)
      | inr e ↦ rw e (rw (read_file-write_file-other files name contents other ne) refl)
    ]

-- `LCH_HeadGet` finds the identifier that `LCH_HeadSet` has stored, if the identifier neither starts
-- nor ends with white space, is not empty and holds no null byte.
pub head_get-head_set :
    (work_dir : Files) (name block_id : Bytes)
    → until_null block_id ≡ block_id
    → Stripped white_space block_id
    → head_get (head_set work_dir name block_id) name ≡ ok block_id
unfolding head_get head_set
head_get-head_set work_dir name block_id no_null body =
    rw (read_file-write_file work_dir name block_id, head_get)
      (rw no_null (
        ap (λ s. strip s white_space) (sym (append-nil block_id))
        ∙ strip_lem white_space [] block_id [] all_nil body all_nil))

-- A file with nothing but white space in it breaks `LCH_HeadGet`. The file holds no null byte.
pub head_get-blank :
    (work_dir : Files) (name : Bytes) (c : ℕ) (contents : Bytes)
    → read_file work_dir name ≡ some (c ∷ contents)
    → until_null (c ∷ contents) ≡ c ∷ contents
    → AllIn white_space (c ∷ contents)
    → head_get work_dir name ≡ aborted
unfolding head_get
head_get-blank work_dir name c contents stored no_null blank =
    rw (stored, head_get) (rw no_null (strip-AllIn white_space c contents blank))
