-- ===== src/Head/Tests.antt =====
-- Runs of lib/head.c and `LCH_StringStrip`, and the instances of their theorems.
use leech.Base.{[], ◌∷◌, ◌≡◌, refl, codes, ok, aborted}
use leech.Buffer.{equal}
use leech.CString.{strip, strip_loop, strchr}
use leech.Head.{read_file, head_get, head_set, white_space}
use leech.Head.Strip.{AllIn, all_nil, all_next, Stripped, wider, strip_lem}
use leech.Head.Stored.{head_get-head_set, head_get-blank}

spaces : AllIn white_space (codes " \n")
unfolding strchr
spaces = all_next refl (all_next refl all_nil)

word : Stripped white_space (codes "a b")
unfolding strchr
word = wider b'a' (codes " ") b'b' refl refl

strip_runs : strip (codes " a b\n") white_space ≡ ok (codes "a b")
unfolding strip strip_loop strchr
strip_runs = refl

strip_lem_example : strip (codes " \na b \n") white_space ≡ ok (codes "a b")
strip_lem_example =
    strip_lem white_space (codes " \n") (codes "a b") (codes " \n") spaces word spaces

head_get-head_set_example :
    head_get
      (head_set ((codes "HEAD", codes "old") ∷ []) (codes "HEAD") (codes "a b"))
      (codes "HEAD")
    ≡ ok (codes "a b")
head_get-head_set_example =
    head_get-head_set ((codes "HEAD", codes "old") ∷ []) (codes "HEAD") (codes "a b") refl word

head_get-blank_example : head_get ((codes "HEAD", codes " \n") ∷ []) (codes "HEAD") ≡ aborted
unfolding read_file equal
head_get-blank_example =
    head_get-blank ((codes "HEAD", codes " \n") ∷ []) (codes "HEAD") b' ' (codes "\n") refl refl
      spaces
