-- ===== src/Leech/Checksum.antt =====
-- lib/leech.c: the checksum that `LCH_Diff` puts before a patch is the one that `Patch` verifies.
use leech.Base.{
  ℕ, ◌%◌, ◌/◌, Bool, true, false, [], ◌∷◌, ◌++◌, ◌==◌, ltb, length, length-append, drop,
  drop-append, if◌then◌else◌, ◌≡◌, refl, sym, ap, ◌∙◌, arith, Bytes, Bool-cases, inl, inr, ok,
  failed,
}
use leech.Buffer.Hex.{message_digest, hex_digit, bytes_to_hex, length-bytes_to_hex}
use leech.CString.{starts_with, strncmp_equal}
use leech.Leech.Diff.{algorithm, with_digest, verified}

strncmp_equal_refl : (str rest : Bytes) → strncmp_equal (length str) (str ++ rest) str ≡ true
unfolding strncmp_equal
strncmp_equal_refl [] rest = refl
strncmp_equal_refl (c ∷ str) rest =
    let same : (c == c) ≡ true = ground arith in
    elim (Bool-cases (c == 0)) [
      | inl e ↦ rw same (rw e refl)
      | inr e ↦ rw same (rw e (strncmp_equal_refl str rest))
    ]

-- No byte is null.
data NoNull : Bytes → Type 0 where
  no_bytes : NoNull []
  next_byte : {c : ℕ} {str : Bytes} → (c == 0) ≡ false → NoNull str → NoNull (c ∷ str)

hex_digit-ne_0 : (d : ℕ) → (hex_digit d == 0) ≡ false
unfolding hex_digit
hex_digit-ne_0 d = ground arith

bytes_to_hex-NoNull : (bytes : Bytes) → NoNull (bytes_to_hex bytes)
unfolding bytes_to_hex
bytes_to_hex-NoNull [] = no_bytes
bytes_to_hex-NoNull (byte ∷ bytes) =
    next_byte (hex_digit-ne_0 (byte / 16))
      (next_byte (hex_digit-ne_0 (byte % 16)) (bytes_to_hex-NoNull bytes))

same_byte :
    (c d : ℕ) (rest : Bool)
    → (d == 0) ≡ false
    → (if c == d then (if c == 0 then true else rest) else false) ≡ true
    → (c ≡ d) × (rest ≡ true)
same_byte c d true nz e = (ground arith, refl)
same_byte c d false nz e = ground arith

strncmp_equal-eq :
    (str other rest : Bytes)
    → NoNull other
    → length str ≡ length other
    → strncmp_equal (length other) (str ++ rest) other ≡ true
    → str ≡ other
unfolding strncmp_equal
strncmp_equal-eq [] [] rest h len e = refl
strncmp_equal-eq [] (d ∷ other) rest h len e = ground arith
strncmp_equal-eq (c ∷ str) [] rest h len e = ground arith
strncmp_equal-eq (c ∷ str) (d ∷ other) rest (next_byte nz h) len e =
    let (same, later) = same_byte c d (strncmp_equal (length other) (str ++ rest) other) nz e in
    ap (λ b. b ∷ str) same
    ∙ ap (λ s. d ∷ s) (strncmp_equal-eq str other rest h (omega (arith, len)) later)

if-eq-ok :
    (b : Bool) (text payload : Bytes)
    → (if b then ok text else failed) ≡ ok payload
    → (b ≡ true) × (payload ≡ text)
if-eq-ok true text payload e = (refl, cc)
if-eq-ok false text payload e = cc

module _ (sha1 : Bytes → Bytes) (sha1_size : (message : Bytes) → length (sha1 message) ≡ 20) where
  length-message_digest : (message : Bytes) → length (message_digest sha1 message) ≡ 40
  unfolding message_digest
  length-message_digest message =
      omega (arith, length-bytes_to_hex (sha1 message), sha1_size message)

  message_digest-NoNull : (message : Bytes) → NoNull (message_digest sha1 message)
  unfolding message_digest
  message_digest-NoNull message = bytes_to_hex-NoNull (sha1 message)

  -- A text of 40 bytes between the name of the algorithm and a patch
  verified-parts :
      (digest text : Bytes)
      → length digest ≡ 40
      → verified sha1 (algorithm ++ (digest ++ text))
        ≡ (if strncmp_equal 40 (digest ++ text) (message_digest sha1 text) then ok text else failed)
  unfolding verified starts_with
  verified-parts digest text len =
      let long_enough : ltb (length (algorithm ++ (digest ++ text))) 45 ≡ false =
        ground (arith, length-append digest text) in
      let behind : drop 40 (digest ++ text) ≡ text =
        ap (λ n. drop n (digest ++ text)) (sym len) ∙ drop-append digest text in
      rw long_enough (rw behind (rw (length-message_digest text) refl))

  -- What `LCH_Diff` returns for a patch passes the verification of `Patch`, which goes on with the text
  -- of the patch.
  pub verified-with_digest : (text : Bytes) → verified sha1 (with_digest sha1 text) ≡ ok text
  unfolding with_digest
  verified-with_digest text =
      let accepted : strncmp_equal 40 (message_digest sha1 text ++ text) (message_digest sha1 text)
          ≡ true =
        ap (λ n. strncmp_equal n (message_digest sha1 text ++ text) (message_digest sha1 text))
          (sym (length-message_digest text))
        ∙ strncmp_equal_refl (message_digest sha1 text) text in
      verified-parts (message_digest sha1 text) text (length-message_digest text) ∙ rw accepted refl

  -- A text with 40 bytes as its checksum passes only if they are the digest of the text behind them.
  pub verified-message_digest :
      (digest text payload : Bytes)
      → length digest ≡ 40
      → verified sha1 (algorithm ++ (digest ++ text)) ≡ ok payload
      → (payload ≡ text) × (digest ≡ message_digest sha1 text)
  verified-message_digest digest text payload len h =
      let (accepted, same) =
        if-eq-ok (strncmp_equal 40 (digest ++ text) (message_digest sha1 text)) text payload
          (sym (verified-parts digest text len) ∙ h) in
      (
        same,
        strncmp_equal-eq digest (message_digest sha1 text) text (message_digest-NoNull text)
            (len ∙ sym (length-message_digest text))
            (ap (λ n. strncmp_equal n (digest ++ text) (message_digest sha1 text))
                (length-message_digest text)
              ∙ accepted),
      )
