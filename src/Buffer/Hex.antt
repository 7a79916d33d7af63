-- ===== src/Buffer/Hex.antt =====
-- lib/buffer.c: `LCH_BufferBytesToHex`, and the digest of lib/utils.c as text.
use leech.Base.{
  ℕ, ◌+◌, ◌-◌, ◌*◌, ◌/◌, ◌%◌, [], ◌∷◌, ltb, length, if◌then◌else◌, ◌≡◌, refl, arith, Bytes,
}

-- A digit of the format `%02x`
unfoldable pub hex_digit : ℕ → ℕ
hex_digit d = if ltb d 10 then b'0' + d else b'a' + (d - 10)

-- `LCH_BufferBytesToHex`: what it writes behind the buffer `hex`
unfoldable pub bytes_to_hex : Bytes → Bytes
unfolding hex_digit
bytes_to_hex [] = []
bytes_to_hex (byte ∷ bytes) = hex_digit (byte / 16) ∷ hex_digit (byte % 16) ∷ bytes_to_hex bytes

-- `LCH_MessageDigest` of lib/utils.c: what it writes behind the buffer. SHA-1 is a parameter.
unfoldable pub message_digest : (Bytes → Bytes) → Bytes → Bytes
unfolding bytes_to_hex
message_digest sha1 message = bytes_to_hex (sha1 message)

pub length-bytes_to_hex : (bytes : Bytes) → length (bytes_to_hex bytes) ≡ 2 * length bytes
unfolding bytes_to_hex
length-bytes_to_hex [] = refl
length-bytes_to_hex (byte ∷ bytes) = omega (arith, length-bytes_to_hex bytes)
