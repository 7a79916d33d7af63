-- ===== src/Leech/DiffTests.antt =====
-- A work directory with two blocks, the patch that is made of them, and a purge that keeps one of them.
use leech.Base.{
  not, ℕ, false, [], ◌∷◌, ◌++◌, Option, some, none, if◌then◌else◌, leb, ◌&&◌, ◌-◌, ◌+◌, ◌%◌, ◌≡◌,
  refl, arith, Bytes, codes, ok, length, ◌==◌,
}
use leech.Buffer.{equal}
use leech.Json.Syntax.{
  size, Json, Items, string, number, array, object, no_items, item, no_fields, field, get, set,
}
use leech.Json.Access.{object_get_string, object_get_array}
use leech.Json.Parser.{
  json_parse, parse, trim_whitespace, check_token, parse_token, separator, parse_number,
}
use leech.Json.Composer.{json_compose}
use leech.CString.{starts_with, string_equal, strip, strip_loop, strchr, strncmp_equal}
use leech.Head.{head_name, Files, read_file, head_get}
use leech.Block.Names.{blocks_key, lastknown_key}
use leech.Block.Create.{block_load, block_get_payload}
use leech.Block.Identify.{block_id_from_argument, match_loop, is_valid_block_id, all_hex, is_hex}
use leech.Block.Store.{WorkDir}
use leech.Json.Fields.{listed}
use leech.Leech.Config.{Instance}
use leech.Leech.Purge.{purge, purge-keeps, enough, a_block, is_xdigit}
use leech.Leech.Carries.{Carries, nothing, carry}
use leech.Leech.Chain.{Chain, at_end, link}
use leech.Leech.Diff.{names, with_digest, stored_block, diff, verified}
use leech.Leech.Checksum.{verified-with_digest, verified-message_digest}
use leech.Buffer.Hex.{message_digest, bytes_to_hex, hex_digit}
use leech.Leech.DiffChain.{diff-Chain}
use leech.Leech.Tests.{
  config, ids, rows_1, rows_2, states_of, delta_1, delta_2, delta_1-HasDelta, delta_2-HasDelta,
  merges,
}

-- Numbers of one digit stand in for `sscanf` and `%f`.

abbrev pub scan_digit : Bytes → Option (ℕ × ℕ)
scan_digit [] = none
scan_digit (c ∷ _) = if leb b'0' c && leb c b'9' then some (c - b'0', 1) else none

abbrev pub print_digit : ℕ → Bytes
print_digit n = (n + b'0') ∷ codes ".000000"

abbrev pub id_a : Bytes
id_a = codes "aaaaaaaaaaaaaaaaaaaaaaaaaaaaaaaaaaaaaaaa"

abbrev pub id_b : Bytes
id_b = codes "bbbbbbbbbbbbbbbbbbbbbbbbbbbbbbbbbbbbbbbb"

abbrev pub zeros : Bytes
zeros = codes "0000000000000000000000000000000000000000"

abbrev pub text_of : Bytes → Bytes → Bytes
text_of parent delta =
    codes "{\"version\":1,\"timestamp\":5,\"parent\":\""
    ++ parent
    ++ codes "\",\"payload\":["
    ++ delta
    ++ codes "]}"

abbrev pub blocks : Files
blocks =
    (
      id_a,
      text_of zeros (
          codes
            "{\"type\":\"delta\",\"id\":\"T\",\"inserts\":{\"1\":\"Paul\",\"2\":\"John\"},\"deletes\":{},\"updates\":{}}"),
    )
    ∷ (
      id_b,
      text_of id_a (
          codes
            "{\"type\":\"delta\",\"id\":\"T\",\"inserts\":{},\"deletes\":{\"2\":\"John\"},\"updates\":{\"1\":\"George\"}}"),
    )
    ∷ []

abbrev pub work_dir : Files
work_dir = (codes "HEAD", id_b ++ codes "\n") ∷ []

abbrev pub block_of : Bytes → Json ℕ → Json ℕ
block_of parent delta = object (
    field (codes "version") (number 1) (
      field (codes "timestamp") (number 5) (
        field (codes "parent") (string parent)
          (field (codes "payload") (array (item delta no_items)) no_fields))))

pub load_a : stored_block scan_digit some blocks id_a ≡ ok (block_of zeros delta_1)
unfolding block_load read_file json_parse parse trim_whitespace check_token parse_token separator
    parse_number equal set get
load_a = refl

pub load_b : stored_block scan_digit some blocks id_b ≡ ok (block_of id_a delta_2)
unfolding block_load read_file json_parse parse trim_whitespace check_token parse_token separator
    parse_number equal set get
load_b = refl

pub at_head : head_get work_dir head_name ≡ ok id_b
unfolding head_get read_file strip strip_loop strchr equal
at_head = refl

-- "0" is the beginning of the genesis block's identifier, and of no other.
genisis_found : block_id_from_argument (names blocks) (codes "0") ≡ ok zeros
unfolding block_id_from_argument match_loop is_valid_block_id all_hex is_hex starts_with
genisis_found = refl

unfoldable chain :
    Chain
      (stored_block scan_digit some blocks)
      ids
      zeros
      (states_of no_fields)
      2
      id_b
      (states_of rows_2)
unfolding equal string_equal get
chain =
    link {from = states_of rows_1} (block_of id_a delta_2) id_a (item delta_2 no_items) refl load_b
      refl refl (carry delta_2-HasDelta nothing)
      (link (block_of zeros delta_1) zeros (item delta_1 no_items) refl load_a refl refl
        (carry delta_1-HasDelta nothing) (at_end refl))

-- Twenty bytes stand in for SHA-1.
abbrev digest_of : Bytes → Bytes
digest_of message = length message % 256 ∷ codes "a digest of a text."

diff-Chain_example :
    (patch block : Json ℕ) × (payload : Items ℕ) × (diff ◌==◌ print_digit scan_digit some digest_of
        work_dir blocks
        (ok config)
        1
        6
        6
        4
        (codes "0")
      ≡ ok (with_digest digest_of (json_compose print_digit patch false)))
    × (object_get_array patch blocks_key ≡ ok (item block no_items))
    × (object_get_string patch lastknown_key ≡ ok id_b)
    × (block_get_payload block ≡ ok payload)
    × Carries (states_of no_fields) (states_of rows_2) ids payload
unfolding chain size
diff-Chain_example =
    diff-Chain ◌==◌ print_digit scan_digit some digest_of config ids (states_of no_fields)
      (refl, tt) merges work_dir blocks 1 6 6 4 (codes "0") zeros id_b (states_of rows_2) chain
      genisis_found at_head (omega arith) (omega arith)

verified-with_digest_example :
    verified digest_of (with_digest digest_of (codes "{\"version\": 1}"))
    ≡ ok (codes "{\"version\": 1}")
verified-with_digest_example =
    verified-with_digest digest_of (λ message. refl) (codes "{\"version\": 1}")

verified-message_digest_example :
    (codes "{}" ≡ codes "{}")
    × (message_digest digest_of (codes "{}") ≡ message_digest digest_of (codes "{}"))
unfolding verified message_digest bytes_to_hex hex_digit starts_with strncmp_equal
verified-message_digest_example =
    verified-message_digest digest_of (λ message. refl) (message_digest digest_of (codes "{}"))
      (codes "{}") (codes "{}") refl refl

abbrev short_chain : Instance
short_chain = record config { chain_length = 1 }

abbrev before_purge : WorkDir
before_purge = record { heads = work_dir; blocks = blocks; snapshots = [] }

purge-keeps_example :
    (after : Files) × (purge scan_digit some short_chain before_purge
      ≡ (record before_purge { blocks = after }, ok tt))
    × ((id : Bytes)
        → read_file after id
          ≡ (if is_xdigit id && not (listed (id_b ∷ []) id) then none else read_file blocks id))
unfolding read_file equal get
purge-keeps_example =
    purge-keeps scan_digit some short_chain before_purge id_b (id_b ∷ []) at_head
      (a_block refl load_b refl enough)
