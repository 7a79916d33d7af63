-- ===== src/Csv/Tests.antt =====
-- Runs of the parser and the composer, and the instances of the theorems.
use leech.Base.{◌≡◌, refl, List, [], ◌∷◌, Bytes, codes, arith, Returns, ok, failed}
use leech.Buffer.{trim_start, trim}
use leech.Csv.Text.{textdata}
use leech.Csv.Parser.{csv_parse_table, csv_parse_field, parse_record, parse_field}
use leech.Csv.Total.{IsTable, csv_parse_table-Returns}
use leech.Csv.TableTrip.{csv_parse_table-csv_compose_table, csv_parse_table-blank_record}
use leech.Csv.Composer.{csv_compose_table, compose_record, compose_field}

abbrev fruits : List (List Bytes)
fruits =
    (codes "id" ∷ codes "na\"me" ∷ [])
    ∷ (codes "1" ∷ codes " a, b " ∷ [])
    ∷ (codes "" ∷ codes "" ∷ [])
    ∷ []

compose-fruits : csv_compose_table fruits ≡ codes "id,\"na\"\"me\"\r\n1,\" a, b \"\r\n,"
unfolding csv_compose_table compose_record compose_field textdata
compose-fruits = refl

parse-fruits : csv_parse_table (codes "id ,  \"na\"\"me\" \r\n1,\" a, b \"\r\n,\r\n") ≡ ok fruits
unfolding csv_parse_table parse_record parse_field trim_start trim textdata
parse-fruits = refl

parse_stray_quote : csv_parse_table (codes "a\"b") ≡ failed
unfolding csv_parse_table parse_record parse_field trim_start trim textdata
parse_stray_quote = refl

parse_unterminated : csv_parse_field (codes "\"ab") ≡ failed
unfolding csv_parse_field trim_start
parse_unterminated = refl

abbrev header : List Bytes
header = codes "id" ∷ codes "na\"me" ∷ []

abbrev people : List (List Bytes)
people = (codes "1" ∷ codes " a, b " ∷ []) ∷ (codes "" ∷ codes "" ∷ []) ∷ []

csv_parse_table-Returns_example : Returns IsTable (csv_parse_table (codes "a,\"b\r\n"))
csv_parse_table-Returns_example = csv_parse_table-Returns (codes "a,\"b\r\n")

csv_parse_table-csv_compose_table_example :
    csv_parse_table (csv_compose_table (header ∷ people)) ≡ ok (header ∷ people)
csv_parse_table-csv_compose_table_example =
    csv_parse_table-csv_compose_table header people (omega arith) refl

csv_parse_table-blank_record_example :
    csv_parse_table
      (csv_compose_table ((codes "id" ∷ []) ∷ (codes "1" ∷ []) ∷ (codes "" ∷ []) ∷ []))
    ≡ ok ((codes "id" ∷ []) ∷ (codes "1" ∷ []) ∷ [])
csv_parse_table-blank_record_example =
    csv_parse_table-blank_record (codes "id" ∷ []) ((codes "1" ∷ []) ∷ []) (omega arith)
