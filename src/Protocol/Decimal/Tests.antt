-- ===== src/Protocol/Decimal/Tests.antt =====
-- decimal.ts at one price and one identifier.
use exaint.Base.{◌≡◌, arith, ok}
use exaint.Base.Int.{negsuc}
use exaint.Protocol.Decimal.{
  Text, format_decimal, parse_decimal, parse_identifier, format_identifier,
}
use exaint.Protocol.Decimal.RoundTrip.{parse-format, parse-format_identifier}

parse-format_example :
    (s : Text) × (format_decimal (negsuc 1200) 4 ≡ ok s) × (parse_decimal s 4 ≡ ok (negsuc 1200))
parse-format_example = parse-format (negsuc 1200) 4 (omega arith)

parse-format_identifier_example : parse_identifier (format_identifier 1070) ≡ ok 1070
parse-format_identifier_example = parse-format_identifier 1070
