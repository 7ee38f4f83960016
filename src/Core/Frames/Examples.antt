-- ===== src/Core/Frames/Examples.antt =====
-- Headers of core/frames.py written out as bytes.
use nps_sdk_python.Prelude.{All, ℕ, ◌≡◌, refl, ok, List, [], ◌∷◌, ◌++◌, take, arith}
use nps_sdk_python.Core.Frames.{
  FrameHeader, query, parse, to_bytes, type_code, frame_type_of, header_size,
}
use nps_sdk_python.Core.Frames.RoundTrip.{IsByte, parse-to_bytes, to_bytes-parse}

abbrev query_header : FrameHeader
query_header = record { frame_type = query; flags = 0x84; payload_length = 70000 }

abbrev query_bytes : List ℕ
query_bytes = 0x10 ∷ 0x84 ∷ 0 ∷ 0 ∷ 0 ∷ 1 ∷ 0x11 ∷ 0x70 ∷ []

parse-to_bytes_example : All IsByte query_bytes × (parse (query_bytes ++ 7 ∷ []) ≡ ok query_header)
unfolding to_bytes type_code
parse-to_bytes_example = parse-to_bytes query_header query_bytes (7 ∷ []) refl

to_bytes-parse_example : to_bytes query_header ≡ ok (take (header_size query_header) query_bytes)
unfolding parse frame_type_of type_code
to_bytes-parse_example =
    to_bytes-parse query_bytes query_header (ground arith) (λ _. (refl, refl)) refl
