-- ===== src/Core/Codec/Examples.antt =====
-- The dispatcher of core/codec.py over a codec that writes a frame as its one byte, and a payload of
-- the binary-vector codec.
use nps_sdk_python.Prelude.{
  length, ◌≤◌, Option, some, true, arith, ℕ, ◌≡◌, refl, false, none, Result, ok, err, List, [], ◌∷◌,
  ◌++◌,
}
use nps_sdk_python.Core.Frames.{to_bytes, type_code, tier_code, json, query, is_extended}
use nps_sdk_python.Core.Codec.{
  FrameOps, CodecError, nps_codec_error, encode, decode, header_for, build_flags,
}
use nps_sdk_python.Core.Codec.Vector.{
  Packing, pack_values, pack_vectors, encode_payload, decode_payload,
}
use nps_sdk_python.Core.Codec.VectorRoundTrip.{decode-encode_payload}
use nps_sdk_python.Core.Codec.Dispatch.{decode-encode}

abbrev read_byte : List ℕ → Result CodecError ℕ
read_byte (b ∷ []) = ok b
read_byte _ = err nps_codec_error

abbrev byte_ops : FrameOps ℕ
byte_ops = record {
  frame_type = λ _. query;
  preferred_tier = λ _. json;
  is_stream = λ _. false;
  is_last = λ _. false;
  tier_encode = λ _ b. ok (b ∷ []);
  tier_decode = λ _ _ bytes. read_byte bytes;
}

decode-encode_example :
    (payload : List ℕ) × (byte_ops.tier_encode json 42 ≡ ok payload)
    × (length payload ≤ 100)
    × (decode byte_ops ((0x10 ∷ 0x04 ∷ 0 ∷ 1 ∷ 42 ∷ []) ++ 9 ∷ [])
        ≡ byte_ops.tier_decode json query payload)
unfolding encode header_for build_flags to_bytes is_extended type_code tier_code
decode-encode_example =
    decode-encode byte_ops 100 42 none (0x10 ∷ 0x04 ∷ 0 ∷ 1 ∷ 42 ∷ []) (9 ∷ []) refl

abbrev read_metadata : List ℕ → Option ℕ
read_metadata (b ∷ []) = some b
read_metadata _ = none

-- Metadata of one byte, and values that are their own first byte.
abbrev byte_packing : Packing ℕ ℕ
byte_packing = record {
  packb = λ d. some (d ∷ []);
  unpackb = read_metadata;
  is_dict = λ d. true;
  pack_float = λ x. some (record { b0 = x; b1 = 0; b2 = 0; b3 = 0 });
  unpack_float = λ f. f.b0;
}

byte_packing_lem :
    (d : ℕ) (bytes : List ℕ)
    → byte_packing.packb d ≡ some bytes
    → byte_packing.unpackb bytes ≡ some d
byte_packing_lem d bytes h = ground (arith, h)

abbrev vector_payload : List ℕ
vector_payload =
    0x4E ∷ 0x50 ∷ 0x42 ∷ 0x56 ∷ 1 ∷ 0 ∷ 0 ∷ 1 ∷ 0 ∷ 0 ∷ 0 ∷ 1 ∷ 0 ∷ 0 ∷ 0 ∷ 0 ∷ 42 ∷ 0 ∷ 0 ∷ 0 ∷ 1
    ∷ 7 ∷ 0 ∷ 0 ∷ 0 ∷ []

decode-encode_payload_example : decode_payload byte_packing vector_payload ≡ ok (42, (7 ∷ []) ∷ [])
unfolding encode_payload pack_vectors pack_values
decode-encode_payload_example =
    decode-encode_payload byte_packing byte_packing_lem 42 ((7 ∷ []) ∷ []) vector_payload refl
