-- ===== src/Core/Codec/Vector.antt =====
-- nps_sdk/core/codec.py, Tier3BinaryVectorCodec: the layout of a payload, the metadata and the vectors
-- behind it. msgpack and the float32 of struct are parameters; where the metadata holds the marker of
-- a vector is left out. Every failure is an NpsCodecError.
use nps_sdk_python.Prelude.{
  ℕ, zero, suc, Bool, true, false, not, ◌&&◌, Option, none, some, List, [], ◌∷◌, ◌++◌, Result, ok,
  err, ◌>>=◌, ◌>>◌, reject_if, ltb, ◌==◌, length, take, drop, if◌then◌else◌,
}
use nps_sdk_python.Core.Frames.{read_u16, read_u32, u16_bytes, u32_bytes, extended_max_payload}
use nps_sdk_python.Core.Codec.{CodecError, nps_codec_error}

-- the four bytes of a float32
pub record Float32 : Type 0 where
  pub b0 : ℕ
  pub b1 : ℕ
  pub b2 : ℕ
  pub b3 : ℕ

-- msgpack.packb and unpackb, `isinstance(metadata, dict)`, and struct's "<f"; a packing is none where
-- the library raises
pub record Packing (D F : Type 0) : Type 0 where
  pub packb : D → Option (List ℕ)
  pub unpackb : List ℕ → Option D
  pub is_dict : D → Bool
  pub pack_float : F → Option Float32
  pub unpack_float : Float32 → F

abbrev pub or_raise : {A : Type 0} → Option A → Result CodecError A
or_raise none = err nps_codec_error
or_raise (some a) = ok a

module _ {D F : Type 0} (packing : Packing D F) where
  -- the values of one vector
  unfoldable pub pack_values : List F → Result CodecError (List ℕ)
  pack_values [] = ok []
  pack_values (x ∷ xs) = do
    f ← or_raise (packing.pack_float x)
    rest ← pack_values xs
    ok (f.b0 ∷ f.b1 ∷ f.b2 ∷ f.b3 ∷ rest)

  -- the loop over the vectors
  unfoldable pub pack_vectors : List (List F) → Result CodecError (List ℕ)
  pack_vectors [] = ok []
  pack_vectors (v ∷ vs) = do
    reject_if (ltb extended_max_payload (length v)) nps_codec_error
    values ← pack_values v
    rest ← pack_vectors vs
    ok (u32_bytes (length v) ++ (values ++ rest))

  -- the prefix: MAGIC, VERSION, a reserved byte, the two counts, four reserved bytes
  abbrev pub prefix : ℕ → ℕ → List ℕ → List ℕ
  prefix count len rest =
      0x4E
      ∷ 0x50
      ∷ 0x42
      ∷ 0x56
      ∷ 1
      ∷ 0
      ∷ (u16_bytes count ++ (u32_bytes len ++ 0 ∷ 0 ∷ 0 ∷ 0 ∷ rest))

  -- encode, behind _extract_vector_search_vector
  unfoldable pub encode_payload : D → List (List F) → Result CodecError (List ℕ)
  encode_payload metadata vectors = do
    reject_if (not (packing.is_dict metadata)) nps_codec_error
    reject_if (ltb 0xFFFF (length vectors)) nps_codec_error
    packed ← or_raise (packing.packb metadata)
    reject_if (ltb extended_max_payload (length packed)) nps_codec_error
    segments ← pack_vectors vectors
    ok (prefix (length vectors) (length packed) (packed ++ segments))

  -- struct.unpack_from(f"<{dim}f"); a segment that is cut short is refused
  unfoldable pub read_values : ℕ → List ℕ → Result CodecError (List F × List ℕ)
  read_values zero bytes = ok ([], bytes)
  read_values (suc dim) (a ∷ b ∷ c ∷ d ∷ bytes) = do
    (xs, rest) ← read_values dim bytes
    ok (packing.unpack_float (record { b0 = a; b1 = b; b2 = c; b3 = d }) ∷ xs, rest)
  read_values (suc dim) bytes = err nps_codec_error

  -- the loop over the vectors
  unfoldable pub read_vectors : ℕ → List ℕ → Result CodecError (List (List F) × List ℕ)
  read_vectors zero bytes = ok ([], bytes)
  read_vectors (suc count) (a ∷ b ∷ c ∷ d ∷ bytes) = do
    (v, bytes) ← read_values (read_u32 a b c d) bytes
    (vs, rest) ← read_vectors count bytes
    ok (v ∷ vs, rest)
  read_vectors (suc count) bytes = err nps_codec_error

  abbrev is_empty_rest : List ℕ → Bool
  is_empty_rest [] = true
  is_empty_rest (b ∷ bytes) = false

  -- _decode_payload behind the prefix
  unfoldable pub decode_body : ℕ → ℕ → List ℕ → Result CodecError (D × List (List F))
  decode_body count len bytes = do
    reject_if (ltb (length bytes) len) nps_codec_error
    metadata ← or_raise (packing.unpackb (take len bytes))
    reject_if (not (packing.is_dict metadata)) nps_codec_error
    (vectors, rest) ← read_vectors count (drop len bytes)
    reject_if (not (is_empty_rest rest)) nps_codec_error
    ok (metadata, vectors)

  -- the fixed fields of the prefix
  abbrev is_prefix : ℕ → ℕ → ℕ → ℕ → ℕ → ℕ → ℕ → Bool
  is_prefix m0 m1 m2 m3 version reserved word =
      (m0 == 0x4E && m1 == 0x50 && m2 == 0x42 && m3 == 0x56)
      && version == 1
      && reserved == 0
      && word == 0

  -- _decode_payload
  unfoldable pub decode_payload : List ℕ → Result CodecError (D × List (List F))
  decode_payload
        (m0 ∷ m1 ∷ m2 ∷ m3 ∷ v ∷ r ∷ c0 ∷ c1 ∷ l0 ∷ l1 ∷ l2 ∷ l3 ∷ w0 ∷ w1 ∷ w2 ∷ w3 ∷ bytes) =
      if is_prefix m0 m1 m2 m3 v r (read_u32 w0 w1 w2 w3)
      then decode_body (read_u16 c0 c1) (read_u32 l0 l1 l2 l3) bytes
      else err nps_codec_error
  decode_payload _ = err nps_codec_error
