-- ===== src/Core/Codec/VectorRoundTrip.antt =====
-- nps_sdk/core/codec.py, Tier3BinaryVectorCodec: what is read back from a payload.
use nps_sdk_python.Prelude.{
  Bool, true, false, not, ℕ, suc, ◌/◌, ◌%◌, subst, ◌≡◌, refl, ap, Option, none, some, List, [], ◌∷◌,
  ◌++◌, map, ok, ltb, length, take, drop, arith, bind-eq-ok, reject_if-eq-ok, length-append,
}
use nps_sdk_python.Core.Frames.{read_u16, read_u32, u32_bytes, extended_max_payload}
use nps_sdk_python.Core.Codec.Vector.{
  Packing, Float32, or_raise, pack_values, pack_vectors, prefix, encode_payload, read_values,
  read_vectors, decode_body, decode_payload,
}
use mathlib.Core.List.{append_assoc}

or_raise-eq-ok : {A : Type 0} (o : Option A) {a : A} → or_raise o ≡ ok a → o ≡ some a
or_raise-eq-ok none h = cc
or_raise-eq-ok (some a) h = cc

not_lem : (b : Bool) → not b ≡ false → b ≡ true
not_lem true h = refl
not_lem false h = cc

u32_lem :
    (n : ℕ)
    → ltb extended_max_payload n ≡ false
    → read_u32 (n / 16777216) (n / 65536 % 256) (n / 256 % 256) (n % 256) ≡ n
u32_lem n h = ground (arith, h)

u16_lem : (n : ℕ) → ltb 0xFFFF n ≡ false → read_u16 (n / 256) (n % 256) ≡ n
u16_lem n h = ground (arith, h)

take-append : (xs ys : List ℕ) → take (length xs) (xs ++ ys) ≡ xs
take-append [] ys = refl
take-append (x ∷ xs) ys = ap (λ r. x ∷ r) (take-append xs ys)

drop-append : (xs ys : List ℕ) → drop (length xs) (xs ++ ys) ≡ ys
drop-append [] ys = refl
drop-append (x ∷ xs) ys = drop-append xs ys

append_nil : (xs : List ℕ) → xs ++ [] ≡ xs
append_nil [] = refl
append_nil (x ∷ xs) = ap (λ r. x ∷ r) (append_nil xs)

module _ {D F : Type 0} (packing : Packing D F) where
  -- A value as float32 keeps it.
  abbrev pub rounded : F → F
  rounded x = elim (packing.pack_float x) [ none ↦ x | some f ↦ packing.unpack_float f ]

  values_step :
      (x : F) (xs : List F) (f : Float32) (more rest : List ℕ)
      → packing.pack_float x ≡ some f
      → read_values packing (length xs) (more ++ rest) ≡ ok (map rounded xs, rest)
      → read_values packing (suc (length xs)) (f.b0 ∷ f.b1 ∷ f.b2 ∷ f.b3 ∷ (more ++ rest))
        ≡ ok (map rounded (x ∷ xs), rest)
  unfolding read_values
  values_step x xs f more rest packed ih = rw (read_values, ih, rounded, packed) refl

  read-pack_values :
      (xs : List F) (bytes rest : List ℕ)
      → pack_values packing xs ≡ ok bytes
      → read_values packing (length xs) (bytes ++ rest) ≡ ok (map rounded xs, rest)
  unfolding pack_values read_values
  read-pack_values [] bytes rest h =
      let e : [] ≡ bytes = cc in
      subst (λ bs. read_values packing 0 (bs ++ rest) ≡ ok ([], rest)) e refl
  read-pack_values (x ∷ xs) bytes rest h =
      let (f, packed, h₁) = bind-eq-ok (or_raise (packing.pack_float x)) _ h in
      let (more, others, h₂) = bind-eq-ok (pack_values packing xs) _ h₁ in
      let e : f.b0 ∷ f.b1 ∷ f.b2 ∷ f.b3 ∷ more ≡ bytes = cc in
      subst
        (λ bs. read_values packing (suc (length xs)) (bs ++ rest) ≡ ok (map rounded (x ∷ xs), rest))
        e
        (values_step x xs f more rest (or_raise-eq-ok _ packed)
          (read-pack_values xs more rest others))

  vectors_step :
      (v : List F) (vs : List (List F)) (values more rest : List ℕ)
      → ltb extended_max_payload (length v) ≡ false
      → read_values packing (length v) (values ++ (more ++ rest)) ≡ ok (map rounded v, more ++ rest)
      → read_vectors packing (length vs) (more ++ rest) ≡ ok (map (map rounded) vs, rest)
      → read_vectors packing (suc (length vs)) ((u32_bytes (length v) ++ (values ++ more)) ++ rest)
        ≡ ok (map (map rounded) (v ∷ vs), rest)
  unfolding read_vectors
  vectors_step v vs values more rest small first others =
      rw (read_vectors, u32_lem (length v) small, append_assoc, first, others) refl

  read-pack_vectors :
      (vs : List (List F)) (bytes rest : List ℕ)
      → pack_vectors packing vs ≡ ok bytes
      → read_vectors packing (length vs) (bytes ++ rest) ≡ ok (map (map rounded) vs, rest)
  unfolding pack_vectors read_vectors
  read-pack_vectors [] bytes rest h =
      let e : [] ≡ bytes = cc in
      subst (λ bs. read_vectors packing 0 (bs ++ rest) ≡ ok ([], rest)) e refl
  read-pack_vectors (v ∷ vs) bytes rest h =
      let (small, h₁) = reject_if-eq-ok _ _ _ h in
      let (values, packed, h₂) = bind-eq-ok (pack_values packing v) _ h₁ in
      let (more, others, h₃) = bind-eq-ok (pack_vectors packing vs) _ h₂ in
      let e : u32_bytes (length v) ++ (values ++ more) ≡ bytes = cc in
      subst
        (λ bs.
          read_vectors packing (suc (length vs)) (bs ++ rest)
          ≡ ok (map (map rounded) (v ∷ vs), rest))
        e
        (vectors_step v vs values more rest small (read-pack_values v values (more ++ rest) packed)
          (read-pack_vectors vs more rest others))

  body_lem :
      (metadata : D) (vectors : List (List F)) (packed segments : List ℕ)
      → packing.unpackb packed ≡ some metadata
      → packing.is_dict metadata ≡ true
      → read_vectors packing (length vectors) segments ≡ ok (map (map rounded) vectors, [])
      → decode_body packing (length vectors) (length packed) (packed ++ segments)
        ≡ ok (metadata, map (map rounded) vectors)
  unfolding decode_body
  body_lem metadata vectors packed segments read dict segs =
      let long : ltb (length (packed ++ segments)) (length packed) ≡ false =
        ground (arith, length-append packed segments) in
      rw (long, take-append packed segments, drop-append packed segments, read, dict, segs) refl

  payload_lem :
      (metadata : D) (vectors : List (List F)) (packed segments : List ℕ)
      → ltb 0xFFFF (length vectors) ≡ false
      → ltb extended_max_payload (length packed) ≡ false
      → decode_body packing (length vectors) (length packed) (packed ++ segments)
        ≡ ok (metadata, map (map rounded) vectors)
      → decode_payload packing
          (prefix packing (length vectors) (length packed) (packed ++ segments))
        ≡ ok (metadata, map (map rounded) vectors)
  unfolding decode_payload
  payload_lem metadata vectors packed segments few short body =
      rw (u16_lem (length vectors) few, u32_lem (length packed) short) body

  -- What `encode` has written, _decode_payload reads back: the metadata, and the vectors with every
  -- value as float32 keeps it. Of msgpack it is asked that unpackb reads what packb writes.
  pub decode-encode_payload :
      ((metadata : D) (bytes : List ℕ)
        → packing.packb metadata ≡ some bytes
        → packing.unpackb bytes ≡ some metadata)
      → (metadata : D) (vectors : List (List F)) (bytes : List ℕ)
      → encode_payload packing metadata vectors ≡ ok bytes
      → decode_payload packing bytes ≡ ok (metadata, map (map rounded) vectors)
  unfolding encode_payload decode_payload
  decode-encode_payload unpacks metadata vectors bytes h =
      let (dict, h₁) = reject_if-eq-ok (not (packing.is_dict metadata)) _ _ h in
      let (few, h₂) = reject_if-eq-ok _ _ _ h₁ in
      let (packed, written, h₃) = bind-eq-ok (or_raise (packing.packb metadata)) _ h₂ in
      let (short, h₄) = reject_if-eq-ok _ _ _ h₃ in
      let (segments, made, h₅) = bind-eq-ok (pack_vectors packing vectors) _ h₄ in
      let is : packing.is_dict metadata ≡ true = not_lem (packing.is_dict metadata) dict in
      let e : prefix packing (length vectors) (length packed) (packed ++ segments) ≡ bytes = cc in
      subst (λ bs. decode_payload packing bs ≡ ok (metadata, map (map rounded) vectors)) e
        (payload_lem metadata vectors packed segments few short (
          body_lem metadata vectors packed segments
            (unpacks metadata packed (or_raise-eq-ok _ written)) is
            (subst
              (λ bs. read_vectors packing (length vectors) bs ≡ ok (map (map rounded) vectors, []))
              (append_nil segments) (read-pack_vectors vectors segments [] made))))
