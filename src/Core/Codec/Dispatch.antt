-- ===== src/Core/Codec/Dispatch.antt =====
-- A message that the codec has written is read back by the codec of the same tier
-- (core/codec.py, NpsFrameCodec).
use nps_sdk_python.Prelude.{
  ℕ, ◌+◌, ◌≡◌, refl, ap, ◌∙◌, ◌<◌, ◌≤◌, false, true, List, [], ◌∷◌, ◌++◌, Result, ok, err, arith,
  take, drop, length, Option, bind-eq-ok, Result-cases, length-append, ◌≢◌, reject_if-eq-ok, inl,
  inr, ltb, if◌then◌else◌, not, ◌||◌,
}
use mathlib.Core.List.{append_assoc}
use nps_sdk_python.Core.Frames.{
  FrameHeader, HeaderError, EncodingTier, json, msgpack, binary_vector, is_extended, parse,
  to_bytes, header_size, tier_code, is_final, is_encrypted, encoding_tier,
}
use nps_sdk_python.Core.Frames.RoundTrip.{parse-to_bytes}
use nps_sdk_python.Core.Codec.{
  FrameOps, nps_codec_error, lift, build_flags, chosen_tier, header_for, encode, decode,
}

-- Exactly the payload is cut out of a message.
take-drop_middle {ℓ} :
    {A : Type ℓ} (xs ys zs : List A) → take (length ys) (drop (length xs) ((xs ++ ys) ++ zs)) ≡ ys
take-drop_middle [] [] zs = refl
take-drop_middle [] (y ∷ ys) zs = ap (λ r. y ∷ r) (take-drop_middle [] ys zs)
take-drop_middle (x ∷ xs) ys zs = take-drop_middle xs ys zs

length-to_bytes :
    (h : FrameHeader) (bytes : List ℕ) → to_bytes h ≡ ok bytes → length bytes ≡ header_size h
unfolding to_bytes header_size
length-to_bytes h bytes e = ground arith

module _ {Frame : Type 0} (ops : FrameOps Frame) (frame : Frame) (tier : EncodingTier)
    (payload : List ℕ) where
  payload_length-header_for : (header_for ops frame tier payload).payload_length ≡ length payload
  unfolding header_for
  payload_length-header_for = refl

  frame_type-header_for : (header_for ops frame tier payload).frame_type ≡ ops.frame_type frame
  unfolding header_for
  frame_type-header_for = refl

  encoding_tier-header_for : encoding_tier (header_for ops frame tier payload) ≡ ok tier
  unfolding encoding_tier header_for build_flags tier_code
  encoding_tier-header_for =
      elim tier as (λ t. encoding_tier (header_for ops frame t payload) ≡ ok t) [
        | json ↦ ground arith
        | msgpack ↦ ground arith
        | binary_vector ↦ ground arith
      ]

  build_flags-lt : build_flags ops frame tier < 128
  unfolding build_flags tier_code
  build_flags-lt = elim tier as (λ t. build_flags ops frame t < 128) [
    | json ↦ ground arith
    | msgpack ↦ ground arith
    | binary_vector ↦ ground arith
  ]

  to_bytes-header_for_total :
      (e : HeaderError)
      → length payload ≤ 0xFFFF_FFFF
      → to_bytes (header_for ops frame tier payload) ≢ err e
  unfolding to_bytes header_for
  to_bytes-header_for_total e small h = ground (arith, build_flags-lt)

  header_size-header_for :
      header_size (header_for ops frame tier payload)
      ≡ (if ltb 0xFFFF (length payload) then 8 else 4)
  unfolding header_size header_for build_flags tier_code
  header_size-header_for =
      elim tier
        as (λ t.
          header_size (header_for ops frame t payload)
          ≡ (if ltb 0xFFFF (length payload) then 8 else 4)) [
            | json ↦ ground arith
            | msgpack ↦ ground arith
            | binary_vector ↦ ground arith
          ]

  -- The flags that `encode` writes: FINAL for all but an inner chunk of a stream, EXT exactly for
  -- a payload above 64 KiB, and never ENC.
  pub header_for_flags :
      (is_final (header_for ops frame tier payload)
        ≡ (not (ops.is_stream frame) || ops.is_last frame))
      × (is_extended (header_for ops frame tier payload) ≡ ltb 0xFFFF (length payload))
      × (is_encrypted (header_for ops frame tier payload) ≡ false)
  unfolding header_for build_flags is_final is_extended is_encrypted tier_code
  header_for_flags = ground arith

lift-eq-ok : {A : Type 0} (r : Result HeaderError A) {a : A} → lift r ≡ ok a → r ≡ ok a
lift-eq-ok (ok b) h = cc
lift-eq-ok (err e) h = cc

-- What `encode` returns is the header for the payload of the chosen tier, then the payload.
pub record IsMessage {Frame : Type 0} (ops : FrameOps Frame) (limit : ℕ) (frame : Frame)
    (tier : EncodingTier) (wire : List ℕ) : Type 0 where
  pub header : List ℕ
  pub payload : List ℕ
  encoded : ops.tier_encode tier frame ≡ ok payload
  packed : to_bytes (header_for ops frame tier payload) ≡ ok header
  pub whole : header ++ payload ≡ wire
  pub within : length payload ≤ limit

reject_if_false : (limit n : ℕ) → n ≤ limit → ltb limit n ≡ false
reject_if_false limit n h = ground arith

reject_if_true : (limit n : ℕ) → limit < n → ltb limit n ≡ true
reject_if_true limit n h = ground arith

within-limit : (limit n : ℕ) → ltb limit n ≡ false → n ≤ limit
within-limit limit n h = ground arith

module _ {Frame : Type 0} (ops : FrameOps Frame) where
  encode-IsMessage :
      (limit : ℕ) (frame : Frame) (override : Option EncodingTier) (wire : List ℕ)
      → encode ops limit frame override ≡ ok wire
      → IsMessage ops limit frame (chosen_tier ops frame override) wire
  unfolding encode
  encode-IsMessage limit frame override wire h =
      let (payload, encoded, h₁) =
        bind-eq-ok (ops.tier_encode (chosen_tier ops frame override) frame) _ h in
      let (fits, h₂) = reject_if-eq-ok _ _ _ h₁ in
      let (header, lifted, h₃) = bind-eq-ok _ _ h₂ in
      record {
        header = header;
        payload = payload;
        encoded = encoded;
        packed = lift-eq-ok _ lifted;
        whole = cc;
        within = within-limit limit (length payload) fits;
      }

  -- Decoding a message, with anything behind it, hands exactly the payload that was encoded to the
  -- decoder of the same tier, under the frame's own type.
  decode-IsMessage :
      (limit : ℕ) (frame : Frame) (tier : EncodingTier) (wire rest : List ℕ)
      (m : IsMessage ops limit frame tier wire)
      → decode ops (wire ++ rest) ≡ ops.tier_decode tier (ops.frame_type frame) m.payload
  unfolding decode header_size
  decode-IsMessage limit frame tier wire rest m =
      let h = header_for ops frame tier m.payload in
      let parsed : parse (wire ++ rest) ≡ ok h =
        rw (← m.whole, append_assoc) (parse-to_bytes h m.header (m.payload ++ rest) m.packed).1 in
      let cut : take (length m.payload) (drop (header_size h) (wire ++ rest)) ≡ m.payload =
        rw (← m.whole, ← length-to_bytes h m.header m.packed)
          (take-drop_middle m.header m.payload rest) in
      rw
        (
          parsed,
          encoding_tier-header_for ops frame tier m.payload,
          payload_length-header_for,
          frame_type-header_for,
          cut,
        )
        refl

  -- Of an encoded frame, with any bytes behind it, `decode` hands to the decoder of the chosen tier
  -- exactly the payload that the encoder of that tier has written, under the frame's type; the payload
  -- is within the limit.
  pub decode-encode :
      (limit : ℕ) (frame : Frame) (override : Option EncodingTier) (wire rest : List ℕ)
      → encode ops limit frame override ≡ ok wire
      → let tier = chosen_tier ops frame override in
        (payload : List ℕ) × (ops.tier_encode tier frame ≡ ok payload)
        × (length payload ≤ limit)
        × (decode ops (wire ++ rest) ≡ ops.tier_decode tier (ops.frame_type frame) payload)
  decode-encode limit frame override wire rest e =
      let m = encode-IsMessage limit frame override wire e in
      (m.payload, m.encoded, m.within, decode-IsMessage limit frame _ wire rest m)

  -- For a limit of at most 0xFFFF_FFFF and a payload that the tier codec has written: within the
  -- limit, `encode` returns a message, of the payload's length and the header's (8 bytes for a payload
  -- above 0xFFFF, else 4); above the limit, it raises NpsCodecError.
  pub encode_within :
      (limit : ℕ) (frame : Frame) (override : Option EncodingTier) (payload : List ℕ)
      → ops.tier_encode (chosen_tier ops frame override) frame ≡ ok payload
      → limit ≤ 0xFFFF_FFFF
      → (length payload ≤ limit
          → (wire : List ℕ) × (encode ops limit frame override ≡ ok wire)
            × (length wire ≡ (if ltb 0xFFFF (length payload) then 8 else 4) + length payload))
        × (limit < length payload → encode ops limit frame override ≡ err nps_codec_error)
  unfolding encode
  encode_within limit frame override payload e small = (
    λ fits.
        elim (Result-cases
          (to_bytes (header_for ops frame (chosen_tier ops frame override) payload))) [
            | inl (header, packed) ↦ (
              header ++ payload,
              rw (e, reject_if_false limit (length payload) fits, packed) refl,
              length-append header payload
                  ∙ ap (λ (n : ℕ). n + length payload)
                      (length-to_bytes _ header packed
                        ∙ header_size-header_for ops frame _ payload),
            )
            | inr (x, failed) ↦
                absurd (to_bytes-header_for_total ops frame _ payload x (omega arith) failed)
          ],
    λ over. rw (e, reject_if_true limit (length payload) over) refl,
  )
