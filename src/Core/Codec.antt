-- ===== src/Core/Codec.antt =====
-- nps_sdk/core/codec.py, NpsFrameCodec: the dispatcher that puts a header before the payload of
-- one of the three tier codecs. A tier codec is an interface, filled in codec.py by json, msgpack
-- and the binary-vector codec; its `frame_type` and `preferred_tier` come from the frame classes.
mod Examples
pub mod Dispatch
pub mod Vector
pub mod VectorRoundTrip
use nps_sdk_python.Prelude.{
  ℕ, ◌+◌, Bool, true, false, not, ◌||◌, Option, none, some, List, ◌++◌, Result, ok, err, ◌>>=◌,
  ◌>>◌, reject_if, ltb, if◌then◌else◌, length, take, drop,
}
use nps_sdk_python.Core.Frames.{
  FrameType, EncodingTier, json, msgpack, binary_vector, FrameHeader, HeaderError, tier_code,
  set_flag, flag_final, flag_ext, default_max_payload, parse, to_bytes, header_size, encoding_tier,
}

pub data CodecError : Type 0 where
  nps_codec_error : CodecError  -- NpsCodecError
  header_error : HeaderError → CodecError  -- raised by FrameHeader

-- What the dispatcher uses of a frame: `is_stream` is `isinstance(frame, StreamFrame)`, and
-- `is_last` is read for a StreamFrame only.
pub record FrameOps (Frame : Type 0) : Type 0 where
  pub frame_type : Frame → FrameType
  pub preferred_tier : Frame → EncodingTier
  pub is_stream : Frame → Bool
  pub is_last : Frame → Bool
  -- Tier1JsonCodec, Tier2MsgPackCodec and Tier3BinaryVectorCodec
  pub tier_encode : EncodingTier → Frame → Result CodecError (List ℕ)
  pub tier_decode : EncodingTier → FrameType → List ℕ → Result CodecError Frame

abbrev pub lift : {A : Type 0} → Result HeaderError A → Result CodecError A
lift (ok a) = ok a
lift (err e) = err (header_error e)

module _ {Frame : Type 0} (ops : FrameOps Frame) where
  -- NpsFrameCodec._build_flags
  pub build_flags : Frame → EncodingTier → ℕ
  build_flags frame tier =
      if not (ops.is_stream frame) || ops.is_last frame
      then set_flag (tier_code tier) flag_final
      else tier_code tier

  abbrev pub chosen_tier : Frame → Option EncodingTier → EncodingTier
  chosen_tier frame none = ops.preferred_tier frame
  chosen_tier frame (some tier) = tier

  -- the header that `encode` builds for a payload
  pub header_for : Frame → EncodingTier → List ℕ → FrameHeader
  header_for frame tier payload =
      let flags = build_flags frame tier in
      record {
        frame_type = ops.frame_type frame;
        flags = if ltb default_max_payload (length payload) then set_flag flags flag_ext else flags;
        payload_length = length payload;
      }

  -- NpsFrameCodec.encode; every value of `EncodingTier` has a codec, so `_select_codec` returns
  pub encode : ℕ → Frame → Option EncodingTier → Result CodecError (List ℕ)
  encode max_payload frame override_tier = do
    let tier = chosen_tier frame override_tier
    payload ← ops.tier_encode tier frame
    reject_if (ltb max_payload (length payload)) nps_codec_error
    header ← lift (to_bytes (header_for frame tier payload))
    ok (header ++ payload)

  -- NpsFrameCodec.decode; a slice past the end of `wire` is cut short, as in Python
  pub decode : List ℕ → Result CodecError Frame
  decode wire = do
    header ← lift (parse wire)
    let payload = take header.payload_length (drop (header_size header) wire)
    tier ← lift (encoding_tier header)
    ops.tier_decode tier header.frame_type payload
