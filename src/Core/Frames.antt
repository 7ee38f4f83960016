-- ===== src/Core/Frames.antt =====
-- nps_sdk/core/frames.py: frame types, encoding tiers, the flags byte and the frame header.
-- A byte string is a list of numbers below 256. `buf[i]` and `struct.unpack_from` are read off
-- after the length test that guards them; the exceptions are the values of `HeaderError`.
mod Examples
pub mod RoundTrip
use nps_sdk_python.Prelude.{
  ℕ, ◌+◌, ◌*◌, ◌/◌, ◌%◌, ◌^◌, Bool, true, false, Option, none, some, List, [], ◌∷◌, Result, ok, err,
  ◌>>=◌, ltb, ◌==◌, if◌then◌else◌, length,
}

pub data FrameType : Type 0 where
  anchor diff stream caps align hello : FrameType
  query action : FrameType
  ident trust revoke : FrameType
  announce resolve graph : FrameType
  task delegate sync align_stream : FrameType
  error : FrameType

pub data EncodingTier : Type 0 where
  json msgpack binary_vector : EncodingTier

pub data HeaderError : Type 0 where
  nps_frame_error : HeaderError  -- NpsFrameError
  value_error : HeaderError  -- ValueError of an enumeration's constructor
  struct_error : HeaderError  -- struct.error of `struct.pack`

-- `int(frame_type)`
unfoldable pub type_code : FrameType → ℕ
type_code anchor = 0x01
type_code diff = 0x02
type_code stream = 0x03
type_code caps = 0x04
type_code align = 0x05
type_code hello = 0x06
type_code query = 0x10
type_code action = 0x11
type_code ident = 0x20
type_code trust = 0x21
type_code revoke = 0x22
type_code announce = 0x30
type_code resolve = 0x31
type_code graph = 0x32
type_code task = 0x40
type_code delegate = 0x41
type_code sync = 0x42
type_code align_stream = 0x43
type_code error = 0xFE

find_type : ℕ → List FrameType → Option FrameType
find_type n [] = none
find_type n (t ∷ ts) = if type_code t == n then some t else find_type n ts

abbrev all_types : List FrameType
all_types =
    anchor ∷ diff ∷ stream ∷ caps ∷ align ∷ hello ∷ query ∷ action ∷ ident ∷ trust ∷ revoke
    ∷ announce ∷ resolve ∷ graph ∷ task ∷ delegate ∷ sync ∷ align_stream ∷ error ∷ []

-- `FrameType(n)`
pub frame_type_of : ℕ → Result HeaderError FrameType
unfolding find_type
frame_type_of n = elim (find_type n all_types) [ none ↦ err value_error | some t ↦ ok t ]

-- `int(tier)`
unfoldable pub tier_code : EncodingTier → ℕ
tier_code json = 0
tier_code msgpack = 1
tier_code binary_vector = 2

-- `EncodingTier(n)`
pub tier_of : ℕ → Result HeaderError EncodingTier
tier_of n =
    if n == 0
    then ok json
    else if n == 1
    then ok msgpack
    else if n == 2
    then ok binary_vector
    else err value_error

-- `bool(flags & (1 << k))`
abbrev pub test_flag : ℕ → ℕ → Bool
test_flag flags bit = (flags / bit) % 2 == 1

-- `flags | bit`, for a bit that may be set already
abbrev pub set_flag : ℕ → ℕ → ℕ
set_flag flags bit = if test_flag flags bit then flags else flags + bit

abbrev pub flag_final : ℕ
flag_final = 0x04

abbrev flag_encrypted : ℕ
flag_encrypted = 0x08

abbrev pub flag_ext : ℕ
flag_ext = 0x80

abbrev default_header_size : ℕ
default_header_size = 4

abbrev extended_header_size : ℕ
extended_header_size = 8

abbrev pub default_max_payload : ℕ
default_max_payload = 0xFFFF

abbrev pub extended_max_payload : ℕ
extended_max_payload = 0xFFFF_FFFF

pub record FrameHeader : Type 0 where
  pub frame_type : FrameType
  pub flags : ℕ
  pub payload_length : ℕ

unfoldable pub is_extended : FrameHeader → Bool
is_extended h = test_flag h.flags flag_ext

unfoldable pub header_size : FrameHeader → ℕ
unfolding is_extended
header_size h = if is_extended h then extended_header_size else default_header_size

unfoldable pub encoding_tier : FrameHeader → Result HeaderError EncodingTier
unfolding tier_of
encoding_tier h = tier_of (h.flags % 4)

unfoldable pub is_final : FrameHeader → Bool
is_final h = test_flag h.flags flag_final

unfoldable pub is_encrypted : FrameHeader → Bool
is_encrypted h = test_flag h.flags flag_encrypted

-- the big-endian readings of `struct.unpack_from`
abbrev pub read_u16 : ℕ → ℕ → ℕ
read_u16 a b = a * 256 + b

abbrev pub read_u32 : ℕ → ℕ → ℕ → ℕ → ℕ
read_u32 a b c d = ((a * 256 + b) * 256 + c) * 256 + d

abbrev build : ℕ → ℕ → ℕ → Result HeaderError FrameHeader
build code flags len = do
  t ← frame_type_of code
  ok (record { frame_type = t; flags = flags; payload_length = len })

parse_extended : List ℕ → Result HeaderError FrameHeader
parse_extended (t ∷ f ∷ _ ∷ _ ∷ a ∷ b ∷ c ∷ d ∷ _) = build t f (read_u32 a b c d)
parse_extended _ = err nps_frame_error

parse_default : List ℕ → Result HeaderError FrameHeader
parse_default (t ∷ f ∷ a ∷ b ∷ _) = build t f (read_u16 a b)
parse_default _ = err nps_frame_error

-- FrameHeader.parse: the tests on `len(buf)` are the patterns
pub parse : List ℕ → Result HeaderError FrameHeader
unfolding parse_extended parse_default
parse (t ∷ f ∷ rest) =
    if test_flag f flag_ext then parse_extended (t ∷ f ∷ rest) else parse_default (t ∷ f ∷ rest)
parse _ = err nps_frame_error

-- `struct.pack` of one unsigned field: it fails where the value does not fit
abbrev pub u16_bytes : ℕ → List ℕ
u16_bytes n = n / 256 ∷ n % 256 ∷ []

abbrev pub u32_bytes : ℕ → List ℕ
u32_bytes n = n / 16777216 ∷ n / 65536 % 256 ∷ n / 256 % 256 ∷ n % 256 ∷ []

-- FrameHeader.to_bytes
unfoldable pub to_bytes : FrameHeader → Result HeaderError (List ℕ)
unfolding is_extended
to_bytes h =
    if ltb 255 h.flags
    then err struct_error
    else if is_extended h
    then (if ltb extended_max_payload h.payload_length
        then err struct_error
        else ok (type_code h.frame_type ∷ h.flags ∷ 0 ∷ 0 ∷ u32_bytes h.payload_length))
    else if ltb default_max_payload h.payload_length
    then err struct_error
    else ok (type_code h.frame_type ∷ h.flags ∷ u16_bytes h.payload_length)
