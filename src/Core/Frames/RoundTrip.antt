-- ===== src/Core/Frames/RoundTrip.antt =====
-- Serialising a header and reading it back, in both directions (core/frames.py).
use nps_sdk_python.Prelude.{
  ℕ, ◌≡◌, refl, ◌<◌, false, true, List, [], ◌∷◌, ◌++◌, ok, err, arith, take, length, All, ◌↔◌, none,
  some,
}
use nps_sdk_python.Core.Frames.{
  FrameType, FrameHeader, nps_frame_error, EncodingTier, frame_type_of, find_type, all_types,
  type_code, parse, to_bytes, header_size, tier_of, tier_code, anchor, test_flag, flag_ext,
}

frame_type_of-type_code : (t : FrameType) → frame_type_of (type_code t) ≡ ok t
unfolding frame_type_of type_code
frame_type_of-type_code anchor = refl
frame_type_of-type_code _ = refl

type_code-lt : (t : FrameType) → type_code t < 256
unfolding type_code
type_code-lt anchor = omega arith
type_code-lt _ = omega arith

type_code-find_type :
    (n : ℕ) (ts : List FrameType) (t : FrameType) → find_type n ts ≡ some t → type_code t ≡ n
unfolding find_type
type_code-find_type n [] t h = ground arith
type_code-find_type n (u ∷ ts) t h = ground (arith, type_code-find_type n ts t)

type_code-frame_type_of : (n : ℕ) (t : FrameType) → frame_type_of n ≡ ok t → type_code t ≡ n
unfolding frame_type_of
type_code-frame_type_of n t h =
    elim (find_type n all_types) as (λ o. o ≡ find_type n all_types → type_code t ≡ n) [
      | none ↦ λ e. ground (arith, e)
      | some u ↦ λ e. ground (arith, e, type_code-find_type n all_types u)
    ]
      refl

frame_type_of-ne-frame_error : (n : ℕ) → frame_type_of n ≡ err nps_frame_error → ⊥
unfolding frame_type_of
frame_type_of-ne-frame_error n h = ground arith

tier_of-tier_code : (t : EncodingTier) → tier_of (tier_code t) ≡ ok t
unfolding tier_of tier_code
tier_of-tier_code EncodingTier.json = refl
tier_of-tier_code _ = refl

abbrev pub IsByte : ℕ → Type 0
IsByte n = n < 256

to_bytes-IsByte : (h : FrameHeader) (bytes : List ℕ) → to_bytes h ≡ ok bytes → All IsByte bytes
unfolding to_bytes
to_bytes-IsByte h bytes e = ground (arith, type_code-lt h.frame_type)

-- A serialised header consists of bytes and, with anything behind it, parses to the same header.
pub parse-to_bytes :
    (h : FrameHeader) (bytes rest : List ℕ)
    → to_bytes h ≡ ok bytes
    → All IsByte bytes × (parse (bytes ++ rest) ≡ ok h)
unfolding parse to_bytes
parse-to_bytes h bytes rest e =
    (to_bytes-IsByte h bytes e, ground (arith, frame_type_of-type_code h.frame_type))

-- Bytes 2 and 3 of an extended header are reserved and must be 0.
abbrev ReservedClear : List ℕ → Type 0
ReservedClear (t ∷ f ∷ a ∷ b ∷ _) = test_flag f flag_ext ≡ true → (a ≡ 0) × (b ≡ 0)
ReservedClear _ = Unit

-- A header that was read from bytes whose reserved field is clear is written back as those bytes.
pub to_bytes-parse :
    (bytes : List ℕ) (h : FrameHeader)
    → All IsByte bytes
    → ReservedClear bytes
    → parse bytes ≡ ok h
    → to_bytes h ≡ ok (take (header_size h) bytes)
unfolding parse to_bytes header_size
to_bytes-parse (t ∷ f ∷ a ∷ b ∷ c ∷ d ∷ x ∷ y ∷ rest) h small clear e =
    ground (arith, type_code-frame_type_of t h.frame_type)
to_bytes-parse (t ∷ f ∷ a ∷ b ∷ rest) h small clear e =
    ground (arith, type_code-frame_type_of t h.frame_type)
to_bytes-parse bytes h small clear e = ground arith

-- How many bytes `parse` asks for.
abbrev pub bytes_needed : List ℕ → ℕ
bytes_needed (t ∷ f ∷ _) = elim (test_flag f flag_ext) [ true ↦ 8 | false ↦ 4 ]
bytes_needed _ = 2

-- `parse` raises NpsFrameError exactly when the buffer is too short for the header it announces.
pub parse-short_iff :
    (bytes : List ℕ) → (parse bytes ≡ err nps_frame_error) ↔ (length bytes < bytes_needed bytes)
unfolding parse
parse-short_iff (t ∷ f ∷ a ∷ b ∷ c ∷ d ∷ x ∷ y ∷ rest) =
    ground (arith, frame_type_of-ne-frame_error t)
parse-short_iff (t ∷ f ∷ a ∷ b ∷ rest) = ground (arith, frame_type_of-ne-frame_error t)
parse-short_iff bytes = ground (arith)
