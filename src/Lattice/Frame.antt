-- ===== src/Lattice/Frame.antt =====
-- `encode` and `decode`. A byte is a number below 256.
use joan.Base.{
  ℕ, zero, suc, ◌+◌, ◌-◌, ◌*◌, ◌/◌, ◌%◌, ◌^◌, Bool, List, [], ◌∷◌, ◌++◌, Option, none, some, Result,
  ok, err, ◌>>=◌, ◌>>◌, reject_if, ok_or, ◌!=◌, ◌==◌, nat_eq, ltb, leb, if◌then◌else◌, not, true,
  false, ◌&&◌,
}
use joan.Base.Lists.{length, get_elem?}
use joan.Base.Words.{checked_add}

abbrev pub header_len : ℕ
header_len = 96

abbrev pub max_frame_len : ℕ
max_frame_len = 16 * 1_024 * 1_024

-- `b"JNL0"`
abbrev pub magic : List ℕ
magic = b'J' ∷ b'N' ∷ b'L' ∷ b'0' ∷ []

-- The arrays of the source: 32 bytes in a digest, six levels.
pub record FrameParts : Type 0 where
  pub schema_digest : List ℕ
  pub intent_digest : List ℕ
  pub flags : ℕ
  pub levels : List (List ℕ)

pub record BorrowedFrame : Type 0 where
  pub flags : ℕ
  pub schema_digest : List ℕ
  pub intent_digest : List ℕ
  pub levels : List (List ℕ)

pub data FrameError : Type 0 where
  truncated_header invalid_magic reserved_bits length_mismatch : FrameError
  non_canonical_level_map panicked : FrameError
  frame_too_large : (actual limit : ℕ) → FrameError
  unsupported_version unsupported_flags : ℕ → FrameError

-- `flags & !KNOWN_FLAGS != 0`, where the lowest bit is known.
abbrev pub has_unknown_flags : ℕ → Bool
has_unknown_flags flags = flags / 2 != 0

-- `u32::try_from(level.len())`
abbrev pub length_u32 : List ℕ → Result ℕ FrameError
length_u32 level =
    if ltb (length level) (2 ^ 32)
    then ok (length level)
    else err (frame_too_large (length level) (2 ^ 32 - 1))

-- `try_fold` over the levels.
unfoldable pub payload_len : ℕ → List (List ℕ) → Result ℕ FrameError
payload_len sum [] = ok sum
payload_len sum (level ∷ levels) = do
  n ← length_u32 level
  sum' ← ok_or (checked_add sum n) length_mismatch
  payload_len sum' levels

-- `to_be_bytes`
abbrev pub be_bytes_u16 : ℕ → List ℕ
be_bytes_u16 n = (n / 2 ^ 8) % 256 ∷ n % 256 ∷ []

abbrev pub be_bytes_u32 : ℕ → List ℕ
be_bytes_u32 n = (n / 2 ^ 24) % 256 ∷ (n / 2 ^ 16) % 256 ∷ (n / 2 ^ 8) % 256 ∷ n % 256 ∷ []

-- `level_map |= 1u16 << index` where the level is not empty. The bits differ, so `|=` adds.
unfoldable pub level_map : ℕ → List ℕ → ℕ
level_map index [] = 0
level_map index (n ∷ lengths) = (if ltb 0 n then 2 ^ index else 0) + level_map (suc index) lengths

abbrev pub lengths_of : List (List ℕ) → List ℕ
lengths_of [] = []
lengths_of (level ∷ levels) = length level ∷ lengths_of levels

unfoldable pub encode_lengths : List (List ℕ) → Result (List ℕ) FrameError
encode_lengths [] = ok []
encode_lengths (level ∷ levels) = do
  n ← length_u32 level
  rest ← encode_lengths levels
  ok (be_bytes_u32 n ++ rest)

abbrev pub concat : List (List ℕ) → List ℕ
concat [] = []
concat (level ∷ levels) = level ++ concat levels

-- The bytes at 6 and 7, written last in the source, stand in their place.
unfoldable pub encode : FrameParts → Result (List ℕ) FrameError
encode parts = do
  reject_if (has_unknown_flags parts.flags) (unsupported_flags parts.flags)
  payload ← payload_len 0 parts.levels
  frame_len ← ok_or (checked_add header_len payload) length_mismatch
  reject_if (ltb max_frame_len frame_len) (frame_too_large frame_len max_frame_len)
  lengths ← encode_lengths parts.levels
  ok (
      magic
      ++ (0
          ∷ parts.flags
          ∷ (be_bytes_u16 (level_map 0 (lengths_of parts.levels))
              ++ (parts.schema_digest
                  ++ (parts.intent_digest ++ (lengths ++ concat parts.levels))))))

abbrev pub take : ℕ → List ℕ → List ℕ
take zero xs = []
take (suc n) [] = []
take (suc n) (x ∷ xs) = x ∷ take n xs

abbrev pub drop : ℕ → List ℕ → List ℕ
drop zero xs = xs
drop (suc n) [] = []
drop (suc n) (x ∷ xs) = drop n xs

-- `input.get(start..start + count)`
abbrev pub slice : ℕ → ℕ → List ℕ → Option (List ℕ)
slice start count input =
    if leb (start + count) (length input) then some (take count (drop start input)) else none

-- `input[index]`
abbrev pub byte_at : ℕ → List ℕ → Result ℕ FrameError
byte_at index input = ok_or (get_elem? input index) panicked

unfoldable pub read_u32 : ℕ → List ℕ → Result ℕ FrameError
read_u32 offset input = do
  a ← byte_at offset input
  b ← byte_at (offset + 1) input
  c ← byte_at (offset + 2) input
  d ← byte_at (offset + 3) input
  ok (a * 2 ^ 24 + b * 2 ^ 16 + c * 2 ^ 8 + d)

-- The loop over the lengths: so many from the offset on, and their sum after the one given.
unfoldable pub read_lengths : ℕ → ℕ → ℕ → List ℕ → Result (List ℕ × ℕ) FrameError
read_lengths zero offset sum input = ok ([], sum)
read_lengths (suc levels) offset sum input = do
  n ← read_u32 offset input
  sum' ← ok_or (checked_add sum n) length_mismatch
  (lengths, total) ← read_lengths levels (offset + 4) sum' input
  ok (n ∷ lengths, total)

unfoldable pub read_levels : ℕ → List ℕ → List ℕ → Result (List (List ℕ)) FrameError
read_levels offset [] input = ok []
read_levels offset (n ∷ lengths) input = do
  end ← ok_or (checked_add offset n) length_mismatch
  level ← ok_or (slice offset n input) length_mismatch
  levels ← read_levels end lengths input
  ok (level ∷ levels)

abbrev pub bytes_beq : List ℕ → List ℕ → Bool
bytes_beq [] [] = true
bytes_beq (a ∷ xs) (b ∷ ys) = a == b && bytes_beq xs ys
bytes_beq _ _ = false

unfoldable pub decode : List ℕ → Result BorrowedFrame FrameError
decode input = do
  reject_if (ltb (length input) header_len) truncated_header
  reject_if (ltb max_frame_len (length input)) (frame_too_large (length input) max_frame_len)
  reject_if (not (bytes_beq (take 4 input) magic)) invalid_magic
  version ← byte_at 4 input
  reject_if (version != 0) (unsupported_version version)
  flags ← byte_at 5 input
  reject_if (has_unknown_flags flags) (unsupported_flags flags)
  high ← byte_at 6 input
  low ← byte_at 7 input
  -- `level_map & !0b00_111111 != 0`
  reject_if ((high * 2 ^ 8 + low) / 2 ^ 6 != 0) reserved_bits
  (lengths, payload) ← read_lengths 6 72 0 input
  reject_if (high * 2 ^ 8 + low != level_map 0 lengths) non_canonical_level_map
  frame_len ← ok_or (checked_add header_len payload) length_mismatch
  reject_if (frame_len != length input) length_mismatch
  levels ← read_levels header_len lengths input
  schema_digest ← ok_or (slice 8 32 input) panicked
  intent_digest ← ok_or (slice 40 32 input) panicked
  ok (record {
    flags = flags;
    schema_digest = schema_digest;
    intent_digest = intent_digest;
    levels = levels;
  })
