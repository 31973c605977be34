-- ===== src/Lattice/Tests.antt =====
-- A frame with two levels, and what the theorem gives there.
use joan.Base.{ℕ, ◌≡◌, refl, List, [], ◌∷◌, ◌++◌, ok, err}
use joan.Base.Lists.{replicate}
use joan.Base.Words.{checked_add}
use joan.Lattice.Frame.{
  FrameParts, encode, decode, payload_len, encode_lengths, level_map, read_u32, read_lengths,
  read_levels, non_canonical_level_map,
}
use joan.Lattice.RoundTrip.{decode-encode}
use joan.Lattice.Canonicity.{encode-decode}

abbrev digest : List ℕ
digest = replicate 32 7

abbrev parts : FrameParts
parts = record {
  schema_digest = digest;
  intent_digest = digest;
  flags = 1;
  levels = [] ∷ (5 ∷ 6 ∷ []) ∷ [] ∷ [] ∷ [] ∷ (9 ∷ []) ∷ [];
}

abbrev lengths_part : List ℕ
lengths_part = replicate 7 0 ++ (2 ∷ replicate 15 0 ++ (1 ∷ []))

abbrev frame_with : ℕ → List ℕ
frame_with map =
    b'J'
    ∷ b'N'
    ∷ b'L'
    ∷ b'0'
    ∷ 0
    ∷ 1
    ∷ 0
    ∷ map
    ∷ (digest ++ (digest ++ (lengths_part ++ (5 ∷ 6 ∷ 9 ∷ []))))

encodes : encode parts ≡ ok (frame_with 34)
unfolding encode payload_len encode_lengths level_map checked_add
encodes = refl

-- The bit of an empty level is refused.
map_refused : decode (frame_with 35) ≡ err non_canonical_level_map
unfolding decode read_lengths read_u32 level_map checked_add
map_refused = refl

decode-encode_example :
    decode (frame_with 34)
    ≡ ok (record {
      flags = 1;
      schema_digest = digest;
      intent_digest = digest;
      levels = [] ∷ (5 ∷ 6 ∷ []) ∷ [] ∷ [] ∷ [] ∷ (9 ∷ []) ∷ [];
    })
decode-encode_example =
    decode-encode digest digest [] (5 ∷ 6 ∷ []) [] [] [] (9 ∷ []) 1 refl refl encodes

decodes :
    decode (frame_with 34)
    ≡ ok (record {
      flags = 1;
      schema_digest = digest;
      intent_digest = digest;
      levels = [] ∷ (5 ∷ 6 ∷ []) ∷ [] ∷ [] ∷ [] ∷ (9 ∷ []) ∷ [];
    })
unfolding decode read_lengths read_u32 read_levels level_map checked_add
decodes = refl

encode-decode_example : encode parts ≡ ok (frame_with 34)
encode-decode_example = encode-decode (frame_with 34) refl decodes
