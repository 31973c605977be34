-- ===== src/Lattice/RoundTrip.antt =====
-- Decoding an encoded frame.
use mathlib.Core.List.{append_assoc}
use joan.Base.{
  ℕ, zero, suc, ◌+◌, ◌*◌, ◌/◌, ◌%◌, ◌^◌, ◌<◌, ◌≤◌, ◌≡◌, refl, sym, ap, subst, ◌∙◌, true, false,
  List, [], ◌∷◌, ◌++◌, some, ok, ok_or, ◌!=◌, nat_eq, ltb, leb, arith, >>=-eq-ok, reject_if-eq-ok,
  ok_inj, ok_or-eq-ok,
}
use joan.Base.Lists.{length, length-append}
use joan.Base.Words.{checked_add, checked_add-eq-some, checked_add_fits}
use joan.Lattice.Frame.{
  header_len, max_frame_len, magic, BorrowedFrame, has_unknown_flags, length_u32, payload_len,
  be_bytes_u16, be_bytes_u32, level_map, lengths_of, encode_lengths, concat, encode, take, drop,
  slice, byte_at, read_u32, read_lengths, read_levels, bytes_beq, decode,
}

abbrev pub total : List (List ℕ) → ℕ
total [] = 0
total (level ∷ levels) = length level + total levels

length-concat : (levels : List (List ℕ)) → length (concat levels) ≡ total levels
length-concat [] = refl
length-concat (l ∷ levels) = omega (arith, length-append l (concat levels), length-concat levels)

length_u32-eq-ok : (l : List ℕ) {n : ℕ} → length_u32 l ≡ ok n → (n ≡ length l) × (n < 2 ^ 32)
length_u32-eq-ok l h = ground arith

payload_len-total :
    (sum : ℕ) (levels : List (List ℕ)) {p : ℕ}
    → payload_len sum levels ≡ ok p
    → p ≡ sum + total levels
unfolding payload_len
payload_len-total sum [] h = omega (arith, ok_inj h)
payload_len-total sum (l ∷ levels) h =
    let (n, e1, k1) = >>=-eq-ok (length_u32 l) _ h in
    let (s, e2, k2) = >>=-eq-ok (ok_or (checked_add sum n) _) _ k1 in
    omega (
      arith,
      (length_u32-eq-ok l e1).0,
      (checked_add-eq-some sum n (ok_or-eq-ok _ _ e2)).0,
      payload_len-total s levels k2,
    )

byte_at-append :
    (front rest : List ℕ) (i j : ℕ)
    → i ≡ length front + j
    → byte_at i (front ++ rest) ≡ byte_at j rest
byte_at-append [] rest i j h = ap (λ k. byte_at k rest) (omega (arith, h))
byte_at-append (x ∷ front) rest zero j h = absurd (omega arith)
byte_at-append (x ∷ front) rest (suc i) j h = byte_at-append front rest i j (omega arith)

read_u32-be_bytes :
    (front : List ℕ) (n offset : ℕ) (rest : List ℕ)
    → offset ≡ length front
    → n < 2 ^ 32
    → read_u32 offset (front ++ (be_bytes_u32 n ++ rest)) ≡ ok n
unfolding read_u32
read_u32-be_bytes front n offset rest h bound =
    let bytes = be_bytes_u32 n ++ rest in
    rw
      (
        byte_at-append front bytes offset 0 (omega arith),
        byte_at-append front bytes (offset + 1) 1 (omega arith),
        byte_at-append front bytes (offset + 2) 2 (omega arith),
        byte_at-append front bytes (offset + 3) 3 (omega arith),
      )
      (ap ok (omega arith))

read_lengths-encoded :
    (levels : List (List ℕ)) (front : List ℕ) (offset sum : ℕ) (rest : List ℕ) {lengths : List ℕ}
    → encode_lengths levels ≡ ok lengths
    → offset ≡ length front
    → sum + total levels < 2 ^ 64
    → read_lengths (length levels) offset sum (front ++ (lengths ++ rest))
      ≡ ok (lengths_of levels, sum + total levels)
unfolding read_lengths encode_lengths
read_lengths-encoded [] front offset sum rest h o b = ap (λ s. ok ([], s)) (omega arith)
read_lengths-encoded (l ∷ levels) front offset sum rest {lengths} h o b =
    let (n, e1, k1) = >>=-eq-ok (length_u32 l) _ h in
    let (more, e2, k2) = >>=-eq-ok (encode_lengths levels) _ k1 in
    let (counted, bound) = length_u32-eq-ok l e1 in
    let shape : front ++ (lengths ++ rest) ≡ (front ++ be_bytes_u32 n) ++ (more ++ rest) =
      rw (sym (ok_inj k2)) (sym (append_assoc front (be_bytes_u32 n) (more ++ rest))) in
    let first : read_u32 offset (front ++ (lengths ++ rest)) ≡ ok n =
      rw (sym (ok_inj k2)) (read_u32-be_bytes front n offset (more ++ rest) o bound) in
    let after =
      subst
        (λ x.
          read_lengths (length levels) (offset + 4) (sum + n) x
          ≡ ok (lengths_of levels, sum + n + total levels))
        (sym shape)
        (read_lengths-encoded levels (front ++ be_bytes_u32 n) (offset + 4) (sum + n) rest e2
          (omega (arith, length-append front (be_bytes_u32 n))) (omega arith)) in
    rw (first, checked_add_fits sum n (omega arith), after)
      (rw (sym counted) (ap (λ s. ok (n ∷ lengths_of levels, s)) (omega arith)))

take-append : (xs ys : List ℕ) → take (length xs) (xs ++ ys) ≡ xs
take-append [] ys = refl
take-append (x ∷ xs) ys = ap (λ r. x ∷ r) (take-append xs ys)

drop-append : (xs ys : List ℕ) → drop (length xs) (xs ++ ys) ≡ ys
drop-append [] ys = refl
drop-append (x ∷ xs) ys = drop-append xs ys

slice-append :
    (front xs rest : List ℕ) (start count : ℕ)
    → start ≡ length front
    → count ≡ length xs
    → slice start count (front ++ (xs ++ rest)) ≡ some xs
slice-append front xs rest start count h k =
    let inside : leb (start + count) (length (front ++ (xs ++ rest))) ≡ true =
      ground (arith, length-append front (xs ++ rest), length-append xs rest) in
    rw inside (rw (h, k) (rw (drop-append front (xs ++ rest), take-append xs rest) refl))

read_levels-concat :
    (levels : List (List ℕ)) (front : List ℕ) (offset : ℕ)
    → offset ≡ length front
    → offset + total levels < 2 ^ 64
    → read_levels offset (lengths_of levels) (front ++ concat levels) ≡ ok levels
unfolding read_levels
read_levels-concat [] front offset h b = refl
read_levels-concat (l ∷ levels) front offset h b =
    let after =
      subst (λ x. read_levels (offset + length l) (lengths_of levels) x ≡ ok levels)
        (append_assoc front l (concat levels))
        (read_levels-concat levels (front ++ l) (offset + length l)
          (omega (arith, length-append front l)) (omega arith)) in
    rw
      (
        checked_add_fits offset (length l) (omega arith),
        slice-append front l (concat levels) offset (length l) h refl,
        after,
      )
      refl

-- What `decode` reads in an input, in the order in which it reads it.
pub record Reads (input lengths : List ℕ) (payload high low : ℕ) (frame : BorrowedFrame)
    : Type 0 where
  pub size : length input ≡ header_len + payload
  pub bounded : length input ≤ max_frame_len
  pub start : bytes_beq (take 4 input) magic ≡ true
  pub version : byte_at 4 input ≡ ok 0
  pub flags : byte_at 5 input ≡ ok frame.flags
  pub known : has_unknown_flags frame.flags ≡ false
  pub map_high : byte_at 6 input ≡ ok high
  pub map_low : byte_at 7 input ≡ ok low
  pub map : high * 2 ^ 8 + low ≡ level_map 0 lengths
  pub unreserved : level_map 0 lengths < 64
  pub lengths_read : read_lengths 6 72 0 input ≡ ok (lengths, payload)
  pub levels_read : read_levels header_len lengths input ≡ ok frame.levels
  pub schema_read : slice 8 32 input ≡ some frame.schema_digest
  pub intent_read : slice 40 32 input ≡ some frame.intent_digest

decode-Reads :
    (input lengths : List ℕ) (payload high low : ℕ) (frame : BorrowedFrame)
    → Reads input lengths payload high low frame
    → decode input ≡ ok frame
unfolding decode
decode-Reads input lengths payload high low frame r =
    let long : ltb (length input) header_len ≡ false = ground (arith, r.size) in
    let short : ltb max_frame_len (length input) ≡ false = ground (arith, r.bounded) in
    let unreserved : ((high * 2 ^ 8 + low) / 2 ^ 6 != 0) ≡ false =
      ground (arith, r.map, r.unreserved) in
    let same : (high * 2 ^ 8 + low != level_map 0 lengths) ≡ false = ground (arith, r.map) in
    let sized : (header_len + payload != length input) ≡ false = ground (arith, r.size) in
    rw (long, short, r.start, r.version, r.flags, r.known, r.map_high, r.map_low)
      (rw (unreserved, r.lengths_read)
        (rw
          (
            same,
            checked_add_fits header_len payload (omega (arith, r.size, r.bounded)),
            sized,
            r.levels_read,
            r.schema_read,
            r.intent_read,
          )
          refl))

level_map-lt : (a b c d e f : ℕ) → level_map 0 (a ∷ b ∷ c ∷ d ∷ e ∷ f ∷ []) < 64
unfolding level_map
level_map-lt a b c d e f = ground arith

length-encode_lengths :
    (levels : List (List ℕ)) {lengths : List ℕ}
    → encode_lengths levels ≡ ok lengths
    → length lengths ≡ 4 * length levels
unfolding encode_lengths
length-encode_lengths [] h = omega (arith, ap length (ok_inj h))
length-encode_lengths (l ∷ levels) h =
    let (n, e1, k1) = >>=-eq-ok (length_u32 l) _ h in
    let (more, e2, k2) = >>=-eq-ok (encode_lengths levels) _ k1 in
    omega (
      arith,
      ap length (ok_inj k2),
      length-append (be_bytes_u32 n) more,
      length-encode_lengths levels e2,
    )

abbrev head_of : ℕ → ℕ → List ℕ
head_of flags bits = magic ++ (0 ∷ flags ∷ be_bytes_u16 bits)

encoded-Reads :
    (schema intent lengths : List ℕ) (levels : List (List ℕ)) (flags : ℕ)
    → length schema ≡ 32
    → length intent ≡ 32
    → length levels ≡ 6
    → has_unknown_flags flags ≡ false
    → encode_lengths levels ≡ ok lengths
    → header_len + total levels ≤ max_frame_len
    → level_map 0 (lengths_of levels) < 64
    → Reads
        (head_of flags (level_map 0 (lengths_of levels))
          ++ (schema ++ (intent ++ (lengths ++ concat levels))))
        (lengths_of levels)
        (total levels)
        ((level_map 0 (lengths_of levels) / 2 ^ 8) % 256)
        (level_map 0 (lengths_of levels) % 256)
        (record { flags = flags; schema_digest = schema; intent_digest = intent; levels = levels })
encoded-Reads schema intent lengths levels flags hs hi six known encoded bounded small =
    let bits = level_map 0 (lengths_of levels) in
    let head = head_of flags bits in
    let payload = concat levels in
    let rest = lengths ++ payload in
    let counted = length-encode_lengths levels encoded in
    let size : length (head ++ (schema ++ (intent ++ rest))) ≡ header_len + total levels = omega (
      arith,
      length-append schema (intent ++ rest),
      length-append intent rest,
      length-append lengths payload,
      length-concat levels,
      counted,
    ) in
    let lengths_read =
      subst
        (λ n.
          read_lengths n 72 0 ((head ++ (schema ++ intent)) ++ rest)
          ≡ ok (lengths_of levels, total levels))
        six
        (read_lengths-encoded levels (head ++ (schema ++ intent)) 72 0 payload encoded
            (omega (arith, length-append schema intent)) (omega arith)
          ∙ ap (λ s. ok (lengths_of levels, s)) (omega arith)) in
    record {
      size = size;
      bounded = omega (arith, size);
      start = refl;
      version = refl;
      flags = refl;
      known = known;
      map_high = refl;
      map_low = refl;
      map = omega arith;
      unreserved = small;
      lengths_read =
          subst (λ x. read_lengths 6 72 0 (head ++ x) ≡ ok (lengths_of levels, total levels))
            (append_assoc schema intent rest) lengths_read;
      levels_read =
          subst (λ x. read_levels header_len (lengths_of levels) (head ++ x) ≡ ok levels)
            (append_assoc schema (intent ++ lengths) payload
              ∙ ap (λ x. schema ++ x) (append_assoc intent lengths payload))
            (read_levels-concat levels (head ++ (schema ++ (intent ++ lengths))) header_len
              (omega (
                arith,
                length-append schema (intent ++ lengths),
                length-append intent lengths,
                counted,
              ))
              (omega arith));
      schema_read = slice-append head schema (intent ++ rest) 8 32 refl (sym hs);
      intent_read = slice-append (head ++ schema) intent rest 40 32 (omega arith) (sym hi);
    }

-- Where `encode` gives bytes for two digests of 32 bytes and six levels, `decode` gives back from
-- them the flags, the digests and the levels.
pub decode-encode :
    (schema intent a b c d e f : List ℕ) (flags : ℕ) {bytes : List ℕ}
    → length schema ≡ 32
    → length intent ≡ 32
    → encode (record {
      schema_digest = schema;
      intent_digest = intent;
      flags = flags;
      levels = a ∷ b ∷ c ∷ d ∷ e ∷ f ∷ [];
    })
      ≡ ok bytes
    → decode bytes
      ≡ ok (record {
        flags = flags;
        schema_digest = schema;
        intent_digest = intent;
        levels = a ∷ b ∷ c ∷ d ∷ e ∷ f ∷ [];
      })
unfolding encode
decode-encode schema intent a b c d e f flags {bytes} hs hi h =
    let levels : List (List ℕ) = a ∷ b ∷ c ∷ d ∷ e ∷ f ∷ [] in
    let (known, k1) = reject_if-eq-ok (has_unknown_flags flags) _ _ h in
    let (payload, e2, k2) = >>=-eq-ok (payload_len 0 levels) _ k1 in
    let (size, e3, k3) = >>=-eq-ok (ok_or (checked_add header_len payload) _) _ k2 in
    let (bounded, k4) = reject_if-eq-ok (ltb max_frame_len size) _ _ k3 in
    let (lengths, e5, k5) = >>=-eq-ok (encode_lengths levels) _ k4 in
    let spent = payload_len-total 0 levels e2 in
    let sized = (checked_add-eq-some header_len payload (ok_or-eq-ok _ _ e3)).0 in
    let fits : header_len + total levels ≤ max_frame_len = ground (arith, spent, sized) in
    subst
      (λ x.
        decode x
        ≡ ok (record {
          flags = flags;
          schema_digest = schema;
          intent_digest = intent;
          levels = levels;
        }))
      (ok_inj k5)
      (decode-Reads _ (lengths_of levels) (total levels) _ _ _ (
        encoded-Reads schema intent lengths levels flags hs hi refl known e5 fits
          (level_map-lt (length a) (length b) (length c) (length d) (length e) (length f))))
