-- ===== src/Lattice/Canonicity.antt =====
-- Encoding a decoded frame.
use joan.Base.{
  ℕ, ◌+◌, ◌*◌, ◌/◌, ◌%◌, ◌^◌, ◌<◌, ◌≤◌, ◌≡◌, refl, sym, ap, ◌∙◌, true, false, List, [], ◌∷◌, ◌++◌,
  ok, nat_eq, ltb, arith,
}
use joan.Base.Lists.{length, all}
use joan.Base.Words.{checked_add_fits}
use joan.Lattice.Frame.{
  header_len, max_frame_len, magic, BorrowedFrame, length_u32, payload_len, be_bytes_u16, level_map,
  lengths_of, encode_lengths, concat, encode, take, drop, decode,
}
use joan.Lattice.Decoded.{decode-eq-ok}
use joan.Lattice.RoundTrip.{total, Reads}
use joan.Lattice.Unread.{
  is_byte, byte_at-eq-ok, drop-length, take-drop, slice-eq-some, bytes_beq-eq, table, sum_of,
  read_lengths-Table, read_levels-eq-ok,
}

total-sum_of : (levels : List (List ℕ)) → total levels ≡ sum_of (lengths_of levels)
total-sum_of [] = refl
total-sum_of (l ∷ levels) = omega (arith, total-sum_of levels)

small-cons :
    (n : ℕ) (ns : List ℕ)
    → all (λ m. ltb m (2 ^ 32)) (n ∷ ns) ≡ true
    → (n < 2 ^ 32) × (all (λ m. ltb m (2 ^ 32)) ns ≡ true)
small-cons n ns h = ground arith

length_u32_fits : (l : List ℕ) → length l < 2 ^ 32 → length_u32 l ≡ ok (length l)
length_u32_fits l h = ground arith

payload_len_fits :
    (sum : ℕ) (levels : List (List ℕ))
    → all (λ n. ltb n (2 ^ 32)) (lengths_of levels) ≡ true
    → sum + total levels < 2 ^ 64
    → payload_len sum levels ≡ ok (sum + total levels)
unfolding payload_len
payload_len_fits sum [] small bound = ap ok (omega arith)
payload_len_fits sum (l ∷ levels) small bound =
    let (first, rest) = small-cons (length l) (lengths_of levels) small in
    rw (length_u32_fits l first, checked_add_fits sum (length l) (omega arith))
      (payload_len_fits (sum + length l) levels rest (omega arith) ∙ ap ok (omega arith))

encode_lengths-table :
    (levels : List (List ℕ))
    → all (λ n. ltb n (2 ^ 32)) (lengths_of levels) ≡ true
    → encode_lengths levels ≡ ok (table (lengths_of levels))
unfolding encode_lengths
encode_lengths-table [] small = refl
encode_lengths-table (l ∷ levels) small =
    let (first, rest) = small-cons (length l) (lengths_of levels) small in
    rw (length_u32_fits l first, encode_lengths-table levels rest) refl

split_map :
    (high low : ℕ) → high < 256 → low < 256 → be_bytes_u16 (high * 2 ^ 8 + low) ≡ high ∷ low ∷ []
split_map high low hh hl =
    let n = high * 2 ^ 8 + low in
    let eh : (n / 2 ^ 8) % 256 ≡ high = omega arith in
    let el : n % 256 ≡ low = omega arith in rw (eh, el) refl

append_nothing : (xs : List ℕ) → xs ++ [] ≡ xs
append_nothing [] = refl
append_nothing (x ∷ xs) = ap (λ r. x ∷ r) (append_nothing xs)

-- The bytes of a frame in their order, for an input of which `decode` reads it.
parts-Reads :
    (input lengths : List ℕ) (payload high low : ℕ) (frame : BorrowedFrame)
    → all is_byte input ≡ true
    → Reads input lengths payload high low frame
    → magic
        ++ (0
            ∷ frame.flags
            ∷ (high
                ∷ low
                ∷ (frame.schema_digest
                    ++ (frame.intent_digest ++ (table lengths ++ concat frame.levels)))))
      ≡ input
parts-Reads input lengths payload high low frame bytes r =
    let lengths_read = read_lengths-Table input 6 72 0 bytes r.lengths_read in
    let past : drop (header_len + sum_of lengths) input ≡ [] =
      ap (λ k. drop k input) (omega (arith, r.size, lengths_read.summed)) ∙ drop-length input in
    let levels : drop header_len input ≡ concat frame.levels =
      (read_levels-eq-ok input lengths header_len r.levels_read).1
      ∙ ap (λ rest. concat frame.levels ++ rest) past
      ∙ append_nothing (concat frame.levels) in
    let low_on : drop 7 input ≡ low ∷ drop 8 input =
      (byte_at-eq-ok input 7 8 bytes refl r.map_low).1 in
    let high_on : drop 6 input ≡ high ∷ drop 7 input =
      (byte_at-eq-ok input 6 7 bytes refl r.map_high).1 in
    let flags_on : drop 5 input ≡ frame.flags ∷ drop 6 input =
      (byte_at-eq-ok input 5 6 bytes refl r.flags).1 in
    let zero_on : drop 4 input ≡ 0 ∷ drop 5 input =
      (byte_at-eq-ok input 4 5 bytes refl r.version).1 in
    let from_72 = ap (λ x. table lengths ++ x) (sym levels) ∙ sym lengths_read.read in
    let from_40 =
      ap (λ x. frame.intent_digest ++ x) from_72
      ∙ sym (slice-eq-some 40 32 input r.intent_read).1 in
    let from_8 =
      ap (λ x. frame.schema_digest ++ x) from_40 ∙ sym (slice-eq-some 8 32 input r.schema_read).1 in
    let from_6 = ap (λ x. high ∷ low ∷ x) from_8 ∙ ap (λ x. high ∷ x) (sym low_on) ∙ sym high_on in
    let from_4 =
      ap (λ x. 0 ∷ frame.flags ∷ x) from_6 ∙ ap (λ x. 0 ∷ x) (sym flags_on) ∙ sym zero_on in
    ap (λ x. magic ++ x) from_4
    ∙ ap (λ x. x ++ drop 4 input) (sym (bytes_beq-eq (take 4 input) magic r.start))
    ∙ sym (take-drop 4 input)

fits_lem :
    (n payload sum : ℕ)
    → n ≡ header_len + payload
    → n ≤ max_frame_len
    → payload ≡ sum
    → ltb max_frame_len (header_len + sum) ≡ false
fits_lem n payload sum size bounded spent = ground arith

-- Bytes that `decode` reads as a frame are those that `encode` gives for its flags, its digests
-- and its levels: a frame has one encoding.
pub encode-decode :
    (input : List ℕ) {frame : BorrowedFrame}
    → all is_byte input ≡ true
    → decode input ≡ ok frame
    → encode (record {
      schema_digest = frame.schema_digest;
      intent_digest = frame.intent_digest;
      flags = frame.flags;
      levels = frame.levels;
    })
      ≡ ok input
unfolding encode
encode-decode input {frame} bytes h =
    let (high, low, lengths, payload, r) = decode-eq-ok input h in
    let read = read_lengths-Table input 6 72 0 bytes r.lengths_read in
    let same : lengths_of frame.levels ≡ lengths =
      (read_levels-eq-ok input lengths header_len r.levels_read).0 in
    let small : all (λ n. ltb n (2 ^ 32)) (lengths_of frame.levels) ≡ true =
      ap (λ ns. all (λ n. ltb n (2 ^ 32)) ns) same ∙ read.small in
    let spent : payload ≡ total frame.levels =
      omega (arith, read.summed, total-sum_of frame.levels, ap sum_of same) in
    let counted : payload_len 0 frame.levels ≡ ok (total frame.levels) =
      payload_len_fits 0 frame.levels small (omega (arith, r.size, r.bounded, spent))
      ∙ ap ok (omega arith) in
    let fits : ltb max_frame_len (header_len + total frame.levels) ≡ false =
      fits_lem (length input) payload (total frame.levels) r.size r.bounded spent in
    let map : be_bytes_u16 (level_map 0 (lengths_of frame.levels)) ≡ high ∷ low ∷ [] =
      ap (λ ns. be_bytes_u16 (level_map 0 ns)) same
      ∙ ap be_bytes_u16 (sym r.map)
      ∙ split_map high low (byte_at-eq-ok input 6 7 bytes refl r.map_high).0
          (byte_at-eq-ok input 7 8 bytes refl r.map_low).0 in
    let from_8 : List ℕ → List ℕ =
      λ ns. frame.schema_digest ++ (frame.intent_digest ++ (table ns ++ concat frame.levels)) in
    rw
      (
        r.known,
        counted,
        checked_add_fits header_len (total frame.levels) (omega (arith, r.size, r.bounded, spent)),
        fits,
        encode_lengths-table frame.levels small,
      )
      (ap ok (
        ap (λ m. magic ++ (0 ∷ frame.flags ∷ (m ++ from_8 (lengths_of frame.levels)))) map
        ∙ ap (λ ns. magic ++ (0 ∷ frame.flags ∷ high ∷ low ∷ from_8 ns)) same
        ∙ parts-Reads input lengths payload high low frame bytes r))
