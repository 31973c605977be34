-- ===== src/Lattice/Decoded.antt =====
-- What `decode` has read where it gives a frame.
use joan.Base.{
  ℕ, ◌+◌, ◌*◌, ◌/◌, ◌^◌, ◌<◌, ◌≤◌, ◌≡◌, refl, sym, ap, subst, ◌∙◌, Bool, true, false, List, some,
  ok, ok_or, ◌!=◌, not, nat_eq, ltb, arith, >>=-eq-ok, reject_if, reject_if-eq-ok, Result, ◌>>=◌,
  ◌>>◌, ok_inj, ok_or-eq-ok,
}
use joan.Base.Lists.{length}
use joan.Base.Words.{checked_add, checked_add-eq-some}
use joan.Lattice.Frame.{
  header_len, max_frame_len, magic, BorrowedFrame, FrameError, length_mismatch, panicked,
  reserved_bits, non_canonical_level_map, has_unknown_flags, level_map, take, slice, byte_at,
  read_lengths, read_levels, bytes_beq, decode,
}
use joan.Lattice.RoundTrip.{Reads}

ne-eq-false : (a b : ℕ) → (a != b) ≡ false → a ≡ b
ne-eq-false a b h = ground arith

not-eq-false : (b : Bool) → not b ≡ false → b ≡ true
not-eq-false true h = refl
not-eq-false false h = absurd cc

ltb-eq-false : (a b : ℕ) → ltb a b ≡ false → b ≤ a
ltb-eq-false a b h = ground arith

no_high_bits : (n : ℕ) → n / 2 ^ 6 ≡ 0 → n < 64
no_high_bits n h = omega (arith, h)

-- The end of `decode`, after the level map is compared.
abbrev read_parts : List ℕ → ℕ → List ℕ → ℕ → Result BorrowedFrame FrameError
read_parts input flags lengths payload = do
  frame_len ← ok_or (checked_add header_len payload) length_mismatch
  reject_if (frame_len != length input) length_mismatch
  levels ← read_levels header_len lengths input
  schema_digest ← ok_or (slice 8 32 input) panicked
  intent_digest ← ok_or (slice 40 32 input) panicked
  ok (record {
    flags = flags;
    schema_digest = schema_digest;
    intent_digest = intent_digest;
    levels = levels;
  })

read_parts-eq-ok :
    (input lengths : List ℕ) (flags payload : ℕ) {frame : BorrowedFrame}
    → read_parts input flags lengths payload ≡ ok frame
    → (length input ≡ header_len + payload)
      × (flags ≡ frame.flags)
      × (read_levels header_len lengths input ≡ ok frame.levels)
      × (slice 8 32 input ≡ some frame.schema_digest)
      × (slice 40 32 input ≡ some frame.intent_digest)
read_parts-eq-ok input lengths flags payload {frame} h =
    let (size, e1, k1) = >>=-eq-ok (ok_or (checked_add header_len payload) _) _ h in
    let (sized, k2) = reject_if-eq-ok (size != length input) _ _ k1 in
    let (levels, e3, k3) = >>=-eq-ok (read_levels header_len lengths input) _ k2 in
    let (schema, e4, k4) = >>=-eq-ok (ok_or (slice 8 32 input) _) _ k3 in
    let (intent, e5, k5) = >>=-eq-ok (ok_or (slice 40 32 input) _) _ k4 in
    let whole = (checked_add-eq-some header_len payload (ok_or-eq-ok _ _ e1)).0 in
    let same = ok_inj k5 in
    (
      sym (ne-eq-false size (length input) sized) ∙ whole,
      ap (λ f. f.flags) same,
      e3 ∙ ap (λ f. ok f.levels) same,
      ok_or-eq-ok (slice 8 32 input) _ e4 ∙ ap (λ f. some f.schema_digest) same,
      ok_or-eq-ok (slice 40 32 input) _ e5 ∙ ap (λ f. some f.intent_digest) same,
    )

-- The end of `decode`, after the two bytes of the level map.
abbrev read_body : List ℕ → ℕ → ℕ → ℕ → Result BorrowedFrame FrameError
read_body input flags high low = do
  reject_if ((high * 2 ^ 8 + low) / 2 ^ 6 != 0) reserved_bits
  (lengths, payload) ← read_lengths 6 72 0 input
  reject_if (high * 2 ^ 8 + low != level_map 0 lengths) non_canonical_level_map
  read_parts input flags lengths payload

read_body-Reads :
    (input : List ℕ) (flags high low : ℕ) {frame : BorrowedFrame}
    → length input ≤ max_frame_len
    → bytes_beq (take 4 input) magic ≡ true
    → byte_at 4 input ≡ ok 0
    → byte_at 5 input ≡ ok flags
    → has_unknown_flags flags ≡ false
    → byte_at 6 input ≡ ok high
    → byte_at 7 input ≡ ok low
    → read_body input flags high low ≡ ok frame
    → (lengths : List ℕ) × (payload : ℕ) × Reads input lengths payload high low frame
read_body-Reads input flags high low short start version at_5 known at_6 at_7 h =
    let (free, k1) = reject_if-eq-ok ((high * 2 ^ 8 + low) / 2 ^ 6 != 0) _ _ h in
    let (p, e2, k2) = >>=-eq-ok (read_lengths 6 72 0 input) _ k1 in
    let (same, k3) = reject_if-eq-ok (high * 2 ^ 8 + low != level_map 0 p.0) _ _ k2 in
    let (size, flagged, levels, schema, intent) = read_parts-eq-ok input p.0 flags p.1 k3 in
    let map : high * 2 ^ 8 + low ≡ level_map 0 p.0 =
      ne-eq-false (high * 2 ^ 8 + low) (level_map 0 p.0) same in
    (
      p.0,
      p.1,
      record {
        size = size;
        bounded = short;
        start = start;
        version = version;
        flags = at_5 ∙ ap ok flagged;
        known = ap has_unknown_flags (sym flagged) ∙ known;
        map_high = at_6;
        map_low = at_7;
        map = map;
        unreserved =
            subst (λ n. n < 64) map
              (no_high_bits (high * 2 ^ 8 + low)
                (ne-eq-false ((high * 2 ^ 8 + low) / 2 ^ 6) 0 free));
        lengths_read = e2;
        levels_read = levels;
        schema_read = schema;
        intent_read = intent;
      },
    )

pub decode-eq-ok :
    (input : List ℕ) {frame : BorrowedFrame}
    → decode input ≡ ok frame
    → (high : ℕ) × (low : ℕ) × (lengths : List ℕ) × (payload : ℕ) × Reads input lengths payload high
        low frame
unfolding decode
decode-eq-ok input h =
    let (long, k1) = reject_if-eq-ok (ltb (length input) header_len) _ _ h in
    let (short, k2) = reject_if-eq-ok (ltb max_frame_len (length input)) _ _ k1 in
    let (start, k3) = reject_if-eq-ok (not (bytes_beq (take 4 input) magic)) _ _ k2 in
    let (version, e4, k4) = >>=-eq-ok (byte_at 4 input) _ k3 in
    let (zeroed, k5) = reject_if-eq-ok (version != 0) _ _ k4 in
    let (flags, e6, k6) = >>=-eq-ok (byte_at 5 input) _ k5 in
    let (known, k7) = reject_if-eq-ok (has_unknown_flags flags) _ _ k6 in
    let (high, e8, k8) = >>=-eq-ok (byte_at 6 input) _ k7 in
    let (low, e9, k9) = >>=-eq-ok (byte_at 7 input) _ k8 in
    let (lengths, payload, r) =
      read_body-Reads input flags high low (ltb-eq-false max_frame_len (length input) short)
        (not-eq-false (bytes_beq (take 4 input) magic) start)
        (e4 ∙ ap ok (ne-eq-false version 0 zeroed)) e6 known e8 e9 k9 in
    (high, low, lengths, payload, r)
