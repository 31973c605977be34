-- ===== src/Lattice/Unread.antt =====
-- What the steps of `decode` say of the bytes that they read.
use mathlib.Core.List.{append_assoc}
use joan.Base.{
  ℕ, zero, suc, ◌+◌, ◌*◌, ◌/◌, ◌%◌, ◌^◌, ◌<◌, ◌≤◌, ◌≡◌, refl, sym, ap, subst, ◌∙◌, Bool, true, List,
  [], ◌∷◌, ◌++◌, some, ok, ok_or, ltb, arith, >>=-eq-ok, ok_inj, ok_or-eq-ok,
}
use joan.Base.Lists.{length, all}
use joan.Base.Words.{checked_add, checked_add-eq-some}
use joan.Lattice.Frame.{
  be_bytes_u32, lengths_of, concat, take, drop, slice, byte_at, read_u32, read_lengths, read_levels,
  bytes_beq,
}

abbrev pub is_byte : ℕ → Bool
is_byte n = ltb n 256

all-cons : (x : ℕ) (xs : List ℕ) → all is_byte (x ∷ xs) ≡ true → (x < 256) × (all is_byte xs ≡ true)
all-cons x xs h = ground arith

pub byte_at-eq-ok :
    (xs : List ℕ) (i j : ℕ) {b : ℕ}
    → all is_byte xs ≡ true
    → j ≡ i + 1
    → byte_at i xs ≡ ok b
    → (b < 256) × (drop i xs ≡ b ∷ drop j xs)
byte_at-eq-ok [] i j bytes e h = absurd cc
byte_at-eq-ok (x ∷ xs) zero j {b} bytes e h =
    let same : x ≡ b = cc in
    (
      omega (arith, same, (all-cons x xs bytes).0),
      ap (λ y. y ∷ xs) same ∙ ap (λ k. b ∷ drop k (x ∷ xs)) (sym e),
    )
byte_at-eq-ok (x ∷ xs) (suc i) zero bytes e h = absurd (omega (arith, e))
byte_at-eq-ok (x ∷ xs) (suc i) (suc j) bytes e h =
    byte_at-eq-ok xs i j (all-cons x xs bytes).1 (omega (arith, e)) h

pub drop-length : (xs : List ℕ) → drop (length xs) xs ≡ []
drop-length [] = refl
drop-length (x ∷ xs) = drop-length xs

pub take-drop : (n : ℕ) (xs : List ℕ) → xs ≡ take n xs ++ drop n xs
take-drop zero xs = refl
take-drop (suc n) [] = refl
take-drop (suc n) (x ∷ xs) = ap (λ r. x ∷ r) (take-drop n xs)

drop-drop : (m n k : ℕ) (xs : List ℕ) → k ≡ m + n → drop n (drop m xs) ≡ drop k xs
drop-drop zero n k xs h = ap (λ i. drop i xs) (omega (arith, h))
drop-drop (suc m) zero zero [] h = refl
drop-drop (suc m) zero (suc k) [] h = refl
drop-drop (suc m) (suc n) zero [] h = refl
drop-drop (suc m) (suc n) (suc k) [] h = refl
drop-drop (suc m) n zero (x ∷ xs) h = absurd (omega (arith, h))
drop-drop (suc m) n (suc k) (x ∷ xs) h = drop-drop m n k xs (omega (arith, h))

length-take : (n : ℕ) (xs : List ℕ) → n ≤ length xs → length (take n xs) ≡ n
length-take zero xs h = refl
length-take (suc n) [] h = absurd (omega arith)
length-take (suc n) (x ∷ xs) h = ap suc (length-take n xs (omega arith))

length-drop : (n : ℕ) (xs : List ℕ) → n ≤ length xs → length (drop n xs) + n ≡ length xs
length-drop zero xs h = omega arith
length-drop (suc n) [] h = absurd (omega arith)
length-drop (suc n) (x ∷ xs) h = omega (arith, length-drop n xs (omega arith))

slice-inside :
    (start count : ℕ) (xs : List ℕ) {ys : List ℕ}
    → slice start count xs ≡ some ys
    → (start + count ≤ length xs) × (take count (drop start xs) ≡ ys)
slice-inside start count xs h = ground arith

pub slice-eq-some :
    (start count : ℕ) (xs : List ℕ) {ys : List ℕ}
    → slice start count xs ≡ some ys
    → (length ys ≡ count) × (drop start xs ≡ ys ++ drop (start + count) xs)
slice-eq-some start count xs h =
    let (inside, taken) = slice-inside start count xs h in
    (
      rw (sym taken)
          (length-take count (drop start xs) (omega (arith, length-drop start xs (omega arith)))),
      take-drop count (drop start xs) ∙ rw (taken, drop-drop start count _ xs refl) refl,
    )

beq-cons :
    (x y : ℕ) (xs ys : List ℕ)
    → bytes_beq (x ∷ xs) (y ∷ ys) ≡ true
    → (x ≡ y) × (bytes_beq xs ys ≡ true)
beq-cons x y xs ys h = ground arith

pub bytes_beq-eq : (xs ys : List ℕ) → bytes_beq xs ys ≡ true → xs ≡ ys
bytes_beq-eq [] [] h = refl
bytes_beq-eq [] (y ∷ ys) h = absurd cc
bytes_beq-eq (x ∷ xs) [] h = absurd cc
bytes_beq-eq (x ∷ xs) (y ∷ ys) h =
    let (same, rest) = beq-cons x y xs ys h in
    ap (λ z. z ∷ xs) same ∙ ap (λ zs. y ∷ zs) (bytes_beq-eq xs ys rest)

join_bytes :
    (a b c d : ℕ)
    → a < 256
    → b < 256
    → c < 256
    → d < 256
    → be_bytes_u32 (a * 2 ^ 24 + b * 2 ^ 16 + c * 2 ^ 8 + d) ≡ a ∷ b ∷ c ∷ d ∷ []
join_bytes a b c d ha hb hc hd =
    let n = a * 2 ^ 24 + b * 2 ^ 16 + c * 2 ^ 8 + d in
    let ea : (n / 2 ^ 24) % 256 ≡ a = omega arith in
    let eb : (n / 2 ^ 16) % 256 ≡ b = omega arith in
    let ec : (n / 2 ^ 8) % 256 ≡ c = omega arith in
    let ed : n % 256 ≡ d = omega arith in rw (ea, eb, ec, ed) refl

read_u32-eq-ok :
    (xs : List ℕ) (o : ℕ) {n : ℕ}
    → all is_byte xs ≡ true
    → read_u32 o xs ≡ ok n
    → (n < 2 ^ 32) × (drop o xs ≡ be_bytes_u32 n ++ drop (o + 4) xs)
unfolding read_u32
read_u32-eq-ok xs o {n} bytes h =
    let (a, e1, k1) = >>=-eq-ok (byte_at o xs) _ h in
    let (b, e2, k2) = >>=-eq-ok (byte_at (o + 1) xs) _ k1 in
    let (c, e3, k3) = >>=-eq-ok (byte_at (o + 2) xs) _ k2 in
    let (d, e4, k4) = >>=-eq-ok (byte_at (o + 3) xs) _ k3 in
    let (ha, ra) = byte_at-eq-ok xs o (o + 1) bytes refl e1 in
    let (hb, rb) = byte_at-eq-ok xs (o + 1) (o + 2) bytes (omega arith) e2 in
    let (hc, rc) = byte_at-eq-ok xs (o + 2) (o + 3) bytes (omega arith) e3 in
    let (hd, rd) = byte_at-eq-ok xs (o + 3) (o + 4) bytes (omega arith) e4 in
    (
      omega (arith, ok_inj k4, ha, hb, hc, hd),
      ra
          ∙ ap (λ r. a ∷ r) (rb ∙ ap (λ r. b ∷ r) (rc ∙ ap (λ r. c ∷ r) rd))
          ∙ sym (
              ap (λ bs. bs ++ drop (o + 4) xs)
                (ap be_bytes_u32 (sym (ok_inj k4)) ∙ join_bytes a b c d ha hb hc hd)),
    )

-- The bytes of a table of lengths.
abbrev pub table : List ℕ → List ℕ
table [] = []
table (n ∷ ns) = be_bytes_u32 n ++ table ns

abbrev pub sum_of : List ℕ → ℕ
sum_of [] = 0
sum_of (n ∷ ns) = n + sum_of ns

-- What `read_lengths` gives of so many lengths: each below 2 ^ 32, and their sum after the one given.
pub record Table (xs : List ℕ) (levels o sum : ℕ) (lengths : List ℕ) (spent : ℕ) : Type 0 where
  pub counted : length lengths ≡ levels
  pub small : all (λ n. ltb n (2 ^ 32)) lengths ≡ true
  pub summed : spent ≡ sum + sum_of lengths
  pub read : drop o xs ≡ table lengths ++ drop (o + 4 * levels) xs

all_small-cons :
    (n : ℕ) (ns : List ℕ)
    → n < 2 ^ 32
    → all (λ n. ltb n (2 ^ 32)) ns ≡ true
    → all (λ n. ltb n (2 ^ 32)) (n ∷ ns) ≡ true
all_small-cons n ns h k = ground arith

pub read_lengths-Table :
    (xs : List ℕ) (levels o sum : ℕ) {lengths : List ℕ} {spent : ℕ}
    → all is_byte xs ≡ true
    → read_lengths levels o sum xs ≡ ok (lengths, spent)
    → Table xs levels o sum lengths spent
unfolding read_lengths
read_lengths-Table xs zero o sum {lengths} {spent} bytes h =
    let none_read : [] ≡ lengths = ap (λ p. p.0) (ok_inj h) in
    let nothing : sum ≡ spent = ap (λ p. p.1) (ok_inj h) in
    subst (λ ns. Table xs zero o sum ns spent) none_read
      (record {
        counted = refl;
        small = refl;
        summed = omega (arith, nothing);
        read = ap (λ k. drop k xs) (omega arith);
      })
read_lengths-Table xs (suc levels) o sum {lengths} {spent} bytes h =
    let (n, e1, k1) = >>=-eq-ok (read_u32 o xs) _ h in
    let (s, e2, k2) = >>=-eq-ok (ok_or (checked_add sum n) _) _ k1 in
    let (p, e3, k3) = >>=-eq-ok (read_lengths levels (o + 4) s xs) _ k2 in
    let (bound, first) = read_u32-eq-ok xs o bytes e1 in
    let more = read_lengths-Table xs levels (o + 4) s bytes e3 in
    let shape : (n ∷ p.0) ≡ lengths = ap (λ q. q.0) (ok_inj k3) in
    let last : p.1 ≡ spent = ap (λ q. q.1) (ok_inj k3) in
    subst (λ ns. Table xs (suc levels) o sum ns spent) shape
      (record {
        counted = ap suc more.counted;
        small = all_small-cons n p.0 bound more.small;
        summed =
            omega (arith, last, more.summed, (checked_add-eq-some sum n (ok_or-eq-ok _ _ e2)).0);
        read =
            first
            ∙ ap (λ r. be_bytes_u32 n ++ r)
                (more.read ∙ ap (λ k. table p.0 ++ drop k xs) (omega arith));
      })

pub read_levels-eq-ok :
    (xs ns : List ℕ) (o : ℕ) {levels : List (List ℕ)}
    → read_levels o ns xs ≡ ok levels
    → (lengths_of levels ≡ ns) × (drop o xs ≡ concat levels ++ drop (o + sum_of ns) xs)
unfolding read_levels
read_levels-eq-ok xs [] o h =
    subst (λ ls. (lengths_of ls ≡ []) × (drop o xs ≡ concat ls ++ drop (o + 0) xs)) (ok_inj h)
      (refl, ap (λ k. drop k xs) (omega arith))
read_levels-eq-ok xs (n ∷ ns) o {levels} h =
    let (end, e1, k1) = >>=-eq-ok (ok_or (checked_add o n) _) _ h in
    let (level, e2, k2) = >>=-eq-ok (ok_or (slice o n xs) _) _ k1 in
    let (more, e3, k3) = >>=-eq-ok (read_levels end ns xs) _ k2 in
    let ended = (checked_add-eq-some o n (ok_or-eq-ok _ _ e1)).0 in
    let (long, first) = slice-eq-some o n xs (ok_or-eq-ok _ _ e2) in
    let (lengths, rest) = read_levels-eq-ok xs ns end e3 in
    subst
      (λ ls. (lengths_of ls ≡ n ∷ ns) × (drop o xs ≡ concat ls ++ drop (o + sum_of (n ∷ ns)) xs))
      (ok_inj k3)
      (
        ap (λ m. m ∷ lengths_of more) long ∙ ap (λ ms. n ∷ ms) lengths,
        first
            ∙ ap (λ r. level ++ r)
                (ap (λ k. drop k xs) (sym ended)
                  ∙ rest
                  ∙ ap (λ k. concat more ++ drop k xs) (omega (arith, ended)))
            ∙ sym (append_assoc level (concat more) (drop (o + sum_of (n ∷ ns)) xs)),
      )
