-- ===== src/Base/Texts.antt =====
-- What the program asks of a `str`: the order of its bytes, its bytes, and whether it is blank.
use Prim.Native.Nat.{ℕ, Ordering, compare as compare_ℕ}
use Prim.Native.Char.{code}
use Prim.Native.String.{String, compare, then}
use Prim.Native.String.compare
use mathlib.Core.Path.{◌≡◌, sym, ◌∙◌}
use mathlib.Core.Bool.{Bool, true, false, ◌&&◌, ◌||◌}
use native.Mathlib.Omega.{arith}
use text.Mathlib.TextEquality.{path_by_compare}
use text.Mathlib.TextPositions.{compare_refl}
use joan.Base.Tests.{leb, nat_beq}

-- Unicode's White_Space, which `char::is_whitespace` tests.
unfoldable pub is_whitespace : ℕ → Bool
is_whitespace c =
    (leb 9 c && leb c 13)
    || nat_beq c 0x20
    || nat_beq c 0x85
    || nat_beq c 0xa0
    || nat_beq c 0x1680
    || (leb 0x2000 c && leb c 0x200a)
    || nat_beq c 0x2028
    || nat_beq c 0x2029
    || nat_beq c 0x202f
    || nat_beq c 0x205f
    || nat_beq c 0x3000

-- `s.trim().is_empty()`: nothing but white space.
unfoldable pub is_blank : String → Bool
unfolding is_whitespace
is_blank String.[] = true
is_blank (String.◌∷◌ c s) = is_whitespace (code c) && is_blank s

-- `s.is_empty()`
abbrev pub is_empty : String → Bool
is_empty String.[] = true
is_empty (String.◌∷◌ c s) = false

-- The order by code points is the order of the UTF-8 bytes, which `Ord for str` compares.
abbrev pub IsLess : String → String → Type 0
IsLess s t = compare s t ≡ Ordering.lt

pub compare-eq : (s t : String) → compare s t ≡ Ordering.eq → s ≡ t
compare-eq = path_by_compare

pub IsLess-irrefl : (s : String) → ¬ IsLess s s
IsLess-irrefl s h = cc (compare_refl s)

then_trans :
    (a b c : ℕ) (o p q : Ordering)
    → (o ≡ Ordering.lt → p ≡ Ordering.lt → q ≡ Ordering.lt)
    → then (compare_ℕ a b) o ≡ Ordering.lt
    → then (compare_ℕ b c) p ≡ Ordering.lt
    → then (compare_ℕ a c) q ≡ Ordering.lt
then_trans a b c o p q ih h k = ground arith

pub IsLess-trans : (s t u : String) → IsLess s t → IsLess t u → IsLess s u
IsLess-trans s String.[] String.[] h k = absurd (IsLess-irrefl String.[] k)
IsLess-trans String.[] t (String.◌∷◌ e u) h k = compare.nil-cons e u
IsLess-trans (String.◌∷◌ c s) String.[] u h k = cc (compare.cons-nil c s)
IsLess-trans s (String.◌∷◌ d t) String.[] h k = cc (compare.cons-nil d t)
IsLess-trans (String.◌∷◌ c s) (String.◌∷◌ d t) (String.◌∷◌ e u) h k =
    compare.cons-cons c e s u
    ∙ then_trans (code c) (code d) (code e) (compare s t) (compare t u) (compare s u)
        (IsLess-trans s t u) (sym (compare.cons-cons c d s t) ∙ h)
        (sym (compare.cons-cons d e t u) ∙ k)

then_flip :
    (a b : ℕ) (o p : Ordering)
    → (o ≡ Ordering.gt → p ≡ Ordering.lt)
    → then (compare_ℕ a b) o ≡ Ordering.gt
    → then (compare_ℕ b a) p ≡ Ordering.lt
then_flip a b o p ih h = ground arith

pub IsLess-of_gt : (s t : String) → compare s t ≡ Ordering.gt → IsLess t s
IsLess-of_gt String.[] String.[] h = cc compare.nil-nil
IsLess-of_gt String.[] (String.◌∷◌ d t) h = cc (compare.nil-cons d t)
IsLess-of_gt (String.◌∷◌ c s) String.[] h = compare.nil-cons c s
IsLess-of_gt (String.◌∷◌ c s) (String.◌∷◌ d t) h =
    compare.cons-cons d c t s
    ∙ then_flip (code c) (code d) (compare s t) (compare t s) (IsLess-of_gt s t)
        (sym (compare.cons-cons c d s t) ∙ h)

-- The identifiers of JOAN: an ASCII letter or `_`, then any number of these and digits.
abbrev pub is_letter : ℕ → Bool
is_letter c = (leb b'a' c && leb c b'z') || (leb b'A' c && leb c b'Z') || nat_beq c b'_'

abbrev pub is_digit : ℕ → Bool
is_digit c = leb b'0' c && leb c b'9'

abbrev pub is_word : String → Bool
is_word String.[] = true
is_word (String.◌∷◌ c s) = (is_letter (code c) || is_digit (code c)) && is_word s

unfoldable pub is_identifier : String → Bool
is_identifier String.[] = false
is_identifier (String.◌∷◌ c s) = is_letter (code c) && is_word s
