-- ===== src/Compiler/Frames.antt =====
-- Locals and arguments of the types that the verifier computed.
use mathlib.Core.Option
use joan.Base.{
  ℕ, zero, suc, ◌≡◌, refl, ap, subst, ◌∙◌, inl, inr, Bool, true, false, not, List, [], ◌∷◌, Option,
  none, some, ok, arith, >>=-eq-ok, ok_inj, some_inj,
}
use joan.Base.Lists.{length, get_elem?, set, replicate, split_off, prefix}
use joan.Ast.Types.{ValueType, value_type_eq}
use joan.Bytecode.Model.{Value, value_type}
use joan.Bytecode.Abstract.{AbstractValue, Stack, same_types}
use joan.Bytecode.Verify.{initial_locals}
use joan.Compiler.Vm.{fill_locals}
use joan.Compiler.Ensures.{Ensures, Ensures-bind}
use joan.Compiler.Typing.{StackTyped, Typed, LocalsTyped}

map-eq-some {ℓ κ} :
    {A : Type ℓ} {B : Type κ} (f : A → B) (o : Option A) {b : B}
    → Option.map f o ≡ some b
    → (a : A) × (o ≡ some a) × (f a ≡ b)
map-eq-some f none h = cc
map-eq-some f (some a) h = (a, refl, some_inj h)

pub load_lem :
    (vs : List Value) (ts : List ValueType) (bs : List Bool) (i : ℕ) {t : ValueType} {b : Bool}
    → LocalsTyped vs ts bs
    → get_elem? ts i ≡ some t
    → get_elem? bs i ≡ some b
    → not b ≡ false
    → (v : Value) × (get_elem? vs i ≡ some v) × (value_type v ≡ t)
load_lem [] [] bs i h e f g = cc
load_lem (v ∷ vs) [] bs i h e f g = cc
load_lem [] (t ∷ ts) [] i h e f g = absurd h
load_lem [] (t ∷ ts) (b ∷ bs) i h e f g = absurd h
load_lem (v ∷ vs) (t ∷ ts) [] i h e f g = absurd h
load_lem (v ∷ vs) (t ∷ ts) (b ∷ bs) zero h e f g = (v, refl, ground arith)
load_lem (v ∷ vs) (t ∷ ts) (b ∷ bs) (suc i) h e f g = load_lem vs ts bs i h.1 e f g

pub store_lem :
    (vs : List Value) (ts : List ValueType) (bs : List Bool) (i : ℕ) (v : Value) {t : ValueType}
    → LocalsTyped vs ts bs
    → get_elem? ts i ≡ some t
    → value_type v ≡ t
    → LocalsTyped (set vs i v) ts (set bs i true)
store_lem [] [] bs i v h e f = cc
store_lem (w ∷ vs) [] bs i v h e f = cc
store_lem [] (t ∷ ts) [] i v h e f = absurd h
store_lem [] (t ∷ ts) (b ∷ bs) i v h e f = absurd h
store_lem (w ∷ vs) (t ∷ ts) [] i v h e f = absurd h
store_lem (w ∷ vs) (t ∷ ts) (b ∷ bs) zero v h e f = (inr (ground arith), h.1)
store_lem (w ∷ vs) (t ∷ ts) (b ∷ bs) (suc i) v h e f = (h.0, store_lem vs ts bs i v h.1 e f)

pub get_elem?_lem :
    (vs : List Value) (ts : List ValueType) (bs : List Bool) (i : ℕ) {t : ValueType}
    → LocalsTyped vs ts bs
    → get_elem? ts i ≡ some t
    → (v : Value) × (get_elem? vs i ≡ some v)
get_elem?_lem [] [] bs i h e = cc
get_elem?_lem (w ∷ vs) [] bs i h e = cc
get_elem?_lem [] (t ∷ ts) [] i h e = absurd h
get_elem?_lem [] (t ∷ ts) (b ∷ bs) i h e = absurd h
get_elem?_lem (w ∷ vs) (t ∷ ts) [] i h e = absurd h
get_elem?_lem (w ∷ vs) (t ∷ ts) (b ∷ bs) zero h e = (w, refl)
get_elem?_lem (w ∷ vs) (t ∷ ts) (b ∷ bs) (suc i) h e = get_elem?_lem vs ts bs i h.1 e

-- What the machine takes off its stack, where the verifier takes the arguments and leaves the rest.
abbrev pub Taken : ℕ → List Value → List Value → List AbstractValue → Stack → Type 0
Taken n stack collected arguments rest =
    (values : List Value) × (left : List Value) × (split_off n stack collected
      ≡ some (values, left))
    × StackTyped values arguments
    × StackTyped left rest

pub split_off_lem :
    (n : ℕ) (stack : List Value) (s : Stack) (collected : List Value) (c : List AbstractValue)
    {arguments : List AbstractValue} {rest : Stack}
    → StackTyped stack s
    → StackTyped collected c
    → split_off n s c ≡ some (arguments, rest)
    → Taken n stack collected arguments rest
split_off_lem zero stack s collected c h k e =
    let p = some_inj e in
    (
      collected,
      stack,
      refl,
      subst (StackTyped collected) (ap (λ (q : List AbstractValue × Stack). q.0) p) k,
      subst (StackTyped stack) (ap (λ (q : List AbstractValue × Stack). q.1) p) h,
    )
split_off_lem (suc n) [] [] collected c h k e = cc
split_off_lem (suc n) [] (a ∷ s) collected c h k e = absurd h
split_off_lem (suc n) (v ∷ stack) [] collected c h k e = absurd h
split_off_lem (suc n) (v ∷ stack) (a ∷ s) collected c h k e =
    split_off_lem n stack s (v ∷ collected) (a ∷ c) h.1 (h.0, k) e

pub same_types-Typed :
    (vs : List Value) (arguments : List AbstractValue) (ts : List ValueType)
    → StackTyped vs arguments
    → not (same_types arguments ts) ≡ false
    → Typed vs ts
same_types-Typed [] [] [] h e = tt
same_types-Typed [] [] (t ∷ ts) h e = cc
same_types-Typed [] (a ∷ s) ts h e = absurd h
same_types-Typed (v ∷ vs) [] ts h e = absurd h
same_types-Typed (v ∷ vs) (a ∷ s) [] h e = cc
same_types-Typed (v ∷ vs) (a ∷ s) (t ∷ ts) h e = (
  ground (arith, value_type_eq.beq_iff a.value_type t),
  same_types-Typed vs s ts h.1 (ground arith),
)

pub length-Typed : (vs : List Value) (ts : List ValueType) → Typed vs ts → length vs ≡ length ts
length-Typed [] [] h = refl
length-Typed [] (t ∷ ts) h = absurd h
length-Typed (v ∷ vs) [] h = absurd h
length-Typed (v ∷ vs) (t ∷ ts) h = ap suc (length-Typed vs ts h.1)

replicate-LocalsTyped :
    (ts : List ValueType)
    → LocalsTyped (replicate (length ts) Value.unit) ts (replicate (length ts) false)
replicate-LocalsTyped [] = tt
replicate-LocalsTyped (t ∷ ts) = (inl refl, replicate-LocalsTyped ts)

-- Arguments of the types at the front of the frame fill it as the verifier begins with it.
fill_locals_lem :
    (vs : List Value) (ps ts : List ValueType) {bs : List Bool}
    → Typed vs ps
    → prefix (length ps) ts ≡ some ps
    → initial_locals (length ps) (length ts) ≡ ok bs
    → Ensures
        (λ locals. LocalsTyped locals ts bs)
        (fill_locals vs (replicate (length ts) Value.unit))
fill_locals_lem [] [] ts h e f =
    subst (LocalsTyped (replicate (length ts) Value.unit) ts) (ok_inj f) (replicate-LocalsTyped ts)
fill_locals_lem [] (p ∷ ps) ts h e f = absurd h
fill_locals_lem (v ∷ vs) [] ts h e f = absurd h
fill_locals_lem (v ∷ vs) (p ∷ ps) [] h e f = cc
fill_locals_lem (v ∷ vs) (p ∷ ps) (t ∷ ts) h e f =
    let (front, h1, k1) = map-eq-some (λ r. t ∷ r) (prefix (length ps) ts) e in
    let (rest, h2, k2) = >>=-eq-ok (initial_locals (length ps) (length ts)) _ f in
    Ensures-bind _ _ (fill_locals vs (replicate (length ts) Value.unit)) _
      (fill_locals_lem vs ps ts h.1 (h1 ∙ (cc (k1))) h2)
      (λ locals hl.
        subst (LocalsTyped (v ∷ locals) (t ∷ ts)) (ok_inj k2) (inr (h.0 ∙ (cc (k1))), hl))

pub fill_frame :
    (vs : List Value) (ps ts : List ValueType) (n m : ℕ) {bs : List Bool}
    → Typed vs ps
    → n ≡ length ps
    → m ≡ length ts
    → prefix n ts ≡ some ps
    → initial_locals n m ≡ ok bs
    → Ensures (λ locals. LocalsTyped locals ts bs) (fill_locals vs (replicate m Value.unit))
fill_frame vs ps ts n m {bs} typed en em hp hi = rw em (
    fill_locals_lem vs ps ts typed (subst (λ k. prefix k ts ≡ some ps) en hp) (
      subst (λ k. initial_locals k (length ts) ≡ ok bs) en
        (subst (λ k. initial_locals n k ≡ ok bs) em hi)))
