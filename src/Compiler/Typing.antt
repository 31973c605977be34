-- ===== src/Compiler/Typing.antt =====
-- Values of the types that the verifier computed.
use joan.Base.{
  ◌≡◌, refl, sym, ap, subst, ◌∙◌, ◌⊎◌, Bool, false, List, [], ◌∷◌, Option, none, some, ok, ok_or,
  ◌!=◌, arith, eq_of_!=, >>=-eq-ok, reject_if-eq-ok, ok_inj,
}
use joan.Base.Int.{ℤ}
use joan.Ast.Types.{ValueType, value_type_eq}
use joan.Bytecode.Model.{Value, value_type}
use joan.Bytecode.Abstract.{
  AbstractValue, Stack, pop_type, require_pop, binary_type, join_information,
}
use joan.Compiler.Model.{runtime, integer_failed}
use joan.Compiler.Stack.{
  pop, pop_i64, pop_bool, integer_binary, boolean_binary, compare_i64, as_i64, as_bool,
}
use joan.Compiler.Ensures.{Ensures, Ensures-bind}

abbrev pub StackTyped : List Value → Stack → Type 0
StackTyped [] [] = Unit
StackTyped (v ∷ vs) (a ∷ s) = (value_type v ≡ a.value_type) × StackTyped vs s
StackTyped [] (a ∷ s) = ⊥
StackTyped (v ∷ vs) [] = ⊥

abbrev pub Typed : List Value → List ValueType → Type 0
Typed [] [] = Unit
Typed (v ∷ vs) (t ∷ ts) = (value_type v ≡ t) × Typed vs ts
Typed [] (t ∷ ts) = ⊥
Typed (v ∷ vs) [] = ⊥

-- The slots that are initialized hold values of their types.
abbrev pub LocalsTyped : List Value → List ValueType → List Bool → Type 0
LocalsTyped [] [] [] = Unit
LocalsTyped (v ∷ vs) (t ∷ ts) (b ∷ bs) = ((b ≡ false) ⊎ (value_type v ≡ t)) × LocalsTyped vs ts bs
LocalsTyped _ _ _ = ⊥

pub pop_lem :
    (stack : List Value) (s : Stack) {a : AbstractValue} {s' : Stack}
    → StackTyped stack s
    → pop_type s ≡ ok (a, s')
    → Ensures
        (λ (p : Value × List Value). (value_type p.0 ≡ a.value_type) × StackTyped p.1 s')
        (pop stack)
unfolding pop pop_type
pop_lem [] [] h e = cc
pop_lem (v ∷ vs) (a ∷ s) h e = ground arith
pop_lem [] (a ∷ s) h e = absurd h
pop_lem (v ∷ vs) [] h e = absurd h

pub require_pop-eq-ok :
    (s : Stack) (t : ValueType) {a : AbstractValue} {s' : Stack}
    → require_pop s t ≡ ok (a, s')
    → (pop_type s ≡ ok (a, s')) × (a.value_type ≡ t)
unfolding require_pop pop_type
require_pop-eq-ok [] t h = cc
require_pop-eq-ok (x ∷ s) t h =
    let (same, found) = reject_if-eq-ok (x.value_type != t) _ _ h in
    let x_eq = ap (λ (p : AbstractValue × Stack). p.0.value_type) (ok_inj found) in
    (found, sym x_eq ∙ eq_of_!= same)

as_i64_lem : (v : Value) → value_type v ≡ ValueType.i64 → Ensures (λ (n : ℤ). Unit {0}) (as_i64 v)
as_i64_lem (Value.i64 n) h = tt
as_i64_lem (Value.bool b) h = cc
as_i64_lem (Value.string t) h = cc
as_i64_lem Value.unit h = cc

as_bool_lem :
    (v : Value) → value_type v ≡ ValueType.bool → Ensures (λ (b : Bool). Unit {0}) (as_bool v)
as_bool_lem (Value.i64 n) h = cc
as_bool_lem (Value.bool b) h = tt
as_bool_lem (Value.string t) h = cc
as_bool_lem Value.unit h = cc

pub pop_i64_lem :
    (stack : List Value) (s : Stack) {a : AbstractValue} {s' : Stack}
    → StackTyped stack s
    → require_pop s ValueType.i64 ≡ ok (a, s')
    → Ensures (λ (p : ℤ × List Value). StackTyped p.1 s') (pop_i64 stack)
unfolding pop_i64
pop_i64_lem stack s h e =
    let (popped, same) = require_pop-eq-ok s ValueType.i64 e in
    Ensures-bind _ _ (pop stack) _ (pop_lem stack s h popped) (λ p hp.
      Ensures-bind (λ (n : ℤ). Unit {0}) _ (as_i64 p.0) _ (as_i64_lem p.0 (hp.0 ∙ same))
        (λ n hn. hp.1))

pub pop_bool_lem :
    (stack : List Value) (s : Stack) {a : AbstractValue} {s' : Stack}
    → StackTyped stack s
    → require_pop s ValueType.bool ≡ ok (a, s')
    → Ensures (λ (p : Bool × List Value). StackTyped p.1 s') (pop_bool stack)
unfolding pop_bool
pop_bool_lem stack s h e =
    let (popped, same) = require_pop-eq-ok s ValueType.bool e in
    Ensures-bind _ _ (pop stack) _ (pop_lem stack s h popped) (λ p hp.
      Ensures-bind (λ (b : Bool). Unit {0}) _ (as_bool p.0) _ (as_bool_lem p.0 (hp.0 ∙ same))
        (λ b hb. hp.1))

-- The two operands that `binary_type` takes, and what it leaves.
record Operands (s : Stack) (input output : ValueType) (s' : Stack) : Type 0 where
  right : AbstractValue
  left : AbstractValue
  result : AbstractValue
  below : Stack
  rest : Stack
  popped_right : require_pop s input ≡ ok (right, below)
  popped_left : require_pop below input ≡ ok (left, rest)
  typed : result.value_type ≡ output
  left_over : s' ≡ result ∷ rest

binary_type-eq-ok :
    (s : Stack) (input output : ValueType) {s' : Stack}
    → binary_type s input output ≡ ok s'
    → Operands s input output s'
unfolding binary_type
binary_type-eq-ok s input output h =
    let ((right, below), h1, k1) = >>=-eq-ok (require_pop s input) _ h in
    let ((left, rest), h2, k2) = >>=-eq-ok (require_pop below input) _ k1 in
    let (label, h3, k3) = >>=-eq-ok (join_information left.information right.information) _ k2 in
    record {
      right = right;
      left = left;
      result = record { value_type = output; information = label };
      below = below;
      rest = rest;
      popped_right = h1;
      popped_left = h2;
      typed = refl;
      left_over = sym (ok_inj k3);
    }

arithmetic_lem : (o : Option ℤ) → Ensures (λ (n : ℤ). Unit {0}) (ok_or o (runtime integer_failed))
arithmetic_lem none = refl
arithmetic_lem (some n) = tt

module _ (stack : List Value) (s : Stack) {s' : Stack} (typed : StackTyped stack s) where
  pub integer_binary_lem :
      (operation : ℤ → ℤ → Option ℤ)
      → binary_type s ValueType.i64 ValueType.i64 ≡ ok s'
      → Ensures (λ stack'. StackTyped stack' s') (integer_binary stack operation)
  unfolding integer_binary
  integer_binary_lem operation e =
      let o = binary_type-eq-ok s ValueType.i64 ValueType.i64 e in
      Ensures-bind _ _ (pop_i64 stack) _ (pop_i64_lem stack s typed o.popped_right) (λ p hp.
        Ensures-bind _ _ (pop_i64 p.1) _ (pop_i64_lem p.1 o.below hp o.popped_left) (λ q hq.
          Ensures-bind (λ (n : ℤ). Unit {0}) _ (ok_or (operation q.0 p.0) _) _
            (arithmetic_lem (operation q.0 p.0))
            (λ n hn. subst (StackTyped (Value.i64 n ∷ q.1)) (sym o.left_over) (sym o.typed, hq))))

  pub compare_i64_lem :
      (operation : ℤ → ℤ → Bool)
      → binary_type s ValueType.i64 ValueType.bool ≡ ok s'
      → Ensures (λ stack'. StackTyped stack' s') (compare_i64 stack operation)
  unfolding compare_i64
  compare_i64_lem operation e =
      let o = binary_type-eq-ok s ValueType.i64 ValueType.bool e in
      Ensures-bind _ _ (pop_i64 stack) _ (pop_i64_lem stack s typed o.popped_right) (λ p hp.
        Ensures-bind _ _ (pop_i64 p.1) _ (pop_i64_lem p.1 o.below hp o.popped_left) (λ q hq.
          subst (StackTyped (Value.bool (operation q.0 p.0) ∷ q.1)) (sym o.left_over)
            (sym o.typed, hq)))

  pub boolean_binary_lem :
      (operation : Bool → Bool → Bool)
      → binary_type s ValueType.bool ValueType.bool ≡ ok s'
      → Ensures (λ stack'. StackTyped stack' s') (boolean_binary stack operation)
  unfolding boolean_binary
  boolean_binary_lem operation e =
      let o = binary_type-eq-ok s ValueType.bool ValueType.bool e in
      Ensures-bind _ _ (pop_bool stack) _ (pop_bool_lem stack s typed o.popped_right) (λ p hp.
        Ensures-bind _ _ (pop_bool p.1) _ (pop_bool_lem p.1 o.below hp o.popped_left) (λ q hq.
          subst (StackTyped (Value.bool (operation q.0 p.0) ∷ q.1)) (sym o.left_over)
            (sym o.typed, hq)))
