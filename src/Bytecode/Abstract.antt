-- ===== src/Bytecode/Abstract.antt =====
-- The abstract values of the verifier, and its operations on their stack. The head of a list is the
-- top of the stack.
use joan.Base.{
  Bool, true, false, not, ◌&&◌, List, [], ◌∷◌, Option, none, some, Result, ok, err, ◌>>=◌, ◌>>◌,
  reject_if, ok_or, ◌!=◌, ◌==◌,
}
use joan.Base.Lists.{length, split_off}
use joan.Ast.Types.{ValueType, value_type_eq, InformationLabel, public, can_flow_to, join}
use joan.Bytecode.Model.{
  BytecodeError, invalid, stack_underflow, wrong_type, flow_violation, incompatible_labels,
  argument_types,
}

pub record AbstractValue : Type 0 where
  pub value_type : ValueType
  pub information : InformationLabel

abbrev pub public_value : ValueType → AbstractValue
public_value t = record { value_type = t; information = public }

abbrev pub Stack : Type 0
Stack = List AbstractValue

unfoldable pub pop_type : Stack → Result (AbstractValue × Stack) BytecodeError
pop_type [] = err (invalid stack_underflow)
pop_type (v ∷ s) = ok (v, s)

unfoldable pub require_pop : Stack → ValueType → Result (AbstractValue × Stack) BytecodeError
unfolding pop_type
require_pop stack expected = do
  (actual, rest) ← pop_type stack
  reject_if (actual.value_type != expected) (invalid wrong_type)
  ok (actual, rest)

unfoldable pub require_information_flow :
    InformationLabel → InformationLabel → Result (Unit {0}) BytecodeError
require_information_flow source destination =
    reject_if (not (can_flow_to source destination)) (invalid flow_violation)

unfoldable pub join_information :
    InformationLabel → InformationLabel → Result InformationLabel BytecodeError
join_information left right = ok_or (join left right) (invalid incompatible_labels)

unfoldable pub unary_type : Stack → ValueType → ValueType → Result Stack BytecodeError
unfolding require_pop
unary_type stack input output = do
  (value, rest) ← require_pop stack input
  ok ((record { value_type = output; information = value.information }) ∷ rest)

unfoldable pub binary_type : Stack → ValueType → ValueType → Result Stack BytecodeError
unfolding require_pop
binary_type stack input output = do
  (right, rest) ← require_pop stack input
  (left, rest') ← require_pop rest input
  information ← join_information left.information right.information
  ok ((record { value_type = output; information = information }) ∷ rest')

-- The types of the values are those expected, and no more.
abbrev pub same_types : List AbstractValue → List ValueType → Bool
same_types [] [] = true
same_types (v ∷ vs) (t ∷ ts) = v.value_type == t && same_types vs ts
same_types [] (t ∷ ts) = false
same_types (v ∷ vs) [] = false

-- The loop of `require_arguments` over the labels: it ends with the shorter list.
unfoldable pub require_flows :
    List AbstractValue → List InformationLabel → Result (Unit {0}) BytecodeError
require_flows [] labels = ok tt
require_flows (v ∷ vs) [] = ok tt
require_flows (v ∷ vs) (label ∷ labels) =
    require_information_flow v.information label >> require_flows vs labels

abbrev pub require_labels :
    List AbstractValue → Option (List InformationLabel) → Result (Unit {0}) BytecodeError
require_labels values none = ok tt
require_labels values (some labels) = require_flows values labels

unfoldable pub require_arguments :
    Stack → List ValueType → Option (List InformationLabel) → Result Stack BytecodeError
require_arguments stack expected labels = do
  (values, rest) ← ok_or (split_off (length expected) stack []) (invalid stack_underflow)
  reject_if (not (same_types values expected)) (invalid argument_types)
  require_labels values labels
  ok rest

-- The loop over the arguments of a request.
unfoldable pub require_sink :
    List AbstractValue → InformationLabel → Result (Unit {0}) BytecodeError
require_sink [] sink = ok tt
require_sink (v ∷ vs) sink = require_information_flow v.information sink >> require_sink vs sink
