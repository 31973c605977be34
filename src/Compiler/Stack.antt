-- ===== src/Compiler/Stack.antt =====
-- The operations on the stack of values, whose top is the head of the list.
use joan.Base.{ℕ, Bool, not, List, [], ◌∷◌, Option, Result, ok, err, ◌>>=◌, ok_or, if◌then◌else◌}
use joan.Base.Int.{ℤ}
use joan.Base.Lists.{split_off}
use joan.Bytecode.Model.{Value, value_beq}
use joan.Compiler.Model.{
  LanguageError, runtime, value_stack_underflow, argument_stack_underflow, expected_i64,
  expected_bool, integer_failed,
}

unfoldable pub pop : List Value → Result (Value × List Value) LanguageError
pop [] = err (runtime value_stack_underflow)
pop (v ∷ stack) = ok (v, stack)

abbrev pub as_i64 : Value → Result ℤ LanguageError
as_i64 (Value.i64 n) = ok n
as_i64 _ = err (runtime expected_i64)

abbrev pub as_bool : Value → Result Bool LanguageError
as_bool (Value.bool b) = ok b
as_bool _ = err (runtime expected_bool)

unfoldable pub pop_i64 : List Value → Result (ℤ × List Value) LanguageError
unfolding pop
pop_i64 stack = do (v, rest) ← pop stack; n ← as_i64 v; ok (n, rest)

unfoldable pub pop_bool : List Value → Result (Bool × List Value) LanguageError
unfolding pop
pop_bool stack = do (v, rest) ← pop stack; b ← as_bool v; ok (b, rest)

unfoldable pub pop_arguments : List Value → ℕ → Result (List Value × List Value) LanguageError
pop_arguments stack count = ok_or (split_off count stack []) (runtime argument_stack_underflow)

unfoldable pub integer_binary : List Value → (ℤ → ℤ → Option ℤ) → Result (List Value) LanguageError
unfolding pop_i64
integer_binary stack operation = do
  (right, rest) ← pop_i64 stack
  (left, rest') ← pop_i64 rest
  value ← ok_or (operation left right) (runtime integer_failed)
  ok (Value.i64 value ∷ rest')

unfoldable pub boolean_binary :
    List Value → (Bool → Bool → Bool) → Result (List Value) LanguageError
unfolding pop_bool
boolean_binary stack operation = do
  (right, rest) ← pop_bool stack
  (left, rest') ← pop_bool rest
  ok (Value.bool (operation left right) ∷ rest')

unfoldable pub compare_i64 : List Value → (ℤ → ℤ → Bool) → Result (List Value) LanguageError
unfolding pop_i64
compare_i64 stack operation = do
  (right, rest) ← pop_i64 stack
  (left, rest') ← pop_i64 rest
  ok (Value.bool (operation left right) ∷ rest')

-- `(left == right) != invert`
unfoldable pub compare_equal : List Value → (invert : Bool) → Result (List Value) LanguageError
unfolding pop
compare_equal stack invert = do
  (right, rest) ← pop stack
  (left, rest') ← pop rest
  let equal = value_beq left right
  ok (Value.bool (if invert then not equal else equal) ∷ rest')
