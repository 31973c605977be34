-- ===== src/Bytecode/Labels.antt =====
-- The validations that the embedded syntax and the artifact share.
use Prim.Native.Nat.{Ordering}
use joan.Base.{
  ℕ, Bool, true, false, not, ◌&&◌, String, List, [], ◌∷◌, Option, none, some, Result, ok, err, ◌>>◌,
  reject_if, ◌==◌, nat_eq,
}
use joan.Base.Texts.{is_identifier}
use joan.Base.Order.{string_ord}
use joan.Ast.Types.{InformationLabel, public, secret}
use joan.Bytecode.Model.{
  BytecodeError, invalid, bad_identifier, missing_information, unexpected_information,
}

-- `validate_identifier`
unfoldable pub validate_identifier : String → Result (Unit {0}) BytecodeError
validate_identifier value = reject_if (not (is_identifier value)) (invalid bad_identifier)

unfoldable pub validate_optional_information :
    Option InformationLabel → Result (Unit {0}) BytecodeError
validate_optional_information none = ok tt
validate_optional_information (some public) = ok tt
validate_optional_information (some (secret tenant purpose)) =
    validate_identifier tenant >> validate_identifier purpose

unfoldable pub validate_information_presence :
    Bool → Option InformationLabel → Result (Unit {0}) BytecodeError
validate_information_presence true (some label) = validate_optional_information (some label)
validate_information_presence true none = err (invalid missing_information)
validate_information_presence false none = ok tt
validate_information_presence false (some label) = err (invalid unexpected_information)

-- `previous.is_some_and(|item| item >= name)`
abbrev pub after_or_equal : Option String → String → Bool
after_or_equal none name = false
after_or_equal (some previous) name = elim (string_ord.cmp previous name) [
  | Ordering.lt ↦ false
  | _ ↦ true
]

abbrev pub codes_beq : List ℕ → List ℕ → Bool
codes_beq [] [] = true
codes_beq (a ∷ cs) (b ∷ bs) = a == b && codes_beq cs bs
codes_beq _ _ = false
