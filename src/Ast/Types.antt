-- ===== src/Ast/Types.antt =====
-- `Type`, `InformationLabel` and the operators.
use joan.Base.{
  ◌≡◌, ◌↔◌, Bool, true, false, ◌&&◌, ◌||◌, String, Option, none, some, arith, Eq, derive_eq, ◌==◌,
  string_eq, if◌then◌else◌,
}

-- `Type`
pub data ValueType : Type 0 where
  i64 bool string unit : ValueType

unfoldable pub ValueType-discrete : Discrete ValueType
ValueType-discrete = hlevel

instance unfoldable pub value_type_eq : Eq ValueType
unfolding ValueType-discrete
value_type_eq = derive_eq ValueType-discrete

pub data InformationLabel : Type 0 where
  public : InformationLabel
  secret : (tenant purpose : String) → InformationLabel

-- The derived `PartialEq`.
abbrev pub label_beq : InformationLabel → InformationLabel → Bool
label_beq public public = true
label_beq (secret t p) (secret u q) = t == u && p == q
label_beq public (secret u q) = false
label_beq (secret t p) public = false

pub label_beq_iff : (a b : InformationLabel) → (label_beq a b ≡ true) ↔ (a ≡ b)
label_beq_iff public public = ground arith
label_beq_iff public (secret u q) = ground arith
label_beq_iff (secret t p) public = ground arith
label_beq_iff (secret t p) (secret u q) =
    ground (arith, string_eq.beq_iff t u, string_eq.beq_iff p q)

instance unfoldable pub label_eq : Eq InformationLabel
label_eq = record { beq = label_beq; beq_iff = label_beq_iff }

abbrev pub is_public : InformationLabel → Bool
is_public public = true
is_public (secret t p) = false

unfoldable pub can_flow_to : InformationLabel → InformationLabel → Bool
can_flow_to source destination = source == destination || is_public source

unfoldable pub join : InformationLabel → InformationLabel → Option InformationLabel
join a b =
    if a == b
    then some a
    else (if is_public a then some b else (if is_public b then some a else none))

pub data UnaryOperator : Type 0 where
  negate not_ : UnaryOperator

pub data BinaryOperator : Type 0 where
  add subtract multiply divide remainder : BinaryOperator
  equal not_equal less less_equal greater greater_equal : BinaryOperator
  and or : BinaryOperator
