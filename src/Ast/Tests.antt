-- ===== src/Ast/Tests.antt =====
-- Labels of one tenant, and what the theorem gives there.
use joan.Base.{◌≡◌, ◌⊎◌, ◌&&◌, refl, some, none, true, false}
use joan.Ast.Types.{InformationLabel, public, secret, can_flow_to, join, label_eq}
use joan.Ast.Flow.{join_least}

abbrev billing : InformationLabel
billing = secret "acme" "billing"

abbrev support : InformationLabel
support = secret "acme" "support"

purposes_differ : join billing support ≡ none
unfolding join label_eq
purposes_differ = refl

public_joins : join public billing ≡ some billing
unfolding join label_eq
public_joins = refl

join_least_example :
    ((c : InformationLabel) × (join billing support ≡ some c)
      × (can_flow_to billing c ≡ true)
      × (can_flow_to support c ≡ true)
      × (can_flow_to c billing ≡ (can_flow_to billing billing && can_flow_to support billing)))
    ⊎ ((join billing support ≡ none)
        × ((can_flow_to billing billing && can_flow_to support billing) ≡ false))
join_least_example = join_least billing support billing
