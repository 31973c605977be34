-- ===== src/Ledger/History.antt =====
-- Whole histories of a ledger: `create_ledger`, then reservations and decisions in any order.
use joan.Base.{
  ℕ, ◌+◌, ◌≤◌, ◌≡◌, ◌≢◌, refl, sym, subst, ap, ◌∙◌, true, false, String, [], arith, ok, some, inl,
  inr, string_eq, >>-eq-ok, >>=-eq-ok, reject_if-eq-ok, ok_inj,
}
use joan.Base.Lists.{is_nil}
use joan.Base.Map
use joan.Base.Map.{BTreeMap, contains_key, values, keys, sum_by}
use joan.Base.Order.{string_ord}
use joan.Base.Set.{contains, contains-insert_self, contains-insert_mono}
use joan.Canonical.{Digests, placeholder_digest}
use joan.Dispute.Evaluate.{Hashes}
use joan.Ledger.Model.{
  HoldStatus, reserved, MockHold, MockLedger, ReserveRequest, ApplyDecisionRequest,
  LedgerMutationReceipt, LedgerCore,
}
use joan.Ledger.Ops.{
  create_ledger, verify_ledger, reserve, apply_decision, decided_hold, checked_sum,
  require_accounts, compute_ledger_root,
}
use joan.Ledger.Totals.{worth, amount, checked_sum-eq-ok, sum-values}
use joan.Ledger.Conservation.{verify_ledger-computed}
use joan.Ledger.Holds.{reserve-Reserved}
use joan.Ledger.Settlement.{apply_decision-Settled, status_for-reserved}

module _ (cores : Digests LedgerCore) where
  -- If `create_ledger` succeeds, the ledger verifies, has the balances given, is worth their sum,
  -- which is its initial total, and has no hold, no consumed key and revision 0.
  pub create_ledger-verified :
      (balances : BTreeMap String ℕ) (l : MockLedger)
      → create_ledger cores balances ≡ ok l
      → (verify_ledger cores l ≡ ok tt)
        × (l.balances ≡ balances)
        × (worth l ≡ sum_by amount balances)
        × (l.initial_total_microunits ≡ sum_by amount balances)
        × (l.holds ≡ [])
        × (l.consumed_idempotency_keys ≡ [])
        × (l.revision ≡ 0)
  unfolding create_ledger
  create_ledger-verified balances l h0 =
      let (_, h1) = reject_if-eq-ok (is_nil balances) _ _ h0 in
      let (_, h2) = >>-eq-ok (require_accounts (keys balances)) _ h1 in
      let (n, e, h3) = >>=-eq-ok (checked_sum (values balances)) _ h2 in
      let total = checked_sum-eq-ok (values balances) n e in
      let whole : n ≡ sum_by amount balances = total.0 ∙ sum-values balances in
      let opened : MockLedger = record {
        schema = "joan.mock-ledger.v0";
        balances = balances;
        holds = [];
        consumed_idempotency_keys = [];
        revision = 0;
        initial_total_microunits = n;
        ledger_root = placeholder_digest;
      } in
      let (g, f, h4) = >>=-eq-ok (compute_ledger_root cores opened) _ h3 in
      subst
        (λ l.
          (verify_ledger cores l ≡ ok tt)
          × (l.balances ≡ balances)
          × (worth l ≡ sum_by amount balances)
          × (l.initial_total_microunits ≡ sum_by amount balances)
          × (l.holds ≡ [])
          × (l.consumed_idempotency_keys ≡ [])
          × (l.revision ≡ 0))
        (ok_inj h4)
        (
          verify_ledger-computed cores opened g
              (record {
                schema = refl;
                holds = tt;
                total = omega (arith, whole);
                fits = omega (arith, whole, total.1);
              })
              f,
          refl,
          omega arith,
          whole,
          refl,
          refl,
          refl,
        )

module _ (cores : Digests LedgerCore) (reserves : Digests ReserveRequest)
    (applies : Digests ApplyDecisionRequest) (hashes : Hashes) where
  -- One successful mutation, by any request of either kind.
  pub data Step (l l' : MockLedger) : Type 0 where
    reserving :
        (q : ReserveRequest) (r : LedgerMutationReceipt)
        → reserve cores reserves l q ≡ ok (l', r)
        → Step l l'
    applying :
        (q : ApplyDecisionRequest) (r : LedgerMutationReceipt)
        → apply_decision cores applies hashes l q ≡ ok (l', r)
        → Step l l'

  -- Any number of them.
  pub data Reach (l : MockLedger) : MockLedger → Type 0 where
    begin : Reach l l
    extend : {m n : MockLedger} → Reach l m → Step m n → Reach l n

  -- The key that a step consumes.
  abbrev consumed : {l l' : MockLedger} → Step l l' → String
  consumed (reserving q r h) = q.idempotency_key
  consumed (applying q r h) = q.idempotency_key

  -- What every step keeps.
  record Kept (l l' : MockLedger) : Type 0 where
    worth_kept : worth l' ≡ worth l
    total_kept : l'.initial_total_microunits ≡ l.initial_total_microunits
    advanced : l'.revision ≡ l.revision + 1
    verified : verify_ledger cores l' ≡ ok tt

  Step-Kept : (l l' : MockLedger) → Step l l' → Kept l l'
  Step-Kept l l' (reserving q r h) =
      let p = reserve-Reserved cores reserves l q l' r h in
      record {
        worth_kept = p.worth_kept;
        total_kept = p.initial_total;
        advanced = p.revision;
        verified = p.verified_after;
      }
  Step-Kept l l' (applying q r h) =
      let p = apply_decision-Settled cores applies hashes l q l' r h in
      record {
        worth_kept = p.worth_kept;
        total_kept = p.initial_total;
        advanced = p.revision;
        verified = p.verified_after;
      }

  -- From a ledger that verifies, whatever successful reservations and decisions follow, in any
  -- order: the balances and the locked amounts together are worth what they were, the initial
  -- total is the same, the revision has not fallen, and the ledger verifies.
  pub Reach-conserves :
      (l : MockLedger) {l' : MockLedger}
      → Reach l l'
      → verify_ledger cores l ≡ ok tt
      → (worth l' ≡ worth l)
        × (l'.initial_total_microunits ≡ l.initial_total_microunits)
        × (l.revision ≤ l'.revision)
        × (verify_ledger cores l' ≡ ok tt)
  Reach-conserves l begin v = (refl, refl, omega arith, v)
  Reach-conserves l (extend {m = m} {n = n} r s) v =
      let (w, t, i, _) = Reach-conserves l r v in
      let k = Step-Kept m n s in
      (k.worth_kept ∙ w, k.total_kept ∙ t, omega (arith, i, k.advanced), k.verified)

  -- A hold on which a decision has been made.
  abbrev IsDecided : String → MockLedger → Type 0
  IsDecided id l = (hold : MockHold) × (Map.get id l.holds ≡ some hold) × (hold.status ≢ reserved)

  absent_or_held :
      {A : Type 0} (i j : String) (hold : MockHold) (m : BTreeMap String MockHold)
      → i ≡ j
      → Map.get i m ≡ some hold
      → contains_key j m ≡ false
      → A
  unfolding contains_key
  absent_or_held i j hold m same held absent = ground arith

  Step-IsDecided : (id : String) (l l' : MockLedger) → Step l l' → IsDecided id l → IsDecided id l'
  Step-IsDecided id l l' (reserving q r h) (hold, held, past) =
      let p = reserve-Reserved cores reserves l q l' r h in
      elim (p.other_holds id) [
        | inl same ↦ absent_or_held id q.hold_id hold l.holds same held p.reservable.unused
        | inr kept ↦ (hold, kept ∙ held, past)
      ]
  Step-IsDecided id l l' (applying q r h) (hold, held, past) =
      let p = apply_decision-Settled cores applies hashes l q l' r h in
      elim (p.other_holds id) [
        | inl same ↦ (
          decided_hold q p.hold,
          subst (λ k. Map.get k l'.holds ≡ some (decided_hold q p.hold)) (sym same) p.decided,
          status_for-reserved q.decision.remedy.kind,
        )
        | inr kept ↦ (hold, kept ∙ held, past)
      ]

  Reach-IsDecided :
      (id : String) (l : MockLedger) {l' : MockLedger}
      → Reach l l'
      → IsDecided id l
      → IsDecided id l'
  Reach-IsDecided id l begin d = d
  Reach-IsDecided id l (extend {m = m} {n = n} r s) d =
      Step-IsDecided id m n s (Reach-IsDecided id l r d)

  -- Once `apply_decision` has succeeded on a hold, no `apply_decision` with that hold's identifier
  -- succeeds on any ledger that later reservations and decisions reach, under whatever key and
  -- with whatever decision.
  pub decided_once :
      (l m n : MockLedger) (q p : ApplyDecisionRequest) (r s : LedgerMutationReceipt)
      (o : MockLedger)
      → apply_decision cores applies hashes l q ≡ ok (m, r)
      → Reach m n
      → p.hold_id ≡ q.hold_id
      → apply_decision cores applies hashes n p ≢ ok (o, s)
  decided_once l m n q p r s o h later same k =
      let first = apply_decision-Settled cores applies hashes l q m r h in
      let second = apply_decision-Settled cores applies hashes n p o s k in
      let (hold, held, past) =
        Reach-IsDecided q.hold_id m later
          (decided_hold q first.hold, first.decided, status_for-reserved q.decision.remedy.kind) in
      let there : Map.get p.hold_id n.holds ≡ some hold =
        subst (λ i. Map.get i n.holds ≡ some hold) (sym same) held in
      let one : hold ≡ second.hold = ground (arith, second.held) in
      past (ap {B = HoldStatus} (λ (x : MockHold). x.status) one ∙ second.decidable.undecided.0)

  Step-keys :
      (k : String) (l l' : MockLedger)
      → Step l l'
      → contains k l.consumed_idempotency_keys ≡ true
      → contains k l'.consumed_idempotency_keys ≡ true
  Step-keys k l l' (reserving q r h) used =
      rw (reserve-Reserved cores reserves l q l' r h).keys
        (contains-insert_mono q.idempotency_key k l.consumed_idempotency_keys used)
  Step-keys k l l' (applying q r h) used =
      rw (apply_decision-Settled cores applies hashes l q l' r h).keys
        (contains-insert_mono q.idempotency_key k l.consumed_idempotency_keys used)

  Reach-keys :
      (k : String) (l : MockLedger) {l' : MockLedger}
      → Reach l l'
      → contains k l.consumed_idempotency_keys ≡ true
      → contains k l'.consumed_idempotency_keys ≡ true
  Reach-keys k l begin used = used
  Reach-keys k l (extend {m = m} {n = n} r s) used = Step-keys k m n s (Reach-keys k l r used)

  Step-consumes :
      (l l' : MockLedger) (s : Step l l')
      → (contains (consumed s) l.consumed_idempotency_keys ≡ false)
        × (contains (consumed s) l'.consumed_idempotency_keys ≡ true)
  Step-consumes l l' (reserving q r h) =
      let p = reserve-Reserved cores reserves l q l' r h in
      (
        p.current.fresh,
        rw p.keys (contains-insert_self q.idempotency_key l.consumed_idempotency_keys),
      )
  Step-consumes l l' (applying q r h) =
      let p = apply_decision-Settled cores applies hashes l q l' r h in
      (
        p.current.fresh,
        rw p.keys (contains-insert_self q.idempotency_key l.consumed_idempotency_keys),
      )

  -- Two successful mutations of one history, each a reservation or a decision, never have the same
  -- idempotency key.
  pub keys_differ :
      (l m n o : MockLedger) (s : Step l m) (t : Step n o) → Reach m n → consumed t ≢ consumed s
  keys_differ l m n o s t later same =
      let used = Reach-keys (consumed s) m later (Step-consumes l m s).1 in
      let fresh = (Step-consumes n o t).0 in cc (used, fresh, same)
