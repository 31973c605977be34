-- ===== src/Ledger/Conservation.antt =====
-- `verify_ledger` and `finish_mutation` against the value of the ledger.
use joan.Base.{
  ℕ, ◌+◌, ◌≤◌, ◌<◌, ◌≡◌, refl, sym, subst, ◌∙◌, true, ◌||◌, String, [], ◌∷◌, arith, ok, ok_or,
  >>-eq-ok, >>=-eq-ok, reject_if-eq-ok, ok_inj, ok_or-eq-ok, ◌!=◌, eq_of_!=, string_eq, nat_eq, ltb,
}
use joan.Base.Lists.{All}
use joan.Base.Map.{BTreeMap}
use joan.Base.Order.{string_ord}
use joan.Base.Set.{insert}
use joan.Base.Words.{u64_end, checked_add, checked_add-eq-some}
use joan.Canonical.{Digest, digest_eq, Digests}
use joan.Ledger.Model.{MockHold, MockLedger, LedgerMutationReceipt, LedgerCore, amount_overflow}
use joan.Ledger.Ops.{verify_holds, verify_ledger, finish_mutation, total_value, compute_ledger_root}
use joan.Ledger.Totals.{worth, total_value-eq-ok, total_value_fits}

-- Every hold stands under its own identifier and locks at most its original amount.
abbrev pub IsSoundHold : String × MockHold → Type 0
IsSoundHold e =
    (e.0 ≡ e.1.hold_id) × (e.1.locked_amount_microunits ≤ e.1.original_amount_microunits)

verify_holds-All : (m : BTreeMap String MockHold) → verify_holds m ≡ ok tt → All IsSoundHold m
unfolding verify_holds
verify_holds-All [] h = tt
verify_holds-All ((k, x) ∷ m) h =
    let (sound, rest) =
      reject_if-eq-ok
        (k != x.hold_id || ltb x.original_amount_microunits x.locked_amount_microunits) _ _ h in
    ((ground (arith, string_eq.beq_iff k x.hold_id), ground arith), verify_holds-All m rest)

All-verify_holds : (m : BTreeMap String MockHold) → All IsSoundHold m → verify_holds m ≡ ok tt
unfolding verify_holds
All-verify_holds [] a = refl
All-verify_holds ((k, x) ∷ m) a =
    ground (arith, string_eq.beq_iff k x.hold_id, All-verify_holds m a.1)

module _ (cores : Digests LedgerCore) where
  -- What `verify_ledger` establishes.
  pub record IsConserved (l : MockLedger) : Type 0 where
    pub schema : l.schema ≡ "joan.mock-ledger.v0"
    pub holds : All IsSoundHold l.holds
    pub total : worth l ≡ l.initial_total_microunits
    pub fits : worth l < u64_end

  pub verify_ledger-IsConserved : (l : MockLedger) → verify_ledger cores l ≡ ok tt → IsConserved l
  unfolding verify_ledger
  verify_ledger-IsConserved l h0 =
      let (schema, h1) = reject_if-eq-ok (l.schema != "joan.mock-ledger.v0") _ _ h0 in
      let (holds, h2) = >>-eq-ok (verify_holds l.holds) _ h1 in
      let (n, e, h3) = >>=-eq-ok (total_value l) _ h2 in
      let (same, h4) = reject_if-eq-ok (n != l.initial_total_microunits) _ _ h3 in
      let (total, fits) = total_value-eq-ok l n e in
      record {
        schema = eq_of_!= schema;
        holds = verify_holds-All l.holds holds;
        total = sym total ∙ eq_of_!= same;
        fits = fits;
      }

  -- A ledger that conserves its value verifies under a root that has just been computed.
  pub verify_ledger-computed :
      (l : MockLedger) (g : Digest)
      → IsConserved l
      → compute_ledger_root cores l ≡ ok g
      → verify_ledger cores (record l { ledger_root = g }) ≡ ok tt
  unfolding verify_ledger compute_ledger_root
  verify_ledger-computed l g c h = ground (
    arith,
    string_eq.beq_iff l.schema "joan.mock-ledger.v0",
    digest_eq.beq_iff g g,
    All-verify_holds l.holds c.holds,
    total_value_fits (record l { ledger_root = g }),
    c.total,
    c.fits,
  )

  -- The candidate with its key consumed, at a revision.
  abbrev pub marked : MockLedger → String → ℕ → MockLedger
  marked l key revision = record l {
    consumed_idempotency_keys = insert key l.consumed_idempotency_keys;
    revision = revision;
  }

  -- What `finish_mutation` adds to its candidate `l`, with its receipt.
  pub record Finished (l : MockLedger) (key : String) (prior : Digest) (id : String)
      (l' : MockLedger) (r : LedgerMutationReceipt) : Type 0 where
    pub balances : l'.balances ≡ l.balances
    pub holds : l'.holds ≡ l.holds
    pub initial_total : l'.initial_total_microunits ≡ l.initial_total_microunits
    pub keys : l'.consumed_idempotency_keys ≡ insert key l.consumed_idempotency_keys
    pub revision : l'.revision ≡ l.revision + 1
    pub conserved : worth l ≡ l.initial_total_microunits
    pub verified :
        All IsSoundHold l.holds → l.schema ≡ "joan.mock-ledger.v0" → verify_ledger cores l' ≡ ok tt
    pub receipt_prior : r.prior_ledger_root ≡ prior
    pub receipt_new : r.new_ledger_root ≡ l'.ledger_root
    pub receipt_hold : r.hold_id ≡ id
    pub receipt_total : r.conserved_total_microunits ≡ worth l'
    pub receipt_committed : r.committed ≡ true

  pub finish_mutation-Finished :
      (l : MockLedger) (key : String) (prior : Digest) (id op : String) (q : Digest)
      (l' : MockLedger) (r : LedgerMutationReceipt)
      → finish_mutation cores l key prior id op q ≡ ok (l', r)
      → Finished l key prior id l' r
  unfolding finish_mutation
  finish_mutation-Finished l key prior id op q l' r h0 =
      let (rev, e, h1) = >>=-eq-ok (ok_or (checked_add l.revision 1) amount_overflow) _ h0 in
      let (next, _) =
        checked_add-eq-some l.revision 1 (ok_or-eq-ok (checked_add l.revision 1) _ e) in
      let (g, f, h2) = >>=-eq-ok (compute_ledger_root cores (marked l key rev)) _ h1 in
      let (n, t, h3) = >>=-eq-ok (total_value (marked l key rev)) _ h2 in
      let (same, h4) = reject_if-eq-ok (n != l.initial_total_microunits) _ _ h3 in
      let (total, fits) = total_value-eq-ok (marked l key rev) n t in
      let conserved : worth l ≡ l.initial_total_microunits = sym total ∙ eq_of_!= same in
      subst (λ (x : MockLedger × LedgerMutationReceipt). Finished l key prior id x.0 x.1)
        (ok_inj h4)
        (record {
          balances = refl;
          holds = refl;
          initial_total = refl;
          keys = refl;
          revision = next;
          conserved = conserved;
          verified = λ sound schema.
              verify_ledger-computed (marked l key rev) g
                (record { schema = schema; holds = sound; total = conserved; fits = fits }) f;
          receipt_prior = refl;
          receipt_new = refl;
          receipt_hold = refl;
          receipt_total = total;
          receipt_committed = refl;
        })
