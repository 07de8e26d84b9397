-- ===== src/Application/Audit/Reconciliation/Closed.antt =====
-- A reconciliation that succeeds asked the inspector and had its record acknowledged.
use edge.Application.Audit.{AuditLedgerWriter, AuditSession}
use edge.Application.Audit.Reconciliation.{
  Inspector, ReconcileAuditOutput, inspected, is_intent, reconcile_incomplete_audit, reconciled,
  reconciliation_of,
}
use edge.Domain.Audit.{AuditLedgerHead, AuditRecord}
use edge.Domain.Audit.States.{AuditAuthoritativeFact}
use edge.Domain.Errors.{Result, err, ok}
use edge.Prelude.{Bool-cases, ◌≡◌, inl, inr, refl}

module _ {L I : Type 0} (writer : AuditLedgerWriter L) (inspect : Inspector I) where
  -- The inspector told what became of the operation, and the ledger acknowledged a record of it.
  abbrev pub Closes :
      AuditRecord → AuditLedgerHead → L → I → AuditAuthoritativeFact → L → I → Type 0
  Closes r expected l i fact l' i' =
      (inspect r.context.operation_id r.action r.target_id i ≡ (ok fact, i'))
      × (head : AuditLedgerHead) × (writer.append_reconciliation (reconciliation_of r fact) expected
            l
          ≡ (ok head, l'))

  abbrev pub Closed :
      AuditRecord → AuditLedgerHead → L → I → Result ReconcileAuditOutput → L → I → Type 0
  Closed r expected l i (err e) l' i' = Unit
  Closed r expected l i (ok output) l' i' = Closes r expected l i output.fact l' i'

  reconciled-Closed :
      (r : AuditRecord) (expected : AuditLedgerHead) (l : L) (i : I) (fact : AuditAuthoritativeFact)
      (appended : Result AuditLedgerHead) (s : AuditSession L I)
      → inspect r.context.operation_id r.action r.target_id i ≡ (ok fact, s.world)
      → writer.append_reconciliation (reconciliation_of r fact) expected l ≡ (appended, s.ledger)
      → let (answer, t) = reconciled fact appended s in
        Closed r expected l i answer t.ledger t.world
  unfolding reconciled
  reconciled-Closed r expected l i fact (err e) s told same = tt
  reconciled-Closed r expected l i fact (ok head) s told same = (told, head, same)

  inspected-Closed :
      (r : AuditRecord) (expected : AuditLedgerHead) (i : I) (found : Result AuditAuthoritativeFact)
      (s : AuditSession L I)
      → inspect r.context.operation_id r.action r.target_id i ≡ (found, s.world)
      → let (answer, t) = inspected writer inspect r expected found s in
        Closed r expected s.ledger i answer t.ledger t.world
  unfolding inspected
  inspected-Closed r expected i (err e) s told = tt
  inspected-Closed r expected i (ok fact) s told =
      reconciled-Closed r expected s.ledger i fact _ _ told refl

  pub reconcile_incomplete_audit-Closed :
      (r : AuditRecord) (expected : AuditLedgerHead) (s : AuditSession L I)
      → let (answer, t) = reconcile_incomplete_audit writer inspect r expected s in
        Closed r expected s.ledger s.world answer t.ledger t.world
  unfolding reconcile_incomplete_audit
  reconcile_incomplete_audit-Closed r expected s = elim (Bool-cases (is_intent r.record_kind)) [
    | inl e ↦ rw e (inspected-Closed r expected s.world _ _ refl)
    | inr e ↦ rw e tt
  ]
