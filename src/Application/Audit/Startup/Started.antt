-- ===== src/Application/Audit/Startup/Started.antt =====
-- What the ledger, the inspected state and the admission look like after the start.
use edge.Application.Audit.{AuditLedgerWriter, AuditSession}
use edge.Application.Audit.Reconciliation.{
  AuditLedgerReader, AuditVerificationReport, Inspector, ReconcileAuditOutput, is_unknown,
}
use edge.Application.Audit.Reconciliation.Closed.{Closed, Closes, reconcile_incomplete_audit-Closed}
use edge.Application.Audit.Startup.{
  InitializeAuditLedgerOutput, all_reconciled, initialize_audit_ledger, passed, reconcile_all,
  reconcile_each, reconciled_one, reopened, verified, verify_from, with_head, with_incomplete,
  with_unresolved,
}
use edge.Domain.Audit.{AuditLedgerHead, AuditRecord}
use edge.Domain.Audit.States.{
  AuditAdmissionState, AuditAuthoritativeFact, admission_transition, healthy, is_healthy,
  reconciling, verifying,
}
use edge.Domain.Errors.{is_ok, Result, err, ok}
use edge.Prelude.{
  true, Bool-cases, ℕ, List, [], ◌∷◌, ◌+◌, ◌≤◌, ◌≡◌, inl, inr, refl, false, length, arith, ltb, suc,
}

-- Every operation in turn was closed with a fact that is known.
module _ {L I : Type 0} (writer : AuditLedgerWriter L) (inspect : Inspector I)
    (reader : AuditLedgerReader L) where
  abbrev pub Reconciles : List AuditRecord → L → I → L → I → Type 0
  Reconciles [] l i l' i' = (l' ≡ l) × (i' ≡ i)
  Reconciles (r ∷ rs) l i l' i' =
      (head : AuditLedgerHead) × (reader.head l ≡ ok head)
      × (fact : AuditAuthoritativeFact) × (is_unknown fact ≡ false)
      × (m : L) × (j : I) × Closes writer inspect r head l i fact m j
      × Reconciles rs m j l' i'

  abbrev Looped : ℕ → List AuditRecord → L → I → Result ℕ → AuditSession L I → Type 0
  Looped count rs l i (ok n) t = (n ≡ count + length rs) × Reconciles rs l i t.ledger t.world
  Looped count rs l i (err e) t = is_healthy t.admission ≡ false

  one-Reconciles :
      (count : ℕ) (r : AuditRecord) (rs : List AuditRecord) (l : L) (i : I) (head : AuditLedgerHead)
      (fact : AuditAuthoritativeFact) (m : L) (j : I) (n : Result ℕ) (t : AuditSession L I)
      → reader.head l ≡ ok head
      → is_unknown fact ≡ false
      → Closes writer inspect r head l i fact m j
      → Looped (count + 1) rs m j n t
      → Looped count (r ∷ rs) l i n t
  one-Reconciles count r rs l i head fact m j (err e) t read known closes more = more
  one-Reconciles count r rs l i head fact m j (ok n) t read known closes (sum, more) =
      (omega (arith, sum), (head, read, fact, known, m, j, closes, more))

  module _ (during : AuditAdmissionState) where
    one-Looped :
        (count : ℕ) (r : AuditRecord) (rs : List AuditRecord) (l : L) (i : I)
        (head : AuditLedgerHead) (answer : Result ReconcileAuditOutput)
        (rest : AuditSession L I → Result ℕ × AuditSession L I) (s : AuditSession L I)
        → count + length (r ∷ rs) ≤ 65535
        → reader.head l ≡ ok head
        → Closed writer inspect r head l i answer s.ledger s.world
        → ((u : AuditSession L I)
            → u.admission ≡ during
            → Looped (count + 1) rs u.ledger u.world (rest u).0 (rest u).1)
        → let (n, t) = reconciled_one during count answer rest s in Looped count (r ∷ rs) l i n t
    unfolding reconciled_one
    one-Looped count r rs l i head (err e) rest s bound read closes more = refl
    one-Looped count r rs l i head (ok output) rest s bound read closes more =
        let fits : ltb 65535 (count + 1) ≡ false = ground (arith, bound) in
        rw fits (elim (Bool-cases (is_unknown output.fact)) [
          | inl e ↦ rw e refl
          | inr e ↦ rw e (
              one-Reconciles count r rs l i head output.fact s.ledger s.world _ _ read e closes
                (more (record s { admission = during }) refl))
        ])

  module _ (during : AuditAdmissionState)
      (readable : (l : L) → (head : AuditLedgerHead) × (reader.head l ≡ ok head)) where
    reconcile_each-Looped :
        (rs : List AuditRecord) (count : ℕ) (s : AuditSession L I)
        → count + length rs ≤ 65535
        → s.admission ≡ during
        → let (n, t) = reconcile_each writer inspect reader during rs count s in
          Looped count rs s.ledger s.world n t
    unfolding reconcile_each with_head
    reconcile_each-Looped [] count s bound same = (omega arith, (refl, refl))
    reconcile_each-Looped (r ∷ rs) count s bound same =
        let (head, read) = readable s.ledger in
        rw read (
          one-Looped during count r rs s.ledger s.world head _ _ _ bound read
            (reconcile_incomplete_audit-Closed writer inspect r head s)
            (λ u e. reconcile_each-Looped rs (count + 1) u (omega (arith, bound)) e))

  -- The ledger was verified, nothing was unresolved, and every incomplete operation was reconciled.
  abbrev pub IsStarted :
      AuditSession L I → Result InitializeAuditLedgerOutput → AuditSession L I → Type 0
  IsStarted s (err e) t = is_healthy t.admission ≡ false
  IsStarted s (ok output) t =
      (t.admission ≡ healthy)
      × (report : AuditVerificationReport) × (l : L) × (reader.verify s.ledger ≡ (ok report, l))
      × (reader.unresolved_reconciliations l ≡ ok [])
      × (incomplete : List AuditRecord) × (reader.incomplete_operations l ≡ ok incomplete)
      × (output.reconciled_count ≡ length incomplete)
      × Reconciles incomplete l s.world t.ledger t.world

  module _ (readable : (l : L) → (head : AuditLedgerHead) × (reader.head l ≡ ok head))
      (s : AuditSession L I) (report : AuditVerificationReport) (l : L)
      (verifies : reader.verify s.ledger ≡ (ok report, l)) where
    all_reconciled-IsStarted :
        (rs : List AuditRecord) (n : Result ℕ) (t : AuditSession L I)
        → reader.unresolved_reconciliations l ≡ ok []
        → reader.incomplete_operations l ≡ ok rs
        → Looped 0 rs l s.world n t
        → let (answer, u) = all_reconciled reader report (length rs) reconciling (n, t) in
          IsStarted s answer u
    unfolding all_reconciled reopened admission_transition
    all_reconciled-IsStarted rs (err e) t none_left left closed = closed
    all_reconciled-IsStarted rs (ok n) t none_left left (sum, more) =
        let (head, read) = readable t.ledger in
        rw read (refl, report, l, verifies, none_left, rs, left, omega (arith, sum), more)

    with_incomplete-IsStarted :
        (found : Result (List AuditRecord))
        → reader.unresolved_reconciliations l ≡ ok []
        → reader.incomplete_operations l ≡ found
        → let (answer, u) =
            with_incomplete writer inspect reader verifying report found
              (record s { ledger = l; admission = verifying }) in
          IsStarted s answer u
    unfolding with_incomplete passed reconcile_all admission_transition
    with_incomplete-IsStarted (err e) none_left left = refl
    with_incomplete-IsStarted (ok []) none_left left =
        (refl, report, l, verifies, none_left, [], left, refl, (refl, refl))
    with_incomplete-IsStarted (ok (r ∷ rs)) none_left left =
        elim (Bool-cases (ltb 65535 (suc (length rs)))) [
          | inl e ↦ rw e refl
          | inr e ↦ rw e (
              all_reconciled-IsStarted (r ∷ rs) _ _ none_left left
                (reconcile_each-Looped reconciling readable (r ∷ rs) 0 _ (ground (arith, e)) refl))
        ]

    with_unresolved-IsStarted :
        (found : Result (List AuditRecord))
        → reader.unresolved_reconciliations l ≡ found
        → let (answer, u) =
            with_unresolved writer inspect reader verifying report found
              (record s { ledger = l; admission = verifying }) in
          IsStarted s answer u
    unfolding with_unresolved
    with_unresolved-IsStarted (err e) left = refl
    with_unresolved-IsStarted (ok (_ ∷ _)) left = refl
    with_unresolved-IsStarted (ok []) left = with_incomplete-IsStarted _ left refl

  verified-IsStarted :
      (readable : (l : L) → (head : AuditLedgerHead) × (reader.head l ≡ ok head))
      (s : AuditSession L I) (report : Result AuditVerificationReport) (l : L)
      → reader.verify s.ledger ≡ (report, l)
      → let (answer, t) =
          verified writer inspect reader verifying report
            (record s { ledger = l; admission = verifying }) in
        IsStarted s answer t
  unfolding verified admission_transition
  verified-IsStarted readable s (err e) l verifies = refl
  verified-IsStarted readable s (ok report) l verifies =
      with_unresolved-IsStarted readable s report l verifies _ refl

  -- A ledger that verifies and has nothing left open.
  abbrev pub IsClean : L → Type 0
  IsClean ledger =
      (report : AuditVerificationReport) × (l : L) × (reader.verify ledger ≡ (ok report, l))
      × (reader.unresolved_reconciliations l ≡ ok [])
      × (reader.incomplete_operations l ≡ ok [])

  clean-starts :
      (s : AuditSession L I)
      → IsClean s.ledger
      → is_ok (initialize_audit_ledger writer inspect reader s).0 ≡ true
  unfolding initialize_audit_ledger verify_from verified with_unresolved with_incomplete passed
      admission_transition
  clean-starts s (report, l, verifies, none_left, closed) = rw (verifies, none_left, closed) refl

  -- A start that succeeds admits mutations, and only after the ledger verified, named no unresolved
  -- reconciliation, and acknowledged for each incomplete operation in turn a record of a fact that the
  -- inspector knows; all of them are counted. A start that fails admits none, and the start of a ledger
  -- that verifies and has nothing left open does not fail. The head of the ledger can always be read.
  pub initialize_audit_ledger-IsStarted :
      (readable : (l : L) → (head : AuditLedgerHead) × (reader.head l ≡ ok head))
      (s : AuditSession L I)
      → let (answer, t) = initialize_audit_ledger writer inspect reader s in
        IsStarted s answer t × (IsClean s.ledger → is_ok answer ≡ true)
  unfolding initialize_audit_ledger verify_from admission_transition
  initialize_audit_ledger-IsStarted readable s =
      (verified-IsStarted readable s _ _ refl, clean-starts s)
