-- ===== src/Application/Audit/Mutation/Recorded.antt =====
-- What the ledger, the admission and the world look like after an audited mutation.
use edge.Application.Audit.{
  AuditLedgerWriter, AuditPersistentOperationInput, AuditSession, Outcome, intent_of, raised,
  record_for_operation, returned,
}
use edge.Application.Audit.Calls.{
  begin_audit_operation, complete_audit_operation, begin_from, intent_appended, terminal_appended,
}
use edge.Application.Audit.Mutation.{
  AuditMutationEffect, AuditedMutationFailure, AuditedMutationOutput, Effect,
  execute_audited_mutation, after_begin, after_effect, after_commit, after_rejection,
}
use edge.Domain.Audit.{
  AuditId, AuditLedgerHead, AuditOutcome, AuditRecord, terminal, succeeded, failed,
}
use edge.Domain.Audit.Codes.{parse_id-as_str}
use edge.Domain.Audit.States.{
  AuditAdmissionState, committed, rejected, completed, audit_degraded_committed,
  audit_degraded_rejected, terminal_persisting, transition, degraded, healthy, is_healthy,
  intent_persisting,
}
use edge.Domain.Errors.{AppError, Result, err, ok, is_ok}
use edge.Domain.Errors.Names.{as_str}
use edge.Prelude.{◌≢◌, List, Memᴰ, none, some, ◌≡◌, ◌⊎◌, inl, inr, Option, refl, ap, true, false}

admission_cases :
    (a : AuditAdmissionState)
    → ((a ≡ healthy) × (is_healthy a ≡ true)) ⊎ ((a ≢ healthy) × (is_healthy a ≡ false))
admission_cases healthy = inl (refl, refl)
admission_cases a = inr ((λ e. cc), refl)

-- What a ledger owes its caller: a record that was acknowledged is published.
pub record Publishes {L : Type 0} (writer : AuditLedgerWriter L) : Type 0 where
  pub published : L → List AuditRecord
  pub intent_published :
      (r : AuditRecord) (l : L) (head : AuditLedgerHead)
      → (writer.append_intent r l).0 ≡ ok head
      → Memᴰ r (published (writer.append_intent r l).1)
  pub terminal_published :
      (r : AuditRecord) (expected : AuditLedgerHead) (l : L) (head : AuditLedgerHead)
      → (writer.append_terminal r expected l).0 ≡ ok head
      → Memᴰ r (published (writer.append_terminal r expected l).1)

-- The terminal record of an operation.
abbrev pub ended_with :
    AuditPersistentOperationInput → AuditOutcome → Option AuditId → Option AuditId → AuditRecord
ended_with operation outcome after_revision error_code =
    record_for_operation operation terminal (some outcome) after_revision error_code

-- The caller is told that the effect did not run.
abbrev pub IsUnrun :
    {T : Type 0} → Outcome (AuditedMutationOutput T) (AuditedMutationFailure T) → Type 0
IsUnrun (returned output) = ⊥
IsUnrun (raised f) = (f.effect_state ≡ none) × (f.committed_value ≡ none) × (f.effect_error ≡ none)

module _ {L E T : Type 0} (writer : AuditLedgerWriter L) (laws : Publishes writer) where
  -- The terminal record of a committed effect is published and the value returned, or the failure still
  -- carries the value and further mutations are blocked.
  abbrev pub IsToldCommit :
      AuditPersistentOperationInput
      → AuditMutationEffect T
      → Outcome (AuditedMutationOutput T) (AuditedMutationFailure T)
      → AuditSession L E
      → Type 0
  IsToldCommit operation effect (returned output) t =
      (output.value ≡ effect.value)
      × (output.audit.state ≡ completed)
      × (t.admission ≡ healthy)
      × Memᴰ (ended_with operation succeeded effect.after_revision none) (laws.published t.ledger)
  IsToldCommit operation effect (raised f) t =
      (f.committed_value ≡ some effect.value)
      × (f.state ≡ audit_degraded_committed)
      × (t.admission ≡ degraded)

  -- The same for an effect that failed with an error of its own.
  abbrev pub IsToldRejection :
      AuditPersistentOperationInput
      → AppError
      → Outcome (AuditedMutationOutput T) (AuditedMutationFailure T)
      → AuditSession L E
      → Type 0
  IsToldRejection operation e (returned output) t = ⊥
  IsToldRejection operation e (raised f) t =
      (f.effect_error ≡ some e)
      × (f.committed_value ≡ none)
      × (f.effect_state ≡ some rejected)
      × (((f.error ≡ e)
            × (f.state ≡ completed)
            × (t.admission ≡ healthy)
            × Memᴰ (ended_with operation failed none (some (as_str e.code)))
                (laws.published t.ledger))
          ⊎ ((f.state ≡ audit_degraded_rejected) × (t.admission ≡ degraded)))

  abbrev pub IsTold :
      AuditPersistentOperationInput
      → Result (AuditMutationEffect T)
      → Outcome (AuditedMutationOutput T) (AuditedMutationFailure T)
      → AuditSession L E
      → Type 0
  IsTold operation (ok effect) answer t = IsToldCommit operation effect answer t
  IsTold operation (err e) answer t = IsToldRejection operation e answer t

  commit_appended :
      (operation : AuditPersistentOperationInput) (head : AuditLedgerHead)
      (effect : AuditMutationEffect T) (appended : Result AuditLedgerHead) (t : AuditSession L E)
      → t.admission ≡ healthy
      → ((h : AuditLedgerHead)
          → appended ≡ ok h
          → Memᴰ
              (ended_with operation succeeded effect.after_revision none)
              (laws.published t.ledger))
      → let (c, u) =
          terminal_appended committed
            (terminal_persisting committed)
            (ended_with operation succeeded effect.after_revision none)
            appended
            t in
        IsToldCommit operation effect (after_commit head effect.value c) u × (u.world ≡ t.world)
  unfolding terminal_appended transition after_commit
  commit_appended operation head effect (ok h) t able law = ((refl, refl, able, law h refl), refl)
  commit_appended operation head effect (err e) t able law = ((refl, refl, refl), refl)

module _ {L E : Type 0} (T : Type 0) (writer : AuditLedgerWriter L) (laws : Publishes writer) where
  rejection_appended :
      (operation : AuditPersistentOperationInput) (head : AuditLedgerHead) (e : AppError)
      (appended : Result AuditLedgerHead) (t : AuditSession L E)
      → t.admission ≡ healthy
      → ((h : AuditLedgerHead)
          → appended ≡ ok h
          → Memᴰ
              (ended_with operation failed none (some (as_str e.code)))
              (laws.published t.ledger))
      → let (c, u) =
          terminal_appended rejected
            (terminal_persisting rejected)
            (ended_with operation failed none (some (as_str e.code)))
            appended
            t in
        IsToldRejection writer laws operation e (after_rejection {T = T} head e c) u
        × (u.world ≡ t.world)
  unfolding terminal_appended transition after_rejection
  rejection_appended operation head e (ok h) t able law =
      ((refl, refl, refl, inl (refl, refl, able, law h refl)), refl)
  rejection_appended operation head e (err f) t able law =
      ((refl, refl, refl, inr (refl, refl)), refl)

module _ {L E T : Type 0} (writer : AuditLedgerWriter L) (laws : Publishes writer) where
  after_effect-IsTold :
      (operation : AuditPersistentOperationInput) (head : AuditLedgerHead)
      (answer : Result (AuditMutationEffect T)) (s : AuditSession L E)
      → s.admission ≡ healthy
      → let (told, t) = after_effect writer operation head answer s in
        IsTold writer laws operation answer told t × (t.world ≡ s.world)
  unfolding after_effect complete_audit_operation
  after_effect-IsTold operation head (ok effect) s able =
      commit_appended writer laws operation head effect _ _ able
        (laws.terminal_published _ head s.ledger)
  after_effect-IsTold operation head (err e) s able = rw (parse_id-as_str e.code) (
      rejection_appended T writer laws operation head e _ _ able
        (laws.terminal_published _ head s.ledger))

  -- The effect did not run, or it ran once, after the intent was published.
  abbrev pub IsAudited :
      AuditPersistentOperationInput
      → Effect E T
      → AuditSession L E
      → Outcome (AuditedMutationOutput T) (AuditedMutationFailure T)
      → AuditSession L E
      → Type 0
  IsAudited operation effect s told t =
      (IsUnrun told
        × (t.world ≡ s.world)
        × (t.admission ≡ s.admission)
        × ((s.admission ≢ healthy)
            ⊎ (is_ok (writer.append_intent (intent_of operation) s.ledger).0 ≡ false)))
      ⊎ ((s.admission ≡ healthy)
          × (is_ok (writer.append_intent (intent_of operation) s.ledger).0 ≡ true)
          × Memᴰ (intent_of operation)
              (laws.published (writer.append_intent (intent_of operation) s.ledger).1)
          × (t.world ≡ (effect s.world).1)
          × IsTold writer laws operation (effect s.world).0 told t)

  intent_appended-IsAudited :
      (operation : AuditPersistentOperationInput) (effect : Effect E T) (s : AuditSession L E)
      (appended : Result AuditLedgerHead) (l : L)
      → s.admission ≡ healthy
      → (writer.append_intent (intent_of operation) s.ledger) ≡ (appended, l)
      → let (begun, t) =
          intent_appended intent_persisting
            (intent_of operation)
            appended
            (record s { ledger = l }) in
        let (told, u) = after_begin writer operation effect begun t in
        IsAudited operation effect s told u
  unfolding intent_appended transition after_begin
  intent_appended-IsAudited operation effect s (err e) l able same =
      inl ((refl, refl, refl), refl, refl, inr (rw same refl))
  intent_appended-IsAudited operation effect s (ok head) l able same =
      let (told, kept) =
        after_effect-IsTold operation head (effect s.world).0
          (record s { ledger = l; world = (effect s.world).1 }) able in
      let acknowledged : (writer.append_intent (intent_of operation) s.ledger).0 ≡ ok head =
        ap (λ p. p.0) same in
      inr (able, rw same refl, laws.intent_published _ _ head acknowledged, kept, told)

  -- An audited mutation of a healthy ledger runs its effect once, after the ledger published the intent;
  -- when the ledger is not healthy or refuses the intent, the effect does not run and the caller is told so. When the effect committed, the caller
  -- has its value and either the terminal record is published too, or the admission is degraded, which
  -- blocks further mutations. When the effect failed, the caller has its error and the same holds of
  -- the terminal record, which carries the code of that error. The ledger publishes what it
  -- acknowledges.
  pub execute_audited_mutation-IsAudited :
      (operation : AuditPersistentOperationInput) (effect : Effect E T) (s : AuditSession L E)
      → let (told, t) = execute_audited_mutation writer operation effect s in
        IsAudited operation effect s told t
  unfolding execute_audited_mutation begin_audit_operation begin_from transition
  execute_audited_mutation-IsAudited operation effect s = elim (admission_cases s.admission) [
    | inl (able, passes) ↦ rw passes (intent_appended-IsAudited operation effect s _ _ able refl)
    | inr (unable, blocked) ↦ rw blocked (inl ((refl, refl, refl), refl, refl, inl unable))
  ]
