-- ===== src/Application/Audit/Calls.antt =====
-- crates/edge-application/src/audit.rs: `begin_audit_operation` and `complete_audit_operation`.
use edge.Application.Audit.{
  AuditLedgerWriter, AuditPersistentOperationInput, AuditSession, BeginAuditOperationFailure,
  BeginAuditOperationOutput, CompleteAuditOperationFailure, CompleteAuditOperationInput,
  CompleteAuditOperationOutput, Outcome, intent_of, raised, record_for_operation, returned,
}
use edge.Domain.Audit.{
  AuditLedgerHead, AuditOutcome, AuditRecord, Validated, failed, invalid, succeeded, terminal,
  valid,
}
use edge.Domain.Audit.Names.{error_name}
use edge.Domain.Audit.States.{
  AuditEffectState, AuditOperationEvent, AuditOperationState, allows, begin_intent, begin_terminal,
  committed, degraded, effect_running, effect_was_committed, effect_was_rejected,
  intent_append_failed, intent_was_persisted, persistent_mutation, received, rejected,
  rejected_no_effect, terminal_append_failed, terminal_persisted, transition,
}
use edge.Domain.Errors.{ErrorCode, Result, err, new_error, ok}
use edge.Prelude.{Bool, false, true, some, ◌&&◌, if◌then◌else◌, is_none, is_some, not, String}

-- `.expect(...)`: the second argument stands for the panic.
abbrev expect : Validated AuditOperationState → AuditOperationState → AuditOperationState
expect (valid state) panic = state
expect (invalid e) panic = panic

abbrev and_then :
    Validated AuditOperationState
    → (AuditOperationState → Validated AuditOperationState)
    → Validated AuditOperationState
and_then (invalid e) next = invalid e
and_then (valid state) next = next state

abbrev is_committed : AuditEffectState → Bool
is_committed committed = true
is_committed rejected = false

abbrev effect_event : AuditEffectState → AuditOperationEvent
effect_event committed = effect_was_committed
effect_event rejected = effect_was_rejected

abbrev effect_outcome : AuditEffectState → AuditOutcome
effect_outcome committed = succeeded
effect_outcome rejected = failed

abbrev refuse_terminal :
    CompleteAuditOperationInput
    → AuditOperationState
    → String
    → Outcome CompleteAuditOperationOutput CompleteAuditOperationFailure
refuse_terminal input state message = raised (record {
  error = new_error ErrorCode.audit_record_invalid message;
  state = state;
  effect_state = input.effect_state;
})

module _ {L E : Type 0} where
  unfoldable pub intent_appended :
      AuditOperationState
      → AuditRecord
      → Result AuditLedgerHead
      → AuditSession L E
      → Outcome BeginAuditOperationOutput BeginAuditOperationFailure × AuditSession L E
  intent_appended state begun (err e) s = (
    raised (record { error = e; state = expect (transition state intent_append_failed) received }),
    s,
  )
  intent_appended state begun (ok head) s = (
    returned (record {
      head = head;
      state = expect (transition state intent_was_persisted) received;
      begun = begun;
    }),
    s,
  )

  unfoldable pub terminal_appended :
      AuditEffectState
      → AuditOperationState
      → AuditRecord
      → Result AuditLedgerHead
      → AuditSession L E
      → Outcome CompleteAuditOperationOutput CompleteAuditOperationFailure × AuditSession L E
  terminal_appended effect_state state ended (ok head) s = (
    returned (record {
      head = head;
      state = expect (transition state terminal_persisted) received;
      ended = ended;
      effect_state = effect_state;
    }),
    s,
  )
  terminal_appended effect_state state ended (err e) s = (
    raised (record {
      error = e;
      state = expect (transition state terminal_append_failed) received;
      effect_state = effect_state;
    }),
    record s { admission = degraded },
  )

module _ {L E : Type 0} (writer : AuditLedgerWriter L) where
  unfoldable pub begin_from :
      AuditPersistentOperationInput
      → Validated AuditOperationState
      → AuditSession L E
      → Outcome BeginAuditOperationOutput BeginAuditOperationFailure × AuditSession L E
  begin_from input (invalid e) s = (
    raised (record {
      error = new_error ErrorCode.audit_record_invalid (error_name e);
      state = rejected_no_effect;
    }),
    s,
  )
  begin_from input (valid state) s =
      let begun = intent_of input in
      let (appended, ledger) = writer.append_intent begun s.ledger in
      intent_appended state begun appended (record s { ledger = ledger })

  unfoldable pub begin_audit_operation :
      AuditPersistentOperationInput
      → AuditSession L E
      → Outcome BeginAuditOperationOutput BeginAuditOperationFailure × AuditSession L E
  unfolding transition allows begin_from intent_appended record_for_operation
  begin_audit_operation input s =
      if not (allows s.admission persistent_mutation)
      then (
        raised (record {
          error =
              new_error ErrorCode.audit_mutation_blocked
                "persistent mutation requires a healthy audit ledger";
          state = rejected_no_effect;
        }),
        s,
      )
      else begin_from input (transition received begin_intent) s

  terminal_from :
      CompleteAuditOperationInput
      → Validated AuditOperationState
      → AuditSession L E
      → Outcome CompleteAuditOperationOutput CompleteAuditOperationFailure × AuditSession L E
  terminal_from input (invalid e) s = (
    raised (record {
      error = new_error ErrorCode.audit_record_invalid "invalid audit terminal state";
      state = effect_running;
      effect_state = input.effect_state;
    }),
    s,
  )
  terminal_from input (valid state) s =
      let ended =
        record_for_operation input.operation terminal (some (effect_outcome input.effect_state))
          input.after_revision input.error_code in
      let (appended, ledger) = writer.append_terminal ended input.expected_head s.ledger in
      if is_committed input.effect_state && is_some input.error_code
      then (refuse_terminal input state "committed audit terminal cannot include an error code", s)
      else if not (is_committed input.effect_state) && is_none input.error_code
      then (refuse_terminal input state "rejected audit terminal requires a stable error code", s)
      else terminal_appended input.effect_state state ended appended (record s { ledger = ledger })

  unfoldable pub complete_audit_operation :
      CompleteAuditOperationInput
      → AuditSession L E
      → Outcome CompleteAuditOperationOutput CompleteAuditOperationFailure × AuditSession L E
  unfolding transition terminal_from terminal_appended record_for_operation
  complete_audit_operation input s =
      let running = transition effect_running (effect_event input.effect_state) in
      terminal_from input (and_then running (λ state. transition state begin_terminal)) s
