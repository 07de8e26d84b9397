-- ===== src/Payload/Tests.antt =====
-- The calls of the payload accounting on concrete ledgers.
use edge.Payload.Ledger.{reserve}
use edge.Payload.Ledger.Release.{release}
use edge.Prelude.{
  lookup, insert, remove, refl, some, [], ◌↔◌, ◌<◌, ◌≤◌, ◌+◌, arith, true, ◌≡◌, ◌≢◌, false, List,
  u64_max, ◌⊎◌, ◌∷◌, none,
}
use edge.Domain.Resources.{try_new, default_policy, granted}
use edge.Payload.Ledger.{
  new, request, client_response, failed_closed, PayloadBudgetLedger, PayloadCharge, exhausted,
}
use edge.Payload.Ledger.Calls.{run, step, run-new-Inv, reserves, resizes, Call, step-Inv}
use edge.Payload.Ledger.Opened.{opened}
use edge.Payload.Ledger.Invariant.{Inv}
use edge.Domain.Errors.{is_ok, ok}
use edge.Payload.Ledger.Closing.{closed_step, proper_stays_open, resize_reopens, ChangesSize}
use edge.Payload.Ledger.Effects.{release_live, resize_live}
use edge.Payload.Ledger.Exact.{reserve_iff}
use edge.Payload.Ledger.Update.{resize}
use edge.Payload.ClientResponse.{ClientResponseChargeChange, rollback, prepare, prepare_slot}
use edge.Payload.ClientResponse.Laws.{rollback-prepare}
use edge.Payload.RetryPair.{PairState}
use edge.Payload.RetryPair.Laws.{reserve_atomic, SameCharges}
use edge.Payload.Slot.{on_ledger, SlotState}
use edge.Payload.RetryPair

abbrev calls : List Call
calls = reserves 7 request 100 1 ∷ reserves 8 client_response 200 1 ∷ []

-- Two live charges of 100 and 200 bytes.
abbrev sample : PayloadBudgetLedger
sample = run (new default_policy 1) calls

run-new-Inv_example : Inv (run (new default_policy 1) calls)
unfolding try_new
run-new-Inv_example =
    run-new-Inv default_policy.max_connections default_policy.max_inflight_payload_bytes 1
      default_policy calls refl

sample-Inv : Inv sample
unfolding try_new
sample-Inv =
    run-new-Inv default_policy.max_connections default_policy.max_inflight_payload_bytes 1
      default_policy calls refl

abbrev first_charge : PayloadCharge
first_charge = record {
  id = 1;
  connection_id = 7;
  payload_class = request;
  charged_bytes = 100;
  generation = 1;
  state = granted;
}

first_at : lookup 1 sample.charges ≡ some first_charge
unfolding run step opened lookup insert remove
first_at = refl

sample_open : sample.pressure_state ≢ failed_closed
unfolding run step opened lookup insert remove
sample_open = ground arith

reserve_iff_example : (is_ok (reserve 9 request 50 1 sample).0 ≡ true) ↔ (
    (sample.pressure_state ≢ failed_closed)
    × (1 ≡ sample.generation)
    × (0 < 50)
    × (sample.used_bytes + 50 ≤ sample.limit_bytes)
    × (sample.next_charge_id < u64_max))
reserve_iff_example = reserve_iff 9 request 50 1 sample sample-Inv

generation_now : 1 ≡ sample.generation
unfolding run step opened lookup insert remove
generation_now = refl

release_live_example : is_ok (release 1 1 sample).0 ≡ true
release_live_example = (release_live 1 1 first_charge sample sample-Inv first_at generation_now).0

resized : is_ok (resize 1 500 1 sample).0 ≡ true
unfolding run step opened lookup insert remove
resized = refl

resize_live_example : (resize 1 500 1 sample).1.used_bytes + 100 ≡ sample.used_bytes + 500
resize_live_example = (resize_live 1 500 1 first_charge sample sample-Inv first_at resized).0

proper_stays_open_example : (step (reserves 9 request 50 1) sample).1.pressure_state ≢ failed_closed
unfolding run step opened lookup insert remove
proper_stays_open_example =
    proper_stays_open sample (reserves 9 request 50 1) sample-Inv sample_open
      (refl, ground arith, ground arith)

refused : is_ok (step (resizes 9 500 1) sample).0 ≡ false
unfolding run step opened lookup insert remove
refused = refl

-- A resize of a charge that is not there closes the ledger.
abbrev shut : PayloadBudgetLedger
shut = (step (resizes 9 500 1) sample).1

shut_closed : shut.pressure_state ≡ failed_closed
unfolding run step opened lookup insert remove
shut_closed = refl

shut-Inv : Inv shut
shut-Inv = step-Inv (resizes 9 500 1) sample sample-Inv

closed_step_example :
    let (r, l') = step (resizes 1 200000000 1) shut in
    (l'.pressure_state ≡ failed_closed)
    ⊎ ((is_ok r ≡ false) × (l'.pressure_state ≡ exhausted) × ChangesSize (resizes 1 200000000 1))
closed_step_example = closed_step shut (resizes 1 200000000 1) shut_closed

shut_first : lookup 1 shut.charges ≡ some first_charge
unfolding run step opened lookup insert remove
shut_first = refl

resize_reopens_example : (resize 1 200000000 1 shut).1.pressure_state ≡ exhausted
unfolding run step opened lookup insert remove
resize_reopens_example =
    (resize_reopens shut 1 200000000 first_charge shut-Inv shut_closed shut_first (ground arith)
      (ground arith) (ground arith) (ground arith)).0

abbrev installed : SlotState
installed = record { slot = some 2; ledger = sample }

abbrev growth : ClientResponseChargeChange
growth = record { charge_id = 2; previous_bytes = some 200; next_bytes = 900 }

growth_prepared : prepare 8 900 installed ≡ (ok growth, (prepare 8 900 installed).1)
unfolding run step opened lookup insert remove prepare prepare_slot on_ledger
growth_prepared = refl

rollback-prepare_example : SameCharges sample (rollback growth (prepare 8 900 installed).1).1.ledger
rollback-prepare_example =
    (rollback-prepare 8 900 installed (prepare 8 900 installed).1 growth sample-Inv
      growth_prepared).2

abbrev empty_pair : PairState
empty_pair = record { upstream_slot = none; retry_replay_slot = none; ledger = sample }

-- The first reservation fits and the second does not.
pair_refused : is_ok (RetryPair.reserve 7 100 900000000 empty_pair).0 ≡ false
unfolding run step opened lookup insert remove RetryPair.reserve RetryPair.reserve_replay
    RetryPair.with_ledger
pair_refused = refl

reserve_atomic_example : SameCharges sample (RetryPair.reserve 7 100 900000000 empty_pair).1.ledger
reserve_atomic_example = (reserve_atomic 7 100 900000000 empty_pair sample-Inv pair_refused).2
