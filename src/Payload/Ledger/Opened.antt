-- ===== src/Payload/Ledger/Opened.antt =====
-- One name that opens every call of the ledger, for tests and for proofs that compute.
use edge.Domain.Exec.{◌>>=◌}
use edge.Payload.Ledger.{
  grant, reserve, refresh_pressure_after_usage_change, fail_accounting, reserve_within, live_charge,
  check_live, new, require_generation,
}
use edge.Payload.Ledger.Release.{
  release, remove_live_charge, take_charge, drop_charge, release_after_allocation_failure,
}
use edge.Payload.Ledger.Update.{
  resize, commit, transfer, replace_charge_bytes, swap_bytes, store_bytes, grow_to, mark_in_use,
  grow, move_charge, replace_previous,
}

-- Opens every call of the ledger.
unfoldable pub opened : Unit {0}
unfolding new ◌>>=◌ reserve require_generation reserve_within grant live_charge check_live
    fail_accounting replace_charge_bytes replace_previous swap_bytes store_bytes
    refresh_pressure_after_usage_change mark_in_use commit resize grow_to grow move_charge transfer
    take_charge drop_charge remove_live_charge release release_after_allocation_failure
opened = tt
