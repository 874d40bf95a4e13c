-- ===== src/ClientUdp/Budget.antt =====
-- `udpSessionBudget` of client/udp_handler.go.
use qmux.Base.{ℕ, ◌+◌, ◌-◌, max, Bool, true, false, ltb, ◌==◌, not, if◌then◌else◌}
use qmux.ClientUdp.State.{Budget, default_max_local_udp_sessions}

-- `newUDPSessionBudget`.
unfoldable pub new_budget : ℕ → Budget
new_budget limit = record {
  limit = if limit == 0 then default_max_local_udp_sessions else limit;
  slots = 0;
  permits_held = 0;
  published_active = 0;
  max_permits_held = 0;
  limit_drops = 0;
  accounting_faults = 0;
  pending_drops = 0;
  create_errors = 0;
  write_errors = 0;
}

-- `acquire`.
unfoldable pub acquire : Budget → Budget × Bool
acquire b =
    if not (b.accounting_faults == 0)
    then (b, false)
    else if ltb b.slots b.limit
    then (
      record b {
        slots = b.slots + 1;
        permits_held = b.permits_held + 1;
        max_permits_held = max b.max_permits_held (b.permits_held + 1);
      },
      true,
    )
    else (record b { limit_drops = b.limit_drops + 1 }, false)

-- The permit's release, without the `sync.Once` around it.
unfoldable pub give_back : Budget → Budget
give_back b =
    if b.slots == 0
    then record b { accounting_faults = b.accounting_faults + 1 }
    else if b.permits_held == 0
    then record b { slots = b.slots - 1; accounting_faults = b.accounting_faults + 1 }
    else record b { slots = b.slots - 1; permits_held = b.permits_held - 1 }

-- `publish` and `unpublish`.
unfoldable pub publish : Budget → Budget
publish b = record b { published_active = b.published_active + 1 }

unfoldable pub unpublish : Budget → Budget
unpublish b =
    if b.published_active == 0
    then record b { accounting_faults = b.accounting_faults + 1 }
    else record b { published_active = b.published_active - 1 }

abbrev pub drop_pending : Budget → Budget
drop_pending b = record b { pending_drops = b.pending_drops + 1 }

-- `recordCreateFailure` and `recordWriteFailure`: a failure during teardown does not count.
abbrev pub record_create_failure : Bool → Budget → Budget
record_create_failure true b = b
record_create_failure false b = record b { create_errors = b.create_errors + 1 }

abbrev pub record_write_failure : Bool → Budget → Budget
record_write_failure true b = b
record_write_failure false b = record b { write_errors = b.write_errors + 1 }
