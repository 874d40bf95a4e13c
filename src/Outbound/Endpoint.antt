-- ===== src/Outbound/Endpoint.antt =====
-- `Current`, `Retry` and `Endpoint` of internal/outbound/lifecycle.go. A generation is a number, and
-- the zero value of its type is `none`.
use qmux.Base.{
  ℕ, ◌+◌, ◌%◌, ◌^◌, Bool, true, false, not, Option, none, some, ltb, ◌==◌, if◌then◌else◌,
}

abbrev pub Current : Type 0
Current = Option ℕ

-- `Empty`.
abbrev pub is_empty : Current → Bool
is_empty none = true
is_empty (some g) = false

-- `Is`.
unfoldable pub is : Current → Option ℕ → Bool
is none expected = false
is (some g) none = false
is (some g) (some e) = g == e

-- `Replace`.
unfoldable pub replace : Current → Option ℕ → Current × (Option ℕ × Bool)
replace c next = (next, (c, not (is_empty c)))

-- `Publish`.
unfoldable pub publish : Current → Option ℕ → Current × Bool
publish c none = (c, false)
publish none (some g) = (some g, true)
publish (some d) (some g) = (some d, false)

-- `Retire`.
unfoldable pub retire : Current → Option ℕ → Current × Bool
unfolding is
retire c expected = if is c expected then (none, true) else (c, false)

-- `Take`.
unfoldable pub take : Current → Current × Option ℕ
take c = (none, c)

pub record Endpoint : Type 0 where
  pub current : Current
  pub stage : ℕ
  pub attempts : ℕ
  pub reconnecting : Bool

-- `AdvanceRetry`.
unfoldable pub advance_retry : Endpoint → ℕ → ℕ → Endpoint
advance_retry e stage maximum = record e {
  stage = if ltb maximum (stage + 1) then maximum else stage + 1;
  attempts = (e.attempts + 1) % 2 ^ 64;
}

-- `SetRetryStage` and `ResetRetry`.
unfoldable pub set_retry_stage : Endpoint → ℕ → Endpoint
set_retry_stage e stage = record e { stage = stage }

unfoldable pub reset_retry : Endpoint → Endpoint
reset_retry e = record e { stage = 0 }

-- Whether the intent to reconnect is about the endpoint's state: nothing published and nothing
-- expected, or exactly the expected generation.
abbrev pub is_about : Current → Option ℕ → Bool
is_about c none = is_empty c
is_about c (some g) = is c (some g)

-- `ClaimReconnect`.
unfoldable pub claim_reconnect : Endpoint → Option ℕ → Endpoint × Bool
unfolding is
claim_reconnect e expected =
    if e.reconnecting
    then (e, false)
    else if is_about e.current expected
    then (record e { reconnecting = true }, true)
    else (e, false)

-- `ReleaseReconnect`.
unfoldable pub release_reconnect : Endpoint → Endpoint
release_reconnect e = record e { reconnecting = false }

-- `RetireForReconnect`.
unfoldable pub retire_for_reconnect : Endpoint → Option ℕ → Bool → Endpoint × Bool
unfolding retire reset_retry
retire_for_reconnect e expected stable =
    let (current, retired) = retire e.current expected in
    let retired_endpoint : Endpoint = record e { current = current } in
    if not retired
    then (e, false)
    else (if stable then reset_retry retired_endpoint else retired_endpoint, true)
