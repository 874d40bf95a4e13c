-- ===== src/Outbound/Delay.antt =====
-- The reconnect delay of internal/outbound/outbound.go, in nanoseconds.
use qmux.Base.{
  ℕ, zero, suc, ◌≡◌, ◌+◌, ◌-◌, ◌*◌, ◌/◌, ◌≤◌, ◌<◌, ◌&&◌, Option, none, some, ltb, if◌then◌else◌,
  arith, min,
}

abbrev pub initial_reconnect_delay : ℕ
initial_reconnect_delay = 5_000_000_000

abbrev pub max_reconnect_delay : ℕ
max_reconnect_delay = 60_000_000_000

-- The loop of `ReconnectDelay`; `none` means that the fuel ran out.
unfoldable pub delay_loop : ℕ → ℕ → ℕ → Option ℕ
delay_loop zero stage delay_cap = none
delay_loop (suc fuel) stage delay_cap =
    let rest = delay_loop fuel (stage - 1) (min (delay_cap * 2) max_reconnect_delay) in
    if ltb 0 stage && ltb delay_cap max_reconnect_delay then rest else some delay_cap

-- `ReconnectDelay`, over the random source `int64n`. Five rounds of fuel suffice.
unfoldable pub reconnect_delay : ℕ → (ℕ → ℕ) → Option ℕ
unfolding delay_loop
reconnect_delay stage int64n = elim (delay_loop 5 stage initial_reconnect_delay) [
  | none ↦ none
  | some delay_cap ↦ some (delay_cap / 2 + int64n (delay_cap / 2))
]

-- The cap of a stage in closed form.
abbrev pub cap_of : ℕ → ℕ
cap_of zero = 5_000_000_000
cap_of (suc zero) = 10_000_000_000
cap_of (suc (suc zero)) = 20_000_000_000
cap_of (suc (suc (suc zero))) = 40_000_000_000
cap_of (suc (suc (suc (suc n)))) = 60_000_000_000

delay_loop_lem : (stage : ℕ) → delay_loop 5 stage initial_reconnect_delay ≡ some (cap_of stage)
unfolding delay_loop
delay_loop_lem zero = ground arith
delay_loop_lem (suc zero) = ground arith
delay_loop_lem (suc (suc zero)) = ground arith
delay_loop_lem (suc (suc (suc zero))) = ground arith
delay_loop_lem (suc (suc (suc (suc n)))) = ground arith

cap_of_bounds : (stage : ℕ) → (5_000_000_000 ≤ cap_of stage) × (cap_of stage ≤ 60_000_000_000)
cap_of_bounds zero = omega arith
cap_of_bounds (suc zero) = omega arith
cap_of_bounds (suc (suc zero)) = omega arith
cap_of_bounds (suc (suc (suc zero))) = omega arith
cap_of_bounds (suc (suc (suc (suc n)))) = omega arith

-- With a random source that stays below its bound, `ReconnectDelay` returns at every stage, after
-- at most four rounds of its loop: at least half of the stage's cap and less than the cap, which
-- doubles from 5 s with each stage and stops at 60 s.
pub reconnect_delay_returns :
    (stage : ℕ) (int64n : ℕ → ℕ)
    → ((n : ℕ) → int64n (suc n) < suc n)
    → (d : ℕ) × (reconnect_delay stage int64n ≡ some d)
      × (cap_of stage / 2 ≤ d)
      × (d < cap_of stage)
unfolding reconnect_delay
reconnect_delay_returns stage int64n small =
    let c : ℕ = cap_of stage in
    let half : suc (c / 2 - 1) ≡ c / 2 = omega (arith, cap_of_bounds stage) in
    let bound : int64n (c / 2) < c / 2 = rw (← half) (small (c / 2 - 1)) in
    (c / 2 + int64n (c / 2), rw (delay_loop_lem stage, reconnect_delay), omega arith, omega arith)
