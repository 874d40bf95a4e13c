-- ===== src/Outbound/Examples.antt =====
-- Runs of the outbound endpoint, owner and delay.
use qmux.Base.{ℕ, suc, ◌≡◌, refl, ◌-◌, ◌/◌, ◌<◌, ◌≤◌, true, none, some, List, [], ◌∷◌, arith}
use qmux.Outbound.Owner.{new_owner, cancels, stops, joins, closes_done}
use qmux.Outbound.Delay.{reconnect_delay, cap_of, reconnect_delay_returns}
use qmux.Outbound.Reconnects.{
  Call, publishes, replaces, retires, takes, releases, claims, advances, run, new_log, IsExact,
  run-IsExact,
}
use qmux.Outbound.Ownership.{IsOwned, run-IsOwned}
use qmux.Outbound.Ownership

-- A reconnect claimed, refused, and served; a generation retired by name, another one replaced.
abbrev calls : List Call
calls =
    claims none
    ∷ claims none
    ∷ publishes 7
    ∷ publishes 8
    ∷ releases
    ∷ retires (some 8) true
    ∷ claims (some 7)
    ∷ advances 2 4
    ∷ retires (some 7) true
    ∷ publishes 9
    ∷ replaces 10
    ∷ takes
    ∷ []

run_published : (run new_log calls).published ≡ 7 ∷ 9 ∷ 10 ∷ []
unfolding run
run_published = refl

run_stage : (run new_log calls).endpoint.stage ≡ 0
unfolding run
run_stage = refl

run-IsExact_example : IsExact (run new_log calls)
run-IsExact_example = run-IsExact calls

-- A resource that arrives after the stop is stopped at once.
abbrev owner_calls : List Ownership.Call
owner_calls =
    Ownership.sets (some 1) (some 2)
    ∷ Ownership.stops_owner
    ∷ Ownership.sets (some 3) (some 4)
    ∷ Ownership.finishes
    ∷ Ownership.finishes
    ∷ []

owner_effects :
    (Ownership.run (new_owner true) owner_calls).effects
    ≡ cancels ∷ stops 1 ∷ stops 3 ∷ joins 4 ∷ closes_done ∷ []
unfolding Ownership.run new_owner
owner_effects = refl

run-IsOwned_example : IsOwned owner_calls (Ownership.run (new_owner true) owner_calls)
run-IsOwned_example = run-IsOwned true owner_calls

abbrev largest : ℕ → ℕ
largest n = n - 1

largest_small : (n : ℕ) → largest (suc n) < suc n
largest_small n = omega arith

reconnect_delay_returns_example :
    (d : ℕ) × (reconnect_delay 2 largest ≡ some d) × (cap_of 2 / 2 ≤ d) × (d < cap_of 2)
reconnect_delay_returns_example = reconnect_delay_returns 2 largest largest_small
