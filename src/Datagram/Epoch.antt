-- ===== src/Datagram/Epoch.antt =====
-- `AllocateUDPEpoch` under interference.
use qmux.Base.{ℕ, ◌≡◌, ◌-◌, ◌^◌, ◌≤◌, ◌<◌, List, [], ◌∷◌, Option, none, some, arith, All}
use qmux.Datagram.{allocate_udp_epoch}

-- What a call that saw no counter below `least` and none above the uint32 range may return.
abbrev pub IsFreshEpoch : ℕ → Option ℕ × ℕ → Type 0
IsFreshEpoch least (none, counter) = counter ≡ 2 ^ 32 - 1
IsFreshEpoch least (some epoch, counter) = (counter ≡ epoch) × (least < epoch) × (epoch < 2 ^ 32)

abbrev pub IsSeen : ℕ → ℕ → Type 0
IsSeen least value = (least ≤ value) × (value < 2 ^ 32)

-- However other goroutines move the counter meanwhile, as long as it stays a uint32 of at least
-- `least`: a call returns an epoch above `least`, so it is never 0 and never one handed out before,
-- and leaves it in the counter; or it refuses, with the counter at the end of its range. It never
-- wraps.
pub allocate_fresh :
    (least : ℕ) (env : List ℕ) (current : ℕ)
    → All (IsSeen least) env
    → IsSeen least current
    → IsFreshEpoch least (allocate_udp_epoch env current)
unfolding allocate_udp_epoch
allocate_fresh least [] current he hc = ground arith
allocate_fresh least (seen ∷ later) current he hc =
    ground (arith, allocate_fresh least later seen he.1 he.0)
