-- ===== src/Assembler/Shards.antt =====
-- Sums and predicates over the list of shards, as one shard is replaced.
use qmux.Base.{ℕ, zero, suc, ◌≡◌, refl, ◌+◌, ◌<◌, List, [], ◌∷◌, length, get_or, set, arith}
use qmux.Base.Assoc.{AllValues}
use qmux.Assembler.{key_Eq, Shard, Group}

unfoldable pub sum_shards : (Shard → ℕ) → List Shard → ℕ
sum_shards f [] = 0
sum_shards f (s ∷ ss) = f s + sum_shards f ss

pub sum_shards-set :
    (f : Shard → ℕ) (ss : List Shard) (i : ℕ) (s : Shard)
    → i < length ss
    → sum_shards f (set ss i s) + f (get_or ss i []) ≡ sum_shards f ss + f s
unfolding sum_shards
sum_shards-set f [] i s h = elim h [ ]
sum_shards-set f (t ∷ ss) zero s h = omega arith
sum_shards-set f (t ∷ ss) (suc i) s h = omega (arith, sum_shards-set f ss i s (omega arith))

abbrev pub AllGroups : (Group → Type 0) → List Shard → Type 0
AllGroups P [] = Unit
AllGroups P (s ∷ ss) = AllValues P s × AllGroups P ss

pub get_or-AllGroups :
    (P : Group → Type 0) (ss : List Shard) (i : ℕ) → AllGroups P ss → AllValues P (get_or ss i [])
get_or-AllGroups P [] i h = tt
get_or-AllGroups P (s ∷ ss) zero h = h.0
get_or-AllGroups P (s ∷ ss) (suc i) h = get_or-AllGroups P ss i h.1

pub set-AllGroups :
    (P : Group → Type 0) (ss : List Shard) (i : ℕ) (s : Shard)
    → AllGroups P ss
    → AllValues P s
    → AllGroups P (set ss i s)
set-AllGroups P [] i s h p = tt
set-AllGroups P (t ∷ ss) zero s h p = (p, h.1)
set-AllGroups P (t ∷ ss) (suc i) s h p = (h.0, set-AllGroups P ss i s h.1 p)

pub get_or-set_self :
    (ss : List Shard) (i : ℕ) (s : Shard) → i < length ss → get_or (set ss i s) i [] ≡ s
get_or-set_self [] i s h = elim h [ ]
get_or-set_self (t ∷ ss) zero s h = refl
get_or-set_self (t ∷ ss) (suc i) s h = get_or-set_self ss i s (omega arith)
