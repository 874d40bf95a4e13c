-- ===== src/Assembler/Accounting.antt =====
-- The retained counters are exact and within their limits after every operation.
use native.Mathlib.Nat.{mod-lt}
use qmux.Base.{
  if◌then◌else◌, ◌==◌, zero, suc, replicate, length-replicate, ℕ, ◌≡◌, refl, ◌+◌, ◌≤◌, ◌<◌, Bool,
  true, false, none, some, List, [], length, get_or, set, arith, length-set, Bool-cases, ◌==◌, inl,
  inr,
}
use qmux.Base.Assoc.{
  lookup, insert, erase, sum_by, lookup-insert_self, length-insert, length-erase, sum_by-insert_new,
  sum_by-insert_old, sum_by-erase,
}
use qmux.Assembler.{
  key_Eq, FragmentKey, Group, Shard, Assembler, fragment_group_limit, fragment_byte_limit,
  drop_group, new, default_shard_count, new_group, store_piece, finish_group, reserve_and_store,
  add_to_shard, shard_index, add_fragment, cost,
}
use qmux.Assembler.Cases.{reserved, reserve_and_store_cases, add_to_shard_cases, add_fragment_cases}
use qmux.Assembler.Shards.{sum_shards, sum_shards-set, get_or-set_self}

abbrev pub group_bytes : Group → ℕ
group_bytes g = g.retained_bytes

unfoldable pub retained_groups_of : List Shard → ℕ
retained_groups_of ss = sum_shards length ss

unfoldable pub retained_bytes_of : List Shard → ℕ
retained_bytes_of ss = sum_shards (sum_by group_bytes) ss

-- `Snapshot`'s counters against what the shards hold.
pub record IsAccounted (a : Assembler) : Type 0 where
  pub groups_exact : a.counters.retained_groups ≡ retained_groups_of a.shards
  pub bytes_exact : a.counters.retained_bytes ≡ retained_bytes_of a.shards
  pub groups_bounded : a.counters.retained_groups ≤ fragment_group_limit a.max_groups
  pub bytes_bounded : a.counters.retained_bytes ≤ fragment_byte_limit a.max_bytes
  pub has_shards : 0 < length a.shards

drop_group-IsAccounted :
    (a : Assembler) (i : ℕ) (key : FragmentKey) (g : Group)
    → i < length a.shards
    → lookup key (get_or a.shards i []) ≡ some g
    → IsAccounted a
    → IsAccounted (drop_group a i key g)
unfolding retained_groups_of retained_bytes_of
drop_group-IsAccounted a i key g hi found v =
    let shard = get_or a.shards i [] in
    ground (
      arith,
      length-erase key g shard found,
      sum_by-erase group_bytes key g shard found,
      sum_shards-set length a.shards i (erase key shard) hi,
      sum_shards-set (sum_by group_bytes) a.shards i (erase key shard) hi,
      length-set a.shards i (erase key shard),
    )

abbrev kept : Assembler → ℕ → FragmentKey → Group → Assembler
kept b i key g = record b { shards = set b.shards i (insert key g (get_or b.shards i [])) }

finish_group-IsAccounted :
    (b : Assembler) (i : ℕ) (key : FragmentKey) (g : Group)
    → i < length b.shards
    → IsAccounted (kept b i key g)
    → IsAccounted (finish_group b i key g).0
unfolding finish_group
finish_group-IsAccounted b i key g hi v = elim (Bool-cases (g.received == g.total)) [
  | inl done ↦ rw done (
      drop_group-IsAccounted (kept b i key g) i key g (rw length-set hi)
        (rw (get_or-set_self b.shards i (insert key g (get_or b.shards i [])) hi)
          (lookup-insert_self key g _))
        v)
  | inr more ↦ rw more v
]

-- The state with a fragment of `payload` in `g`, which was fresh or stood in the shard.
abbrev Stands : Bool → FragmentKey → Group → Shard → Type 0
Stands true key g shard = (lookup key shard ≡ none) × (g.retained_bytes ≡ 0)
Stands false key g shard = lookup key shard ≡ some g

stored-IsAccounted :
    (a : Assembler) (i : ℕ) (key : FragmentKey) (g : Group) (fresh : Bool) (index : ℕ)
    (payload : List ℕ)
    → i < length a.shards
    → Stands fresh key g (get_or a.shards i [])
    → (fresh ≡ true → a.counters.retained_groups + 1 ≤ fragment_group_limit a.max_groups)
    → a.counters.retained_bytes + cost payload ≤ fragment_byte_limit a.max_bytes
    → IsAccounted a
    → IsAccounted (kept (reserved a fresh payload) i key (store_piece g index payload))
unfolding retained_groups_of retained_bytes_of
stored-IsAccounted a i key g true index payload hi (absent, empty) hg hb v =
    let shard = get_or a.shards i [] in
    let g' = store_piece g index payload in
    ground (
      arith,
      hg refl,
      length-insert key g' shard,
      sum_by-insert_new group_bytes key g' shard absent,
      sum_shards-set length a.shards i (insert key g' shard) hi,
      sum_shards-set (sum_by group_bytes) a.shards i (insert key g' shard) hi,
      length-set a.shards i (insert key g' shard),
    )
stored-IsAccounted a i key g false index payload hi found hg hb v =
    let shard = get_or a.shards i [] in
    let g' = store_piece g index payload in
    ground (
      arith,
      length-insert key g' shard,
      sum_by-insert_old group_bytes key g' g shard found,
      sum_shards-set length a.shards i (insert key g' shard) hi,
      sum_shards-set (sum_by group_bytes) a.shards i (insert key g' shard) hi,
      length-set a.shards i (insert key g' shard),
    )

reserve_and_store-IsAccounted :
    (a : Assembler) (i : ℕ) (key : FragmentKey) (g : Group) (fresh : Bool) (index : ℕ)
    (payload : List ℕ)
    → i < length a.shards
    → Stands fresh key g (get_or a.shards i [])
    → IsAccounted a
    → IsAccounted (reserve_and_store a i key g fresh index payload).0
reserve_and_store-IsAccounted a i key g fresh index payload hi stands v =
    reserve_and_store_cases (λ r. IsAccounted r.0) a i key g fresh index payload
      (λ groups bytes _. omega (arith, v))
      (λ hg hb.
        finish_group-IsAccounted (reserved a fresh payload) i key (store_piece g index payload) hi
          (stored-IsAccounted a i key g fresh index payload hi stands hg hb v))

add_to_shard-IsAccounted :
    (a : Assembler) (now i : ℕ) (key : FragmentKey) (index total : ℕ) (payload : List ℕ)
    → i < length a.shards
    → IsAccounted a
    → IsAccounted (add_to_shard a now i key index total payload).0
add_to_shard-IsAccounted a now i key index total payload hi v =
    add_to_shard_cases (λ r. IsAccounted r.0) a now i key index total payload
      (λ absent.
        reserve_and_store-IsAccounted a i key (new_group total now) true index payload hi
          (absent, refl) v)
      (λ g found _. drop_group-IsAccounted a i key g hi found v) (λ g found _ _. v)
      (λ g piece found _ _. v)
      (λ g found _ _ _. reserve_and_store-IsAccounted a i key g false index payload hi found v)

shard_index-lt :
    (hash : FragmentKey → ℕ) (a : Assembler) (key : FragmentKey)
    → 0 < length a.shards
    → shard_index hash a key < length a.shards
unfolding shard_index
shard_index-lt hash a key h = mod-lt (hash key) h

-- `AddFragment` keeps the two retained counters equal to the groups and the bytes that the shards
-- hold, and within the limits, whatever the fragment and whatever the outcome.
pub add_fragment-IsAccounted :
    (hash : FragmentKey → ℕ) (a : Assembler) (now session_id frag_id index total : ℕ)
    (payload : List ℕ)
    → IsAccounted a
    → IsAccounted (add_fragment hash a now session_id frag_id index total payload).0
unfolding add_fragment
add_fragment-IsAccounted hash a now session_id frag_id index total payload v =
    add_fragment_cases (λ r. IsAccounted r.0) hash a now session_id frag_id index total payload
      (λ e _. v) (λ _. v)
      (λ _ _.
        add_to_shard-IsAccounted a now _ _ index total payload
          (shard_index-lt hash a _ v.has_shards) v)

sums-replicate :
    (n : ℕ) → (retained_groups_of (replicate n []) ≡ 0) × (retained_bytes_of (replicate n []) ≡ 0)
unfolding retained_groups_of retained_bytes_of sum_shards sum_by
sums-replicate zero = (refl, refl)
sums-replicate (suc n) = (omega (arith, sums-replicate n), omega (arith, sums-replicate n))

-- A new assembler starts accounted for, whatever its shard count and limits.
pub new-IsAccounted :
    (shard_count max_groups max_bytes : ℕ) → IsAccounted (new shard_count max_groups max_bytes)
unfolding new
new-IsAccounted shard_count max_groups max_bytes =
    let n : ℕ = if shard_count == 0 then default_shard_count else shard_count in
    ground (arith, sums-replicate n, length-replicate {0} {A = Shard} n [])
