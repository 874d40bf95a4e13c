-- ===== src/Assembler.antt =====
-- The sharded fragment assembler of protocol/udp_fragment.go. A call of a method is one step on the
-- assembler's state, as it is under the shard's lock; the retained counters, which calls on other
-- shards move too, have their compare-and-swap loop in `reserve_fragment_capacity`. The hash of
-- `maphash` is a parameter. Counters are numbers that `-` would stop at 0: the invariant shows that
-- no subtraction ever does.
pub mod Shards
pub mod Cases
pub mod Slots
pub mod Reassembly
pub mod Ticks
pub mod Frame
pub mod Delivery
pub mod Transfer
mod Examples
pub mod Accounting
pub mod Release
use qmux.Base.{
  ℕ, ◌≡◌, ◌+◌, ◌-◌, ◌%◌, ◌^◌, Bool, true, false, not, ◌&&◌, Option, none, some, List, [], ◌∷◌, ◌++◌,
  ltb, leb, ◌==◌, if◌then◌else◌, length, get_or, set, replicate, arith,
}
use qmux.Base.Assoc.{Eq, lookup, insert, erase}
use qmux.Datagram.{
  Error, Result, ok, err, invalid_frag_index, fragment_total_mismatch, fragment_assembler_nil,
  fragment_assembler_closed, fragment_assembler_full, validate_fragment_input, max_frag_payload,
  Datagram, decode,
}

-- `FragmentBufferSize`, the capacity of each buffer of the fragment pool.
abbrev pub fragment_buffer_size : ℕ
fragment_buffer_size = max_frag_payload

-- `FragmentTimeout`, in nanoseconds.
abbrev pub fragment_timeout : ℕ
fragment_timeout = 5_000_000_000

abbrev pub default_shard_count : ℕ
default_shard_count = 64

abbrev pub max_retained_fragment_groups : ℕ
max_retained_fragment_groups = 4096

abbrev pub max_retained_fragment_bytes : ℕ
max_retained_fragment_bytes = 67_108_864

pub record FragmentKey : Type 0 where
  pub session_id : ℕ
  pub frag_id : ℕ

-- Go's `==` on the key struct.
abbrev pub key_eq : FragmentKey → FragmentKey → Bool
key_eq a b = a.session_id == b.session_id && a.frag_id == b.frag_id

pub key_eq_sound : (a b : FragmentKey) → key_eq a b ≡ true → a ≡ b
key_eq_sound a b h = ground arith

pub key_eq_refl : (a : FragmentKey) → key_eq a a ≡ true
key_eq_refl a = ground arith

instance abbrev pub key_Eq : Eq FragmentKey
key_Eq = record { beq = key_eq; beq_sound = key_eq_sound; beq_refl = key_eq_refl }

-- A slot of `pieces` is `none` where Go's `data[i]` is nil. `buffers` holds the capacities of the
-- pooled buffers.
pub record Group : Type 0 where
  pub total : ℕ
  pub received : ℕ
  pub pieces : List (Option (List ℕ))
  pub buffers : List ℕ
  pub created_at : ℕ
  pub retained_bytes : ℕ

abbrev pub Shard : Type 0
Shard = List (FragmentKey × Group)

-- The fields of `FragmentSnapshot`, which the assembler keeps as atomics.
pub record Counters : Type 0 where
  pub retained_groups : ℕ
  pub retained_bytes : ℕ
  pub group_drops : ℕ
  pub byte_drops : ℕ
  pub expired_groups : ℕ

pub record Assembler : Type 0 where
  pub shards : List Shard
  pub counters : Counters
  pub max_groups : ℕ
  pub max_bytes : ℕ
  pub closed : Bool

-- `NewShardedFragmentAssembler`; 0 stands for every count or limit that is not positive.
unfoldable pub new : ℕ → ℕ → ℕ → Assembler
new shard_count max_groups max_bytes = record {
  shards = replicate (if shard_count == 0 then default_shard_count else shard_count) [];
  counters = record {
    retained_groups = 0;
    retained_bytes = 0;
    group_drops = 0;
    byte_drops = 0;
    expired_groups = 0;
  };
  max_groups = max_groups;
  max_bytes = max_bytes;
  closed = false;
}

abbrev pub fragment_group_limit : ℕ → ℕ
fragment_group_limit limit = if ltb 0 limit then limit else max_retained_fragment_groups

abbrev pub fragment_byte_limit : ℕ → ℕ
fragment_byte_limit limit = if ltb 0 limit then limit else max_retained_fragment_bytes

-- `reserveFragmentCapacity`: whether the amount was reserved, and the counter after. The list holds
-- what other goroutines leave in the counter between each `Load` and its `CompareAndSwap`.
unfoldable pub reserve_fragment_capacity : List ℕ → ℕ → ℕ → ℕ → Bool × ℕ
reserve_fragment_capacity [] current amount limit =
    if ltb limit (current + amount) then (false, current) else (true, current + amount)
reserve_fragment_capacity (seen ∷ later) current amount limit =
    let retry = reserve_fragment_capacity later seen amount limit in
    if ltb limit (current + amount)
    then (false, current)
    else if seen == current
    then (true, current + amount)
    else retry

abbrev pub validate_fragment_group : Group → ℕ → ℕ → Option Error
validate_fragment_group group index total =
    if not (group.total == total)
    then some fragment_total_mismatch
    else if leb (length group.pieces) index
    then some invalid_frag_index
    else none

abbrev pub bytes_of : Option (List ℕ) → List ℕ
bytes_of none = []
bytes_of (some piece) = piece

abbrev pub join_pieces : List (Option (List ℕ)) → List ℕ
join_pieces [] = []
join_pieces (p ∷ ps) = bytes_of p ++ join_pieces ps

abbrev pub join_fragment_group : Group → List ℕ
join_fragment_group group = join_pieces group.pieces

-- `releaseFragmentGroup` gives the buffers back and reports the bytes; no caller reads the group
-- after.
abbrev pub release_fragment_group : Group → ℕ
release_fragment_group group = group.retained_bytes

abbrev pub is_mismatch : Error → Bool
is_mismatch fragment_total_mismatch = true
is_mismatch _ = false

-- `delete(shard.fragments, key)` with the two counters.
abbrev pub drop_group : Assembler → ℕ → FragmentKey → Group → Assembler
drop_group a i key group = record a {
  shards = set a.shards i (erase key (get_or a.shards i []));
  counters = record c {
    retained_groups = c.retained_groups - 1;
    retained_bytes = c.retained_bytes - release_fragment_group group;
  };
}
  where
    open a use {counters as c}

abbrev pub new_group : ℕ → ℕ → Group
new_group total now = record {
  total = total;
  received = 0;
  pieces = replicate total none;
  buffers = [];
  created_at = now;
  retained_bytes = 0;
}

abbrev pub cost : List ℕ → ℕ
cost payload =
    if leb (length payload) fragment_buffer_size then fragment_buffer_size else length payload

-- The fragment in its slot, and the bytes that it retains.
abbrev pub store_piece : Group → ℕ → List ℕ → Group
store_piece group index payload = record group {
  received = (group.received + 1) % 256;
  pieces = set group.pieces index (some payload);
  buffers =
      if leb (length payload) fragment_buffer_size
      then group.buffers ++ (fragment_buffer_size ∷ [])
      else group.buffers;
  retained_bytes = group.retained_bytes + cost payload;
}

-- From `group.received++` on: the group stays, or it is complete and goes.
pub finish_group : Assembler → ℕ → FragmentKey → Group → Assembler × Result (Option (List ℕ))
finish_group a i key group =
    let kept = record a { shards = set a.shards i (insert key group (get_or a.shards i [])) } in
    if group.received == group.total
    then (drop_group kept i key group, ok (some (join_fragment_group group)))
    else (kept, ok none)

-- The second half of `AddFragment`: the reservations, and then the piece is stored. `fresh` says
-- that the group does not stand in its shard yet.
pub reserve_and_store :
    Assembler → ℕ → FragmentKey → Group → Bool → ℕ → List ℕ → Assembler × Result (Option (List ℕ))
unfolding reserve_fragment_capacity
reserve_and_store a i key group fresh index payload =
    let c = a.counters in
    let (got_group, groups) =
      reserve_fragment_capacity [] c.retained_groups 1 (fragment_group_limit a.max_groups) in
    let (got_bytes, bytes) =
      reserve_fragment_capacity [] c.retained_bytes (cost payload)
        (fragment_byte_limit a.max_bytes) in
    if fresh && not got_group
    then (
      record a { counters = record c { group_drops = (c.group_drops + 1) % 2 ^ 64 } },
      err fragment_assembler_full,
    )
    else if not got_bytes
    then (
      record a { counters = record c { byte_drops = (c.byte_drops + 1) % 2 ^ 64 } },
      err fragment_assembler_full,
    )
    else finish_group
        (record a {
          counters = record c {
            retained_groups = if fresh then groups else c.retained_groups;
            retained_bytes = bytes;
          };
        })
        i key (store_piece group index payload)

-- From the lookup in `AddFragment` on, `i` being the shard of the key.
pub add_to_shard :
    Assembler → ℕ → ℕ → FragmentKey → ℕ → ℕ → List ℕ → Assembler × Result (Option (List ℕ))
add_to_shard a now i key index total payload = elim (lookup key (get_or a.shards i [])) [
  | none ↦ reserve_and_store a i key (new_group total now) true index payload
  | some group ↦ elim (validate_fragment_group group index total) [
    | some e ↦ (if is_mismatch e then drop_group a i key group else a, err e)
    | none ↦ elim (get_or group.pieces index none) [
      | some piece ↦ (a, ok none)
      | none ↦ reserve_and_store a i key group false index payload
    ]
  ]
]

abbrev pub Assembled : Type 0
Assembled = Result (ℕ × Option (List ℕ) × Bool)

abbrev after_add : ℕ → Assembler × Result (Option (List ℕ)) → Option Assembler × Assembled
after_add session_id (a, err e) = (some a, err e)
after_add session_id (a, ok none) = (some a, ok (session_id, none, false))
after_add session_id (a, ok (some packet)) = (some a, ok (session_id, some packet, true))

module _ (hash : FragmentKey → ℕ) where
  -- `shardIndex`.
  unfoldable pub shard_index : Assembler → FragmentKey → ℕ
  shard_index a key = hash key % length a.shards

  -- `AddFragment` at time `now`: the packet if the fragment completes it, nil if not.
  unfoldable pub add_fragment :
      Assembler → ℕ → ℕ → ℕ → ℕ → ℕ → List ℕ → Assembler × Result (Option (List ℕ))
  unfolding shard_index
  add_fragment a now session_id frag_id index total payload =
      let key : FragmentKey = record { session_id = session_id; frag_id = frag_id } in
      elim (validate_fragment_input index total) [
        | some e ↦ (a, err e)
        | none ↦
            if a.closed
            then (a, err fragment_assembler_closed)
            else add_to_shard a now (shard_index a key) key index total payload
      ]

  assemble : Datagram → Option Assembler → ℕ → Option Assembler × Assembled
  assemble g none now = (none, err fragment_assembler_nil)
  assemble g (some a) now =
      after_add g.session_id
        (add_fragment a now g.session_id g.fragment_id g.fragment_index g.fragment_total g.payload)

  assemble_decoded : Result Datagram → Option Assembler → ℕ → Option Assembler × Assembled
  unfolding assemble
  assemble_decoded (err e) a now = (a, err e)
  assemble_decoded (ok g) a now =
      let assembled = assemble g a now in
      if g.is_fragmented then assembled else (a, ok (g.session_id, some g.payload, true))

  -- `DecodeAndAssembleUDPDatagram`; the assembler may be nil.
  unfoldable pub decode_and_assemble : List ℕ → Option Assembler → ℕ → Option Assembler × Assembled
  unfolding assemble_decoded
  decode_and_assemble dgram a now = assemble_decoded (decode dgram) a now

-- `cleanupExpiredFragmentGroups`: what stays, and the groups and bytes that go.
unfoldable pub cleanup_expired : ℕ → Shard → Shard × ℕ × ℕ
cleanup_expired now [] = ([], 0, 0)
cleanup_expired now ((key, group) ∷ rest) =
    let (kept, groups, bytes) = cleanup_expired now rest in
    if ltb fragment_timeout (now - group.created_at)
    then (kept, groups + 1, bytes + release_fragment_group group)
    else ((key, group) ∷ kept, groups, bytes)

-- The shards of one tick of `cleanupLoop`, with the counters moved shard by shard.
unfoldable pub cleanup_shards : ℕ → List Shard → Counters → List Shard × Counters
cleanup_shards now [] c = ([], c)
cleanup_shards now (shard ∷ shards) c =
    let (kept, groups, bytes) = cleanup_expired now shard in
    let (rest, c') = cleanup_shards now shards (record c {
      expired_groups = (c.expired_groups + groups) % 2 ^ 64;
      retained_groups = c.retained_groups - groups;
      retained_bytes = c.retained_bytes - bytes;
    }) in
    (kept ∷ rest, c')

unfoldable pub cleanup : ℕ → Assembler → Assembler
cleanup now a =
    let (shards, counters) = cleanup_shards now a.shards a.counters in
    record a { shards = shards; counters = counters }

-- `releaseAllFragmentGroups`: the groups and bytes that go.
unfoldable pub release_all : Shard → ℕ × ℕ
release_all [] = (0, 0)
release_all ((key, group) ∷ rest) =
    let (groups, bytes) = release_all rest in (groups + 1, bytes + release_fragment_group group)

unfoldable pub close_shards : List Shard → Counters → List Shard × Counters
close_shards [] c = ([], c)
close_shards (shard ∷ shards) c =
    let (groups, bytes) = release_all shard in
    let (rest, c') = close_shards shards (record c {
      retained_groups = c.retained_groups - groups;
      retained_bytes = c.retained_bytes - bytes;
    }) in
    ([] ∷ rest, c')

-- `Close`; `closeOnce` makes a second call do nothing.
unfoldable pub close : Assembler → Assembler
close a =
    let (shards, counters) = close_shards a.shards a.counters in
    if a.closed then a else record a { shards = shards; counters = counters; closed = true }
