-- ===== src/Assembler/Release.antt =====
-- The cleanup loop's tick and `Close` against the accounting of the assembler.
use qmux.Base.{ℕ, ◌≡◌, refl, ◌+◌, ◌-◌, ◌%◌, ◌^◌, ◌≤◌, false, none, List, [], ◌∷◌, length, arith}
use qmux.Base.Assoc.{sum_by}
use qmux.Datagram.{err, fragment_assembler_closed, validate_fragment_input}
use qmux.Assembler.{
  key_Eq, FragmentKey, Shard, Counters, Assembler, add_fragment, cleanup_expired, cleanup_shards,
  cleanup, release_all, close_shards, close,
}
use qmux.Assembler.Accounting.{group_bytes, retained_groups_of, retained_bytes_of, IsAccounted}
use qmux.Assembler.Shards.{sum_shards}

cleanup_expired-sums :
    (now : ℕ) (shard : Shard)
    → (length (cleanup_expired now shard).0 + (cleanup_expired now shard).1 ≡ length shard)
      × (sum_by group_bytes (cleanup_expired now shard).0 + (cleanup_expired now shard).2
          ≡ sum_by group_bytes shard)
unfolding cleanup_expired sum_by
cleanup_expired-sums now [] = (omega arith, omega arith)
cleanup_expired-sums now ((key, group) ∷ rest) =
    (ground (arith, cleanup_expired-sums now rest), ground (arith, cleanup_expired-sums now rest))

-- What the counters hold beyond the shards that are still to be visited stays.
cleanup_shards-sums :
    (now : ℕ) (ss : List Shard) (c : Counters)
    → retained_groups_of ss ≤ c.retained_groups
    → retained_bytes_of ss ≤ c.retained_bytes
    → let (ss', c') = cleanup_shards now ss c in
      (c'.retained_groups + retained_groups_of ss ≡ c.retained_groups + retained_groups_of ss')
      × (c'.retained_bytes + retained_bytes_of ss ≡ c.retained_bytes + retained_bytes_of ss')
      × (c'.retained_groups ≤ c.retained_groups)
      × (c'.retained_bytes ≤ c.retained_bytes)
      × (length ss' ≡ length ss)
unfolding cleanup_shards retained_groups_of retained_bytes_of sum_shards
cleanup_shards-sums now [] c hg hb = ground arith
cleanup_shards-sums now (s ∷ ss) c hg hb =
    let (kept, groups, bytes) = cleanup_expired now s in
    ground (
      arith,
      cleanup_expired-sums now s,
      cleanup_shards-sums now ss (record c {
        expired_groups = (c.expired_groups + groups) % 2 ^ 64;
        retained_groups = c.retained_groups - groups;
        retained_bytes = c.retained_bytes - bytes;
      }),
    )

-- One tick of the cleanup loop keeps the accounting.
pub cleanup-IsAccounted : (now : ℕ) (a : Assembler) → IsAccounted a → IsAccounted (cleanup now a)
unfolding cleanup
cleanup-IsAccounted now a v = ground (arith, cleanup_shards-sums now a.shards a.counters)

release_all-sums :
    (shard : Shard)
    → ((release_all shard).0 ≡ length shard) × ((release_all shard).1 ≡ sum_by group_bytes shard)
unfolding release_all sum_by
release_all-sums [] = (refl, refl)
release_all-sums ((key, group) ∷ rest) =
    (ground (arith, release_all-sums rest), ground (arith, release_all-sums rest))

close_shards-sums :
    (ss : List Shard) (c : Counters)
    → retained_groups_of ss ≡ c.retained_groups
    → retained_bytes_of ss ≡ c.retained_bytes
    → let (ss', c') = close_shards ss c in
      (c'.retained_groups ≡ 0)
      × (c'.retained_bytes ≡ 0)
      × (retained_groups_of ss' ≡ 0)
      × (retained_bytes_of ss' ≡ 0)
      × (length ss' ≡ length ss)
unfolding close_shards retained_groups_of retained_bytes_of sum_shards sum_by
close_shards-sums [] c hg hb = ground arith
close_shards-sums (s ∷ ss) c hg hb =
    let (groups, bytes) = release_all s in
    ground (
      arith,
      release_all-sums s,
      close_shards-sums ss (record c {
        retained_groups = c.retained_groups - groups;
        retained_bytes = c.retained_bytes - bytes;
      }),
    )

-- A first `Close` leaves no group behind, brings both retained counters to exactly 0, and keeps the
-- accounting; from then on every fragment that passes its index checks is refused, and a second
-- `Close` changes nothing.
pub close_drains :
    (hash : FragmentKey → ℕ) (a : Assembler) (now session_id frag_id index total : ℕ)
    (payload : List ℕ)
    → IsAccounted a
    → a.closed ≡ false
    → validate_fragment_input index total ≡ none
    → IsAccounted (close a)
      × ((close a).counters.retained_groups ≡ 0)
      × ((close a).counters.retained_bytes ≡ 0)
      × (retained_groups_of (close a).shards ≡ 0)
      × (close (close a) ≡ close a)
      × (add_fragment hash (close a) now session_id frag_id index total payload
          ≡ (close a, err fragment_assembler_closed))
unfolding close add_fragment
close_drains hash a now session_id frag_id index total payload v live valid =
    let sums = close_shards-sums a.shards a.counters (omega (arith, v)) (omega (arith, v)) in
    (
      ground (arith, sums),
      ground (arith, sums),
      ground (arith, sums),
      ground (arith, sums),
      ground arith,
      ground arith,
    )
