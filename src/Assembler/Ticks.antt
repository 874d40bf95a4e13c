-- ===== src/Assembler/Ticks.antt =====
-- A tick of the cleanup loop leaves a packet under way that is not too old.
use qmux.Base.{
  ℕ, zero, suc, ◌≡◌, refl, sym, ap, ◌∙◌, ◌+◌, ◌-◌, ◌%◌, ◌^◌, ◌≤◌, Option, some, List, [], ◌∷◌,
  length, get_or, arith, subst, Bool-cases, inl, inr,
}
use qmux.Base.Assoc.{lookup}
use qmux.Assembler.{
  key_Eq, key_eq, FragmentKey, Group, Shard, Counters, Assembler, fragment_timeout, cleanup_expired,
  cleanup_shards, cleanup, shard_index,
}
use qmux.Assembler.Reassembly.{Ready, view, Content, shard_index-eq}

-- The entry of a key whose group is not too old stays.
lookup-cleanup_expired :
    (key : FragmentKey) (now : ℕ) (shard : Shard)
    → ((g : Group) → lookup key shard ≡ some g → now ≤ g.created_at + fragment_timeout)
    → lookup key (cleanup_expired now shard).0 ≡ lookup key shard
unfolding cleanup_expired lookup
lookup-cleanup_expired key now [] recent = refl
lookup-cleanup_expired key now ((k, g) ∷ rest) recent = elim (Bool-cases (key_eq k key)) [
  | inl same ↦ ground (arith, recent g)
  | inr other ↦
      let later : lookup key (cleanup_expired now rest).0 ≡ lookup key rest =
        lookup-cleanup_expired key now rest (λ h at. recent h (ground arith)) in
      ground arith
]

get_or-cleanup_shards :
    (now : ℕ) (shards : List Shard) (c : Counters) (j : ℕ)
    → get_or (cleanup_shards now shards c).0 j [] ≡ (cleanup_expired now (get_or shards j [])).0
unfolding cleanup_shards cleanup_expired
get_or-cleanup_shards now [] c j = refl
get_or-cleanup_shards now (shard ∷ shards) c zero = refl
get_or-cleanup_shards now (shard ∷ shards) c (suc j) = get_or-cleanup_shards now shards _ j

-- The shards stay as many, and the counters do not grow.
cleanup_shards_lem :
    (now : ℕ) (shards : List Shard) (c : Counters)
    → (length (cleanup_shards now shards c).0 ≡ length shards)
      × ((cleanup_shards now shards c).1.retained_groups ≤ c.retained_groups)
      × ((cleanup_shards now shards c).1.retained_bytes ≤ c.retained_bytes)
unfolding cleanup_shards
cleanup_shards_lem now [] c = (refl, omega arith, omega arith)
cleanup_shards_lem now (shard ∷ shards) c =
    let (kept, groups, bytes) = cleanup_expired now shard in
    let (same, fewer, less) = cleanup_shards_lem now shards (record c {
      expired_groups = (c.expired_groups + groups) % 2 ^ 64;
      retained_groups = c.retained_groups - groups;
      retained_bytes = c.retained_bytes - bytes;
    }) in
    (ap suc same, omega (arith, fewer), omega (arith, less))

module _ (hash : FragmentKey → ℕ) (key : FragmentKey) (now : ℕ) (a : Assembler) where
  view-cleanup :
      ((g : Group) → view hash key a ≡ some g → now ≤ g.created_at + fragment_timeout)
      → view hash key (cleanup now a) ≡ view hash key a
  unfolding cleanup view
  view-cleanup recent =
      let (same, _, _) = cleanup_shards_lem now a.shards a.counters in
      ap (λ (n : ℕ). lookup key (get_or (cleanup now a).shards n []))
        (shard_index-eq hash key a (cleanup now a) same)
      ∙ ap (lookup key) (get_or-cleanup_shards now a.shards a.counters (shard_index hash a key))
      ∙ lookup-cleanup_expired key now (get_or a.shards (shard_index hash a key) []) recent

  pub cleanup-Ready :
      (start : ℕ) (pieces : List (List ℕ)) (slots : List (Option (List ℕ)))
      → now ≤ start + fragment_timeout
      → Ready hash key start a pieces slots
      → Ready hash key start (cleanup now a) pieces slots
  unfolding cleanup
  cleanup-Ready start pieces slots soon v =
      let (same, fewer, less) = cleanup_shards_lem now a.shards a.counters in
      let same_view : view hash key (cleanup now a) ≡ view hash key a =
        view-cleanup (λ g at. omega (arith, v.created g at, soon)) in
      record {
        live = v.live;
        index_ok = omega (arith, same, shard_index-eq hash key a (cleanup now a) same, v.index_ok);
        several = v.several;
        few = v.few;
        partial = v.partial;
        unfinished = v.unfinished;
        content = subst (λ o. Content o slots (length pieces)) (sym same_view) v.content;
        group_room = λ gone. omega (arith, fewer, v.group_room (sym same_view ∙ gone));
        byte_room = omega (arith, less, v.byte_room);
        created = λ g at. v.created g (sym same_view ∙ at);
      }
