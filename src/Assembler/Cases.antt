-- ===== src/Assembler/Cases.antt =====
-- The branches of `AddFragment`, one rule for each of its three parts.
use qmux.Base.{
  ℕ, ◌≡◌, refl, ◌≢◌, ◌+◌, ◌≤◌, ◌<◌, ◌==◌, leb, Bool, true, false, Option, none, some, List, [],
  length, get_or, arith, Option-cases, Bool-cases, if_cases, inl, inr, ltb, if◌then◌else◌, ltb→le,
  ltb→lt, ◌⊎◌,
}
use qmux.Base.Assoc.{lookup}
use qmux.Datagram.{
  Error, Result, ok, err, fragment_total_mismatch, fragment_assembler_closed,
  fragment_assembler_full, invalid_frag_index, validate_fragment_input,
}
use qmux.Assembler.{
  key_Eq, FragmentKey, Group, Assembler, fragment_group_limit, fragment_byte_limit, drop_group,
  new_group, store_piece, finish_group, reserve_and_store, add_to_shard, shard_index, add_fragment,
  cost,
}

abbrev pub Outcome : Type 0
Outcome = Assembler × Result (Option (List ℕ))

-- The state once both reservations are made.
abbrev pub reserved : Assembler → Bool → List ℕ → Assembler
reserved a fresh payload = record a {
  counters = record c {
    retained_groups = if fresh then c.retained_groups + 1 else c.retained_groups;
    retained_bytes = c.retained_bytes + cost payload;
  };
}
  where
    open a use {counters as c}

abbrev pub with_drops : Assembler → ℕ → ℕ → Assembler
with_drops a groups bytes = record a {
  counters = record c { group_drops = groups; byte_drops = bytes };
}
  where
    open a use {counters as c}

-- One of the two reservations fails.
abbrev pub Exceeds : Assembler → Bool → List ℕ → Type 0
Exceeds a fresh payload =
    ((fresh ≡ true) × (fragment_group_limit a.max_groups < a.counters.retained_groups + 1))
    ⊎ (fragment_byte_limit a.max_bytes < a.counters.retained_bytes + cost payload)

pub reserve_and_store_cases {ℓ} :
    (P : Outcome → Type ℓ) (a : Assembler) (i : ℕ) (key : FragmentKey) (g : Group) (fresh : Bool)
    (index : ℕ) (payload : List ℕ)
    → ((groups bytes : ℕ)
        → Exceeds a fresh payload
        → P (with_drops a groups bytes, err fragment_assembler_full))
    → ((fresh ≡ true → a.counters.retained_groups + 1 ≤ fragment_group_limit a.max_groups)
        → a.counters.retained_bytes + cost payload ≤ fragment_byte_limit a.max_bytes
        → P (finish_group (reserved a fresh payload) i key (store_piece g index payload)))
    → P (reserve_and_store a i key g fresh index payload)
unfolding reserve_and_store
reserve_and_store_cases P a i key g true index payload full stored =
    elim (Bool-cases (ltb (fragment_group_limit a.max_groups) (a.counters.retained_groups + 1))) [
      | inl over ↦ rw over (full _ _ (inl (refl, ltb→lt _ _ over)))
      | inr room ↦
          elim (Bool-cases
            (ltb (fragment_byte_limit a.max_bytes) (a.counters.retained_bytes + cost payload))) [
              | inl over ↦ rw (room, over) (full _ _ (inr (ltb→lt _ _ over)))
              | inr fits ↦ rw (room, fits) (stored (λ _. ltb→le _ _ room) (ltb→le _ _ fits))
            ]
    ]
reserve_and_store_cases P a i key g false index payload full stored =
    elim (Bool-cases
      (ltb (fragment_byte_limit a.max_bytes) (a.counters.retained_bytes + cost payload))) [
        | inl over ↦ rw over (full _ _ (inr (ltb→lt _ _ over)))
        | inr fits ↦ rw fits (stored (λ e. cc) (ltb→le _ _ fits))
      ]

pub add_to_shard_cases {ℓ} :
    (P : Outcome → Type ℓ) (a : Assembler) (now i : ℕ) (key : FragmentKey) (index total : ℕ)
    (payload : List ℕ)
    → (lookup key (get_or a.shards i []) ≡ none
        → P (reserve_and_store a i key (new_group total now) true index payload))
    → ((g : Group)
        → lookup key (get_or a.shards i []) ≡ some g
        → g.total ≢ total
        → P (drop_group a i key g, err fragment_total_mismatch))
    → ((g : Group)
        → lookup key (get_or a.shards i []) ≡ some g
        → g.total ≡ total
        → length g.pieces ≤ index
        → P (a, err invalid_frag_index))
    → ((g : Group) (piece : List ℕ)
        → lookup key (get_or a.shards i []) ≡ some g
        → g.total ≡ total
        → get_or g.pieces index none ≡ some piece
        → P (a, ok none))
    → ((g : Group)
        → lookup key (get_or a.shards i []) ≡ some g
        → g.total ≡ total
        → index < length g.pieces
        → get_or g.pieces index none ≡ none
        → P (reserve_and_store a i key g false index payload))
    → P (add_to_shard a now i key index total payload)
unfolding add_to_shard
add_to_shard_cases P a now i key index total payload fresh mismatch beyond duplicate old =
    elim (Option-cases (lookup key (get_or a.shards i []))) [
      | inl absent ↦ rw (absent, add_to_shard) (fresh absent)
      | inr (g, found) ↦
          rw (found, add_to_shard)
            (elim (Bool-cases (g.total == total)) [
              | inr differs ↦ rw differs (mismatch g found (ground arith))
              | inl same ↦ elim (Bool-cases (leb (length g.pieces) index)) [
                | inl out ↦ rw (same, out) (beyond g found (ground arith) (ground arith))
                | inr inside ↦ elim (Option-cases (get_or g.pieces index none)) [
                  | inl empty ↦
                      rw (same, inside, empty) (old g found (ground arith) (ground arith) empty)
                  | inr (piece, taken) ↦
                      rw (same, inside, taken) (duplicate g piece found (ground arith) taken)
                ]
              ]
            ])
    ]

pub add_fragment_cases {ℓ} :
    (P : Outcome → Type ℓ) (hash : FragmentKey → ℕ) (a : Assembler)
    (now session_id frag_id index total : ℕ) (payload : List ℕ)
    → ((e : Error) → validate_fragment_input index total ≡ some e → P (a, err e))
    → (a.closed ≡ true → P (a, err fragment_assembler_closed))
    → (validate_fragment_input index total ≡ none
        → a.closed ≡ false
        → let key : FragmentKey = record { session_id = session_id; frag_id = frag_id } in
          P (add_to_shard a now (shard_index hash a key) key index total payload))
    → P (add_fragment hash a now session_id frag_id index total payload)
unfolding add_fragment
add_fragment_cases P hash a now session_id frag_id index total payload invalid shut added =
    elim (Option-cases (validate_fragment_input index total)) [
      | inr (e, bad) ↦ rw (bad, add_fragment) (invalid e bad)
      | inl good ↦ rw (good, add_fragment) (if_cases P a.closed _ _ shut (added good))
    ]
