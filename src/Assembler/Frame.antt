-- ===== src/Assembler/Frame.antt =====
-- What `AddFragment` leaves alone, and the compare-and-swap loop of its reservations.
use qmux.Base.{
  ℕ, zero, suc, ◌≡◌, refl, ◌∙◌, ◌+◌, ◌%◌, ◌≤◌, ◌<◌, Bool, true, false, List, [], ◌∷◌, length,
  get_or, set, arith, length-set, if_cases, ◌==◌,
}
use qmux.Base.Assoc.{lookup, insert, erase, lookup-insert_ne, lookup-erase_ne}
use qmux.Assembler.{
  key_Eq, key_eq, FragmentKey, Group, Shard, Assembler, drop_group, new_group, store_piece,
  finish_group, reserve_and_store, shard_index, add_fragment, reserve_fragment_capacity,
}
use qmux.Assembler.Cases.{
  Outcome, reserved, reserve_and_store_cases, add_to_shard_cases, add_fragment_cases,
}
use qmux.Assembler.Reassembly.{view}

lookup-set :
    (k : FragmentKey) (ss : List Shard) (i j : ℕ) (s : Shard)
    → lookup k s ≡ lookup k (get_or ss i [])
    → lookup k (get_or (set ss i s) j []) ≡ lookup k (get_or ss j [])
lookup-set k [] i j s h = refl
lookup-set k (t ∷ ss) zero zero s h = h
lookup-set k (t ∷ ss) zero (suc j) s h = refl
lookup-set k (t ∷ ss) (suc i) zero s h = refl
lookup-set k (t ∷ ss) (suc i) (suc j) s h = lookup-set k ss i j s h

module _ (hash : FragmentKey → ℕ) (k key : FragmentKey) (differs : key_eq key k ≡ false) where
  -- The state `b` has the group of `k` that `a` has.
  abbrev Keeps : Assembler → Outcome → Type 0
  Keeps a r = view hash k r.0 ≡ view hash k a

  view-set :
      (a b : Assembler) (i : ℕ) (s : Shard)
      → b.shards ≡ set a.shards i s
      → lookup k s ≡ lookup k (get_or a.shards i [])
      → view hash k b ≡ view hash k a
  unfolding view shard_index
  view-set a b i s e same =
      rw (e, length-set a.shards i s) (lookup-set k a.shards i (hash k % length a.shards) s same)

  drop-Keeps :
      (a : Assembler) (i : ℕ) (g : Group) → view hash k (drop_group a i key g) ≡ view hash k a
  drop-Keeps a i g =
      view-set a (drop_group a i key g) i (erase key (get_or a.shards i [])) refl
        (lookup-erase_ne key k (get_or a.shards i []) differs)

  kept : Assembler → ℕ → Group → Assembler
  kept a i g = record a { shards = set a.shards i (insert key g (get_or a.shards i [])) }

  kept-Keeps : (a : Assembler) (i : ℕ) (g : Group) → view hash k (kept a i g) ≡ view hash k a
  unfolding kept
  kept-Keeps a i g =
      view-set a (kept a i g) i (insert key g (get_or a.shards i [])) refl
        (lookup-insert_ne key k g (get_or a.shards i []) differs)

  finish-Keeps : (a : Assembler) (i : ℕ) (g : Group) → Keeps a (finish_group a i key g)
  unfolding finish_group kept
  finish-Keeps a i g =
      if_cases (Keeps a) (g.received == g.total) _ _
        (λ done. drop-Keeps (kept a i g) i g ∙ kept-Keeps a i g) (λ more. kept-Keeps a i g)

  store-Keeps :
      (a : Assembler) (i : ℕ) (g : Group) (fresh : Bool) (index : ℕ) (payload : List ℕ)
      → Keeps a (reserve_and_store a i key g fresh index payload)
  unfolding view shard_index
  store-Keeps a i g fresh index payload =
      reserve_and_store_cases (Keeps a) a i key g fresh index payload (λ groups bytes over. refl)
        (λ _ _. finish-Keeps (reserved a fresh payload) i (store_piece g index payload))

-- Packets do not disturb one another: a fragment of one packet, whatever becomes of it, leaves the
-- stored fragments of every packet with another session or fragment ID as they were, though the
-- two may share a shard.
pub add_fragment_frame :
    (hash : FragmentKey → ℕ) (k : FragmentKey) (a : Assembler)
    (now session_id frag_id index total : ℕ) (payload : List ℕ)
    → key_eq (record { session_id = session_id; frag_id = frag_id }) k ≡ false
    → view hash k (add_fragment hash a now session_id frag_id index total payload).0 ≡ view hash k a
add_fragment_frame hash k a now session_id frag_id index total payload differs =
    let key : FragmentKey = record { session_id = session_id; frag_id = frag_id } in
    let i = shard_index hash a key in
    add_fragment_cases (λ r. view hash k r.0 ≡ view hash k a) hash a now session_id frag_id index
      total payload (λ e _. refl) (λ _. refl)
      (λ _ _.
        add_to_shard_cases (λ r. view hash k r.0 ≡ view hash k a) a now i key index total payload
          (λ _. store-Keeps hash k key differs a i (new_group total now) true index payload)
          (λ g _ _. drop-Keeps hash k key differs a i g) (λ g _ _ _. refl) (λ g piece _ _ _. refl)
          (λ g _ _ _ _. store-Keeps hash k key differs a i g false index payload))

abbrev pub IsReservation : ℕ → ℕ → Bool × ℕ → Type 0
IsReservation amount limit (true, counter) = (amount ≤ counter) × (counter ≤ limit)
IsReservation amount limit (false, counter) = limit < counter + amount

-- However other goroutines move the counter between its reads and its swaps, a reservation that
-- succeeds leaves the counter at its amount or more and within the limit, and one that fails does
-- so at a counter to which the amount could not be added.
pub reserve_bounded :
    (env : List ℕ) (current amount limit : ℕ)
    → IsReservation amount limit (reserve_fragment_capacity env current amount limit)
unfolding reserve_fragment_capacity
reserve_bounded [] current amount limit = ground arith
reserve_bounded (seen ∷ later) current amount limit =
    ground (arith, reserve_bounded later seen amount limit)
