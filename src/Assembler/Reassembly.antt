-- ===== src/Assembler/Reassembly.antt =====
-- One fragment of a packet that is under way: it is stored, repeated, or completes the packet.
use qmux.Base.{
  ℕ, zero, suc, ◌≡◌, refl, sym, ap, ◌∙◌, ◌+◌, ◌-◌, ◌*◌, ◌%◌, ◌≤◌, ◌<◌, ◌⊎◌, inl, inr, Bool, true,
  false, Option, none, some, List, [], ◌∷◌, length, get_or, get_elem?, set, replicate, concat,
  arith, ◌==◌, length-set, subst, if_cases,
}
use qmux.Base.Assoc.{lookup, insert, lookup-insert_self}
use qmux.Datagram.{Error, ok, max_frag_payload, validate_fragment_input}
use qmux.Assembler.{
  key_Eq, FragmentKey, Group, Shard, Assembler, join_pieces, fragment_group_limit,
  fragment_byte_limit, new_group, store_piece, finish_group, reserve_and_store, shard_index,
  add_fragment,
}
use qmux.Assembler.Cases.{
  Outcome, Exceeds, reserved, reserve_and_store_cases, add_to_shard_cases, add_fragment_cases,
}
use qmux.Assembler.Shards.{get_or-set_self}
use qmux.Assembler.Slots.{
  filled, Partial, filled-replicate, length-Partial, set-Partial, set_filled, filled-set, join_full,
  get_or-replicate,
}

-- The group of the key that the slots describe: none yet, or one that holds them.
abbrev pub Content : Option Group → List (Option (List ℕ)) → ℕ → Type 0
Content none slots n = slots ≡ replicate n none
Content (some g) slots n = (g.pieces ≡ slots) × (g.total ≡ n) × (g.received ≡ filled slots)

module _ (hash : FragmentKey → ℕ) (key : FragmentKey) where
  unfoldable pub view : Assembler → Option Group
  view a = lookup key (get_or a.shards (shard_index hash a key) [])

  pub shard_index-eq :
      (a b : Assembler)
      → length b.shards ≡ length a.shards
      → shard_index hash b key ≡ shard_index hash a key
  unfolding shard_index
  shard_index-eq a b h = ap (λ (n : ℕ). hash key % n) h

  view_stored :
      (a b : Assembler) (g : Group)
      → shard_index hash a key < length a.shards
      → b.shards
        ≡ set a.shards
            (shard_index hash a key)
            (insert key g (get_or a.shards (shard_index hash a key) []))
      → (view b ≡ some g) × (shard_index hash b key < length b.shards)
  unfolding view
  view_stored a b g inside e = (
    rw (index_eq, e, get_or-set_self a.shards (shard_index hash a key) stored inside)
        (lookup-insert_self key g _),
    rw (index_eq, same_length) inside,
  )
    where
      stored : Shard
      stored = insert key g (get_or a.shards (shard_index hash a key) [])

      same_length : length b.shards ≡ length a.shards
      same_length = ap length e ∙ length-set a.shards (shard_index hash a key) stored

      index_eq : shard_index hash b key ≡ shard_index hash a key
      index_eq = shard_index-eq a b same_length

module _ (hash : FragmentKey → ℕ) (key : FragmentKey) (start : ℕ) where
  -- The packet `pieces` is under way in `a`, with the fragments in `slots` stored, and there is
  -- room for the fragments that are missing; a group that holds some of it is not older than `start`.
  pub record Ready (a : Assembler) (pieces : List (List ℕ)) (slots : List (Option (List ℕ)))
      : Type 0 where
    pub live : a.closed ≡ false
    pub index_ok : shard_index hash a key < length a.shards
    pub several : 2 ≤ length pieces
    pub few : length pieces ≤ 255
    pub partial : Partial slots pieces
    pub unfinished : filled slots < length pieces
    pub content : Content (view hash key a) slots (length pieces)
    pub group_room :
        view hash key a ≡ none → a.counters.retained_groups < fragment_group_limit a.max_groups
    pub byte_room :
        a.counters.retained_bytes + (length pieces - filled slots) * max_frag_payload
        ≤ fragment_byte_limit a.max_bytes
    pub created : (g : Group) → view hash key a ≡ some g → start ≤ g.created_at

  -- What one more fragment of the packet brings: the whole packet, or nothing yet.
  abbrev pub Advances : List (List ℕ) → List (Option (List ℕ)) → Outcome → Type 0
  Advances pieces slots r =
      (r.1 ≡ ok (some (concat pieces))) ⊎ ((r.1 ≡ ok none) × Ready r.0 pieces slots)

  finish-Advances :
      (a : Assembler) (pieces : List (List ℕ)) (slots : List (Option (List ℕ))) (g : Group)
      (fresh : Bool) (i : ℕ) (p : List ℕ)
      → Ready a pieces slots
      → get_elem? pieces i ≡ some p
      → length p ≤ max_frag_payload
      → get_or slots i none ≡ none
      → i < length slots
      → (g.pieces ≡ slots) × (g.total ≡ length pieces) × (g.received ≡ filled slots)
      → start ≤ g.created_at
      → Advances pieces
          (set slots i (some p))
          (finish_group (reserved a fresh p) (shard_index hash a key) key (store_piece g i p))
  unfolding finish_group
  finish-Advances a pieces slots g fresh i p v at fits empty inside (same, total_eq, received_eq)
        late =
      if_cases (Advances pieces (set slots i (some p))) ((g.received + 1) % 256 == g.total) _ _
        (λ done. inl (ap (λ s. ok (some s)) (joined done))) (λ more. inr (refl, ready more))
    where
      now_filled : filled (set slots i (some p)) ≡ suc (filled slots)
      now_filled = filled-set slots i p inside empty

      now_partial : Partial (set slots i (some p)) pieces
      now_partial = set-Partial slots pieces i p v.partial at

      joined :
          ((g.received + 1) % 256 == g.total) ≡ true
          → join_pieces (set g.pieces i (some p)) ≡ concat pieces
      joined done =
          rw same
            (join_full (set slots i (some p)) pieces now_partial (ground (arith, v, now_filled)))

      next : Assembler
      next = record (reserved a fresh p) {
        shards =
            set a.shards (shard_index hash a key)
              (insert key (store_piece g i p) (get_or a.shards (shard_index hash a key) []));
      }

      stands :
          (view hash key next ≡ some (store_piece g i p))
          × (shard_index hash next key < length next.shards)
      stands = view_stored hash key a next (store_piece g i p) v.index_ok refl

      stored_late :
          (h : Group)
          → view hash key next ≡ some (store_piece g i p)
          → view hash key next ≡ some h
          → start ≤ h.created_at
      stored_late h is at_key =
          let same_group : store_piece g i p ≡ h = cc in
          subst (λ (x : Group). start ≤ x.created_at) same_group late

      ready : ((g.received + 1) % 256 == g.total) ≡ false → Ready next pieces (set slots i (some p))
      ready more = record {
        live = v.live;
        index_ok = stands.1;
        several = v.several;
        few = v.few;
        partial = now_partial;
        unfinished = ground (arith, v, now_filled);
        content = rw (stands.0) (
          ap (λ (s : List (Option (List ℕ))). set s i (some p)) same,
          total_eq,
          ground (arith, v, now_filled),
        );
        group_room = λ gone. cc (stands.0);
        byte_room = ground (arith, v, now_filled);
        created = λ h at_key. stored_late h (stands.0) at_key;
      }

  store-Advances :
      (a : Assembler) (pieces : List (List ℕ)) (slots : List (Option (List ℕ))) (g : Group)
      (fresh : Bool) (i : ℕ) (p : List ℕ)
      → Ready a pieces slots
      → get_elem? pieces i ≡ some p
      → length p ≤ max_frag_payload
      → get_or slots i none ≡ none
      → i < length slots
      → (g.pieces ≡ slots) × (g.total ≡ length pieces) × (g.received ≡ filled slots)
      → (fresh ≡ true → view hash key a ≡ none)
      → start ≤ g.created_at
      → Advances pieces
          (set slots i (some p))
          (reserve_and_store a (shard_index hash a key) key g fresh i p)
  store-Advances a pieces slots g fresh i p v at fits empty inside holds absent late =
      reserve_and_store_cases (Advances pieces (set slots i (some p))) a (shard_index hash a key)
        key g fresh i p (λ groups bytes over. absurd (no_excess over))
        (λ _ _. finish-Advances a pieces slots g fresh i p v at fits empty inside holds late)
    where
      no_excess : Exceeds a fresh p → ⊥
      no_excess (inl (is_fresh, over)) = omega (arith, v.group_room (absent is_fresh))
      no_excess (inr over) = ground (arith, v)

  in_range :
      (pieces : List (List ℕ)) (i : ℕ) (p : List ℕ)
      → get_elem? pieces i ≡ some p
      → i < length pieces
  in_range [] i p e = cc
  in_range (q ∷ pieces) zero p e = omega arith
  in_range (q ∷ pieces) (suc i) p e = omega (arith, in_range pieces i p e)

  -- One fragment of the packet, new or repeated, at any time from `start` on.
  pub add-Advances :
      (a : Assembler) (now : ℕ) (pieces : List (List ℕ)) (slots : List (Option (List ℕ))) (i : ℕ)
      (p : List ℕ)
      → Ready a pieces slots
      → get_elem? pieces i ≡ some p
      → length p ≤ max_frag_payload
      → start ≤ now
      → Advances pieces
          (set slots i (some p))
          (add_fragment hash a now key.session_id key.frag_id i (length pieces) p)
  unfolding view
  add-Advances a now pieces slots i p v at fits late =
      add_fragment_cases (Advances pieces (set slots i (some p))) hash a now key.session_id
        key.frag_id i (length pieces) p (λ e bad. absurd (valid e bad)) (λ shut. cc (v.live))
        (λ _ _.
          add_to_shard_cases (Advances pieces (set slots i (some p))) a now (shard_index hash a key)
            key i (length pieces) p
            (λ gone.
              let start : slots ≡ replicate (length pieces) none = rw gone at v.content in
              store-Advances a pieces slots (new_group (length pieces) now) true i p v at fits
                (rw start (get_or-replicate (length pieces) i)) inside
                (sym start, refl, rw start (sym (filled-replicate (length pieces)))) (λ _. gone)
                late)
            (λ g found differs. absurd (differs (holds g found).1))
            (λ g found _ beyond. absurd (omega (arith, inside, ap length (holds g found).0)))
            (λ g piece found _ taken. inr (
              refl,
              rw
                  (set_filled slots pieces i p piece v.partial at (
                    ap (λ (s : List (Option (List ℕ))). get_or s i none) (sym (holds g found).0)
                    ∙ taken))
                  v,
            ))
            (λ g found _ _ empty.
              store-Advances a pieces slots g false i p v at fits
                (ap (λ (s : List (Option (List ℕ))). get_or s i none) (sym (holds g found).0)
                  ∙ empty)
                inside (holds g found) (λ e. cc) (v.created g found)))
    where
      inside : i < length slots
      inside = omega (arith, in_range pieces i p at, length-Partial slots pieces v.partial)

      valid : (e : Error) → validate_fragment_input i (length pieces) ≡ some e → ⊥
      valid e bad = unfold validate_fragment_input in ground (arith, v, in_range pieces i p at)

      holds :
          (g : Group)
          → lookup key (get_or a.shards (shard_index hash a key) []) ≡ some g
          → (g.pieces ≡ slots) × (g.total ≡ length pieces) × (g.received ≡ filled slots)
      holds g found = rw found at v.content
