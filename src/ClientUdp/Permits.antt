-- ===== src/ClientUdp/Permits.antt =====
-- The permits of a client's UDP sessions: taken with a new state, given back once.
use qmux.Base.{
  ℕ, ◌≡◌, refl, sym, ap, subst, ◌∙◌, ◌+◌, ◌-◌, ◌≤◌, ◌<◌, ◌⊎◌, max, true, false, not, Option, none,
  some, List, [], ◌∷◌, ◌++◌, ◌==◌, ==_iff, length, get_elem?, set, get_elem?-append,
  count_by-append, count_by-set, if◌then◌else◌, if_cases, arith, ltb, ltb→lt, Bool-cases, inl, inr,
}
use qmux.Base.Lists.{count_by}
use qmux.Base.Assoc.{
  nat_eq, lookup, insert, lookup-erase, lookup-insert, lookup-insert_self, insert-Uniq, erase-Uniq,
}
use qmux.ClientUdp.State.{
  Budget, Phase, closed, Packet, SessionState, Handler, udp_pending_backing_limit,
}
use qmux.ClientUdp.Budget.{acquire, give_back}
use qmux.ClientUdp.Sessions.{is_closed, new_state}
use qmux.ClientUdp.Handler.{
  delete_exact, is_mapped, install_permitted, install_pending, release_found,
}
use qmux.ClientUdp.Counted.{
  IsSession, IsCounted, holds_permit, is_published, replaced-valid, replaced-mapped,
}
use qmux.ClientUdp.Changes.{same_key, true≢false}
use qmux.ClientUdp.State.{collecting, draining, ready}
use qmux.ClientUdp.Counted.{IsInOrder}

released-IsInOrder :
    (p : Phase) (s : SessionState)
    → IsInOrder p s
    → IsInOrder p (record s { permit_released = true })
released-IsInOrder collecting s v = v
released-IsInOrder draining s v = v
released-IsInOrder ready s v = v
released-IsInOrder closed s v = v

released-IsSession :
    (s : SessionState) → IsSession s → IsSession (record s { permit_released = true })
released-IsSession s v = record {
  in_order = released-IsInOrder s.phase s v.in_order;
  retained = v.retained;
  fits = v.fits;
  published = v.published;
}

give_back_lem :
    (b : Budget)
    → 1 ≤ b.slots
    → 1 ≤ b.permits_held
    → give_back b ≡ record b { slots = b.slots - 1; permits_held = b.permits_held - 1 }
unfolding give_back
give_back_lem b h k = ground arith

is_mapped_lem : (o : Option ℕ) (i : ℕ) → is_mapped o i ≡ true → o ≡ some i
is_mapped_lem none i h = cc
is_mapped_lem (some j) i h = ap some ((==_iff j i).0 h)

module _ (h : Handler) (i : ℕ) (s : SessionState) (there : get_elem? h.states i ≡ some s) where
  -- A permit that is held is counted.
  one_permit :
      s.permit_released ≡ false
      → count_by holds_permit (set h.states i (record s { permit_released = true })) + 1
        ≡ count_by holds_permit h.states
  one_permit p = omega (
    arith,
    count_by-set holds_permit h.states i s (record s { permit_released = true }) there,
    ap {B = ℕ} (λ b. if not b then 1 else 0) p,
  )

  given_back-IsCounted :
      IsCounted h
      → s.permit_released ≡ false
      → IsCounted (record h {
        states = set h.states i (record s { permit_released = true });
        budget = give_back h.budget;
      })
  given_back-IsCounted v p =
      let t : SessionState = record s { permit_released = true } in
      let b : Budget = h.budget in
      let w : IsSession t = released-IsSession s (v.valid i s there) in
      rw
        (give_back_lem b (omega (arith, v.permits, one_permit p))
          (omega (arith, v.permits, one_permit p)))
        (record {
          valid = replaced-valid h i s t there v w;
          mapped = replaced-mapped h i s t there v refl (λ e. e);
          uniq = v.uniq;
          permits = omega (arith, v.permits, one_permit p);
          active = omega (arith, v.active, count_by-set is_published h.states i s t there);
          faultless = v.faultless;
        })

  -- The permit of a session is given back once.
  pub released-IsCounted : IsCounted h → IsCounted (release_found i (some s) h)
  released-IsCounted v =
      if_cases IsCounted s.permit_released h _ (λ p. v) (λ p. given_back-IsCounted v p)

  -- A closed state is forgotten, if the table has it.
  pub forget-IsCounted : IsCounted h → is_closed s.phase ≡ true → IsCounted (delete_exact i s h)
  unfolding delete_exact
  forget-IsCounted v c =
      if_cases IsCounted (is_mapped (lookup s.id h.sessions) i) _ h
        (λ p. record {
          valid = v.valid;
          mapped = λ j u e q.
              lookup-erase s.id u.id h.sessions v.uniq
              ∙ ap {B = Option ℕ} (λ b. if b then none else lookup u.id h.sessions)
                  (same_key h s.id u.id i j (is_mapped_lem (lookup s.id h.sessions) i p)
                    (v.mapped j u e q)
                    (λ r. true≢false (sym c ∙ ap (λ x. is_closed x.phase) (found_twice r e) ∙ q)))
              ∙ v.mapped j u e q;
          uniq = erase-Uniq s.id h.sessions v.uniq;
          permits = v.permits;
          active = v.active;
          faultless = v.faultless;
        })
        (λ p. v)
    where
      found_twice : {j : ℕ} {u : SessionState} → i ≡ j → get_elem? h.states j ≡ some u → s ≡ u
      found_twice {j} {u} r e = some_inj (sym there ∙ ap (get_elem? h.states) r ∙ e)
        where
          some_inj : some s ≡ some u → s ≡ u
          some_inj p = cc

-- A read after an append: the new state, or an old one.
read_appended :
    (xs : List SessionState) (t : SessionState) (j : ℕ) (u : SessionState)
    → get_elem? (xs ++ (t ∷ [])) j ≡ some u
    → ((j ≡ length xs) × (t ≡ u)) ⊎ (get_elem? xs j ≡ some u)
read_appended xs t j u e = elim (Bool-cases (j == length xs)) [
  | inl last ↦ inl ((==_iff j (length xs)).0 last, ground (arith, get_elem?-append xs t j))
  | inr old ↦ inr (ground (arith, get_elem?-append xs t j))
]

-- A new state under an ID that is not in the table.
installed-IsCounted :
    (id : ℕ) (packet : Packet) (h : Handler)
    → IsCounted h
    → lookup id h.sessions ≡ none
    → IsSession (new_state id packet)
    → h.budget.slots < h.budget.limit
    → IsCounted (record {
      sessions = insert id (length h.states) h.sessions;
      states = h.states ++ (new_state id packet ∷ []);
      budget = record h.budget {
        slots = h.budget.slots + 1;
        permits_held = h.budget.permits_held + 1;
        max_permits_held = max h.budget.max_permits_held (h.budget.permits_held + 1);
      };
      conns_closed = h.conns_closed;
    })
unfolding new_state
installed-IsCounted id packet h v free w room = record {
  valid = λ j u e. elim (read_appended h.states (new_state id packet) j u e) [
    | inl (p, q) ↦ subst IsSession q w
    | inr q ↦ v.valid j u q
  ];
  mapped = λ j u e c. elim (read_appended h.states (new_state id packet) j u e) [
    | inl (p, q) ↦ installed_new j u p q
    | inr q ↦ installed_old j u (v.mapped j u q c)
  ];
  uniq = insert-Uniq id (length h.states) h.sessions v.uniq;
  permits =
      omega (arith, v.permits, room, count_by-append holds_permit h.states (new_state id packet));
  active = omega (arith, v.active, count_by-append is_published h.states (new_state id packet));
  faultless = v.faultless;
}
  where
    installed_new :
        (j : ℕ) (u : SessionState)
        → j ≡ length h.states
        → new_state id packet ≡ u
        → lookup u.id (insert id (length h.states) h.sessions) ≡ some j
    installed_new j u p q =
        ap (λ x. lookup x.id (insert id (length h.states) h.sessions)) (sym q)
        ∙ lookup-insert_self id (length h.states) h.sessions
        ∙ ap some (sym p)

    installed_old :
        (j : ℕ) (u : SessionState)
        → lookup u.id h.sessions ≡ some j
        → lookup u.id (insert id (length h.states) h.sessions) ≡ some j
    installed_old j u p = ground (
      arith,
      lookup-insert id u.id (length h.states) h.sessions,
      ==_iff id u.id,
      ap (λ x. lookup x h.sessions),
    )

new_state-IsSession :
    (id : ℕ) (packet : Packet)
    → packet.retained ≤ udp_pending_backing_limit
    → IsSession (new_state id packet)
unfolding new_state
new_state-IsSession id packet fits = record {
  in_order = (refl, refl);
  retained = omega arith;
  fits = (omega arith, fits);
  published = refl;
}

-- `installPendingOrLoad`, for a packet that the dispatch lets through.
pub install-IsCounted :
    (id : ℕ) (packet : Packet) (h : Handler)
    → IsCounted h
    → lookup id h.sessions ≡ none
    → packet.retained ≤ udp_pending_backing_limit
    → IsCounted (install_pending id packet h).0
unfolding install_pending acquire
install-IsCounted id packet h v free fits =
    if_cases (λ z. IsCounted (install_permitted id packet h z).0)
      (not (h.budget.accounting_faults == 0)) (h.budget, false) _ (λ p. v)
      (λ p.
        if_cases (λ z. IsCounted (install_permitted id packet h z).0)
          (ltb h.budget.slots h.budget.limit) _
          (record h.budget { limit_drops = h.budget.limit_drops + 1 }, false)
          (λ q.
            installed-IsCounted id packet h v free (new_state-IsSession id packet fits)
              (ltb→lt h.budget.slots h.budget.limit q))
          (λ q. record {
            valid = v.valid;
            mapped = v.mapped;
            uniq = v.uniq;
            permits = v.permits;
            active = v.active;
            faultless = v.faultless;
          }))
