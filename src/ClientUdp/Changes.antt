-- ===== src/ClientUdp/Changes.antt =====
-- The changes of a client's UDP handler that open, publish, close and forget a session.
use qmux.Base.{
  ℕ, ◌≡◌, ◌≢◌, refl, sym, ap, ◌∙◌, ◌+◌, ◌-◌, ◌≤◌, true, false, not, Option, none, some, List, ◌∷◌,
  ◌==◌, ==_iff, ==_refl, get_elem?, set, count_by-set, if◌then◌else◌, arith, Bool-cases, inl, inr,
}
use qmux.Base.Lists.{count_by}
use qmux.Base.Assoc.{nat_eq, lookup, erase, lookup-erase, erase-Uniq}
use qmux.ClientUdp.State.{Budget, SessionState, Handler}
use qmux.ClientUdp.Budget.{unpublish}
use qmux.ClientUdp.Sessions.{is_closed}
use qmux.ClientUdp.Handler.{with_state, delete_exact, close_conn, unpublish_if}
use qmux.ClientUdp.Counted.{
  IsSession, IsCounted, holds_permit, is_published, replaced-valid, read_back,
}

-- Two different states are not in the table under one key.
pub same_key :
    (h : Handler) (a b i j : ℕ)
    → lookup a h.sessions ≡ some i
    → lookup b h.sessions ≡ some j
    → i ≢ j
    → (a == b) ≡ false
same_key h a b i j p q n = elim (Bool-cases (a == b)) [
  | inl same ↦
      absurd (n (some_inj (sym p ∙ ap (λ x. lookup x h.sessions) ((==_iff a b).0 same) ∙ q)))
  | inr other ↦ other
]
  where
    some_inj : some i ≡ some j → i ≡ j
    some_inj e = cc

pub true≢false : true ≢ false
true≢false e = cc

-- The connections closed after one more, if there is one.
abbrev log_of : Option ℕ → List ℕ → List ℕ
log_of none cs = cs
log_of (some conn) cs = conn ∷ cs

close_conn_lem :
    (conn : Option ℕ) (h : Handler)
    → close_conn conn h ≡ record h { conns_closed = log_of conn h.conns_closed }
close_conn_lem none h = refl
close_conn_lem (some conn) h = refl

unpublish_lem :
    (b : Budget)
    → 1 ≤ b.published_active
    → unpublish b ≡ record b { published_active = b.published_active - 1 }
unfolding unpublish
unpublish_lem b h = ground arith

module _ (h : Handler) (i : ℕ) (s t : SessionState) (there : get_elem? h.states i ≡ some s) where
  -- A state that closes leaves the table.
  left_table :
      IsCounted h
      → is_closed s.phase ≡ false
      → t.id ≡ s.id
      → delete_exact i t (with_state i t h)
        ≡ record h { states = set h.states i t; sessions = erase t.id h.sessions }
  unfolding delete_exact
  left_table v c same =
      rw (ap (λ x. lookup x h.sessions) same ∙ v.mapped i s there c, ==_refl i) refl

  closed_with :
      (cs : List ℕ) (n : ℕ)
      → IsCounted h
      → IsSession t
      → is_closed s.phase ≡ false
      → is_closed t.phase ≡ true
      → t.id ≡ s.id
      → t.permit_released ≡ s.permit_released
      → n ≡ count_by is_published (set h.states i t)
      → IsCounted (record {
        sessions = erase t.id h.sessions;
        states = set h.states i t;
        budget = record h.budget { published_active = n };
        conns_closed = cs;
      })
  closed_with cs n v w c d same permit counted = record {
    valid = replaced-valid h i s t there v w;
    mapped = λ j u e p. elim (read_back h i s t there j u e) [
      | inl (_, q) ↦ absurd (true≢false (sym d ∙ ap (λ x. is_closed x.phase) q ∙ p))
      | inr (ne, q) ↦
          lookup-erase t.id u.id h.sessions v.uniq
          ∙ ap {B = Option ℕ} (λ b. if b then none else lookup u.id h.sessions)
              (same_key h t.id u.id i j (ap (λ x. lookup x h.sessions) same ∙ v.mapped i s there c)
                (v.mapped j u q p) ne)
          ∙ v.mapped j u q p
    ];
    uniq = erase-Uniq t.id h.sessions v.uniq;
    permits = omega (
      arith,
      v.permits,
      count_by-set holds_permit h.states i s t there,
      ap {B = ℕ} (λ b. if not b then 1 else 0) permit,
    );
    active = counted;
    faultless = v.faultless;
  }

  pub close_published :
      (conn : Option ℕ)
      → IsCounted h
      → IsSession t
      → is_closed s.phase ≡ false
      → is_closed t.phase ≡ true
      → t.id ≡ s.id
      → t.permit_released ≡ s.permit_released
      → is_published s ≡ true
      → is_published t ≡ false
      → IsCounted (unpublish_if true (close_conn conn (delete_exact i t (with_state i t h))))
  close_published conn v w c d same permit p q =
      let fewer : count_by is_published (set h.states i t) + 1 ≡ count_by is_published h.states =
        omega (
          arith,
          count_by-set is_published h.states i s t there,
          ap {B = ℕ} (λ b. if b then 1 else 0) p,
          ap {B = ℕ} (λ b. if b then 1 else 0) q,
        ) in
      rw
        (
          left_table v c same,
          close_conn_lem,
          unpublish_lem h.budget (omega (arith, v.active, fewer)),
        )
        (closed_with (log_of conn h.conns_closed) (h.budget.published_active - 1) v w c d same
          permit (omega (arith, v.active, fewer)))

  pub close_unpublished :
      (conn : Option ℕ)
      → IsCounted h
      → IsSession t
      → is_closed s.phase ≡ false
      → is_closed t.phase ≡ true
      → t.id ≡ s.id
      → t.permit_released ≡ s.permit_released
      → is_published s ≡ false
      → is_published t ≡ false
      → IsCounted (unpublish_if false (close_conn conn (delete_exact i t (with_state i t h))))
  close_unpublished conn v w c d same permit p q =
      rw (left_table v c same, close_conn_lem)
        (closed_with (log_of conn h.conns_closed) h.budget.published_active v w c d same permit (
          omega (
            arith,
            v.active,
            count_by-set is_published h.states i s t there,
            ap {B = ℕ} (λ b. if b then 1 else 0) p,
            ap {B = ℕ} (λ b. if b then 1 else 0) q,
          )))
