-- ===== src/ClientUdp/Counted.antt =====
-- What holds of a client's UDP handler in every state: each session keeps its packets in order and
-- within the limits, and permits and published sessions are counted exactly.
use qmux.Base.{
  ℕ, ◌≡◌, ◌≢◌, sym, ap, subst, ◌∙◌, ◌+◌, ◌≤◌, ◌⊎◌, Bool, false, not, some, List, [], ◌∷◌, ◌==◌,
  ==_iff, length, get_elem?, set, get_elem?-set, count_by-set, if◌then◌else◌, arith, Bool-cases,
  inl, inr,
}
use qmux.Base.Lists.{count_by}
use qmux.Base.Assoc.{nat_eq, lookup, Uniq}
use qmux.ClientUdp.State.{
  Phase, collecting, draining, ready, closed, Packet, SessionState, Handler,
  udp_pending_packet_limit, udp_pending_backing_limit,
}
use qmux.ClientUdp.Sessions.{is_ready, is_closed, is_none}
use qmux.ClientUdp.Handler.{with_state}

abbrev pub sum_retained : List Packet → ℕ
sum_retained [] = 0
sum_retained (p ∷ ps) = p.retained + sum_retained ps

-- Until the seal the packets accepted are those that wait; it hands out all of them, in order.
abbrev pub IsInOrder : Phase → SessionState → Type 0
IsInOrder collecting s = (s.fifo ≡ s.queued) × (s.sealed ≡ [])
IsInOrder draining s = (s.sealed ≡ s.queued) × (s.fifo ≡ [])
IsInOrder ready s = (s.sealed ≡ s.queued) × (s.fifo ≡ [])
IsInOrder closed s = s.fifo ≡ []

pub record IsSession (s : SessionState) : Type 0 where
  pub in_order : IsInOrder s.phase s
  pub retained : s.retained_bytes ≡ sum_retained s.fifo
  pub fits :
      (length s.fifo ≤ udp_pending_packet_limit) × (s.retained_bytes ≤ udp_pending_backing_limit)
  pub published : is_none s.session ≡ not (is_ready s.phase)

abbrev pub holds_permit : SessionState → Bool
holds_permit s = not s.permit_released

abbrev pub is_published : SessionState → Bool
is_published s = is_ready s.phase

pub record IsCounted (h : Handler) : Type 0 where
  pub valid : (i : ℕ) (s : SessionState) → get_elem? h.states i ≡ some s → IsSession s
  -- An open session stands in the table under its ID, so no two of them share one.
  pub mapped :
      (i : ℕ) (s : SessionState)
      → get_elem? h.states i ≡ some s
      → is_closed s.phase ≡ false
      → lookup s.id h.sessions ≡ some i
  pub uniq : Uniq h.sessions
  pub permits :
      (h.budget.slots ≡ count_by holds_permit h.states)
      × (h.budget.permits_held ≡ count_by holds_permit h.states)
      × (h.budget.permits_held ≤ h.budget.max_permits_held)
      × (h.budget.max_permits_held ≤ h.budget.limit)
  pub active : h.budget.published_active ≡ count_by is_published h.states
  pub faultless : h.budget.accounting_faults ≡ 0

-- Another state in the place of one.
module _ (h : Handler) (i : ℕ) (s t : SessionState) (there : get_elem? h.states i ≡ some s) where
  pub read_back :
      (j : ℕ) (u : SessionState)
      → get_elem? (set h.states i t) j ≡ some u
      → ((i ≡ j) × (t ≡ u)) ⊎ ((i ≢ j) × (get_elem? h.states j ≡ some u))
  read_back j u e = elim (Bool-cases (i == j)) [
    | inl same ↦ inl ((==_iff i j).0 same, ground (arith, get_elem?-set h.states i j s t there))
    | inr other ↦
        inr (λ p. ground (arith, ==_iff i j), ground (arith, get_elem?-set h.states i j s t there))
  ]

  pub replaced-valid :
      IsCounted h
      → IsSession t
      → (j : ℕ) (u : SessionState) → get_elem? (set h.states i t) j ≡ some u
      → IsSession u
  replaced-valid v w j u e = elim (read_back j u e) [
    | inl (p, q) ↦ subst IsSession q w
    | inr (p, q) ↦ v.valid j u q
  ]

  pub replaced-mapped :
      IsCounted h
      → t.id ≡ s.id
      → (is_closed t.phase ≡ false → is_closed s.phase ≡ false)
      → (j : ℕ) (u : SessionState) → get_elem? (set h.states i t) j ≡ some u
      → is_closed u.phase ≡ false
      → lookup u.id h.sessions ≡ some j
  replaced-mapped v same keeps_open j u e c = elim (read_back j u e) [
    | inl (p, q) ↦
        ap (λ x. lookup x.id h.sessions) (sym q)
        ∙ ap (λ x. lookup x h.sessions) same
        ∙ v.mapped i s there (keeps_open (ap (λ x. is_closed x.phase) q ∙ c))
        ∙ ap some p
    | inr (p, q) ↦ v.mapped j u q c
  ]

  -- A change within a session that keeps its permit and does not publish or close it.
  pub with_state-IsCounted :
      IsCounted h
      → IsSession t
      → t.id ≡ s.id
      → t.permit_released ≡ s.permit_released
      → is_published t ≡ is_published s
      → (is_closed t.phase ≡ false → is_closed s.phase ≡ false)
      → IsCounted (with_state i t h)
  with_state-IsCounted v w same permit active keeps_open = record {
    valid = replaced-valid v w;
    mapped = replaced-mapped v same keeps_open;
    uniq = v.uniq;
    permits = omega (
      arith,
      v.permits,
      count_by-set holds_permit h.states i s t there,
      ap {B = ℕ} (λ b. if not b then 1 else 0) permit,
    );
    active = omega (
      arith,
      v.active,
      count_by-set is_published h.states i s t there,
      ap {B = ℕ} (λ b. if b then 1 else 0) active,
    );
    faultless = v.faultless;
  }
