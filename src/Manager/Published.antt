-- ===== src/Manager/Published.antt =====
-- A registered generation of client/connection_manager.go is the published one of its endpoint.
use qmux.Base.{
  ℕ, zero, suc, ◌≡◌, refl, sym, ap, subst, ◌∙◌, true, false, Option, none, some, List, [], ◌∷◌,
  ◌==◌, ==_iff, str_eq, get_elem?, set, get_elem?-set, if◌then◌else◌, arith, Bool-cases, inl, inr,
}
use qmux.Manager.State.{Name, generation_none, registered, Conn, EndpointPhases, Manager}
use qmux.Manager.Generations.{change_found, at_endpoint, with_conn, find_endpoint}
use qmux.Manager.Tallied.{is_at, read_endpoint, conns-at_endpoint}

-- The registered connections, but for one, are the published ones of their endpoints, and the endpoint
-- that counts a connection is the one with its address, where there is one.
pub record IsPublishedBut (x : Option ℕ) (m : Manager) : Type 0 where
  pub placed :
      (i : ℕ) (c : Conn) (k : ℕ)
      → get_elem? m.conns i ≡ some c
      → c.capacity_endpoint ≡ some k
      → find_endpoint c.server_addr m.endpoints ≡ some k
  pub untracked :
      (i : ℕ) (c : Conn)
      → get_elem? m.conns i ≡ some c
      → c.capacity_phase ≡ generation_none
      → find_endpoint c.server_addr m.endpoints ≡ none
  pub published :
      (i : ℕ) (c : Conn) (k : ℕ) (e : EndpointPhases)
      → get_elem? m.conns i ≡ some c
      → c.capacity_phase ≡ registered
      → c.capacity_endpoint ≡ some k
      → get_elem? m.endpoints k ≡ some e
      → is_at x i ≡ false
      → e.lifecycle.current ≡ some i

find_endpoint-set :
    (addr : Name) (es : List EndpointPhases) (k : ℕ) (e e' : EndpointPhases)
    → get_elem? es k ≡ some e
    → e'.endpoint ≡ e.endpoint
    → find_endpoint addr (set es k e') ≡ find_endpoint addr es
unfolding find_endpoint
find_endpoint-set addr [] k e e' h same = refl
find_endpoint-set addr (a ∷ es) zero e e' h same =
    let this : a ≡ e = cc in
    let named : e'.endpoint ≡ a.endpoint =
      same ∙ ap (λ (x : EndpointPhases). x.endpoint) (sym this) in
    ap
      (λ n.
        if str_eq n addr
        then some 0
        else elim (find_endpoint addr es) [ none ↦ none | some j ↦ some (suc j) ])
      named
find_endpoint-set addr (a ∷ es) (suc k) e e' h same =
    ap
      (λ r.
        if str_eq a.endpoint addr then some 0 else elim r [ none ↦ none | some j ↦ some (suc j) ])
      (find_endpoint-set addr es k e e' h same)

pub find_endpoint-at_endpoint :
    (f : EndpointPhases → EndpointPhases) (o : Option ℕ) (m : Manager) (addr : Name)
    → ((e : EndpointPhases) → (f e).endpoint ≡ e.endpoint)
    → find_endpoint addr (at_endpoint f o m).endpoints ≡ find_endpoint addr m.endpoints
find_endpoint-at_endpoint f none m addr same = refl
find_endpoint-at_endpoint f (some k) m addr same = found (get_elem? m.endpoints k) refl
  where
    found :
        (o : Option EndpointPhases)
        → get_elem? m.endpoints k ≡ o
        → find_endpoint addr (change_found f k o m).endpoints ≡ find_endpoint addr m.endpoints
    found none h = refl
    found (some e) h = find_endpoint-set addr m.endpoints k e (f e) h (same e)

-- A change of an endpoint that keeps its current connection, but for those left out.
pub at_endpoint-IsPublished :
    (f : EndpointPhases → EndpointPhases) (o : Option ℕ) (m : Manager) (x y : Option ℕ)
    → ((e : EndpointPhases) → (f e).endpoint ≡ e.endpoint)
    → ((i : ℕ) → is_at y i ≡ false → is_at x i ≡ false)
    → ((k : ℕ) (e : EndpointPhases) (i : ℕ)
        → get_elem? m.endpoints k ≡ some e
        → is_at o k ≡ true
        → is_at y i ≡ false
        → e.lifecycle.current ≡ some i
        → (f e).lifecycle.current ≡ some i)
    → IsPublishedBut x m
    → IsPublishedBut y (at_endpoint f o m)
at_endpoint-IsPublished f o m x y named narrower keeps v = record {
  placed = λ i c k there at.
      find_endpoint-at_endpoint f o m c.server_addr named
      ∙ v.placed i c k (sym (ap (λ cs. get_elem? cs i) (conns-at_endpoint f o m)) ∙ there) at;
  untracked = λ i c there phase.
      find_endpoint-at_endpoint f o m c.server_addr named
      ∙ v.untracked i c (sym (ap (λ cs. get_elem? cs i) (conns-at_endpoint f o m)) ∙ there) phase;
  published = λ i c k e' there phase at h off.
      let (e, was, side) = read_endpoint f o m k e' h in
      let before =
        v.published i c k e (sym (ap (λ cs. get_elem? cs i) (conns-at_endpoint f o m)) ∙ there)
          phase at was (narrower i off) in
      elim side [
        | inl (here, r) ↦
            ap (λ (w : EndpointPhases). w.lifecycle.current) r ∙ keeps k e i was here off before
        | inr (away, r) ↦ ap (λ (w : EndpointPhases). w.lifecycle.current) r ∙ before
      ];
}

-- A change of a connection, which may be the one left out.
pub with_conn-IsPublished :
    (m : Manager) (i : ℕ) (c d : Conn) (x y : Option ℕ)
    → get_elem? m.conns i ≡ some c
    → ((k : ℕ) → d.capacity_endpoint ≡ some k → find_endpoint d.server_addr m.endpoints ≡ some k)
    → (d.capacity_phase ≡ generation_none → find_endpoint d.server_addr m.endpoints ≡ none)
    → ((j : ℕ) → (i == j) ≡ false → is_at y j ≡ false → is_at x j ≡ false)
    → ((k : ℕ) (e : EndpointPhases)
        → d.capacity_phase ≡ registered
        → d.capacity_endpoint ≡ some k
        → get_elem? m.endpoints k ≡ some e
        → is_at y i ≡ false
        → e.lifecycle.current ≡ some i)
    → IsPublishedBut x m
    → IsPublishedBut y (with_conn i d m)
with_conn-IsPublished m i c d x y there placed fresh narrower current v = record {
  placed = λ j b k h at. elim (Bool-cases (i == j)) [
    | inl same ↦
        let this : d ≡ b = read_same j b h same in
        subst (λ a. find_endpoint a m.endpoints ≡ some k) (ap (λ (w : Conn). w.server_addr) this)
          (placed k (ap (λ (w : Conn). w.capacity_endpoint) this ∙ at))
    | inr other ↦ v.placed j b k (read_other j b h other) at
  ];
  untracked = λ j b h phase. elim (Bool-cases (i == j)) [
    | inl same ↦
        let this : d ≡ b = read_same j b h same in
        subst (λ a. find_endpoint a m.endpoints ≡ none) (ap (λ (w : Conn). w.server_addr) this)
          (fresh (ap (λ (w : Conn). w.capacity_phase) this ∙ phase))
    | inr other ↦ v.untracked j b (read_other j b h other) phase
  ];
  published = λ j b k e h phase at was off. elim (Bool-cases (i == j)) [
    | inl same ↦
        let this : d ≡ b = read_same j b h same in
        let name : i ≡ j = (==_iff i j).0 same in
        current k e (ap (λ (w : Conn). w.capacity_phase) this ∙ phase)
          (ap (λ (w : Conn). w.capacity_endpoint) this ∙ at) was
          (subst (λ n. is_at y n ≡ false) (sym name) off)
        ∙ ap some name
    | inr other ↦ v.published j b k e (read_other j b h other) phase at was (narrower j other off)
  ];
}
  where
    read_same :
        (j : ℕ) (b : Conn) → get_elem? (set m.conns i d) j ≡ some b → (i == j) ≡ true → d ≡ b
    read_same j b h same = ground (arith, get_elem?-set m.conns i j c d there)

    read_other :
        (j : ℕ) (b : Conn)
        → get_elem? (set m.conns i d) j ≡ some b
        → (i == j) ≡ false
        → get_elem? m.conns j ≡ some b
    read_other j b h other = ground (arith, get_elem?-set m.conns i j c d there)
