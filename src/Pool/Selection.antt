-- ===== src/Pool/Selection.antt =====
-- What the balancers of server/pool/balancer.go choose.
use native.Mathlib.Nat.{mod-lt}
use qmux.Base.{
  ℕ, suc, zero, ◌≡◌, refl, ◌∙◌, sym, ap, ◌+◌, ◌%◌, ◌^◌, ◌≤◌, ◌<◌, true, false, Option, none, some,
  List, [], ◌∷◌, ltb, arith, ◌==◌, if◌then◌else◌, length, get_elem?, inl, inr, ◌⊎◌, Bool-cases,
}
use qmux.Pool.State.{Result, ok, err, Conn, Pool, no_clients_available, no_healthy_clients}
use qmux.Pool.Traffic.{keep}
use qmux.Pool.Balancer.{
  count_healthy, or_else, scan, found_or_none, round_robin, load_of, least, least_connections,
}

abbrev pub healthy_of : (ℕ → Conn) → List ℕ → List ℕ
healthy_of conns = keep (λ c. (conns c).healthy)

-- The healthy clients are filtered out first, and the counter indexes them.
pub rotation : Pool → List ℕ → Result ℕ × ℕ
rotation p [] = (err no_clients_available, p.balancer_counter)
rotation p (c ∷ cs) =
    let healthy = healthy_of p.conns (c ∷ cs) in
    let counter = (p.balancer_counter + 1) % 2 ^ 64 in
    if length healthy == 0
    then (err no_healthy_clients, p.balancer_counter)
    else (found_or_none (get_elem? healthy (counter % length healthy)), counter)

module _ (conns : ℕ → Conn) where
  count_healthy_lem : (cs : List ℕ) → count_healthy conns cs ≡ length (healthy_of conns cs)
  unfolding count_healthy keep
  count_healthy_lem [] = refl
  count_healthy_lem (c ∷ cs) = ground (arith, count_healthy_lem cs)

  length-healthy_of_le : (cs : List ℕ) → length (healthy_of conns cs) ≤ length cs
  unfolding keep
  length-healthy_of_le [] = ground arith
  length-healthy_of_le (c ∷ cs) = ground (arith, length-healthy_of_le cs)

  all_healthy : (cs : List ℕ) → length (healthy_of conns cs) ≡ length cs → healthy_of conns cs ≡ cs
  unfolding keep
  all_healthy [] h = refl
  all_healthy (c ∷ cs) h = ground (arith, all_healthy cs, length-healthy_of_le cs)

  scan_lem :
      (cs : List ℕ) (idx : ℕ) (fallback : Option ℕ)
      → idx < length (healthy_of conns cs)
      → scan conns cs idx fallback ≡ get_elem? (healthy_of conns cs) idx
  unfolding scan keep
  scan_lem [] idx fallback h = ground arith
  scan_lem (c ∷ cs) zero fallback h = ground (arith, scan_lem cs zero fallback)
  scan_lem (c ∷ cs) (suc idx) fallback h =
      ground (arith, scan_lem cs (suc idx) fallback, scan_lem cs idx (or_else fallback c))

-- Round robin gives what the rotation over the healthy clients gives: the client, or which of the
-- two errors it was, and the counter.
pub round_robin_lem : (p : Pool) (clients : List ℕ) → round_robin p clients ≡ rotation p clients
unfolding round_robin rotation
round_robin_lem p [] = ground arith
round_robin_lem p (c ∷ cs) =
    let l : ℕ = length (healthy_of p.conns (c ∷ cs)) in
    let n : ℕ = (p.balancer_counter + 1) % 2 ^ 64 in
    rw (count_healthy_lem p.conns (c ∷ cs)) (
      ground (
        arith,
        all_healthy p.conns (c ∷ cs),
        mod-lt n {m = l},
        scan_lem p.conns (c ∷ cs) (n % l) none,
      ))

-- A healthy member of the list.
abbrev pub Candidate : (ℕ → Conn) → List ℕ → ℕ → Type 0
Candidate conns [] c = ⊥
Candidate conns (d ∷ ds) c = ((d ≡ c) × ((conns c).healthy ≡ true)) ⊎ Candidate conns ds c

-- No healthy member of the list carries less than `c`.
abbrev pub Lightest : (ℕ → Conn) → List ℕ → ℕ → Type 0
Lightest conns clients c =
    (d : ℕ) → Candidate conns clients d → load_of (conns c) ≤ load_of (conns d)

module _ (conns : ℕ → Conn) where
  -- What the loop ends with over `cs` from the selection `a`: `a` or a candidate, and the lightest.
  abbrev Picks : List ℕ → ℕ → Type 0
  Picks cs a =
      (c : ℕ) × (least conns cs (some a) ≡ some c)
      × (load_of (conns c) ≤ load_of (conns a))
      × Lightest conns cs c
      × ((a ≡ c) ⊎ Candidate conns cs c)

  lighter :
      (d c : ℕ) (cs : List ℕ)
      → load_of (conns c) ≤ load_of (conns d)
      → Lightest conns cs c
      → Lightest conns (d ∷ cs) c
  lighter d c cs below light e (inl (same, h)) =
      rw (ap (λ (x : ℕ). load_of (conns x)) (sym same)) below
  lighter d c cs below light e (inr m) = light e m

  least_some : (cs : List ℕ) (a : ℕ) → Picks cs a
  unfolding least
  least_some [] a = (a, refl, omega arith, (λ d m. elim m [ ]), inl refl)
  least_some (d ∷ cs) a =
      by_cases (Bool-cases (conns d).healthy)
        (Bool-cases (ltb (load_of (conns d)) (load_of (conns a)))) (least_some cs d)
        (least_some cs a)
    where
      by_cases :
          ((conns d).healthy ≡ true) ⊎ ((conns d).healthy ≡ false)
          → (ltb (load_of (conns d)) (load_of (conns a)) ≡ true)
            ⊎ (ltb (load_of (conns d)) (load_of (conns a)) ≡ false)
          → Picks cs d
          → Picks cs a
          → Picks (d ∷ cs) a
      by_cases (inl h) (inl less) (c, e, below, light, inl same) other = (
        c,
        ground arith,
        ground arith,
        lighter d c cs below light,
        inr (inl (same, ap (λ (x : ℕ). (conns x).healthy) (sym same) ∙ h)),
      )
      by_cases (inl h) (inl less) (c, e, below, light, inr m) other =
          (c, ground arith, ground arith, lighter d c cs below light, inr (inr m))
      by_cases (inl h) (inr more) other (c, e, below, light, from) = (
        c,
        ground arith,
        below,
        lighter d c cs (ground arith) light,
        elim from [ inl same ↦ inl same | inr m ↦ inr (inr m) ],
      )
      by_cases (inr h) less other (c, e, below, light, from) = (
        c,
        ground arith,
        below,
        unhealthy light,
        elim from [ inl same ↦ inl same | inr m ↦ inr (inr m) ],
      )
        where
          unhealthy : Lightest conns cs c → Lightest conns (d ∷ cs) c
          unhealthy l e' (inl (same, h')) = cc (ap (λ (x : ℕ). (conns x).healthy) same)
          unhealthy l e' (inr m) = l e' m

  least-none :
      (cs : List ℕ)
      → ((least conns cs none ≡ none) × ((d : ℕ) → Candidate conns cs d → ⊥))
        ⊎ ((c : ℕ) × (least conns cs none ≡ some c) × Candidate conns cs c × Lightest conns cs c)
  unfolding least
  least-none [] = inl (refl, λ d m. m)
  least-none (d ∷ cs) = by_cases (Bool-cases (conns d).healthy) (least-none cs) (least_some cs d)
    where
      by_cases :
          ((conns d).healthy ≡ true) ⊎ ((conns d).healthy ≡ false)
          → ((least conns cs none ≡ none) × ((d : ℕ) → Candidate conns cs d → ⊥))
            ⊎ ((c : ℕ) × (least conns cs none ≡ some c)
                × Candidate conns cs c
                × Lightest conns cs c)
          → Picks cs d
          → ((least conns (d ∷ cs) none ≡ none) × ((e : ℕ) → Candidate conns (d ∷ cs) e → ⊥))
            ⊎ ((c : ℕ) × (least conns (d ∷ cs) none ≡ some c)
                × Candidate conns (d ∷ cs) c
                × Lightest conns (d ∷ cs) c)
      by_cases (inl h) rest (c, e, below, light, inl same) = inr (
        c,
        ground arith,
        inl (same, ap (λ (x : ℕ). (conns x).healthy) (sym same) ∙ h),
        lighter d c cs below light,
      )
      by_cases (inl h) rest (c, e, below, light, inr m) =
          inr (c, ground arith, inr m, lighter d c cs below light)
      by_cases (inr h) (inl (e, empty)) picked = inl (ground arith, unhealthy)
        where
          unhealthy : (e : ℕ) → Candidate conns (d ∷ cs) e → ⊥
          unhealthy e' (inl (same, h')) = cc (ap (λ (x : ℕ). (conns x).healthy) same)
          unhealthy e' (inr m) = empty e' m
      by_cases (inr h) (inr (c, e, m, light)) picked = inr (c, ground arith, inr m, unhealthy)
        where
          unhealthy : Lightest conns (d ∷ cs) c
          unhealthy e' (inl (same, h')) = cc (ap (λ (x : ℕ). (conns x).healthy) same)
          unhealthy e' (inr m') = light e' m'

-- The three ways a selection by load ends.
abbrev pub LeastOutcome : Pool → List ℕ → Result ℕ × ℕ → Type 0
LeastOutcome p clients r =
    ((clients ≡ []) × (r ≡ (err no_clients_available, p.balancer_counter)))
    ⊎ ((r ≡ (err no_healthy_clients, p.balancer_counter))
        × ((d : ℕ) → Candidate p.conns clients d → ⊥))
    ⊎ ((c : ℕ) × (r ≡ (ok c, p.balancer_counter))
        × Candidate p.conns clients c
        × Lightest p.conns clients c)

-- Without clients, or without a healthy one, the least-connections balancer says which of the two
-- it was; otherwise it chooses a healthy client of the list than which no healthy client of the
-- list has fewer pending and established connections. It never moves the round-robin counter.
pub least_connections_lem :
    (p : Pool) (clients : List ℕ) → LeastOutcome p clients (least_connections p clients)
unfolding least_connections
least_connections_lem p [] = inl (refl, refl)
least_connections_lem p (c ∷ cs) = elim (least-none p.conns (c ∷ cs)) [
  | inl (e, empty) ↦ inr (inl (ground arith, empty))
  | inr (d, e, m, light) ↦ inr (inr (d, ground arith, m, light))
]
