-- ===== src/Pool/Admission.antt =====
-- What `TCPAdmission.Next` grants, and when it grants nothing.
use mathlib.Core.Path.{subst}
use qmux.Base.{
  ℕ, ◌≡◌, ◌≢◌, refl, ◌+◌, ◌<◌, Bool, true, false, not, Option, none, some, List, [], ◌∷◌, arith,
  ◌==◌, length, get_elem?, get_elem?-append, inl, inr, ◌⊎◌, if_cases, drop,
}
use qmux.Base.Assoc.{nat_eq, str_Eq}
use qmux.Pool.State.{
  Error, Result, ok, err, LeaseState, Pool, is_eligible, is_current, tcp, tcp_capacity_error,
}
use qmux.Pool.Balancer.{Select}
use qmux.Pool.Traffic.{
  TcpAdmission, Verdict, skip, connection_full, setup_full, take, verdict, take_setup, walk,
  balance, next_from, next,
}
use qmux.Pool.Accounting.{verdict-take, balance-counter}

-- The generation may carry one more setup: it is published, healthy and capable of TCP, and under
-- both limits.
abbrev pub HasRoom : Pool → ℕ → Type 0
HasRoom p c =
    (is_current p c ≡ true)
    × (is_eligible (p.conns c) tcp ≡ true)
    × ((p.conns c).tcp_pending + (p.conns c).tcp_active
        < p.limits.max_tcp_connections_per_generation)
    × ((p.conns c).tcp_pending < p.limits.max_pending_tcp_setups_per_generation)

-- The new lease `l` of the pool `q` holds the generation `c`, one setup of which is counted.
abbrev pub Grants : Pool → Pool → ℕ → Type 0
Grants p q l =
    (c : ℕ) × HasRoom p c
    × (l ≡ length p.leases)
    × (get_elem? q.leases l ≡ some (record { conn = c; state = LeaseState.pending }))
    × ((q.conns c).tcp_pending ≡ (p.conns c).tcp_pending + 1)

verdict_room : (p : Pool) (c : ℕ) → verdict p c ≡ take → HasRoom p c
unfolding tcp_capacity_error
verdict_room p c e = ground (arith, verdict-take p c e)

room_verdict : (p : Pool) (c : ℕ) → HasRoom p c → verdict p c ≡ take
unfolding tcp_capacity_error verdict
room_verdict p c (current, eligible, below, setups) = ground arith

take_setup-Grants :
    (p : Pool) (c : ℕ) → verdict p c ≡ take → Grants p (take_setup p c) (length p.leases)
unfolding take_setup
take_setup-Grants p c e = (
  c,
  verdict_room p c e,
  refl,
  ground (
    arith,
    get_elem?-append p.leases (record { conn = c; state = LeaseState.pending }) (length p.leases),
  ),
  ground arith,
)

abbrev pub result_of : Pool × ℕ × Result (Option ℕ) → Result (Option ℕ)
result_of (q, n, r) = r

abbrev pub Member : List ℕ → ℕ → Type 0
Member [] c = ⊥
Member (d ∷ ds) c = (d ≡ c) ⊎ Member ds c

-- A walk grants a lease on a generation with room, or no candidate of it has room.
abbrev WalkOutcome : Pool → List ℕ → Pool × ℕ × Result (Option ℕ) → Type 0
WalkOutcome p cs w =
    ((l : ℕ) × (result_of w ≡ ok (some l)) × Grants p w.0 l)
    ⊎ (((c : ℕ) → Member cs c → verdict p c ≢ take)
        × ((result_of w ≡ ok none) ⊎ ((e : Error) × (result_of w ≡ err e))))

walk_lem :
    (p : Pool) (cs : List ℕ) (n : ℕ) (at_connection at_setup : Bool)
    → WalkOutcome p cs (walk p cs n at_connection at_setup)
unfolding walk
walk_lem p [] n true at_setup = inr ((λ c m. elim m [ ]), inr (_, refl))
walk_lem p [] n false true = inr ((λ c m. elim m [ ]), inr (_, refl))
walk_lem p [] n false false = inr ((λ c m. elim m [ ]), inl refl)
walk_lem p (c ∷ cs) n at_connection at_setup =
    by_verdict (verdict p c) refl (λ x y. walk_lem p cs (n + 1) x y)
  where
    later :
        (w : Pool × ℕ × Result (Option ℕ))
        → verdict p c ≢ take
        → WalkOutcome p cs w
        → WalkOutcome p (c ∷ cs) w
    later w full (inl grant) = inl grant
    later w full (inr (none_left, out)) = inr (
      (λ d m. elim m [
        | inl same ↦ subst (λ (x : ℕ). verdict p x ≢ take) same full
        | inr m' ↦ none_left d m'
      ]),
      out,
    )

    by_verdict :
        (v : Verdict)
        → verdict p c ≡ v
        → ((x y : Bool) → WalkOutcome p cs (walk p cs (n + 1) x y))
        → WalkOutcome p (c ∷ cs) (walk p (c ∷ cs) n at_connection at_setup)
    by_verdict take e rest = rw (e, walk) (inl (length p.leases, refl, take_setup-Grants p c e))
    by_verdict skip e rest =
        rw (e, walk)
          (later (walk p cs (n + 1) at_connection at_setup) (λ t. cc) (rest at_connection at_setup))
    by_verdict connection_full e rest =
        rw (e, walk) (later (walk p cs (n + 1) true at_setup) (λ t. cc) (rest true at_setup))
    by_verdict setup_full e rest =
        rw (e, walk)
          (later (walk p cs (n + 1) at_connection true) (λ t. cc) (rest at_connection true))

abbrev pub candidates_left : TcpAdmission → List ℕ
candidates_left a = drop a.next a.candidates

abbrev pub answer_of : Pool × TcpAdmission × Result (Option ℕ) → Result (Option ℕ)
answer_of (q, a, r) = r

-- The four ways `Next` ends; `b` is the admission after its balancing.
abbrev pub NextOutcome : Pool → TcpAdmission → Pool × TcpAdmission × Result (Option ℕ) → Type 0
NextOutcome p b r =
    ((l : ℕ) × (answer_of r ≡ ok (some l)) × Grants p r.0 l)
    ⊎ ((p.accounting_faults ≢ 0) × (answer_of r ≡ err Error.accounting_fault) × (r.0 ≡ p))
    ⊎ ((e : Error) × (b.balance_err ≡ some e) × (answer_of r ≡ err e))
    ⊎ (((c : ℕ) → Member (candidates_left b) c → HasRoom p c → ⊥)
        × ((answer_of r ≡ ok none) ⊎ ((e : Error) × (answer_of r ≡ err e))))

next_of_walk :
    (p : Pool) (n : ℕ) (b : TcpAdmission) (w : Pool × ℕ × Result (Option ℕ))
    → WalkOutcome (record p { balancer_counter = n }) (candidates_left b) w
    → NextOutcome p b (w.0, record b { next = w.1 }, result_of w)
next_of_walk p n b w (inl (l, e, grant)) = inl (l, e, grant)
next_of_walk p n b w (inr (none_left, out)) = inr (
    inr (
      inr (
        (λ c m room. none_left c m (room_verdict (record p { balancer_counter = n }) c room)),
        out,
      )))

-- `Next` either grants a fresh lease on a generation that is published, healthy, capable of TCP and
-- under both of its limits, and counts its setup; or the pool has an accounting fault and stays as
-- it is; or the balancer failed; or none of the candidates left in the admission has room.
pub next_outcome :
    (select : Select) (p : Pool) (a : TcpAdmission)
    → NextOutcome p (balance select p a).1 (next select p a)
unfolding next
next_outcome select p a =
    if_cases {A = Pool × TcpAdmission × Result (Option ℕ)} (NextOutcome p b.1)
      (not (p.accounting_faults == 0)) _ _ (λ faulty. inr (inl (ground arith, refl, refl)))
      (λ _. balanced b.1.balance_err refl)
  where
    b : Pool × TcpAdmission
    b = balance select p a

    walked : Pool × ℕ × Result (Option ℕ)
    walked = walk b.0 (candidates_left b.1) b.1.next false false

    balanced : (e : Option Error) → b.1.balance_err ≡ e → NextOutcome p b.1 (next_from b.0 b.1 e)
    balanced (some e) was = inr (inr (inl (e, was, refl)))
    balanced none was =
        let (n, same) = balance-counter select p a in
        next_of_walk p n b.1 walked (
          subst (λ (x : Pool). WalkOutcome x (candidates_left b.1) walked) same
            (walk_lem b.0 (candidates_left b.1) b.1.next false false))
