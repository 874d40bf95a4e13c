-- ===== src/Pool/Tracked.antt =====
-- A generation that carries traffic is published or retiring: each operation keeps it so.
use qmux.Base.{
  ℕ, ◌≡◌, refl, ap, ◌+◌, Bool, true, ◌||◌, Option, none, some, List, arith, ◌==◌, get_elem?, set,
  Option-cases, inl, inr, if_cases, length, not, str_eq_sound,
}
use qmux.Base.Assoc.{
  nat_eq, str_Eq, lookup, Uniq, lookup-insert, lookup-erase, insert-Uniq, erase-Uniq,
}
use qmux.Pool.State.{Error, Conn, Pool, Reservation, is_current, is_some, points_to}
use qmux.Pool.Registration.{
  begin_pending, reserve, commit_error, publish, commit_object, commit, abort,
}
use qmux.Pool.Retirement.{
  signal_tcp_drained, finalize_retirement, retire_current, begin_retire, done, mark,
}
use qmux.Pool.Traffic.{begin_tcp_admission, record_stream}
use qmux.Pool.Registry.{IsRegistered}
use qmux.Pool.Registered.{commit_error-none}

abbrev pub load : Conn → ℕ
load conn = conn.tcp_pending + conn.tcp_active + conn.udp_sessions

-- The pool knows the generation: it is published under its name, or it retires.
abbrev pub is_known : Pool → ℕ → Bool
is_known p c = points_to (lookup (p.conns c).id p.clients) c || is_some (lookup c p.retiring)

pub record IsTracked (p : Pool) : Type 0 where
  pub known : (c : ℕ) → (load (p.conns c) == 0 || is_known p c) ≡ true
  pub retiring_uniq : Uniq p.retiring

pub begin_pending-IsTracked : (p : Pool) → IsTracked p → IsTracked (begin_pending p).0
unfolding begin_pending
begin_pending-IsTracked p v = record {
  known = λ c. ground (arith, v.known c);
  retiring_uniq = ground (arith, v.retiring_uniq);
}

pub signal-IsTracked :
    (p : Pool) (rt : Option ℕ) → IsTracked p → IsTracked (signal_tcp_drained p rt)
unfolding signal_tcp_drained
signal-IsTracked p rt v = record {
  known = λ c. ground (arith, v.known c);
  retiring_uniq = ground (arith, v.retiring_uniq);
}

pub finalize-IsTracked : (p : Pool) (c : ℕ) → IsTracked p → IsTracked (finalize_retirement p c)
unfolding finalize_retirement
finalize-IsTracked p c v = record {
  known = λ d. ground (arith, v.known d, lookup-erase c d p.retiring v.retiring_uniq);
  retiring_uniq = ground (arith, v.retiring_uniq, erase-Uniq c p.retiring v.retiring_uniq);
}

pub reserve-IsTracked :
    (p : Pool) (r : ℕ) (conn : Option ℕ) → IsTracked p → IsTracked (reserve p r conn).0
unfolding reserve
reserve-IsTracked p r conn v = record {
  known = λ c. ground (arith, v.known c);
  retiring_uniq = ground (arith, v.retiring_uniq);
}

pub abort-IsTracked : (p : Pool) (r : ℕ) → IsTracked p → IsTracked (abort p r).0
unfolding abort
abort-IsTracked p r v = record {
  known = λ c. ground (arith, v.known c);
  retiring_uniq = ground (arith, v.retiring_uniq);
}

pub mark-IsTracked : (h : Bool) (p : Pool) (c : Option ℕ) → IsTracked p → IsTracked (mark h p c).0
unfolding mark
mark-IsTracked h p conn v = record {
  known = λ c. ground (arith, v.known c);
  retiring_uniq = ground (arith, v.retiring_uniq);
}

pub begin_tcp_admission-IsTracked : (p : Pool) → IsTracked p → IsTracked (begin_tcp_admission p).0
unfolding begin_tcp_admission
begin_tcp_admission-IsTracked p v = record {
  known = λ c. ground (arith, v.known c);
  retiring_uniq = ground (arith, v.retiring_uniq);
}

pub record_stream-IsTracked : (p : Pool) (l s : ℕ) → IsTracked p → IsTracked (record_stream p l s)
unfolding record_stream
record_stream-IsTracked p l s v = record {
  known = λ c. ground (arith, v.known c);
  retiring_uniq = ground (arith, v.retiring_uniq);
}

pub done-IsTracked : (p : Pool) (rt : ℕ) → IsTracked p → IsTracked (done p rt).0
unfolding done
done-IsTracked p rt v = elim (Option-cases (get_elem? p.retirement_objects rt)) [
  | inl e ↦ rw (e, done) v
  | inr (object, e) ↦
      let q : Pool = record p {
        retirement_objects = set p.retirement_objects rt (record object { done = true });
      } in
      rw (e, done)
        (if_cases {A = Pool × Bool} (λ x. IsTracked x.0)
          (object.done || not (points_to (lookup object.conn p.retiring) rt)) _ _ (λ _. v)
          (λ _.
            finalize-IsTracked q object.conn
              (record { known = v.known; retiring_uniq = v.retiring_uniq })))
]

publish-IsTracked :
    (p : Pool) (r : ℕ) (o : Reservation) (c : ℕ)
    → lookup o.id p.clients ≡ none
    → IsTracked p
    → IsTracked (publish p r o c)
unfolding publish
publish-IsTracked p r o c free v = record {
  known = λ d. ground (
    arith,
    v.known d,
    lookup-insert o.id (p.conns d).id c p.clients,
    str_eq_sound o.id (p.conns d).id,
    ap (λ (s : List ℕ). lookup s p.clients) {x = o.id} {y = (p.conns d).id},
  );
  retiring_uniq = v.retiring_uniq;
}

pub commit-IsTracked : (p : Pool) (r : ℕ) → IsTracked p → IsTracked (commit p r).0
unfolding commit commit_object
commit-IsTracked p r v = elim (Option-cases (get_elem? p.reservation_objects r)) [
  | inl e ↦ rw (e, commit) v
  | inr (o, e) ↦ rw (e, commit) (object_commit o (commit_error p r o) o.conn refl refl)
]
  where
    object_commit :
        (o : Reservation) (error : Option Error) (conn : Option ℕ)
        → commit_error p r o ≡ error
        → o.conn ≡ conn
        → IsTracked (commit_object p r o).0
    object_commit o (some x) conn is_x is_conn = rw (is_x, commit_object) v
    object_commit o none none is_x is_conn = rw (is_x, is_conn, commit_object) v
    object_commit o none (some c) is_x is_conn =
        rw (is_x, is_conn, commit_object)
          (publish-IsTracked p r o c (commit_error-none p r o c is_conn is_x).3 v)

retire-IsTracked :
    (p : Pool) (c : ℕ)
    → is_current p c ≡ true
    → IsRegistered p
    → IsTracked p
    → IsTracked (retire_current p c)
unfolding retire_current
retire-IsTracked p c current g v = record {
  known = λ d. ground (
    arith,
    v.known d,
    lookup-erase (p.conns c).id (p.conns d).id p.clients g.clients_uniq,
    lookup-insert c d (length p.retirement_objects) p.retiring,
    str_eq_sound (p.conns c).id (p.conns d).id,
    ap (λ (s : List ℕ). lookup s p.clients) {x = (p.conns c).id} {y = (p.conns d).id},
  );
  retiring_uniq = insert-Uniq c (length p.retirement_objects) p.retiring v.retiring_uniq;
}

pub begin_retire-IsTracked :
    (p : Pool) (c : Option ℕ) → IsRegistered p → IsTracked p → IsTracked (begin_retire p c).0
unfolding begin_retire
begin_retire-IsTracked p none g v = v
begin_retire-IsTracked p (some c) g v =
    if_cases {A = Pool × Option ℕ} (λ x. IsTracked x.0) (is_current p c) _ _
      (λ current. signal-IsTracked (retire_current p c) _ (retire-IsTracked p c current g v))
      (λ _. v)
