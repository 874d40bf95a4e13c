-- ===== src/Admission/Leases.antt =====
-- The counters of a source against its leases, over every sequence of calls.
use qmux.Base.{
  ℕ, suc, zero, ◌≡◌, refl, sym, ap, ◌∙◌, ◌+◌, ◌-◌, ◌≤◌, ◌<◌, Bool, true, false, not, Option, none,
  some, List, [], ◌∷◌, ◌++◌, ltb, leb, ◌==◌, if◌then◌else◌, length, get_elem?, get_elem?-set, set,
  count_by, count_by-append, count_by-set, arith, Option-cases, inl, inr, ◌⊎◌,
}
use qmux.Admission.{
  TcpSource, err, source_closed, new_tcp_source, close, begin_flow, release_flow,
  begin_setup_locked, begin_setup, claim, live, release_setup, settle, begin_request,
  release_request,
}

-- The calls on a source. The number counts the setups that were claimed and not settled yet; a
-- caller settles what it claimed, once.
pub data Calls : TcpSource → ℕ → TcpSource → ℕ → Type 0 where
  start : {s : TcpSource} {k : ℕ} → Calls s k s k
  closes : {s t : TcpSource} {k n : ℕ} → Calls s k t n → Calls s k (close t) n
  begins_flow : {s t : TcpSource} {k n : ℕ} → Calls s k t n → Calls s k (begin_flow t).0 n
  releases_flow :
      {s t : TcpSource} {k n : ℕ} (f : ℕ) → Calls s k t n → Calls s k (release_flow t f).0 n
  begins_setup :
      {s t : TcpSource} {k n : ℕ} (f : ℕ) → Calls s k t n → Calls s k (begin_setup t f).0 n
  claims :
      {s t : TcpSource} {k n : ℕ} (l : ℕ)
      → Calls s k t n
      → (claim t l).1 ≡ true
      → Calls s k (claim t l).0 (suc n)
  misses :
      {s t : TcpSource} {k n : ℕ} (l : ℕ)
      → Calls s k t n
      → (claim t l).1 ≡ false
      → Calls s k (claim t l).0 n
  settles : {s t : TcpSource} {k n : ℕ} → Calls s k t (suc n) → Calls s k (settle t) n
  releases_setup :
      {s t : TcpSource} {k n : ℕ} (l : ℕ) → Calls s k t n → Calls s k (release_setup t l).0 n
  begins_request :
      {s t : TcpSource} {k n : ℕ} (f : ℕ) → Calls s k t n → Calls s k (begin_request t f).0 n
  releases_request :
      {s t : TcpSource} {k n : ℕ} (l : ℕ) → Calls s k t n → Calls s k (release_request t l).0 n

pub record IsLeased (s : TcpSource) (claimed : ℕ) : Type 0 where
  pub flows_exact : s.flows ≡ count_by not s.flow_leases
  pub setups_exact : s.setups ≡ count_by not s.setup_leases + claimed
  pub requests_exact : s.requests ≡ count_by not s.request_leases
  pub flows_bounded : (s.flows ≤ s.flow_high) × (s.flow_high ≤ s.max_tcp_connections)
  pub setups_bounded : (s.setups ≤ s.setup_high) × (s.setup_high ≤ s.max_pending_tcp_setups)
  pub requests_bounded : (s.requests ≤ s.request_high) × (s.request_high ≤ s.request_limit)

begin_flow-IsLeased : (s : TcpSource) (k : ℕ) → IsLeased s k → IsLeased (begin_flow s).0 k
unfolding begin_flow
begin_flow-IsLeased s k v = record {
  flows_exact = ground (arith, v, count_by-append not s.flow_leases false);
  setups_exact = ground (arith, v);
  requests_exact = ground (arith, v);
  flows_bounded = ground (arith, v);
  setups_bounded = ground (arith, v);
  requests_bounded = ground (arith, v);
}

close-IsLeased : (s : TcpSource) (k : ℕ) → IsLeased s k → IsLeased (close s) k
unfolding close
close-IsLeased s k v = record {
  flows_exact = ground (arith, v);
  setups_exact = ground (arith, v);
  requests_exact = ground (arith, v);
  flows_bounded = ground (arith, v);
  setups_bounded = ground (arith, v);
  requests_bounded = ground (arith, v);
}

release_flow-IsLeased :
    (s : TcpSource) (k : ℕ) (f : ℕ) → IsLeased s k → IsLeased (release_flow s f).0 k
unfolding release_flow
release_flow-IsLeased s k f v = record {
  flows_exact = ground (arith, v, count_by-set not s.flow_leases f false true);
  setups_exact = ground (arith, v, count_by-set not s.flow_leases f false true);
  requests_exact = ground (arith, v, count_by-set not s.flow_leases f false true);
  flows_bounded = ground (arith, v);
  setups_bounded = ground (arith, v);
  requests_bounded = ground (arith, v);
}

begin_setup-IsLeased :
    (s : TcpSource) (k : ℕ) (f : ℕ) → IsLeased s k → IsLeased (begin_setup s f).0 k
unfolding begin_setup begin_setup_locked
begin_setup-IsLeased s k f v = record {
  flows_exact = ground (arith, v, count_by-append not s.setup_leases false);
  setups_exact = ground (arith, v, count_by-append not s.setup_leases false);
  requests_exact = ground (arith, v, count_by-append not s.setup_leases false);
  flows_bounded = ground (arith, v);
  setups_bounded = ground (arith, v);
  requests_bounded = ground (arith, v);
}

claim_won-IsLeased :
    (s : TcpSource) (k : ℕ) (l : ℕ)
    → (claim s l).1 ≡ true
    → IsLeased s k
    → IsLeased (claim s l).0 (suc k)
unfolding claim
claim_won-IsLeased s k l won v = record {
  flows_exact = ground (arith, v, count_by-set not s.setup_leases l false true);
  setups_exact = ground (arith, v, count_by-set not s.setup_leases l false true);
  requests_exact = ground (arith, v, count_by-set not s.setup_leases l false true);
  flows_bounded = ground (arith, v);
  setups_bounded = ground (arith, v);
  requests_bounded = ground (arith, v);
}

claim_lost-IsLeased :
    (s : TcpSource) (k : ℕ) (l : ℕ)
    → (claim s l).1 ≡ false
    → IsLeased s k
    → IsLeased (claim s l).0 k
unfolding claim
claim_lost-IsLeased s k l won v = record {
  flows_exact = ground (arith, v);
  setups_exact = ground (arith, v);
  requests_exact = ground (arith, v);
  flows_bounded = ground (arith, v);
  setups_bounded = ground (arith, v);
  requests_bounded = ground (arith, v);
}

release_setup-IsLeased :
    (s : TcpSource) (k : ℕ) (l : ℕ) → IsLeased s k → IsLeased (release_setup s l).0 k
unfolding release_setup
release_setup-IsLeased s k l v = record {
  flows_exact = ground (arith, v, count_by-set not s.setup_leases l false true);
  setups_exact = ground (arith, v, count_by-set not s.setup_leases l false true);
  requests_exact = ground (arith, v, count_by-set not s.setup_leases l false true);
  flows_bounded = ground (arith, v);
  setups_bounded = ground (arith, v);
  requests_bounded = ground (arith, v);
}

begin_request-IsLeased :
    (s : TcpSource) (k : ℕ) (f : ℕ) → IsLeased s k → IsLeased (begin_request s f).0 k
unfolding begin_request
begin_request-IsLeased s k f v = record {
  flows_exact = ground (arith, v, count_by-append not s.request_leases false);
  setups_exact = ground (arith, v, count_by-append not s.request_leases false);
  requests_exact = ground (arith, v, count_by-append not s.request_leases false);
  flows_bounded = ground (arith, v);
  setups_bounded = ground (arith, v);
  requests_bounded = ground (arith, v);
}

release_request-IsLeased :
    (s : TcpSource) (k : ℕ) (l : ℕ) → IsLeased s k → IsLeased (release_request s l).0 k
unfolding release_request
release_request-IsLeased s k l v = record {
  flows_exact = ground (arith, v, count_by-set not s.request_leases l false true);
  setups_exact = ground (arith, v, count_by-set not s.request_leases l false true);
  requests_exact = ground (arith, v, count_by-set not s.request_leases l false true);
  flows_bounded = ground (arith, v);
  setups_bounded = ground (arith, v);
  requests_bounded = ground (arith, v);
}

settle-IsLeased : (s : TcpSource) (k : ℕ) → IsLeased s (suc k) → IsLeased (settle s) k
unfolding settle
settle-IsLeased s k v = record {
  flows_exact = v.flows_exact;
  setups_exact = ground (arith, v);
  requests_exact = v.requests_exact;
  flows_bounded = v.flows_bounded;
  setups_bounded = ground (arith, v);
  requests_bounded = v.requests_bounded;
}

calls_from-IsLeased : {s t : TcpSource} {k n : ℕ} → Calls s k t n → IsLeased s k → IsLeased t n
calls_from-IsLeased start v = v
calls_from-IsLeased (closes {t = t} {n = n} c) v = close-IsLeased t n (calls_from-IsLeased c v)
calls_from-IsLeased (begins_flow {t = t} {n = n} c) v =
    begin_flow-IsLeased t n (calls_from-IsLeased c v)
calls_from-IsLeased (releases_flow {t = t} {n = n} f c) v =
    release_flow-IsLeased t n f (calls_from-IsLeased c v)
calls_from-IsLeased (begins_setup {t = t} {n = n} f c) v =
    begin_setup-IsLeased t n f (calls_from-IsLeased c v)
calls_from-IsLeased (claims {t = t} {n = n} l c won) v =
    claim_won-IsLeased t n l won (calls_from-IsLeased c v)
calls_from-IsLeased (misses {t = t} {n = n} l c lost) v =
    claim_lost-IsLeased t n l lost (calls_from-IsLeased c v)
calls_from-IsLeased (settles {t = t} {n = n} c) v = settle-IsLeased t n (calls_from-IsLeased c v)
calls_from-IsLeased (releases_setup {t = t} {n = n} l c) v =
    release_setup-IsLeased t n l (calls_from-IsLeased c v)
calls_from-IsLeased (begins_request {t = t} {n = n} f c) v =
    begin_request-IsLeased t n f (calls_from-IsLeased c v)
calls_from-IsLeased (releases_request {t = t} {n = n} l c) v =
    release_request-IsLeased t n l (calls_from-IsLeased c v)

-- Whatever calls reach a source, callers settling each claim once: its flows and requests are
-- exactly the leases not released, its setups these and the claims not settled, so that no release
-- or settlement takes a counter below 0, and no counter or its high-water mark passes its limit.
pub calls-IsLeased :
    (max_connections max_setups request_limit : ℕ) (t : TcpSource) (n : ℕ)
    → Calls (new_tcp_source max_connections max_setups request_limit) 0 t n
    → IsLeased t n
unfolding new_tcp_source qmux.Base.Lists.count_by
calls-IsLeased max_connections max_setups request_limit t n c = calls_from-IsLeased c (record {
  flows_exact = refl;
  setups_exact = refl;
  requests_exact = refl;
  flows_bounded = (omega arith, omega arith);
  setups_bounded = (omega arith, omega arith);
  requests_bounded = (omega arith, omega arith);
})

-- Of a claim and a release of one setup lease, whichever comes first wins exactly if the lease is
-- live, and any later attempt changes nothing.
pub claim-release_once :
    (s : TcpSource) (l : ℕ)
    → ((claim s l).1 ≡ live s l)
      × ((release_setup s l).1 ≡ live s l)
      × (release_setup (claim s l).0 l ≡ ((claim s l).0, false))
      × (claim (release_setup s l).0 l ≡ ((release_setup s l).0, false))
      × (claim (claim s l).0 l ≡ ((claim s l).0, false))
      × (release_setup (release_setup s l).0 l ≡ ((release_setup s l).0, false))
unfolding claim release_setup live
claim-release_once s l = elim (Option-cases (get_elem? s.setup_leases l)) [
  | inl e ↦ (ground arith, ground arith, ground arith, ground arith, ground arith, ground arith)
  | inr (released, e) ↦
      let after : get_elem? (set s.setup_leases l true) l ≡ some true =
        ground (arith, get_elem?-set s.setup_leases l l released true e) in
      (ground arith, ground arith, ground arith, ground arith, ground arith, ground arith)
]

-- A closed source grants no flow, setup or request and stays as it is, and still takes the release
-- of a flow as before.
pub close_grants :
    (s : TcpSource) (f : ℕ)
    → (begin_flow (close s) ≡ (close s, err source_closed))
      × (((begin_setup (close s) f).0 ≡ close s) × ((begin_request (close s) f).0 ≡ close s))
      × ((release_flow (close s) f).1 ≡ (release_flow s f).1)
unfolding close begin_flow begin_setup begin_request release_flow
close_grants s f = (ground arith, (ground arith, ground arith), ground arith)
