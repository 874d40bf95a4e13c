-- ===== src/Manager/Exclusive.antt =====
-- Every operation of client/connection_manager.go keeps the registered connections the published ones.
use qmux.Base.{
  ℕ, zero, suc, ◌≡◌, ◌≢◌, refl, sym, ap, ◌∙◌, Bool, true, false, ◌⊎◌, Option, none, some, ◌==◌,
  ==_iff, get_elem?, arith, Bool-cases, inl, inr,
}
use qmux.Outbound.Endpoint.{Endpoint, Current, is, retire, take, retire_for_reconnect}
use qmux.Manager.State.{EndpointPhases, Manager}
use qmux.Manager.Generations.{at_endpoint, find_endpoint}
use qmux.Manager.Publication.{
  set_lifecycle, detach_if, retire_in, retire_at, retire_connection, detach_in, detach_at,
  detach_taken, take_in, take_from,
}
use qmux.Manager.Tallied.{is_at}
use qmux.Manager.Published.{IsPublishedBut, at_endpoint-IsPublished}
use qmux.Manager.Replaced.{at_conn-holds, detach-IsPublished}

module _ (k i : ℕ) (e : EndpointPhases) (m : Manager) (was : get_elem? m.endpoints k ≡ some e)
    (v : IsPublishedBut none m) where
  -- An endpoint that gives up its connection, but for those left out.
  given_up :
      (l : Endpoint) (y : Option ℕ)
      → ((j : ℕ) → is_at y j ≡ false → e.lifecycle.current ≡ some j → l.current ≡ some j)
      → IsPublishedBut y (at_endpoint (set_lifecycle l) (some k) m)
  given_up l y keeps =
      at_endpoint-IsPublished (set_lifecycle l) (some k) m none y (λ d. refl) (λ j h. refl)
        (λ q d j h at off old. keeps j off (here q d j h ((==_iff k q).0 at) old)) v
    where
      here :
          (q : ℕ) (d : EndpointPhases) (j : ℕ)
          → get_elem? m.endpoints q ≡ some d
          → k ≡ q
          → d.lifecycle.current ≡ some j
          → e.lifecycle.current ≡ some j
      here q d j h at old =
          let this : e ≡ d = cc in ap (λ (w : EndpointPhases). w.lifecycle.current) this ∙ old

  only : (j : ℕ) → is_at (some i) j ≡ false → some i ≢ some j
  only j off h = let same : i ≡ j = cc in clash (i == j) ((==_iff i j).1 same) off
    where
      clash : (b : Bool) → b ≡ true → b ≢ false
      clash b g h = cc

  given_up_if :
      (b : Bool) (l : Endpoint)
      → ((b ≡ true) × (e.lifecycle.current ≡ some i))
        ⊎ ((b ≡ false) × (l.current ≡ e.lifecycle.current))
      → IsPublishedBut none (detach_if b i (at_endpoint (set_lifecycle l) (some k) m))
  given_up_if true l side = elim side [
    | inl (_, now) ↦
        detach-IsPublished i (at_endpoint (set_lifecycle l) (some k) m)
          (given_up l (some i) (λ j off h. absurd (only j off (sym now ∙ h))))
    | inr (stays, _) ↦ cc
  ]
  given_up_if false l side = elim side [
    | inl (stays, _) ↦ cc
    | inr (_, same) ↦ given_up l none (λ j off h. same ∙ h)
  ]

retire_cases :
    (c : Current) (i : ℕ)
    → (((retire c (some i)).1 ≡ true) × (c ≡ some i))
      ⊎ (((retire c (some i)).1 ≡ false) × ((retire c (some i)).0 ≡ c))
unfolding retire is
retire_cases none i = inr (refl, refl)
retire_cases (some g) i = elim (Bool-cases (g == i)) [
  | inl same ↦ inl (ground arith, ap some ((==_iff g i).0 same))
  | inr other ↦ inr (ground arith, ground arith)
]

retire_for_reconnect-cases :
    (l : Endpoint) (i : ℕ) (stable : Bool)
    → (((retire_for_reconnect l (some i) stable).1 ≡ true) × (l.current ≡ some i))
      ⊎ (((retire_for_reconnect l (some i) stable).1 ≡ false)
          × ((retire_for_reconnect l (some i) stable).0.current ≡ l.current))
unfolding retire_for_reconnect
retire_for_reconnect-cases l i stable = elim (retire_cases l.current i) [
  | inl (leaves, now) ↦ inl (ground arith, now)
  | inr (stays, same) ↦ inr (ground arith, ground arith)
]

retire_at-IsPublished :
    (o : Option ℕ) (i : ℕ) (m : Manager)
    → IsPublishedBut none m
    → IsPublishedBut none (retire_at o i m)
retire_at-IsPublished none i m v = v
retire_at-IsPublished (some k) i m v = found (get_elem? m.endpoints k) refl
  where
    found :
        (o : Option EndpointPhases)
        → get_elem? m.endpoints k ≡ o
        → IsPublishedBut none (retire_in k i o m)
    found none h = v
    found (some e) h =
        given_up_if k i e m h v (retire e.lifecycle.current (some i)).1
          (record e.lifecycle { current = (retire e.lifecycle.current (some i)).0 })
          (retire_cases e.lifecycle.current i)

pub retire-IsPublished :
    (i : ℕ) (m : Manager) → IsPublishedBut none m → IsPublishedBut none (retire_connection i m)
unfolding retire_connection
retire-IsPublished i m v =
    at_conn-holds (IsPublishedBut none) (λ c. retire_at (find_endpoint c.server_addr m.endpoints) i)
      i m (λ c h. retire_at-IsPublished (find_endpoint c.server_addr m.endpoints) i m v) (λ h. v)

pub detach_at-IsPublished :
    (o : Option ℕ) (i : ℕ) (stable : Bool) (m : Manager)
    → IsPublishedBut none m
    → IsPublishedBut none (detach_at o i stable m)
detach_at-IsPublished none i stable m v = v
detach_at-IsPublished (some k) i stable m v = found (get_elem? m.endpoints k) refl
  where
    found :
        (o : Option EndpointPhases)
        → get_elem? m.endpoints k ≡ o
        → IsPublishedBut none (detach_in k i stable o m)
    found none h = v
    found (some e) h =
        given_up_if k i e m h v (retire_for_reconnect e.lifecycle (some i) stable).1
          (retire_for_reconnect e.lifecycle (some i) stable).0
          (retire_for_reconnect-cases e.lifecycle i stable)

take_in-IsPublished :
    (k : ℕ) (m : Manager)
    → IsPublishedBut none m
    → IsPublishedBut none (take_in k (get_elem? m.endpoints k) m)
unfolding take
take_in-IsPublished k m v = found (get_elem? m.endpoints k) refl
  where
    found :
        (o : Option EndpointPhases)
        → get_elem? m.endpoints k ≡ o
        → IsPublishedBut none (take_in k o m)
    found none h = v
    found (some e) h = taken e.lifecycle.current refl
      where
        l : Endpoint
        l = record e.lifecycle { current = none }

        taken :
            (o : Option ℕ)
            → e.lifecycle.current ≡ o
            → IsPublishedBut none (detach_taken o (at_endpoint (set_lifecycle l) (some k) m))
        taken none now = given_up k k e m h v l none (λ j off was. sym now ∙ was)
        taken (some i) now = detach-IsPublished i (at_endpoint (set_lifecycle l) (some k) m) (
            given_up k i e m h v l (some i)
              (λ j off was. absurd (only k i e m h v j off (sym now ∙ was))))

pub take_from-IsPublished :
    (k n : ℕ) (m : Manager) → IsPublishedBut none m → IsPublishedBut none (take_from k n m)
unfolding take_from
take_from-IsPublished k zero m v = v
take_from-IsPublished k (suc n) m v =
    take_from-IsPublished (suc k) n (take_in k (get_elem? m.endpoints k) m)
      (take_in-IsPublished k m v)
