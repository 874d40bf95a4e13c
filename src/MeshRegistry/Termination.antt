-- ===== src/MeshRegistry/Termination.antt =====
-- The fuel of `removeLocked` of mesh/registry.go: every arbitration that a removal finishes on its way
-- is forgotten, so the number of arbitrations is enough.
use qmux.Base.{
  ℕ, zero, suc, ◌≡◌, refl, ap, ◌≤◌, false, Option, none, some, List, [], ◌∷◌, length, if◌then◌else◌,
  if_cases, arith, Bool-cases, inl, inr,
}
use qmux.Base.Tests.{str_eq, str_eq_refl}
use qmux.Base.Assoc.{nat_eq, str_Eq, lookup, erase}
use qmux.MeshRegistry.State.{Name, Registry, Generation, Arbitration, signal}
use qmux.MeshRegistry.Removal.{
  find_inbound, forget, finish_with, finish_found, remove_generation, remove_found, remove_on,
  remove,
}

-- Every arbitration stands under its peer.
abbrev pub IsKeyed : List (Name × Arbitration) → Type 0
IsKeyed [] = Unit
IsKeyed ((k, a) ∷ m) = (a.arbitration_peer ≡ k) × IsKeyed m

erase-IsKeyed : (k : Name) (m : List (Name × Arbitration)) → IsKeyed m → IsKeyed (erase k m)
unfolding erase
erase-IsKeyed k [] v = tt
erase-IsKeyed k ((j, a) ∷ m) v =
    if_cases IsKeyed (str_eq j k) m ((j, a) ∷ erase k m) (λ e. v.1)
      (λ e. (v.0, erase-IsKeyed k m v.1))

found_shrinks :
    (g : ℕ) (a : Arbitration) (m : List (Name × Arbitration))
    → IsKeyed m
    → find_inbound g m ≡ some a
    → suc (length (erase a.arbitration_peer m)) ≤ length m
unfolding find_inbound erase
found_shrinks g a [] v h = cc
found_shrinks g a ((k, b) ∷ m) v h = elim (Bool-cases (str_eq k a.arbitration_peer)) [
  | inl hit ↦ rw hit (omega arith)
  | inr miss ↦ rw miss (omega (arith, found_shrinks g a m v.1 (found_later miss)))
]
  where
    -- The first entry is not the one found: it would stand under the peer of `a`.
    found_later : str_eq k a.arbitration_peer ≡ false → find_inbound g m ≡ some a
    found_later miss = ground (arith, str_eq_refl k, ap (str_eq k) v.0)

enough_found :
    (n m : ℕ) (o : Option Arbitration) (r : Registry)
    → ((a : Arbitration)
        → o ≡ some a
        → remove_on n a.loser (forget a r) ≡ remove_on m a.loser (forget a r))
    → finish_found (remove_on n) o r ≡ finish_found (remove_on m) o r
unfolding finish_with
enough_found n m none r h = refl
enough_found n m (some a) r h =
    ap (λ q. signal (if a.loser_released then q else forget a r)) (h a refl)

enough_removed :
    (n m g : ℕ) (o : Option Generation) (r : Registry)
    → finish_found (remove_on n) (find_inbound g r.arbitrations) r
      ≡ finish_found (remove_on m) (find_inbound g r.arbitrations) r
    → remove_found (remove_on n) g o r ≡ remove_found (remove_on m) g o r
enough_removed n m g none r h = refl
enough_removed n m g (some gen) r h = ap (remove_generation g gen) h

enough :
    (n m g : ℕ) (r : Registry)
    → IsKeyed r.arbitrations
    → length r.arbitrations ≤ n
    → length r.arbitrations ≤ m
    → remove_on (suc n) g r ≡ remove_on (suc m) g r
unfolding remove_on
enough zero m g r v h k = enough_removed zero m g (lookup g r.all) r (
    enough_found zero m (find_inbound g r.arbitrations) r
      (λ a e. absurd (omega (arith, found_shrinks g a r.arbitrations v e, h))))
enough (suc n) zero g r v h k = enough_removed (suc n) zero g (lookup g r.all) r (
    enough_found (suc n) zero (find_inbound g r.arbitrations) r
      (λ a e. absurd (omega (arith, found_shrinks g a r.arbitrations v e, k))))
enough (suc n) (suc m) g r v h k = enough_removed (suc n) (suc m) g (lookup g r.all) r (
    enough_found (suc n) (suc m) (find_inbound g r.arbitrations) r (λ a e.
      let small = found_shrinks g a r.arbitrations v e in
      enough n m a.loser (forget a r) (erase-IsKeyed a.arbitration_peer r.arbitrations v)
        (omega (arith, small)) (omega (arith, small))))

-- `removeLocked` terminates: with its arbitrations kept under their peers, fuel for as many nested
-- removals as there are arbitrations gives the result of any larger fuel.
pub remove_terminates :
    (g fuel : ℕ) (r : Registry)
    → IsKeyed r.arbitrations
    → length r.arbitrations ≤ fuel
    → remove_on (suc fuel) g r ≡ remove g r
unfolding remove
remove_terminates g fuel r v h = enough fuel (length r.arbitrations) g r v h (omega arith)
