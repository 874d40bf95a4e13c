-- ===== src/MeshRegistry/Drops.antt =====
-- `removeLocked` and `finishArbitrationLocked` of mesh/registry.go only take generations away.
use qmux.Base.{
  ℕ, zero, suc, ◌≡◌, refl, sym, ap, subst, ◌⊎◌, ◌==◌, ==_iff, ◌∙◌, ◌+◌, ◌≤◌, Option, none, some,
  List, arith, length, if_cases, if_cases, inl, inr, true, Bool-cases,
}
use qmux.Base.Assoc.{
  nat_eq, str_Eq, lookup, erase, sum_by, sum_by-erase_le, sum_by-erase, lookup-erase_ne,
}
use qmux.MeshRegistry.State.{
  Registry, role_client, role_peer, Generation, Arbitration, signal, has_role, is_pending,
}
use qmux.MeshRegistry.Removal.{
  drop_found, remove_found, entry_of, unlink_active, remove_generation, find_inbound, forget,
  finish_with, finish_found, remove_on, remove, finish_arbitration,
}
use qmux.MeshRegistry.Shrinks.{
  counted_of, limits_of, Shrinks, drop_found-counted, unlink_active-counted,
}

-- What is left of a map after keys are deleted from it.
pub data Erased (m : List (ℕ × Generation)) : List (ℕ × Generation) → Type 0 where
  erased_nothing : Erased m m
  erased_then : {n : List (ℕ × Generation)} → Erased m n → (g : ℕ) → Erased m (erase g n)

Erased-trans : {m n o : List (ℕ × Generation)} → Erased m n → Erased n o → Erased m o
Erased-trans v erased_nothing = v
Erased-trans v (erased_then w g) = erased_then (Erased-trans v w) g

Erased-sum_by :
    (f : Generation → ℕ) {m n : List (ℕ × Generation)} → Erased m n → sum_by f n ≤ sum_by f m
Erased-sum_by f erased_nothing = omega arith
Erased-sum_by f (erased_then {n} v g) = omega (arith, sum_by-erase_le f g n, Erased-sum_by f v)

-- A generation is still there, or it counts no more.
pub Erased-lookup :
    (f : Generation → ℕ) (g : ℕ) (gen : Generation) {m n : List (ℕ × Generation)}
    → Erased m n
    → lookup g m ≡ some gen
    → (lookup g n ≡ some gen) ⊎ (f gen + sum_by f n ≤ sum_by f m)
Erased-lookup f g gen erased_nothing h = inl h
Erased-lookup f g gen (erased_then {n} v k) h = elim (Erased-lookup f g gen v h) [
  | inl there ↦ elim (Bool-cases (k == g)) [
    | inl same ↦ inr (
        omega (
          arith,
          sum_by-erase f g gen n there,
          ap (λ x. sum_by f (erase x n)) ((==_iff k g).0 same),
          Erased-sum_by f v,
        ))
    | inr other ↦ inl (lookup-erase_ne k g n other ∙ there)
  ]
  | inr gone ↦ inr (omega (arith, gone, sum_by-erase_le f k n))
]

-- Generations leave, and nothing else that counting reads changes.
pub record Drops (r q : Registry) : Type 0 where
  pub erased : Erased r.all q.all
  pub kept : limits_of q ≡ limits_of r

Drops-refl : (r : Registry) → Drops r r
Drops-refl r = record { erased = erased_nothing; kept = refl }

Drops-trans : {r q s : Registry} → Drops r q → Drops q s → Drops r s
Drops-trans v w = record { erased = Erased-trans v.erased w.erased; kept = w.kept ∙ v.kept }

counted-Drops : {r q : Registry} → counted_of q ≡ counted_of r → Drops r q
counted-Drops {r} e = record {
  erased = subst (Erased r.all) (sym (ap (λ c. c.0) e)) erased_nothing;
  kept = ap (λ c. c.1) e;
}

pub Drops-Shrinks : {r q : Registry} → Drops r q → Shrinks r q
Drops-Shrinks v = record {
  pending = Erased-sum_by is_pending v.erased;
  clients = Erased-sum_by (has_role role_client) v.erased;
  peers = Erased-sum_by (has_role role_peer) v.erased;
  limits = v.kept;
}

erase-Drops : (g : ℕ) (r : Registry) → Drops r (record r { all = erase g r.all })
erase-Drops g r = record { erased = erased_then erased_nothing g; kept = refl }

pub remove_generation-Drops :
    (g : ℕ) (gen : Generation) (r : Registry) → Drops r (remove_generation g gen r)
unfolding remove_generation
remove_generation-Drops g gen r =
    let r1 : Registry = unlink_active g gen r in
    Drops-trans
      (counted-Drops
        (drop_found-counted g gen (entry_of gen r1) r1 ∙ unlink_active-counted g gen r))
      (erase-Drops g (drop_found g gen (entry_of gen r1) r1))

finish_with-Drops :
    (again : ℕ → Registry → Registry) (a : Arbitration) (r : Registry)
    → ((g : ℕ) (q : Registry) → Drops q (again g q))
    → Drops r (finish_with again a r)
unfolding finish_with
finish_with-Drops again a r h = Drops-trans {r = r} {q = forget a r} (counted-Drops refl) (
    if_cases (λ q. Drops (forget a r) (signal q)) a.loser_released (again a.loser (forget a r))
      (forget a r) (λ p. Drops-trans (h a.loser (forget a r)) (counted-Drops refl))
      (λ p. counted-Drops refl))

finish_found-Drops :
    (again : ℕ → Registry → Registry) (o : Option Arbitration) (r : Registry)
    → ((g : ℕ) (q : Registry) → Drops q (again g q))
    → Drops r (finish_found again o r)
finish_found-Drops again none r h = Drops-refl r
finish_found-Drops again (some a) r h = finish_with-Drops again a r h

remove_found-Drops :
    (again : ℕ → Registry → Registry) (g : ℕ) (o : Option Generation) (r : Registry)
    → ((g' : ℕ) (q : Registry) → Drops q (again g' q))
    → Drops r (remove_found again g o r)
remove_found-Drops again g none r h = Drops-refl r
remove_found-Drops again g (some gen) r h =
    Drops-trans (finish_found-Drops again (find_inbound g r.arbitrations) r h)
      (remove_generation-Drops g gen (finish_found again (find_inbound g r.arbitrations) r))

remove_on-Drops : (fuel g : ℕ) (r : Registry) → Drops r (remove_on fuel g r)
unfolding remove_on
remove_on-Drops zero g r = Drops-refl r
remove_on-Drops (suc fuel) g r =
    remove_found-Drops (remove_on fuel) g (lookup g r.all) r (remove_on-Drops fuel)

pub remove-Drops : (g : ℕ) (r : Registry) → Drops r (remove g r)
unfolding remove
remove-Drops g r = remove_on-Drops (suc (length r.arbitrations)) g r

pub finish_arbitration-Drops : (a : Arbitration) (r : Registry) → Drops r (finish_arbitration a r)
unfolding finish_arbitration
finish_arbitration-Drops a r = finish_with-Drops remove a r remove-Drops

pub remove-Shrinks : (g : ℕ) (r : Registry) → Shrinks r (remove g r)
remove-Shrinks g r = Drops-Shrinks (remove-Drops g r)

pub finish_arbitration-Shrinks :
    (a : Arbitration) (r : Registry) → Shrinks r (finish_arbitration a r)
finish_arbitration-Shrinks a r = Drops-Shrinks (finish_arbitration-Drops a r)

remove_generation-all :
    (g : ℕ) (gen : Generation) (r : Registry) → (remove_generation g gen r).all ≡ erase g r.all
unfolding remove_generation
remove_generation-all g gen r =
    let r1 : Registry = unlink_active g gen r in
    ap (λ c. erase g c.0)
      (drop_found-counted g gen (entry_of gen r1) r1 ∙ unlink_active-counted g gen r)

erased_once :
    (f : Generation → ℕ) (g : ℕ) (gen : Generation) (r q : Registry)
    → Drops r q
    → lookup g r.all ≡ some gen
    → f gen + sum_by f (erase g q.all) ≤ sum_by f r.all
erased_once f g gen r q d h = elim (Erased-lookup f g gen d.erased h) [
  | inl there ↦ omega (arith, sum_by-erase f g gen q.all there, Erased-sum_by f d.erased)
  | inr gone ↦ omega (arith, gone, sum_by-erase_le f g q.all)
]

removed_once :
    (f : Generation → ℕ) (again : ℕ → Registry → Registry) (g : ℕ) (gen : Generation) (r : Registry)
    (o : Option Generation)
    → lookup g r.all ≡ some gen
    → o ≡ some gen
    → ((g' : ℕ) (q : Registry) → Drops q (again g' q))
    → f gen + sum_by f (remove_found again g o r).all ≤ sum_by f r.all
removed_once f again g gen r none h e d = cc
removed_once f again g gen r (some gen') h e d =
    let q : Registry = finish_found again (find_inbound g r.arbitrations) r in
    omega (
      arith,
      erased_once f g gen r q (finish_found-Drops again (find_inbound g r.arbitrations) r d) h,
      ap (λ m. sum_by f m) (remove_generation-all g gen' q),
    )

-- A registered generation that is removed counts no more.
pub remove-counts :
    (f : Generation → ℕ) (g : ℕ) (gen : Generation) (r : Registry)
    → lookup g r.all ≡ some gen
    → f gen + sum_by f (remove g r).all ≤ sum_by f r.all
unfolding remove remove_on
remove-counts f g gen r h =
    removed_once f (remove_on (length r.arbitrations)) g gen r (lookup g r.all) h h
      (remove_on-Drops (length r.arbitrations))

-- Neither does the loser of an arbitration, which it has released before.
pub finish_arbitration-counts :
    (f : Generation → ℕ) (a : Arbitration) (gen : Generation) (r : Registry)
    → a.loser_released ≡ true
    → lookup a.loser r.all ≡ some gen
    → f gen + sum_by f (finish_arbitration a r).all ≤ sum_by f r.all
unfolding finish_arbitration finish_with
finish_arbitration-counts f a gen r p h =
    if_cases (λ q. f gen + sum_by f (signal q).all ≤ sum_by f r.all) a.loser_released
      (remove a.loser (forget a r)) (forget a r) (λ e. remove-counts f a.loser gen (forget a r) h)
      (λ e. cc)
