-- ===== src/MeshRegistry/Vacating.antt =====
-- Retirement, release and removal in mesh/registry.go leave every place as it is or empty it.
use qmux.Base.{
  ℕ, zero, suc, ◌≡◌, refl, sym, ap, subst, ◌==◌, Bool, true, false, Option, none, some, List,
  length, if◌then◌else◌, if_cases,
}
use qmux.Base.Assoc.{nat_eq, str_Eq, lookup, erase}
use qmux.Outbound.Endpoint.{is, retire}
use qmux.MeshRegistry.State.{
  Name, Entry, Registry, Generation, Arbitration, entries, key_of, signal,
}
use qmux.MeshRegistry.Removal.{
  change_found, drop_found, remove_found, entry_of, unlink_entry, retiring_entry, cleared_entry,
  is_unused, unlink_active, add_retiring, remove_generation, find_inbound, forget, finish_with,
  finish_found, remove_on, remove, finish_arbitration,
}
use qmux.MeshRegistry.Slots.{
  vacant, holds_prepared, holds_current, slot_of, slot_found, slot_in, Falls, stays, empties,
  IsClear, Falls-trans, Falls-IsClear, IsTidy, IsOrderly, Table, Goes, insert-Table, erase-Table,
  with_entries-Goes, tables_of, entries-IsTidy, Table-IsTidy, Table-refl,
}

-- A step that vacates places at most.
unfoldable pub Vacates : Registry → Registry → Type 0
Vacates r q = IsOrderly r → Goes Falls r q

pub Vacates-IsOrderly : (r q : Registry) → Vacates r q → IsOrderly r → IsOrderly q
unfolding Vacates
Vacates-IsOrderly r q h v = record {
  tidy_clients = Table-IsTidy (λ s t. Falls-IsClear) (Goes.clients (h v)) v.tidy_clients;
  tidy_peers = Table-IsTidy (λ s t. Falls-IsClear) (Goes.peers (h v)) v.tidy_peers;
}

Table-trans : {m n o : List (Name × Entry)} → Table Falls m n → Table Falls n o → Table Falls m o
Table-trans s t = record { uniq = t.uniq; slots = λ k. Falls-trans (s.slots k) (t.slots k) }

pub Vacates-trans : (r q s : Registry) → Vacates r q → Vacates q s → Vacates r s
unfolding Vacates
Vacates-trans r q s f g v =
    let w : IsOrderly q = Vacates-IsOrderly r q f v in
    record {
      clients = Table-trans (Goes.clients (f v)) (Goes.clients (g w));
      peers = Table-trans (Goes.peers (f v)) (Goes.peers (g w));
    }

pub Vacates-refl : (r : Registry) → Vacates r r
unfolding Vacates
Vacates-refl r v = record {
  clients = Table-refl Falls stays r.clients v.tidy_clients;
  peers = Table-refl Falls stays r.peers v.tidy_peers;
}

pub tables-Vacates : (r q : Registry) → tables_of q ≡ tables_of r → Vacates r q
unfolding Vacates
tables-Vacates r q e v = record {
  clients =
      subst (Table Falls r.clients) (sym (ap (λ t. t.0) e))
        (Table-refl Falls stays r.clients v.tidy_clients);
  peers =
      subst (Table Falls r.peers) (sym (ap (λ t. t.1) e))
        (Table-refl Falls stays r.peers v.tidy_peers);
}

unlink_places :
    (g : ℕ) (p c : Option ℕ)
    → IsClear (slot_of p c)
    → Falls (slot_of p c) (slot_of (if is p (some g) then none else p) (retire c (some g)).0)
unfolding is retire
unlink_places g none none h = stays vacant
unlink_places g (some k) none h =
    if_cases (λ x. Falls (holds_prepared k) (slot_of x none)) (k == g) none (some k)
      (λ e. empties (holds_prepared k)) (λ e. stays (holds_prepared k))
unlink_places g none (some k) h =
    if_cases (λ (z : Option ℕ × Bool). Falls (holds_current k) (slot_of none z.0)) (k == g)
      (none, true) (some k, false) (λ e. empties (holds_current k)) (λ e. stays (holds_current k))
unlink_places g (some k) (some j) h = absurd h

unlink_entry-Falls :
    (g : ℕ) (e : Entry)
    → IsClear (slot_of e.prepared e.current)
    → Falls
        (slot_of e.prepared e.current)
        (slot_of (unlink_entry g e).prepared (unlink_entry g e).current)
unfolding unlink_entry
unlink_entry-Falls g e c = unlink_places g e.prepared e.current c

-- A changed entry whose place falls.
change_found-Vacates :
    (f : Entry → Entry) (gen : Generation) (o : Option Entry) (r : Registry)
    → entry_of gen r ≡ o
    → ((e : Entry)
        → IsClear (slot_of e.prepared e.current)
        → Falls (slot_of e.prepared e.current) (slot_of (f e).prepared (f e).current))
    → Vacates r (change_found f gen o r)
unfolding Vacates
change_found-Vacates f gen none r h falls v = Vacates-refl r v
change_found-Vacates f gen (some e) r h falls v =
    let t : IsTidy (entries gen.role r) = entries-IsTidy gen.role r v in
    let clear : IsClear (slot_of e.prepared e.current) =
      subst (λ x. IsClear (slot_found x)) h (t.clear (key_of gen)) in
    with_entries-Goes Falls stays gen.role _ r v (
      insert-Table Falls stays (key_of gen) (f e) (entries gen.role r) t (
        subst (λ x. Falls (slot_found x) (slot_of (f e).prepared (f e).current)) (sym h)
          (falls e clear)))

pub unlink_active-Vacates :
    (g : ℕ) (gen : Generation) (r : Registry) → Vacates r (unlink_active g gen r)
unfolding unlink_active
unlink_active-Vacates g gen r =
    change_found-Vacates (unlink_entry g) gen (entry_of gen r) r refl (unlink_entry-Falls g)

pub add_retiring-Vacates :
    (g : ℕ) (gen : Generation) (r : Registry) → Vacates r (add_retiring g gen r)
unfolding add_retiring
add_retiring-Vacates g gen r =
    change_found-Vacates (retiring_entry g) gen (entry_of gen r) r refl
      (λ e c. stays (slot_of e.prepared e.current))

drop_found-Vacates :
    (g : ℕ) (gen : Generation) (o : Option Entry) (r : Registry)
    → entry_of gen r ≡ o
    → Vacates r (drop_found g gen o r)
unfolding Vacates
drop_found-Vacates g gen none r h v = Vacates-refl r v
drop_found-Vacates g gen (some e) r h v =
    let t : IsTidy (entries gen.role r) = entries-IsTidy gen.role r v in
    with_entries-Goes Falls stays gen.role _ r v (
      if_cases (Table Falls (entries gen.role r)) (is_unused (cleared_entry g e)) _ _
        (λ p.
          erase-Table Falls stays (key_of gen) (entries gen.role r) t
            (empties (slot_in (entries gen.role r) (key_of gen))))
        (λ p. insert-Table Falls stays (key_of gen) (cleared_entry g e) (entries gen.role r) t (
          subst (λ x. Falls (slot_found x) (slot_of e.prepared e.current)) (sym h)
            (stays (slot_of e.prepared e.current)))))

remove_generation-Vacates :
    (g : ℕ) (gen : Generation) (r : Registry) → Vacates r (remove_generation g gen r)
unfolding remove_generation
remove_generation-Vacates g gen r =
    let q : Registry = unlink_active g gen r in
    let s : Registry = drop_found g gen (entry_of gen q) q in
    Vacates-trans r q (record s { all = erase g s.all }) (unlink_active-Vacates g gen r)
      (Vacates-trans q s (record s { all = erase g s.all })
        (drop_found-Vacates g gen (entry_of gen q) q refl)
        (tables-Vacates s (record s { all = erase g s.all }) refl))

finish_with-Vacates :
    (again : ℕ → Registry → Registry) (a : Arbitration) (r : Registry)
    → ((g : ℕ) (q : Registry) → Vacates q (again g q))
    → Vacates r (finish_with again a r)
unfolding finish_with
finish_with-Vacates again a r h =
    Vacates-trans r (forget a r) _ (tables-Vacates r (forget a r) refl) (
      if_cases (λ q. Vacates (forget a r) (signal q)) a.loser_released (again a.loser (forget a r))
        (forget a r)
        (λ p.
          Vacates-trans (forget a r) (again a.loser (forget a r))
            (signal (again a.loser (forget a r))) (h a.loser (forget a r))
            (tables-Vacates _ (signal (again a.loser (forget a r))) refl))
        (λ p. tables-Vacates (forget a r) (signal (forget a r)) refl))

finish_found-Vacates :
    (again : ℕ → Registry → Registry) (o : Option Arbitration) (r : Registry)
    → ((g : ℕ) (q : Registry) → Vacates q (again g q))
    → Vacates r (finish_found again o r)
finish_found-Vacates again none r h = Vacates-refl r
finish_found-Vacates again (some a) r h = finish_with-Vacates again a r h

remove_found-Vacates :
    (again : ℕ → Registry → Registry) (g : ℕ) (o : Option Generation) (r : Registry)
    → ((g' : ℕ) (q : Registry) → Vacates q (again g' q))
    → Vacates r (remove_found again g o r)
remove_found-Vacates again g none r h = Vacates-refl r
remove_found-Vacates again g (some gen) r h =
    Vacates-trans r (finish_found again (find_inbound g r.arbitrations) r) _
      (finish_found-Vacates again (find_inbound g r.arbitrations) r h)
      (remove_generation-Vacates g gen (finish_found again (find_inbound g r.arbitrations) r))

remove_on-Vacates : (fuel g : ℕ) (r : Registry) → Vacates r (remove_on fuel g r)
unfolding remove_on
remove_on-Vacates zero g r = Vacates-refl r
remove_on-Vacates (suc fuel) g r =
    remove_found-Vacates (remove_on fuel) g (lookup g r.all) r (remove_on-Vacates fuel)

pub remove-Vacates : (g : ℕ) (r : Registry) → Vacates r (remove g r)
unfolding remove
remove-Vacates g r = remove_on-Vacates (suc (length r.arbitrations)) g r

pub finish_arbitration-Vacates :
    (a : Arbitration) (r : Registry) → Vacates r (finish_arbitration a r)
unfolding finish_arbitration
finish_arbitration-Vacates a r = finish_with-Vacates remove a r remove-Vacates
