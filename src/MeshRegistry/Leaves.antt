-- ===== src/MeshRegistry/Leaves.antt =====
-- `BeginRetire`, `Release`, `CancelArbitration`, the commits and `Stop` let no generation join.
use qmux.Base.{
  ℕ, ◌≡◌, refl, ap, ◌∙◌, ◌≤◌, Bool, true, false, not, Option, none, some, List, [], ◌∷◌, arith,
  ◌||◌, if_cases, if_cases,
}
use qmux.Base.Assoc.{nat_eq, str_Eq, lookup, insert, sum_by-insert_old}
use qmux.MeshRegistry.State.{
  Name, Entry, Registry, role_client, role_peer, role_eq, one_if, Generation, Phase, phase_pending,
  phase_prepared, phase_current, phase_retiring, phase_done, phase_eq, Arbitration, entries,
  with_entries, key_of, signal, has_role, is_pending,
}
use qmux.MeshRegistry.Groups.{refresh_client, put}
use qmux.MeshRegistry.Removal.{
  entry_of, unlink_active, remove, finish_arbitration, find_arbitration, cancel_arbitration,
  cancel_found, make_retiring, begin_retire_of, begin_retire_found, begin_retire, release,
  release_loser, released_arbitration, refresh_named, release_of, release_found, lost_by,
  stop_begin, stop_end,
}
use qmux.MeshRegistry.Shrinks.{
  counted_of, Shrinks, Shrinks-refl, Shrinks-trans, counted-Shrinks, unlink_active-counted,
  add_retiring-counted, refresh_client-counted, refresh_group-counted, with_entries-counted,
}
use qmux.MeshRegistry.Drops.{remove-Shrinks, finish_arbitration-Shrinks}
use qmux.MeshRegistry.Groups.{
  publish_forwarding, publish_forwarding_of, publish_l4_healthy, publish_l4_of, publish_l7_health,
  publish_l7_of, same_eligibility,
}
use qmux.MeshRegistry.State.{ForwardingEligibility, InstanceL7Health, is_exact, is_current}
use qmux.MeshRegistry.Steps.{
  commit, commit_of, publishable, published_entry, set_current, commit_receiver,
  commit_receiver_found, commit_outbound_peer, commit_outbound_found, is_loser_of,
}

-- A generation that counts for no more than before.
pub put-Shrinks :
    (g : ℕ) (old gen : Generation) (r : Registry)
    → lookup g r.all ≡ some old
    → is_pending gen ≤ is_pending old
    → gen.role ≡ old.role
    → Shrinks r (put g gen r)
put-Shrinks g old gen r h p e = record {
  pending = omega (arith, sum_by-insert_old is_pending g gen old r.all h, p);
  clients = omega (
    arith,
    sum_by-insert_old (has_role role_client) g gen old r.all h,
    ap {B = ℕ} (λ role. one_if (role_eq role role_client)) e,
  );
  peers = omega (
    arith,
    sum_by-insert_old (has_role role_peer) g gen old r.all h,
    ap {B = ℕ} (λ role. one_if (role_eq role role_peer)) e,
  );
  limits = refl;
}

-- Only a pending generation counts as pending.
pub is_pending_none :
    (gen : Generation) (phase : Phase)
    → phase_eq phase phase_pending ≡ false
    → is_pending (record gen { phase = phase }) ≡ 0
is_pending_none gen phase h = ground arith

pub make_retiring-Shrinks :
    (g : ℕ) (gen : Generation) (r : Registry)
    → lookup g r.all ≡ some gen
    → Shrinks r (make_retiring g gen r)
unfolding make_retiring
make_retiring-Shrinks g gen r h =
    let q : Registry = unlink_active g gen r in
    let moved : Generation = record gen { phase = phase_retiring } in
    Shrinks-trans (counted-Shrinks (unlink_active-counted g gen r)) (
      Shrinks-trans
        (put-Shrinks g gen moved q (ap (λ c. lookup g c.0) (unlink_active-counted g gen r) ∙ h)
          (omega (arith, is_pending_none gen phase_retiring refl)) refl)
        (counted-Shrinks (add_retiring-counted g gen (put g moved q))))

retire_step-Shrinks :
    (r : Registry) (g : ℕ) (gen : Generation)
    → lookup g r.all ≡ some gen
    → Shrinks r (signal (refresh_client gen (make_retiring g gen r)))
retire_step-Shrinks r g gen h =
    Shrinks-trans (make_retiring-Shrinks g gen r h)
      (counted-Shrinks (refresh_client-counted gen (make_retiring g gen r)))

begin_retire_of-Shrinks :
    (r : Registry) (g : ℕ) (gen : Generation) (phase : Phase)
    → lookup g r.all ≡ some gen
    → Shrinks r (begin_retire_of r g gen phase).0
begin_retire_of-Shrinks r g gen phase_pending h = Shrinks-refl r
begin_retire_of-Shrinks r g gen phase_prepared h = retire_step-Shrinks r g gen h
begin_retire_of-Shrinks r g gen phase_current h = retire_step-Shrinks r g gen h
begin_retire_of-Shrinks r g gen phase_retiring h = Shrinks-refl r
begin_retire_of-Shrinks r g gen phase_done h = Shrinks-refl r

begin_retire_found-Shrinks :
    (r : Registry) (g : ℕ) (o : Option Generation)
    → lookup g r.all ≡ o
    → Shrinks r (begin_retire_found r g o).0
begin_retire_found-Shrinks r g none h = Shrinks-refl r
begin_retire_found-Shrinks r g (some gen) h = begin_retire_of-Shrinks r g gen gen.phase h

pub begin_retire-Shrinks : (r : Registry) (g : ℕ) → Shrinks r (begin_retire r g).0
unfolding begin_retire
begin_retire-Shrinks r g = begin_retire_found-Shrinks r g (lookup g r.all) refl

release_loser-Shrinks :
    (r : Registry) (g : ℕ) (gen : Generation) (a : Arbitration)
    → lookup g r.all ≡ some gen
    → Shrinks r (release_loser r g gen a).0
release_loser-Shrinks r g gen a h =
    if_cases (λ (z : Registry × Bool). Shrinks r z.0) a.loser_released _ _ (λ p. Shrinks-refl r)
      (λ p.
        if_cases (λ q. Shrinks r (signal (released_arbitration a q)))
          (phase_eq gen.phase phase_retiring) r (make_retiring g gen r) (λ q. counted-Shrinks refl)
          (λ q. Shrinks-trans (make_retiring-Shrinks g gen r h) (counted-Shrinks refl)))

refresh_named-counted :
    (gen : Generation) (r : Registry) → counted_of (refresh_named gen r) ≡ counted_of r
refresh_named-counted gen r = ground (arith, refresh_client-counted gen r)

release_of-Shrinks :
    (r : Registry) (g : ℕ) (gen : Generation) (o : Option Arbitration)
    → lookup g r.all ≡ some gen
    → Shrinks r (release_of r g gen o).0
release_of-Shrinks r g gen none h =
    Shrinks-trans (remove-Shrinks g r) (counted-Shrinks (refresh_named-counted gen (remove g r)))
release_of-Shrinks r g gen (some a) h = release_loser-Shrinks r g gen a h

release_found-Shrinks :
    (r : Registry) (g : ℕ) (o : Option Generation)
    → lookup g r.all ≡ o
    → Shrinks r (release_found r g o).0
release_found-Shrinks r g none h = Shrinks-refl r
release_found-Shrinks r g (some gen) h = release_of-Shrinks r g gen (lost_by r g gen) h

pub release-Shrinks : (r : Registry) (g : ℕ) → Shrinks r (release r g).0
unfolding release
release-Shrinks r g = release_found-Shrinks r g (lookup g r.all) refl

cancel_found-Shrinks :
    (r : Registry) (abort_inbound : Bool) (o : Option Arbitration)
    → Shrinks r (cancel_found r abort_inbound o).0
cancel_found-Shrinks r abort_inbound none = Shrinks-refl r
cancel_found-Shrinks r true (some a) =
    Shrinks-trans (finish_arbitration-Shrinks a r)
      (remove-Shrinks a.inbound (finish_arbitration a r))
cancel_found-Shrinks r false (some a) = finish_arbitration-Shrinks a r

pub cancel_arbitration-Shrinks :
    (r : Registry) (peer : Name) (id : ℕ) (abort_inbound : Bool)
    → Shrinks r (cancel_arbitration r peer id abort_inbound).0
unfolding cancel_arbitration
cancel_arbitration-Shrinks r peer id abort_inbound =
    cancel_found-Shrinks r abort_inbound (find_arbitration r peer id)

pub stop_begin-Shrinks : (r : Registry) → Shrinks r (stop_begin r).0
unfolding stop_begin
stop_begin-Shrinks r =
    if_cases (λ (z : Registry × List ℕ). Shrinks r z.0) r.closed _ _ (λ p. Shrinks-refl r)
      (λ p. counted-Shrinks refl)

pub stop_end-Shrinks : (r : Registry) (gs : List ℕ) → Shrinks r (stop_end r gs)
unfolding stop_end
stop_end-Shrinks r [] = Shrinks-refl r
stop_end-Shrinks r (g ∷ gs) = Shrinks-trans (remove-Shrinks g r) (stop_end-Shrinks (remove g r) gs)

commit_of-Shrinks :
    (r : Registry) (g : ℕ) (gen : Generation) (o : Option Entry)
    → lookup g r.all ≡ some gen
    → Shrinks r (commit_of r g gen o).0
commit_of-Shrinks r g gen none h = Shrinks-refl r
commit_of-Shrinks r g gen (some e) h =
    let m : List (Name × Entry) = insert (key_of gen) (published_entry g e) (entries gen.role r) in
    Shrinks-trans (counted-Shrinks (with_entries-counted gen.role m r)) (
      Shrinks-trans
        (put-Shrinks g gen (set_current gen) (with_entries gen.role m r)
          (ap (λ c. lookup g c.0) (with_entries-counted gen.role m r) ∙ h)
          (omega (arith, is_pending_none gen phase_current refl)) refl)
        (counted-Shrinks refl))

commit-Shrinks :
    (r : Registry) (g : ℕ) (gen : Generation)
    → lookup g r.all ≡ some gen
    → Shrinks r (commit r g gen).0
unfolding commit
commit-Shrinks r g gen h = commit_of-Shrinks r g gen (publishable (entry_of gen r) g) h

commit_receiver_found-Shrinks :
    (r : Registry) (g : ℕ) (o : Option Generation)
    → lookup g r.all ≡ o
    → Shrinks r (commit_receiver_found r g o).0
commit_receiver_found-Shrinks r g none h = Shrinks-refl r
commit_receiver_found-Shrinks r g (some gen) h =
    if_cases (λ (z : Registry × (Bool × Bool)). Shrinks r z.0)
      (is_exact r g gen.role phase_prepared) _ _ (λ p. commit-Shrinks r g gen h)
      (λ p. Shrinks-refl r)

pub commit_receiver-Shrinks : (r : Registry) (g : ℕ) → Shrinks r (commit_receiver r g).0
unfolding commit_receiver
commit_receiver-Shrinks r g = commit_receiver_found-Shrinks r g (lookup g r.all) refl

commit_outbound_found-Shrinks :
    (r : Registry) (g : ℕ) (o : Option Generation)
    → lookup g r.all ≡ o
    → Shrinks r (commit_outbound_found r g o).0
commit_outbound_found-Shrinks r g none h = Shrinks-refl r
commit_outbound_found-Shrinks r g (some gen) h =
    if_cases (λ (z : Registry × Bool). Shrinks r z.0)
      (r.closed || not (is_exact r g role_peer phase_prepared)) _ _ (λ p. Shrinks-refl r)
      (λ p.
        if_cases (λ (z : Registry × Bool). Shrinks r z.0)
          (is_loser_of (lookup gen.peer_id r.arbitrations) g) _ _ (λ p. Shrinks-refl r)
          (λ p. commit-Shrinks r g gen h))

pub commit_outbound_peer-Shrinks : (r : Registry) (g : ℕ) → Shrinks r (commit_outbound_peer r g).0
unfolding commit_outbound_peer
commit_outbound_peer-Shrinks r g = commit_outbound_found-Shrinks r g (lookup g r.all) refl

-- A publication changes neither the role nor the phase of a generation.
publish_forwarding_of-Shrinks :
    (r : Registry) (g : ℕ) (eligibility : ForwardingEligibility) (o : Option Generation)
    → lookup g r.all ≡ o
    → Shrinks r (publish_forwarding_of r g eligibility o).0
publish_forwarding_of-Shrinks r g eligibility none h = Shrinks-refl r
publish_forwarding_of-Shrinks r g eligibility (some gen) h =
    if_cases (λ (z : Registry × Bool). Shrinks r z.0) (same_eligibility gen.forwarding eligibility)
      _ _ (λ p. Shrinks-refl r)
      (λ p.
        let changed : Generation = record gen { forwarding = eligibility } in
        Shrinks-trans (put-Shrinks g gen changed r h (omega arith) refl)
          (counted-Shrinks (refresh_client-counted gen (put g changed r))))

publish_l4_of-Shrinks :
    (r : Registry) (g : ℕ) (o : Option Generation)
    → lookup g r.all ≡ o
    → Shrinks r (publish_l4_of r g o).0
publish_l4_of-Shrinks r g none h = Shrinks-refl r
publish_l4_of-Shrinks r g (some gen) h =
    if_cases (λ (z : Registry × Bool). Shrinks r z.0) (not (role_eq gen.role role_client)) _ _
      (λ p. Shrinks-refl r)
      (λ p.
        if_cases (λ (z : Registry × Bool). Shrinks r z.0) gen.forwarding.l4_healthy _ _
          (λ p. Shrinks-refl r)
          (λ p.
            let changed : Generation = record gen {
              forwarding = record gen.forwarding { l4_healthy = true };
            } in
            Shrinks-trans (put-Shrinks g gen changed r h (omega arith) refl)
              (counted-Shrinks (refresh_group-counted gen.group_id (put g changed r)))))

publish_l7_of-Shrinks :
    (r : Registry) (g : ℕ) (health : InstanceL7Health) (o : Option Generation)
    → lookup g r.all ≡ o
    → Shrinks r (publish_l7_of r g health o).0
publish_l7_of-Shrinks r g health none h = Shrinks-refl r
publish_l7_of-Shrinks r g health (some gen) h =
    if_cases (λ (z : Registry × Bool). Shrinks r z.0) (role_eq gen.role role_client) _ _
      (λ p. put-Shrinks g gen (record gen { l7_health = health }) r h (omega arith) refl)
      (λ p. Shrinks-refl r)

pub publish_forwarding-Shrinks :
    (r : Registry) (g : ℕ) (eligibility : ForwardingEligibility)
    → Shrinks r (publish_forwarding r g eligibility).0
unfolding publish_forwarding
publish_forwarding-Shrinks r g eligibility =
    if_cases (λ (z : Registry × Bool). Shrinks r z.0) (is_current r g) _ _
      (λ p. publish_forwarding_of-Shrinks r g eligibility (lookup g r.all) refl)
      (λ p. Shrinks-refl r)

pub publish_l4_healthy-Shrinks : (r : Registry) (g : ℕ) → Shrinks r (publish_l4_healthy r g).0
unfolding publish_l4_healthy
publish_l4_healthy-Shrinks r g =
    if_cases (λ (z : Registry × Bool). Shrinks r z.0) (is_current r g) _ _
      (λ p. publish_l4_of-Shrinks r g (lookup g r.all) refl) (λ p. Shrinks-refl r)

pub publish_l7_health-Shrinks :
    (r : Registry) (g : ℕ) (health : InstanceL7Health) → Shrinks r (publish_l7_health r g health).0
unfolding publish_l7_health
publish_l7_health-Shrinks r g health =
    if_cases (λ (z : Registry × Bool). Shrinks r z.0) (is_current r g) _ _
      (λ p. publish_l7_of-Shrinks r g health (lookup g r.all) refl) (λ p. Shrinks-refl r)
