-- ===== src/MeshRegistry/Retiring.antt =====
-- `BeginRetire`, `Release`, `CancelArbitration`, `Stop` and the publications leave every place as it
-- is or empty it.
use qmux.Base.{ℕ, ◌≡◌, refl, Bool, true, false, Option, none, some, List, [], ◌∷◌, if_cases, arith}
use qmux.Base.Assoc.{nat_eq, lookup}
use qmux.MeshRegistry.State.{
  Name, Registry, Generation, Phase, phase_pending, phase_prepared, phase_current, phase_retiring,
  phase_done, phase_eq, Arbitration, signal, is_current, ForwardingEligibility, InstanceL7Health,
}
use qmux.MeshRegistry.Groups.{
  refresh_group, refresh_client, put, publish_forwarding, publish_forwarding_of, publish_l4_healthy,
  publish_l4_of, publish_l7_health, publish_l7_of,
}
use qmux.MeshRegistry.Removal.{
  unlink_active, remove, finish_arbitration, find_arbitration, cancel_arbitration, cancel_found,
  make_retiring, begin_retire_of, begin_retire_found, begin_retire, release, release_loser,
  released_arbitration, refresh_named, release_of, release_found, lost_by, stop_begin, stop_end,
}
use qmux.MeshRegistry.Slots.{tables_of}
use qmux.MeshRegistry.Vacating.{
  Vacates, Vacates-refl, Vacates-trans, tables-Vacates, unlink_active-Vacates, add_retiring-Vacates,
  remove-Vacates, finish_arbitration-Vacates,
}

refresh_group-tables :
    (group : Name) (r : Registry) → tables_of (refresh_group group r) ≡ tables_of r
unfolding refresh_group
refresh_group-tables group r = ground arith

refresh_client-tables :
    (gen : Generation) (r : Registry) → tables_of (refresh_client gen r) ≡ tables_of r
refresh_client-tables gen r = ground (arith, refresh_group-tables gen.group_id r)

refresh_named-tables :
    (gen : Generation) (r : Registry) → tables_of (refresh_named gen r) ≡ tables_of r
refresh_named-tables gen r = ground (arith, refresh_client-tables gen r)

make_retiring-Vacates :
    (g : ℕ) (gen : Generation) (r : Registry) → Vacates r (make_retiring g gen r)
unfolding make_retiring
make_retiring-Vacates g gen r =
    let q : Registry = unlink_active g gen r in
    let s : Registry = put g (record gen { phase = phase_retiring }) q in
    Vacates-trans r q _ (unlink_active-Vacates g gen r)
      (Vacates-trans q s _ (tables-Vacates q s refl) (add_retiring-Vacates g gen s))

retire_step-Vacates :
    (r : Registry) (g : ℕ) (gen : Generation)
    → Vacates r (signal (refresh_client gen (make_retiring g gen r)))
retire_step-Vacates r g gen =
    Vacates-trans r (make_retiring g gen r) _ (make_retiring-Vacates g gen r)
      (tables-Vacates (make_retiring g gen r) _ (refresh_client-tables gen (make_retiring g gen r)))

begin_retire_of-Vacates :
    (r : Registry) (g : ℕ) (gen : Generation) (phase : Phase)
    → Vacates r (begin_retire_of r g gen phase).0
begin_retire_of-Vacates r g gen phase_pending = Vacates-refl r
begin_retire_of-Vacates r g gen phase_prepared = retire_step-Vacates r g gen
begin_retire_of-Vacates r g gen phase_current = retire_step-Vacates r g gen
begin_retire_of-Vacates r g gen phase_retiring = Vacates-refl r
begin_retire_of-Vacates r g gen phase_done = Vacates-refl r

begin_retire_found-Vacates :
    (r : Registry) (g : ℕ) (o : Option Generation) → Vacates r (begin_retire_found r g o).0
begin_retire_found-Vacates r g none = Vacates-refl r
begin_retire_found-Vacates r g (some gen) = begin_retire_of-Vacates r g gen gen.phase

pub begin_retire-Vacates : (r : Registry) (g : ℕ) → Vacates r (begin_retire r g).0
unfolding begin_retire
begin_retire-Vacates r g = begin_retire_found-Vacates r g (lookup g r.all)

release_loser-Vacates :
    (r : Registry) (g : ℕ) (gen : Generation) (a : Arbitration)
    → Vacates r (release_loser r g gen a).0
release_loser-Vacates r g gen a =
    if_cases (λ (q : Registry × Bool). Vacates r q.0) a.loser_released (r, false) _
      (λ p. Vacates-refl r)
      (λ p.
        if_cases (λ q. Vacates r (signal (released_arbitration a q)))
          (phase_eq gen.phase phase_retiring) r (make_retiring g gen r)
          (λ q. tables-Vacates r _ refl)
          (λ q.
            Vacates-trans r (make_retiring g gen r) _ (make_retiring-Vacates g gen r)
              (tables-Vacates (make_retiring g gen r) _ refl)))

release_of-Vacates :
    (r : Registry) (g : ℕ) (gen : Generation) (o : Option Arbitration)
    → Vacates r (release_of r g gen o).0
release_of-Vacates r g gen none =
    Vacates-trans r (remove g r) _ (remove-Vacates g r)
      (tables-Vacates (remove g r) _ (refresh_named-tables gen (remove g r)))
release_of-Vacates r g gen (some a) = release_loser-Vacates r g gen a

release_found-Vacates :
    (r : Registry) (g : ℕ) (o : Option Generation) → Vacates r (release_found r g o).0
release_found-Vacates r g none = Vacates-refl r
release_found-Vacates r g (some gen) = release_of-Vacates r g gen (lost_by r g gen)

pub release-Vacates : (r : Registry) (g : ℕ) → Vacates r (release r g).0
unfolding release
release-Vacates r g = release_found-Vacates r g (lookup g r.all)

cancel_found-Vacates :
    (r : Registry) (abort_inbound : Bool) (o : Option Arbitration)
    → Vacates r (cancel_found r abort_inbound o).0
cancel_found-Vacates r abort_inbound none = Vacates-refl r
cancel_found-Vacates r true (some a) =
    Vacates-trans r (finish_arbitration a r) _ (finish_arbitration-Vacates a r)
      (remove-Vacates a.inbound (finish_arbitration a r))
cancel_found-Vacates r false (some a) = finish_arbitration-Vacates a r

pub cancel_arbitration-Vacates :
    (r : Registry) (peer : Name) (id : ℕ) (abort_inbound : Bool)
    → Vacates r (cancel_arbitration r peer id abort_inbound).0
unfolding cancel_arbitration
cancel_arbitration-Vacates r peer id abort_inbound =
    cancel_found-Vacates r abort_inbound (find_arbitration r peer id)

pub stop_begin-Vacates : (r : Registry) → Vacates r (stop_begin r).0
unfolding stop_begin
stop_begin-Vacates r =
    if_cases (λ (q : Registry × List ℕ). Vacates r q.0) r.closed _ _ (λ p. Vacates-refl r)
      (λ p. tables-Vacates r _ refl)

pub stop_end-Vacates : (r : Registry) (gs : List ℕ) → Vacates r (stop_end r gs)
unfolding stop_end
stop_end-Vacates r [] = Vacates-refl r
stop_end-Vacates r (g ∷ gs) =
    Vacates-trans r (remove g r) _ (remove-Vacates g r) (stop_end-Vacates (remove g r) gs)

-- The publications do not touch the entries.
publish_forwarding_of-tables :
    (r : Registry) (g : ℕ) (eligibility : ForwardingEligibility) (o : Option Generation)
    → tables_of (publish_forwarding_of r g eligibility o).0 ≡ tables_of r
publish_forwarding_of-tables r g eligibility none = refl
publish_forwarding_of-tables r g eligibility (some gen) =
    ground (arith, refresh_client-tables gen (put g (record gen { forwarding = eligibility }) r))

publish_l4_of-tables :
    (r : Registry) (g : ℕ) (o : Option Generation) → tables_of (publish_l4_of r g o).0 ≡ tables_of r
publish_l4_of-tables r g none = refl
publish_l4_of-tables r g (some gen) = ground (
  arith,
  refresh_group-tables gen.group_id
      (put g (record gen { forwarding = record gen.forwarding { l4_healthy = true } }) r),
)

publish_l7_of-tables :
    (r : Registry) (g : ℕ) (health : InstanceL7Health) (o : Option Generation)
    → tables_of (publish_l7_of r g health o).0 ≡ tables_of r
publish_l7_of-tables r g health none = refl
publish_l7_of-tables r g health (some gen) = ground arith

pub publish_forwarding-Vacates :
    (r : Registry) (g : ℕ) (eligibility : ForwardingEligibility)
    → Vacates r (publish_forwarding r g eligibility).0
unfolding publish_forwarding
publish_forwarding-Vacates r g eligibility =
    if_cases (λ (q : Registry × Bool). Vacates r q.0) (is_current r g) _ _
      (λ p. tables-Vacates r _ (publish_forwarding_of-tables r g eligibility (lookup g r.all)))
      (λ p. Vacates-refl r)

pub publish_l4_healthy-Vacates : (r : Registry) (g : ℕ) → Vacates r (publish_l4_healthy r g).0
unfolding publish_l4_healthy
publish_l4_healthy-Vacates r g =
    if_cases (λ (q : Registry × Bool). Vacates r q.0) (is_current r g) _ _
      (λ p. tables-Vacates r _ (publish_l4_of-tables r g (lookup g r.all))) (λ p. Vacates-refl r)

pub publish_l7_health-Vacates :
    (r : Registry) (g : ℕ) (health : InstanceL7Health) → Vacates r (publish_l7_health r g health).0
unfolding publish_l7_health
publish_l7_health-Vacates r g health =
    if_cases (λ (q : Registry × Bool). Vacates r q.0) (is_current r g) _ _
      (λ p. tables-Vacates r _ (publish_l7_of-tables r g health (lookup g r.all)))
      (λ p. Vacates-refl r)
