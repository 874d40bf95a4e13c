-- ===== src/MeshRegistry/Removal.antt =====
-- How a generation leaves the registry: `unlinkActiveLocked`, `addRetiringLocked`, `removeLocked` and
-- `finishArbitrationLocked`, with `BeginRetire`, `Release`, `CancelArbitration` and `Stop`.
use qmux.Base.{
  ℕ, zero, suc, ◌+◌, Bool, true, false, ◌&&◌, Option, none, some, List, [], ◌∷◌, ◌==◌, length,
  str_eq, if◌then◌else◌,
}
use qmux.Base.Assoc.{nat_eq, str_Eq, lookup, insert, erase}
use qmux.Outbound.Endpoint.{is_empty, is, retire}
use qmux.MeshRegistry.State.{
  Name, Entry, Registry, Generation, Phase, phase_pending, phase_prepared, phase_current,
  phase_retiring, phase_done, phase_eq, Arbitration, entries, with_entries, key_of, signal,
}
use qmux.MeshRegistry.Groups.{refresh_client, put}

abbrev pub change_found : (Entry → Entry) → Generation → Option Entry → Registry → Registry
change_found f gen none r = r
change_found f gen (some e) r =
    with_entries gen.role (insert (key_of gen) (f e) (entries gen.role r)) r

abbrev pub entry_of : Generation → Registry → Option Entry
entry_of gen r = lookup (key_of gen) (entries gen.role r)

-- A change of the entry of a generation, where there is one.
abbrev pub change_entry : (Entry → Entry) → Generation → Registry → Registry
change_entry f gen r = change_found f gen (entry_of gen r) r

unfoldable pub unlink_entry : ℕ → Entry → Entry
unfolding is retire
unlink_entry g e = record e {
  prepared = if is e.prepared (some g) then none else e.prepared;
  current = (retire e.current (some g)).0;
}

-- `unlinkActiveLocked`.
unfoldable pub unlink_active : ℕ → Generation → Registry → Registry
unlink_active g gen r = change_entry (unlink_entry g) gen r

abbrev pub retiring_entry : ℕ → Entry → Entry
retiring_entry g e = record e { retiring = insert g g e.retiring }

-- `addRetiringLocked`.
unfoldable pub add_retiring : ℕ → Generation → Registry → Registry
add_retiring g gen r = change_entry (retiring_entry g) gen r

abbrev pub cleared_entry : ℕ → Entry → Entry
cleared_entry g e = record e { retiring = erase g e.retiring }

abbrev pub is_unused : Entry → Bool
is_unused e = is_empty e.prepared && is_empty e.current && length e.retiring == 0

abbrev pub drop_found : ℕ → Generation → Option Entry → Registry → Registry
drop_found g gen none r = r
drop_found g gen (some e) r =
    with_entries gen.role
      (if is_unused (cleared_entry g e)
        then erase (key_of gen) (entries gen.role r)
        else insert (key_of gen) (cleared_entry g e) (entries gen.role r))
      r

abbrev pub drop_entry : ℕ → Generation → Registry → Registry
drop_entry g gen r = drop_found g gen (entry_of gen r) r

-- `removeLocked`, but for the arbitration of an inbound generation.
unfoldable pub remove_generation : ℕ → Generation → Registry → Registry
unfolding unlink_active
remove_generation g gen r =
    let r1 : Registry = drop_entry g gen (unlink_active g gen r) in
    record r1 { all = erase g r1.all }

-- `arbitrationForInboundLocked`.
unfoldable pub find_inbound : ℕ → List (Name × Arbitration) → Option Arbitration
find_inbound g [] = none
find_inbound g ((k, a) ∷ m) = if a.inbound == g then some a else find_inbound g m

abbrev pub forget : Arbitration → Registry → Registry
forget a r = record r { arbitrations = erase a.arbitration_peer r.arbitrations }

-- `finishArbitrationLocked`, over the removal of its loser.
unfoldable pub finish_with : (ℕ → Registry → Registry) → Arbitration → Registry → Registry
finish_with remove a r =
    signal (if a.loser_released then remove a.loser (forget a r) else forget a r)

abbrev pub finish_found : (ℕ → Registry → Registry) → Option Arbitration → Registry → Registry
finish_found remove none r = r
finish_found remove (some a) r = finish_with remove a r

abbrev pub remove_found : (ℕ → Registry → Registry) → ℕ → Option Generation → Registry → Registry
remove_found again g none r = r
remove_found again g (some gen) r =
    remove_generation g gen (finish_found again (find_inbound g r.arbitrations) r)

-- `removeLocked` on fuel, which counts the arbitrations that removals finish on the way; each of
-- them is forgotten, so one more than their number is enough.
unfoldable pub remove_on : ℕ → ℕ → Registry → Registry
unfolding remove_generation find_inbound finish_with
remove_on zero g r = r
remove_on (suc fuel) g r = remove_found (remove_on fuel) g (lookup g r.all) r

unfoldable pub remove : ℕ → Registry → Registry
unfolding remove_on
remove g r = remove_on (suc (length r.arbitrations)) g r

abbrev pub is_some {ℓ} : {A : Type ℓ} → Option A → Bool
is_some none = false
is_some (some a) = true

-- What `removeLocked` reports.
abbrev pub is_registered : Registry → ℕ → Bool
is_registered r g = is_some (lookup g r.all)

-- `finishArbitrationLocked`.
unfoldable pub finish_arbitration : Arbitration → Registry → Registry
unfolding remove finish_with
finish_arbitration a r = finish_with remove a r

-- An arbitration is the live one of its peer; a token is named by its peer and its ID.
unfoldable pub find_arbitration : Registry → Name → ℕ → Option Arbitration
find_arbitration r peer id = elim (lookup peer r.arbitrations) [
  | none ↦ none
  | some a ↦ if a.arbitration_id == id then some a else none
]

abbrev pub cancel_found : Registry → Bool → Option Arbitration → Registry × Bool
cancel_found r abort_inbound none = (r, false)
cancel_found r abort_inbound (some a) =
    let r1 : Registry = finish_arbitration a r in
    (if abort_inbound then remove a.inbound r1 else r1, true)

-- `CancelArbitration`.
unfoldable pub cancel_arbitration : Registry → Name → ℕ → Bool → Registry × Bool
unfolding remove finish_arbitration find_arbitration
cancel_arbitration r peer id abort_inbound =
    cancel_found r abort_inbound (find_arbitration r peer id)

-- The move of a generation to the retiring state.
unfoldable pub make_retiring : ℕ → Generation → Registry → Registry
unfolding unlink_active add_retiring
make_retiring g gen r =
    add_retiring g gen (put g (record gen { phase = phase_retiring }) (unlink_active g gen r))

abbrev pub begin_retire_of : Registry → ℕ → Generation → Phase → Registry × Bool
begin_retire_of r g gen phase_prepared = (signal (refresh_client gen (make_retiring g gen r)), true)
begin_retire_of r g gen phase_current = (signal (refresh_client gen (make_retiring g gen r)), true)
begin_retire_of r g gen phase_retiring = (r, true)
begin_retire_of r g gen phase_pending = (r, false)
begin_retire_of r g gen phase_done = (r, false)

abbrev pub begin_retire_found : Registry → ℕ → Option Generation → Registry × Bool
begin_retire_found r g none = (r, false)
begin_retire_found r g (some gen) = begin_retire_of r g gen gen.phase

-- `BeginRetire`.
unfoldable pub begin_retire : Registry → ℕ → Registry × Bool
unfolding make_retiring
begin_retire r g = begin_retire_found r g (lookup g r.all)

-- The arbitration that a generation has lost, while it holds.
abbrev pub lost_by : Registry → ℕ → Generation → Option Arbitration
lost_by r g gen = elim (lookup gen.peer_id r.arbitrations) [
  | none ↦ none
  | some a ↦ if a.loser == g then some a else none
]

abbrev pub released_arbitration : Arbitration → Registry → Registry
released_arbitration a r = record r {
  arbitrations = insert a.arbitration_peer (record a { loser_released = true }) r.arbitrations;
}

abbrev pub release_loser : Registry → ℕ → Generation → Arbitration → Registry × Bool
release_loser r g gen a = if a.loser_released then (r, false) else (
  signal (
      released_arbitration a
        (if phase_eq gen.phase phase_retiring then r else make_retiring g gen r)),
  true,
)

-- A client without a group has none to refresh.
abbrev pub refresh_named : Generation → Registry → Registry
refresh_named gen r = if str_eq gen.group_id [] then r else refresh_client gen r

abbrev pub release_of : Registry → ℕ → Generation → Option Arbitration → Registry × Bool
release_of r g gen none = (signal (refresh_named gen (remove g r)), true)
release_of r g gen (some a) = release_loser r g gen a

abbrev pub release_found : Registry → ℕ → Option Generation → Registry × Bool
release_found r g none = (r, false)
release_found r g (some gen) = release_of r g gen (lost_by r g gen)

-- `Release`.
unfoldable pub release : Registry → ℕ → Registry × Bool
unfolding make_retiring remove
release r g = release_found r g (lookup g r.all)

abbrev pub keys {ℓ κ} : {A : Type ℓ} {B : Type κ} → List (A × B) → List A
keys [] = []
keys ((a, b) ∷ m) = a ∷ keys m

-- `Stop` up to the calls of the owners, with the generations whose owners it stops and then joins.
unfoldable pub stop_begin : Registry → Registry × List ℕ
stop_begin r = if r.closed then (r, []) else (
  signal (record r {
    closed = true;
    group_available = [];
    group_changed = r.group_changed + 1;
    arbitrations = [];
  }),
  keys r.all,
)

-- The end of `Stop`, after the owners are joined.
unfoldable pub stop_end : Registry → List ℕ → Registry
unfolding remove
stop_end r [] = r
stop_end r (g ∷ gs) = stop_end (remove g r) gs
