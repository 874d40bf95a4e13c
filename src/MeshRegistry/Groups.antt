-- ===== src/MeshRegistry/Groups.antt =====
-- The availability of groups: `refreshGroupLocked` and the publications of mesh/selection.go.
use qmux.Base.{
  ℕ, ◌+◌, Bool, true, false, not, ◌&&◌, ◌||◌, Option, none, some, List, [], ◌∷◌, str_eq,
  if◌then◌else◌,
}
use qmux.Base.Assoc.{nat_eq, str_Eq, lookup, insert, erase}
use qmux.Outbound.Endpoint.{Current}
use qmux.MeshRegistry.State.{
  Name, Entry, Registry, role_client, role_eq, Generation, ForwardingEligibility, InstanceL7Health,
  is_forwarding_ready, is_current, signal,
}

abbrev pub is_ready_current : Registry → Current → Bool
is_ready_current r none = false
is_ready_current r (some g) = is_forwarding_ready r g

abbrev pub any_available : Registry → Name → List (Name × Entry) → Bool
any_available r group [] = false
any_available r group ((k, e) ∷ m) =
    str_eq e.entry_group group && is_ready_current r e.current || any_available r group m

abbrev pub any_retained : Name → List (Name × Entry) → Bool
any_retained group [] = false
any_retained group ((k, e) ∷ m) = str_eq e.entry_group group || any_retained group m

-- A missing key reads as false.
abbrev pub group_availability : Registry → Name → Bool
group_availability r group = elim (lookup group r.group_available) [ none ↦ false | some b ↦ b ]

abbrev pub change_group : Bool → Name → Registry → Registry
change_group available group r = record r {
  group_available =
      if available then insert group true r.group_available else erase group r.group_available;
  group_changed = r.group_changed + 1;
}

abbrev pub same : Bool → Bool → Bool
same true b = b
same false b = not b

abbrev pub forget_group : Bool → Name → Registry → Registry
forget_group true group r = r
forget_group false group r = record r { rotations = erase group r.rotations }

-- `refreshGroupLocked`.
unfoldable pub refresh_group : Name → Registry → Registry
refresh_group group r =
    let available : Bool = any_available r group r.clients in
    forget_group (any_retained group r.clients) group
      (if same (group_availability r group) available then r else change_group available group r)

abbrev pub refresh_client : Generation → Registry → Registry
refresh_client gen r = if role_eq gen.role role_client then refresh_group gen.group_id r else r

abbrev pub put : ℕ → Generation → Registry → Registry
put g gen r = record r { all = insert g gen r.all }

abbrev pub same_eligibility : ForwardingEligibility → ForwardingEligibility → Bool
same_eligibility a b =
    same a.session_ready b.session_ready
    && same a.declaration_ready b.declaration_ready
    && same a.l4_healthy b.l4_healthy

abbrev pub publish_forwarding_of :
    Registry → ℕ → ForwardingEligibility → Option Generation → Registry × Bool
publish_forwarding_of r g eligibility none = (r, false)
publish_forwarding_of r g eligibility (some gen) =
    if same_eligibility gen.forwarding eligibility
    then (r, true)
    else (signal (refresh_client gen (put g (record gen { forwarding = eligibility }) r)), true)

-- `PublishForwarding`.
unfoldable pub publish_forwarding : Registry → ℕ → ForwardingEligibility → Registry × Bool
publish_forwarding r g eligibility =
    if is_current r g then publish_forwarding_of r g eligibility (lookup g r.all) else (r, false)

abbrev pub publish_l4_of : Registry → ℕ → Option Generation → Registry × Bool
publish_l4_of r g none = (r, false)
publish_l4_of r g (some gen) =
    if not (role_eq gen.role role_client)
    then (r, false)
    else if gen.forwarding.l4_healthy
    then (r, true)
    else (
      signal (
          refresh_group gen.group_id
            (put g (record gen { forwarding = record gen.forwarding { l4_healthy = true } }) r)),
      true,
    )

-- `publishL4Healthy`.
unfoldable pub publish_l4_healthy : Registry → ℕ → Registry × Bool
publish_l4_healthy r g = if is_current r g then publish_l4_of r g (lookup g r.all) else (r, false)

abbrev pub publish_l7_of : Registry → ℕ → InstanceL7Health → Option Generation → Registry × Bool
publish_l7_of r g health none = (r, false)
publish_l7_of r g health (some gen) =
    if role_eq gen.role role_client
    then (put g (record gen { l7_health = health }) r, true)
    else (r, false)

-- `PublishInstanceL7Health`, for one of the three values of the type.
unfoldable pub publish_l7_health : Registry → ℕ → InstanceL7Health → Registry × Bool
publish_l7_health r g health =
    if is_current r g then publish_l7_of r g health (lookup g r.all) else (r, false)
