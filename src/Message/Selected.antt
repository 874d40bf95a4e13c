-- ===== src/Message/Selected.antt =====
-- What the negotiation selects, and that what one side selects passes the other side's checks.
use qmux.Base.{
  ℕ, ◌≡◌, ◌≤◌, refl, ap, ◌∙◌, true, false, not, ◌&&◌, none, List, [], ◌∷◌, arith, str_eq,
  str_eq_sound, str_eq_refl,
}
use qmux.Base.Lists.{count_by}
use qmux.Message.Negotiation.{
  has_capability, select_from, select_capabilities, validate_from, validate_capabilities,
  check_requested, MeshRegisterAck, validate_mesh_registration, validate_mesh_register_ack,
  mesh_protocol_version, capability_mesh_session_v1, is_mesh_state,
}

select_from_lem :
    (seen requested supported : List (List ℕ)) (c : List ℕ)
    → has_capability (select_from seen requested supported) c
      ≡ (has_capability requested c && has_capability supported c && not (has_capability seen c))
unfolding has_capability select_from
select_from_lem seen [] supported c = refl
select_from_lem seen (d ∷ ds) supported c = ground (
  arith,
  select_from_lem seen ds supported c,
  select_from_lem (d ∷ seen) ds supported c,
  str_eq_sound d c,
  ap (has_capability seen) {x = d} {y = c},
  ap (has_capability supported) {x = d} {y = c},
)

-- Exactly the capabilities that were requested and are supported are selected.
pub select_capabilities_lem :
    (requested supported : List (List ℕ)) (c : List ℕ)
    → has_capability (select_capabilities requested supported) c
      ≡ (has_capability requested c && has_capability supported c)
unfolding select_capabilities has_capability
select_capabilities_lem requested supported c =
    ground (arith, select_from_lem [] requested supported c)

validate_from-select_from :
    (seen requested supported : List (List ℕ))
    → has_capability supported [] ≡ false
    → validate_from seen (select_from seen requested supported) ≡ none
unfolding has_capability select_from validate_from
validate_from-select_from seen [] supported named = refl
validate_from-select_from seen (d ∷ ds) supported named = ground (
  arith,
  validate_from-select_from seen ds supported named,
  validate_from-select_from (d ∷ seen) ds supported named,
  str_eq_sound d [],
  ap (has_capability supported) {x = d} {y = []},
)

check_requested_within :
    (requested selected : List (List ℕ))
    → ((c : List ℕ) → has_capability selected c ≡ true → has_capability requested c ≡ true)
    → check_requested requested selected ≡ none
unfolding check_requested has_capability
check_requested_within requested [] within = refl
check_requested_within requested (d ∷ ds) within = ground (
  arith,
  check_requested_within requested ds (λ c h. within c (ground arith)),
  within d,
  str_eq_refl d,
)

check_requested-select :
    (requested supported : List (List ℕ))
    → check_requested requested (select_capabilities requested supported) ≡ none
check_requested-select requested supported =
    check_requested_within requested (select_capabilities requested supported)
      λ c h. ground (arith, select_capabilities_lem requested supported c)

-- What a peer selects from a request among capabilities that all have a name is non-empty names
-- without duplicates.
pub select_capabilities_valid :
    (requested supported : List (List ℕ))
    → has_capability supported [] ≡ false
    → validate_capabilities (select_capabilities requested supported) ≡ none
unfolding select_capabilities validate_capabilities
select_capabilities_valid requested supported named =
    validate_from-select_from [] requested supported named

-- A mesh acknowledgment that answers a well-formed request with the selection of it, under the
-- identity and scheme that the dialer expects, passes the dialer's check, if both sides have the
-- mesh session capability and the answering side only names that are not empty.
pub mesh_ack_accepted :
    (ack : MeshRegisterAck) (requested supported : List (List ℕ))
    → ack.success ≡ true
    → ack.selected_version ≡ mesh_protocol_version
    → ack.selected_capabilities ≡ select_capabilities requested supported
    → is_mesh_state ack.state ≡ true
    → validate_capabilities requested ≡ none
    → has_capability requested capability_mesh_session_v1 ≡ true
    → has_capability supported capability_mesh_session_v1 ≡ true
    → has_capability supported [] ≡ false
    → validate_mesh_register_ack ack ack.server_id ack.role ack.selected_auth_scheme requested
      ≡ none
unfolding validate_mesh_register_ack validate_mesh_registration
mesh_ack_accepted ack requested supported success version selected state valid asked has named =
    let session : has_capability ack.selected_capabilities capability_mesh_session_v1 ≡ true =
      ap (λ (cs : List (List ℕ)). has_capability cs capability_mesh_session_v1) selected
      ∙ ground (arith, select_capabilities_lem requested supported capability_mesh_session_v1) in
    let distinct : validate_capabilities ack.selected_capabilities ≡ none =
      ap validate_capabilities selected ∙ select_capabilities_valid requested supported named in
    let within : check_requested requested ack.selected_capabilities ≡ none =
      ap (check_requested requested) selected ∙ check_requested-select requested supported in
    let same_version : str_eq ack.selected_version mesh_protocol_version ≡ true =
      ap (λ (v : List ℕ). str_eq v mesh_protocol_version) version
      ∙ str_eq_refl mesh_protocol_version in
    ground
      (arith, str_eq_refl ack.server_id, str_eq_refl ack.role, str_eq_refl ack.selected_auth_scheme)

check_requested_sound :
    (requested selected : List (List ℕ)) (c : List ℕ)
    → check_requested requested selected ≡ none
    → has_capability selected c ≡ true
    → has_capability requested c ≡ true
unfolding check_requested has_capability
check_requested_sound requested [] c e h = cc
check_requested_sound requested (d ∷ ds) c e h = ground (
  arith,
  check_requested_sound requested ds c,
  str_eq_sound d c,
  ap (has_capability requested) {x = d} {y = c},
)

-- Names that are not empty, none of which occurs twice.
abbrev pub AreDistinct : List (List ℕ) → Type 0
AreDistinct capabilities =
    (count_by (λ c. str_eq c []) capabilities ≡ 0)
    × ((name : List ℕ) → count_by (λ c. str_eq c name) capabilities ≤ 1)

-- A name that was seen does not come again.
validate_from-seen :
    (seen cs : List (List ℕ)) (name : List ℕ)
    → validate_from seen cs ≡ none
    → has_capability seen name ≡ true
    → count_by (λ c. str_eq c name) cs ≡ 0
unfolding validate_from has_capability count_by
validate_from-seen seen [] name e h = refl
validate_from-seen seen (d ∷ ds) name e h = ground (
  arith,
  validate_from-seen (d ∷ seen) ds name,
  str_eq_sound d name,
  ap (has_capability seen) {x = d} {y = name},
)

validate_from-AreDistinct :
    (seen cs : List (List ℕ)) → validate_from seen cs ≡ none → AreDistinct cs
unfolding validate_from has_capability count_by
validate_from-AreDistinct seen [] e = (refl, λ name. omega arith)
validate_from-AreDistinct seen (d ∷ ds) e =
    let (named, once) = validate_from-AreDistinct (d ∷ seen) ds (ground arith) in
    (ground arith, λ name. ground (arith, once name, validate_from-seen (d ∷ seen) ds name))

validate_capabilities-AreDistinct :
    (cs : List (List ℕ)) → validate_capabilities cs ≡ none → AreDistinct cs
unfolding validate_capabilities
validate_capabilities-AreDistinct cs e = validate_from-AreDistinct [] cs e

-- A mesh acknowledgment passes only if it reports success, under exactly the expected server, role
-- and scheme, at the mesh version and in one of its two states, with capabilities that are not empty
-- and occur once, as those requested are, all of them requested and the mesh session among them.
pub mesh_ack_sound :
    (ack : MeshRegisterAck) (server_id role scheme : List ℕ) (requested : List (List ℕ))
    → validate_mesh_register_ack ack server_id role scheme requested ≡ none
    → (ack.success ≡ true)
      × (ack.server_id ≡ server_id)
      × (ack.role ≡ role)
      × (ack.selected_auth_scheme ≡ scheme)
      × (ack.selected_version ≡ mesh_protocol_version)
      × (is_mesh_state ack.state ≡ true)
      × AreDistinct ack.selected_capabilities
      × AreDistinct requested
      × (has_capability ack.selected_capabilities capability_mesh_session_v1 ≡ true)
      × ((c : List ℕ)
          → has_capability ack.selected_capabilities c ≡ true
          → has_capability requested c ≡ true)
unfolding validate_mesh_register_ack validate_mesh_registration
mesh_ack_sound ack server_id role scheme requested e = (
  ground arith,
  str_eq_sound ack.server_id server_id (ground arith),
  str_eq_sound ack.role role (ground arith),
  str_eq_sound ack.selected_auth_scheme scheme (ground arith),
  str_eq_sound ack.selected_version mesh_protocol_version (ground arith),
  ground arith,
  validate_capabilities-AreDistinct ack.selected_capabilities (ground arith),
  validate_capabilities-AreDistinct requested (ground arith),
  ground arith,
  λ c h. check_requested_sound requested ack.selected_capabilities c (ground arith) h,
)
