-- ===== src/Message/Negotiation.antt =====
-- The registration messages of protocol/message.go, the capabilities that peers select and the
-- checks of acknowledgments and mesh registrations. Strings are lists of byte values.
use qmux.Base.{
  ℕ, Bool, false, not, ◌&&◌, ◌||◌, Option, none, some, List, [], ◌∷◌, if◌then◌else◌, str_eq,
}
use qmux.Base.Bytes.{codes}

pub data Refusal : Type 0 where
  incompatible_version missing_capability registration_failed : Refusal
  unexpected_auth_scheme unexpected_server_id unexpected_role unexpected_state : Refusal
  empty_capability duplicate_capability unrequested_capability : Refusal
  no_version no_target no_client_identity stray_peer_id no_peer_id stray_client_identity : Refusal
  invalid_role no_server_id : Refusal

abbrev pub protocol_version : List ℕ
protocol_version = codes "2.0"

abbrev pub mesh_protocol_version : List ℕ
mesh_protocol_version = codes "1.0"

abbrev pub capability_udp_wire_v2 : List ℕ
capability_udp_wire_v2 = codes "udp-wire-v2"

abbrev pub capability_mesh_session_v1 : List ℕ
capability_mesh_session_v1 = codes "mesh-session-v1"

abbrev pub mesh_role_client : List ℕ
mesh_role_client = codes "client"

abbrev pub mesh_role_peer : List ℕ
mesh_role_peer = codes "peer"

abbrev pub mesh_state_staged : List ℕ
mesh_state_staged = codes "staged"

abbrev pub mesh_state_accepted : List ℕ
mesh_state_accepted = codes "accepted"

-- `HasCapability`.
unfoldable pub has_capability : List (List ℕ) → List ℕ → Bool
has_capability [] capability = false
has_capability (c ∷ cs) capability = str_eq c capability || has_capability cs capability

-- `ValidateRegistration`; nil is `none`.
unfoldable pub validate_registration : List ℕ → List (List ℕ) → Option Refusal
unfolding has_capability
validate_registration version capabilities =
    if not (str_eq version protocol_version)
    then some incompatible_version
    else if not (has_capability capabilities capability_udp_wire_v2)
    then some missing_capability
    else none

-- The loop of `SelectCapabilities`; `seen` are the keys of its map.
unfoldable pub select_from : List (List ℕ) → List (List ℕ) → List (List ℕ) → List (List ℕ)
select_from seen [] supported = []
select_from seen (c ∷ cs) supported =
    let skipped = select_from seen cs supported in
    let kept = select_from (c ∷ seen) cs supported in
    if has_capability seen c
    then skipped
    else if has_capability supported c
    then c ∷ kept
    else skipped

-- `SelectCapabilities`.
unfoldable pub select_capabilities : List (List ℕ) → List (List ℕ) → List (List ℕ)
unfolding select_from
select_capabilities requested supported = select_from [] requested supported

pub record RegisterAckMsg : Type 0 where
  pub success : Bool
  pub message : List ℕ
  pub server_version : List ℕ
  pub selected_capabilities : List (List ℕ)
  pub selected_auth_scheme : List ℕ

-- `ValidateRegisterAck`.
unfoldable pub validate_register_ack : RegisterAckMsg → Option Refusal
unfolding validate_registration
validate_register_ack ack =
    if not ack.success
    then some registration_failed
    else validate_registration ack.server_version ack.selected_capabilities

-- `ValidateRegisterAckWithAuth`.
unfoldable pub validate_register_ack_with_auth : RegisterAckMsg → List ℕ → Option Refusal
unfolding validate_register_ack
validate_register_ack_with_auth ack expected = elim (validate_register_ack ack) [
  | some e ↦ some e
  | none ↦
      if not (str_eq ack.selected_auth_scheme expected) then some unexpected_auth_scheme else none
]

-- The loop of `validateCapabilities`.
unfoldable pub validate_from : List (List ℕ) → List (List ℕ) → Option Refusal
validate_from seen [] = none
validate_from seen (c ∷ cs) =
    let rest = validate_from (c ∷ seen) cs in
    if str_eq c []
    then some empty_capability
    else if has_capability seen c
    then some duplicate_capability
    else rest

-- `validateCapabilities`.
unfoldable pub validate_capabilities : List (List ℕ) → Option Refusal
unfolding validate_from
validate_capabilities capabilities = validate_from [] capabilities

-- `ValidateMeshRegistration`.
unfoldable pub validate_mesh_registration : List ℕ → List (List ℕ) → Option Refusal
unfolding validate_capabilities has_capability
validate_mesh_registration version capabilities =
    if not (str_eq version mesh_protocol_version)
    then some incompatible_version
    else elim (validate_capabilities capabilities) [
      | some e ↦ some e
      | none ↦
          if not (has_capability capabilities capability_mesh_session_v1)
          then some missing_capability
          else none
    ]

pub record MeshRegister : Type 0 where
  pub version : List ℕ
  pub capabilities : List (List ℕ)
  pub role : List ℕ
  pub target_server_id : List ℕ
  pub peer_server_id : List ℕ
  pub instance_id : List ℕ
  pub group_id : List ℕ

pub record MeshRegisterAck : Type 0 where
  pub success : Bool
  pub state : List ℕ
  pub server_id : List ℕ
  pub role : List ℕ
  pub selected_version : List ℕ
  pub selected_capabilities : List (List ℕ)
  pub selected_auth_scheme : List ℕ

-- The last loop of `ValidateMeshRegisterAck`.
unfoldable pub check_requested : List (List ℕ) → List (List ℕ) → Option Refusal
check_requested requested [] = none
check_requested requested (c ∷ cs) =
    let rest = check_requested requested cs in
    if not (has_capability requested c) then some unrequested_capability else rest

-- The first refusal of two checks.
abbrev pub first_of : Option Refusal → Option Refusal → Option Refusal
first_of (some e) later = some e
first_of none later = later

abbrev pub require : Bool → Refusal → Option Refusal
require b e = if b then none else some e

abbrev pub is_mesh_state : List ℕ → Bool
is_mesh_state state = str_eq state mesh_state_staged || str_eq state mesh_state_accepted

-- `ValidateMeshRegisterAck`.
unfoldable pub validate_mesh_register_ack :
    MeshRegisterAck → List ℕ → List ℕ → List ℕ → List (List ℕ) → Option Refusal
unfolding validate_mesh_registration validate_capabilities check_requested
validate_mesh_register_ack ack server_id role auth_scheme requested =
    first_of (require ack.success registration_failed) (
      first_of (require (str_eq ack.server_id server_id) unexpected_server_id) (
        first_of (require (str_eq ack.role role) unexpected_role) (
          first_of (validate_mesh_registration ack.selected_version ack.selected_capabilities) (
            first_of (require (str_eq ack.selected_auth_scheme auth_scheme) unexpected_auth_scheme)
              (first_of (require (is_mesh_state ack.state) unexpected_state) (
                first_of (validate_capabilities requested)
                  (check_requested requested ack.selected_capabilities)))))))

abbrev is_empty : List ℕ → Bool
is_empty s = str_eq s []

-- The cases of `validateMeshRegisterShape` by role.
abbrev pub check_identity : MeshRegister → Option Refusal
check_identity r =
    if str_eq r.role mesh_role_client
    then (if is_empty r.instance_id || is_empty r.group_id
        then some no_client_identity
        else require (is_empty r.peer_server_id) stray_peer_id)
    else if str_eq r.role mesh_role_peer
    then (if is_empty r.peer_server_id
        then some no_peer_id
        else require (is_empty r.instance_id && is_empty r.group_id) stray_client_identity)
    else some invalid_role

-- `validateMeshRegisterShape`.
unfoldable pub validate_mesh_register_shape : MeshRegister → Option Refusal
unfolding validate_capabilities
validate_mesh_register_shape r = first_of (require (not (is_empty r.version)) no_version) (
    first_of (require (not (is_empty r.target_server_id)) no_target)
      (first_of (validate_capabilities r.capabilities) (check_identity r)))

-- `validateMeshRegisterAckShape`.
unfoldable pub validate_mesh_register_ack_shape : MeshRegisterAck → Option Refusal
unfolding validate_capabilities
validate_mesh_register_ack_shape ack = first_of (validate_capabilities ack.selected_capabilities) (
    if not ack.success
    then none
    else first_of
        (require (not (is_empty ack.server_id) && not (is_empty ack.selected_version)) no_server_id)
        (first_of (require (is_mesh_state ack.state) unexpected_state) (
          require (str_eq ack.role mesh_role_client || str_eq ack.role mesh_role_peer)
            invalid_role)))
