-- ===== src/Message/Examples.antt =====
-- The theorems on messages at concrete inputs.
use mathlib.Core.Path.{◌≡◌, refl}
use mathlib.Core.Logic.{◌↔◌}
use qmux.Base.{
  ℕ, ◌≤◌, Bool, true, false, ◌&&◌, Option, none, some, List, [], ◌∷◌, ◌++◌, length, arith,
}
use qmux.Base.Bytes.{codes}
use qmux.Message.Frame.{
  ok, frame, read_message_limited, max_registration_payload_size, read_written, read_exact,
}
use qmux.Message.Negotiation.{
  has_capability, select_capabilities, validate_capabilities, validate_from, MeshRegisterAck,
  validate_mesh_register_ack, mesh_protocol_version, capability_mesh_session_v1,
  mesh_state_accepted, mesh_role_peer, is_mesh_state,
}
use qmux.Message.Selected.{AreDistinct, select_capabilities_lem, mesh_ack_accepted, mesh_ack_sound}
use qmux.Message.Drain
use qmux.Message.Drain.{
  pos, decode_drain_complete, drain_complete, validate_drain_fence, decode_drain_complete_lem,
}

abbrev payload : List ℕ
payload = 123 ∷ 125 ∷ []

read_written_example :
    read_message_limited max_registration_payload_size (frame 5 payload ++ (7 ∷ []))
    ≡ ok (5, payload, 7 ∷ [])
read_written_example =
    read_written max_registration_payload_size 5 payload (7 ∷ []) (omega arith) (omega arith)

read_exact_example :
    (frame 5 payload ++ (7 ∷ []) ≡ frame 5 payload ++ (7 ∷ [])) × (length payload ≤ 4096)
read_exact_example =
    read_exact 4096 (frame 5 payload ++ (7 ∷ [])) 5 payload (7 ∷ []) (omega arith)
      (read_written 4096 5 payload (7 ∷ []) (omega arith) (omega arith))

abbrev asked : List (List ℕ)
asked = capability_mesh_session_v1 ∷ codes "tcp" ∷ []

abbrev offered : List (List ℕ)
offered = codes "udp" ∷ capability_mesh_session_v1 ∷ []

select_capabilities_lem_example :
    has_capability (select_capabilities asked offered) (codes "tcp")
    ≡ (has_capability asked (codes "tcp") && has_capability offered (codes "tcp"))
select_capabilities_lem_example = select_capabilities_lem asked offered (codes "tcp")

offered_named : has_capability offered [] ≡ false
unfolding has_capability qmux.Base.Tests.str_eq
offered_named = refl

offered_mesh : has_capability offered capability_mesh_session_v1 ≡ true
unfolding has_capability qmux.Base.Tests.str_eq
offered_mesh = refl

asked_mesh : has_capability asked capability_mesh_session_v1 ≡ true
unfolding has_capability qmux.Base.Tests.str_eq
asked_mesh = refl

asked_valid : validate_capabilities asked ≡ none
unfolding validate_capabilities validate_from has_capability qmux.Base.Tests.str_eq
asked_valid = refl

state_known : is_mesh_state mesh_state_accepted ≡ true
unfolding qmux.Base.Tests.str_eq
state_known = refl

abbrev ack : MeshRegisterAck
ack = record {
  success = true;
  state = mesh_state_accepted;
  server_id = codes "edge";
  role = mesh_role_peer;
  selected_version = mesh_protocol_version;
  selected_capabilities = select_capabilities asked offered;
  selected_auth_scheme = [];
}

mesh_ack_accepted_example :
    validate_mesh_register_ack ack (codes "edge") mesh_role_peer [] asked ≡ none
mesh_ack_accepted_example =
    mesh_ack_accepted ack asked offered refl refl refl state_known asked_valid asked_mesh
      offered_mesh offered_named

decode_drain_complete_lem_example :
    (decode_drain_complete (drain_complete (pos 5)) ≡ Drain.ok (pos 5))
    ↔ ((drain_complete (pos 5) ≡ drain_complete (pos 5)) × (validate_drain_fence (pos 5) ≡ true))
decode_drain_complete_lem_example = decode_drain_complete_lem (drain_complete (pos 5)) (pos 5)

mesh_ack_sound_example :
    (true ≡ true)
    × (codes "edge" ≡ codes "edge")
    × (mesh_role_peer ≡ mesh_role_peer)
    × (ack.selected_auth_scheme ≡ [])
    × (mesh_protocol_version ≡ mesh_protocol_version)
    × (is_mesh_state ack.state ≡ true)
    × AreDistinct ack.selected_capabilities
    × AreDistinct asked
    × (has_capability ack.selected_capabilities capability_mesh_session_v1 ≡ true)
    × ((c : List ℕ)
        → has_capability ack.selected_capabilities c ≡ true
        → has_capability asked c ≡ true)
mesh_ack_sound_example =
    mesh_ack_sound ack (codes "edge") mesh_role_peer [] asked mesh_ack_accepted_example
