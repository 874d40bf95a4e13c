-- ===== src/Transcript/Examples.antt =====
-- The theorems on transcripts at concrete inputs, with a MAC of 64 zero bytes.
use qmux.Base.{
  ℕ, ◌≡◌, ◌≢◌, ◌≤◌, refl, Bool, true, false, none, some, List, [], ◌∷◌, ◌++◌, length, replicate,
}
use qmux.Base.Bytes.{codes}
use qmux.Transcript.{
  ok, Transcript, MeshTranscript, canonical, marshal_transcript, marshal_mesh_transcript,
  transcript_prefix, mesh_prefix, mesh_suffix, min_secret_size, proof_size, exporter_length,
  exporter_label,
}
use qmux.Transcript.Injective.{
  transcript_injective, mesh_transcript_injective, transcripts_disjoint,
}
use qmux.Transcript.Proofs.{ConnectionState, version_tls13, compute, verify, verify_sound}

abbrev login : Transcript
login = record {
  client_id = codes "home";
  version = codes "2.0";
  capabilities = codes "tcp" ∷ codes "udp" ∷ [];
}

abbrev login_bytes : List ℕ
login_bytes = canonical (transcript_prefix login) login.capabilities []

login_marshals : marshal_transcript login ≡ ok login_bytes
unfolding marshal_transcript qmux.Base.Tests.str_eq qmux.Message.Negotiation.has_capability
login_marshals = refl

transcript_injective_example :
    (login.client_id ≡ login.client_id)
    × (login.version ≡ login.version)
    × (login.capabilities ≡ login.capabilities)
transcript_injective_example =
    transcript_injective login login login_bytes login_marshals login_marshals

abbrev edge : MeshTranscript
edge = record {
  version = codes "1.0";
  capabilities = codes "mesh-session-v1" ∷ [];
  role = codes "peer";
  target_server_id = codes "a";
  peer_server_id = codes "b";
  instance_id = [];
  group_id = [];
}

abbrev edge_bytes : List ℕ
edge_bytes = canonical (mesh_prefix edge) edge.capabilities (mesh_suffix edge)

edge_marshals : marshal_mesh_transcript edge ≡ ok edge_bytes
unfolding marshal_mesh_transcript qmux.Base.Tests.str_eq qmux.Message.Negotiation.has_capability
edge_marshals = refl

mesh_transcript_injective_example :
    (edge.version ≡ edge.version)
    × (edge.capabilities ≡ edge.capabilities)
    × (edge.role ≡ edge.role)
    × (edge.target_server_id ≡ edge.target_server_id)
    × (edge.peer_server_id ≡ edge.peer_server_id)
    × (edge.instance_id ≡ edge.instance_id)
    × (edge.group_id ≡ edge.group_id)
mesh_transcript_injective_example =
    mesh_transcript_injective edge edge edge_bytes edge_marshals edge_marshals

transcripts_disjoint_example : marshal_mesh_transcript edge ≢ ok login_bytes
transcripts_disjoint_example = transcripts_disjoint login edge login_bytes login_marshals

abbrev mac : List ℕ → List ℕ → List ℕ
mac key bytes = replicate 64 (length bytes)

abbrev session : ConnectionState
session = record {
  handshake_complete = true;
  version = version_tls13;
  export_keying_material = λ label context n. some (replicate n 7);
}

abbrev secret : List ℕ
secret = codes "0123456789abcdef"

abbrev proof : List ℕ
proof = mac secret (login_bytes ++ replicate 32 7)

login_verifies : verify mac secret login proof session ≡ none
unfolding verify compute marshal_transcript qmux.Base.Tests.str_eq
    qmux.Message.Negotiation.has_capability
login_verifies = refl

verify_sound_example :
    (length proof ≡ proof_size)
    × ((bytes : List ℕ) × (ekm : List ℕ) × (marshal_transcript login ≡ ok bytes)
        × (session.export_keying_material exporter_label none exporter_length ≡ some ekm)
        × (proof ≡ mac secret (bytes ++ ekm))
        × (session.handshake_complete ≡ true)
        × (session.version ≡ version_tls13)
        × (min_secret_size ≤ length secret))
verify_sound_example = verify_sound mac secret login proof session login_verifies
