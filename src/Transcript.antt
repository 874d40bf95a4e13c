-- ===== src/Transcript.antt =====
-- The canonical transcripts that token proofs sign, of auth/token/token.go. HMAC, the TLS exporter
-- and the state of the TLS connection are parameters.
use qmux.Base.{
  ℕ, ◌+◌, ◌-◌, ◌%◌, ◌^◌, Bool, true, false, not, Option, none, some, List, [], ◌∷◌, ◌++◌, ltb, leb,
  ◌==◌, if◌then◌else◌, length, str_eq,
}
use qmux.Base.Bytes.{codes, put_u32}
use qmux.Message.Negotiation.{has_capability}
pub mod Canonical
pub mod Injective
pub mod Proofs
mod Examples

pub data Error : Type 0 where
  secret_too_short handshake_incomplete not_tls13 export_failed : Error
  field_too_large transcript_too_large too_many_capabilities duplicate_capability : Error
  invalid_proof_size invalid_proof : Error

pub data Result {ℓ} (A : Type ℓ) : Type ℓ where
  ok : A → Result A
  err : Error → Result A

pub record Transcript : Type 0 where
  pub client_id : List ℕ
  pub version : List ℕ
  pub capabilities : List (List ℕ)

pub record MeshTranscript : Type 0 where
  pub version : List ℕ
  pub capabilities : List (List ℕ)
  pub role : List ℕ
  pub target_server_id : List ℕ
  pub peer_server_id : List ℕ
  pub instance_id : List ℕ
  pub group_id : List ℕ

abbrev pub min_secret_size : ℕ
min_secret_size = 16

abbrev pub proof_size : ℕ
proof_size = 64

abbrev pub scheme : List ℕ
scheme = codes "qmux-token-ekm-hmac-sha512-v1"

abbrev pub mesh_scheme : List ℕ
mesh_scheme = codes "qmux-mesh-token-ekm-hmac-sha512-v1"

abbrev pub exporter_length : ℕ
exporter_length = 32

abbrev pub exporter_label : List ℕ
exporter_label = codes "EXPERIMENTAL-QMux-token-auth-v1"

abbrev pub mesh_exporter_label : List ℕ
mesh_exporter_label = codes "EXPERIMENTAL-QMux-mesh-token-auth-v1"

abbrev pub proof_domain : List ℕ
proof_domain = codes "QMux token authentication proof"

abbrev pub mesh_proof_domain : List ℕ
mesh_proof_domain = codes "QMux mesh token authentication proof"

abbrev pub max_u32 : ℕ
max_u32 = 2 ^ 32 - 1

abbrev pub max_u64 : ℕ
max_u64 = 2 ^ 64 - 1

-- `maxInt`, on a 64-bit platform.
abbrev pub max_int : ℕ
max_int = 2 ^ 63 - 1

-- `addEncodedLength`.
unfoldable pub add_encoded_length : ℕ → ℕ → Result ℕ
add_encoded_length total len =
    if ltb max_u32 len
    then err field_too_large
    else if ltb (max_u64 - (4 + len)) total
    then err transcript_too_large
    else ok (total + (4 + len))

-- `addEncodedStringSize`.
unfoldable pub add_encoded_string_size : ℕ → List ℕ → Result ℕ
unfolding add_encoded_length
add_encoded_string_size total value = add_encoded_length total (length value)

-- The loop that adds up fields.
unfoldable pub add_fields : ℕ → List (List ℕ) → Result ℕ
unfolding add_encoded_string_size
add_fields total [] = ok total
add_fields total (field ∷ fields) = elim (add_encoded_string_size total field) [
  | err e ↦ err e
  | ok sum ↦ add_fields sum fields
]

-- The loop over the capabilities; `seen` are the keys of its map.
unfoldable pub add_capabilities : List (List ℕ) → ℕ → List (List ℕ) → Result ℕ
unfolding add_encoded_string_size
add_capabilities seen total [] = ok total
add_capabilities seen total (c ∷ cs) = elim (has_capability seen c) [
  | true ↦ err duplicate_capability
  | false ↦ elim (add_encoded_string_size total c) [
    | err e ↦ err e
    | ok sum ↦ add_capabilities (c ∷ seen) sum cs
  ]
]

-- `writeString`.
abbrev pub write_string : List ℕ → List ℕ
write_string value = put_u32 (length value % 2 ^ 32) ++ value

unfoldable pub write_strings : List (List ℕ) → List ℕ
write_strings [] = []
write_strings (s ∷ ss) = write_string s ++ write_strings ss

abbrev pub canonical : List (List ℕ) → List (List ℕ) → List (List ℕ) → List ℕ
canonical prefix capabilities suffix =
    write_strings prefix
    ++ (put_u32 (length capabilities % 2 ^ 32)
        ++ (write_strings capabilities ++ write_strings suffix))

abbrev bind : Result ℕ → (ℕ → Result ℕ) → Result ℕ
bind (err e) f = err e
bind (ok n) f = f n

-- The size checks of `marshalTokenTranscript`.
unfoldable pub transcript_size : List (List ℕ) → List (List ℕ) → List (List ℕ) → Result ℕ
unfolding add_fields add_capabilities
transcript_size prefix capabilities suffix =
    bind (bind (add_fields 4 prefix) (λ total. add_fields total suffix)) λ total.
      if ltb max_u32 (length capabilities)
      then err too_many_capabilities
      else add_capabilities [] total capabilities

-- `marshalTokenTranscript`.
unfoldable pub marshal_token_transcript :
    List (List ℕ) → List (List ℕ) → List (List ℕ) → Result (List ℕ)
unfolding transcript_size write_strings
marshal_token_transcript prefix capabilities suffix =
    elim (transcript_size prefix capabilities suffix) [
      | err e ↦ err e
      | ok total ↦
          if ltb max_int total
          then err transcript_too_large
          else ok (canonical prefix capabilities suffix)
    ]

abbrev pub transcript_prefix : Transcript → List (List ℕ)
transcript_prefix t = proof_domain ∷ scheme ∷ t.client_id ∷ t.version ∷ []

-- `marshalTranscript`.
unfoldable pub marshal_transcript : Transcript → Result (List ℕ)
unfolding marshal_token_transcript
marshal_transcript t = marshal_token_transcript (transcript_prefix t) t.capabilities []

abbrev pub mesh_prefix : MeshTranscript → List (List ℕ)
mesh_prefix t = mesh_proof_domain ∷ mesh_scheme ∷ t.version ∷ []

abbrev pub mesh_suffix : MeshTranscript → List (List ℕ)
mesh_suffix t = t.role ∷ t.target_server_id ∷ t.peer_server_id ∷ t.instance_id ∷ t.group_id ∷ []

-- `marshalMeshTranscript`.
unfoldable pub marshal_mesh_transcript : MeshTranscript → Result (List ℕ)
unfolding marshal_token_transcript
marshal_mesh_transcript t = marshal_token_transcript (mesh_prefix t) t.capabilities (mesh_suffix t)
