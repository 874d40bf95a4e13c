-- ===== src/Transcript/Proofs.antt =====
-- The proofs that registrations carry: `Compute`, `Verify`, `ComputeMesh` and `VerifyMesh` of
-- auth/token/token.go. The HMAC and the connection's exporter are parameters.
use qmux.Base.{
  ℕ, ◌≡◌, ◌≢◌, sym, ap, ◌≤◌, Bool, true, not, Option, none, some, List, ◌++◌, ltb, ◌==◌,
  if◌then◌else◌, length, arith, str_eq, str_eq_sound, inl, inr, Option-cases,
}
use qmux.Transcript.{
  Error, Result, ok, err, Transcript, MeshTranscript, marshal_transcript, marshal_mesh_transcript,
  min_secret_size, proof_size, exporter_length, exporter_label, mesh_exporter_label,
  secret_too_short, handshake_incomplete, not_tls13, export_failed, invalid_proof_size,
  invalid_proof,
}
use qmux.Transcript.Canonical.{Result-cases}

-- What `tls.ConnectionState` tells a proof; the exporter maps a label, a context (nil is `none`) and a
-- length to key material or fails.
pub record ConnectionState : Type 0 where
  pub handshake_complete : Bool
  pub version : ℕ
  pub export_keying_material : List ℕ → Option (List ℕ) → ℕ → Option (List ℕ)

abbrev pub version_tls13 : ℕ
version_tls13 = 772

module _ (mac : List ℕ → List ℕ → List ℕ) where
  -- `computeProof`.
  abbrev pub compute_proof : List ℕ → List ℕ → List ℕ → List ℕ
  compute_proof secret canonical ekm = mac secret (canonical ++ ekm)

  -- The checks on the secret and the connection, the first of which fails before the transcript is
  -- encoded by `Compute` and after it by `ComputeMesh`.
  abbrev pub check_connection : List ℕ → ConnectionState → Option Error
  check_connection secret state =
      if ltb (length secret) min_secret_size
      then some secret_too_short
      else if not state.handshake_complete
      then some handshake_incomplete
      else if not (state.version == version_tls13)
      then some not_tls13
      else none

  abbrev export_proof : List ℕ → List ℕ → List ℕ → ConnectionState → Result (List ℕ)
  export_proof secret canonical label state =
      elim (state.export_keying_material label none exporter_length) [
        | none ↦ err export_failed
        | some ekm ↦ ok (compute_proof secret canonical ekm)
      ]

  abbrev export_marshalled : List ℕ → List ℕ → ConnectionState → Result (List ℕ) → Result (List ℕ)
  export_marshalled secret label state (err e) = err e
  export_marshalled secret label state (ok canonical) = export_proof secret canonical label state

  -- `Compute`.
  unfoldable pub compute : List ℕ → Transcript → ConnectionState → Result (List ℕ)
  compute secret t state = elim (check_connection secret state) [
    | some e ↦ err e
    | none ↦ export_marshalled secret exporter_label state (marshal_transcript t)
  ]

  -- `computeWithExporter`.
  unfoldable pub compute_with_exporter :
      List ℕ → List ℕ → List ℕ → ConnectionState → Result (List ℕ)
  compute_with_exporter secret canonical label state = elim (check_connection secret state) [
    | some e ↦ err e
    | none ↦ export_proof secret canonical label state
  ]

  -- `ComputeMesh`.
  unfoldable pub compute_mesh : List ℕ → MeshTranscript → ConnectionState → Result (List ℕ)
  unfolding compute_with_exporter
  compute_mesh secret t state = elim (marshal_mesh_transcript t) [
    | err e ↦ err e
    | ok canonical ↦ compute_with_exporter secret canonical mesh_exporter_label state
  ]

  abbrev compare_proof : List ℕ → Result (List ℕ) → Option Error
  compare_proof proof (err e) = some e
  compare_proof proof (ok expected) =
      if not (str_eq proof expected) then some invalid_proof else none

  -- `Verify`; nil is `none`.
  unfoldable pub verify : List ℕ → Transcript → List ℕ → ConnectionState → Option Error
  verify secret t proof state =
      if not (length proof == proof_size)
      then some invalid_proof_size
      else compare_proof proof (compute secret t state)

  -- `VerifyMesh`; nil is `none`.
  unfoldable pub verify_mesh : List ℕ → MeshTranscript → List ℕ → ConnectionState → Option Error
  verify_mesh secret t proof state =
      if not (length proof == proof_size)
      then some invalid_proof_size
      else compare_proof proof (compute_mesh secret t state)

  compare_lem : (proof : List ℕ) (r : Result (List ℕ)) → compare_proof proof r ≡ none → r ≡ ok proof
  compare_lem proof (err x) e = ground arith
  compare_lem proof (ok expected) e =
      ap (λ (l : List ℕ). ok l) (sym (str_eq_sound proof expected (ground arith)))

  compute_lem :
      (secret : List ℕ) (t : Transcript) (proof : List ℕ) (state : ConnectionState)
      → compute secret t state ≡ ok proof
      → (canonical : List ℕ) × (ekm : List ℕ) × (marshal_transcript t ≡ ok canonical)
        × (state.export_keying_material exporter_label none exporter_length ≡ some ekm)
        × (proof ≡ mac secret (canonical ++ ekm))
        × (state.handshake_complete ≡ true)
        × (state.version ≡ version_tls13)
        × (min_secret_size ≤ length secret)
  unfolding compute
  compute_lem secret t proof state e = elim (Result-cases (marshal_transcript t)) [
    | inl (x, is) ↦ ground arith
    | inr (canonical, is) ↦
        elim (Option-cases (state.export_keying_material exporter_label none exporter_length)) [
          | inl none_out ↦ ground arith
          | inr (ekm, out) ↦
              (canonical, ekm, is, out, ground arith, ground arith, ground arith, ground arith)
        ]
  ]

  -- An accepted proof is 64 bytes, the MAC of the canonical transcript followed by the key material
  -- that the connection exports under the ordinary label; the connection is TLS 1.3 with a complete
  -- handshake, and the secret has at least 16 bytes.
  pub verify_sound :
      (secret : List ℕ) (t : Transcript) (proof : List ℕ) (state : ConnectionState)
      → verify secret t proof state ≡ none
      → (length proof ≡ proof_size)
        × ((canonical : List ℕ) × (ekm : List ℕ) × (marshal_transcript t ≡ ok canonical)
            × (state.export_keying_material exporter_label none exporter_length ≡ some ekm)
            × (proof ≡ mac secret (canonical ++ ekm))
            × (state.handshake_complete ≡ true)
            × (state.version ≡ version_tls13)
            × (min_secret_size ≤ length secret))
  unfolding verify
  verify_sound secret t proof state e = (
    ground arith,
    compute_lem secret t proof state (compare_lem proof (compute secret t state) (ground arith)),
  )

  -- Two different messages with one MAC under the secret.
  abbrev pub Collision : List ℕ → Type 0
  Collision secret =
      (message : List ℕ) × (other : List ℕ) × (message ≢ other)
      × (mac secret message ≡ mac secret other)
