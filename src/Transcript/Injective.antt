-- ===== src/Transcript/Injective.antt =====
-- A transcript is determined by its canonical bytes, and the two kinds never share them.
use qmux.Base.{
  ℕ, ◌≡◌, ◌≢◌, refl, sym, ap, ◌∙◌, ◌%◌, ◌^◌, List, [], ◌∷◌, ◌++◌, length, take, drop, take-append,
  arith, inl, inr,
}
use qmux.Base.Bytes.{IsU32, put_u32, get_u32, get_u32-put_u32}
use qmux.Transcript.{
  ok, Transcript, MeshTranscript, write_string, write_strings, canonical, transcript_size,
  marshal_token_transcript, marshal_transcript, marshal_mesh_transcript, transcript_prefix,
  mesh_prefix, mesh_suffix,
}
use qmux.Transcript.Canonical.{AreEncodable, Result-cases, transcript_size_lem}

drop-append : (xs ys : List ℕ) → drop (length xs) (xs ++ ys) ≡ ys
drop-append [] ys = refl
drop-append (x ∷ xs) ys = drop-append xs ys

pub append_split :
    (xs ys r s : List ℕ) → length xs ≡ length ys → xs ++ r ≡ ys ++ s → (xs ≡ ys) × (r ≡ s)
append_split xs ys r s same e = (
  sym (take-append xs r)
      ∙ ap (take (length xs)) e
      ∙ ap (λ (n : ℕ). take n (ys ++ s)) same
      ∙ take-append ys s,
  sym (drop-append xs r)
      ∙ ap (drop (length xs)) e
      ∙ ap (λ (n : ℕ). drop n (ys ++ s)) same
      ∙ drop-append ys s,
)

count_split :
    (m n : ℕ) (r s : List ℕ)
    → IsU32 m
    → IsU32 n
    → put_u32 (m % 2 ^ 32) ++ r ≡ put_u32 (n % 2 ^ 32) ++ s
    → (m ≡ n) × (r ≡ s)
count_split m n r s hm hn e = (
  omega (
    arith,
    sym (get_u32-put_u32 (m % 2 ^ 32) r (omega arith))
        ∙ ap get_u32 e
        ∙ get_u32-put_u32 (n % 2 ^ 32) s (omega arith),
  ),
  ap (drop 4) e,
)

string_split :
    (x y r s : List ℕ)
    → IsU32 (length x)
    → IsU32 (length y)
    → write_string x ++ r ≡ write_string y ++ s
    → (x ≡ y) × (r ≡ s)
string_split x y r s hx hy e =
    let (same, rest) = count_split (length x) (length y) (x ++ r) (y ++ s) hx hy e in
    append_split x y r s same rest

append_assoc : (a b c : List ℕ) → (a ++ b) ++ c ≡ a ++ (b ++ c)
append_assoc [] b c = refl
append_assoc (x ∷ a) b c = ap (λ (l : List ℕ). x ∷ l) (append_assoc a b c)

-- Equally many strings are read off the front of the bytes in one way.
strings_split :
    (xs ys : List (List ℕ)) (r s : List ℕ)
    → length xs ≡ length ys
    → AreEncodable xs
    → AreEncodable ys
    → write_strings xs ++ r ≡ write_strings ys ++ s
    → (xs ≡ ys) × (r ≡ s)
unfolding write_strings
strings_split [] [] r s same hx hy e = (refl, e)
strings_split [] (y ∷ ys) r s same hx hy e = ground arith
strings_split (x ∷ xs) [] r s same hx hy e = ground arith
strings_split (x ∷ xs) (y ∷ ys) r s same (hx, hxs) (hy, hys) e =
    let (head, tail) = string_split x y (write_strings xs ++ r) (write_strings ys ++ s) hx hy (
      sym (append_assoc (write_string x) (write_strings xs) r)
      ∙ e
      ∙ append_assoc (write_string y) (write_strings ys) s) in
    let (rest, last) = strings_split xs ys r s (omega arith) hxs hys tail in (cc (head, rest), last)

marshal_ok :
    (prefix capabilities suffix : List (List ℕ)) (bytes : List ℕ)
    → marshal_token_transcript prefix capabilities suffix ≡ ok bytes
    → AreEncodable prefix
      × AreEncodable capabilities
      × AreEncodable suffix
      × IsU32 (length capabilities)
      × (bytes ≡ canonical prefix capabilities suffix)
unfolding marshal_token_transcript
marshal_ok prefix capabilities suffix bytes e =
    elim (Result-cases (transcript_size prefix capabilities suffix)) [
      | inl (x, is) ↦ ground arith
      | inr (total, is) ↦
          let (a, b, c, n, whole) = transcript_size_lem prefix capabilities suffix total is in
          (a, b, c, n, ground arith)
    ]

canonical_split :
    (p q cs ds u v : List (List ℕ)) (bytes : List ℕ)
    → length p ≡ length q
    → length u ≡ length v
    → marshal_token_transcript p cs u ≡ ok bytes
    → marshal_token_transcript q ds v ≡ ok bytes
    → (p ≡ q) × (cs ≡ ds) × (u ≡ v)
canonical_split p q cs ds u v bytes np nu e f =
    let (ep, ecs, eu, n, eq) = marshal_ok p cs u bytes e in
    let (eq', eds, ev, m, eq2) = marshal_ok q ds v bytes f in
    let (prefixes, counted) = strings_split p q _ _ np ep eq' (sym eq ∙ eq2) in
    let (counts, rest) = count_split (length cs) (length ds) _ _ n m counted in
    let (caps, last) = strings_split cs ds _ _ counts ecs eds rest in
    let (suffixes, none_left) =
      strings_split u v [] [] nu eu ev (ap (λ (l : List ℕ). l ++ []) last) in
    (prefixes, caps, suffixes)

-- Two transcripts with the same canonical bytes are the same in client, version and capabilities,
-- the order of these included.
pub transcript_injective :
    (t u : Transcript) (bytes : List ℕ)
    → marshal_transcript t ≡ ok bytes
    → marshal_transcript u ≡ ok bytes
    → (t.client_id ≡ u.client_id) × (t.version ≡ u.version) × (t.capabilities ≡ u.capabilities)
unfolding marshal_transcript
transcript_injective t u bytes e f =
    let (prefixes, caps, suffixes) =
      canonical_split (transcript_prefix t) (transcript_prefix u) t.capabilities u.capabilities []
        [] bytes refl refl e f in
    (cc prefixes, cc prefixes, caps)

-- Two mesh transcripts with the same canonical bytes are the same in every field.
pub mesh_transcript_injective :
    (t u : MeshTranscript) (bytes : List ℕ)
    → marshal_mesh_transcript t ≡ ok bytes
    → marshal_mesh_transcript u ≡ ok bytes
    → (t.version ≡ u.version)
      × (t.capabilities ≡ u.capabilities)
      × (t.role ≡ u.role)
      × (t.target_server_id ≡ u.target_server_id)
      × (t.peer_server_id ≡ u.peer_server_id)
      × (t.instance_id ≡ u.instance_id)
      × (t.group_id ≡ u.group_id)
unfolding marshal_mesh_transcript
mesh_transcript_injective t u bytes e f =
    let (prefixes, caps, suffixes) =
      canonical_split (mesh_prefix t) (mesh_prefix u) t.capabilities u.capabilities (mesh_suffix t)
        (mesh_suffix u) bytes refl refl e f in
    (cc prefixes, caps, cc suffixes, cc suffixes, cc suffixes, cc suffixes, cc suffixes)

-- No ordinary transcript has the canonical bytes of a mesh transcript.
pub transcripts_disjoint :
    (t : Transcript) (u : MeshTranscript) (bytes : List ℕ)
    → marshal_transcript t ≡ ok bytes
    → marshal_mesh_transcript u ≢ ok bytes
unfolding marshal_transcript marshal_mesh_transcript write_strings
transcripts_disjoint t u bytes e f =
    let (_, _, _, _, eq) = marshal_ok (transcript_prefix t) t.capabilities [] bytes e in
    let (_, _, _, _, eq2) = marshal_ok (mesh_prefix u) u.capabilities (mesh_suffix u) bytes f in
    let lengths : 31 ≡ 36 = ap get_u32 (sym eq ∙ eq2) in omega (arith, lengths)
