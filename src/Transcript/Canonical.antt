-- ===== src/Transcript/Canonical.antt =====
-- What the size checks of a transcript establish.
use qmux.Base.{
  ℕ, ◌≡◌, refl, ◌+◌, ◌%◌, ◌^◌, List, [], ◌∷◌, ◌++◌, length, length-append, arith, All, inl, inr,
  ◌⊎◌,
}
use qmux.Base.Bytes.{IsU32, put_u32}
use qmux.Transcript.{
  Error, Result, ok, err, add_encoded_length, add_encoded_string_size, add_fields, add_capabilities,
  write_string, write_strings, canonical, transcript_size,
}

-- Every string's length fits its prefix.
abbrev pub AreEncodable : List (List ℕ) → Type 0
AreEncodable = All (λ (s : List ℕ). IsU32 (length s))

add_lem :
    (total sum : ℕ) (value : List ℕ)
    → add_encoded_string_size total value ≡ ok sum
    → IsU32 (length value) × (sum ≡ total + length (write_string value))
unfolding add_encoded_string_size add_encoded_length
add_lem total sum value e = ground arith

pub Result-cases :
    {A : Type 0} (r : Result A) → ((e : Error) × (r ≡ err e)) ⊎ ((a : A) × (r ≡ ok a))
Result-cases (err e) = inl (e, refl)
Result-cases (ok a) = inr (a, refl)

add_fields_lem :
    (total sum : ℕ) (fields : List (List ℕ))
    → add_fields total fields ≡ ok sum
    → AreEncodable fields × (sum ≡ total + length (write_strings fields))
unfolding add_fields write_strings
add_fields_lem total sum [] e = (tt, ground arith)
add_fields_lem total sum (f ∷ fs) e = elim (Result-cases (add_encoded_string_size total f)) [
  | inl (x, is) ↦ ground arith
  | inr (next, is) ↦
      let (small, here) = add_lem total next f is in
      let (rest, later) = add_fields_lem next sum fs (ground arith) in
      ((small, rest), omega (arith, here, later, length-append (write_string f) (write_strings fs)))
]

add_capabilities_lem :
    (seen : List (List ℕ)) (total sum : ℕ) (cs : List (List ℕ))
    → add_capabilities seen total cs ≡ ok sum
    → AreEncodable cs × (sum ≡ total + length (write_strings cs))
unfolding add_capabilities write_strings
add_capabilities_lem seen total sum [] e = (tt, ground arith)
add_capabilities_lem seen total sum (c ∷ cs) e =
    elim (Result-cases (add_encoded_string_size total c)) [
      | inl (x, is) ↦ ground arith
      | inr (next, is) ↦
          let (small, here) = add_lem total next c is in
          let (rest, later) = add_capabilities_lem (c ∷ seen) next sum cs (ground arith) in
          (
            (small, rest),
            omega (arith, here, later, length-append (write_string c) (write_strings cs)),
          )
    ]

-- A transcript that passes the checks has fields whose lengths fit their prefixes, no more
-- capabilities than the count can say, and exactly the size that the buffer is grown to.
pub transcript_size_lem :
    (prefix capabilities suffix : List (List ℕ)) (total : ℕ)
    → transcript_size prefix capabilities suffix ≡ ok total
    → AreEncodable prefix
      × AreEncodable capabilities
      × AreEncodable suffix
      × IsU32 (length capabilities)
      × (total ≡ length (canonical prefix capabilities suffix))
unfolding transcript_size
transcript_size_lem prefix capabilities suffix total e = elim (Result-cases (add_fields 4 prefix)) [
  | inl (x, is) ↦ ground arith
  | inr (n, is) ↦ elim (Result-cases (add_fields n suffix)) [
    | inl (x, js) ↦ ground arith
    | inr (k, js) ↦
        let (a, before) = add_fields_lem 4 n prefix is in
        let (c, after) = add_fields_lem n k suffix js in
        let (b, between) = add_capabilities_lem [] k total capabilities (ground arith) in
        (
          a,
          b,
          c,
          ground arith,
          omega (
            arith,
            before,
            after,
            between,
            length-append (write_strings prefix) (
                put_u32 (length capabilities % 2 ^ 32)
                ++ (write_strings capabilities ++ write_strings suffix)),
            length-append (write_strings capabilities) (write_strings suffix),
          ),
        )
  ]
]
