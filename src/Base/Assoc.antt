-- ===== src/Base/Assoc.antt =====
-- Go maps as association lists, over keys with a Boolean equality.
use Prim.Native.Nat.{ℕ, suc, ◌+◌, ◌≤◌}
use mathlib.Core.Path.{◌≡◌, refl, subst, ◌∙◌}
use mathlib.Core.Bool.{Bool, true, false}
use mathlib.Core.List.{List, [], ◌∷◌}
use mathlib.Core.Logic.{inl, inr}
use mathlib.Core.Option.{Option, none, some}
use native.Mathlib.Omega.{arith}
use qmux.Base.Tests.{
  if◌then◌else◌, ◌==◌, ==_iff, ==_refl, str_eq, str_eq_sound, str_eq_refl, Bool-cases,
}
use qmux.Base.Lists.{length}

pub record Eq (K : Type 0) : Type 0 where
  pub beq : K → K → Bool
  pub beq_sound : (a b : K) → beq a b ≡ true → a ≡ b
  pub beq_refl : (a : K) → beq a a ≡ true

instance abbrev pub nat_eq : Eq ℕ
nat_eq = record { beq = ◌==◌; beq_sound = λ a b. (==_iff a b).0; beq_refl = ==_refl }

instance abbrev pub str_Eq : Eq (List ℕ)
str_Eq = record { beq = str_eq; beq_sound = str_eq_sound; beq_refl = str_eq_refl }

module _ {K V : Type 0} where
  unfoldable pub sum_by : (V → ℕ) → List (K × V) → ℕ
  sum_by f [] = 0
  sum_by f ((j, v) ∷ m) = f v + sum_by f m

  abbrev pub AllValues : (V → Type 0) → List (K × V) → Type 0
  AllValues P [] = Unit
  AllValues P ((j, v) ∷ m) = P v × AllValues P m

module _ {K V : Type 0} ⦃e : Eq K⦄ where
  unfoldable pub lookup : K → List (K × V) → Option V
  lookup k [] = none
  lookup k ((j, v) ∷ m) = if e.beq j k then some v else lookup k m

  -- `m[k] = v`: a new key goes to the end.
  unfoldable pub insert : K → V → List (K × V) → List (K × V)
  insert k v [] = (k, v) ∷ []
  insert k v ((j, w) ∷ m) = if e.beq j k then (k, v) ∷ m else (j, w) ∷ insert k v m

  -- `delete(m, k)`.
  unfoldable pub erase : K → List (K × V) → List (K × V)
  erase k [] = []
  erase k ((j, w) ∷ m) = if e.beq j k then m else (j, w) ∷ erase k m

  -- No key stands twice.
  abbrev pub Uniq : List (K × V) → Type 0
  Uniq [] = Unit
  Uniq ((j, v) ∷ m) = (lookup j m ≡ none) × Uniq m

module _ {K V : Type 0} ⦃e : Eq K⦄ where
  pub lookup-insert :
      (k j : K) (v : V) (m : List (K × V))
      → lookup j (insert k v m) ≡ (if e.beq k j then some v else lookup j m)
  unfolding lookup insert
  lookup-insert k j v [] = refl
  lookup-insert k j v ((i, w) ∷ m) =
      ground (arith, e.beq_sound i k, e.beq_sound k j, lookup-insert k j v m)

  pub lookup-insert_self : (k : K) (v : V) (m : List (K × V)) → lookup k (insert k v m) ≡ some v
  lookup-insert_self k v m = ground (arith, lookup-insert k k v m, e.beq_refl k)

  pub lookup-insert_ne :
      (k j : K) (v : V) (m : List (K × V))
      → e.beq k j ≡ false
      → lookup j (insert k v m) ≡ lookup j m
  lookup-insert_ne k j v m h = ground (arith, lookup-insert k j v m)

  pub lookup-erase_ne :
      (k j : K) (m : List (K × V)) → e.beq k j ≡ false → lookup j (erase k m) ≡ lookup j m
  unfolding lookup erase
  lookup-erase_ne k j [] h = refl
  lookup-erase_ne k j ((i, w) ∷ m) h = ground (arith, e.beq_sound i k, lookup-erase_ne k j m h)

  pub lookup-erase_self : (k : K) (m : List (K × V)) → Uniq m → lookup k (erase k m) ≡ none
  unfolding lookup erase
  lookup-erase_self k [] u = refl
  lookup-erase_self k ((i, w) ∷ m) u = ground (arith, e.beq_sound i k, lookup-erase_self k m u.1)

  pub length-insert :
      (k : K) (v : V) (m : List (K × V))
      → length (insert k v m) ≡ elim (lookup k m) [ none ↦ suc (length m) | some w ↦ length m ]
  unfolding lookup insert
  length-insert k v [] = refl
  length-insert k v ((i, w) ∷ m) = ground (arith, length-insert k v m)

  pub length-erase :
      (k : K) (v : V) (m : List (K × V)) → lookup k m ≡ some v → suc (length (erase k m)) ≡ length m
  unfolding lookup erase
  length-erase k v [] h = cc
  length-erase k v ((i, w) ∷ m) h = ground (arith, length-erase k v m)

  pub sum_by-insert_new :
      (f : V → ℕ) (k : K) (v : V) (m : List (K × V))
      → lookup k m ≡ none
      → sum_by f (insert k v m) ≡ f v + sum_by f m
  unfolding lookup insert sum_by
  sum_by-insert_new f k v [] h = refl
  sum_by-insert_new f k v ((i, w) ∷ m) h = ground (arith, sum_by-insert_new f k v m)

  pub sum_by-insert_old :
      (f : V → ℕ) (k : K) (v w : V) (m : List (K × V))
      → lookup k m ≡ some w
      → f w + sum_by f (insert k v m) ≡ f v + sum_by f m
  unfolding lookup insert sum_by
  sum_by-insert_old f k v w [] h = cc
  sum_by-insert_old f k v w ((i, x) ∷ m) h = ground (arith, sum_by-insert_old f k v w m)

  pub sum_by-erase :
      (f : V → ℕ) (k : K) (v : V) (m : List (K × V))
      → lookup k m ≡ some v
      → f v + sum_by f (erase k m) ≡ sum_by f m
  unfolding lookup erase sum_by
  sum_by-erase f k v [] h = cc
  sum_by-erase f k v ((i, w) ∷ m) h = ground (arith, sum_by-erase f k v m)

  pub sum_by-erase_le : (f : V → ℕ) (k : K) (m : List (K × V)) → sum_by f (erase k m) ≤ sum_by f m
  unfolding erase sum_by
  sum_by-erase_le f k [] = omega arith
  sum_by-erase_le f k ((i, w) ∷ m) = ground (arith, sum_by-erase_le f k m)

  pub sum_by-insert_le :
      (f : V → ℕ) (k : K) (v : V) (m : List (K × V)) → sum_by f (insert k v m) ≤ f v + sum_by f m
  unfolding insert sum_by
  sum_by-insert_le f k v [] = omega arith
  sum_by-insert_le f k v ((i, w) ∷ m) = ground (arith, sum_by-insert_le f k v m)

  pub lookup-AllValues :
      (P : V → Type 0) (k : K) (v : V) (m : List (K × V))
      → AllValues P m
      → lookup k m ≡ some v
      → P v
  unfolding lookup
  lookup-AllValues P k v [] h p = cc
  lookup-AllValues P k v ((i, w) ∷ m) h p = elim (Bool-cases (e.beq i k)) [
    | inl hit ↦ subst P (cc (rw hit at p)) h.0
    | inr miss ↦ lookup-AllValues P k v m h.1 (rw miss at p)
  ]

  pub insert-AllValues :
      (P : V → Type 0) (k : K) (v : V) (m : List (K × V))
      → P v
      → AllValues P m
      → AllValues P (insert k v m)
  unfolding insert
  insert-AllValues P k v [] p h = (p, tt)
  insert-AllValues P k v ((i, w) ∷ m) p h = elim (Bool-cases (e.beq i k)) [
    | inl hit ↦ rw hit (p, h.1)
    | inr miss ↦ rw miss (h.0, insert-AllValues P k v m p h.1)
  ]

  pub erase-AllValues :
      (P : V → Type 0) (k : K) (m : List (K × V)) → AllValues P m → AllValues P (erase k m)
  unfolding erase
  erase-AllValues P k [] h = tt
  erase-AllValues P k ((i, w) ∷ m) h = elim (Bool-cases (e.beq i k)) [
    | inl hit ↦ rw hit h.1
    | inr miss ↦ rw miss (h.0, erase-AllValues P k m h.1)
  ]

module _ {K V : Type 0} ⦃e : Eq K⦄ where
  pub lookup-erase :
      (k j : K) (m : List (K × V))
      → Uniq m
      → lookup j (erase k m) ≡ (if e.beq k j then none else lookup j m)
  unfolding lookup erase
  lookup-erase k j [] u = ground arith
  lookup-erase k j ((i, w) ∷ m) u =
      ground (arith, e.beq_sound i k, e.beq_sound k j, e.beq_refl j, lookup-erase k j m u.1)

  pub insert-Uniq : (k : K) (v : V) (m : List (K × V)) → Uniq m → Uniq (insert k v m)
  unfolding lookup insert
  insert-Uniq k v [] u = (refl, tt)
  insert-Uniq k v ((i, w) ∷ m) u = elim (Bool-cases (e.beq i k)) [
    | inl hit ↦ rw hit (subst (λ j. lookup j m ≡ none) (e.beq_sound i k hit) u.0, u.1)
    | inr miss ↦ rw miss (lookup-insert_ne k i v m (beq-comm i k miss) ∙ u.0, insert-Uniq k v m u.1)
  ]
    where
      beq-comm : (a b : K) → e.beq a b ≡ false → e.beq b a ≡ false
      beq-comm a b h = ground (arith, e.beq_sound b a, e.beq_refl a)

  pub erase-Uniq : (k : K) (m : List (K × V)) → Uniq m → Uniq (erase k m)
  unfolding lookup erase
  erase-Uniq k [] u = tt
  erase-Uniq k ((i, w) ∷ m) u = elim (Bool-cases (e.beq i k)) [
    | inl hit ↦ rw hit u.1
    | inr miss ↦ rw miss (ground (arith, lookup-erase k i m u.1, u.0), erase-Uniq k m u.1)
  ]

  pub length-erase_le : (k : K) (m : List (K × V)) → length (erase k m) ≤ length m
  unfolding erase
  length-erase_le k [] = omega arith
  length-erase_le k ((i, w) ∷ m) = ground (arith, length-erase_le k m)

  pub length-insert_le : (k : K) (v : V) (m : List (K × V)) → length (insert k v m) ≤ suc (length m)
  unfolding insert
  length-insert_le k v [] = omega arith
  length-insert_le k v ((i, w) ∷ m) = ground (arith, length-insert_le k v m)
