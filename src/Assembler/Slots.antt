-- ===== src/Assembler/Slots.antt =====
-- The slots of a fragment group, filled from a list of pieces.
use qmux.Base.{
  ℕ, zero, suc, ◌≡◌, ◌≢◌, refl, ap, ◌≤◌, ◌<◌, Option, none, some, List, [], ◌∷◌, length, get_or,
  get_elem?, set, replicate, concat, arith,
}
use qmux.Assembler.{join_pieces}

pub filled : List (Option (List ℕ)) → ℕ
filled [] = 0
filled (none ∷ slots) = filled slots
filled (some piece ∷ slots) = suc (filled slots)

-- Each slot is empty or holds its piece.
abbrev pub Partial : List (Option (List ℕ)) → List (List ℕ) → Type 0
Partial [] [] = Unit
Partial (none ∷ slots) (p ∷ pieces) = Partial slots pieces
Partial (some x ∷ slots) (p ∷ pieces) = (x ≡ p) × Partial slots pieces
Partial _ _ = ⊥

pub replicate-Partial : (pieces : List (List ℕ)) → Partial (replicate (length pieces) none) pieces
replicate-Partial [] = tt
replicate-Partial (p ∷ pieces) = replicate-Partial pieces

pub filled-replicate : (n : ℕ) → filled (replicate n none) ≡ 0
unfolding filled
filled-replicate zero = refl
filled-replicate (suc n) = filled-replicate n

pub length-Partial :
    (slots : List (Option (List ℕ))) (pieces : List (List ℕ))
    → Partial slots pieces
    → length slots ≡ length pieces
length-Partial [] [] h = refl
length-Partial [] (p ∷ pieces) h = absurd h
length-Partial (none ∷ slots) [] h = absurd h
length-Partial (some x ∷ slots) [] h = absurd h
length-Partial (none ∷ slots) (p ∷ pieces) h = ap suc (length-Partial slots pieces h)
length-Partial (some x ∷ slots) (p ∷ pieces) h = ap suc (length-Partial slots pieces h.1)

pub set-Partial :
    (slots : List (Option (List ℕ))) (pieces : List (List ℕ)) (i : ℕ) (p : List ℕ)
    → Partial slots pieces
    → get_elem? pieces i ≡ some p
    → Partial (set slots i (some p)) pieces
set-Partial [] [] i p h e = tt
set-Partial [] (q ∷ pieces) i p h e = absurd h
set-Partial (none ∷ slots) [] i p h e = absurd h
set-Partial (some x ∷ slots) [] i p h e = absurd h
set-Partial (none ∷ slots) (q ∷ pieces) zero p h e = (cc, h)
set-Partial (some x ∷ slots) (q ∷ pieces) zero p h e = (cc, h.1)
set-Partial (none ∷ slots) (q ∷ pieces) (suc i) p h e = set-Partial slots pieces i p h e
set-Partial (some x ∷ slots) (q ∷ pieces) (suc i) p h e = (h.0, set-Partial slots pieces i p h.1 e)

-- A slot that is filled holds its piece, so that storing the piece again changes nothing.
pub set_filled :
    (slots : List (Option (List ℕ))) (pieces : List (List ℕ)) (i : ℕ) (p x : List ℕ)
    → Partial slots pieces
    → get_elem? pieces i ≡ some p
    → get_or slots i none ≡ some x
    → set slots i (some p) ≡ slots
set_filled [] pieces i p x h e f = refl
set_filled (s ∷ slots) [] i p x h e f = cc
set_filled (none ∷ slots) (q ∷ pieces) zero p x h e f = cc
set_filled (some y ∷ slots) (q ∷ pieces) zero p x h e f = let same : p ≡ y = cc (h.0) in rw same
set_filled (none ∷ slots) (q ∷ pieces) (suc i) p x h e f =
    ap (◌∷◌ none) (set_filled slots pieces i p x h e f)
set_filled (some y ∷ slots) (q ∷ pieces) (suc i) p x h e f =
    ap (◌∷◌ (some y)) (set_filled slots pieces i p x h.1 e f)

pub filled-set :
    (slots : List (Option (List ℕ))) (i : ℕ) (p : List ℕ)
    → i < length slots
    → get_or slots i none ≡ none
    → filled (set slots i (some p)) ≡ suc (filled slots)
unfolding filled
filled-set [] i p h e = elim h [ ]
filled-set (none ∷ slots) zero p h e = refl
filled-set (some x ∷ slots) zero p h e = cc
filled-set (none ∷ slots) (suc i) p h e = filled-set slots i p (omega arith) e
filled-set (some x ∷ slots) (suc i) p h e = ap suc (filled-set slots i p (omega arith) e)

pub filled-le : (slots : List (Option (List ℕ))) → filled slots ≤ length slots
unfolding filled
filled-le [] = omega arith
filled-le (none ∷ slots) = omega (arith, filled-le slots)
filled-le (some x ∷ slots) = omega (arith, filled-le slots)

-- Full slots join to the concatenation of the pieces.
pub join_full :
    (slots : List (Option (List ℕ))) (pieces : List (List ℕ))
    → Partial slots pieces
    → filled slots ≡ length pieces
    → join_pieces slots ≡ concat pieces
unfolding filled
join_full [] [] h full = refl
join_full [] (p ∷ pieces) h full = absurd h
join_full (none ∷ slots) [] h full = absurd h
join_full (some x ∷ slots) [] h full = absurd h
join_full (none ∷ slots) (p ∷ pieces) h full =
    absurd (omega (arith, filled-le slots, length-Partial slots pieces h))
join_full (some x ∷ slots) (p ∷ pieces) h full = rw (h.0, join_full slots pieces h.1 (omega arith))

-- With every slot filled the count is complete.
pub filled_all :
    (slots : List (Option (List ℕ)))
    → ((i : ℕ) → i < length slots → get_or slots i none ≢ none)
    → filled slots ≡ length slots
unfolding filled
filled_all [] h = refl
filled_all (none ∷ slots) h = absurd (h 0 (omega arith) refl)
filled_all (some x ∷ slots) h = ap suc (filled_all slots (λ i lt. h (suc i) (omega arith)))

pub get_or-set_filled :
    (slots : List (Option (List ℕ))) (i : ℕ) (p : List ℕ)
    → i < length slots
    → get_or (set slots i (some p)) i none ≡ some p
get_or-set_filled [] i p h = elim h [ ]
get_or-set_filled (s ∷ slots) zero p h = refl
get_or-set_filled (s ∷ slots) (suc i) p h = get_or-set_filled slots i p (omega arith)

pub get_or-set_keeps :
    (slots : List (Option (List ℕ))) (i j : ℕ) (p : List ℕ)
    → get_or slots j none ≢ none
    → get_or (set slots i (some p)) j none ≢ none
get_or-set_keeps [] i j p h = h
get_or-set_keeps (s ∷ slots) zero zero p h = λ e. cc
get_or-set_keeps (s ∷ slots) zero (suc j) p h = h
get_or-set_keeps (s ∷ slots) (suc i) zero p h = h
get_or-set_keeps (s ∷ slots) (suc i) (suc j) p h = get_or-set_keeps slots i j p h

pub get_or-replicate : (n i : ℕ) → get_or (replicate {A = Option (List ℕ)} n none) i none ≡ none
get_or-replicate zero i = refl
get_or-replicate (suc n) zero = refl
get_or-replicate (suc n) (suc i) = get_or-replicate n i
