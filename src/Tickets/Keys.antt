-- ===== src/Tickets/Keys.antt =====
-- Which keys a manager keeps.
use qmux.Base.{
  ℕ, suc, zero, ◌≡◌, refl, sym, ap, ◌∙◌, ◌≤◌, true, false, none, some, List, [], ◌∷◌, leb,
  if◌then◌else◌, length, take, min, length-take, take_all, arith, Bool-cases, inl, inr,
}
use qmux.Tickets.{
  Manager, new_rotate_manager, rotate, start, stop, Event, ticks, starts, stops, cancels, handle,
  run,
}

-- The keys that rotations make during the events, in their order.
unfoldable pub made : Manager → List Event → List (List ℕ)
unfolding handle
made m [] = []
made m (ticks (some key) ∷ es) =
    let rest = made (handle m (ticks (some key))) es in if m.running then key ∷ rest else rest
made m (e ∷ es) = made (handle m e) es

-- All keys, the latest first.
unfoldable pub latest_first : List (List ℕ) → List (List ℕ) → List (List ℕ)
latest_first [] older = older
latest_first (k ∷ ks) older = latest_first ks (k ∷ older)

take-min : (n : ℕ) (xs : List (List ℕ)) → take (min (length xs) n) xs ≡ take n xs
take-min n xs = elim (Bool-cases (leb n (length xs))) [
  | inl within ↦ ap (λ (k : ℕ). take k xs) (ground arith)
  | inr beyond ↦
      ap (λ (k : ℕ). take k xs) {x = min (length xs) n} {y = length xs} (ground arith)
      ∙ take_all (length xs) xs (ground arith)
      ∙ sym (take_all n xs (ground arith))
]

take-take : (n : ℕ) (xs : List (List ℕ)) → take n (take (suc n) xs) ≡ take n xs
take-take zero [] = refl
take-take (suc n) [] = refl
take-take zero (x ∷ xs) = refl
take-take (suc n) (x ∷ xs) = ap (λ (l : List (List ℕ)). x ∷ l) (take-take n xs)

rotate_keys :
    (m : Manager) (key : List ℕ) (older : List (List ℕ))
    → m.keys ≡ take (suc m.overlap) older
    → (rotate m (some key)).keys ≡ take (suc m.overlap) (key ∷ older)
unfolding rotate
rotate_keys m key older e =
    ap (λ (l : List (List ℕ)). key ∷ l)
      (take-min m.overlap m.keys ∙ ap (take m.overlap) e ∙ take-take m.overlap older)

handle_overlap : (m : Manager) (e : Event) → (handle m e).overlap ≡ m.overlap
unfolding handle rotate start stop
handle_overlap m (ticks none) = ground arith
handle_overlap m (ticks (some key)) = ground arith
handle_overlap m starts = ground arith
handle_overlap m stops = ground arith
handle_overlap m cancels = refl

run_from :
    (m : Manager) (es : List Event) (older : List (List ℕ))
    → m.keys ≡ take (suc m.overlap) older
    → (run m es).keys ≡ take (suc m.overlap) (latest_first (made m es) older)
unfolding run made latest_first
run_from m [] older e = e
run_from m (ticks (some key) ∷ es) older e = elim (Bool-cases m.running) [
  | inl on ↦ ground (
    arith,
    run_from (handle m (ticks (some key))) es (key ∷ older),
    rotate_keys m key older e,
    handle_overlap m (ticks (some key)),
  )
  | inr off ↦ ground (arith, run_from (handle m (ticks (some key))) es older)
]
run_from m (ticks none ∷ es) older e =
    ground (arith, run_from (handle m (ticks none)) es older, handle_overlap m (ticks none))
run_from m (starts ∷ es) older e =
    ground (arith, run_from (handle m starts) es older, handle_overlap m starts)
run_from m (stops ∷ es) older e =
    ground (arith, run_from (handle m stops) es older, handle_overlap m stops)
run_from m (cancels ∷ es) older e =
    ground (arith, run_from (handle m cancels) es older, handle_overlap m cancels)

take_nothing : (n : ℕ) → take {A = List ℕ} n [] ≡ []
take_nothing zero = refl
take_nothing (suc n) = refl

-- Whatever the events: a manager holds the latest keys made, the newest first, the initial key being
-- the oldest, and no more than one plus the overlap.
pub run_keys :
    (interval overlap : ℕ) (key : List ℕ) (m : Manager) (es : List Event)
    → new_rotate_manager interval overlap (some key) ≡ some m
    → ((run m es).keys ≡ take (suc overlap) (latest_first (made m es) (key ∷ [])))
      × (length (run m es).keys ≤ suc overlap)
unfolding new_rotate_manager
run_keys interval overlap key m es e =
    let same : m.overlap ≡ overlap = ground arith in
    let first : m.keys ≡ key ∷ [] = ground arith in
    let kept : (run m es).keys ≡ take (suc m.overlap) (latest_first (made m es) (key ∷ [])) =
      run_from m es (key ∷ [])
        (first ∙ ap (λ (l : List (List ℕ)). key ∷ l) (sym (take_nothing m.overlap))) in
    let here : (run m es).keys ≡ take (suc overlap) (latest_first (made m es) (key ∷ [])) =
      kept ∙ ap (λ (n : ℕ). take (suc n) (latest_first (made m es) (key ∷ []))) same in
    (
      here,
      omega
          (arith, ap length here, length-take (suc overlap) (latest_first (made m es) (key ∷ []))),
    )

still :
    (m : Manager) (es : List Event)
    → m.stopped ≡ true
    → m.running ≡ false
    → (run m es).keys ≡ m.keys
unfolding run handle start stop
still m [] s r = refl
still m (ticks key ∷ es) s r = ground (arith, still m es s r)
still m (starts ∷ es) s r = ground (arith, still m es s r)
still m (stops ∷ es) s r = ground (arith, still m es s r)
still m (cancels ∷ es) s r = still (record m { running = false }) es s refl

-- Once stopped, a manager that was not stopped before keeps its keys for good: no tick rotates them
-- and no start revives it.
pub stop_keeps :
    (m : Manager) (es : List Event) → m.stopped ≡ false → (run (stop m) es).keys ≡ m.keys
unfolding stop
stop_keeps m es live =
    ground (arith, still (record m { stopped = true; running = false }) es refl refl)
