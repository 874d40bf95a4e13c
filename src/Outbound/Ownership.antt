-- ===== src/Outbound/Ownership.antt =====
-- An owner over every sequence of calls: what it does to the resources and to `done`.
use qmux.Base.{
  ℕ, ◌≡◌, refl, sym, ap, ◌∙◌, ◌≤◌, Bool, true, false, Option, none, some, List, [], ◌∷◌, ◌++◌, ◌||◌,
  if◌then◌else◌, arith, ◌==◌, if_cases, subst, Bool-cases, inl, inr,
}
use qmux.Base.Lists.{count_by, count_by-append_all}
use qmux.Outbound.Owner.{
  Effect, closes_done, stops, Owner, new_owner, close_done, set_resource, cancel, stop, join,
  finish, stop_of, join_of, cancel_of,
}

pub data Call : Type 0 where
  sets : Option ℕ → Option ℕ → Call
  cancels_owner stops_owner joins_owner finishes : Call

unfoldable pub handle : Owner → Call → Owner
unfolding set_resource cancel stop join finish
handle o (sets s j) = set_resource o s j
handle o cancels_owner = cancel o
handle o stops_owner = stop o
handle o joins_owner = join o
handle o finishes = finish o

unfoldable pub run : Owner → List Call → Owner
unfolding handle
run o [] = o
run o (c ∷ cs) = run (handle o c) cs

abbrev pub closes : Effect → Bool
closes closes_done = true
closes _ = false

abbrev pub stops_it : ℕ → Effect → Bool
stops_it n (stops k) = k == n
stops_it n _ = false

pub record IsKept (o : Owner) : Type 0 where
  -- `done` is closed once, by the first `Finish`, so it is never closed twice.
  pub closed_once : count_by closes o.effects ≡ (if o.finished then 1 else 0)
  pub finished_stopped : o.finished ≡ true → o.stopped ≡ true
  -- A stopped owner has stopped the resource that it holds, also one that it was given later.
  pub held_stopped :
      (n : ℕ) → o.stopped ≡ true → o.stop_callback ≡ some n → 1 ≤ count_by (stops_it n) o.effects

closes-none : count_by closes [] ≡ 0
unfolding count_by
closes-none = refl

closes-stop_of : (s : Option ℕ) → count_by closes (stop_of s) ≡ 0
unfolding count_by
closes-stop_of none = refl
closes-stop_of (some n) = refl

closes-join_of : (j : Option ℕ) → count_by closes (join_of j) ≡ 0
unfolding count_by
closes-join_of none = refl
closes-join_of (some n) = refl

closes-cancel_of : (b : Bool) → count_by closes (cancel_of b) ≡ 0
unfolding count_by
closes-cancel_of true = refl
closes-cancel_of false = refl

stops_it-stop_of : (n : ℕ) (s : Option ℕ) → s ≡ some n → count_by (stops_it n) (stop_of s) ≡ 1
unfolding count_by
stops_it-stop_of n none h = cc
stops_it-stop_of n (some k) h = ground arith

-- More effects without a close keep what is owned.
append-IsKept :
    (o : Owner) (es : List Effect)
    → IsKept o
    → count_by closes es ≡ 0
    → IsKept (record o { effects = o.effects ++ es })
append-IsKept o es v h = record {
  closed_once = omega (arith, count_by-append_all closes o.effects es, v.closed_once);
  finished_stopped = v.finished_stopped;
  held_stopped =
      λ n p q. omega (arith, count_by-append_all (stops_it n) o.effects es, v.held_stopped n p q);
}

set_resource-IsKept : (o : Owner) (s j : Option ℕ) → IsKept o → IsKept (set_resource o s j)
unfolding set_resource
set_resource-IsKept o s j v = record {
  closed_once = omega (
    arith,
    count_by-append_all closes o.effects (if o.stopped then stop_of s else []),
    if_cases (λ es. count_by closes es ≡ 0) o.stopped (stop_of s) [] (λ p. closes-stop_of s)
        (λ p. closes-none),
    v.closed_once,
  );
  finished_stopped = v.finished_stopped;
  held_stopped = λ n p q. rw p (
      omega
        (arith, count_by-append_all (stops_it n) o.effects (stop_of s), stops_it-stop_of n s q));
}

stop-IsKept : (o : Owner) → IsKept o → IsKept (stop o)
unfolding stop
stop-IsKept o v =
    if_cases IsKept o.stopped o _ (λ p. v)
      (λ p. record {
        closed_once = omega (
          arith,
          count_by-append_all closes o.effects (cancel_of o.has_cancel ++ stop_of o.stop_callback),
          count_by-append_all closes (cancel_of o.has_cancel) (stop_of o.stop_callback),
          closes-cancel_of o.has_cancel,
          closes-stop_of o.stop_callback,
          v.closed_once,
        );
        finished_stopped = λ q. refl;
        held_stopped = λ n q r. omega (
          arith,
          count_by-append_all (stops_it n) o.effects
              (cancel_of o.has_cancel ++ stop_of o.stop_callback),
          count_by-append_all (stops_it n) (cancel_of o.has_cancel) (stop_of o.stop_callback),
          stops_it-stop_of n o.stop_callback r,
        );
      })

cancel-IsKept : (o : Owner) → IsKept o → IsKept (cancel o)
unfolding cancel
cancel-IsKept o v = append-IsKept o (cancel_of o.has_cancel) v (closes-cancel_of o.has_cancel)

join-IsKept : (o : Owner) → IsKept o → IsKept (join o)
unfolding join
join-IsKept o v = append-IsKept o (join_of o.join_callback) v (closes-join_of o.join_callback)

closing-IsKept :
    (o : Owner)
    → IsKept o
    → o.finished ≡ false
    → o.stopped ≡ true
    → IsKept (close_done (record o { finished = true }))
unfolding count_by
closing-IsKept o v p q = record {
  closed_once = omega (
    arith,
    count_by-append_all closes o.effects (closes_done ∷ []),
    v.closed_once,
    ap {B = ℕ} (λ b. if b then 1 else 0) p,
  );
  finished_stopped = λ r. q;
  held_stopped = λ n r s.
      omega (
        arith,
        count_by-append_all (stops_it n) o.effects (closes_done ∷ []),
        v.held_stopped n r s,
      );
}

-- `Finish` marks the owner before it stops it, which makes no difference to `Stop` and `Join`.
finish_lem :
    (o : Owner)
    → o.finished ≡ false
    → finish o ≡ close_done (record (join (stop o)) { finished = true })
unfolding finish join stop
finish_lem o h = ground arith

stop_lem : (o : Owner) → ((stop o).stopped ≡ true) × ((stop o).finished ≡ o.finished)
unfolding stop
stop_lem o = ground arith

join_lem : (o : Owner) → ((join o).stopped ≡ o.stopped) × ((join o).finished ≡ o.finished)
unfolding join
join_lem o = (refl, refl)

finish_again : (o : Owner) → o.finished ≡ true → finish o ≡ o
unfolding finish
finish_again o h = rw h refl

finish-IsKept : (o : Owner) → IsKept o → IsKept (finish o)
finish-IsKept o v = elim (Bool-cases o.finished) [
  | inl p ↦ subst IsKept (sym (finish_again o p)) v
  | inr p ↦ subst IsKept (sym (finish_lem o p)) (
      closing-IsKept (join (stop o)) (join-IsKept (stop o) (stop-IsKept o v))
        ((join_lem (stop o)).1 ∙ (stop_lem o).1 ∙ p) ((join_lem (stop o)).0 ∙ (stop_lem o).0))
]

handle-IsKept : (o : Owner) (c : Call) → IsKept o → IsKept (handle o c)
unfolding handle
handle-IsKept o (sets s j) v = set_resource-IsKept o s j v
handle-IsKept o cancels_owner v = cancel-IsKept o v
handle-IsKept o stops_owner v = stop-IsKept o v
handle-IsKept o joins_owner v = join-IsKept o v
handle-IsKept o finishes v = finish-IsKept o v

run-IsKept : (o : Owner) (cs : List Call) → IsKept o → IsKept (run o cs)
unfolding run
run-IsKept o [] v = v
run-IsKept o (c ∷ cs) v = run-IsKept (handle o c) cs (handle-IsKept o c v)

-- Whether a history calls `Finish`, and whether it calls `Stop` or `Finish`.
abbrev pub is_finish : Call → Bool
is_finish finishes = true
is_finish _ = false

abbrev pub is_stop : Call → Bool
is_stop stops_owner = true
is_stop finishes = true
is_stop _ = false

unfoldable pub has_call : (Call → Bool) → List Call → Bool
has_call test [] = false
has_call test (c ∷ cs) = test c || has_call test cs

-- What an owner has done after the calls `cs`.
pub record IsOwned (cs : List Call) (o : Owner) : Type 0 where
  pub closed_by_finish : count_by closes o.effects ≡ (if has_call is_finish cs then 1 else 0)
  pub stopped_by_call : o.stopped ≡ has_call is_stop cs
  pub resource_stopped :
      (n : ℕ)
      → has_call is_stop cs ≡ true
      → o.stop_callback ≡ some n
      → 1 ≤ count_by (stops_it n) o.effects

handle_lem :
    (o : Owner) (c : Call)
    → ((handle o c).finished ≡ (o.finished || is_finish c))
      × ((o.finished ≡ true → o.stopped ≡ true) → (handle o c).stopped ≡ (o.stopped || is_stop c))
unfolding handle
handle_lem o (sets s j) = (ground arith, λ h. ground arith)
handle_lem o cancels_owner = (ground arith, λ h. ground arith)
handle_lem o stops_owner = (ground arith, λ h. ground arith)
handle_lem o joins_owner = (ground arith, λ h. ground arith)
handle_lem o finishes = (ground arith, λ h. ground arith)

run_lem :
    (o : Owner) (cs : List Call)
    → IsKept o
    → ((run o cs).finished ≡ (o.finished || has_call is_finish cs))
      × ((run o cs).stopped ≡ (o.stopped || has_call is_stop cs))
unfolding run has_call
run_lem o [] v = (ground arith, ground arith)
run_lem o (c ∷ cs) v =
    let (finished, stopped) = run_lem (handle o c) cs (handle-IsKept o c v) in
    let (now_finished, now_stopped) = handle_lem o c in
    let here : (handle o c).stopped ≡ (o.stopped || is_stop c) = now_stopped v.finished_stopped in
    (
      finished
          ∙ ap (λ b. b || has_call is_finish cs) now_finished
          ∙ or_assoc o.finished (is_finish c) (has_call is_finish cs),
      stopped
          ∙ ap (λ b. b || has_call is_stop cs) here
          ∙ or_assoc o.stopped (is_stop c) (has_call is_stop cs),
    )
  where
    or_assoc : (a b d : Bool) → ((a || b) || d) ≡ (a || (b || d))
    or_assoc a b d = ground arith

-- After any sequence of calls on a new owner, `done` has been closed exactly once if `Finish` is one
-- of the calls and never otherwise, the owner is stopped exactly if `Stop` or `Finish` is one of
-- them, and then it has stopped the resource that it holds, also one that `SetResource` gave it after
-- the stop.
pub run-IsOwned : (has_cancel : Bool) (cs : List Call) → IsOwned cs (run (new_owner has_cancel) cs)
unfolding new_owner count_by
run-IsOwned has_cancel cs =
    let new : IsKept (new_owner has_cancel) = record {
      closed_once = refl;
      finished_stopped = λ p. cc;
      held_stopped = λ n p q. cc;
    } in
    let v = run-IsKept (new_owner has_cancel) cs new in
    let (finished, stopped) = run_lem (new_owner has_cancel) cs new in
    record {
      closed_by_finish = v.closed_once ∙ ap {B = ℕ} (λ b. if b then 1 else 0) finished;
      stopped_by_call = stopped;
      resource_stopped = λ n h held. v.held_stopped n (stopped ∙ h) held;
    }
