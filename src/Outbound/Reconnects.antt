-- ===== src/Outbound/Reconnects.antt =====
-- An endpoint over every sequence of calls: what it publishes, what it gives up, and the intent to
-- reconnect.
use qmux.Base.{
  ℕ, ◌≡◌, refl, sym, ap, ◌∙◌, ◌+◌, ◌-◌, Bool, true, false, Option, none, some, List, [], ◌∷◌, ◌++◌,
  ◌==◌, ==_iff, if◌then◌else◌, arith, append-nil,
}
use qmux.Outbound.Endpoint.{
  Current, is, replace, publish, take, Endpoint, advance_retry, claim_reconnect, release_reconnect,
  retire_for_reconnect,
}

-- What owners call; a reconnect is released by the worker that claimed it.
pub data Call : Type 0 where
  publishes replaces : ℕ → Call
  retires : Option ℕ → Bool → Call
  takes releases : Call
  claims : Option ℕ → Call
  advances : ℕ → ℕ → Call

-- An endpoint with all generations that it accepted and that it gave up, each in order, and the
-- reconnect intents that are held.
pub record Log : Type 0 where
  pub endpoint : Endpoint
  pub published : List ℕ
  pub given_up : List ℕ
  pub intents : ℕ

abbrev pub list_of : Option ℕ → List ℕ
list_of none = []
list_of (some g) = g ∷ []

abbrev after_publish : Log → ℕ → Current × Bool → Log
after_publish l g (c, accepted) = record l {
  endpoint = record l.endpoint { current = c };
  published = if accepted then l.published ++ (g ∷ []) else l.published;
}

abbrev after_replace : Log → ℕ → Current × (Option ℕ × Bool) → Log
after_replace l g (c, (previous, replaced)) = record l {
  endpoint = record l.endpoint { current = c };
  published = l.published ++ (g ∷ []);
  given_up = l.given_up ++ list_of previous;
}

abbrev after_retire : Log → Option ℕ → Endpoint × Bool → Log
after_retire l expected (e, retired) = record l {
  endpoint = e;
  given_up = if retired then l.given_up ++ list_of expected else l.given_up;
}

abbrev after_take : Log → Current × Option ℕ → Log
after_take l (c, taken) = record l {
  endpoint = record l.endpoint { current = c };
  given_up = l.given_up ++ list_of taken;
}

abbrev after_claim : Log → Endpoint × Bool → Log
after_claim l (e, granted) = record l {
  endpoint = e;
  intents = if granted then l.intents + 1 else l.intents;
}

unfoldable pub handle : Log → Call → Log
unfolding publish replace retire_for_reconnect take claim_reconnect release_reconnect advance_retry
handle l (publishes g) = after_publish l g (publish l.endpoint.current (some g))
handle l (replaces g) = after_replace l g (replace l.endpoint.current (some g))
handle l (retires expected stable) =
    after_retire l expected (retire_for_reconnect l.endpoint expected stable)
handle l takes = after_take l (take l.endpoint.current)
handle l (claims expected) = after_claim l (claim_reconnect l.endpoint expected)
handle l releases =
    if l.intents == 0
    then l
    else record l { endpoint = release_reconnect l.endpoint; intents = l.intents - 1 }
handle l (advances stage maximum) = record l { endpoint = advance_retry l.endpoint stage maximum }

unfoldable pub run : Log → List Call → Log
unfolding handle
run l [] = l
run l (c ∷ cs) = run (handle l c) cs

abbrev pub new_log : Log
new_log = record {
  endpoint = record { current = none; stage = 0; attempts = 0; reconnecting = false };
  published = [];
  given_up = [];
  intents = 0;
}

pub record IsExact (l : Log) : Type 0 where
  -- What was published is what was given up, once and in order, and then what is current.
  pub in_order : l.published ≡ l.given_up ++ list_of l.endpoint.current
  pub one_intent : l.intents ≡ (if l.endpoint.reconnecting then 1 else 0)

-- The state that `is` accepts is the expected generation.
is_sound : (c expected : Option ℕ) → is c expected ≡ true → list_of expected ≡ list_of c
unfolding is
is_sound none expected h = cc
is_sound (some g) none h = cc
is_sound (some g) (some e) h = ap (λ n. n ∷ []) (sym ((==_iff g e).0 h))

publishes-in_order :
    (l : Log) (g : ℕ) (c : Current)
    → l.published ≡ l.given_up ++ list_of c
    → (after_publish l g (publish c (some g))).published
      ≡ l.given_up ++ list_of (after_publish l g (publish c (some g))).endpoint.current
unfolding publish
publishes-in_order l g none h = ap (λ xs. xs ++ (g ∷ [])) (h ∙ append-nil l.given_up)
publishes-in_order l g (some d) h = h

retires-in_order :
    (l : Log) (expected : Option ℕ) (stable : Bool)
    → l.published ≡ l.given_up ++ list_of l.endpoint.current
    → (handle l (retires expected stable)).published
      ≡ (handle l (retires expected stable)).given_up
        ++ list_of (handle l (retires expected stable)).endpoint.current
unfolding handle
retires-in_order l expected stable h =
    ground
      (arith, is_sound l.endpoint.current expected, append-nil (l.given_up ++ list_of expected))

handle-in_order :
    (l : Log) (c : Call)
    → IsExact l
    → (handle l c).published ≡ (handle l c).given_up ++ list_of (handle l c).endpoint.current
unfolding handle
handle-in_order l (publishes g) v = publishes-in_order l g l.endpoint.current v.in_order
handle-in_order l (replaces g) v = ap (λ xs. xs ++ (g ∷ [])) v.in_order
handle-in_order l (retires expected stable) v = retires-in_order l expected stable v.in_order
handle-in_order l takes v = v.in_order ∙ sym (append-nil (l.given_up ++ list_of l.endpoint.current))
handle-in_order l (claims expected) v = ground (arith, v)
handle-in_order l releases v = ground (arith, v)
handle-in_order l (advances stage maximum) v = v.in_order

handle-one_intent :
    (l : Log) (c : Call)
    → IsExact l
    → (handle l c).intents ≡ (if (handle l c).endpoint.reconnecting then 1 else 0)
unfolding handle
handle-one_intent l (publishes g) v = ground (arith, v)
handle-one_intent l (replaces g) v = ground (arith, v)
handle-one_intent l (retires expected stable) v = ground (arith, v)
handle-one_intent l takes v = ground (arith, v)
handle-one_intent l (claims expected) v = ground (arith, v)
handle-one_intent l releases v = ground (arith, v)
handle-one_intent l (advances stage maximum) v = v.one_intent

run-IsExact_from : (l : Log) (cs : List Call) → IsExact l → IsExact (run l cs)
unfolding run
run-IsExact_from l [] v = v
run-IsExact_from l (c ∷ cs) v =
    run-IsExact_from (handle l c) cs
      (record { in_order = handle-in_order l c v; one_intent = handle-one_intent l c v })

-- After any sequence of calls on a new endpoint, the generations that were published are those that
-- were given up, in the same order, followed by the current one if there is one: none is lost,
-- given up twice or overtaken. At most one reconnect intent is held, and exactly when the endpoint
-- says so, if an intent is only released by who holds it.
pub run-IsExact : (cs : List Call) → IsExact (run new_log cs)
run-IsExact cs = run-IsExact_from new_log cs (record { in_order = refl; one_intent = refl })
