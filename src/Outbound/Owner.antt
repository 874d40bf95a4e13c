-- ===== src/Outbound/Owner.antt =====
-- `Owner` of internal/outbound/lifecycle.go: the stop and join boundary of one generation. The calls
-- that it makes of its callbacks stand in `effects`, in their order; a resource is a number.
use qmux.Base.{ℕ, Bool, true, false, Option, none, some, List, [], ◌∷◌, ◌++◌, if◌then◌else◌}

pub data Effect : Type 0 where
  cancels closes_done : Effect
  stops joins : ℕ → Effect

pub record Owner : Type 0 where
  pub has_cancel : Bool
  pub stop_callback : Option ℕ
  pub join_callback : Option ℕ
  pub stopped : Bool
  pub finished : Bool
  pub effects : List Effect

-- `NewOwner`.
unfoldable pub new_owner : Bool → Owner
new_owner has_cancel = record {
  has_cancel = has_cancel;
  stop_callback = none;
  join_callback = none;
  stopped = false;
  finished = false;
  effects = [];
}

abbrev pub stop_of : Option ℕ → List Effect
stop_of none = []
stop_of (some n) = stops n ∷ []

abbrev pub join_of : Option ℕ → List Effect
join_of none = []
join_of (some n) = joins n ∷ []

abbrev pub cancel_of : Bool → List Effect
cancel_of true = cancels ∷ []
cancel_of false = []

-- `SetResource`.
unfoldable pub set_resource : Owner → Option ℕ → Option ℕ → Owner
set_resource o stop join = record o {
  stop_callback = stop;
  join_callback = join;
  effects = o.effects ++ (if o.stopped then stop_of stop else []);
}

-- `Cancel`.
unfoldable pub cancel : Owner → Owner
cancel o = record o { effects = o.effects ++ cancel_of o.has_cancel }

-- `Stop`.
unfoldable pub stop : Owner → Owner
stop o = if o.stopped then o else record o {
  stopped = true;
  effects = o.effects ++ (cancel_of o.has_cancel ++ stop_of o.stop_callback);
}

-- `Join`.
unfoldable pub join : Owner → Owner
join o = record o { effects = o.effects ++ join_of o.join_callback }

abbrev pub close_done : Owner → Owner
close_done o = record o { effects = o.effects ++ (closes_done ∷ []) }

-- `Finish`; the `sync.Once` is the flag.
unfoldable pub finish : Owner → Owner
unfolding stop join
finish o = if o.finished then o else close_done (join (stop (record o { finished = true })))
