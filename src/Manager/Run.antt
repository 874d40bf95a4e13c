-- ===== src/Manager/Run.antt =====
-- Histories of a connection manager.
use qmux.Base.{ℕ, Bool, Option, List, [], ◌∷◌, map, false, none, length}
use qmux.Manager.State.{Name, EndpointPhases, Manager}
use qmux.Manager.Publication.{
  begin_connection, connected, publish_server_connection, retire_connection, start_reconnection,
  release_slot, advance, retire_expected, stop_publishing, take_from, close_connection,
  report_closed,
}

pub data Call : Type 0 where
  begins : Name → Call
  connects : ℕ → Call
  publishes : Bool → ℕ → Call
  retires : ℕ → Call
  claims : Bool → Name → Option ℕ → Call
  releases : Name → Call
  advances : Name → ℕ → Call
  retires_expected : Name → ℕ → Bool → Call
  stops_publishing takes_all : Call
  closes reports : ℕ → Call

unfoldable pub step : Manager → Call → Manager
unfolding begin_connection connected publish_server_connection retire_connection start_reconnection
    release_slot advance retire_expected stop_publishing take_from close_connection report_closed
step m (begins addr) = begin_connection addr m
step m (connects i) = connected i m
step m (publishes stopped i) = publish_server_connection stopped i m
step m (retires i) = retire_connection i m
step m (claims stopped addr expected) = start_reconnection stopped addr expected m
step m (releases addr) = release_slot addr m
step m (advances addr stage) = advance addr stage m
step m (retires_expected addr i stable) = retire_expected addr i stable m
step m stops_publishing = stop_publishing m
step m takes_all = take_from 0 (length m.endpoints) m
step m (closes i) = close_connection i m
step m (reports i) = report_closed i m

unfoldable pub run : Manager → List Call → Manager
unfolding step
run m [] = m
run m (c ∷ cs) = run (step m c) cs

abbrev pub new_endpoint : Name → EndpointPhases
new_endpoint addr = record {
  endpoint = addr;
  handshaking_count = 0;
  pending_count = 0;
  registered_count = 0;
  retiring_count = 0;
  generation_high_water = 0;
  accounting_faults = 0;
  lifecycle = record { current = none; stage = 0; attempts = 0; reconnecting = false };
}

-- The endpoints of `NewConnectionManager`.
unfoldable pub new_manager : List Name → Manager
new_manager addrs = record {
  manager_closed = false;
  endpoints = map new_endpoint addrs;
  conns = [];
}
