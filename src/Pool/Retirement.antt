-- ===== src/Pool/Retirement.antt =====
-- Retirement of a generation and its health: `BeginRetire`, `Done`, `Remove`, `MarkHealthy` and
-- `MarkUnhealthy` of server/pool/pool.go.
use qmux.Base.{
  ℕ, ◌+◌, Bool, true, false, not, ◌&&◌, ◌||◌, Option, none, some, [], ◌∷◌, ◌++◌, ◌==◌,
  if◌then◌else◌, length, get_elem?, set,
}
use qmux.Base.Assoc.{nat_eq, str_Eq, lookup, insert, erase}
use qmux.Pool.State.{Conn, Retirement, Pool, update, points_to, is_current}

abbrev pub fence_of : Conn → Option ℕ
fence_of conn = if conn.tcp_opened then some conn.tcp_stream_id else none

unfoldable pub signal_object : Pool → ℕ → Retirement → Pool
signal_object p rt object =
    let conn = p.conns object.conn in
    if object.drain_sent || not (conn.tcp_pending + conn.tcp_active == 0) then p else record p {
      retirement_objects = set p.retirement_objects rt (record object {
        tcp_drained = object.tcp_drained ++ (fence_of conn ∷ []);
        drain_sent = true;
      });
    }

-- `signalTCPDrainedLocked`; nil is `none`.
unfoldable pub signal_tcp_drained : Pool → Option ℕ → Pool
unfolding signal_object
signal_tcp_drained p none = p
signal_tcp_drained p (some rt) = elim (get_elem? p.retirement_objects rt) [
  | none ↦ p
  | some object ↦ signal_object p rt object
]

-- Whether `finalizeRetirementLocked` deletes the entry.
abbrev pub is_finished : Pool → Retirement → Conn → Bool
is_finished p object conn =
    object.done && conn.tcp_pending == 0 && conn.tcp_active == 0 && conn.udp_sessions == 0

finalize_object : Pool → ℕ → Option Retirement → Pool
finalize_object p c none = p
finalize_object p c (some object) =
    if is_finished p object (p.conns c) then record p { retiring = erase c p.retiring } else p

-- `finalizeRetirementLocked`.
unfoldable pub finalize_retirement : Pool → ℕ → Pool
unfolding finalize_object
finalize_retirement p c = elim (lookup c p.retiring) [
  | none ↦ p
  | some rt ↦ finalize_object p c (get_elem? p.retirement_objects rt)
]

abbrev pub new_retirement : ℕ → Retirement
new_retirement c = record { conn = c; done = false; tcp_drained = []; drain_sent = false }

-- The generation leaves the selectable clients and enters `retiring`.
unfoldable pub retire_current : Pool → ℕ → Pool
retire_current p c = record p {
  conns = update p.conns c (record conn { healthy = false });
  clients = erase conn.id p.clients;
  retirement_objects = p.retirement_objects ++ (new_retirement c ∷ []);
  retiring = insert c (length p.retirement_objects) p.retiring;
  cached_clients = none;
}
  where
    conn : Conn
    conn = p.conns c

-- `BeginRetire`; nil stands for the argument and the result alike.
unfoldable pub begin_retire : Pool → Option ℕ → Pool × Option ℕ
unfolding retire_current
begin_retire p none = (p, none)
begin_retire p (some c) =
    let rt = length p.retirement_objects in
    if is_current p c
    then (signal_tcp_drained (retire_current p c) (some rt), some rt)
    else (p, none)

done_object : Pool → ℕ → Retirement → Pool × Bool
done_object p rt object =
    if object.done || not (points_to (lookup object.conn p.retiring) rt) then (p, false) else (
      finalize_retirement
          (record p {
            retirement_objects = set p.retirement_objects rt (record object { done = true });
          })
          object.conn,
      true,
    )

-- `Retirement.Done`.
unfoldable pub done : Pool → ℕ → Pool × Bool
unfolding done_object
done p rt = elim (get_elem? p.retirement_objects rt) [
  | none ↦ (p, false)
  | some object ↦ done_object p rt object
]

abbrev remove_begun : Pool × Option ℕ → Pool × Bool
remove_begun (p, none) = (p, false)
remove_begun (p, some rt) = done p rt

-- `Remove`.
unfoldable pub remove : Pool → Option ℕ → Pool × Bool
remove p expected = remove_begun (begin_retire p expected)

-- `MarkUnhealthy` and `MarkHealthy`.
unfoldable pub mark : Bool → Pool → Option ℕ → Pool × Bool
mark health p none = (p, false)
mark health p (some c) =
    if is_current p c
    then (
      record p {
        conns = update p.conns c (record (p.conns c) { healthy = health });
        cached_clients = none;
      },
      true,
    )
    else (p, false)
