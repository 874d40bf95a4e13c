-- ===== src/Assembler/Examples.antt =====
-- The theorems on the assembler at concrete inputs.
use qmux.Base.{
  ℕ, zero, suc, ◌≡◌, refl, ◌+◌, true, none, some, inl, inr, List, [], ◌∷◌, replicate, arith,
  length-replicate,
}
use qmux.Base.Assoc.{lookup}
use qmux.Datagram.{
  Pool, IsDatagramPool, Result, ok, err, fragment_udp_pooled, fragment_identity,
  fragment_assembler_closed, validate_fragment_input,
}
use qmux.Assembler.{
  FragmentKey, Assembler, new, add_to_shard, reserve_and_store, finish_group, add_fragment, close,
  shard_index,
}
use qmux.Assembler.Accounting.{
  IsAccounted, retained_groups_of, new-IsAccounted, add_fragment-IsAccounted,
}
use qmux.Assembler.Release.{close_drains}
use qmux.Assembler.Reassembly.{Ready, view}
use qmux.Assembler.Delivery.{Covers, Event, arrives, ticks, indices, deliver, deliver_whole}
use qmux.Assembler.Frame.{add_fragment_frame}
use qmux.Assembler.Transfer.{HasRoom, CoversAll, receive, arrivals, room-Ready, transfer}

abbrev hash : FragmentKey → ℕ
hash key = key.session_id + key.frag_id

abbrev key : FragmentKey
key = record { session_id = 7; frag_id = 1 }

abbrev empty : Assembler
empty = new 2 8 400_000

add_fragment-IsAccounted_example : IsAccounted (add_fragment hash empty 5 7 1 0 2 (1 ∷ [])).0
add_fragment-IsAccounted_example =
    add_fragment-IsAccounted hash empty 5 7 1 0 2 (1 ∷ []) (new-IsAccounted 2 8 400_000)

abbrev waiting : Assembler
waiting = (add_fragment hash empty 5 7 1 0 2 (1 ∷ [])).0

waiting-IsAccounted : IsAccounted waiting
waiting-IsAccounted =
    add_fragment-IsAccounted hash empty 5 7 1 0 2 (1 ∷ []) (new-IsAccounted 2 8 400_000)

close_drains_example :
    IsAccounted (close waiting)
    × ((close waiting).counters.retained_groups ≡ 0)
    × ((close waiting).counters.retained_bytes ≡ 0)
    × (retained_groups_of (close waiting).shards ≡ 0)
    × (close (close waiting) ≡ close waiting)
    × (add_fragment hash (close waiting) 9 7 1 1 2 (1 ∷ [])
        ≡ (close waiting, err fragment_assembler_closed))
unfolding add_fragment add_to_shard reserve_and_store finish_group validate_fragment_input lookup
    new
close_drains_example = close_drains hash waiting 9 7 1 1 2 (1 ∷ []) waiting-IsAccounted refl refl

add_fragment_frame_example :
    view hash key (add_fragment hash waiting 9 7 3 1 2 (5 ∷ [])).0 ≡ view hash key waiting
add_fragment_frame_example = add_fragment_frame hash key waiting 9 7 3 1 2 (5 ∷ []) refl

abbrev two_pieces : List (List ℕ)
two_pieces = (1 ∷ 2 ∷ []) ∷ (3 ∷ []) ∷ []

empty_room : HasRoom hash empty key
unfolding new view shard_index lookup
empty_room = record {
  live = refl;
  sharded = omega arith;
  unseen = refl;
  group_room = omega arith;
  byte_room = omega arith;
}

two_pieces-Ready : Ready hash key 3 empty two_pieces (none ∷ none ∷ [])
two_pieces-Ready = room-Ready hash 3 empty key two_pieces empty_room (omega arith) (omega arith)

-- The second fragment twice, and a tick of the cleanup loop before the first one.
abbrev events : List Event
events = arrives 3 1 ∷ arrives 9 1 ∷ ticks 500 ∷ arrives 600 0 ∷ []

both : Covers (none ∷ none ∷ []) (indices events)
both zero h = inr (inr (inr (inl refl)))
both (suc zero) h = inr (inl refl)
both (suc (suc i)) h = absurd (omega arith)

deliver_whole_example : deliver hash key empty two_pieces events ≡ some (ok (1 ∷ 2 ∷ 3 ∷ []))
deliver_whole_example =
    deliver_whole hash key 3 empty two_pieces (none ∷ none ∷ []) events two_pieces-Ready
      (omega arith) (omega arith) both

abbrev clean_pool : Pool
clean_pool i = replicate 1200 0

clean_pool-IsDatagramPool : IsDatagramPool clean_pool
clean_pool-IsDatagramPool i = length-replicate {A = ℕ} 1200 0

abbrev long_payload : List ℕ
long_payload = replicate 1300 7

abbrev sent_of : Result (List (List ℕ)) → List (List ℕ)
sent_of (ok ds) = ds
sent_of (err e) = []

abbrev sent : List (List ℕ)
sent = sent_of (fragment_udp_pooled clean_pool 7 0 long_payload 0 true).0

either : CoversAll 2 (1 ∷ 0 ∷ 1 ∷ [])
either zero h = inr (inl refl)
either (suc zero) h = inl refl
either (suc (suc i)) h = absurd (omega arith)

transfer_example :
    receive hash (some empty) 3 (arrivals sent (1 ∷ 0 ∷ 1 ∷ [])) ≡ some (ok (7, some long_payload))
unfolding fragment_udp_pooled fragment_identity
transfer_example =
    transfer clean_pool hash 7 0 0 1 3 long_payload sent empty (1 ∷ 0 ∷ 1 ∷ [])
      clean_pool-IsDatagramPool (omega arith) (omega arith) refl empty_room (omega arith) either
