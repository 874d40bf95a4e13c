-- ===== src/Admission/Examples.antt =====
-- The theorems on a source with room for two flows, one setup and one request.
use qmux.Base.{◌≡◌, refl, true}
use qmux.Admission.{
  TcpSource, new_tcp_source, begin_flow, begin_setup, claim, settle, begin_request,
}
use qmux.Admission.Leases.{
  Calls, start, begins_flow, begins_setup, claims, begins_request, settles, IsLeased,
  calls-IsLeased,
}

abbrev fresh : TcpSource
fresh = new_tcp_source 2 1 1

abbrev flowing : TcpSource
flowing = (begin_setup (begin_flow fresh).0 0).0

flowing_claims : (claim flowing 0).1 ≡ true
unfolding claim begin_setup begin_flow new_tcp_source
flowing_claims = refl

-- A flow whose setup is claimed, then a request, then the settlement.
served : Calls fresh 0 (settle (begin_request (claim flowing 0).0 0).0) 0
served = settles (begins_request 0 (claims 0 (begins_setup 0 (begins_flow start)) flowing_claims))

calls-IsLeased_example : IsLeased (settle (begin_request (claim flowing 0).0 0).0) 0
calls-IsLeased_example =
    calls-IsLeased 2 1 1 (settle (begin_request (claim flowing 0).0 0).0) 0 served
