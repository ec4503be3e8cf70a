-- ===== src/Conn/Clock/Params.antt =====
-- The rate limiter and the clock in the handler of transport parameters.
use dwnx.Prelude.{ℕ, List, [], ◌∷◌, not, ltb, leb, if◌then◌else◌}
use dwnx.Prelude.{
  Result, ok, ◌>>◌, guard, check, malformed_transport_param, OnOk, OnOk-bind, OnOk-then, OnOk-guard,
  OnOk-if, OnOk-ok,
}
use dwnx.Strm.{Strm}
use dwnx.TransportParams
use dwnx.TransportParams.{TransportParams, default_max_record_size}
use dwnx.Conn.{Conn, Event, call, put_strm, bidi_stream, local_stream}
use dwnx.Conn.Streams.{}
use dwnx.Conn.Receive.{}
use dwnx.Conn.Credits.{}
use dwnx.Conn.Setup.{
  validate_early_transport_params, accept_params, with_max_offset, raise_offset,
  set_max_stream_offset, set_all, call_if, announce, with_params, recv_transport_params,
}
use dwnx.Conn.Clock.{Clock, call-Clock}

raise-Clock :
    (ts n : ℕ) (strm : Strm) (conn : Conn)
    → Clock ts conn
    → OnOk (Clock ts) (raise_offset n strm conn)
unfolding raise_offset
raise-Clock ts n strm conn h =
    let conn' = put_strm (with_max_offset n strm) conn in
    let event = Event.extend_max_stream_data strm.stream_id n in
    OnOk-if (Clock ts) (not (ltb strm.tx.max_offset n)) (ok conn)
      (if strm.flags.shut_wr then ok conn' else call event conn') (OnOk-ok (Clock ts) conn h)
      (OnOk-if (Clock ts) strm.flags.shut_wr (ok conn') (call event conn')
        (OnOk-ok (Clock ts) conn' h) (call-Clock ts event conn' h))

set_max-Clock :
    (ts : ℕ) (strm : Strm) (conn : Conn)
    → Clock ts conn
    → OnOk (Clock ts) (set_max_stream_offset strm conn)
unfolding set_max_stream_offset
set_max-Clock ts strm conn h =
    let limit =
      if bidi_stream strm.stream_id
      then conn.remote_params.initial_max_stream_data_bidi_remote
      else conn.remote_params.initial_max_stream_data_uni in
    let raised = raise_offset limit strm conn in
    let ours = check (local_stream conn strm.stream_id) in
    OnOk-then (λ u. Unit {0}) (Clock ts) (check (not conn.server)) (λ u. ours >> raised)
      (λ u.
        OnOk-then (λ u. Unit {0}) (Clock ts) ours (λ u. raised)
          (λ u. raise-Clock ts limit strm conn h))

set_all-Clock :
    (ts : ℕ) (strms : List Strm) (conn : Conn)
    → Clock ts conn
    → OnOk (Clock ts) (set_all strms conn)
set_all-Clock ts [] conn h = OnOk-ok (Clock ts) conn h
set_all-Clock ts (strm ∷ strms) conn h =
    OnOk-bind (Clock ts) (Clock ts) (set_max_stream_offset strm conn) (set_all strms)
      (set_max-Clock ts strm conn h) (set_all-Clock ts strms)

call_if-Clock :
    (ts n : ℕ) (event : Event) (conn : Conn)
    → Clock ts conn
    → OnOk (Clock ts) (call_if n event conn)
call_if-Clock ts n event conn h =
    OnOk-if (Clock ts) _ _ _ (OnOk-ok (Clock ts) conn h) (call-Clock ts event conn h)

pub recv_transport_params-Clock :
    (ts : ℕ) (bytes : List ℕ) (conn : Conn)
    → Clock ts conn
    → OnOk (Clock ts) (recv_transport_params bytes conn)
unfolding recv_transport_params
recv_transport_params-Clock ts bytes conn h =
    OnOk-then (λ p. Unit {0}) (Clock ts) (TransportParams.decode bytes) checks
      (λ params.
        OnOk-guard (Clock ts) (leb default_max_record_size params.max_record_size)
          malformed_transport_param (early params >> accept_params params conn)
          (OnOk-then (λ u. Unit {0}) (Clock ts) (early params) (λ u. accept_params params conn)
            (λ u.
              OnOk-bind (Clock ts) (Clock ts)
                (if conn.server
                  then ok (with_params params conn)
                  else set_all conn.strms (with_params params conn))
                (announce params)
                (OnOk-if (Clock ts) conn.server _ _ (OnOk-ok (Clock ts) (with_params params conn) h)
                  (set_all-Clock ts conn.strms (with_params params conn) h))
                (announced params))))
  where
    early : TransportParams → Result (Unit {0})
    early params =
        if conn.early_transport_params_set
        then validate_early_transport_params conn.server conn.remote_params params
        else ok tt

    checks : TransportParams → Result Conn
    checks params =
        guard (leb default_max_record_size params.max_record_size) malformed_transport_param
        >> (early params >> accept_params params conn)

    announced :
        (params : TransportParams) (c : Conn) → Clock ts c → OnOk (Clock ts) (announce params c)
    announced params c k =
        OnOk-bind (Clock ts) (Clock ts) _ _
          (OnOk-bind (Clock ts) (Clock ts) _ _ (call-Clock ts _ c k) (call_if-Clock ts _ _))
          (call_if-Clock ts _ _)
