-- ===== src/Conn/KeptParams.antt =====
-- The peer's transport parameters leave the state in order.
use dwnx.Prelude.{
  ℕ, ◌≡◌, ap, arith, List, [], ◌∷◌, Bool, true, false, not, ◌&&◌, ◌||◌, leb, ltb, ◌==◌,
  if◌then◌else◌, All, All-map, IsByte,
}
use dwnx.Prelude.{
  Result, ok, err, fault, ◌>>=◌, ◌>>◌, guard, malformed_transport_param, Holds, Holds-bind,
  Holds-guard, Holds-check, Holds-if, Holds-ok,
}
use dwnx.TransportParams
use dwnx.TransportParams.{TransportParams, default_max_record_size}
use dwnx.TransportParams.Bounds.{Decoded, valid_params, malformed, decode-Decoded, IsValid}
use dwnx.Strm.{Strm}
use dwnx.Conn.{Conn, Event, put_strm, local_stream, call}
use dwnx.Conn.Setup.{
  with_max_offset, raise_offset, set_max_stream_offset, set_all, call_if, with_params, announce,
  accept_params, validate_early_transport_params, recv_transport_params,
}
use dwnx.Conn.Invariant.{IsConn, IsStrm, call-Holds}
use dwnx.Conn.Queue.{put_strm-IsConn}
use dwnx.Conn.Kept.{Passes, guard-Passes}

-- The state while the streams are gone through, with those that are left.
abbrev Going : List Strm → Conn → Type 0
Going strms conn =
    IsConn conn
    × All (IsStrm conn) strms
    × (conn.server ≡ false)
    × All (λ s. local_stream conn s.stream_id ≡ true) strms

raise_offset-Going :
    (max : ℕ) (strm : Strm) (strms : List Strm) (conn : Conn)
    → Going (strm ∷ strms) conn
    → Holds (Going strms) (raise_offset max strm conn)
unfolding raise_offset
raise_offset-Going max strm strms conn g =
    let strm' = with_max_offset max strm in
    let conn' = put_strm strm' conn in
    let event = Event.extend_max_stream_data strm.stream_id max in
    let h' = put_strm-IsConn strm' conn g.0 g.1.0 in
    Holds-if (Going strms) (not (ltb strm.tx.max_offset max)) (ok conn)
      (if strm.flags.shut_wr then ok conn' else call event conn')
      (λ t. Holds-ok (Going strms) conn (g.0, g.1.1, g.2, g.3.1))
      (λ f.
        Holds-if (Going strms) strm.flags.shut_wr (ok conn') (call event conn')
          (λ t. Holds-ok (Going strms) conn' (h', g.1.1, g.2, g.3.1))
          (λ f'. call-Holds (Going strms) event conn' (h', g.1.1, g.2, g.3.1)))

set_max-Going :
    (strm : Strm) (strms : List Strm) (conn : Conn)
    → Going (strm ∷ strms) conn
    → Holds (Going strms) (set_max_stream_offset strm conn)
unfolding set_max_stream_offset
set_max-Going strm strms conn g = Holds-check (Going strms) (not conn.server) _ (ap not g.2) (
    Holds-check (Going strms) (local_stream conn strm.stream_id) _ g.3.0
      (raise_offset-Going _ strm strms conn g))

set_all-IsConn :
    (strms : List Strm) (conn : Conn) → Going strms conn → Holds IsConn (set_all strms conn)
set_all-IsConn [] conn g = Holds-ok IsConn conn g.0
set_all-IsConn (strm ∷ strms) conn g =
    Holds-bind (Going strms) IsConn (set_max_stream_offset strm conn) (set_all strms)
      (set_max-Going strm strms conn g) (λ c k. set_all-IsConn strms c k)

call_if-IsConn :
    (n : ℕ) (event : Event) (conn : Conn) → IsConn conn → Holds IsConn (call_if n event conn)
call_if-IsConn n event conn h =
    Holds-if IsConn (n == 0) (ok conn) (call event conn) (λ t. Holds-ok IsConn conn h)
      (λ f. call-Holds IsConn event conn h)

announce-IsConn :
    (params : TransportParams) (conn : Conn) → IsConn conn → Holds IsConn (announce params conn)
announce-IsConn params conn h =
    let bidi = Event.extend_max_local_streams_bidi params.initial_max_streams_bidi in
    let uni = Event.extend_max_local_streams_uni params.initial_max_streams_uni in
    let event = Event.recv_transport_params params in
    Holds-bind IsConn IsConn (call event conn >>= call_if params.initial_max_streams_bidi bidi)
      (call_if params.initial_max_streams_uni uni)
      (Holds-bind IsConn IsConn (call event conn) (call_if params.initial_max_streams_bidi bidi)
        (call-Holds IsConn event conn h)
        (λ c k. call_if-IsConn params.initial_max_streams_bidi bidi c k))
      (λ c k. call_if-IsConn params.initial_max_streams_uni uni c k)

with_params-IsConn :
    (params : TransportParams) (conn : Conn)
    → IsValid params
    → IsConn conn
    → IsConn (with_params params conn)
with_params-IsConn params conn v h =
    let b = h.0.2.0 in
    let u = h.0.2.1 in
    (
      (h.0.0, h.0.1, ((v.streams_bidi, b.1, b.2), (v.streams_uni, u.1, u.2)), h.0.3, h.0.4, h.0.5),
      h.1,
      h.2,
      h.3,
    )

accept_params-IsConn :
    (params : TransportParams) (conn : Conn)
    → IsValid params
    → IsConn conn
    → All (λ s. (conn.server || local_stream conn s.stream_id) ≡ true) conn.strms
    → Holds IsConn (accept_params params conn)
accept_params-IsConn params conn v h l =
    let conn' = with_params params conn in
    let h' = with_params-IsConn params conn v h in
    Holds-bind IsConn IsConn (if conn.server then ok conn' else set_all conn.strms conn')
      (announce params)
      (Holds-if IsConn conn.server (ok conn') (set_all conn.strms conn')
        (λ t. Holds-ok IsConn conn' h')
        (λ f. set_all-IsConn conn.strms conn' (
          h',
          h.2,
          f,
          All-map (λ s. (conn.server || local_stream conn s.stream_id) ≡ true)
              (λ s. local_stream conn s.stream_id ≡ true) (λ s k. client_side conn.server _ f k)
              conn.strms l,
        )))
      (λ c k. announce-IsConn params c k)
  where
    client_side : (a b : Bool) → a ≡ false → (a || b) ≡ true → b ≡ true
    client_side a b e k = ground arith

validate-Passes :
    (server : Bool) (early params : TransportParams)
    → server ≡ false
    → Passes (validate_early_transport_params server early params)
unfolding validate_early_transport_params
validate-Passes server early params e =
    Holds-check (λ (u : Unit {0}). Unit {0}) (not server) _ (ap not e) (guard-Passes _ _)

-- The peer's transport parameters, as any bytes, leave a state in order or are an error, and no assertion
-- fails, where a side that remembers early parameters is a client, and every stream of a client is its
-- own.
pub recv_transport_params-IsConn :
    (bytes : List ℕ) (conn : Conn)
    → All IsByte bytes
    → IsConn conn
    → (conn.early_transport_params_set && conn.server) ≡ false
    → All (λ s. (conn.server || local_stream conn s.stream_id) ≡ true) conn.strms
    → Holds IsConn (recv_transport_params bytes conn)
unfolding recv_transport_params Holds
recv_transport_params-IsConn bytes conn b h e l =
    decoded (TransportParams.decode bytes) (decode-Decoded bytes b)
  where
    early : TransportParams → Result (Unit {0})
    early params =
        if conn.early_transport_params_set
        then validate_early_transport_params conn.server conn.remote_params params
        else ok tt

    early-Passes : (params : TransportParams) → Passes (early params)
    early-Passes params =
        Holds-if (λ (u : Unit {0}). Unit {0}) conn.early_transport_params_set _ (ok tt)
          (λ t.
            validate-Passes conn.server conn.remote_params params
              (client conn.early_transport_params_set conn.server t e))
          (λ f. tt)
      where
        client : (a b : Bool) → a ≡ true → (a && b) ≡ false → b ≡ false
        client a b t e = ground arith

    accepted : TransportParams → Result Conn
    accepted params =
        guard (leb default_max_record_size params.max_record_size) malformed_transport_param
        >> (early params >> accept_params params conn)

    decoded : (r : Result TransportParams) → Decoded r → Holds IsConn (r >>= accepted)
    decoded (ok params) (valid_params v) =
        Holds-guard IsConn (leb default_max_record_size params.max_record_size)
          malformed_transport_param (early params >> accept_params params conn)
          (λ g.
            Holds-bind (λ (u : Unit {0}). Unit {0}) IsConn (early params)
              (λ u. accept_params params conn) (early-Passes params)
              (λ u k. accept_params-IsConn params conn v h l))
    decoded (err code) malformed = tt
    decoded fault d = elim d [ ]
