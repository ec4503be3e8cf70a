-- ===== src/Conn/Present.antt =====
-- The stream of a STREAM frame with data stays in the map until its data has come.
use dwnx.Prelude.{
  ℕ, ◌+◌, ◌%◌, ◌^◌, ◌≤◌, ◌≡◌, sym, subst, ◌∙◌, arith, List, [], ◌∷◌, Bool, true, false, not, ◌||◌,
  ◌&&◌, ltb, ◌==◌, if◌then◌else◌, Option, none, some, length,
}
use dwnx.Prelude.{
  Result, ok, ◌>>=◌, ◌>>◌, guard, proto, flow_control, callback_failure, err, OnOk, OnOk-bind,
  OnOk-then, OnOk-guard, OnOk-passed, OnOk-if, OnOk-ok, OnOk-err, Holds-OnOk, Holds-ok,
}
use dwnx.Strm.{Strm, shutdown, should_close_stream}
use dwnx.Vec.{max_varint}
use dwnx.Frame
use dwnx.Conn.{Conn, Event, call, find, absent, put_strm, sub64}
use dwnx.Conn.Streams.{close_stream, close_stream_if_shut_rdwr}
use dwnx.Conn.Receive.{
  check_recv, account, end_of_stream, stream_for, stream_frame, recv_stream, deliver,
  recv_stream_data,
}
use dwnx.Conn.Credit.{extend_max_offset}
use dwnx.Conn.Strms.{find-replace}
use dwnx.Conn.Invariant.{IsConn}
use dwnx.Conn.OpenId.{Reached, stream_for-Reached}

-- The stream ID leads to a stream of the map.
abbrev pub Present : ℕ → Conn → Type 0
Present id conn = absent (find id conn.strms) ≡ false

-- A stream that is open for reading is not closed.
open_for_reading : (a b c d : Bool) → not (a || b) ≡ true → (a && c && d) ≡ false
open_for_reading a b c d e = ground arith

end_of_stream-Present :
    (fr : Frame.Stream) (id : ℕ) (strm : Strm) (conn : Conn)
    → Present id conn
    → (fr.len == 0) ≡ false
    → should_close_stream strm ≡ false
    → OnOk (Present id) (end_of_stream fr strm conn)
unfolding end_of_stream close_stream_if_shut_rdwr
end_of_stream-Present fr id strm conn h n s =
    OnOk-if (Present id) (not fr.fin) (ok conn) _ (OnOk-ok (Present id) conn h) (
      subst (λ b. OnOk (Present id) (if b then ended else close_stream_if_shut_rdwr strm conn))
        (sym n)
        (subst (λ b. OnOk (Present id) (if b then close_stream strm conn else ok conn)) (sym s)
          (OnOk-ok (Present id) conn h)))
  where
    ended : Result Conn
    ended =
        call (Event.recv_stream_data true strm.stream_id fr.offset [])
          (put_strm (shutdown true false strm) conn)
        >>= close_stream_if_shut_rdwr (shutdown true false strm)

-- What an account leaves, with a stream that is not closed.
abbrev Kept : ℕ → Strm × Conn → Type 0
Kept id r = Present id r.1 × (should_close_stream r.0 ≡ false)

account-Kept :
    (fr : Frame.Stream) (id : ℕ) (strm : Strm) (conn : Conn)
    → Present id conn
    → should_close_stream strm ≡ false
    → OnOk (Kept id) (account fr strm conn)
unfolding account
account-Kept fr id strm conn h s =
    OnOk-guard (Kept id) _ _ _
      (OnOk-ok (Kept id) (strm', put_strm strm' conn') (find-replace id strm' conn.strms ∙ h, s))
  where
    strm' : Strm
    strm' = record strm { rx = record strm.rx { last_offset = (fr.offset + fr.len) % 2 ^ 64 } }

    conn' : Conn
    conn' = record conn { rx = record conn.rx { offset = (conn.rx.offset + fr.len) % 2 ^ 64 } }

stream_frame-Present :
    (fr : Frame.Stream) (id ts : ℕ) (r : Option Strm × Conn)
    → Reached id ts r
    → (fr.len == 0) ≡ false
    → OnOk (Present id) (stream_frame fr r)
unfolding OnOk
stream_frame-Present fr id ts (none, conn) h n = tt
stream_frame-Present fr id ts (some strm, conn) h n =
    let rest = λ (r : Strm × Conn). end_of_stream fr r.0 r.1 in
    let here = subst (λ i. Present i conn) h.2 h.1.1 in
    OnOk-passed (Present id) (not (strm.flags.shut_rd || not (strm.rx.last_offset == fr.offset)))
      proto (account fr strm conn >>= rest)
      (λ g.
        OnOk-bind (Kept id) (Present id) (account fr strm conn) rest
          (account-Kept fr id strm conn here (
            open_for_reading strm.flags.shut_rd _ strm.flags.shut_wr
              (not strm.flags.send_reset_stream) g))
          (λ r k. end_of_stream-Present fr id r.0 r.1 k.0 n k.1))

-- After a STREAM frame with data, its stream is there.
pub recv_stream-Present :
    (fr : Frame.Stream) (conn : Conn)
    → IsConn conn
    → fr.stream_id ≤ max_varint
    → (fr.len == 0) ≡ false
    → OnOk (Present fr.stream_id) (recv_stream fr conn)
unfolding recv_stream
recv_stream-Present fr conn h l n =
    let id = fr.stream_id in
    let ts = conn.glitch_rlim.ts in
    let found = stream_for id (ok tt) conn in
    let test = not (ltb (sub64 max_varint fr.len) fr.offset) in
    OnOk-then (λ u. Unit {0}) (Present id) (check_recv conn id)
      (λ u. guard test flow_control >> (found >>= stream_frame fr))
      (λ u. OnOk-guard (Present id) test flow_control (found >>= stream_frame fr) (
        OnOk-bind (Reached id ts) (Present id) found (stream_frame fr)
          (Holds-OnOk (Reached id ts) found (
            stream_for-Reached id ts (ok tt) conn h (omega arith) (omega arith)
              (Holds-ok (λ u. Unit {0}) tt tt)))
          (λ r reached. stream_frame-Present fr id ts r reached n)))

-- Data that is not the last leaves the streams where they are.
pub recv_stream_data-Present :
    (strm : Strm) (id offset : ℕ) (bytes : List ℕ) (conn : Conn)
    → Present id conn
    → OnOk (Present id) (recv_stream_data strm false offset bytes conn)
unfolding recv_stream_data deliver
recv_stream_data-Present strm id offset bytes conn h =
    OnOk-bind (Present id) (Present id) (deliver strm false offset bytes conn) (λ c. ok c)
      (OnOk-if (Present id) strm.flags.stop_sending (ok (extend_max_offset (length bytes) conn))
        (call event conn) (OnOk-ok (Present id) (extend_max_offset (length bytes) conn) h)
        (accepted (conn.accepts event)))
      (λ c k. OnOk-ok (Present id) c k)
  where
    event : Event
    event = Event.recv_stream_data false strm.stream_id offset bytes

    accepted :
        (b : Bool)
        → OnOk
            (Present id)
            (if b then ok (record conn { calls = event ∷ conn.calls }) else err callback_failure)
    accepted true = OnOk-ok (Present id) (record conn { calls = event ∷ conn.calls }) h
    accepted false = OnOk-err (Present id) callback_failure
