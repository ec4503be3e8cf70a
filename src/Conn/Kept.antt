-- ===== src/Conn/Kept.antt =====
-- The handlers of frames on streams leave the state in order, and no assertion in them fails.
use dwnx.Prelude.{
  ℕ, ◌+◌, min, ◌%◌, ◌^◌, ◌≤◌, ◌≡◌, ap, ◌∙◌, arith, List, [], ◌∷◌, Bool, true, false, not, ◌||◌, ltb,
  ◌==◌, if◌then◌else◌, Option, none, some,
}
use dwnx.Prelude.{
  Error, Result, ok, ◌>>=◌, ◌>>◌, guard, proto, flow_control, final_size, length, Holds, Holds-bind,
  Holds-guard, Holds-if, Holds-ok, Holds-err,
}
use dwnx.Strm.{Strm, shutdown}
use dwnx.Vec.{max_varint}
use dwnx.Frame
use dwnx.Conn.{Conn, Event, absent, find, put_strm, sub64, call}
use dwnx.Conn.Credit.{max_data_violated, extend_max_offset, extend_offset}
use dwnx.Conn.Streams.{close_stream_if_shut_rdwr}
use dwnx.Conn.Receive.{
  check_bidi, check_recv, check_send, live, account, end_of_stream, recv_stream, deliver,
  recv_stream_data, recv_reset_stream, reset_strm, stream_frame, reset_frame, stream_for,
}
use dwnx.Conn.Strms.{find-All, find-replace}
use dwnx.Conn.Invariant.{IsConn, IsStrm, IsIn, call-Holds, Holds-call}
use dwnx.Conn.Queue.{put_strm-IsConn}
use dwnx.Conn.Dequeue.{close-IsConn}
use dwnx.Conn.Open.{Found}
use dwnx.Conn.OpenId.{Reached, stream_for-Reached}

-- A guard by itself does not fault.
abbrev pub Passes : Result (Unit {0}) → Type 0
Passes r = Holds (λ (u : Unit {0}). Unit {0}) r

pub guard-Passes : (b : Bool) (e : Error) → Passes (guard b e)
unfolding Holds
guard-Passes true e = tt
guard-Passes false e = tt

pub if-Passes :
    (b : Bool) (x y : Result (Unit {0})) → Passes x → Passes y → Passes (if b then x else y)
if-Passes true x y h k = h
if-Passes false x y h k = k

check_bidi-Passes : (conn : Conn) (id : ℕ) → Passes (check_bidi conn id)
check_bidi-Passes conn id = if-Passes _ _ _ (guard-Passes _ _) (guard-Passes _ _)

pub check_recv-Passes : (conn : Conn) (id : ℕ) → Passes (check_recv conn id)
unfolding check_recv
check_recv-Passes conn id =
    if-Passes _ _ _ (check_bidi-Passes conn id)
      (if-Passes _ _ _ (Holds-err (λ u. Unit {0}) _) (guard-Passes _ _))

pub check_send-Passes : (conn : Conn) (id : ℕ) → Passes (check_send conn id)
unfolding check_send
check_send-Passes conn id = if-Passes _ _ _ (check_bidi-Passes conn id) (guard-Passes _ _)

-- A stream that is written back may be closed.
pub close_put-IsConn :
    (strm : Strm) (conn : Conn)
    → IsConn conn
    → IsIn conn strm
    → Holds IsConn (close_stream_if_shut_rdwr strm (put_strm strm conn))
close_put-IsConn strm conn h s =
    close-IsConn strm (put_strm strm conn) (put_strm-IsConn strm conn h s.0)
      (s.0, find-replace strm.stream_id strm conn.strms ∙ s.1)

live-Found :
    (id ts : ℕ) (o : Option Strm) (conn : Conn)
    → Reached id ts (o, conn)
    → Holds (λ (strm : Strm). Found id ts strm conn) (live o)
unfolding Holds
live-Found id ts none conn r = tt
live-Found id ts (some strm) conn r = r

-- `conn` after an account, with the stream.
abbrev Counted : Strm × Conn → Type 0
Counted r = IsConn r.1 × IsIn r.1 r.0

fits_stream : (m e : ℕ) (v : Bool) → not (ltb m e || v) ≡ true → (e ≤ m) × (v ≡ false)
fits_stream m e v h = ground arith

counted :
    (max off len : ℕ)
    → off ≤ max
    → max ≤ max_varint
    → ltb (sub64 max off) len ≡ false
    → len ≤ max_varint
    → (off + len) % 2 ^ 64 ≤ max
counted max off len l m v k = ground arith

account-Counted :
    (fr : Frame.Stream) (id ts : ℕ) (strm : Strm) (conn : Conn)
    → Found id ts strm conn
    → fr.len ≤ max_varint
    → Holds Counted (account fr strm conn)
unfolding account
account-Counted fr id ts strm conn f k = Holds-guard Counted _ _ _ (λ g.
    let end = (fr.offset + fr.len) % 2 ^ 64 in
    let strm' = record strm { rx = record strm.rx { last_offset = end } } in
    let rx = record conn.rx { offset = (conn.rx.offset + fr.len) % 2 ^ 64 } in
    let conn' = record conn { rx = rx } in
    let h = f.0 in
    let s = f.1.0 in
    let w = fits_stream strm.rx.max_offset end (max_data_violated conn fr.len) g in
    let book = h.0.0 in
    let limit : conn.rx.max_offset ≤ max_varint = omega (arith, book.1, book.2) in
    let n = counted conn.rx.max_offset conn.rx.offset fr.len book.0 limit w.1 k in
    let s' : IsStrm conn' strm' = ((w.0, s.0.1, s.0.2), s.1, s.2, s.3) in
    let h' : IsConn conn' =
      (((n, book.1, book.2), h.0.1, h.0.2, h.0.3, h.0.4, h.0.5), h.1, h.2, h.3) in
    Holds-ok Counted (strm', put_strm strm' conn')
      (
        put_strm-IsConn strm' conn' h' s',
        (s', find-replace strm.stream_id strm' conn.strms ∙ f.1.1),
      ))

end_of_stream-IsConn :
    (fr : Frame.Stream) (strm : Strm) (conn : Conn)
    → IsConn conn
    → IsIn conn strm
    → Holds IsConn (end_of_stream fr strm conn)
unfolding end_of_stream
end_of_stream-IsConn fr strm conn h s =
    let strm' = shutdown true false strm in
    let closes = close_stream_if_shut_rdwr strm' in
    let event = Event.recv_stream_data true strm.stream_id fr.offset [] in
    Holds-if IsConn (not fr.fin) (ok conn) _ (λ t. Holds-ok IsConn conn h)
      (λ f.
        Holds-if IsConn (fr.len == 0) (call event (put_strm strm' conn) >>= closes) _
          (λ z. Holds-call IsConn event (put_strm strm' conn) closes (
            close-IsConn strm' (record (put_strm strm' conn) { calls = event ∷ conn.calls })
              (put_strm-IsConn strm' conn h s.0)
              (s.0, find-replace strm.stream_id strm' conn.strms ∙ s.1)))
          (λ n. close-IsConn strm conn h s))

stream_frame-IsConn :
    (fr : Frame.Stream) (id ts : ℕ) (r : Option Strm × Conn)
    → Reached id ts r
    → fr.len ≤ max_varint
    → Holds IsConn (stream_frame fr r)
unfolding Holds
stream_frame-IsConn fr id ts (none, conn) h k = tt
stream_frame-IsConn fr id ts (some strm, conn) h k =
    Holds-guard IsConn (not (strm.flags.shut_rd || not (strm.rx.last_offset == fr.offset))) proto
      (account fr strm conn >>= (λ r. end_of_stream fr r.0 r.1))
      (λ g.
        Holds-bind Counted IsConn (account fr strm conn) (λ r. end_of_stream fr r.0 r.1)
          (account-Counted fr id ts strm conn h k)
          (λ c counted. end_of_stream-IsConn fr c.0 c.1 counted.0 counted.1))

-- A STREAM frame of numbers that varints hold leaves the state in order or is an error, and no assertion
-- in its handler fails.
pub recv_stream-IsConn :
    (fr : Frame.Stream) (conn : Conn)
    → IsConn conn
    → fr.stream_id ≤ max_varint
    → fr.len ≤ max_varint
    → Holds IsConn (recv_stream fr conn)
unfolding recv_stream
recv_stream-IsConn fr conn h l k =
    let id = fr.stream_id in
    let ts = conn.glitch_rlim.ts in
    let handled = stream_for id (ok tt) conn >>= stream_frame fr in
    let test = not (ltb (sub64 max_varint fr.len) fr.offset) in
    Holds-bind (λ (u : Unit {0}). Unit {0}) IsConn (check_recv conn id)
      (λ u. guard test flow_control >> handled) (check_recv-Passes conn id)
      (λ u v. Holds-guard IsConn test flow_control handled (λ g.
        Holds-bind (Reached id ts) IsConn (stream_for id (ok tt) conn) (stream_frame fr)
          (stream_for-Reached id ts (ok tt) conn h (omega arith) (omega arith)
            (Holds-ok (λ u. Unit {0}) tt tt))
          (λ r reached. stream_frame-IsConn fr id ts r reached k)))

reset_frame-IsConn :
    (fr : Frame.ResetStream) (id ts : ℕ) (r : Option Strm × Conn)
    → Reached id ts r
    → Holds IsConn (reset_frame fr r)
unfolding Holds
reset_frame-IsConn fr id ts (none, conn) h = tt
reset_frame-IsConn fr id ts (some strm, conn) h =
    let event = Event.stream_reset fr.stream_id fr.final_size fr.app_error_code in
    let strm' = reset_strm fr strm in
    let closes = λ (conn : Conn). close_stream_if_shut_rdwr strm' (put_strm strm' conn) in
    let s = h.1 in
    Holds-guard IsConn (not strm.flags.shut_rd) proto
      (guard (strm.rx.last_offset == fr.final_size) final_size >> (call event conn >>= closes))
      (λ g.
        Holds-guard IsConn (strm.rx.last_offset == fr.final_size) final_size
          (call event conn >>= closes)
          (λ g'.
            Holds-call IsConn event conn closes
              (close_put-IsConn strm' (record conn { calls = event ∷ conn.calls }) h.0 s)))

-- A RESET_STREAM frame with a stream ID that a varint holds leaves the state in order or is an error, and
-- no assertion in its handler fails.
pub recv_reset_stream-IsConn :
    (fr : Frame.ResetStream) (conn : Conn)
    → IsConn conn
    → fr.stream_id ≤ max_varint
    → Holds IsConn (recv_reset_stream fr conn)
unfolding recv_reset_stream
recv_reset_stream-IsConn fr conn h l =
    let id = fr.stream_id in
    let ts = conn.glitch_rlim.ts in
    let allowed = guard (fr.final_size == 0) final_size in
    Holds-bind (λ (u : Unit {0}). Unit {0}) IsConn (check_recv conn id)
      (λ u. stream_for id allowed conn >>= reset_frame fr) (check_recv-Passes conn id)
      (λ u v.
        Holds-bind (Reached id ts) IsConn (stream_for id allowed conn) (reset_frame fr)
          (stream_for-Reached id ts allowed conn h (omega arith) (omega arith)
            (guard-Passes (fr.final_size == 0) final_size))
          (λ r reached. reset_frame-IsConn fr id ts r reached))

-- Extending a limit adds to it, up to the greatest varint.
pub extend_offset-min :
    (unsent n : ℕ) → unsent ≤ max_varint → extend_offset unsent n ≡ min (unsent + n) max_varint
extend_offset-min unsent n h = ground arith

pub extend_max_offset-IsConn :
    (n : ℕ) (conn : Conn) → IsConn conn → IsConn (extend_max_offset n conn)
extend_max_offset-IsConn n conn h =
    let book = h.0.0 in
    let e = extend_offset-min conn.rx.unsent_max_offset n book.2 in
    (
      (
        (book.0, omega (arith, book.1, book.2, e), omega (arith, e)),
        h.0.1,
        h.0.2,
        h.0.3,
        h.0.4,
        h.0.5,
      ),
      h.1,
      h.2,
      h.3,
    )

deliver-IsIn :
    (strm : Strm) (fin : Bool) (offset : ℕ) (bytes : List ℕ) (conn : Conn)
    → IsConn conn
    → IsIn conn strm
    → Holds (λ c. IsConn c × IsIn c strm) (deliver strm fin offset bytes conn)
unfolding deliver
deliver-IsIn strm fin offset bytes conn h s =
    let event = Event.recv_stream_data fin strm.stream_id offset bytes in
    let Q = λ (c : Conn). IsConn c × IsIn c strm in
    Holds-if Q strm.flags.stop_sending (ok (extend_max_offset (length bytes) conn))
      (call event conn) (λ t. Holds-ok Q _ (extend_max_offset-IsConn (length bytes) conn h, s))
      (λ f. call-Holds Q event conn (h, s))

-- On a connection in order, data that comes for a stream as it is in the map leaves the state in order, unless
-- a callback refuses it, which is an error, and no assertion in its handler fails.
pub recv_stream_data-IsConn :
    (strm : Strm) (fin : Bool) (offset : ℕ) (bytes : List ℕ) (conn : Conn)
    → IsConn conn
    → find strm.stream_id conn.strms ≡ some strm
    → Holds IsConn (recv_stream_data strm fin offset bytes conn)
unfolding recv_stream_data
recv_stream_data-IsConn strm fin offset bytes conn h e =
    let strm' = shutdown true false strm in
    let rest = λ (conn : Conn).
      if fin then close_stream_if_shut_rdwr strm' (put_strm strm' conn) else ok conn in
    let s : IsIn conn strm =
      ((find-All (IsStrm conn) strm.stream_id conn.strms strm h.2 e).0, ap absent e) in
    Holds-bind (λ (c : Conn). IsConn c × IsIn c strm) IsConn (deliver strm fin offset bytes conn)
      rest (deliver-IsIn strm fin offset bytes conn h s)
      (λ c k.
        Holds-if IsConn fin (close_stream_if_shut_rdwr strm' (put_strm strm' c)) (ok c)
          (λ t. close_put-IsConn strm' c k.0 k.1) (λ f. Holds-ok IsConn c k.0))
