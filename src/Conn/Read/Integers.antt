-- ===== src/Conn/Read/Integers.antt =====
-- The frames of one and of two integers come to their handlers.
use dwnx.Prelude.{
  ℕ, ◌-◌, ◌+◌, ◌≤◌, ◌<◌, ◌≡◌, refl, ap, ◌∙◌, arith, List, [], ◌++◌, true, not, ◌==◌, leb, length,
  All, IsByte, All-append, length-append, none,
}
use dwnx.Prelude.{Result, ok, err, fault, ◌>>=◌, ◌>>◌}
use dwnx.Conv.Wire.{varint_bytes, IsVarint, varint_bytes-IsByte, length-varint_bytes}
use dwnx.Frame
use dwnx.Frame.{Frame}
use dwnx.Frame.FrameType
use dwnx.Frame.Wire.{wire}
use dwnx.RecordReader.{State}
use dwnx.Conn.{Conn}
use dwnx.Conn.Setup.{recv_qx_ping}
use dwnx.Conn.Receive.{recv_reset_stream}
use dwnx.Conn.Credits.{
  recv_stop_sending, recv_max_data, recv_max_stream_data, recv_max_streams, recv_streams_blocked,
  recv_data_blocked, recv_stream_data_blocked,
}
use dwnx.Conn.Read.{
  Reading, Flow, more, varint_field, with_state, with_fr, handled, checked, fall_through,
}
use dwnx.Conn.Read.Control.{
  stop_stream_id, stop_app_error_code, max_data, max_data_stream_id, max_stream_data,
  blocked_offset, stream_blocked_id, stream_blocked_offset,
}
use dwnx.Conn.Read.Start.{type_switch}
use dwnx.Conn.Read.Loop.{cases, conn_read}
use dwnx.Conn.Read.Whole.{at, field-whole, field-last}
use dwnx.Conn.Read.Dispatch.{between, view, record_bytes, not_end, typed, two_rounds}

-- The frames that are no more than a type and integers.
abbrev pub IsIntegers : Frame → Type 0
IsIntegers (Frame.reset_stream fr) = Unit
IsIntegers (Frame.stop_sending fr) = Unit
IsIntegers (Frame.max_data fr) = Unit
IsIntegers (Frame.max_stream_data fr) = Unit
IsIntegers (Frame.max_streams fr) = Unit
IsIntegers (Frame.data_blocked fr) = Unit
IsIntegers (Frame.stream_data_blocked fr) = Unit
IsIntegers (Frame.streams_blocked fr) = Unit
IsIntegers (Frame.qx_ping fr) = Unit
IsIntegers _ = ⊥

-- The handler of such a frame.
abbrev pub handler : Frame → ℕ → Conn → Result Conn
handler (Frame.reset_stream fr) ts conn = recv_reset_stream fr conn
handler (Frame.stop_sending fr) ts conn = recv_stop_sending fr ts conn
handler (Frame.max_data fr) ts conn = recv_max_data fr conn
handler (Frame.max_stream_data fr) ts conn = recv_max_stream_data fr ts conn
handler (Frame.max_streams fr) ts conn = recv_max_streams fr conn
handler (Frame.data_blocked fr) ts conn = do recv_data_blocked fr conn; ok conn
handler (Frame.stream_data_blocked fr) ts conn = do recv_stream_data_blocked fr conn; ok conn
handler (Frame.streams_blocked fr) ts conn = do recv_streams_blocked fr conn; ok conn
handler (Frame.qx_ping fr) ts conn = recv_qx_ping fr ts conn
handler _ ts conn = fault

-- A read of one record with the frame, at the time `ts`, comes to the frame's handler.
abbrev pub Dispatches : ℕ → Reading → Frame → Type 0
Dispatches ts r fr =
    (conn_read (record_bytes (wire fr)) ts (between r) >>= view)
    ≡ (handler fr ts r.conn >>= (λ conn. ok (none, conn, State.record_size, ts)))

pub checked-handled :
    (ts : ℕ) (m : Result (Unit {0})) (r : Reading) → checked ts m r ≡ handled ts (m >> ok r.conn) r
unfolding checked handled
checked-handled ts fault r = refl
checked-handled ts (err e) r = refl
checked-handled ts (ok u) r = refl

pub some_bytes : (v : ℕ) → 0 < length (varint_bytes v)
some_bytes v = omega (arith, length-varint_bytes v)

pub self : (n : ℕ) → n ≤ n
self n = omega arith

pub goes_on :
    (r r' : Reading) (state : State) (next : Reading → Result Flow)
    → 0 < r.rcrd.record_left
    → 0 < length r'.p
    → (more r >> fall_through state next r') ≡ next (with_state state r')
unfolding fall_through
goes_on r r' state next h k = rw (some_left r.rcrd.record_left h, not_end r'.p k) refl
  where
    some_left : (n : ℕ) → 0 < n → not (n == 0) ≡ true
    some_left n h = ground arith

-- The bytes of one, two and three integers.
module _ (a b c : ℕ) where
  abbrev two : List ℕ
  two = varint_bytes a ++ varint_bytes b

  abbrev three : List ℕ
  three = varint_bytes a ++ (varint_bytes b ++ varint_bytes c)

  size_two : length two ≡ length (varint_bytes a) + length (varint_bytes b)
  size_two = length-append (varint_bytes a) (varint_bytes b)

  pub size_three :
      length three ≡ length (varint_bytes a) + (length (varint_bytes b) + length (varint_bytes c))
  size_three =
      length-append (varint_bytes a) (varint_bytes b ++ varint_bytes c)
      ∙ ap (λ n. length (varint_bytes a) + n) (length-append (varint_bytes b) (varint_bytes c))

  pub two-IsByte : IsVarint a → IsVarint b → All IsByte two
  two-IsByte h k =
      All-append IsByte (varint_bytes a) (varint_bytes b) (varint_bytes-IsByte a h)
        (varint_bytes-IsByte b k)

module _ (ts : ℕ) (r : Reading) (l : r.last_ts ≤ ts) where
  pub max_data-Dispatches :
      (fr : Frame.MaxData)
      → IsVarint fr.max_data
      → leb (length (wire (Frame.max_data fr))) r.conn.local_params.max_record_size ≡ true
      → Dispatches ts r (Frame.max_data fr)
  unfolding wire type_switch cases max_data
  max_data-Dispatches fr h fits =
      let body = varint_bytes fr.max_data in
      let r1 = typed ts body r in
      let x = with_state State.max_data_max_data r1 in
      let y = with_fr (record r.rcrd.fr { max_data = fr }) x in
      two_rounds FrameType.max_data ts body State.max_data_max_data r r1 y (recv_max_data fr r.conn)
        (length body - length body) (omega arith) (some_bytes fr.max_data)
        (omega (arith, length-varint_bytes fr.max_data))
        (omega arith, varint_bytes-IsByte fr.max_data h) l fits refl refl refl
        (field-last (λ vint vlen. max_data ts vint) fr.max_data (length body) x h
          (self (length body)))
        (omega arith)

  pub data_blocked-Dispatches :
      (fr : Frame.DataBlocked)
      → IsVarint fr.max_data
      → leb (length (wire (Frame.data_blocked fr))) r.conn.local_params.max_record_size ≡ true
      → Dispatches ts r (Frame.data_blocked fr)
  unfolding wire type_switch cases blocked_offset
  data_blocked-Dispatches fr h fits =
      let body = varint_bytes fr.max_data in
      let r1 = typed ts body r in
      let x = with_state State.data_blocked_offset r1 in
      let y = with_fr (record r.rcrd.fr { data_blocked = fr }) x in
      two_rounds FrameType.data_blocked ts body State.data_blocked_offset r r1 y
        (recv_data_blocked fr r.conn >> ok r.conn) (length body - length body) (omega arith)
        (some_bytes fr.max_data) (omega (arith, length-varint_bytes fr.max_data))
        (omega arith, varint_bytes-IsByte fr.max_data h) l fits refl refl refl
        (field-last (λ vint vlen. blocked_offset ts vint) fr.max_data (length body) x h
            (self (length body))
          ∙ checked-handled ts (recv_data_blocked fr r.conn) (at (length body - length body) [] y))
        (omega arith)

  pub stop_sending-Dispatches :
      (fr : Frame.StopSending)
      → IsVarint fr.stream_id
      → IsVarint fr.app_error_code
      → leb (length (wire (Frame.stop_sending fr))) r.conn.local_params.max_record_size ≡ true
      → Dispatches ts r (Frame.stop_sending fr)
  unfolding wire type_switch cases stop_stream_id stop_app_error_code
  stop_sending-Dispatches fr h k fits =
      let a = varint_bytes fr.stream_id in
      let b = varint_bytes fr.app_error_code in
      let n = size_two fr.stream_id fr.app_error_code 0 in
      let na = length-varint_bytes fr.stream_id in
      let nb = length-varint_bytes fr.app_error_code in
      let body = a ++ b in
      let left = length body - length a - length b in
      let r1 = typed ts body r in
      let x = with_state State.stop_sending_stream_id r1 in
      let fr1 = record r.rcrd.fr.stop_sending { stream_id = fr.stream_id } in
      let x1 =
        with_fr (record r.rcrd.fr { stop_sending = fr1 }) (at (length body - length a) b x) in
      let x2 = with_state State.stop_sending_app_error_code x1 in
      let y = with_fr (record r.rcrd.fr { stop_sending = fr }) x2 in
      two_rounds FrameType.stop_sending ts body State.stop_sending_stream_id r r1 y
        (recv_stop_sending fr ts r.conn) left (omega arith) (omega (arith, n, na))
        (omega (arith, n, na, nb)) (omega arith, two-IsByte fr.stream_id fr.app_error_code 0 h k) l
        fits refl refl refl
        (field-whole (λ vint vlen. stop_stream_id ts vint) fr.stream_id (length body) b x h
            (varint_bytes-IsByte fr.app_error_code k) (omega (arith, n))
          ∙ goes_on (at (length body - length a) b x) x1 State.stop_sending_app_error_code
              (varint_field (stop_app_error_code ts)) (omega (arith, n, nb)) (omega (arith, nb))
          ∙ field-last (λ vint vlen. stop_app_error_code ts vint) fr.app_error_code
              (length body - length a) x2 k (omega (arith, n)))
        (omega (arith, n))

  pub max_stream_data-Dispatches :
      (fr : Frame.MaxStreamData)
      → IsVarint fr.stream_id
      → IsVarint fr.max_stream_data
      → leb (length (wire (Frame.max_stream_data fr))) r.conn.local_params.max_record_size ≡ true
      → Dispatches ts r (Frame.max_stream_data fr)
  unfolding wire type_switch cases max_data_stream_id max_stream_data
  max_stream_data-Dispatches fr h k fits =
      let a = varint_bytes fr.stream_id in
      let b = varint_bytes fr.max_stream_data in
      let n = size_two fr.stream_id fr.max_stream_data 0 in
      let na = length-varint_bytes fr.stream_id in
      let nb = length-varint_bytes fr.max_stream_data in
      let body = a ++ b in
      let left = length body - length a - length b in
      let r1 = typed ts body r in
      let x = with_state State.max_stream_data_stream_id r1 in
      let fr1 = record r.rcrd.fr.max_stream_data { stream_id = fr.stream_id } in
      let x1 =
        with_fr (record r.rcrd.fr { max_stream_data = fr1 }) (at (length body - length a) b x) in
      let x2 = with_state State.max_stream_data_max_stream_data x1 in
      let y = with_fr (record r.rcrd.fr { max_stream_data = fr }) x2 in
      two_rounds FrameType.max_stream_data ts body State.max_stream_data_stream_id r r1 y
        (recv_max_stream_data fr ts r.conn) left (omega arith) (omega (arith, n, na))
        (omega (arith, n, na, nb)) (omega arith, two-IsByte fr.stream_id fr.max_stream_data 0 h k) l
        fits refl refl refl
        (field-whole (λ vint vlen. max_data_stream_id ts vint) fr.stream_id (length body) b x h
            (varint_bytes-IsByte fr.max_stream_data k) (omega (arith, n))
          ∙ goes_on (at (length body - length a) b x) x1 State.max_stream_data_max_stream_data
              (varint_field (max_stream_data ts)) (omega (arith, n, nb)) (omega (arith, nb))
          ∙ field-last (λ vint vlen. max_stream_data ts vint) fr.max_stream_data
              (length body - length a) x2 k (omega (arith, n)))
        (omega (arith, n))

  pub stream_data_blocked-Dispatches :
      (fr : Frame.StreamDataBlocked)
      → IsVarint fr.stream_id
      → IsVarint fr.max_stream_data
      → leb (length (wire (Frame.stream_data_blocked fr))) r.conn.local_params.max_record_size
        ≡ true
      → Dispatches ts r (Frame.stream_data_blocked fr)
  unfolding wire type_switch cases stream_blocked_id stream_blocked_offset
  stream_data_blocked-Dispatches fr h k fits =
      let a = varint_bytes fr.stream_id in
      let b = varint_bytes fr.max_stream_data in
      let n = size_two fr.stream_id fr.max_stream_data 0 in
      let na = length-varint_bytes fr.stream_id in
      let nb = length-varint_bytes fr.max_stream_data in
      let body = a ++ b in
      let left = length body - length a - length b in
      let r1 = typed ts body r in
      let x = with_state State.stream_data_blocked_stream_id r1 in
      let fr1 = record r.rcrd.fr.stream_data_blocked { stream_id = fr.stream_id } in
      let x1 =
        with_fr (record r.rcrd.fr { stream_data_blocked = fr1 })
          (at (length body - length a) b x) in
      let x2 = with_state State.stream_data_blocked_offset x1 in
      let y = with_fr (record r.rcrd.fr { stream_data_blocked = fr }) x2 in
      two_rounds FrameType.stream_data_blocked ts body State.stream_data_blocked_stream_id r r1 y
        (recv_stream_data_blocked fr r.conn >> ok r.conn) left (omega arith) (omega (arith, n, na))
        (omega (arith, n, na, nb)) (omega arith, two-IsByte fr.stream_id fr.max_stream_data 0 h k) l
        fits refl refl refl
        (field-whole (λ vint vlen. stream_blocked_id ts vint) fr.stream_id (length body) b x h
            (varint_bytes-IsByte fr.max_stream_data k) (omega (arith, n))
          ∙ goes_on (at (length body - length a) b x) x1 State.stream_data_blocked_offset
              (varint_field (stream_blocked_offset ts)) (omega (arith, n, nb)) (omega (arith, nb))
          ∙ field-last (λ vint vlen. stream_blocked_offset ts vint) fr.max_stream_data
              (length body - length a) x2 k (omega (arith, n))
          ∙ checked-handled ts (recv_stream_data_blocked fr r.conn) (at left [] y))
        (omega (arith, n))
