-- ===== src/Conn/Read/Data.antt =====
-- The cases of dwnx_conn_read of lib/dwnx_conn.c that read the frames with data, STREAM and DATAGRAM. A
-- function is what a case does, or what it does with the integer it has read, up to the case's end.
use dwnx.Prelude.{
  ℕ, ◌+◌, ◌-◌, ◌%◌, ◌^◌, [], true, ◌&&◌, ◌==◌, if◌then◌else◌, leb, length, take, Option, none, some,
}
use dwnx.Prelude.{Result, ok, fault, ◌>>=◌, ◌>>◌, guard, proto, frame_encoding}
use dwnx.Strm.{Strm}
use dwnx.Frame
use dwnx.Frame.FrameType
use dwnx.RecordReader.{State, field_avail}
use dwnx.Conn.{sub64, find_stream}
use dwnx.Conn.Receive.{recv_stream, recv_stream_data}
use dwnx.Conn.Credits.{recv_datagram}
use dwnx.Conn.Read.{
  Reading, Flow, returns, with_fr, with_conn, advance, frame_done, more, break_to, fall_through,
  varint_field, varint_len_field,
}

abbrev pub with_stream : Frame.Stream → Reading → Reading
with_stream fr r = with_fr (record r.rcrd.fr { stream = fr }) r

abbrev pub with_datagram : Frame.Datagram → Reading → Reading
with_datagram fr r = with_fr (record r.rcrd.fr { datagram = fr }) r

abbrev pub with_field : ℕ → Reading → Reading
with_field field_left r = record r { rcrd = record r.rcrd { field_left = field_left } }

-- The end of a case that has read `len` bytes of a field.
unfoldable pub field_taken : ℕ → ℕ → Reading → Result Flow
unfolding frame_done
field_taken ts len r =
    let r = with_field (r.rcrd.field_left - len) (advance len r) in
    if r.rcrd.field_left == 0 then frame_done ts r else ok (returns none r)

abbrev pub found_data : ℕ → Reading → Option Strm → Result Flow
found_data ts r none = fault
found_data ts r (some strm) =
    let len = field_avail r.rcrd (length r.p) in
    recv_stream_data strm (r.rcrd.fr.stream.fin && r.rcrd.field_left == len)
      (sub64 strm.rx.last_offset r.rcrd.field_left) (take len r.p) r.conn
    >>= (λ conn. field_taken ts len (with_conn conn r))

unfoldable pub stream_data : ℕ → Reading → Result Flow
unfolding field_taken
stream_data ts r = found_data ts r (find_stream r.conn r.rcrd.fr.stream.stream_id)

-- The bytes of a frame whose length is known, once its handler has taken the frame.
unfoldable pub stream_taken : ℕ → (Reading → Result Flow) → Reading → Result Flow
unfolding frame_done
stream_taken ts next r = if r.rcrd.field_left == 0 then frame_done ts r else next r

-- `rcrd->fr.stream.len = len; rcrd->field_left = rcrd->fr.stream.len;`, and the handler.
unfoldable pub stream_begin : ℕ → ℕ → (Reading → Result Flow) → Reading → Result Flow
unfolding stream_taken
stream_begin ts len next r =
    let fr = record r.rcrd.fr.stream { len = len } in
    recv_stream fr r.conn
    >>= (λ conn. stream_taken ts next (with_conn conn (with_field len (with_stream fr r))))

unfoldable pub stream_length : ℕ → ℕ → Reading → Result Flow
unfolding stream_begin stream_data
stream_length ts vint r =
    guard (leb vint r.rcrd.record_left) frame_encoding
    >> stream_begin ts vint (fall_through State.stream_data (stream_data ts)) r

abbrev pub read_stream_length : ℕ → Reading → Result Flow
read_stream_length ts = varint_field (stream_length ts)

unfoldable pub stream_offset : ℕ → ℕ → Reading → Result Flow
unfolding stream_length stream_begin
stream_offset ts vint r =
    let r = with_stream (record r.rcrd.fr.stream { offset = vint }) r in
    if FrameType.has_bit r.rcrd.fr.stream.flags FrameType.len_bit
    then more r >> fall_through State.stream_length (read_stream_length ts) r
    else stream_begin ts r.rcrd.record_left (break_to State.stream_data) r

abbrev pub read_stream_offset : ℕ → Reading → Result Flow
read_stream_offset ts = varint_field (stream_offset ts)

unfoldable pub stream_stream_id : ℕ → ℕ → Reading → Result Flow
unfolding stream_offset stream_begin
stream_stream_id ts vint r =
    let r = with_stream (record r.rcrd.fr.stream { stream_id = vint }) r in
    let r0 = with_stream (record r.rcrd.fr.stream { offset = 0 }) r in
    if FrameType.has_bit r.rcrd.fr.stream.flags FrameType.off_bit
    then more r >> fall_through State.stream_offset (read_stream_offset ts) r
    else if FrameType.has_bit r.rcrd.fr.stream.flags FrameType.len_bit
    then more r >> break_to State.stream_length r0
    else stream_begin ts r.rcrd.record_left (break_to State.stream_data) r0

abbrev pub read_stream_stream_id : ℕ → Reading → Result Flow
read_stream_stream_id ts = varint_field (stream_stream_id ts)

unfoldable pub datagram_data : ℕ → Reading → Result Flow
unfolding field_taken
datagram_data ts r =
    let len = field_avail r.rcrd (length r.p) in
    recv_datagram (r.rcrd.field_left == len) r.rcrd.fr.datagram.len
      (sub64 r.rcrd.fr.datagram.len r.rcrd.field_left) (take len r.p) r.conn
    >>= (λ conn. field_taken ts len (with_conn conn r))

-- A datagram of no bytes is handed over at once.
unfoldable pub datagram_begin : ℕ → ℕ → (Reading → Result Flow) → Reading → Result Flow
unfolding frame_done
datagram_begin ts len next r =
    if len == 0
    then recv_datagram true 0 0 [] r.conn >>= (λ conn. frame_done ts (with_conn conn r))
    else next (with_field len r)

unfoldable pub datagram_len : ℕ → ℕ → ℕ → Reading → Result Flow
unfolding datagram_begin datagram_data
datagram_len ts vint vlen r =
    guard
      (leb ((r.rcrd.typelen + vlen + vint) % 2 ^ 64) r.conn.local_params.max_datagram_frame_size)
      proto
    >> (guard (leb vint r.rcrd.record_left) frame_encoding
        >> datagram_begin ts vint (fall_through State.datagram_data (datagram_data ts))
            (with_datagram (record r.rcrd.fr.datagram { len = vint }) r))

abbrev pub read_datagram_len : ℕ → Reading → Result Flow
read_datagram_len ts = varint_len_field (datagram_len ts)
