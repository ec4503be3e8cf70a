-- ===== src/Conn/Credit.antt =====
-- Flow control and stream limits of lib/dwnx_conn.c.
use dwnx.Prelude.{ℕ, ◌+◌, ◌-◌, ◌%◌, ◌^◌, ◌*◌, min, Bool, ◌||◌}
use dwnx.Prelude.{if◌then◌else◌, ltb}
use dwnx.Vec.{max_varint}
use dwnx.Strm.{Strm}
use dwnx.Conv.{ord_stream_id}
use dwnx.Conn.{Conn, RxStreams, sub64, max_streams_limit}

-- strm_should_send_max_stream_data
pub strm_should_send_max_stream_data : Strm → Bool
strm_should_send_max_stream_data strm =
    let inc = sub64 strm.rx.unsent_max_offset strm.rx.max_offset in
    ltb strm.rx.window (4 * inc % 2 ^ 64)

pub should_send_max_data : Conn → Bool
should_send_max_data conn =
    let inc = sub64 conn.rx.unsent_max_offset conn.rx.max_offset in
    ltb conn.rx.window (4 * inc % 2 ^ 64)

abbrev pub max_data_violated : Conn → ℕ → Bool
max_data_violated conn datalen = ltb (sub64 conn.rx.max_offset conn.rx.offset) datalen

-- An offset that is raised, to the greatest varint at most.
abbrev pub extend_offset : ℕ → ℕ → ℕ
extend_offset unsent datalen =
    if ltb max_varint datalen || ltb (max_varint - datalen) unsent
    then max_varint
    else unsent + datalen

abbrev pub extend_max_offset : ℕ → Conn → Conn
extend_max_offset datalen conn = record conn {
  rx = record conn.rx { unsent_max_offset = extend_offset conn.rx.unsent_max_offset datalen };
}

unfoldable pub fc_credits : Conn → Strm → ℕ
fc_credits conn strm =
    min (sub64 strm.tx.max_offset strm.tx.offset) (sub64 conn.tx.max_offset conn.tx.offset)

unfoldable pub enforce_flow_control : Conn → Strm → ℕ → ℕ
unfolding fc_credits
enforce_flow_control conn strm len = min len (fc_credits conn strm)

abbrev handle_max_remote_streams_extension : ℕ → ℕ → ℕ
handle_max_remote_streams_extension unsent n =
    if ltb max_streams_limit n || ltb (max_streams_limit - n) unsent
    then max_streams_limit
    else unsent + n

abbrev pub extend_streams : ℕ → RxStreams → RxStreams
extend_streams n streams = record streams {
  unsent_max_streams = handle_max_remote_streams_extension streams.unsent_max_streams n;
}

abbrev pub extend_max_streams_bidi : ℕ → Conn → Conn
extend_max_streams_bidi n conn = record conn {
  rx = record conn.rx { bidi = extend_streams n conn.rx.bidi };
}

abbrev pub extend_max_streams_uni : ℕ → Conn → Conn
extend_max_streams_uni n conn = record conn {
  rx = record conn.rx { uni = extend_streams n conn.rx.uni };
}

unfoldable pub streams_left : ℕ → ℕ → ℕ
streams_left n max_streams = if ltb max_streams n then 0 else max_streams - n + 1

unfoldable pub get_streams_bidi_left : Conn → ℕ
unfolding streams_left
get_streams_bidi_left conn =
    streams_left (ord_stream_id conn.tx.bidi.next_stream_id) conn.tx.bidi.max_streams

unfoldable pub get_streams_uni_left : Conn → ℕ
unfolding streams_left
get_streams_uni_left conn =
    streams_left (ord_stream_id conn.tx.uni.next_stream_id) conn.tx.uni.max_streams
