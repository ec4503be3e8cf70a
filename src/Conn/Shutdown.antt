-- ===== src/Conn/Shutdown.antt =====
-- What the application asks of the streams in lib/dwnx_conn.c: to open one, to shut one down, and to let
-- the peer send more.
use dwnx.Prelude.{ℕ, ◌+◌, ◌==◌, true, not, ◌&&◌, ◌||◌, if◌then◌else◌, Option, none, some}
use dwnx.Prelude.{Result, ok, ◌>>=◌, ◌>>◌, guard, invalid_argument, stream_id_blocked}
use dwnx.Strm.{Strm}
use dwnx.Conn.{Conn, local_stream, bidi_stream, find_stream, put_strm}
use dwnx.Conn.Credit.{
  strm_should_send_max_stream_data, extend_offset, get_streams_bidi_left, get_streams_uni_left,
}
use dwnx.Conn.Streams.{create_stream, tx_strmq_push_if_not}

-- conn_reset_stream
abbrev pub reset_stream : Strm → ℕ → Conn → Conn
reset_stream strm app_error_code conn =
    tx_strmq_push_if_not
      (record strm {
        flags = record strm.flags {
          send_reset_stream = true;
          tx_reset_stream_app_error_code_set = true;
        };
        tx = record strm.tx { reset_stream_app_error_code = app_error_code };
      })
      conn

abbrev pub stop_sending : Strm → ℕ → Conn → Conn
stop_sending strm app_error_code conn =
    tx_strmq_push_if_not
      (record strm {
        flags = record strm.flags {
          send_stop_sending = true;
          tx_stop_sending_app_error_code_set = true;
        };
        tx = record strm.tx { stop_sending_app_error_code = app_error_code };
      })
      conn

-- conn_shutdown_stream_write
abbrev pub shutdown_write : Strm → ℕ → Conn → Conn
shutdown_write strm app_error_code conn =
    if strm.flags.shut_wr
    then conn
    else reset_stream
        (record strm { flags = record strm.flags { shut_wr = true; reset_stream = true } })
        app_error_code conn

-- conn_shutdown_stream_read
abbrev pub shutdown_read : Strm → ℕ → Conn → Conn
shutdown_read strm app_error_code conn =
    if strm.flags.stop_sending || strm.flags.shut_rd
    then conn
    else stop_sending (record strm { flags = record strm.flags { stop_sending = true } })
        app_error_code conn

-- What is done to a stream, unless it is not there.
abbrev pub on_found : (Strm → Conn → Conn) → Conn → Option Strm → Conn
on_found f conn none = conn
on_found f conn (some strm) = f strm conn

abbrev pub on_stream : (Strm → Conn → Conn) → ℕ → Conn → Conn
on_stream f stream_id conn = on_found f conn (find_stream conn stream_id)

unfoldable pub shutdown_stream : ℕ → ℕ → Conn → Conn
shutdown_stream stream_id app_error_code conn =
    let conn' =
      if bidi_stream stream_id || not (local_stream conn stream_id)
      then on_stream (λ strm. shutdown_read strm app_error_code) stream_id conn
      else conn in
    if bidi_stream stream_id || local_stream conn stream_id
    then on_stream (λ strm. shutdown_write strm app_error_code) stream_id conn'
    else conn'

unfoldable pub shutdown_stream_write : ℕ → ℕ → Conn → Result Conn
shutdown_stream_write stream_id app_error_code conn = do
  guard (bidi_stream stream_id || local_stream conn stream_id) invalid_argument
  ok (on_stream (λ strm. shutdown_write strm app_error_code) stream_id conn)

unfoldable pub shutdown_stream_read : ℕ → ℕ → Conn → Result Conn
shutdown_stream_read stream_id app_error_code conn = do
  guard (bidi_stream stream_id || not (local_stream conn stream_id)) invalid_argument
  ok (on_stream (λ strm. shutdown_read strm app_error_code) stream_id conn)

unfoldable pub extended : ℕ → Strm → Conn → Conn
extended datalen strm conn =
    let strm = record strm {
      rx = record strm.rx { unsent_max_offset = extend_offset strm.rx.unsent_max_offset datalen };
    } in
    if not (strm.flags.shut_rd || strm.flags.stop_sending) && strm_should_send_max_stream_data strm
    then tx_strmq_push_if_not strm conn
    else put_strm strm conn

unfoldable pub extend_max_stream_offset : ℕ → ℕ → Conn → Result Conn
unfolding extended
extend_max_stream_offset stream_id datalen conn = do
  guard (bidi_stream stream_id || not (local_stream conn stream_id)) invalid_argument
  ok (on_stream (extended datalen) stream_id conn)

-- The stream ID, and the state behind it.
unfoldable pub open_bidi_stream : Conn → Result (ℕ × Conn)
open_bidi_stream conn = do
  guard (not (get_streams_bidi_left conn == 0)) stream_id_blocked
  (strm, conn) ← create_stream conn.tx.bidi.next_stream_id conn
  let id = conn.tx.bidi.next_stream_id
  ok (
    id,
    record conn { tx = record conn.tx { bidi = record conn.tx.bidi { next_stream_id = id + 4 } } },
  )

unfoldable pub open_uni_stream : Conn → Result (ℕ × Conn)
open_uni_stream conn = do
  guard (not (get_streams_uni_left conn == 0)) stream_id_blocked
  (strm, conn) ← create_stream conn.tx.uni.next_stream_id conn
  let id = conn.tx.uni.next_stream_id
  ok (
    id,
    record conn { tx = record conn.tx { uni = record conn.tx.uni { next_stream_id = id + 4 } } },
  )
