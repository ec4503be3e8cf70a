-- ===== src/Conn/Write/Runs.antt =====
-- A server that has opened a stream, on which it may send 50 bytes, and 100 on the whole.
use dwnx.Prelude.{
  ℕ, ◌≡◌, ◌≤◌, refl, arith, List, [], ◌∷◌, Bool, true, false, inl, Option, none, some, length,
  are_bytes-IsByte,
}
use dwnx.Prelude.{Result, ok, err, fault, Holds, Holds-result, Error, write_more, stream_not_found}
use dwnx.Conn.{Conn}
use dwnx.Conn.Runs.{new_conn, new_conn-IsConn}
use dwnx.Conn.Streams.{create_stream, new_strm}
use dwnx.Conn.Credit.{get_streams_bidi_left, streams_left}
use dwnx.Conn.Shutdown.{open_bidi_stream}
use dwnx.Conn.KeptOpen.{open_bidi_stream-IsConn}
use dwnx.Conn.Invariant.{IsConn}
use dwnx.Conn.Write.{Writing, Wrote}
use dwnx.Conn.Write.Message.{writev_stream, writev_datagram, write_found}
use dwnx.Conn.Write.Returned.{Lasting, IsReturn}
use dwnx.Conn.Write.Calls.{writev_stream-IsReturn, writev_datagram-IsReturn}

abbrev allowed : Conn
allowed = record new_conn {
  remote_params = record new_conn.local_params {
    initial_max_stream_data_bidi_remote = 50;
    max_datagram_frame_size = 100;
  };
  tx = record new_conn.tx { max_offset = 100; bidi = record new_conn.tx.bidi { max_streams = 3 } };
}

allowed-IsConn : IsConn allowed
allowed-IsConn =
    let h = new_conn-IsConn in
    let b = h.0 in
    ((b.0, b.1, ((omega arith, refl, omega arith), b.2.1), b.3, b.4, b.5), h.1, h.2, h.3)

abbrev sender : Conn
sender = record allowed {
  strms = new_strm allowed 1 ∷ [];
  tx = record allowed.tx { bidi = record allowed.tx.bidi { next_stream_id = 5 } };
}

sender-IsConn : IsConn sender
unfolding open_bidi_stream create_stream new_strm get_streams_bidi_left streams_left
sender-IsConn =
    (Holds-result (λ (r : ℕ × Conn). (r.0 ≡ 1) × IsConn r.1) (open_bidi_stream allowed) (1, sender)
      (open_bidi_stream-IsConn allowed allowed-IsConn) refl).1

abbrev writing : Writing
writing = record {
  conn = sender;
  qre = record { started = false; written = []; size = 0 };
  params_sent = false;
  last_resp_seq = none;
  idle_ts = 100;
  last_ts = 100;
  pdatalen = none;
  accepted = false;
  nwrite = 0;
}

writing-Lasting : Lasting writing
unfolding new_strm
writing-Lasting = (
  (
    sender-IsConn,
    (
      omega arith,
      omega arith,
      tt,
      record {
        bidi_local = omega arith;
        bidi_remote = omega arith;
        uni = omega arith;
        data_limit = omega arith;
        streams_bidi = omega arith;
        streams_uni = omega arith;
        idle = omega arith;
        idle_unit = refl;
        record_size = omega arith;
        datagram = omega arith;
      },
      tt,
    ),
    ((omega arith, omega arith, omega arith, omega arith, tt), tt),
  ),
  inl refl,
)

abbrev dest : List ℕ
dest = dwnx.Prelude.replicate 64 0

abbrev code_of : Result Wrote → Option Error
code_of (ok out) = out.0
code_of (err code) = some code
code_of fault = none

abbrev three_bytes : List (List ℕ)
three_bytes = (1 ∷ 2 ∷ []) ∷ (3 ∷ []) ∷ []

writev_stream-IsReturn_example :
    Holds IsReturn (writev_stream dest false (some 1) three_bytes 200 writing)
writev_stream-IsReturn_example =
    writev_stream-IsReturn dest false (some 1) three_bytes 200 writing writing-Lasting (omega arith)
      (are_bytes-IsByte (1 ∷ 2 ∷ 3 ∷ []) refl)

writev_datagram-IsReturn_example : Holds IsReturn (writev_datagram dest three_bytes 200 writing)
writev_datagram-IsReturn_example =
    writev_datagram-IsReturn dest three_bytes 200 writing writing-Lasting (omega arith)
      (are_bytes-IsByte (1 ∷ 2 ∷ 3 ∷ []) refl)

no_stream :
    code_of (writev_stream dest false (some 2) three_bytes 200 writing) ≡ some stream_not_found
unfolding writev_stream new_strm write_found
no_stream = refl
