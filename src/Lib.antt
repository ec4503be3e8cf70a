-- ===== src/Lib.antt =====
-- A model of dwnx, a library for QMux: QUIC streams and datagrams over a reliable byte stream.
--
-- A sender encodes frames into records, and a receiver decodes them; the numbers in frames are the
-- variable-length integers of RFC 9000. The parts that are modelled:
--
-- Prelude: the Boolean tests of C conditions, lists measured by native numbers, and `Result`, what a
--   C call comes to. `err` is a negative return value, with the codes of lib/includes/dwnx/dwnx.h;
--   `fault` is a read out of bounds, a failed `assert` or `dwnx_unreachable`.
-- Conv: lib/dwnx_conv.c. Each `dwnx_get_*` and `dwnx_put_*` is the definition without the prefix.
--   Conv.Wire is an independent description of the varint format, Conv.RoundTrip relates the two, and
--   Conv.Field has what the decoders need to know of a varint that is whole or cut short.
-- TransportParams: lib/dwnx_transport_params.c. `encode` is dwnx_transport_params_encode, in its two
--   passes `encode_len` and `write_params`; `decode` is dwnx_transport_params_decode, whose loop is
--   `decode_loop` on fuel. Each round of it takes at least a byte, and `decode` gives it one more than
--   there are bytes. Encoding has the wire format, Bounds the ranges of what is decoded.
-- Frame: the union and the structs of lib/dwnx_frame.h. Frame.Encode and Frame.Decode are the two
--   halves of lib/dwnx_frame.c, `encode_*` for dwnx_frame_encode_*, `decode_*` for dwnx_frame_decode_*,
--   `Frame.Encode.encode` for dwnx_frame_encode and `Frame.Decode.decode` for dwnx_frd_decode. Frame.Wire
--   is the wire format of a frame as a list of bytes, and Frame.Grammar reads frames from it field by
--   field; neither is the library's code. Their children and Frame.Parse relate these to the code.
-- Qre: lib/dwnx_qre.c, with dwnx_frame_encode_buf of lib/dwnx_frame.c. Each `dwnx_qre_*` is the
--   definition without the prefix. Qre.Bounds is about the record, and Qre.MaxDatalen about the amount
--   of stream data that fits.
-- VarintReader: the varint reader of lib/dwnx_record_reader.c, which keeps an integer between the pieces
--   that it comes in. VarintReader.Pieces has the state as what was read of the integer so far, and
--   VarintReader.Fragments what all the pieces come to.
-- RecordReader: the record reader of lib/dwnx_record_reader.c, how far a record and a frame have been read.
-- Gaptr: lib/dwnx_range.c, lib/dwnx_gaptr.c and lib/dwnx_idtr.c. Gaptr.Gaps has, over Gaptr.Cut,
--   the gaps as a set of offsets, and Gaptr.Idtr the stream IDs that have been opened.
-- Strm: lib/dwnx_strm.c, a stream with its offsets, limits and flags.
-- Pq: lib/dwnx_pq.c, a binary heap in an array. Each round of `bubble_up` goes to a smaller index and
--   each one of `bubble_down` to a greater one, so that they get the index and the length as fuel.
--   Pq.Count has the entries as a multiset, Pq.Keys, Heap and Order the order of the heap, where the
--   comparison is one of keys. Conn.Turns is about the order of the transmission queue.
-- Err: lib/dwnx_err.c, with the numbers of the codes of lib/includes/dwnx/dwnx.h.
-- Conn: lib/dwnx_conn.c, the state of a connection with the handlers of the frames that are received and
--   the operations of the application. `conn_recv_*` and `dwnx_conn_*` are the definitions without the
--   prefix: Conn.Setup has the new connection, transport parameters and pings, Conn.Receive the frames
--   that carry or end streams, Conn.Credits those that give credit, Conn.Credit flow control,
--   Conn.Streams the life of a stream and the transmission queue, Conn.Shutdown the application's
--   operations. A handler takes a state to a state; an error loses the state, since the connection is
--   closed then. Conn.Invariant is what every state satisfies, Conn.Reach the states that operations lead
--   to, and Conn.Strms, Conn.Queue, Conn.Dequeue, Conn.Open, Conn.OpenId, Conn.Kept and the modules whose
--   names begin so have what that takes. Conn.Refused is about what is an error, and Conn.Spend about
--   what may be sent and opened.
-- Conn.Read: dwnx_conn_read, which reads records from pieces of any size. A function `read_*` is a case of
--   its `switch`, and those without the prefix what a case does with the integer it has read; a case that
--   falls through calls the next. Conn.Read.Loop has the `switch`, as `cases`, and the loop on fuel, as
--   `rounds`: each round takes a byte at least, and the fuel is the number of the bytes. Conn.Read.Start,
--   Control, Data and Long have the cases. Conn.Read.Invariant is what a state of the reader keeps; the
--   modules whose names end in Ends, with Conn.Clock and Conn.Present, have what that takes. Conn.Read.Fuel
--   is about the fuel, and Conn.Read.Handlers, over Whole, Dispatch, Integers and Pings, about the way
--   from the bytes of a frame to its handler.
-- Conn.Write: the write side of lib/dwnx_conn.c. Control has dwnx_conn_write_ctrl_frames, whose loop over the
--   transmission queue is `queue_rounds`: each round takes an entry out, and the fuel is one more than there
--   are. Data has the frames with the application's data, Message dwnx_conn_write_vmsg and the calls of the
--   application. A function that has a `next` goes on with it where C does not return. A pointer to a stream
--   that is kept over other calls is its stream ID, looked up again. Invariant is what every call keeps;
--   Queue, Frames, Rounds, Sent and Returned have what Calls takes.
-- Conn.Expiry: dwnx_conn_get_idle_expiry and dwnx_conn_handle_expiry.
-- Conn.Close: dwnx_ccerr_set_* and dwnx_conn_write_connection_close; `dest` is what the buffer holds before.
-- Vec: lib/dwnx_vec.c. An array of vectors is the list of their bytes, each a list; dwnx_vec_len is
--   with the encoder of frames, which calls it.
-- Ratelim: lib/dwnx_ratelim.c, and in Ratelim.Bucket the ideal token bucket that it implements.
--
-- How C is rendered. A pointer into a buffer is the list of the bytes from there to the buffer's end:
-- an advance or a read past that end is a fault, and a difference of pointers is one of lengths. A
-- writer returns the bytes that it writes. An unsigned number is a native number, with the wrap-around
-- written out where an operation can reach it; a mask of low bits is a remainder. A stream ID is the
-- bit pattern of its `int64_t`. Where two frame types share a struct, the struct keeps `type`. Every
-- `assert` is a check that faults, but those that a pointer among the arguments is not null.
--
-- The containers under a connection are lists: the skip list of lib/dwnx_ksl.c is the list of its keys in
-- order, and the hash map of lib/dwnx_map.c that of its streams, with DWNX_ERR_INVALID_ARGUMENT of
-- dwnx_map_insert and dwnx_map_remove as the test that the assertions behind them make. A callback of the application is an event
-- that is accepted or refused, in a list of events; it does not call back into the connection.
--
-- Not modelled: the early data and the getters of lib/dwnx_conn.c, and the inner structure of
-- lib/dwnx_ksl.c and lib/dwnx_map.c. Allocation, which does not fail here, logging, the example programs
-- and the HTTP parser in third-party are left out: they hold nothing of the protocol.
pub mod Conn
pub mod Conv
pub mod Err
pub mod Frame
pub mod Gaptr
pub mod Pq
pub mod Prelude
pub mod Qre
pub mod Ratelim
pub mod RecordReader
pub mod Strm
pub mod TransportParams
pub mod VarintReader
pub mod Vec
