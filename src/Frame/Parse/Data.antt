-- ===== src/Frame/Parse/Data.antt =====
-- The frames that carry data, parsed back.
use dwnx.Prelude.{
  ℕ, ◌+◌, ◌≡◌, inl, inr, refl, sym, arith, List, [], ◌∷◌, ◌++◌, append_assoc, append-nil, some,
}
use dwnx.Prelude.{Bool, true, false, not, ◌==◌, if◌then◌else◌, length, take, length-take}
use dwnx.Conv.Wire.{IsVarint, varint_bytes, parse_varint-varint_bytes}
use dwnx.Frame
use dwnx.Frame.{Frame}
use dwnx.Frame.Grammar.{
  parse_frame, parse_type, parse_if, parse_length, parse_stream, parse_connection_close,
  parse_datagram,
}
use dwnx.Frame.Wire.{concat, wire, stream_type, varint_if, IsEncodable, MayFollow, received}
use dwnx.Frame.Parse.Base.{RoundTrips, parse_bytes-append, parse_bytes_all}

module _ (rest : List ℕ) where
  -- STREAM behind its type byte, for each combination of the flags.
  parse_stream_row :
      (fin off : Bool) (id offset offset' len : ℕ) (bytes : List ℕ)
      → IsVarint id
      → IsVarint offset
      → IsVarint len
      → len ≡ length bytes
      → (if off then offset else 0) ≡ offset'
      → parse_frame (
          stream_type fin off
          ∷ ((varint_bytes id ++ (varint_if off offset ++ (varint_bytes len ++ bytes))) ++ rest))
        ≡ some (
          Frame.stream (record {
            flags = 0x02 + (if fin then 1 else 0) + (if off then 4 else 0);
            fin = fin;
            stream_id = id;
            offset = offset';
            len = len;
            vecs = if len == 0 then [] else bytes ∷ [];
          }),
          rest,
        )
  unfolding parse_frame parse_type parse_stream parse_if parse_length
  parse_stream_row true true id offset offset' len bytes h k l e o = rw (
    append_assoc,
    parse_varint-varint_bytes _ _ h,
    append_assoc,
    parse_varint-varint_bytes _ _ k,
    append_assoc,
    parse_varint-varint_bytes _ _ l,
    parse_bytes-append len bytes rest e,
    o,
  )
  parse_stream_row false true id offset offset' len bytes h k l e o = rw (
    append_assoc,
    parse_varint-varint_bytes _ _ h,
    append_assoc,
    parse_varint-varint_bytes _ _ k,
    append_assoc,
    parse_varint-varint_bytes _ _ l,
    parse_bytes-append len bytes rest e,
    o,
  )
  parse_stream_row true false id offset offset' len bytes h k l e o = rw (
    append_assoc,
    parse_varint-varint_bytes _ _ h,
    append_assoc,
    append_assoc,
    parse_varint-varint_bytes _ _ l,
    parse_bytes-append len bytes rest e,
    sym o,
  )
  parse_stream_row false false id offset offset' len bytes h k l e o = rw (
    append_assoc,
    parse_varint-varint_bytes _ _ h,
    append_assoc,
    append_assoc,
    parse_varint-varint_bytes _ _ l,
    parse_bytes-append len bytes rest e,
    sym o,
  )

  pub connection_close_lem :
      (fr : Frame.ConnectionClose)
      → IsEncodable (Frame.connection_close fr)
      → RoundTrips (Frame.connection_close fr) rest
  unfolding parse_frame parse_type parse_connection_close parse_if wire received
  connection_close_lem fr (inl e, h, k, l, b) = rw (
    e,
    append_assoc,
    parse_varint-varint_bytes _ _ h,
    append_assoc,
    parse_varint-varint_bytes _ _ k,
    append_assoc,
    parse_varint-varint_bytes _ _ l,
    parse_bytes-append _ fr.reason rest refl,
  )
  connection_close_lem fr (inr e, h, k, l, b) = rw (
    e,
    append_assoc,
    parse_varint-varint_bytes _ _ h,
    append_assoc,
    append_assoc,
    parse_varint-varint_bytes _ _ l,
    parse_bytes-append _ fr.reason rest refl,
  )

  pub stream_lem :
      (fr : Frame.Stream) → IsEncodable (Frame.stream fr) → RoundTrips (Frame.stream fr) rest
  unfolding wire received
  stream_lem fr (h, k, l, m, b) =
      parse_stream_row fr.fin (not (fr.offset == 0)) fr.stream_id fr.offset fr.offset fr.len
        (take fr.len (concat fr.vecs)) h k l (omega (arith, length-take fr.len (concat fr.vecs)))
        (ground arith)

  pub datagram_lem :
      (fr : Frame.Datagram)
      → IsEncodable (Frame.datagram fr)
      → MayFollow (Frame.datagram fr) rest
      → RoundTrips (Frame.datagram fr) rest
  unfolding parse_frame parse_type parse_datagram parse_length wire received
  datagram_lem fr (inl e, h, k, b) m = rw (e, k, m e, append-nil, parse_bytes_all (concat fr.vecs))
  datagram_lem fr (inr e, h, k, b) m = rw (
    e,
    append_assoc,
    parse_varint-varint_bytes _ _ h,
    parse_bytes-append fr.len (concat fr.vecs) rest k,
  )
