-- ===== src/Conn/Read/TypeEnds.antt =====
-- The case of dwnx_conn_read that begins a frame keeps what a read keeps.
use dwnx.Prelude.{
  ℕ, ◌+◌, ◌-◌, ◌^◌, bit_and, ◌<◌, ◌≡◌, refl, sym, ap, ◌∙◌, ◌⊎◌, inl, inr, arith, Bool, true, false,
  true≢false, not, ◌||◌, ◌==◌, if◌then◌else◌, leb, length, IsByte, All-drop, length-drop, Option,
  none, some,
}
use dwnx.Prelude.{Result, err, Holds-guard, Holds-if, Holds-ok, Holds-err, frame_encoding, proto}
use dwnx.Frame.FrameType
use dwnx.RecordReader.{State}
use dwnx.Conn.Read.{Reading, Flow, again, with_state, with_fr, advance, break_to}
use dwnx.Conn.Read.Data.{with_stream, with_datagram, with_field}
use dwnx.Conn.Read.Start.{
  begin, zeros, padding_type, params_type, ping_type, max_streams_type, streams_blocked_type,
  close_type, datagram_type, datagram_len_type, stream_type, simple_state, other_type,
  simple_or_other, type_switch, frame_type,
}
use dwnx.Conn.Read.Invariant.{IsBase, IsEarly, Fits, Ends, Outcome}
use dwnx.Conn.Read.Steps.{frame_done-Ends, more-Ends}
use dwnx.Conn.Read.DatagramEnds.{datagram_begin-Ends}

module _ (n ts : ℕ) where
  begin-Ends :
      (state : State) (r : Reading)
      → IsBase ts r
      → length r.p < n
      → (0 < r.rcrd.record_left → Fits state (with_state state r))
      → Ends n ts (begin state r)
  begin-Ends state r b l f =
      more-Ends n ts r (break_to state r)
        (λ g. Holds-ok (Outcome n ts) (again (with_state state r)) (b, f g, l))

  padding_type-Ends :
      (r : Reading) → IsBase ts r → r.seen ≡ true → length r.p < n → Ends n ts (padding_type ts r)
  unfolding padding_type
  padding_type-Ends r b s l =
      let m = zeros r.rcrd.record_left r.p in
      let fr = record r.rcrd.fr { padding = record { len = 1 + m } } in
      frame_done-Ends n ts (advance m (with_fr fr r))
        (b.0, b.1, b.2, All-drop IsByte m r.p b.3, omega (arith, b.4)) s
        (omega (arith, length-drop m r.p))

  params_type-Ends :
      (r : Reading)
      → IsBase ts r
      → (r.seen ≡ true) ⊎ IsEarly r.conn
      → length r.p < n
      → Ends n ts (params_type r)
  unfolding params_type
  params_type-Ends r b e l = Holds-guard (Outcome n ts) (not r.seen) proto _ (λ g.
      begin-Ends State.qx_transport_parameters_len (record r { seen = true }) b l
        (λ h. ((h, refl), early g e)))
    where
      early : not r.seen ≡ true → (r.seen ≡ true) ⊎ IsEarly r.conn → IsEarly r.conn
      early g (inl t) = absurd (true≢false (sym g ∙ ap not t))
      early g (inr k) = k

  module _ (vint : ℕ) (r : Reading) (b : IsBase ts r) (s : r.seen ≡ true) (l : length r.p < n) where
    ping_type-Ends : Ends n ts (ping_type vint r)
    unfolding ping_type
    ping_type-Ends =
        let fr = record r.rcrd.fr.qx_ping { type = vint } in
        begin-Ends State.qx_ping_seq (with_fr (record r.rcrd.fr { qx_ping = fr }) r) b l
          (λ h. (h, s))

    max_streams_type-Ends : Ends n ts (max_streams_type vint r)
    unfolding max_streams_type
    max_streams_type-Ends =
        let fr = record r.rcrd.fr.max_streams { type = vint } in
        begin-Ends State.max_streams_max_streams (with_fr (record r.rcrd.fr { max_streams = fr }) r)
          b l (λ h. (h, s))

    streams_blocked_type-Ends : Ends n ts (streams_blocked_type vint r)
    unfolding streams_blocked_type
    streams_blocked_type-Ends =
        let fr = record r.rcrd.fr.streams_blocked { type = vint } in
        begin-Ends State.streams_blocked_max_streams
          (with_fr (record r.rcrd.fr { streams_blocked = fr }) r) b l (λ h. (h, s))

    close_type-Ends : Ends n ts (close_type vint r)
    unfolding close_type
    close_type-Ends =
        let fr = record r.rcrd.fr.connection_close { type = vint } in
        begin-Ends State.connection_close_error_code
          (with_fr (record r.rcrd.fr { connection_close = fr }) r) b l (λ h. (h, s))

    datagram_len_type-Ends : Ends n ts (datagram_len_type vint r)
    unfolding datagram_len_type
    datagram_len_type-Ends =
        let r' = with_datagram (record r.rcrd.fr.datagram { type = vint }) r in
        Holds-guard (Outcome n ts)
          (not (leb r.conn.local_params.max_datagram_frame_size r.rcrd.typelen)) proto
          (begin State.datagram_len r') (λ g. begin-Ends State.datagram_len r' b l (λ h. (h, s)))

    datagram_type-Ends : Ends n ts (datagram_type ts vint r)
    unfolding datagram_type
    datagram_type-Ends =
        let left = r.rcrd.record_left in
        let r' = with_datagram (record r.rcrd.fr.datagram { type = vint; len = left }) r in
        Holds-guard (Outcome n ts) _ proto _ (λ g.
          datagram_begin-Ends n ts left (break_to State.datagram_data) r' b s l (λ h.
            Holds-ok (Outcome n ts) (again (with_state State.datagram_data (with_field left r')))
              (b, (h, omega arith, s), l)))

    other_type-Ends : Ends n ts (other_type vint r)
    unfolding other_type stream_type
    other_type-Ends =
        Holds-if (Outcome n ts) (bit_and vint (2 ^ 64 - FrameType.stream) == FrameType.stream)
          (begin State.stream_stream_id r') (err frame_encoding)
          (λ t. begin-Ends State.stream_stream_id r' b l (λ h. (h, s)))
          (λ t. Holds-err (Outcome n ts) frame_encoding)
      where
        flags : ℕ
        flags = bit_and vint 7

        r' : Reading
        r' =
            with_stream
              (record r.rcrd.fr.stream {
                flags = flags;
                fin = FrameType.has_bit flags FrameType.fin_bit;
              })
              r

    -- What a type comes to whose case is no more than a state.
    EndsSimple : Option State → Type 0
    EndsSimple o = Ends n ts (simple_or_other vint r o)

    leaf :
        (state : State)
        → (0 < r.rcrd.record_left → Fits state (with_state state r))
        → EndsSimple (some state)
    unfolding EndsSimple
    leaf state f = begin-Ends state r b l f

    no_leaf : EndsSimple none
    unfolding EndsSimple
    no_leaf = other_type-Ends

    -- One more type.
    or_else :
        (test : Bool) (state : State) (o : Option State)
        → (0 < r.rcrd.record_left → Fits state (with_state state r))
        → EndsSimple o
        → EndsSimple (if test then some state else o)
    or_else true state o f k = leaf state f
    or_else false state o f k = k

    simple-EndsSimple : EndsSimple (simple_state vint)
    simple-EndsSimple =
        or_else (vint == FrameType.reset_stream) State.reset_stream_stream_id from_stop
          (λ h. (h, s))
          (or_else (vint == FrameType.stop_sending) State.stop_sending_stream_id from_max
            (λ h. (h, s))
            (or_else (vint == FrameType.max_data) State.max_data_max_data from_max_stream
              (λ h. (h, s))
              (or_else (vint == FrameType.max_stream_data) State.max_stream_data_stream_id
                from_blocked (λ h. (h, s))
                (or_else (vint == FrameType.data_blocked) State.data_blocked_offset
                  from_stream_blocked (λ h. (h, s))
                  (or_else (vint == FrameType.stream_data_blocked)
                    State.stream_data_blocked_stream_id none (λ h. (h, s)) no_leaf)))))
      where
        from_stream_blocked : Option State
        from_stream_blocked =
            if vint == FrameType.stream_data_blocked
            then some State.stream_data_blocked_stream_id
            else none

        from_blocked : Option State
        from_blocked =
            if vint == FrameType.data_blocked
            then some State.data_blocked_offset
            else from_stream_blocked

        from_max_stream : Option State
        from_max_stream =
            if vint == FrameType.max_stream_data
            then some State.max_stream_data_stream_id
            else from_blocked

        from_max : Option State
        from_max =
            if vint == FrameType.max_data then some State.max_data_max_data else from_max_stream

        from_stop : Option State
        from_stop =
            if vint == FrameType.stop_sending then some State.stop_sending_stream_id else from_max

    simple-Ends : Ends n ts (simple_or_other vint r (simple_state vint))
    unfolding EndsSimple
    simple-Ends = simple-EndsSimple

  type_switch-Ends :
      (vint : ℕ) (r : Reading)
      → IsBase ts r
      → (r.seen || vint == FrameType.qx_transport_parameters) ≡ true
      → (r.seen ≡ true) ⊎ IsEarly r.conn
      → length r.p < n
      → Ends n ts (type_switch ts vint r)
  unfolding type_switch
  type_switch-Ends vint r b g e l =
      Holds-if (Outcome n ts) (vint == FrameType.qx_transport_parameters) (params_type r) not_params
        (λ t. params_type-Ends r b e l)
        (λ t.
          let s = other r.seen (vint == FrameType.qx_transport_parameters) g t in
          Holds-if (Outcome n ts)
            (vint == FrameType.qx_ping_request || vint == FrameType.qx_ping_response)
            (ping_type vint r) not_ping (λ t. ping_type-Ends vint r b s l)
            (λ t.
              Holds-if (Outcome n ts) (vint == FrameType.padding) (padding_type ts r) not_padding
                (λ t. padding_type-Ends r b s l)
                (λ t.
                  Holds-if (Outcome n ts)
                    (vint == FrameType.max_streams_bidi || vint == FrameType.max_streams_uni)
                    (max_streams_type vint r) not_max_streams
                    (λ t. max_streams_type-Ends vint r b s l)
                    (λ t.
                      Holds-if (Outcome n ts)
                        (vint == FrameType.streams_blocked_bidi
                          || vint == FrameType.streams_blocked_uni)
                        (streams_blocked_type vint r) not_blocked
                        (λ t. streams_blocked_type-Ends vint r b s l)
                        (λ t.
                          Holds-if (Outcome n ts)
                            (vint == FrameType.connection_close
                              || vint == FrameType.connection_close_app)
                            (close_type vint r) not_close (λ t. close_type-Ends vint r b s l)
                            (λ t.
                              Holds-if (Outcome n ts) (vint == FrameType.datagram)
                                (datagram_type ts vint r) not_datagram
                                (λ t. datagram_type-Ends vint r b s l)
                                (λ t.
                                  Holds-if (Outcome n ts) (vint == FrameType.datagram_len)
                                    (datagram_len_type vint r) others
                                    (λ t. datagram_len_type-Ends vint r b s l)
                                    (λ t. simple-Ends vint r b s l))))))))
    where
      others : Result Flow
      others = simple_or_other vint r (simple_state vint)

      not_datagram : Result Flow
      not_datagram = if vint == FrameType.datagram_len then datagram_len_type vint r else others

      not_close : Result Flow
      not_close = if vint == FrameType.datagram then datagram_type ts vint r else not_datagram

      not_blocked : Result Flow
      not_blocked =
          if vint == FrameType.connection_close || vint == FrameType.connection_close_app
          then close_type vint r
          else not_close

      not_max_streams : Result Flow
      not_max_streams =
          if vint == FrameType.streams_blocked_bidi || vint == FrameType.streams_blocked_uni
          then streams_blocked_type vint r
          else not_blocked

      not_padding : Result Flow
      not_padding =
          if vint == FrameType.max_streams_bidi || vint == FrameType.max_streams_uni
          then max_streams_type vint r
          else not_max_streams

      not_ping : Result Flow
      not_ping = if vint == FrameType.padding then padding_type ts r else not_padding

      not_params : Result Flow
      not_params =
          if vint == FrameType.qx_ping_request || vint == FrameType.qx_ping_response
          then ping_type vint r
          else not_ping

      other : (a b : Bool) → (a || b) ≡ true → b ≡ false → a ≡ true
      other a b e f = ground arith

  pub frame_type-Ends :
      (vint vlen : ℕ) (r : Reading)
      → IsBase ts r
      → (r.seen ≡ true) ⊎ IsEarly r.conn
      → length r.p < n
      → Ends n ts (frame_type ts vint vlen r)
  unfolding frame_type
  frame_type-Ends vint vlen r b e l =
      Holds-guard (Outcome n ts) (r.seen || vint == FrameType.qx_transport_parameters) proto _
        (λ g. type_switch-Ends vint (record r { rcrd = record r.rcrd { typelen = vlen } }) b g e l)
