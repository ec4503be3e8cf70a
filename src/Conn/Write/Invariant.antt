-- ===== src/Conn/Write/Invariant.antt =====
-- What the calls that write keep of a connection, and how a stream is stored back.
use dwnx.Prelude.{
  ℕ, ◌≤◌, ◌≡◌, refl, sym, ap, ◌∙◌, arith, List, ◌∷◌, Bool, true, false, false≢true, not, ◌&&◌,
  if◌then◌else◌, All, Option, none, some, inl, inr, Bool-cases,
}
use dwnx.Prelude.{
  Result, ok, err, callback_failure, ◌>>=◌, Holds, Holds-map, OnOk, OnOk-then, OnOk-bind, OnOk-ok,
  OnOk-if, Holds-and, Holds-OnOk,
}
use dwnx.Vec.{max_varint}
use dwnx.TransportParams.Bounds.{IsValid}
use dwnx.Strm.{Strm, should_close_stream}
use dwnx.Qre.Bounds.{IsOpen}
use dwnx.Conn.{Conn, Entry, Event, find, absent, put_strm, replace, remove_strm, without_strm, call}
use dwnx.Conn.Streams.{was_there, dequeue, close_event, close_stream, close_stream_if_shut_rdwr}
use dwnx.Conn.Strms.{find-replace, find-remove-other, All-replace, All-remove}
use dwnx.Conn.Invariant.{IsConn, IsIn, call-Holds}
use dwnx.Conn.Queue.{put_strm-IsConn}
use dwnx.Conn.Dequeue.{close-IsConn, remove_strm-there}
use dwnx.Conn.Write.{Writing, fatal_call, asserted_fatal}

-- A callback that refuses fails with an error that is fatal.
pub Holds-fatal_call {ℓ} :
    {A : Type ℓ} (P : A → Type 0) (event : Event) (conn : Conn) (f : Conn → Result A)
    → Holds P (f (record conn { calls = event ∷ conn.calls }))
    → Holds P (fatal_call event conn >>= f)
unfolding Holds
Holds-fatal_call P event conn f h = either (conn.accepts event)
  where
    either :
        (b : Bool)
        → Holds P (
            asserted_fatal
              (if b then ok (record conn { calls = event ∷ conn.calls }) else err callback_failure)
            >>= f)
    either true = h
    either false = tt

abbrev pub IsPing : Option ℕ → Type 0
IsPing none = Unit {0}
IsPing (some seq) = seq ≤ max_varint

-- A stream to which a call has a pointer is open for writing, and stays in the map.
abbrev pub IsWatched : Option ℕ → ℕ → Bool → Type 0
IsWatched none stream_id shut_wr = Unit {0}
IsWatched (some id) stream_id shut_wr = stream_id ≡ id → shut_wr ≡ false

abbrev pub IsThere : Option ℕ → List Strm → Type 0
IsThere none strms = Unit {0}
IsThere (some id) strms = absent (find id strms) ≡ false

put-IsThere :
    (watched : Option ℕ) (strm : Strm) (strms : List Strm)
    → IsThere watched strms
    → IsThere watched (replace strm strms)
put-IsThere none strm strms h = tt
put-IsThere (some id) strm strms h = find-replace id strm strms ∙ h

remove-IsThere :
    (watched : Option ℕ) (strm : Strm) (strms : List Strm)
    → IsWatched watched strm.stream_id strm.flags.shut_wr
    → strm.flags.shut_wr ≡ true
    → IsThere watched strms
    → IsThere watched (without_strm strm.stream_id strms)
remove-IsThere none strm strms w t h = tt
remove-IsThere (some id) strm strms w t h =
    let other = λ (p : id ≡ strm.stream_id). false≢true (sym (w (sym p)) ∙ t) in
    ap absent (find-remove-other id strm.stream_id strms other) ∙ h

shut_wr-true : (strm : Strm) → should_close_stream strm ≡ true → strm.flags.shut_wr ≡ true
shut_wr-true strm e =
    and_middle strm.flags.shut_rd strm.flags.shut_wr strm.flags.send_reset_stream e
  where
    and_middle : (a b c : Bool) → (a && b && not c) ≡ true → b ≡ true
    and_middle a b c e = ground arith

module _ (watched : Option ℕ) where
  -- What has been sent on a stream is within what the peer allows, and its error codes fit in a varint.
  abbrev pub IsSpent : Strm → Type 0
  IsSpent strm =
      (strm.tx.offset ≤ strm.tx.max_offset)
      × (strm.tx.max_offset ≤ max_varint)
      × (strm.tx.reset_stream_app_error_code ≤ max_varint)
      × (strm.tx.stop_sending_app_error_code ≤ max_varint)
      × IsWatched watched strm.stream_id strm.flags.shut_wr

  -- The numbers that go into frames of the connection itself.
  abbrev pub IsOwn : Conn → Type 0
  IsOwn conn =
      (conn.tx.offset ≤ conn.tx.max_offset)
      × (conn.tx.max_offset ≤ max_varint)
      × IsPing conn.rx.ping_last_seq
      × IsValid conn.local_params
      × IsThere watched conn.strms

  -- A connection in order that has sent no more than it may, on the whole and on each stream.
  abbrev pub IsSender : Conn → Type 0
  IsSender conn = IsConn conn × IsOwn conn × All IsSpent conn.strms

  -- A stream of the map, as it stands there or changed.
  abbrev pub Here : Conn → Strm → Type 0
  Here conn strm = IsIn conn strm × IsSpent strm

  -- Between the start of a record and its end.
  abbrev pub Ready : Writing → Type 0
  Ready w = IsSender w.conn × IsOpen w.qre

  pub put-IsOwn : (strm : Strm) (conn : Conn) → IsOwn conn → IsOwn (put_strm strm conn)
  put-IsOwn strm conn h = (h.0, h.1, h.2, h.3, put-IsThere watched strm conn.strms h.4)

  pub put_strm-IsSender :
      (strm : Strm) (conn : Conn)
      → IsSender conn
      → Here conn strm
      → IsSender (put_strm strm conn) × Here (put_strm strm conn) strm
  put_strm-IsSender strm conn h s = (
    (
      put_strm-IsConn strm conn h.0 s.0.0,
      put-IsOwn strm conn h.1,
      All-replace IsSpent IsSpent strm.stream_id (λ s n p. p) conn.strms strm refl h.0.1 h.2 s.1,
    ),
    ((s.0.0, find-replace strm.stream_id strm conn.strms ∙ s.0.1), s.1),
  )

  -- The rest of what is kept, where the streams and the queue may change.
  abbrev pub Rest : Conn → Type 0
  Rest conn = IsOwn conn × All IsSpent conn.strms

  -- A stream that leaves the map leaves the others as they are.
  close-Rest :
      (strm : Strm) (conn : Conn)
      → IsSender conn
      → Here conn strm
      → should_close_stream strm ≡ true
      → OnOk Rest (close_stream strm conn)
  unfolding close_stream dequeue
  close-Rest strm conn h s t =
      OnOk-bind Called Rest (call (close_event strm) conn) _
        (Holds-OnOk Called _ (call-Holds Called (close_event strm) conn (h, s.0.1)))
        (λ conn' (k, e).
          let others =
            All-remove IsSpent IsSpent strm.stream_id (λ s n p. p) conn'.strms k.0.1 k.2 in
          let there = remove-IsThere watched strm conn'.strms s.1.4 (shut_wr-true strm t) k.1.4 in
          let own : IsOwn (record conn' { strms = without_strm strm.stream_id conn'.strms }) =
            (k.1.0, k.1.1, k.1.2, k.1.3, there) in
          rw (remove_strm-there strm.stream_id conn'.strms e) (
            OnOk-if Rest strm.queued _ _
              (OnOk-then (λ (q : List Entry). Unit {0}) Rest _ _
                (λ q. OnOk-ok Rest _ (own, others)))
              (OnOk-ok Rest _ (own, others))))
    where
      Called : Conn → Type 0
      Called c = IsSender c × (absent (find strm.stream_id c.strms) ≡ false)

  pub close-IsSender :
      (strm : Strm) (conn : Conn)
      → IsSender conn
      → Here conn strm
      → Holds IsSender (close_stream_if_shut_rdwr strm conn)
  unfolding close_stream_if_shut_rdwr
  close-IsSender strm conn h s =
      Holds-map IsSender (λ c. IsConn c × Rest c) _
        (Holds-and IsConn Rest _ (close-IsConn strm conn h.0 s.0)
          (elim (Bool-cases (should_close_stream strm)) [
            | inl e ↦ rw e (close-Rest strm conn h s e)
            | inr f ↦ rw f (OnOk-ok Rest conn (h.1, h.2))
          ]))
        (λ c k. (k.0, k.1.0, k.1.1))

  close_unqueued-strmq :
      (strm : Strm) (conn : Conn)
      → strm.queued ≡ false
      → OnOk (λ c. c.tx.strmq ≡ conn.tx.strmq) (close_stream strm conn)
  unfolding close_stream dequeue
  close_unqueued-strmq strm conn e =
      OnOk-bind Same Same (call (close_event strm) conn) _
        (Holds-OnOk Same _ (call-Holds Same (close_event strm) conn refl))
        (λ c k.
          OnOk-then (λ (strms : List Strm). Unit {0}) Same
            (was_there (remove_strm strm.stream_id c.strms))
            (λ strms. dequeue strm (record c { strms = strms })) (λ strms. rw e (OnOk-ok Same _ k)))
    where
      Same : Conn → Type 0
      Same c = c.tx.strmq ≡ conn.tx.strmq

  -- A stream that is to be closed and is not in the queue.
  pub close_unqueued-IsSender :
      (strm : Strm) (conn : Conn)
      → IsSender conn
      → Here conn strm
      → should_close_stream strm ≡ true
      → strm.queued ≡ false
      → Holds (λ c. IsSender c × (c.tx.strmq ≡ conn.tx.strmq)) (close_stream strm conn)
  unfolding close_stream_if_shut_rdwr
  close_unqueued-IsSender strm conn h s e u =
      Holds-and IsSender (λ c. c.tx.strmq ≡ conn.tx.strmq) _
        (rw e at (close-IsSender strm conn h s)) (close_unqueued-strmq strm conn u)
