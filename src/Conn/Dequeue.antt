-- ===== src/Conn/Dequeue.antt =====
-- A stream that is closed, and leaves the map and the transmission queue, leaves the state in order.
use dwnx.Prelude.{
  ℕ, zero_add, ◌+◌, ◌≤◌, ◌<◌, ◌≡◌, ◌≢◌, refl, sym, subst, ap, ◌∙◌, arith, List, [], ◌∷◌, Bool, true,
  false, false≢true, ◌==◌, ==_iff, if◌then◌else◌, Option, none, some, Bool-cases, inl, inr,
}
use dwnx.Prelude.{ok, ◌>>=◌, Holds, Holds-if, Holds-ok}
use dwnx.Strm.{Strm, should_close_stream}
use dwnx.Pq
use dwnx.Pq.Count.{count-remove, remove-ok, left_of}
use dwnx.Conn.{Conn, Entry, find, remove_strm, without_strm, absent}
use dwnx.Conn.Streams.{
  cycle_less, pe_index, with_strmq, take_out, dequeue, close_event, close_stream, was_there,
  close_stream_if_shut_rdwr,
}
use dwnx.Conn.Strms.{All-remove, Unique-remove, find-remove-other}
use dwnx.Conn.Invariant.{IsConn, IsStrm, IsIn, Holds-call, seats, entries}
use dwnx.Conn.Queue.{other_entry, add_none, add_one}

-- An entry of the stream stands at its index.
get_elem?-pe_index :
    (id : ℕ) (q : List Entry)
    → 0 < entries id q
    → (e : Entry) × (Pq.get_elem? q (pe_index id q) ≡ some e) × (e.stream_id ≡ id)
get_elem?-pe_index id [] h = elim h [ ]
get_elem?-pe_index id (e ∷ q) h = elim (Bool-cases (e.stream_id == id)) [
  | inl t ↦ rw t (e, refl, (==_iff e.stream_id id).0 t)
  | inr f ↦ rw f (
      get_elem?-pe_index id q (
        subst (λ n. 0 < n) (zero_add (entries id q))
          (subst (λ b. 0 < (if b then 1 else 0) + entries id q) f h)))
]

-- Where a stream that is closed leaves the map, and its entry the queue.
dequeue-IsConn :
    (strm : Strm) (conn : Conn)
    → IsConn conn
    → IsStrm conn strm
    → Holds IsConn (dequeue strm (record conn { strms = without_strm strm.stream_id conn.strms }))
unfolding dequeue take_out Holds
dequeue-IsConn strm conn h s = either strm.queued refl
  where
    q : List Entry
    q = conn.tx.strmq

    index : ℕ
    index = pe_index strm.stream_id q

    others : Conn
    others = record conn { strms = without_strm strm.stream_id conn.strms }

    room :
        (q' : List Entry)
        → entries strm.stream_id q' ≡ 0
        → ((id : ℕ) → id ≢ strm.stream_id → entries id q' ≡ entries id q)
        → (id : ℕ)
        → entries id q' ≤ seats (absent (find id (without_strm strm.stream_id conn.strms)))
    room q' zero keep id = elim (Bool-cases (id == strm.stream_id)) [
      | inl t ↦
          subst (λ n. n ≤ seats (absent (find id (without_strm strm.stream_id conn.strms))))
            (sym (ap (λ id. entries id q') ((==_iff id strm.stream_id).0 t) ∙ zero)) (omega arith)
      | inr f ↦
          let n =
            λ (p : id ≡ strm.stream_id). false≢true (sym f ∙ (==_iff id strm.stream_id).1 p) in
          subst (λ o. entries id q' ≤ seats (absent o))
            (sym (find-remove-other id strm.stream_id conn.strms n))
            (subst (λ m. m ≤ seats (absent (find id conn.strms))) (sym (keep id n)) (h.3 id))
    ]

    same_count :
        (e : Entry) (id : ℕ)
        → Pq.get_elem? q index ≡ some e
        → e.stream_id ≡ strm.stream_id
        → id ≢ strm.stream_id
        → entries id (left_of (Pq.remove cycle_less e index q)) ≡ entries id q
    same_count e id at same n = sym (
        add_none (e.stream_id == id) _ _ (other_entry e.stream_id id (λ r. n (r ∙ same)))
          (sym (count-remove (λ e. e.stream_id == id) cycle_less e index q at)))

    none_left :
        (e : Entry)
        → Pq.get_elem? q index ≡ some e
        → e.stream_id ≡ strm.stream_id
        → strm.queued ≡ true
        → entries strm.stream_id (left_of (Pq.remove cycle_less e index q)) ≡ 0
    none_left e at same w =
        let all = count-remove (λ e. e.stream_id == strm.stream_id) cycle_less e index q at in
        let here = (==_iff e.stream_id strm.stream_id).1 same in
        let last =
          add_one (e.stream_id == strm.stream_id) (entries strm.stream_id q) _ here (sym all) in
        omega (arith, last, s.3 ∙ ap (λ b. if b then 1 else 0) w)

    removed :
        (e : Entry)
        → Pq.get_elem? q index ≡ some e
        → e.stream_id ≡ strm.stream_id
        → strm.queued ≡ true
        → IsConn (with_strmq (left_of (Pq.remove cycle_less e index q)) others)
    removed e at same w =
        let q' = left_of (Pq.remove cycle_less e index q) in
        (
          h.0,
          Unique-remove strm.stream_id conn.strms h.1,
          All-remove (IsStrm conn) (IsStrm (with_strmq q' others)) strm.stream_id
              (λ s' n p. (p.0, p.1, p.2, same_count e s'.stream_id at same n ∙ p.3)) conn.strms h.1
              h.2,
          room q' (none_left e at same w) (λ id n. same_count e id at same n),
        )

    take_entry :
        (o : Option Entry)
        → Pq.get_elem? q index ≡ o
        → (e : Entry) × (o ≡ some e) × (e.stream_id ≡ strm.stream_id)
        → strm.queued ≡ true
        → Holds IsConn (take_out index q o >>= (λ q. ok (with_strmq q others)))
    take_entry none at (e, r, same) w = cc r
    take_entry (some e') at (e, r, same) w =
        let same' : e' ≡ e = cc r in
        let ok_q = remove-ok cycle_less e' index q at in
        subst (λ m. Holds IsConn (m >>= (λ q. ok (with_strmq q others)))) (sym ok_q)
          (removed e' at (ap (λ (e : Entry). e.stream_id) same' ∙ same) w)

    either :
        (b : Bool)
        → strm.queued ≡ b
        → Holds IsConn (
            if b
            then (take_out index q (Pq.get_elem? q index) >>= (λ q. ok (with_strmq q others)))
            else ok others)
    either true e =
        take_entry (Pq.get_elem? q index) refl
          (get_elem?-pe_index strm.stream_id q
            (subst (λ n. 0 < n) (sym (s.3 ∙ ap (λ b. if b then 1 else 0) e)) (omega arith)))
          e
    either false e = (
      h.0,
      Unique-remove strm.stream_id conn.strms h.1,
      All-remove (IsStrm conn) (IsStrm conn) strm.stream_id (λ s' n p. p) conn.strms h.1 h.2,
      room q (s.3 ∙ ap (λ b. if b then 1 else 0) e) (λ id n. refl),
    )

-- The removal of a stream of the map finds it.
pub remove_strm-there :
    (id : ℕ) (strms : List Strm)
    → absent (find id strms) ≡ false
    → was_there (remove_strm id strms) ≡ ok (without_strm id strms)
remove_strm-there id strms e = rw e refl

-- A stream that is to be closed, with the call to the application before.
pub close-IsConn :
    (strm : Strm) (conn : Conn)
    → IsConn conn
    → IsIn conn strm
    → Holds IsConn (close_stream_if_shut_rdwr strm conn)
unfolding close_stream_if_shut_rdwr close_stream
close-IsConn strm conn h s =
    Holds-if IsConn (should_close_stream strm) _ _
      (λ t. Holds-call IsConn (close_event strm) conn _ (
        rw (remove_strm-there strm.stream_id conn.strms s.1)
          (dequeue-IsConn strm (record conn { calls = close_event strm ∷ conn.calls }) h s.0)))
      (λ f. Holds-ok IsConn conn h)
