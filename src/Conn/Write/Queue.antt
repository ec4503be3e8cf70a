-- ===== src/Conn/Write/Queue.antt =====
-- Taking the first stream out of the transmission queue.
use dwnx.Prelude.{
  ℕ, ◌+◌, ◌≤◌, ◌<◌, ◌≡◌, refl, sym, subst, ap, ◌∙◌, arith, List, [], ◌∷◌, Bool, true, false, ◌==◌,
  if◌then◌else◌, length, Option, none, some, ==_iff,
}
use dwnx.Prelude.{ok, Holds, Holds-ok}
use dwnx.Strm.{Strm}
use dwnx.Pq
use dwnx.Pq.Count.{count, count-pop, left_of}
use dwnx.Conn.{Conn, Entry, find, absent, put_strm}
use dwnx.Conn.Streams.{cycle_less, with_strmq, tx_strmq_pop, tx_strmq_top}
use dwnx.Conn.Strms.{find-replace, find-All, All-replace, Unique-replace}
use dwnx.Conn.Invariant.{IsStrm, seats, entries}
use dwnx.Conn.Queue.{add_none, add_one, other_entry, same_entry}
use dwnx.Conn.Write.Invariant.{IsSender, IsSpent, Here, put-IsOwn}

module _ (watched : Option ℕ) where
  count-length : (q : List Entry) → count (λ e. true) q ≡ length q
  count-length [] = refl
  count-length (e ∷ q) = omega (arith, count-length q)

  abbrev popped : Entry → List Entry → List Entry
  popped e q = left_of (Pq.pop cycle_less (e ∷ q))

  length-popped : (e : Entry) (q : List Entry) → length (popped e q) ≡ length q
  length-popped e q = omega (
    arith,
    count-length (popped e q),
    count-length q,
    count-pop (λ e. true) cycle_less (e ∷ q) e refl,
  )

  entries-popped :
      (id : ℕ) (e : Entry) (q : List Entry)
      → entries id (e ∷ q) ≡ entries id (popped e q) + (if e.stream_id == id then 1 else 0)
  entries-popped id e q = sym (count-pop (λ e. e.stream_id == id) cycle_less (e ∷ q) e refl)

  -- The first entry has a stream in the map.
  pub first_stream :
      (conn : Conn) (e : Entry) (q : List Entry)
      → IsSender watched conn
      → conn.tx.strmq ≡ e ∷ q
      → (strm : Strm) × (find e.stream_id conn.strms ≡ some strm)
        × (strm.stream_id ≡ e.stream_id)
        × Here watched conn strm
  first_stream conn e q h p = found (find e.stream_id conn.strms) refl
    where
      full : 0 < entries e.stream_id conn.tx.strmq
      full = rw (p, same_entry e.stream_id) (omega arith)

      found :
          (o : Option Strm)
          → find e.stream_id conn.strms ≡ o
          → (strm : Strm) × (o ≡ some strm)
            × (strm.stream_id ≡ e.stream_id)
            × Here watched conn strm
      found none f = absurd (omega (arith, full, (rw f at (h.0.3 e.stream_id))))
      found (some strm) f =
          let s = find-All (IsStrm conn) e.stream_id conn.strms strm h.0.2 f in
          let t = find-All (IsSpent watched) e.stream_id conn.strms strm h.2 f in
          let there = ap (λ id. absent (find id conn.strms)) s.1 ∙ ap absent f in
          (strm, refl, s.1, ((s.0, there), t.0))

  pub top_found :
      (conn : Conn) (e : Entry) (q : List Entry) (strm : Strm)
      → conn.tx.strmq ≡ e ∷ q
      → find e.stream_id conn.strms ≡ some strm
      → tx_strmq_top conn ≡ ok (some strm)
  unfolding tx_strmq_top Pq.top
  top_found conn e q strm p f = rw (p, f) refl

  abbrev unqueued : Strm → Strm
  unqueued strm = record strm { queued = false }

  -- What is left, where `strm` was the first.
  abbrev pub IsLeft : Conn → Entry → List Entry → Conn → Type 0
  IsLeft conn e q conn' =
      IsSender watched conn'
      × (length conn'.tx.strmq ≡ length q)
      × ((strm : Strm)
          → Here watched conn strm
          → strm.stream_id ≡ e.stream_id
          → Here watched conn' (unqueued strm))

  at_most_one : (b : Bool) → (if b then 1 else 0) ≤ 1
  at_most_one true = omega arith
  at_most_one false = omega arith

  pop_stream :
      (conn : Conn) (e : Entry) (q : List Entry) (strm : Strm)
      → IsSender watched conn
      → conn.tx.strmq ≡ e ∷ q
      → strm.stream_id ≡ e.stream_id
      → Here watched conn strm
      → IsLeft conn e q (with_strmq (popped e q) (put_strm (unqueued strm) conn))
  pop_stream conn e q strm h p same s = (
    (
      (
        h.0.0,
        Unique-replace (unqueued strm) conn.strms h.0.1,
        All-replace (IsStrm conn) (IsStrm conn') strm.stream_id
            (λ s' n k. (
              k.0,
              k.1,
              k.2,
              sym (
                    add_none (e.stream_id == s'.stream_id) _ _
                      (other_entry e.stream_id s'.stream_id (λ r. n (r ∙ sym same)))
                      (counted s'.stream_id))
                  ∙ k.3,
            ))
            conn.strms (unqueued strm) refl h.0.1 h.0.2
            (s.0.0.0, s.0.0.1, s.0.0.2, gone strm s.0.0 same),
        λ id.
            subst (λ b. entries id (popped e q) ≤ seats b)
              (sym (find-replace id (unqueued strm) conn.strms))
              (omega (arith, counted id, h.0.3 id)),
      ),
      put-IsOwn watched (unqueued strm) conn h.1,
      All-replace (IsSpent watched) (IsSpent watched) strm.stream_id (λ s n p. p) conn.strms
          (unqueued strm) refl h.0.1 h.2 s.1,
    ),
    length-popped e q,
    λ s' t r. (
      (
        (t.0.0.0, t.0.0.1, t.0.0.2, gone s' t.0.0 r),
        find-replace s'.stream_id (unqueued strm) conn.strms ∙ t.0.1,
      ),
      t.1,
    ),
  )
    where
      conn' : Conn
      conn' = with_strmq (popped e q) (put_strm (unqueued strm) conn)

      counted :
          (id : ℕ)
          → entries id conn.tx.strmq
            ≡ entries id (popped e q) + (if e.stream_id == id then 1 else 0)
      counted id = ap (entries id) p ∙ entries-popped id e q

      gone :
          (s' : Strm)
          → IsStrm conn s'
          → s'.stream_id ≡ e.stream_id
          → entries s'.stream_id (popped e q) ≡ 0
      gone s' t r =
          let one =
            add_one (e.stream_id == s'.stream_id) _ _ ((==_iff e.stream_id s'.stream_id).1 (sym r))
              (counted s'.stream_id) in
          omega (arith, one, t.3, at_most_one s'.queued)

  pop_found :
      (conn : Conn) (e : Entry) (q : List Entry) (strm : Strm)
      → conn.tx.strmq ≡ e ∷ q
      → find e.stream_id conn.strms ≡ some strm
      → tx_strmq_pop conn ≡ ok (with_strmq (popped e q) (put_strm (unqueued strm) conn))
  unfolding tx_strmq_pop Pq.top Pq.pop
  pop_found conn e q strm p f = rw (p, f) refl

  pub pop-IsLeft :
      (conn : Conn) (e : Entry) (q : List Entry)
      → IsSender watched conn
      → conn.tx.strmq ≡ e ∷ q
      → Holds (IsLeft conn e q) (tx_strmq_pop conn)
  pop-IsLeft conn e q h p =
      let (strm, f, same, s) = first_stream conn e q h p in
      rw (pop_found conn e q strm p f)
        (Holds-ok (IsLeft conn e q) _ (pop_stream conn e q strm h p same s))
