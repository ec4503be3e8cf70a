-- ===== src/Conn/Turns.antt =====
-- Whose turn it is in the transmission queue: the order of `dwnx_conn.tx.strmq` in lib/dwnx_conn.c.
use dwnx.Prelude.{
  ℕ, ◌+◌, ◌≤◌, ◌≡◌, refl, sym, ap, subst, ◌∙◌, arith, List, [], ◌∷◌, Bool, false, not, ◌==◌, ==_iff,
  ltb, if◌then◌else◌, Option, none, some, inl, inr, Bool-cases,
}
use dwnx.Prelude.{Result, ok, ◌>>=◌, OnOk, OnOk-bind, OnOk-then, OnOk-ok, OnOk-if}
use dwnx.Strm.{Strm}
use dwnx.Pq
use dwnx.Pq.Count.{one, count, count-push, count-pop, count-remove, left_of}
use dwnx.Pq.Keys.{IsHeap}
use dwnx.Pq.Order.{push-IsHeap, pop-IsHeap, remove-IsHeap, top-least}
use dwnx.Conn.{Conn, Entry, find, find_stream}
use dwnx.Conn.Streams.{
  cycle_less, pe_index, entry, with_strmq, tx_strmq_first_cycle, tx_strmq_top, tx_strmq_pop,
  tx_strmq_push_if_not, take_out, dequeue,
}

-- The queues that come of an empty one by the functions of the connection, in any order.
pub data Queued : List Entry → Type 0 where
  none_queued : Queued []
  pushed :
      (strm : Strm) (conn : Conn)
      → Queued conn.tx.strmq
      → Queued (tx_strmq_push_if_not strm conn).tx.strmq
  popped :
      (conn conn' : Conn)
      → Queued conn.tx.strmq
      → tx_strmq_pop conn ≡ ok conn'
      → Queued conn'.tx.strmq
  dequeued :
      (conn conn' : Conn) (strm : Strm)
      → Queued conn.tx.strmq
      → dequeue strm conn ≡ ok conn'
      → Queued conn'.tx.strmq

abbrev key : Entry → ℕ
key e = e.stream_id

-- The entries that are compared by something else than their stream IDs.
abbrev cycled : Entry → Bool
cycled e = not (e.cycle == 0)

cycle_less-ltb :
    (a b : Entry) → cycled a ≡ false → cycled b ≡ false → cycle_less a b ≡ ltb (key a) (key b)
cycle_less-ltb a b e f = ground arith

abbrev IsOrdered : List Entry → Type 0
IsOrdered q = (count cycled q ≡ 0) × IsHeap key q

-- A queue takes its cycle from its first entry, and starts with 0.
first_cycle-zero :
    (conn : Conn) (q : List Entry)
    → conn.tx.strmq ≡ q
    → count cycled q ≡ 0
    → cycled (record { stream_id = 0; cycle = tx_strmq_first_cycle conn }) ≡ false
unfolding tx_strmq_first_cycle
first_cycle-zero conn [] p z = rw p refl
first_cycle-zero conn (e ∷ q) p z = rw p (ground (arith, z))

push-IsOrdered :
    (strm : Strm) (conn : Conn)
    → IsOrdered conn.tx.strmq
    → IsOrdered (tx_strmq_push_if_not strm conn).tx.strmq
unfolding tx_strmq_push_if_not
push-IsOrdered strm conn h = elim (Bool-cases strm.queued) [
  | inl t ↦ rw t h
  | inr f ↦
      let e = entry (record strm { cycle = tx_strmq_first_cycle conn }) in
      let z = first_cycle-zero conn conn.tx.strmq refl h.0 in
      rw f (
        count-push cycled cycle_less e conn.tx.strmq ∙ omega (arith, h.0, ap one z),
        push-IsHeap key cycled cycle_less cycle_less-ltb e conn.tx.strmq z h.0 h.1,
      )
]

none_cycled : (n m : ℕ) (b : Bool) → n + (if b then 1 else 0) ≡ m → m ≡ 0 → n ≡ 0
none_cycled n m b e z = ground (arith, e, z)

pop_rest-IsOrdered : (q : List Entry) → IsOrdered q → IsOrdered (left_of (Pq.pop cycle_less q))
unfolding Pq.pop
pop_rest-IsOrdered [] h = h
pop_rest-IsOrdered (e ∷ q) h = (
  none_cycled _ _ (cycled e) (count-pop cycled cycle_less (e ∷ q) e refl) h.0,
  pop-IsHeap key cycled cycle_less cycle_less-ltb (e ∷ q) h.0 h.1,
)

left_of-OnOk : (P : List Entry → Type 0) (m : Result (List Entry)) → P (left_of m) → OnOk P m
unfolding OnOk
left_of-OnOk P Result.fault h = tt
left_of-OnOk P (Result.err code) h = tt
left_of-OnOk P (ok q) h = h

-- What a pop leaves is the queue without its first entry.
pop-IsOrdered :
    (conn : Conn) → IsOrdered conn.tx.strmq → OnOk (λ c. IsOrdered c.tx.strmq) (tx_strmq_pop conn)
unfolding tx_strmq_pop
pop-IsOrdered conn h =
    OnOk-then (λ (e : Entry). Unit {0}) Ordered (Pq.top conn.tx.strmq) _
      (λ e.
        OnOk-bind IsOrdered Ordered (Pq.pop cycle_less conn.tx.strmq) _
          (left_of-OnOk IsOrdered _ (pop_rest-IsOrdered conn.tx.strmq h))
          (λ q k.
            OnOk-then (λ (c : Conn). Unit {0}) Ordered _ (λ c. ok (with_strmq q c))
              (λ c. OnOk-ok Ordered (with_strmq q c) k)))
  where
    Ordered : Conn → Type 0
    Ordered c = IsOrdered c.tx.strmq

take_out-IsOrdered :
    (index : ℕ) (q : List Entry) (o : Option Entry)
    → Pq.get_elem? q index ≡ o
    → IsOrdered q
    → OnOk IsOrdered (take_out index q o)
unfolding take_out OnOk
take_out-IsOrdered index q none at h = tt
take_out-IsOrdered index q (some e) at h = left_of-OnOk IsOrdered _ (
  none_cycled _ _ (cycled e) (count-remove cycled cycle_less e index q at) h.0,
  remove-IsHeap key cycled cycle_less cycle_less-ltb e index q at h.0 h.1,
)

dequeue-IsOrdered :
    (strm : Strm) (conn : Conn)
    → IsOrdered conn.tx.strmq
    → OnOk (λ c. IsOrdered c.tx.strmq) (dequeue strm conn)
unfolding dequeue
dequeue-IsOrdered strm conn h =
    let index = pe_index strm.stream_id conn.tx.strmq in
    OnOk-if Ordered strm.queued _ _
      (OnOk-bind IsOrdered Ordered (take_out index conn.tx.strmq _) _
        (take_out-IsOrdered index conn.tx.strmq _ refl h)
        (λ q k. OnOk-ok Ordered (with_strmq q conn) k))
      (OnOk-ok Ordered conn h)
  where
    Ordered : Conn → Type 0
    Ordered c = IsOrdered c.tx.strmq

OnOk-result : (P : Conn → Type 0) (m : Result Conn) (c : Conn) → OnOk P m → m ≡ ok c → P c
unfolding OnOk
OnOk-result P Result.fault c h e = cc e
OnOk-result P (Result.err code) c h e = cc e
OnOk-result P (ok b) c h e = subst P (cc e) h

Queued-IsOrdered : (q : List Entry) → Queued q → IsOrdered q
Queued-IsOrdered q none_queued = (refl, λ c x y. absurd (omega arith))
Queued-IsOrdered q (pushed strm conn h) = push-IsOrdered strm conn (Queued-IsOrdered _ h)
Queued-IsOrdered q (popped conn conn' h e) =
    OnOk-result (λ (c : Conn). IsOrdered c.tx.strmq) (tx_strmq_pop conn) conn'
      (pop-IsOrdered conn (Queued-IsOrdered _ h)) e
Queued-IsOrdered q (dequeued conn conn' strm h e) =
    OnOk-result (λ (c : Conn). IsOrdered c.tx.strmq) (dequeue strm conn) conn'
      (dequeue-IsOrdered strm conn (Queued-IsOrdered _ h)) e

found_id :
    (id : ℕ) (strms : List Strm) (strm : Strm) → find id strms ≡ some strm → strm.stream_id ≡ id
found_id id [] strm e = cc e
found_id id (s ∷ strms) strm e = elim (Bool-cases (s.stream_id == id)) [
  | inl t ↦
      let same : s ≡ strm = cc (t, e) in
      ap (λ (s : Strm). s.stream_id) (sym same) ∙ (==_iff s.stream_id id).0 t
  | inr f ↦ found_id id strms strm (cc (f, e))
]

-- Whatever streams are put into an empty transmission queue, taken from its top and removed from it, in any
-- order, the stream at its top is the one with the smallest stream ID of all that are in it.
pub tx_strmq_top-least :
    (conn : Conn) (strm : Strm) (e : Entry) (index : ℕ)
    → Queued conn.tx.strmq
    → tx_strmq_top conn ≡ ok (some strm)
    → Pq.get_elem? conn.tx.strmq index ≡ some e
    → strm.stream_id ≤ e.stream_id
unfolding tx_strmq_top
tx_strmq_top-least conn strm e index queued t at = first (Pq.top conn.tx.strmq) refl t
  where
    first :
        (o : Result Entry)
        → Pq.top conn.tx.strmq ≡ o
        → (o >>= (λ e. ok (find_stream conn e.stream_id))) ≡ ok (some strm)
        → strm.stream_id ≤ e.stream_id
    first (ok x) p t =
        let least = top-least key conn.tx.strmq x e index (Queued-IsOrdered _ queued).1 p at in
        omega (arith, least, found_id x.stream_id conn.strms strm (cc t))
    first (Result.err code) p t = cc t
    first Result.fault p t = cc t
