-- ===== src/Conn/Queue.antt =====
-- A stream that is written back or put into the transmission queue leaves the state in order.
use dwnx.Prelude.{
  ℕ, ◌+◌, ◌≤◌, ◌≡◌, ◌≢◌, refl, sym, subst, ap, ◌∙◌, arith, List, Bool, true, false, ◌==◌, ==_iff,
  if◌then◌else◌, Bool-cases, inl, inr,
}
use dwnx.Strm.{Strm}
use dwnx.Pq
use dwnx.Pq.Count.{count-push}
use dwnx.Conn.{Conn, Entry, find, put_strm, absent}
use dwnx.Conn.Streams.{
  cycle_less, entry, with_strmq, tx_strmq_first_cycle, tx_strmq_push, tx_strmq_push_if_not,
}
use dwnx.Conn.Strms.{All-replace, Unique-replace, find-replace}
use dwnx.Conn.Invariant.{IsConn, IsStrm, IsIn, seats, entries}

-- A change to a stream that is in order.
pub put_strm-IsConn :
    (strm : Strm) (conn : Conn) → IsConn conn → IsStrm conn strm → IsConn (put_strm strm conn)
put_strm-IsConn strm conn h s = (
  h.0,
  Unique-replace strm conn.strms h.1,
  All-replace (IsStrm conn) (IsStrm conn) strm.stream_id (λ s n p. p) conn.strms strm refl h.1 h.2
      s,
  λ id.
      subst (λ b. entries id conn.tx.strmq ≤ seats b) (sym (find-replace id strm conn.strms))
        (h.3 id),
)

pub other_entry : (a b : ℕ) → b ≢ a → (a == b) ≡ false
other_entry a b n = elim (Bool-cases (a == b)) [
  | inl t ↦ absurd (n (sym ((==_iff a b).0 t)))
  | inr f ↦ f
]

pub same_entry : (a : ℕ) → (a == a) ≡ true
same_entry a = (==_iff a a).1 refl

pub add_none : (b : Bool) (m n : ℕ) → b ≡ false → m ≡ n + (if b then 1 else 0) → m ≡ n
add_none true m n e h = cc e
add_none false m n e h = omega (arith, h)

pub add_one : (b : Bool) (m n : ℕ) → b ≡ true → m ≡ n + (if b then 1 else 0) → m ≡ n + 1
add_one true m n e h = h
add_one false m n e h = cc e

push-IsConn :
    (strm : Strm) (conn : Conn)
    → IsConn conn
    → IsIn conn strm
    → strm.queued ≡ false
    → IsConn (tx_strmq_push strm conn)
push-IsConn strm conn h s e =
    let q = conn.tx.strmq in
    let item = entry strm in
    let queued = record strm { queued = true } in
    let added = λ (id : ℕ). count-push (λ e. e.stream_id == id) cycle_less item q in
    let conn' = with_strmq (Pq.push cycle_less item q) conn in
    (
      h.0,
      Unique-replace queued conn.strms h.1,
      All-replace (IsStrm conn) (IsStrm conn') strm.stream_id
          (λ s' n p. (
            p.0,
            p.1,
            p.2,
            add_none (strm.stream_id == s'.stream_id) _ _
                  (other_entry strm.stream_id s'.stream_id n) (added s'.stream_id)
                ∙ p.3,
          ))
          conn.strms queued refl h.1 h.2 (s.0.0, s.0.1, s.0.2, one_entry),
      λ id.
          subst (λ b. entries id q' ≤ seats b) (sym (find-replace id queued conn.strms)) (room id),
    )
  where
    q' : List Entry
    q' = Pq.push cycle_less (entry strm) conn.tx.strmq

    added :
        (id : ℕ)
        → entries id q' ≡ entries id conn.tx.strmq + (if strm.stream_id == id then 1 else 0)
    added id = count-push (λ e. e.stream_id == id) cycle_less (entry strm) conn.tx.strmq

    one_entry : entries strm.stream_id q' ≡ 1
    one_entry =
        add_one (strm.stream_id == strm.stream_id) _ _ (same_entry strm.stream_id)
          (added strm.stream_id)
        ∙ ap (λ n. n + 1) (s.0.3 ∙ ap (λ b. if b then 1 else 0) e)

    room : (id : ℕ) → entries id q' ≤ seats (absent (find id conn.strms))
    room id = elim (Bool-cases (strm.stream_id == id)) [
      | inl t ↦
          subst (λ id. entries id q' ≤ seats (absent (find id conn.strms)))
            ((==_iff strm.stream_id id).0 t)
            (subst (λ b. entries strm.stream_id q' ≤ seats b) (sym s.1) (omega (arith, one_entry)))
      | inr f ↦
          subst (λ n. n ≤ seats (absent (find id conn.strms))) (sym (add_none _ _ _ f (added id)))
            (h.3 id)
    ]

-- A changed stream that is queued unless it is so already.
pub push_if_not-IsConn :
    (strm : Strm) (conn : Conn)
    → IsConn conn
    → IsIn conn strm
    → IsConn (tx_strmq_push_if_not strm conn)
unfolding tx_strmq_push_if_not
push_if_not-IsConn strm conn h s = either strm.queued refl
  where
    cycled : Strm
    cycled = record strm { cycle = tx_strmq_first_cycle conn }

    either :
        (b : Bool)
        → strm.queued ≡ b
        → IsConn (if b then put_strm strm conn else tx_strmq_push cycled conn)
    either true e = put_strm-IsConn strm conn h s.0
    either false e = push-IsConn cycled conn h s e
