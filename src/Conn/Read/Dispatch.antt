-- ===== src/Conn/Read/Dispatch.antt =====
-- dwnx_conn_read comes to the handler of a frame: what it does with a record that holds one frame of
-- integers.
use dwnx.Prelude.{
  ℕ, zero, suc, ◌-◌, ◌+◌, ◌≤◌, ◌<◌, ◌≡◌, refl, sym, ap, ◌∙◌, arith, List, [], ◌∷◌, ◌++◌, true,
  false, not, ◌||◌, ltb, leb, ◌==◌, if◌then◌else◌, le→leb, lt→ltb, length, All, IsByte,
  length-append, Option, none,
}
use dwnx.Prelude.{Error, Result, ok, err, fault, ◌>>=◌}
use dwnx.Conv.Wire.{varint_bytes, IsVarint, length-varint_bytes}
use dwnx.VarintReader
use dwnx.RecordReader
use dwnx.RecordReader.{State, is_record_size}
use dwnx.Conn.{Conn}
use dwnx.Conn.Read.{
  Reading, Flow, with_state, with_rcrd, with_conn, at_end, frame_done, fall_through, handled,
  varint_len_field,
}
use dwnx.Conn.Read.Start.{begin, type_switch, frame_type, sized, record_size}
use dwnx.Conn.Read.Loop.{Returned, cases, go_on, rounds, conn_read}
use dwnx.Conn.Read.Whole.{at, field-whole, size-whole}

-- A reader between two records, behind the transport parameters.
abbrev pub between : Reading → Reading
between r = record r {
  seen = true;
  vird = VarintReader.reset;
  rcrd = record r.rcrd { state = State.record_size };
}

-- What is seen of a read from outside: what it returns, the connection, where the reader is, and
-- `idle_ts`.
abbrev pub View : Type 0
View = Option Error × Conn × State × ℕ

abbrev pub view : Returned → Result View
view out = ok (out.0, out.1.conn, out.1.rcrd.state, out.1.idle_ts)

-- A record of `n` bytes.
abbrev pub record_bytes : List ℕ → List ℕ
record_bytes payload = varint_bytes (length payload) ++ payload

nil_end : (p : List ℕ) → p ≡ [] → at_end p ≡ true
nil_end p e = ap at_end e

rounds-nil : (fuel ts : ℕ) (r : Reading) → r.p ≡ [] → rounds fuel ts r ≡ ok (none, r)
unfolding rounds
rounds-nil zero ts r e = rw (nil_end r.p e) refl
rounds-nil (suc fuel) ts r e = rw (nil_end r.p e) refl

-- The reader behind the type of a frame, which has `n` bytes.
abbrev pub typed_by : ℕ → ℕ → List ℕ → Reading → Reading
typed_by n ts body r =
    record (at (length body) body
      (with_state State.frame_type (record (between r) { last_ts = ts }))) {
        rcrd = record r.rcrd { state = State.frame_type; record_left = length body; typelen = n };
      }

abbrev pub typed : ℕ → List ℕ → Reading → Reading
typed = typed_by 1

handled-view :
    (fuel ts left : ℕ) (m : Result Conn) (r : Reading)
    → left ≡ 0
    → (handled ts m (at left [] r) >>= go_on (rounds fuel ts) >>= view)
      ≡ (m >>= (λ conn. ok (none, conn, State.record_size, ts)))
unfolding handled frame_done
handled-view fuel ts left fault r e = refl
handled-view fuel ts left (err code) r e = refl
handled-view fuel ts left (ok conn) r e =
    let r' = with_conn conn (at left [] r) in
    let rcrd = λ (n : ℕ). RecordReader.reset (record r.rcrd { record_left = n }) in
    ap (λ m. m >>= view) (rounds-nil fuel ts (with_rcrd ts (RecordReader.reset r'.rcrd) r') refl)
    ∙ ap
        (λ n.
          ok (none, conn, (rcrd n).state, if is_record_size (rcrd n).state then ts else r.idle_ts))
        e

small_bytes : (t : ℕ) → t < 64 → varint_bytes t ≡ t ∷ []
unfolding varint_bytes
small_bytes t h = rw (lt→ltb t 64 h)

accepted : (max n : ℕ) → leb n max ≡ true → 0 < n → not (ltb max n || n == 0) ≡ true
accepted max n e h = ground arith

pub not_end : (p : List ℕ) → 0 < length p → at_end p ≡ false
not_end [] h = elim h [ ]
not_end (x ∷ p) h = refl

-- The size of the record, and the type of its frame, whose bytes are `t_bytes`.
first_fields :
    (t ts : ℕ) (t_bytes body : List ℕ) (r : Reading)
    → varint_bytes t ≡ t_bytes
    → IsVarint t
    → IsVarint (length (t_bytes ++ body))
    → All IsByte (t_bytes ++ body)
    → All IsByte body
    → leb (length (t_bytes ++ body)) r.conn.local_params.max_record_size ≡ true
    → record_size ts (record (between r) { last_ts = ts; p = record_bytes (t_bytes ++ body) })
      ≡ type_switch ts t (typed_by (length t_bytes) ts body r)
unfolding sized fall_through frame_type
first_fields t ts t_bytes body r e small v b b' fits =
    size-whole ts (length (t_bytes ++ body)) (t_bytes ++ body) r' v b
    ∙ rw
        (
          accepted r.conn.local_params.max_record_size (length (t_bytes ++ body)) fits some_bytes,
          not_end (t_bytes ++ body) some_bytes,
        )
        refl
    ∙ ap (λ p. varint_len_field (frame_type ts) (at (length (t_bytes ++ body)) (p ++ body) start))
        (sym e)
    ∙ field-whole (frame_type ts) t (length (t_bytes ++ body)) body start small b'
        (omega (arith, n, ap length e))
    ∙ ap (λ p. frame_type ts t (length p) (at (length (t_bytes ++ body) - length p) body start)) e
    ∙ ap (λ left. frame_type ts t (length t_bytes) (at left body start)) (omega (arith, n))
  where
    r' : Reading
    r' = record (between r) { last_ts = ts }

    start : Reading
    start = with_state State.frame_type r'

    n : length (t_bytes ++ body) ≡ length t_bytes + length body
    n = length-append t_bytes body

    some_bytes : 0 < length (t_bytes ++ body)
    some_bytes = omega (arith, n, length-varint_bytes t, ap length e)

one_round :
    (fuel ts : ℕ) (r : Reading)
    → 0 < length r.p
    → rounds (suc fuel) ts r ≡ (cases ts r.rcrd.state r >>= go_on (rounds fuel ts))
unfolding rounds
one_round fuel ts r h = rw (not_end r.p h) refl

begun :
    (state : State) (r : Reading)
    → 0 < r.rcrd.record_left
    → begin state r ≡ ok (Flow.again (with_state state r))
begun state r h = rw (some_left r.rcrd.record_left h) refl
  where
    some_left : (n : ℕ) → 0 < n → not (n == 0) ≡ true
    some_left n h = ground arith

started :
    (bytes : List ℕ) (ts : ℕ) (r : Reading)
    → 0 < length bytes
    → r.last_ts ≤ ts
    → conn_read bytes ts r ≡ rounds (length bytes) ts (record r { last_ts = ts; p = bytes })
unfolding conn_read
started bytes ts r h l = rw (le→leb r.last_ts ts l, not_end bytes h) refl

-- One round to the state `state` of a frame, and one to its handler.
pub typed_rounds :
    (t ts : ℕ) (t_bytes body : List ℕ) (state : State) (r r1 r2 : Reading) (m : Result Conn)
    (left : ℕ)
    → varint_bytes t ≡ t_bytes
    → IsVarint t
    → 0 < length body
    → IsVarint (length (t_bytes ++ body))
    → All IsByte (t_bytes ++ body)
    → All IsByte body
    → r.last_ts ≤ ts
    → leb (length (t_bytes ++ body)) r.conn.local_params.max_record_size ≡ true
    → type_switch ts t (typed_by (length t_bytes) ts body r) ≡ begin state r1
    → length r1.p ≡ length body
    → r1.rcrd.record_left ≡ length body
    → cases ts state (with_state state r1) ≡ handled ts m (at left [] r2)
    → left ≡ 0
    → (conn_read (record_bytes (t_bytes ++ body)) ts (between r) >>= view)
      ≡ (m >>= (λ conn. ok (none, conn, State.record_size, ts)))
unfolding cases
typed_rounds t ts t_bytes body state r r1 r2 m left e small some_body v b b' l fits e1 ep el e2 z =
    ap (λ x. x >>= view)
      (started bytes ts (between r) (omega (arith, n, sized_bytes)) l
        ∙ ap (λ fuel. rounds fuel ts r0)
            (two_more (length bytes) (omega (arith, n, n', some_body, sized_bytes)))
        ∙ one_round (suc f) ts r0 (omega (arith, n, sized_bytes))
        ∙ ap (λ x. x >>= go_on (rounds (suc f) ts))
            (first_fields t ts t_bytes body r e small v b b' fits
              ∙ e1
              ∙ begun state r1 (omega arith))
        ∙ one_round f ts (with_state state r1) (omega arith)
        ∙ ap (λ x. x >>= go_on (rounds f ts)) e2)
    ∙ handled-view f ts left m r2 z
  where
    bytes : List ℕ
    bytes = record_bytes (t_bytes ++ body)

    n : length bytes ≡ length (varint_bytes (length (t_bytes ++ body))) + length (t_bytes ++ body)
    n = length-append (varint_bytes (length (t_bytes ++ body))) (t_bytes ++ body)

    n' : length (t_bytes ++ body) ≡ length t_bytes + length body
    n' = length-append t_bytes body

    sized_bytes : 1 ≤ length (varint_bytes (length (t_bytes ++ body)))
    sized_bytes = (length-varint_bytes (length (t_bytes ++ body))).0

    f : ℕ
    f = length bytes - 2

    r0 : Reading
    r0 = record (between r) { last_ts = ts; p = bytes }

    two_more : (n : ℕ) → 2 ≤ n → n ≡ suc (suc (n - 2))
    two_more n h = omega arith

-- The same for a type of one byte.
pub two_rounds :
    (t ts : ℕ) (body : List ℕ) (state : State) (r r1 r2 : Reading) (m : Result Conn) (left : ℕ)
    → t < 64
    → 0 < length body
    → IsVarint (length (t ∷ body))
    → All IsByte (t ∷ body)
    → r.last_ts ≤ ts
    → leb (length (t ∷ body)) r.conn.local_params.max_record_size ≡ true
    → type_switch ts t (typed ts body r) ≡ begin state r1
    → length r1.p ≡ length body
    → r1.rcrd.record_left ≡ length body
    → cases ts state (with_state state r1) ≡ handled ts m (at left [] r2)
    → left ≡ 0
    → (conn_read (record_bytes (t ∷ body)) ts (between r) >>= view)
      ≡ (m >>= (λ conn. ok (none, conn, State.record_size, ts)))
two_rounds t ts body state r r1 r2 m left small some_body v b =
    typed_rounds t ts (t ∷ []) body state r r1 r2 m left (small_bytes t small) (omega arith)
      some_body v b b.1
