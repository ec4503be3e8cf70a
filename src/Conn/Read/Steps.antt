-- ===== src/Conn/Read/Steps.antt =====
-- The common steps of the cases of dwnx_conn_read.
use dwnx.Prelude.{
  ℕ, ◌-◌, ◌≤◌, ◌<◌, ◌≡◌, refl, sym, subst, arith, List, [], ◌∷◌, ◌++◌, true, false, true≢false,
  false≢true, if_intro, not, min, ◌==◌, inl, length, take, drop, IsByte, All-append, All-take,
  All-drop, length-take, length-drop, none,
}
use dwnx.Prelude.{
  Result, ok, ◌>>=◌, ◌>>◌, on_error, frame_encoding, Holds, Holds-bind, Holds-guard, Holds-if,
  Holds-ok, Holds-err, OnOk, Holds-and,
}
use dwnx.Vec.{max_varint}
use dwnx.Conv.Wire.{parse_varint}
use dwnx.VarintReader
use dwnx.VarintReader.{VarintReader}
use dwnx.VarintReader.Pieces.{held}
use dwnx.VarintReader.Took.{Took, failed, goes, whole, read-Took}
use dwnx.RecordReader.{State, avail}
use dwnx.Conn.{Conn}
use dwnx.Conn.Invariant.{IsConn}
use dwnx.Conn.Clock.{Clock}
use dwnx.Conn.Read.{
  Reading, Flow, returns, again, with_state, with_rcrd, with_conn, advance, at_end, frame_done,
  more, fall_through, handled, checked, varint_read, varint_len_field, varint_field,
}
use dwnx.Conn.Read.Invariant.{IsHeld, IsBase, Fits, Ends, Outcome}

pub drop-all {ℓ} : {A : Type ℓ} (n : ℕ) (xs : List A) → length xs ≤ n → drop n xs ≡ []
drop-all ℕ.zero [] h = refl
drop-all ℕ.zero (x ∷ xs) h = elim h [ ]
drop-all (ℕ.suc n) [] h = refl
drop-all (ℕ.suc n) (x ∷ xs) h = drop-all n xs (omega arith)

pub reset-IsHeld : IsHeld VarintReader.reset
unfolding parse_varint
reset-IsHeld = ([], refl, refl, tt)

not_zero : (n : ℕ) → (n == 0) ≡ false → 0 < n
not_zero n e = ground arith

-- `frame_done` with a record that is read on, or a new one.
pub frame_done-Ends :
    (n ts : ℕ) (r : Reading)
    → IsBase ts r
    → r.seen ≡ true
    → length r.p < n
    → Ends n ts (frame_done ts r)
unfolding frame_done
frame_done-Ends n ts r b s l = Holds-ok (Outcome n ts) _ (
    if_intro (λ rcrd. Outcome n ts (again (with_rcrd ts rcrd r))) (r.rcrd.record_left == 0) _ _
      (λ z. (b, (inl s), l)) (λ z. (b, (not_zero r.rcrd.record_left z, inl s), l)))

-- A handler whose result is in order.
pub handled-Ends :
    (n ts : ℕ) (m : Result Conn) (r : Reading)
    → IsBase ts r
    → r.seen ≡ true
    → length r.p < n
    → Holds IsConn m
    → OnOk (Clock ts) m
    → Ends n ts (handled ts m r)
unfolding handled
handled-Ends n ts m r b s l h k =
    Holds-bind (λ c. IsConn c × Clock ts c) (Outcome n ts) m _ (Holds-and IsConn (Clock ts) m h k)
      (λ c i. frame_done-Ends n ts (with_conn c r) (i, b.1, b.2, b.3, b.4) s l)

pub checked-Ends :
    (n ts : ℕ) (m : Result (Unit {0})) (r : Reading)
    → IsBase ts r
    → r.seen ≡ true
    → length r.p < n
    → Holds (λ (u : Unit {0}). Unit {0}) m
    → Ends n ts (checked ts m r)
unfolding checked
checked-Ends n ts m r b s l h =
    Holds-bind (λ (u : Unit {0}). Unit {0}) (Outcome n ts) m _ h
      (λ u v. frame_done-Ends n ts r b s l)

-- The test of the record's end.
pub more-Ends :
    (n ts : ℕ) (r : Reading) (m : Result Flow)
    → (0 < r.rcrd.record_left → Ends n ts m)
    → Ends n ts (more r >> m)
more-Ends n ts r m h =
    Holds-guard (Outcome n ts) (not (r.rcrd.record_left == 0)) frame_encoding m
      (λ g. h (positive r.rcrd.record_left g))
  where
    positive : (n : ℕ) → not (n == 0) ≡ true → 0 < n
    positive n e = ground arith

pub fall_through-Ends :
    (n ts : ℕ) (state : State) (next : Reading → Result Flow) (r : Reading)
    → IsBase ts r
    → Fits state (with_state state r)
    → (0 < length r.p → Ends n ts (next (with_state state r)))
    → Ends n ts (fall_through state next r)
unfolding fall_through
fall_through-Ends n ts state next r b f k =
    Holds-if (Outcome n ts) (at_end r.p) (ok (returns none (with_state state r)))
      (next (with_state state r))
      (λ e. Holds-ok (Outcome n ts) (returns none (with_state state r)) (b, f, ended r.p e))
      (λ e. k (goes_on r.p e))
  where
    ended : (p : List ℕ) → at_end p ≡ true → p ≡ []
    ended [] e = refl
    ended (x ∷ p) e = absurd (false≢true e)

    goes_on : (p : List ℕ) → at_end p ≡ false → 0 < length p
    goes_on [] e = absurd (true≢false e)
    goes_on (x ∷ p) e = omega arith

-- What is left after a read of a piece.
abbrev pub after : VarintReader → ℕ → List ℕ → Reading → Reading
after vird left p r = record r { vird = vird; p = p; rcrd = record r.rcrd { record_left = left } }

-- A case that reads an integer: its state stays while the integer and the record go on, and the case goes
-- on with the integer.
pub field-Ends :
    (n ts : ℕ) (next : ℕ → ℕ → Reading → Result Flow) (r : Reading)
    → IsBase ts r
    → 0 < length r.p
    → length r.p ≤ n
    → 0 < r.rcrd.record_left
    → ((vird : VarintReader) (left : ℕ) (p : List ℕ)
        → 0 < left
        → Fits r.rcrd.state (after vird left p r))
    → ((vint vlen left : ℕ) (p : List ℕ)
        → vint ≤ max_varint
        → length p < n
        → IsBase ts (after VarintReader.reset left p r)
        → Ends n ts (next vint vlen (after VarintReader.reset left p r)))
    → Ends n ts (varint_len_field next r)
unfolding varint_len_field varint_read
field-Ends n ts next r ((hc, hk), ls, (seen, e, w, k), by, lf) h l g stay go =
    subst
      (λ vird.
        Ends n ts (on_error frame_encoding (VarintReader.read vird piece (left == len)) >>= took))
      (sym e)
      (read_on _ (
        read-Took seen piece (left == len) w (omega (arith, length-take len r.p))
          (All-append IsByte seen piece k (All-take IsByte len r.p by))))
  where
    left : ℕ
    left = r.rcrd.record_left

    len : ℕ
    len = avail r.rcrd (length r.p)

    piece : List ℕ
    piece = take len r.p

    took : ℕ × VarintReader → Result Flow
    took t = varint_read next (advance t.0 (record r { vird = t.1 }))

    full : (a b : ℕ) → (b == min a b) ≡ false → (min a b ≡ a) × (a < b)
    full a b e = ground arith

    read_on :
        (m : Result (ℕ × VarintReader))
        → Took seen piece (left == len) m
        → Ends n ts (on_error frame_encoding m >>= took)
    read_on _ (failed f) = Holds-err (Outcome n ts) frame_encoding
    read_on _ (goes f w' z) =
        let f' = full (length r.p) left f in
        let t = length-take len r.p in
        let r' = advance (length piece) (record r { vird = held (seen ++ piece) }) in
        rw z (
          Holds-ok (Outcome n ts) (returns none r') (
            (
              (hc, hk),
              ls,
              (
                seen ++ piece,
                refl,
                w',
                All-append IsByte seen piece k (All-take IsByte len r.p by),
              ),
              All-drop IsByte (length piece) r.p by,
              omega arith,
            ),
            stay (held (seen ++ piece)) (left - length piece) (drop (length piece) r.p)
                (omega (arith, t, f'.0, f'.1)),
            drop-all (length piece) r.p (omega (arith, t, f'.0)),
          ))
    read_on _ (whole v m vlen small some_read fits) =
        go v vlen (left - m) (drop m r.p) small
          (omega (arith, length-drop m r.p, length-take len r.p))
          ((hc, hk), ls, reset-IsHeld, All-drop IsByte m r.p by, omega arith)

-- The next case, which reads an integer too.
pub next_field-Ends :
    (n ts : ℕ) (state : State) (next : ℕ → Reading → Result Flow) (r : Reading)
    → IsBase ts r
    → length r.p < n
    → 0 < r.rcrd.record_left
    → Fits state (with_state state r)
    → ((vird : VarintReader) (left : ℕ) (p : List ℕ)
        → 0 < left
        → Fits state (after vird left p (with_state state r)))
    → ((vint left : ℕ) (p : List ℕ)
        → vint ≤ max_varint
        → length p < n
        → IsBase ts (after VarintReader.reset left p (with_state state r))
        → Ends n ts (next vint (after VarintReader.reset left p (with_state state r))))
    → Ends n ts (fall_through state (varint_field next) r)
next_field-Ends n ts state next r b l g f stay go =
    fall_through-Ends n ts state (varint_field next) r b f (λ p.
      field-Ends n ts (λ vint vlen. next vint) (with_state state r) b p (omega arith) g stay
        (λ vint vlen left q. go vint left q))
