-- ===== src/Conn/Read/StartEnds.antt =====
-- The case of dwnx_conn_read that begins a record keeps what a read keeps.
use dwnx.Prelude.{
  ℕ, ◌≤◌, ◌<◌, ◌≡◌, refl, sym, subst, ◌⊎◌, arith, ◌++◌, Bool, true, false, true≢false, lt→ltb, not,
  ◌||◌, ◌==◌, ltb, length, drop, IsByte, All-append, All-drop, length-drop, none,
}
use dwnx.Prelude.{Result, ◌>>=◌, ◌>>◌, check, Holds-guard, Holds-check, Holds-ok, frame_encoding}
use dwnx.Vec.{max_varint}
use dwnx.VarintReader
use dwnx.VarintReader.{VarintReader}
use dwnx.VarintReader.Pieces.{held}
use dwnx.VarintReader.Took.{Took, failed, goes, whole, read-Took}
use dwnx.RecordReader.{State}
use dwnx.Conn.Read.{Reading, Flow, returns, with_state, varint_len_field}
use dwnx.Conn.Read.Start.{frame_type, must, sized, size_read, record_size}
use dwnx.Conn.Read.Invariant.{IsBase, IsEarly, Fits, Ends, Outcome}
use dwnx.Conn.Read.Steps.{drop-all, reset-IsHeld, fall_through-Ends, field-Ends, after}
use dwnx.Conn.Read.TypeEnds.{frame_type-Ends}

module _ (n ts : ℕ) where
  sized-Ends :
      (vint : ℕ) (r : Reading)
      → IsBase ts r
      → (r.seen ≡ true) ⊎ IsEarly r.conn
      → vint ≤ max_varint
      → length r.p < n
      → Ends n ts (sized ts vint r)
  unfolding sized
  sized-Ends vint r b e m l =
      Holds-guard (Outcome n ts) (not (ltb r.conn.local_params.max_record_size vint || vint == 0))
        frame_encoding _
        (λ g.
          let some_record = not_empty (ltb r.conn.local_params.max_record_size vint) vint g in
          fall_through-Ends n ts State.frame_type (varint_len_field (frame_type ts)) r' b'
            (some_record, e)
            (λ p.
              field-Ends n ts (frame_type ts) (with_state State.frame_type r') b' p (omega arith)
                some_record (λ vird left q k. (k, e))
                (λ v vlen left q small shorter c.
                  frame_type-Ends n ts v vlen
                    (after VarintReader.reset left q (with_state State.frame_type r')) c e
                    shorter)))
    where
      r' : Reading
      r' = record r { rcrd = record r.rcrd { record_left = vint } }

      b' : IsBase ts r'
      b' = (b.0, b.1, b.2, b.3, m)

      not_empty : (a : Bool) (n : ℕ) → not (a || n == 0) ≡ true → 0 < n
      not_empty a n g = ground arith

  pub record_size-Ends :
      (r : Reading)
      → IsBase ts r
      → r.rcrd.state ≡ State.record_size
      → (r.seen ≡ true) ⊎ IsEarly r.conn
      → 0 < length r.p
      → length r.p ≤ n
      → Ends n ts (record_size ts r)
  unfolding record_size size_read
  record_size-Ends r ((hc, hk), ls, (seen, eq, w, k), by, lf) st e h l =
      subst (λ vird. Ends n ts (must (VarintReader.read vird r.p false) >>= took)) (sym eq)
        (read_on _ (read-Took seen r.p false w h (All-append IsByte seen r.p k by)))
    where
      took : ℕ × VarintReader → Result Flow
      took t = check (ltb 0 t.0) >> size_read ts (record r { vird = t.1; p = drop t.0 r.p })

      read_on :
          (m : Result (ℕ × VarintReader)) → Took seen r.p false m → Ends n ts (must m >>= took)
      read_on _ (failed f) = absurd (true≢false (sym f))
      read_on _ (goes f w' z) =
          let m = length r.p in
          let r' = record r { vird = held (seen ++ r.p); p = drop m r.p } in
          Holds-check (Outcome n ts) (ltb 0 m) _ (lt→ltb 0 m h) (
            rw z (
              Holds-ok (Outcome n ts) (returns none r') (
                (
                  (hc, hk),
                  ls,
                  (seen ++ r.p, refl, w', All-append IsByte seen r.p k by),
                  All-drop IsByte m r.p by,
                  lf,
                ),
                subst (λ s. Fits s r') (sym st) e,
                drop-all m r.p (omega arith),
              )))
      read_on _ (whole v m vlen small some_read fits) =
          Holds-check (Outcome n ts) (ltb 0 m) _ (lt→ltb 0 m some_read) (
            sized-Ends v (record r { vird = VarintReader.reset; p = drop m r.p })
              ((hc, hk), ls, reset-IsHeld, All-drop IsByte m r.p by, lf) e small
              (omega (arith, length-drop m r.p)))
