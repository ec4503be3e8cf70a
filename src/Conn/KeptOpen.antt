-- ===== src/Conn/KeptOpen.antt =====
-- A stream that the application opens leaves the state in order, and no assertion on the way fails.
use dwnx.Prelude.{
  ℕ, ◌+◌, ◌%◌, ◌^◌, ◌≤◌, ◌<◌, ◌≡◌, refl, sym, subst, ap, ◌∙◌, arith, ◌∷◌, Bool, true, false,
  true≢false, not, ltb, lt→ltb, ◌==◌, if◌then◌else◌, All-map, Option, none, some,
}
use dwnx.Prelude.{Result, ok, ◌>>=◌, ◌>>◌, check, stream_id_blocked, Holds, Holds-guard, Holds-ok}
use dwnx.Strm.{Strm}
use dwnx.Conv.{ord_stream_id}
use dwnx.Conn.{Conn, absent, find, local_stream, bidi_stream, max_streams_limit}
use dwnx.Conn.Credit.{get_streams_bidi_left, get_streams_uni_left, streams_left}
use dwnx.Conn.Streams.{new_strm, create_stream}
use dwnx.Conn.Shutdown.{open_bidi_stream, open_uni_stream}
use dwnx.Conn.Strms.{find-All}
use dwnx.Conn.Invariant.{IsConn, IsStrm, known}
use dwnx.Conn.Open.{created-Found}

-- The stream ID that is opened next belongs to this side, and is no stream's.
pub ours :
    (server : Bool) (id : ℕ)
    → id % 4 ≡ (if server then 1 else 0)
    → ((if server then id % 2 == 1 else id % 2 == 0) ≡ true) × (bidi_stream id ≡ true)
ours true id e = (ground arith, ground arith)
ours false id e = (ground arith, ground arith)

ours_uni :
    (server : Bool) (id : ℕ)
    → id % 4 ≡ (if server then 3 else 2)
    → ((if server then id % 2 == 1 else id % 2 == 0) ≡ true) × (bidi_stream id ≡ false)
ours_uni true id e = (ground arith, ground arith)
ours_uni false id e = (ground arith, ground arith)

-- The state with other stream IDs to open next.
abbrev with_next : Conn → ℕ → ℕ → Conn
with_next conn nb nu = record conn {
  tx = record conn.tx {
    bidi = record conn.tx.bidi { next_stream_id = nb };
    uni = record conn.tx.uni { next_stream_id = nu };
  };
}

known_more :
    (conn : Conn) (id nb nu : ℕ)
    → conn.tx.bidi.next_stream_id ≤ nb
    → conn.tx.uni.next_stream_id ≤ nu
    → known conn id ≡ true
    → known (with_next conn nb nu) id ≡ true
known_more conn id nb nu hb hu = either (local_stream conn id) (bidi_stream id) _
  where
    either :
        (l b x : Bool)
        → (if l
            then ltb id (if b then conn.tx.bidi.next_stream_id else conn.tx.uni.next_stream_id)
            else x)
          ≡ true
        → (if l then ltb id (if b then nb else nu) else x) ≡ true
    either false b x e = e
    either true true x e = ground arith
    either true false x e = ground arith

pub no_next :
    (conn : Conn) (id : ℕ)
    → IsConn conn
    → known conn id ≡ false
    → absent (find id conn.strms) ≡ true
no_next conn id h k = found (find id conn.strms) refl
  where
    found : (o : Option Strm) → find id conn.strms ≡ o → absent o ≡ true
    found none e = refl
    found (some strm) e =
        let p = find-All (IsStrm conn) id conn.strms strm h.2 e in
        absurd (true≢false (sym p.0.2 ∙ ap (known conn) p.1 ∙ k))

with_next-IsConn :
    (conn : Conn) (nb nu : ℕ)
    → IsConn conn
    → conn.tx.bidi.next_stream_id ≤ nb
    → conn.tx.uni.next_stream_id ≤ nu
    → (nb % 4 ≡ (if conn.server then 1 else 0)) × (nb ≤ 2 ^ 62 + 3)
    → (nu % 4 ≡ (if conn.server then 3 else 2)) × (nu ≤ 2 ^ 62 + 3)
    → IsConn (with_next conn nb nu)
with_next-IsConn conn nb nu h lb lu kb ku = (
  (h.0.0, h.0.1, ((h.0.2.0.0, kb.0, kb.1), (h.0.2.1.0, ku.0, ku.1)), h.0.3, h.0.4, h.0.5),
  h.1,
  All-map (IsStrm conn) (IsStrm (with_next conn nb nu))
      (λ s p. (p.0, p.1, known_more conn s.stream_id nb nu lb lu p.2, p.3)) conn.strms h.2,
  h.3,
)

-- A stream ID of which one more may be opened.
room_left :
    (id max : ℕ)
    → not (streams_left (ord_stream_id id) max == 0) ≡ true
    → max ≤ max_streams_limit
    → (id < 2 ^ 62) × (id + 4 ≤ 2 ^ 62 + 3)
unfolding streams_left
room_left id max e l = (ground arith, ground arith)

four_more : (id r : ℕ) → id % 4 ≡ r → (id + 4) % 4 ≡ r
four_more id r e = omega arith

pub known_at :
    (conn : Conn) (id : ℕ) (b : Bool)
    → local_stream conn id ≡ true
    → bidi_stream id ≡ b
    → known conn id ≡ ltb id (if b then conn.tx.bidi.next_stream_id else conn.tx.uni.next_stream_id)
known_at conn id b l e = rw (l, e) refl

pub not_below : (n : ℕ) → ltb n n ≡ false
not_below n = ground arith

-- A bidirectional stream that is opened gets the next stream ID of this side and leaves the state in
-- order; no assertion on the way fails.
pub open_bidi_stream-IsConn :
    (conn : Conn)
    → IsConn conn
    → Holds
        (λ (r : ℕ × Conn). (r.0 ≡ conn.tx.bidi.next_stream_id) × IsConn r.1)
        (open_bidi_stream conn)
unfolding open_bidi_stream get_streams_bidi_left create_stream new_strm
open_bidi_stream-IsConn conn h =
    Holds-guard Opens (not (get_streams_bidi_left conn == 0)) stream_id_blocked
      (create_stream next conn >>= opened)
      (λ g.
        let max = conn.tx.bidi.max_streams in
        let r = room_left next max g h.0.2.0.0 in
        let o = ours conn.server next h.0.2.0.1 in
        let a = no_next conn next h (known_at conn next true o.0 o.1 ∙ not_below next) in
        let conn' = with_next conn (next + 4) conn.tx.uni.next_stream_id in
        let h' =
          with_next-IsConn conn (next + 4) conn.tx.uni.next_stream_id h (omega arith) (omega arith)
            (four_more next _ h.0.2.0.1, r.1) (h.0.2.1.1, h.0.2.1.2) in
        let k' = known_at conn' next true o.0 o.1 ∙ lt→ltb next (next + 4) (omega arith) in
        let f = created-Found next conn.glitch_rlim.ts conn' h' (omega arith) r.0 k' a in
        let new : Strm × Conn =
          (new_strm conn next, record conn { strms = new_strm conn next ∷ conn.strms }) in
        subst (λ b. Holds Opens ((check b >> ok new) >>= opened)) (sym a)
          (Holds-ok Opens (opened_pair new) (refl, f.0)))
  where
    next : ℕ
    next = conn.tx.bidi.next_stream_id

    Opens : ℕ × Conn → Type 0
    Opens r = (r.0 ≡ next) × IsConn r.1

    opened_pair : Strm × Conn → ℕ × Conn
    opened_pair r = (
      r.1.tx.bidi.next_stream_id,
      record r.1 {
        tx = record r.1.tx {
          bidi = record r.1.tx.bidi { next_stream_id = r.1.tx.bidi.next_stream_id + 4 };
        };
      },
    )

    opened : Strm × Conn → Result (ℕ × Conn)
    opened r = ok (opened_pair r)

-- A unidirectional stream that is opened gets the next stream ID of this side and leaves the state in
-- order; no assertion on the way fails.
pub open_uni_stream-IsConn :
    (conn : Conn)
    → IsConn conn
    → Holds
        (λ (r : ℕ × Conn). (r.0 ≡ conn.tx.uni.next_stream_id) × IsConn r.1)
        (open_uni_stream conn)
unfolding open_uni_stream get_streams_uni_left create_stream new_strm
open_uni_stream-IsConn conn h =
    Holds-guard Opens (not (get_streams_uni_left conn == 0)) stream_id_blocked
      (create_stream next conn >>= opened)
      (λ g.
        let max = conn.tx.uni.max_streams in
        let r = room_left next max g h.0.2.1.0 in
        let o = ours_uni conn.server next h.0.2.1.1 in
        let a = no_next conn next h (known_at conn next false o.0 o.1 ∙ not_below next) in
        let conn' = with_next conn conn.tx.bidi.next_stream_id (next + 4) in
        let h' =
          with_next-IsConn conn conn.tx.bidi.next_stream_id (next + 4) h (omega arith) (omega arith)
            (h.0.2.0.1, h.0.2.0.2) (four_more next _ h.0.2.1.1, r.1) in
        let k' = known_at conn' next false o.0 o.1 ∙ lt→ltb next (next + 4) (omega arith) in
        let f = created-Found next conn.glitch_rlim.ts conn' h' (omega arith) r.0 k' a in
        let new : Strm × Conn =
          (new_strm conn next, record conn { strms = new_strm conn next ∷ conn.strms }) in
        subst (λ b. Holds Opens ((check b >> ok new) >>= opened)) (sym a)
          (Holds-ok Opens (opened_pair new) (refl, f.0)))
  where
    next : ℕ
    next = conn.tx.uni.next_stream_id

    Opens : ℕ × Conn → Type 0
    Opens r = (r.0 ≡ next) × IsConn r.1

    opened_pair : Strm × Conn → ℕ × Conn
    opened_pair r = (
      r.1.tx.uni.next_stream_id,
      record r.1 {
        tx = record r.1.tx {
          uni = record r.1.tx.uni { next_stream_id = r.1.tx.uni.next_stream_id + 4 };
        };
      },
    )

    opened : Strm × Conn → Result (ℕ × Conn)
    opened r = ok (opened_pair r)
