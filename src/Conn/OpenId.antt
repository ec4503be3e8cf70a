-- ===== src/Conn/OpenId.antt =====
-- A stream ID of a frame leads to a stream that is known, opens one or has been closed; no assertion on the
-- way fails.
use dwnx.Prelude.{
  ℕ, ◌/◌, ◌^◌, ◌≤◌, ◌<◌, ◌≡◌, refl, sym, subst, ap, ◌∙◌, arith, List, ◌∷◌, Bool, true, false, ◌||◌,
  ltb, ==_iff, if◌then◌else◌, All-map, Option, none, some,
}
use dwnx.Prelude.{
  Result, ok, err, callback_failure, stream_in_use, ◌>>=◌, Holds, Holds-bind, Holds-if,
}
use dwnx.Strm.{Strm}
use dwnx.Gaptr.{Range, push, id_from_stream_id}
use dwnx.Gaptr.Gaps.{IsGaps}
use dwnx.Gaptr.Idtr.{opened, idtr_open-push, opened-push, push_id-IsGaps}
use dwnx.Conn.{Conn, Event, absent, find, local_stream, bidi_stream}
use dwnx.Conn.Receive.{
  idtr, with_idtr, opens, open_result, begin_opened, found_strm, open_id, begin_stream, stream_for,
}
use dwnx.Conn.Strms.{find-All}
use dwnx.Conn.Invariant.{IsConn, IsStrm, known}
use dwnx.Conn.Open.{Found, create-Found}

-- A stream ID that is known stays so when one more is opened.
still_known :
    (conn : Conn) (id : ℕ) (g u : List Range)
    → (opened id conn.bidi_idtr ≡ true → opened id g ≡ true)
    → (opened id conn.uni_idtr ≡ true → opened id u ≡ true)
    → known conn id ≡ true
    → known (record conn { bidi_idtr = g; uni_idtr = u }) id ≡ true
still_known conn id g u hb hu = either (local_stream conn id) (bidi_stream id)
  where
    either :
        (l b : Bool)
        → (if l
            then ltb id (if b then conn.tx.bidi.next_stream_id else conn.tx.uni.next_stream_id)
            else opened id (if b then conn.bidi_idtr else conn.uni_idtr))
          ≡ true
        → (if l
            then ltb id (if b then conn.tx.bidi.next_stream_id else conn.tx.uni.next_stream_id)
            else opened id (if b then g else u))
          ≡ true
    either true b k = k
    either false true k = hb k
    either false false k = hu k

or_left : (a b : Bool) → a ≡ true → (a || b) ≡ true
or_left a b e = ground arith

or_right : (a b : Bool) → b ≡ true → (a || b) ≡ true
or_right a b e = ground arith

opens_more :
    (gaps : List Range) (id other : ℕ)
    → IsGaps gaps
    → id < 2 ^ 62
    → other < 2 ^ 62
    → opened other gaps ≡ true
    → opened other (push gaps (id_from_stream_id id) 1) ≡ true
opens_more gaps id other g l k e = opened-push gaps id other g l k ∙ or_left _ _ e

opens_it :
    (gaps : List Range) (id : ℕ)
    → IsGaps gaps
    → id < 2 ^ 62
    → opened id (push gaps (id_from_stream_id id) 1) ≡ true
opens_it gaps id g l =
    opened-push gaps id id g l l ∙ or_right _ _ ((==_iff (id / 4) (id / 4)).1 refl)

-- What is known once a stream ID of the peer's has been opened.
abbrev Opened : ℕ → ℕ → Conn → Type 0
Opened id ts conn =
    IsConn conn
    × (conn.glitch_rlim.ts ≤ ts)
    × (known conn id ≡ true)
    × (absent (find id conn.strms) ≡ true)

with_gaps :
    (conn : Conn) (g u : List Range)
    → IsConn conn
    → IsGaps g
    → IsGaps u
    → ((id : ℕ) → id < 2 ^ 62 → opened id conn.bidi_idtr ≡ true → opened id g ≡ true)
    → ((id : ℕ) → id < 2 ^ 62 → opened id conn.uni_idtr ≡ true → opened id u ≡ true)
    → IsConn (record conn { bidi_idtr = g; uni_idtr = u })
with_gaps conn g u h hg hu mg mu =
    let conn' = record conn { bidi_idtr = g; uni_idtr = u } in
    (
      (h.0.0, h.0.1, h.0.2, (hg, hu), h.0.4, h.0.5),
      h.1,
      All-map (IsStrm conn) (IsStrm conn')
          (λ s p. (
            p.0,
            p.1,
            still_known conn s.stream_id g u (mg s.stream_id p.1) (mu s.stream_id p.1) p.2,
            p.3,
          ))
          conn.strms h.2,
      h.3,
    )

with_idtr-Opened :
    (id ts : ℕ) (conn : Conn)
    → IsConn conn
    → conn.glitch_rlim.ts ≤ ts
    → id < 2 ^ 62
    → local_stream conn id ≡ false
    → absent (find id conn.strms) ≡ true
    → Opened id ts (with_idtr id (push (idtr conn id) (id_from_stream_id id) 1) conn)
with_idtr-Opened id ts conn h t l r a = either (bidi_stream id) refl
  where
    q : ℕ
    q = id_from_stream_id id

    either :
        (b : Bool)
        → bidi_stream id ≡ b
        → Opened id ts (
            if b
            then record conn { bidi_idtr = push (if b then conn.bidi_idtr else conn.uni_idtr) q 1 }
            else record conn { uni_idtr = push (if b then conn.bidi_idtr else conn.uni_idtr) q 1 })
    either true e = (
      with_gaps conn (push conn.bidi_idtr q 1) conn.uni_idtr h
          (push_id-IsGaps conn.bidi_idtr id h.0.3.0 l) h.0.3.1
          (λ i k o. opens_more conn.bidi_idtr id i h.0.3.0 l k o) (λ i k o. o),
      t,
      rw (r, e) (opens_it conn.bidi_idtr id h.0.3.0 l),
      a,
    )
    either false e = (
      with_gaps conn conn.bidi_idtr (push conn.uni_idtr q 1) h h.0.3.0
          (push_id-IsGaps conn.uni_idtr id h.0.3.1 l) (λ i k o. o)
          (λ i k o. opens_more conn.uni_idtr id i h.0.3.1 l k o),
      t,
      rw (r, e) (opens_it conn.uni_idtr id h.0.3.1 l),
      a,
    )

pub idtr-IsGaps : (conn : Conn) (id : ℕ) → IsConn conn → IsGaps (idtr conn id)
idtr-IsGaps conn id h = either (bidi_stream id)
  where
    either : (b : Bool) → IsGaps (if b then conn.bidi_idtr else conn.uni_idtr)
    either true = h.0.3.0
    either false = h.0.3.1

-- The answer to a stream ID that is opened: it has been closed, or it is new.
abbrev Answer : ℕ → ℕ → Bool × Conn → Type 0
Answer id ts (false, conn) = IsConn conn × (conn.glitch_rlim.ts ≤ ts)
Answer id ts (true, conn) = Opened id ts conn

open_id-Answer :
    (id ts : ℕ) (conn : Conn)
    → IsConn conn
    → conn.glitch_rlim.ts ≤ ts
    → id < 2 ^ 62
    → local_stream conn id ≡ false
    → absent (find id conn.strms) ≡ true
    → Holds (Answer id ts) (open_id id conn)
unfolding open_id Holds
open_id-Answer id ts conn h t l r a =
    subst (λ m. Holds (Answer id ts) (opens m >>= (λ found. ok (open_result id conn found))))
      (sym (idtr_open-push (idtr conn id) id (idtr-IsGaps conn id h) l))
      (either (opened id (idtr conn id)))
  where
    gaps : List Range
    gaps = push (idtr conn id) (id_from_stream_id id) 1

    either :
        (b : Bool)
        → Holds (Answer id ts) (
            opens (if b then err stream_in_use else ok gaps)
            >>= (λ found. ok (open_result id conn found)))
    either true = (h, t)
    either false = with_idtr-Opened id ts conn h t l r a

-- What a frame's stream ID leads to.
abbrev pub Reached : ℕ → ℕ → Option Strm × Conn → Type 0
Reached id ts (none, conn) = IsConn conn × (conn.glitch_rlim.ts ≤ ts)
Reached id ts (some strm, conn) = Found id ts strm conn

begin-Found :
    (id ts : ℕ) (conn : Conn)
    → Opened id ts conn
    → id < 2 ^ 62
    → Holds (λ (r : Strm × Conn). Found id ts r.0 r.1) (begin_stream id conn)
unfolding Holds
begin-Found id ts conn o l =
    Holds-bind (λ (r : Strm × Conn). Found id ts r.0 r.1) (λ (r : Strm × Conn). Found id ts r.0 r.1)
      _ _ (create-Found id ts conn o.0 o.1 l o.2 o.3)
      (λ r f. called r.0 r.1 (r.1.accepts (Event.stream_open id)) f)
  where
    called :
        (strm : Strm) (conn : Conn) (b : Bool)
        → Found id ts strm conn
        → Holds
            (λ (r : Strm × Conn). Found id ts r.0 r.1)
            ((if b
                then ok (record conn { calls = Event.stream_open id ∷ conn.calls })
                else err callback_failure)
              >>= (λ conn. ok (strm, conn)))
    called strm conn true f = f
    called strm conn false f = tt

pub stream_for-Reached :
    (id ts : ℕ) (allowed : Result (Unit {0})) (conn : Conn)
    → IsConn conn
    → conn.glitch_rlim.ts ≤ ts
    → id < 2 ^ 62
    → Holds (λ (u : Unit {0}). Unit {0}) allowed
    → Holds (Reached id ts) (stream_for id allowed conn)
unfolding stream_for Holds
stream_for-Reached id ts allowed conn h t l ok_allowed = found (find id conn.strms) refl
  where
    begun : (r : Bool × Conn) → Answer id ts r → Holds (Reached id ts) (begin_opened id allowed r)
    begun (false, c) a = a
    begun (true, c) a =
        Holds-bind (λ (u : Unit {0}). Unit {0}) (Reached id ts) allowed _ ok_allowed
          (λ u v.
            Holds-bind (λ (r : Strm × Conn). Found id ts r.0 r.1) (Reached id ts) _ _
              (begin-Found id ts c a l) (λ r f. f))

    found :
        (o : Option Strm)
        → find id conn.strms ≡ o
        → Holds (Reached id ts) (found_strm id allowed conn o)
    found (some strm) e =
        let p = find-All (IsStrm conn) id conn.strms strm h.2 e in
        (h, (p.0, subst (λ i. absent (find i conn.strms) ≡ false) (sym p.1) (ap absent e)), p.1, t)
    found none e =
        Holds-if (Reached id ts) (local_stream conn id) _ _ (λ loc. (h, t))
          (λ rem.
            Holds-bind (Answer id ts) (Reached id ts) _ _
              (open_id-Answer id ts conn h t l rem (ap absent e)) begun)
