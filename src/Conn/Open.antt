-- ===== src/Conn/Open.antt =====
-- A stream that is created leaves the state in order, and no assertion on the way fails.
use dwnx.Prelude.{
  ℕ, ◌-◌, ◌^◌, ◌≤◌, ◌<◌, ◌≡◌, refl, sym, subst, ap, ◌∙◌, arith, ◌∷◌, Bool, true, false, ◌==◌,
  ==_iff, if◌then◌else◌, Option, none, some,
}
use dwnx.Prelude.{Holds, Holds-check}
use dwnx.Strm.{Strm, init, no_flags, shutdown}
use dwnx.Vec.{max_varint}
use dwnx.Conn.{Conn, absent, find, local_stream, bidi_stream}
use dwnx.Conn.Streams.{max_rx_offset, max_tx_offset, new_strm, create_stream}
use dwnx.Conn.Receive.{}
use dwnx.Conn.Invariant.{IsCredit, IsConn, IsStrm, IsIn, IsLimits, known, seats, entries}

max_rx_offset-small :
    (conn : Conn) (id : ℕ) → IsLimits conn.local_params → max_rx_offset conn id ≤ 2 ^ 62 - 1
max_rx_offset-small conn id l = either (bidi_stream id) (local_stream conn id)
  where
    either :
        (b c : Bool)
        → (if b
            then (if c
                then conn.local_params.initial_max_stream_data_bidi_local
                else conn.local_params.initial_max_stream_data_bidi_remote)
            else if c
            then 0
            else conn.local_params.initial_max_stream_data_uni)
          ≤ 2 ^ 62 - 1
    either true true = l.0
    either true false = l.1
    either false true = omega arith
    either false false = l.2

new_strm-lem :
    (conn : Conn) (id : ℕ)
    → IsLimits conn.local_params
    → ((new_strm conn id).stream_id ≡ id)
      × ((new_strm conn id).queued ≡ false)
      × IsCredit (new_strm conn id)
unfolding new_strm
new_strm-lem conn id l = either (bidi_stream id) (local_stream conn id)
  where
    strm : Strm
    strm = init id no_flags (max_rx_offset conn id) (max_tx_offset conn id)

    fits : max_rx_offset conn id ≤ max_varint
    fits = max_rx_offset-small conn id l

    New : Strm → Type 0
    New s = (s.stream_id ≡ id) × (s.queued ≡ false) × IsCredit s

    either :
        (b c : Bool)
        → New (if b then strm else if c then shutdown true false strm else shutdown false true strm)
    either true c = (refl, refl, (omega arith, omega arith, fits))
    either false true = (refl, refl, (omega arith, omega arith, fits))
    either false false = (refl, refl, (omega arith, omega arith, fits))

-- What is known of a stream that a call comes to, at the time `ts`.
abbrev pub Found : ℕ → ℕ → Strm → Conn → Type 0
Found id ts strm conn =
    IsConn conn × IsIn conn strm × (strm.stream_id ≡ id) × (conn.glitch_rlim.ts ≤ ts)

pub created-Found :
    (id ts : ℕ) (conn : Conn)
    → IsConn conn
    → conn.glitch_rlim.ts ≤ ts
    → id < 2 ^ 62
    → known conn id ≡ true
    → absent (find id conn.strms) ≡ true
    → Found id ts (new_strm conn id) (record conn { strms = new_strm conn id ∷ conn.strms })
created-Found id ts conn h t l k a =
    let n = new_strm-lem conn id h.0.4 in
    (
      (
        h.0,
        (subst (λ i. absent (find i conn.strms) ≡ true) (sym n.0) a, h.1),
        (new_IsStrm, h.2),
        λ i. room i (new.stream_id == i) new (find i conn.strms) (h.3 i),
      ),
      (new_IsStrm, here new.stream_id new (find new.stream_id conn.strms)),
      n.0,
      t,
    )
  where
    new : Strm
    new = new_strm conn id

    no_entry : entries id conn.tx.strmq ≡ 0
    no_entry = omega (arith, subst (λ b. entries id conn.tx.strmq ≤ seats b) a (h.3 id))

    new_IsStrm : IsStrm conn new
    new_IsStrm =
        let n = new_strm-lem conn id h.0.4 in
        (
          n.2,
          subst (λ i. i < 2 ^ 62) (sym n.0) l,
          subst (λ i. known conn i ≡ true) (sym n.0) k,
          ap (λ i. entries i conn.tx.strmq) n.0 ∙ no_entry ∙ sym (ap (λ b. if b then 1 else 0) n.1),
        )

    room :
        (i : ℕ) (b : Bool) (s : Strm) (o : Option Strm)
        → entries i conn.tx.strmq ≤ seats (absent o)
        → entries i conn.tx.strmq ≤ seats (absent (if b then some s else o))
    room i true s none r = omega (arith, r)
    room i true s (some s') r = r
    room i false s o r = r

    here : (i : ℕ) (s : Strm) (o : Option Strm) → absent (if i == i then some s else o) ≡ false
    here i s o = rw ((==_iff i i).1 refl) refl

pub create-Found :
    (id ts : ℕ) (conn : Conn)
    → IsConn conn
    → conn.glitch_rlim.ts ≤ ts
    → id < 2 ^ 62
    → known conn id ≡ true
    → absent (find id conn.strms) ≡ true
    → Holds (λ (r : Strm × Conn). Found id ts r.0 r.1) (create_stream id conn)
unfolding create_stream Holds
create-Found id ts conn h t l k a =
    Holds-check (λ (r : Strm × Conn). Found id ts r.0 r.1) (absent (find id conn.strms)) _ a
      (created-Found id ts conn h t l k a)
