-- ===== src/TransportParams/Bounds.antt =====
-- What the decoder of transport parameters does on any bytes: its reads stay in the buffer, its
-- loop ends, and what it returns lies in range.
use dwnx.Prelude.{ℕ, zero, suc, ◌%◌, ◌≤◌, ◌<◌, ◌≡◌, ◌⊎◌, inl, inr, refl, arith}
use dwnx.Prelude.{List, [], ◌∷◌, Bool, true, false, if◌then◌else◌, length, All, IsByte, All-drop}
use dwnx.Prelude.{
  Result, ok, err, fault, ◌>>=◌, failure, malformed_transport_param, length-drop, Bool-cases,
}
use dwnx.Prelude.{leb, ◌==◌, ◌&&◌, le→leb, lt→leb}
use native.Mathlib.Decide.{dec_le}
use dwnx.Conv.Wire.{IsVarint}
use dwnx.Conv.Field.{field_cases, advance-drop}
use dwnx.TransportParams.{TransportParams, default_params, milliseconds, uint64_max, idle_timeout}
use dwnx.TransportParams.{decode_varint, decode_varint_param, read_param, skip_param, decode_value}
use dwnx.TransportParams.{decode_param, decode_loop, decode, any_value}
use dwnx.TransportParams.ParamId

-- The ranges that the decoder establishes.
pub record IsValid (s : TransportParams) : Type 0 where
  pub bidi_local : IsVarint s.initial_max_stream_data_bidi_local
  pub bidi_remote : IsVarint s.initial_max_stream_data_bidi_remote
  pub uni : IsVarint s.initial_max_stream_data_uni
  pub data_limit : IsVarint s.initial_max_data
  pub streams_bidi : s.initial_max_streams_bidi ≤ ParamId.max_streams
  pub streams_uni : s.initial_max_streams_uni ≤ ParamId.max_streams
  pub idle : s.max_idle_timeout ≤ uint64_max
  pub idle_unit : s.max_idle_timeout % milliseconds ≡ 0
  pub record_size : IsVarint s.max_record_size
  pub datagram : IsVarint s.max_datagram_frame_size

-- A varint is read, at `p`, up to `q`.
pub record Reads (p : List ℕ) (v : ℕ) (q : List ℕ) : Type 0 where
  pub bytes : All IsByte q
  pub range : IsVarint v
  pub shorter : length q < length p

ends_cases : (p : List ℕ) → (p ≡ []) ⊎ (0 < length p)
ends_cases [] = inl refl
ends_cases (b ∷ p) = inr (omega arith)

pub varint_cases :
    (p : List ℕ)
    → All IsByte p
    → ((v : ℕ) × (q : List ℕ) × (decode_varint p ≡ ok (v, q)) × Reads p v q)
      ⊎ (decode_varint p ≡ err failure)
unfolding decode_varint
varint_cases [] h = inr refl
varint_cases (b ∷ p) h = elim (field_cases (b ∷ p) h (omega arith)) [
  | inl (v, n, q, w) ↦ inl (
    v,
    q,
    ground (arith, w.len, w.got, w.size),
    record { bytes = w.bytes; range = w.range; shorter = omega (arith, w.size, w.pos) },
  )
  | inr (n, c) ↦ inr (ground (arith, c.len, c.short))
]

pub param_cases :
    (p : List ℕ)
    → All IsByte p
    → ((v : ℕ) × (q : List ℕ) × (decode_varint_param p ≡ ok (v, q)) × Reads p v q)
      ⊎ (decode_varint_param p ≡ err failure)
unfolding decode_varint_param
param_cases p h = elim (varint_cases p h) [
  | inr e ↦ inr (rw e)
  | inl (l, q, e, r) ↦ elim (ends_cases q) [
    | inl end ↦ inr (rw (e, end))
    | inr more ↦ elim (field_cases q r.bytes more) [
      | inr (n, c) ↦ inr (ground (arith, e, c.len, c.short, r.shorter))
      | inl (v, n, t, w) ↦ elim (Bool-cases (leb l (length q) && n == l)) [
        | inr bad ↦ inr (ground (arith, e, w.len))
        | inl good ↦ inl (
          v,
          t,
          ground (arith, e, w.len, w.got),
          record { bytes = w.bytes; range = w.range; shorter = omega (arith, w.size, r.shorter) },
        )
      ]
    ]
  ]
]

-- What a round leaves behind: valid parameters and fewer bytes, or the one error.
data Round (n : ℕ) : Result (TransportParams × List ℕ) → Type 0 where
  goes_on :
      {d : TransportParams} {q : List ℕ}
      → IsValid d
      → All IsByte q
      → length q < n
      → Round n (ok (d, q))
  stops : Round n (err malformed_transport_param)

if-Round :
    {n : ℕ} (b : Bool) {r t : Result (TransportParams × List ℕ)}
    → Round n r
    → Round n t
    → Round n (if b then r else t)
if-Round true h k = h
if-Round false h k = k

read_param-Round :
    (test : ℕ → Bool) (store : ℕ → TransportParams) (p : List ℕ)
    → ((v : ℕ) → IsVarint v → test v ≡ true → IsValid (store v))
    → All IsByte p
    → Round (length p) (read_param test store p)
unfolding read_param
read_param-Round test store p keep h = elim (param_cases p h) [
  | inr e ↦ rw e stops
  | inl (v, q, e, r) ↦ elim (Bool-cases (test v)) [
    | inl good ↦ rw (e, good) (goes_on (keep v r.range good) r.bytes r.shorter)
    | inr bad ↦ rw (e, bad) stops
  ]
]

skip_param-Round :
    (d : TransportParams) (p : List ℕ)
    → IsValid d
    → All IsByte p
    → Round (length p) (skip_param d p)
unfolding skip_param
skip_param-Round d p valid h = elim (varint_cases p h) [
  | inr e ↦ rw e stops
  | inl (v, q, e, r) ↦ elim (dec_le v (length q)) [
    | yes fits ↦
        rw (e, le→leb v (length q) fits, advance-drop v q fits)
          (goes_on valid (All-drop IsByte v q r.bytes) (omega (arith, length-drop v q, r.shorter)))
    | no cut ↦ rw (e, lt→leb (length q) v (omega arith)) stops
  ]
]

idle_timeout_range : (v : ℕ) → (idle_timeout v ≤ uint64_max) × (idle_timeout v % milliseconds ≡ 0)
unfolding idle_timeout
idle_timeout_range v = ground arith

decode_value-Round :
    (id : ℕ) (d : TransportParams) (p : List ℕ)
    → IsValid d
    → All IsByte p
    → Round (length p) (decode_value id d p)
unfolding decode_value
decode_value-Round id d p valid h =
    if-Round (id == ParamId.initial_max_stream_data_bidi_local)
      (read_param-Round any_value (λ v. record d { initial_max_stream_data_bidi_local = v }) p
        (λ v r t. ground arith) h)
      (if-Round (id == ParamId.initial_max_stream_data_bidi_remote)
        (read_param-Round any_value (λ v. record d { initial_max_stream_data_bidi_remote = v }) p
          (λ v r t. ground arith) h)
        (if-Round (id == ParamId.initial_max_stream_data_uni)
          (read_param-Round any_value (λ v. record d { initial_max_stream_data_uni = v }) p
            (λ v r t. ground arith) h)
          (if-Round (id == ParamId.initial_max_data)
            (read_param-Round any_value (λ v. record d { initial_max_data = v }) p
              (λ v r t. ground arith) h)
            (if-Round (id == ParamId.initial_max_streams_bidi)
              (read_param-Round (λ v. leb v ParamId.max_streams)
                (λ v. record d { initial_max_streams_bidi = v }) p (λ v r t. ground arith) h)
              (if-Round (id == ParamId.initial_max_streams_uni)
                (read_param-Round (λ v. leb v ParamId.max_streams)
                  (λ v. record d { initial_max_streams_uni = v }) p (λ v r t. ground arith) h)
                (if-Round (id == ParamId.max_idle_timeout)
                  (read_param-Round any_value (λ v. record d { max_idle_timeout = idle_timeout v })
                    p (λ v r t. ground (arith, idle_timeout_range v)) h)
                  (if-Round (id == ParamId.max_record_size)
                    (read_param-Round any_value (λ v. record d { max_record_size = v }) p
                      (λ v r t. ground arith) h)
                    (if-Round (id == ParamId.max_datagram_frame_size)
                      (read_param-Round any_value (λ v. record d { max_datagram_frame_size = v }) p
                        (λ v r t. ground arith) h)
                      (if-Round (ParamId.is_prohibited id) stops
                        (skip_param-Round d p valid h))))))))))

Round-weaken : {n m : ℕ} {r : Result (TransportParams × List ℕ)} → Round n r → n ≤ m → Round m r
Round-weaken (goes_on v b s) h = goes_on v b (omega arith)
Round-weaken stops h = stops

decode_param-Round :
    (d : TransportParams) (p : List ℕ)
    → IsValid d
    → All IsByte p
    → Round (length p) (decode_param d p)
unfolding decode_param
decode_param-Round d p valid h = elim (varint_cases p h) [
  | inr e ↦ rw e stops
  | inl (id, q, e, r) ↦
      rw e (Round-weaken (decode_value-Round id d q valid r.bytes) (omega (arith, r.shorter)))
]

-- The decoder's results: parameters in range, or DWNX_ERR_MALFORMED_TRANSPORT_PARAM.
pub data Decoded : Result TransportParams → Type 0 where
  valid_params : {s : TransportParams} → IsValid s → Decoded (ok s)
  malformed : Decoded (err malformed_transport_param)

if-Decoded :
    (b : Bool) {r t : Result TransportParams} → Decoded r → Decoded t → Decoded (if b then r else t)
if-Decoded true h k = h
if-Decoded false h k = k

after-Round :
    {n : ℕ} (f : TransportParams × List ℕ → Result TransportParams)
    {r : Result (TransportParams × List ℕ)}
    → ((d : TransportParams) (q : List ℕ)
        → length q < n
        → IsValid d
        → All IsByte q
        → Decoded (f (d, q)))
    → Round n r
    → Decoded (r >>= f)
after-Round f rest (goes_on {d} {q} v b s) = rest d q s v b
after-Round f rest stops = malformed

decode_loop-Decoded :
    (fuel : ℕ) (d : TransportParams) (p : List ℕ)
    → length p < fuel
    → IsValid d
    → All IsByte p
    → Decoded (decode_loop fuel d p)
unfolding decode_loop
decode_loop-Decoded zero d p f valid h = elim f [ ]
decode_loop-Decoded (suc fuel) d p f valid h =
    if-Decoded (leb 2 (length p))
      (after-Round _ (λ d' q s. decode_loop-Decoded fuel d' q (omega arith))
        (decode_param-Round d p valid h))
      (if-Decoded (length p == 0) (valid_params valid) malformed)

-- On any bytes the decoder ends without reading out of bounds, and returns parameters in the ranges
-- of `IsValid` or DWNX_ERR_MALFORMED_TRANSPORT_PARAM.
pub decode-Decoded : (p : List ℕ) → All IsByte p → Decoded (decode p)
unfolding decode
decode-Decoded p h =
    decode_loop-Decoded (suc (length p)) default_params p (omega arith) (ground arith) h

pub decode_cases :
    (p : List ℕ)
    → All IsByte p
    → ((s : TransportParams) × (decode p ≡ ok s) × IsValid s)
      ⊎ (decode p ≡ err malformed_transport_param)
decode_cases p h = go (decode p) refl (decode-Decoded p h)
  where
    go :
        (r : Result TransportParams)
        → decode p ≡ r
        → Decoded r
        → ((s : TransportParams) × (decode p ≡ ok s) × IsValid s)
          ⊎ (decode p ≡ err malformed_transport_param)
    go (ok s) e (valid_params v) = inl (s, e, v)
    go (err x) e malformed = inr e
    go fault e d = elim d [ ]
