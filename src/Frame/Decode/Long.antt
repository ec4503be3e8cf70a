-- ===== src/Frame/Decode/Long.antt =====
-- The decoders of the frames whose type takes eight bytes are the grammar's parsers.
use dwnx.Prelude.{
  ℕ, ◌+◌, ◌-◌, ◌≤◌, ◌<◌, ◌≡◌, inl, inr, refl, arith, List, none, some, le→leb, lt→leb,
}
use dwnx.Prelude.{ok, err, ◌>>◌, length, take, drop, All, IsByte, length-drop, All-take, ◌==◌, ◌||◌}
use native.Mathlib.Decide.{dec_le}
use dwnx.Conv.Wire.{parse_varint}
use dwnx.Conv.Field.{field_cases, advance-drop}
use dwnx.TransportParams
use dwnx.TransportParams.{TransportParams}
use dwnx.Prelude.{Error}
use dwnx.TransportParams.Bounds.{decode_cases}
use dwnx.Frame.FrameType
use dwnx.Frame.Decode.{
  Decoded, need, decode_qx_ping, decode_qx_transport_parameters, decode_long, decode_long_type,
}
use dwnx.Frame.Decode.Fields.{
  report, Needs, Needs-zero, need_ok, need_err, scan_step, finish_step, if_report,
}
use dwnx.Frame.Decode.Control.{Needs-one, Needs-two}
use dwnx.Frame.Grammar
use dwnx.Frame.Grammar.{
  Parsed, parse_params, parse_qx_ping, parse_qx_transport_parameters, parse_long,
}

need_whole :
    (k : ℕ) (p : List ℕ) (parse : List ℕ → Parsed) (r : Decoded)
    → Needs k parse
    → (k ≤ length p → r ≡ report (length p) (parse p))
    → (need k (length p) >> r) ≡ report (length p) (parse p)
need_whole k p parse r needs next = elim (dec_le k (length p)) [
  | yes fits ↦ rw (need_ok k (length p) fits) (next fits)
  | no over ↦
      rw (need_err k (length p) (omega arith), needs.fails p (omega arith)) (unfold report in refl)
]

parse_params-ok :
    (p : List ℕ) {s : TransportParams} → TransportParams.decode p ≡ ok s → parse_params p ≡ some s
unfolding parse_params
parse_params-ok p e = rw (e, parse_params)

parse_params-err :
    (p : List ℕ) {x : Error} → TransportParams.decode p ≡ err x → parse_params p ≡ none
unfolding parse_params
parse_params-err p e = rw (e, parse_params)

module _ (p : List ℕ) (h : All IsByte p) where
  decode_qx_ping-parse : decode_qx_ping p ≡ report (length p) (parse_qx_ping p)
  unfolding decode_qx_ping parse_qx_ping
  decode_qx_ping-parse = need_whole 2 p _ _ (Needs-two _) λ fits.
      scan_step _ 2 1 p _ _ h (omega arith) (omega arith) (λ v. Needs-one _)
        λ v n q w in_v. rw w.skipped (
          scan_step _ (2 + n - 1) 0 q _ _ w.bytes (omega (arith, w.size))
            (omega (arith, w.size, w.pos)) (λ u. Needs-zero _)
            λ u k r x in_u.
              rw (w.got, x.got) (finish_step p _ r _ (omega (arith, w.size, w.pos, x.size, x.pos))))

  decode_qx_transport_parameters-parse :
      decode_qx_transport_parameters p ≡ report (length p) (parse_qx_transport_parameters p)
  unfolding decode_qx_transport_parameters parse_qx_transport_parameters
  decode_qx_transport_parameters-parse = need_whole 2 p _ _ (Needs-two _) λ fits.
      scan_step _ 2 1 p _ _ h (omega arith) (omega arith) (λ v. Needs-one _)
        λ v n q w in_v. rw w.skipped (
          scan_step _ (2 + n - 1) 0 q _ _ w.bytes (omega (arith, w.size))
            (omega (arith, w.size, w.pos)) (λ u. Needs-zero _)
            λ u k r x in_u.
              rw (x.got, w.got, x.skipped)
                (elim (dec_le u (length r)) [
                  | no over ↦
                      rw
                        (
                          lt→leb (length p - (2 + n - 1 + k - 1)) u
                              (omega (arith, w.size, w.pos, x.size, x.pos)),
                          lt→leb (length r) u (omega arith),
                        )
                        (unfold report in refl)
                  | yes fits_u ↦
                      rw
                        (
                          le→leb u (length p - (2 + n - 1 + k - 1))
                              (omega (arith, w.size, w.pos, x.size, x.pos)),
                          le→leb u (length r) fits_u,
                          advance-drop u r fits_u,
                        )
                        (elim (decode_cases (take u r) (All-take IsByte u r x.bytes)) [
                          | inl (s, e, valid) ↦
                              rw (e, parse_params-ok (take u r) e)
                                (finish_step p _ (drop u r) _
                                  (omega (arith, w.size, w.pos, x.size, x.pos, length-drop u r)))
                          | inr e ↦ rw (e, parse_params-err (take u r) e) (unfold report in refl)
                        ])
                ]))

  decode_long_type-parse : (t : ℕ) → decode_long_type t p ≡ report (length p) (parse_long t p)
  unfolding decode_long_type parse_long
  decode_long_type-parse t =
      if_report _ (t == FrameType.qx_transport_parameters) _ _ decode_qx_transport_parameters-parse
        (if_report _ (t == FrameType.qx_ping_request || t == FrameType.qx_ping_response) _ _
          decode_qx_ping-parse (unfold report in refl))

  pub decode_long-parse :
      0 < length p
      → decode_long p ≡ report (length p) (Grammar.◌>>=◌ (parse_varint p) (λ t. parse_long t.0 p))
  unfolding decode_long
  decode_long-parse pos = elim (field_cases p h pos) [
    | inr (n, c) ↦ rw (c.len, lt→leb (length p) n c.short, c.parsed) (unfold report in refl)
    | inl (v, n, q, w) ↦
        rw (w.len, le→leb n (length p) (omega (arith, w.size)), w.got, w.parsed)
          (decode_long_type-parse v)
  ]
