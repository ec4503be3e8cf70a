-- ===== src/Frame/Decode/Control.antt =====
-- The decoders of the frames that carry numbers only are the grammar's parsers: on any bytes behind
-- the type they return what a parse returns, DWNX_ERR_FRAME_ENCODING where there is none, and no
-- read leaves the buffer.
use dwnx.Prelude.{ℕ, suc, ◌+◌, ◌-◌, ◌≡◌, refl, arith, List, ◌∷◌, some}
use dwnx.Prelude.{◌>>=◌, ◌>>◌, length, All, IsByte}
use dwnx.Conv.{advance, get_uvarint, get_varint}
use dwnx.Conv.Wire.{parse_varint}
use dwnx.Frame.{Frame}
use dwnx.Frame.Decode.{scan, need, finish, first_byte, decode_max_data, decode_data_blocked}
use dwnx.Frame.Decode.{decode_max_streams, decode_streams_blocked, decode_stop_sending}
use dwnx.Frame.Decode.{decode_max_stream_data, decode_stream_data_blocked, decode_reset_stream}
use dwnx.Frame.Decode.Fields.{report, advance_one, Needs, Needs-zero, Needs-varint}
use dwnx.Frame.Decode.Fields.{scan_step, need_step, finish_step}
use dwnx.Frame.Grammar
use dwnx.Frame.Grammar.{Parsed, parse_max_data, parse_data_blocked, parse_max_streams}
use dwnx.Frame.Grammar.{parse_streams_blocked, parse_stop_sending, parse_max_stream_data}
use dwnx.Frame.Grammar.{parse_stream_data_blocked, parse_reset_stream}

-- What follows one more field, and two.
pub Needs-one : (J : ℕ × List ℕ → Parsed) → Needs 1 (λ p. Grammar.◌>>=◌ (parse_varint p) J)
Needs-one J = Needs-varint 0 J (λ v. Needs-zero _)

pub Needs-two :
    (J : ℕ → ℕ × List ℕ → Parsed)
    → Needs 2 (λ p. Grammar.◌>>=◌ (parse_varint p) (λ t. Grammar.◌>>=◌ (parse_varint t.1) (J t.0)))
Needs-two J = Needs-varint 1 _ (λ v. Needs-one (J v))

module _ (b : ℕ) (p : List ℕ) (h : All IsByte p) where
  one_field :
      (fr : ℕ → Frame)
      → (need 2 (suc (length p))
          >> (advance 1 (b ∷ p) >>= λ p'. scan (suc (length p)) 2 p' >>= λ s.
              get_uvarint p' >>= λ r. finish (b ∷ p) s.1 r.1 (fr r.0)))
        ≡ report (suc (length p)) (Grammar.◌>>=◌ (parse_varint p) (λ r. some (fr r.0, r.1)))
  one_field fr = need_step 1 _ p _ _ refl (Needs-one _) λ fits. rw (advance_one b p) (
      scan_step _ 2 0 p _ _ h fits (omega arith) (λ v. Needs-zero _)
        λ v n q w in_v. rw w.got (finish_step (b ∷ p) _ q _ (omega (arith, w.size, w.pos))))

  two_fields :
      (fr : ℕ → ℕ → Frame)
      → (need 3 (suc (length p))
          >> (advance 1 (b ∷ p) >>= λ start. scan (suc (length p)) 3 start >>= λ s.
              advance s.0 start >>= λ p'. scan (suc (length p)) s.1 p' >>= λ t.
              get_uvarint start >>= λ x.
              get_uvarint x.1 >>= λ y. finish (b ∷ p) t.1 y.1 (fr x.0 y.0)))
        ≡ report (suc (length p)) (
            Grammar.◌>>=◌
              (parse_varint p)
              (λ x. Grammar.◌>>=◌ (parse_varint x.1) (λ y. some (fr x.0 y.0, y.1))))
  two_fields fr = need_step 2 _ p _ _ refl (Needs-two _) λ fits. rw (advance_one b p) (
      scan_step _ 3 1 p _ _ h (omega arith) (omega arith) (λ v. Needs-one _)
        λ v n q w in_v. rw w.skipped (
          scan_step _ (3 + n - 1) 0 q _ _ w.bytes (omega (arith, w.size))
            (omega (arith, w.size, w.pos)) (λ u. Needs-zero _)
            λ u k r x in_u.
              rw (w.got, x.got)
                (finish_step (b ∷ p) _ r _ (omega (arith, w.size, w.pos, x.size, x.pos)))))

  pub decode_max_data-parse : decode_max_data (b ∷ p) ≡ report (suc (length p)) (parse_max_data p)
  unfolding decode_max_data parse_max_data
  decode_max_data-parse = one_field _

  pub decode_data_blocked-parse :
      decode_data_blocked (b ∷ p) ≡ report (suc (length p)) (parse_data_blocked p)
  unfolding decode_data_blocked parse_data_blocked
  decode_data_blocked-parse = one_field _

  pub decode_max_streams-parse :
      decode_max_streams (b ∷ p) ≡ report (suc (length p)) (parse_max_streams b p)
  unfolding decode_max_streams parse_max_streams first_byte
  decode_max_streams-parse = one_field _

  pub decode_streams_blocked-parse :
      decode_streams_blocked (b ∷ p) ≡ report (suc (length p)) (parse_streams_blocked b p)
  unfolding decode_streams_blocked parse_streams_blocked first_byte
  decode_streams_blocked-parse = one_field _

  pub decode_stop_sending-parse :
      decode_stop_sending (b ∷ p) ≡ report (suc (length p)) (parse_stop_sending p)
  unfolding decode_stop_sending parse_stop_sending get_varint
  decode_stop_sending-parse = two_fields _

  pub decode_max_stream_data-parse :
      decode_max_stream_data (b ∷ p) ≡ report (suc (length p)) (parse_max_stream_data p)
  unfolding decode_max_stream_data parse_max_stream_data get_varint
  decode_max_stream_data-parse = two_fields _

  pub decode_stream_data_blocked-parse :
      decode_stream_data_blocked (b ∷ p) ≡ report (suc (length p)) (parse_stream_data_blocked p)
  unfolding decode_stream_data_blocked parse_stream_data_blocked get_varint
  decode_stream_data_blocked-parse = two_fields _

  pub decode_reset_stream-parse :
      decode_reset_stream (b ∷ p) ≡ report (suc (length p)) (parse_reset_stream p)
  unfolding decode_reset_stream parse_reset_stream get_varint
  decode_reset_stream-parse = need_step 3 _ p _ _ refl (Needs-varint 2 _ (λ v. Needs-two _)) λ fits.
      rw (advance_one b p) (
        scan_step _ 4 2 p _ _ h (omega arith) (omega arith) (λ v. Needs-two _)
          λ v n q w in_v. rw w.skipped (
            scan_step _ (4 + n - 1) 1 q _ _ w.bytes (omega (arith, w.size))
              (omega (arith, w.size, w.pos)) (λ u. Needs-one _)
              λ u k r x in_u. rw x.skipped (
                scan_step _ (4 + n - 1 + k - 1) 0 r _ _ x.bytes (omega (arith, w.size, x.size))
                  (omega (arith, w.size, w.pos, x.size, x.pos)) (λ t. Needs-zero _)
                  λ t j z y in_t.
                    rw (w.got, x.got, y.got)
                      (finish_step (b ∷ p) _ z _
                        (omega (arith, w.size, w.pos, x.size, x.pos, y.size, y.pos))))))
