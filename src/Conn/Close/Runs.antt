-- ===== src/Conn/Close/Runs.antt =====
-- Closing a connection on concrete input.
use dwnx.Prelude.{
  ℕ, ◌≡◌, ◌<◌, ◌≤◌, ◌+◌, ◌⊎◌, inr, refl, arith, List, [], ◌∷◌, ok, err, nobuf, length, none,
  are_bytes-IsByte, Error,
}
use dwnx.Frame
use dwnx.Frame.FrameType
use dwnx.Frame.{Frame}
use dwnx.Frame.Wire.{wire}
use dwnx.Qre.{recordlen_size}
use dwnx.RecordReader.{State}
use dwnx.Conn.Read.{with_state}
use dwnx.Conn.Read.Runs.{reading}
use dwnx.Conn.Close.{Ccerr, set_liberr, set_application_error, close_frame, write_connection_close}
use dwnx.Conn.Close.Record.{room, IsRecord, write_connection_close-IsRecord}

abbrev dest : List ℕ
dest = 9 ∷ 9 ∷ 9 ∷ 9 ∷ 9 ∷ 9 ∷ 9 ∷ 9 ∷ 9 ∷ []

-- The application gave up with the code 5 and the reason "hi".
abbrev gave_up : Ccerr
gave_up = set_application_error 5 (104 ∷ 105 ∷ [])

abbrev gave_up_frame : Frame.ConnectionClose
gave_up_frame = record {
  type = FrameType.connection_close_app;
  error_code = 5;
  frame_type = 0;
  reason = 104 ∷ 105 ∷ [];
}

idle_has_no_frame :
    close_frame (set_liberr Error.idle_close []) (set_liberr Error.idle_close []).type ≡ none
unfolding set_liberr
idle_has_no_frame = refl

closing_writes_nothing :
    write_connection_close dest gave_up 300 (with_state State.closing reading)
    ≡ ok (0, ([], with_state State.closing (record reading { last_ts = 300 })))
unfolding write_connection_close
closing_writes_nothing = refl

write_connection_close-IsRecord_example :
    ((length (wire (Frame.connection_close gave_up_frame)) ≤ room dest)
      × (written : List ℕ) × (write_connection_close dest gave_up 300 reading
          ≡ ok (
            recordlen_size + length (wire (Frame.connection_close gave_up_frame)),
            (written, with_state State.closing (record reading { last_ts = 300 })),
          ))
      × IsRecord (wire (Frame.connection_close gave_up_frame)) written)
    ⊎ ((room dest < length (wire (Frame.connection_close gave_up_frame)))
        × (write_connection_close dest gave_up 300 reading ≡ err nobuf))
write_connection_close-IsRecord_example =
    write_connection_close-IsRecord dest gave_up 300 reading gave_up_frame (omega arith) refl refl
      (inr refl, omega arith, omega arith, omega arith, are_bytes-IsByte (104 ∷ 105 ∷ []) refl)
      (omega arith)
