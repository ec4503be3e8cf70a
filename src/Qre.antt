-- ===== src/Qre.antt =====
-- lib/dwnx_qre.c: frames are written into a record, behind the space for its length. The buffer is what
-- lies between its begin and `last`, and its size; the logger is left out.
pub mod Bounds
pub mod MaxDatalen
mod Runs
use dwnx.Prelude.{ℕ, ◌+◌, ◌-◌, min, Bool, true, false, not, ◌&&◌, List, ◌++◌, Option, none, some}
use dwnx.Prelude.{if◌then◌else◌, ltb, leb, ◌==◌, length, take, drop, Result, ok, ◌>>=◌, ◌>>◌, check}
use dwnx.Conv.{put_uvarintlen, put_uvarintw}
use dwnx.TransportParams.{default_max_record_size}
use dwnx.Frame.{Frame}
use dwnx.Frame.Encode

abbrev pub recordlen_size : ℕ
recordlen_size = 2

pub record Qre : Type 0 where
  pub started : Bool
  pub written : List ℕ
  pub size : ℕ

abbrev pub opened : List ℕ → Qre
opened memory = record {
  started = true;
  written = take recordlen_size memory;
  size = min (length memory) (recordlen_size + default_max_record_size);
}

abbrev pub append : Qre → List ℕ → Qre
append qre bytes = record qre { written = qre.written ++ bytes }

-- On a buffer that holds `memory`.
unfoldable pub start : Qre → List ℕ → Result Qre
start qre memory = do check (leb recordlen_size (length memory)); ok (opened memory)

-- dwnx_qre_left, and dwnx_buf_left of the buffer.
abbrev pub left : Qre → ℕ
left qre = qre.size - length qre.written

-- With `left` bytes left; -1 is `none`.
max_datalen : ℕ → ℕ → ℕ → Option ℕ
max_datalen left n len =
    if leb left n
    then none
    else if ltb 65 (left - n) && ltb 63 len
    then some (min (min len 16383) (left - n - 2))
    else some (min (min len 63) (left - n - 1))

unfoldable pub stream_max_datalen : Qre → ℕ → ℕ → ℕ → Result (Option ℕ)
unfolding max_datalen
stream_max_datalen qre stream_id offset len = do
  idlen ← put_uvarintlen stream_id
  offsetlen ← if not (offset == 0) then put_uvarintlen offset else ok 0
  check (leb (left qre) default_max_record_size)
  ok (max_datalen (left qre) (1 + idlen + offsetlen) len)

-- dwnx_frame_encode_buf on the buffer.
unfoldable pub encode_frame : Qre → Frame → Result Qre
encode_frame qre fr = do bytes ← Encode.encode (left qre) fr; ok (append qre bytes)

-- The length of the record, 0 for one without frames, with the length in front of it.
unfoldable pub final : Qre → Result (ℕ × Qre)
final qre =
    let len = length qre.written in
    if len == recordlen_size then ok (0, record qre { started = false }) else (do
      head ← put_uvarintw (len - recordlen_size) recordlen_size
      ok (
        len,
        record {
          started = false;
          written = head ++ drop recordlen_size qre.written;
          size = qre.size;
        },
      ))

unfoldable pub reset : Qre → Qre
reset qre = record qre { started = false }
