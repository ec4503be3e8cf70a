-- ===== src/Conn/Expiry/Runs.antt =====
-- The idle timer on concrete input.
use dwnx.Prelude.{ℕ, ◌≡◌, refl, arith, err, idle_close}
use dwnx.TransportParams.{TransportParams}
use dwnx.Conn.Read.{Reading}
use dwnx.Conn.Read.Runs.{reading}
use dwnx.Conn.Expiry.{get_idle_expiry, handle_expiry, handle_expiry-is_over}

abbrev with_timeout : ℕ → TransportParams → TransportParams
with_timeout timeout params = record params { max_idle_timeout = timeout }

-- The last activity was at 100.
abbrev timed : ℕ → ℕ → Reading
timed own peer = record reading {
  conn = record reading.conn {
    local_params = with_timeout own reading.conn.local_params;
    remote_params = with_timeout peer reading.conn.remote_params;
  };
}

get_idle_expiry_smaller : get_idle_expiry (timed 150 400) ≡ 250
unfolding get_idle_expiry
get_idle_expiry_smaller = refl

get_idle_expiry_other : get_idle_expiry (timed 0 400) ≡ 500
unfolding get_idle_expiry
get_idle_expiry_other = refl

handle_expiry-is_over_example : handle_expiry 250 (timed 150 400) ≡ err idle_close
handle_expiry-is_over_example =
    handle_expiry-is_over 250 (timed 150 400) (omega arith) (omega arith) (omega arith)
      (omega arith)
