-- ===== src/Conn/Expiry.antt =====
-- The idle timer of lib/dwnx_conn.c: when the connection is to be closed for idleness, and the call that
-- the application makes then.
mod Runs
use dwnx.Prelude.{
  ℕ, ◌≡◌, ◌<◌, ◌≤◌, ◌+◌, ◌-◌, arith, Bool, true, false, not, ◌==◌, ◌&&◌, ◌||◌, if◌then◌else◌, ltb,
  leb, le→leb, Result, ok, err, ◌>>◌, check, idle_close,
}
use dwnx.TransportParams.{uint64_max}
use dwnx.Conn.{Conn}
use dwnx.Conn.Read.{Reading}

-- The `timeout` of dwnx_conn_get_idle_expiry, of the local and the remote max_idle_timeout.
unfoldable pub shorter_timeout : ℕ → ℕ → ℕ
shorter_timeout own peer = if (peer == 0) || (not (own == 0) && ltb own peer) then own else peer

-- The end of a timeout that begins at `idle_ts`; UINT64_MAX if it has none or does not fit.
unfoldable pub deadline : ℕ → ℕ → ℕ
deadline idle_ts timeout =
    if (timeout == 0) || ltb (uint64_max - timeout) idle_ts then uint64_max else idle_ts + timeout

-- dwnx_conn_get_idle_expiry, which dwnx_conn_get_expiry calls.
unfoldable pub get_idle_expiry : Reading → ℕ
unfolding shorter_timeout deadline
get_idle_expiry r =
    deadline r.idle_ts
      (shorter_timeout r.conn.local_params.max_idle_timeout r.conn.remote_params.max_idle_timeout)

-- dwnx_conn_handle_expiry; with an error the state, of which the clock alone has moved, is left out.
unfoldable pub handle_expiry : ℕ → Reading → Result Reading
unfolding get_idle_expiry
handle_expiry ts r =
    check (leb r.last_ts ts)
    >> (let r = record r { last_ts = ts } in
        if leb (get_idle_expiry r) ts then err idle_close else ok r)

-- Whether a timeout that begins at `idle_ts` is over at `ts`; 0 stands for none.
abbrev is_over : ℕ → ℕ → ℕ → Bool
is_over idle_ts ts timeout = not (timeout == 0) && leb (idle_ts + timeout) ts

deadline-is_over :
    (idle_ts ts timeout : ℕ)
    → timeout ≤ uint64_max
    → ts < uint64_max
    → leb (deadline idle_ts timeout) ts ≡ is_over idle_ts ts timeout
unfolding deadline
deadline-is_over idle_ts ts timeout fits now = ground arith

shorter_timeout-is_over :
    (idle_ts ts own peer : ℕ)
    → is_over idle_ts ts (shorter_timeout own peer)
      ≡ (is_over idle_ts ts own || is_over idle_ts ts peer)
unfolding shorter_timeout
shorter_timeout-is_over idle_ts ts own peer = ground arith

shorter_timeout-fits :
    (own peer : ℕ) → own ≤ uint64_max → peer ≤ uint64_max → shorter_timeout own peer ≤ uint64_max
unfolding shorter_timeout
shorter_timeout-fits own peer h k = ground arith

-- At a time that is not before the last one and is below UINT64_MAX, with timeouts of 64 bits, the call
-- fails with DWNX_ERR_IDLE_CLOSE exactly when the local or the remote idle timeout, if it is not 0, is over,
-- counted from the last activity; else it only advances the clock.
pub handle_expiry-is_over :
    (ts : ℕ) (r : Reading)
    → r.conn.local_params.max_idle_timeout ≤ uint64_max
    → r.conn.remote_params.max_idle_timeout ≤ uint64_max
    → r.last_ts ≤ ts
    → ts < uint64_max
    → handle_expiry ts r ≡ (
        if is_over r.idle_ts ts r.conn.local_params.max_idle_timeout
          || is_over r.idle_ts ts r.conn.remote_params.max_idle_timeout
        then err idle_close
        else ok (record r { last_ts = ts }))
unfolding handle_expiry get_idle_expiry
handle_expiry-is_over ts r own peer clock now =
    let a = r.conn.local_params.max_idle_timeout in
    let b = r.conn.remote_params.max_idle_timeout in
    rw (
      le→leb (r.last_ts) ts clock,
      deadline-is_over (r.idle_ts) ts (shorter_timeout a b) (shorter_timeout-fits a b own peer) now,
      shorter_timeout-is_over (r.idle_ts) ts a b,
    )
