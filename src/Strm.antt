-- ===== src/Strm.antt =====
-- lib/dwnx_strm.c and lib/dwnx_strm.h: a stream. The bits of `flags` are fields; `queued` tells whether
-- `pe.index` is an index of the transmission queue; the memory and the application's pointer are left
-- out.
use dwnx.Prelude.{ℕ, ◌-◌, ◌^◌, Bool, false, not, ◌&&◌, ◌||◌}

pub record Flags : Type 0 where
  pub shut_rd : Bool
  pub shut_wr : Bool
  pub reset_stream : Bool
  pub reset_stream_recved : Bool
  pub stop_sending : Bool
  pub send_stop_sending : Bool
  pub send_reset_stream : Bool
  pub stop_sending_recved : Bool
  pub rx_app_error_code_set : Bool
  pub tx_reset_stream_app_error_code_set : Bool
  pub tx_stop_sending_app_error_code_set : Bool
  pub send_stream_data_blocked : Bool
  pub any_sent : Bool

-- DWNX_STRM_FLAG_NONE
abbrev pub no_flags : Flags
no_flags = record {
  shut_rd = false;
  shut_wr = false;
  reset_stream = false;
  reset_stream_recved = false;
  stop_sending = false;
  send_stop_sending = false;
  send_reset_stream = false;
  stop_sending_recved = false;
  rx_app_error_code_set = false;
  tx_reset_stream_app_error_code_set = false;
  tx_stop_sending_app_error_code_set = false;
  send_stream_data_blocked = false;
  any_sent = false;
}

pub record StrmRx : Type 0 where
  pub last_offset : ℕ
  pub max_offset : ℕ
  pub unsent_max_offset : ℕ
  pub window : ℕ
  pub app_error_code : ℕ

pub record StrmTx : Type 0 where
  pub offset : ℕ
  pub max_offset : ℕ
  pub last_blocked_offset : ℕ
  pub stop_sending_app_error_code : ℕ
  pub reset_stream_app_error_code : ℕ

pub record Strm : Type 0 where
  pub stream_id : ℕ
  pub queued : Bool
  pub cycle : ℕ
  pub rx : StrmRx
  pub tx : StrmTx
  pub flags : Flags

-- UINT64_MAX
abbrev uint64_max : ℕ
uint64_max = 2 ^ 64 - 1

abbrev pub init : ℕ → Flags → ℕ → ℕ → Strm
init stream_id flags max_rx_offset max_tx_offset = record {
  stream_id = stream_id;
  queued = false;
  cycle = 0;
  rx = record {
    last_offset = 0;
    max_offset = max_rx_offset;
    unsent_max_offset = max_rx_offset;
    window = max_rx_offset;
    app_error_code = 0;
  };
  tx = record {
    offset = 0;
    max_offset = max_tx_offset;
    last_blocked_offset = uint64_max;
    stop_sending_app_error_code = 0;
    reset_stream_app_error_code = 0;
  };
  flags = flags;
}

-- dwnx_strm_shutdown, with the two bits of its `flags`.
abbrev pub shutdown : Bool → Bool → Strm → Strm
shutdown rd wr strm = record strm {
  flags = record strm.flags {
    shut_rd = strm.flags.shut_rd || rd;
    shut_wr = strm.flags.shut_wr || wr;
  };
}

abbrev pub is_tx_queued : Strm → Bool
is_tx_queued strm = strm.queued

abbrev pub should_close_stream : Strm → Bool
should_close_stream strm =
    strm.flags.shut_rd && strm.flags.shut_wr && not strm.flags.send_reset_stream
