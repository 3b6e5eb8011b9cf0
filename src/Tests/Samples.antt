-- ===== src/Tests/Samples.antt =====
-- An environment in which every driver call works, one in which the radio refuses every frequency,
-- and states to start from.
use k230_lr2021_radio.Prelude.{
  ℕ, ◌+◌, ◌*◌, true, false, [], ◌∷◌, none, pos, negsuc, ltb, if◌then◌else◌, arith,
}
use k230_lr2021_radio.Device.{Env, IsClock, Event, History, sleep_us, begin_flrc}
use k230_lr2021_radio.Worker.State.{Worker, fresh}
use k230_lr2021_radio.Server.Parser.{Parser, State}
use k230_lr2021_radio.Server.Handlers.{Node}

-- A sleep takes its time, a second at most, and any other call 1 us.
abbrev pub time_of : Event → ℕ
time_of (sleep_us us) = (if ltb 1000000 us then 1000000 else us) * 1000
time_of _ = 1000

abbrev pub elapsed : History → ℕ
elapsed [] = 5000000000
elapsed (e ∷ h) = elapsed h + time_of e

-- TX_DONE is bit 19.
abbrev pub works : Env
works = record {
  clock_ns = elapsed;
  begin_status = λ _. pos 0;
  set_frequency_ok = λ _ _. true;
  start_transmit_ok = λ _ _. true;
  irq_status = λ _. 524288;
  rx_fifo_level = λ _. 0;
  rssi_avg = λ _. negsuc 79;
  received = λ _ _. none;
  guardian = λ _. none;
  die_code = λ _. none;
}

abbrev pub refuses : Env
refuses = record works { set_frequency_ok = λ _ _. false }

pub works-IsClock : IsClock works
works-IsClock = record {
  grows = λ e h. ground arith;
  sleeps = λ us h small. ground arith;
  prompt = λ e h. ground arith;
}

-- A radio that is silent.
abbrev pub quiet : Env
quiet = record works { irq_status = λ _. 0 }

-- A clock that stands still.
abbrev pub still : Env
still = record works { clock_ns = λ _. 0 }

-- A worker behind a successful `init`.
abbrev pub up : Worker
up = record fresh { radio_ok = true; history = begin_flrc (pos 10) ∷ [] }

abbrev pub parser : Parser
parser = record {
  state = State.tag;
  tag_byte = 0;
  frame_len = 0;
  have = 0;
  skip_remain = 0;
  last_arrival_ms = 0;
  parser_frames_killed = 0;
  config_body = λ _. 0;
  window_body = λ _. 0;
  tx_buf = λ _. 0;
  qbuf = λ _. 0;
  scan_count = 0;
  scan_have = 0;
  slot_offset_ms = 0;
  slot_period_ms = 0;
}

abbrev pub node : Node
node = record {
  parser = parser;
  connected = true;
  is_tcp = false;
  last_stats_ms = 0;
  ready_sent = true;
  worker = up;
}
