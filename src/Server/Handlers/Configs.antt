-- ===== src/Server/Handlers/Configs.antt =====
-- CONFIG bodies: the fields that are read, and the scan that the scan magic starts.
use k230_lr2021_radio.Prelude.{
  ℕ, ◌≡◌, refl, ◌≤◌, ◌<◌, true, List, [], ◌∷◌, ◌++◌, le32, join32-bytes, arith, ◌==◌,
}
use k230_lr2021_radio.Device.{Env}
use k230_lr2021_radio.Worker.State.{ScanParams}
use k230_lr2021_radio.Worker.Calls.{reports}
use k230_lr2021_radio.Worker.Control.{start_scan}
use k230_lr2021_radio.Worker.Control.Sweep.{IsSweeping, start_scan-IsSweeping}
use k230_lr2021_radio.Server.Frames.{ready_frame}
use k230_lr2021_radio.Server.Handlers.{
  Node, ParsedConfig, parse_config, scan_params, handle_config, send, with_worker,
}

-- A CONFIG body of docs/protocol.md: 15 bytes, and two selectors more in version 2.
abbrev pub config_bytes : ℕ → ℕ → ℕ → ℕ → ℕ → ℕ → List ℕ → List ℕ
config_bytes freq bw cr pwr sync role selectors =
    le32 freq ++ (le32 bw ++ (cr ∷ pwr ∷ (le32 sync ++ (role ∷ selectors))))

module _ (freq bw cr pwr sync role : ℕ)
    (fits : (freq < 4294967296) × (bw < 4294967296) × (sync < 4294967296)) where
  -- The fields of a CONFIG body, each in its range, are read back as the host wrote them, the
  -- version 2 selectors only from a body that has them.
  pub parse-config_bytes :
      (rate payload : ℕ)
      → let v1 = parse_config (config_bytes freq bw cr pwr sync role []) in
        let v2 = parse_config (config_bytes freq bw cr pwr sync role (rate ∷ payload ∷ [])) in
        (v1 ≡ record {
          frequency_hz = freq;
          bandwidth_hz = bw;
          coding_rate = cr;
          tx_power_dbm = pwr;
          sync_word = sync;
          role = role;
          body_len = 15;
          rate_sel = 0;
          payload_sel = 0;
        })
        × (v2 ≡ record v1 { body_len = 17; rate_sel = rate; payload_sel = payload })
  unfolding parse_config
  parse-config_bytes rate payload = (
    λ i. record {
      frequency_hz = join32-bytes freq fits.0 i;
      bandwidth_hz = join32-bytes bw fits.1 i;
      coding_rate = cr;
      tx_power_dbm = pwr;
      sync_word = join32-bytes sync fits.2 i;
      role = role;
      body_len = 15;
      rate_sel = 0;
      payload_sel = 0;
    },
    refl,
  )

-- A scan from a CONFIG has 1 to 64 channels and a dwell time of at least 50 ms.
pub scan_params_bounds :
    (c : ParsedConfig)
    → (0 < (scan_params c).count) × ((scan_params c).count ≤ 64) × (50 ≤ (scan_params c).dwell_ms)
unfolding scan_params
scan_params_bounds c = ground arith

send-IsSweeping :
    (p : ScanParams) (before bytes : List ℕ) (n : Node)
    → IsSweeping p before n.worker
    → IsSweeping p before (send bytes n).worker
send-IsSweeping p before bytes n s = ground arith

-- A CONFIG with the scan magic starts a sweep over its grid, at its first channel.
pub handle_config-IsSweeping :
    (env : Env) (body : List ℕ) (n : Node)
    → (parse_config body).frequency_hz ≡ 0xFFFFFFFF
    → IsSweeping
        (scan_params (parse_config body))
        (reports n.worker.history)
        (handle_config env body n).worker
unfolding handle_config
handle_config-IsSweeping env body n magic =
    let scans : ((parse_config body).frequency_hz == 0xFFFFFFFF) ≡ true = ground arith in
    let p = scan_params (parse_config body) in
    rw scans (
      send-IsSweeping p (reports n.worker.history) (ready_frame 511)
        (with_worker (start_scan env p n.worker) n)
        (start_scan-IsSweeping env p n.worker (scan_params_bounds (parse_config body)).0))
