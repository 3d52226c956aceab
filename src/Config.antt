-- ===== src/Config.antt =====
-- application/src/config.rs: the flash layout and the sizes that the firmware is built with.
use cro_pduster.Prelude.{ℕ, ◌*◌}

abbrev pub flash_size : ℕ
flash_size = 2 * 1024 * 1024

abbrev pub active_start : ℕ
active_start = 0x10007000

abbrev pub active_size : ℕ
active_size = 320 * 1024

abbrev pub dfu_start : ℕ
dfu_start = 0x10057000

abbrev pub dfu_size : ℕ
dfu_size = 324 * 1024

abbrev pub config_start : ℕ
config_start = 0x100A8000

abbrev pub config_size : ℕ
config_size = 256 * 1024

abbrev pub ekv_page_size : ℕ
ekv_page_size = 4096

abbrev pub ekv_page_count : ℕ
ekv_page_count = 64

abbrev pub port_count : ℕ
port_count = 8

abbrev pub hlw8012_sel_settle_ms : ℕ
hlw8012_sel_settle_ms = 2000

abbrev pub hlw8012_pulse_timeout_ms : ℕ
hlw8012_pulse_timeout_ms = 10000
