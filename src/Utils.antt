-- ===== src/Utils.antt =====
-- pkg/utils/utils.go: sizes in bytes and in allocation units.
pub mod Suffix
pub mod Rounding
pub mod Decimal
pub mod Upper
pub mod Logs
pub mod Sha256
pub mod Aes
pub mod Text
pub mod Endpoint
pub mod RoundTrip
mod Tests
use huaweicloud_csi_driver.Prelude.{
  ℕ, suc, ◌+◌, ◌/◌, ◌%◌, ltb, if◌then◌else◌, ℤ, pos, negsuc, sub_ℕ, scale, wrap,
}

-- RoundUpSize. Go's `/` rounds towards zero and its `%` has the sign of the dividend, so only a
-- positive size is rounded up. The unit is positive.
unfoldable pub round_up_size : ℤ → ℕ → ℤ
round_up_size (pos n) unit = pos (if ltb 0 (n % unit) then n / unit + 1 else n / unit)
round_up_size (negsuc n) unit = sub_ℕ 0 (suc n / unit)

-- common.GbByteSize
abbrev pub gb_byte_size : ℕ
gb_byte_size = 1073741824

-- int64(size * common.GbByteSize), which wraps around
unfoldable pub gb_to_bytes : ℤ → ℤ
gb_to_bytes size = wrap (scale size gb_byte_size)
