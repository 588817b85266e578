-- ===== src/Node/BlockDevice.antt =====
-- pkg/utils/blockdevice/blockdevice_linux.go
use huaweicloud_csi_driver.Prelude.{ℕ, ◌/◌, ◌%◌, String, Bool, eqb, ℤ}
use huaweicloud_csi_driver.Status.{plain, text}
use huaweicloud_csi_driver.Effect.{M, pure, ◌>>=◌, ◌>>◌, map_error}
use huaweicloud_csi_driver.Node.Host.{Host}

-- stat.Mode & unix.S_IFMT == unix.S_IFBLK: the four bits from bit 12 on
abbrev pub is_block_mode : ℕ → Bool
is_block_mode mode = eqb (mode / 4096 % 16) 6

module _ {S : Type 0} (h : Host S) where
  unfoldable pub is_block_device : String → M S Bool
  is_block_device path = do
    mode ← map_error (λ e. plain (text e)) (h.stat_mode path)
    pure (is_block_mode mode)

  unfoldable pub get_block_device_size : String → M S ℤ
  get_block_device_size path = do
    h.open_file path
    map_error (λ e. plain (text e)) (h.seek_end path)
