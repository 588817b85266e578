-- ===== src/Utils/Rounding.antt =====
-- What rounding up gives, and when a size in gigabytes survives the way back to bytes.
use huaweicloud_csi_driver.Prelude.{ℕ, ◌+◌, ◌*◌, ◌≤◌, ◌/◌, ◌<◌, ◌≡◌, arith, pos, wrap_lem}
use huaweicloud_csi_driver.Utils.{round_up_size, gb_byte_size, gb_to_bytes}

-- The result is the least number of units that holds the size: what is below it is too small.
pub round_up_size-least :
    (size : ℕ)
    → (units : ℕ) × (round_up_size (pos size) gb_byte_size ≡ pos units)
      × (size ≤ units * gb_byte_size)
      × ((fewer : ℕ) → size ≤ fewer * gb_byte_size → units ≤ fewer)
unfolding round_up_size
round_up_size-least size =
    ((size + 1073741823) / gb_byte_size, ground arith, omega arith, λ fewer h. omega arith)

round_up_size-units :
    (size : ℕ) → round_up_size (pos size) gb_byte_size ≡ pos ((size + 1073741823) / gb_byte_size)
unfolding round_up_size
round_up_size-units size = ground arith

-- A size in bytes that was rounded up is still covered after the way back, up to 2^63 - 2^30 bytes.
pub gb_to_bytes-round_up_size :
    (size : ℕ)
    → size ≤ 9223372035781033984
    → (bytes : ℕ) × (gb_to_bytes (round_up_size (pos size) gb_byte_size) ≡ pos bytes)
      × (size ≤ bytes)
      × (bytes < size + gb_byte_size)
unfolding gb_to_bytes
gb_to_bytes-round_up_size size h =
    let units = (size + 1073741823) / gb_byte_size in
    (
      units * gb_byte_size,
      rw round_up_size-units (wrap_lem (pos (units * gb_byte_size)) (omega arith, omega arith)),
      omega arith,
      omega arith,
    )
