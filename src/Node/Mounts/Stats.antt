-- ===== src/Node/Mounts/Stats.antt =====
-- The statistics of a file system (GetDeviceStats of pkg/utils/mounts/mount.go).
use native.Mathlib.Nat.{mul-le-mul_right}
use huaweicloud_csi_driver.Prelude.{
  ℕ, ◌+◌, ◌-◌, ◌*◌, ◌≤◌, ◌<◌, ◌≡◌, arith, pos, pos_part, sub_ℕ, scale, wrap, wrap_lem, two_63, ap,
  ◌∙◌,
}
use huaweicloud_csi_driver.Node.Host.{Statfs}
use huaweicloud_csi_driver.Node.Mounts.{stats_of}

scale_sub :
    (blocks free size : ℕ)
    → free ≤ blocks
    → scale (sub_ℕ blocks free) size ≡ pos ((blocks - free) * size)
scale_sub blocks free size h = ground arith

sub_le : (a b : ℕ) → b ≤ a → sub_ℕ a b ≡ pos (a - b)
sub_le a b h = ground arith

wrap_pos : (n : ℕ) → n < two_63 → wrap (pos n) ≡ pos n
wrap_pos n h = wrap_lem (pos n) (omega arith, omega arith)

used_and_free :
    (blocks free size : ℕ) → free ≤ blocks → (blocks - free) * size + free * size ≡ blocks * size
used_and_free blocks free size h = grind arith

left_of :
    (blocks free left size : ℕ)
    → free ≤ blocks
    → left ≤ free
    → (blocks - free) * size + left * size ≤ blocks * size
left_of blocks free left size h l =
    let sums = used_and_free blocks free size h in
    let smaller : left * size ≤ free * size = mul-le-mul_right size l in omega arith

-- What GetDeviceStats reports of a file system, whose size in bytes and whose number of inodes fit into an int64,
-- and which has no more free blocks and inodes than there are, and no more available blocks than free ones: the
-- total is the size in bytes; the used bytes are those of the blocks that are not free, and make up the total
-- with those of the free blocks; the available bytes are those of the available blocks, so that the used and
-- the available bytes together are at most the total; and the total of inodes is their number, the available
-- ones are those that are free, and the used ones make up the number with them.
pub stats_of_adds_up :
    (s : Statfs)
    → s.blocks * s.bsize < two_63
    → s.files < two_63
    → s.bfree ≤ s.blocks
    → s.bavail ≤ s.bfree
    → s.ffree ≤ s.files
    → ((stats_of s).total_bytes ≡ pos (s.blocks * s.bsize))
      × ((stats_of s).used_bytes ≡ pos ((s.blocks - s.bfree) * s.bsize))
      × (pos_part (stats_of s).used_bytes + s.bfree * s.bsize ≡ s.blocks * s.bsize)
      × ((stats_of s).available_bytes ≡ pos (s.bavail * s.bsize))
      × (pos_part (stats_of s).used_bytes + pos_part (stats_of s).available_bytes
          ≤ s.blocks * s.bsize)
      × ((stats_of s).total_inodes ≡ pos s.files)
      × ((stats_of s).available_inodes ≡ pos s.ffree)
      × (pos_part (stats_of s).used_inodes + pos_part (stats_of s).available_inodes ≡ s.files)
unfolding stats_of
stats_of_adds_up s fits count free left unused =
    let sums = used_and_free s.blocks s.bfree s.bsize free in
    let within = left_of s.blocks s.bfree s.bavail s.bsize free left in
    let used : wrap (scale (sub_ℕ s.blocks s.bfree) s.bsize)
        ≡ pos ((s.blocks - s.bfree) * s.bsize) =
      ap wrap (scale_sub s.blocks s.bfree s.bsize free)
      ∙ wrap_pos ((s.blocks - s.bfree) * s.bsize) (omega arith) in
    let available : wrap (scale (pos s.bavail) s.bsize) ≡ pos (s.bavail * s.bsize) =
      wrap_pos (s.bavail * s.bsize) (omega arith) in
    let inodes : wrap (sub_ℕ s.files s.ffree) ≡ pos (s.files - s.ffree) =
      ap wrap (sub_le s.files s.ffree unused) ∙ wrap_pos (s.files - s.ffree) (omega arith) in
    let free_inodes = wrap_pos s.ffree (omega arith) in
    (
      wrap_pos (s.blocks * s.bsize) fits,
      used,
      rw used sums,
      available,
      rw (used, available) within,
      wrap_pos s.files count,
      free_inodes,
      rw (inodes, free_inodes) (omega arith),
    )
