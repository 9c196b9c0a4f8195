-- ===== src/Format/Geometry.antt =====
-- The division of the device: where the inode table and the data blocks end.
use tyrant_fs.Base.{◌+◌, ◌*◌, ◌/◌, ◌%◌, ◌^◌, ◌≤◌, ◌<◌, ◌≡◌, ◌≢◌, refl, false, arith}
use tyrant_fs.Base.Int.{ℤ, pos, is_neg}
use tyrant_fs.Device.{Fs}
use tyrant_fs.Device.Command.{Returns}
use tyrant_fs.Format.{set_geometry, tfs_disk_info}

-- The geometry counts the whole blocks of the device; the inode table lies between the superblock and
-- the data, a block for 64 data blocks. `data_blocks + 1` blocks lie behind the table: all of them on
-- the device, except that where the number of blocks is a multiple of 65 the last one does not.
pub record IsDivided (s : Fs) (fd : ℤ) (t : Fs) : Type 0 where
  pub drive : t.globals.drive ≡ fd
  pub drivesize : t.globals.drivesize ≡ s.size
  pub whole : t.globals.num_blocks * 4096 ≤ s.size
  pub no_more : s.size < (t.globals.num_blocks + 1) * 4096
  pub table : t.globals.inode_byte_boundary ≡ 4096 * (1 + t.globals.inode_blocks)
  pub table_fits : t.globals.inode_byte_boundary ≤ s.size
  pub ratio : t.globals.data_blocks + 1 ≡ 64 * t.globals.inode_blocks
  pub unused : t.globals.num_blocks ≤ t.globals.inode_blocks + t.globals.data_blocks + 1 + 64
  pub data_fits :
      t.globals.num_blocks % 65 ≢ 0
      → t.globals.inode_byte_boundary + (t.globals.data_blocks + 1) * 4096 ≤ s.size
  pub data_overrun :
      t.globals.num_blocks % 65 ≡ 0
      → (t.globals.inode_byte_boundary + t.globals.data_blocks * 4096 ≤ s.size)
        × (s.size < t.globals.inode_byte_boundary + (t.globals.data_blocks + 1) * 4096)
  pub rest : t ≡ record s { globals = record (t.globals) { root_node = s.globals.root_node } }

-- With an open device of at least 65 blocks and less than 2 ^ 63 bytes, `tfs_disk_info` returns 0 and
-- changes nothing but the globals of the geometry. They hold the descriptor, the size and the number of
-- whole blocks; a table with a block for each 64 data blocks, which starts behind the superblock, ends
-- on the device and leaves at most 64 of the blocks unused. Of the `data_blocks + 1` blocks behind the
-- table all lie on the device, unless the number of blocks is a multiple of 65: then exactly the last
-- one does not.
pub tfs_disk_info-IsDivided :
    (s : Fs) (fd : ℤ)
    → is_neg fd ≡ false
    → 65 ≤ s.size / 4096
    → s.size < 2 ^ 63
    → Returns (λ r t. (r ≡ pos 0) × IsDivided s fd t) (tfs_disk_info fd s)
unfolding tfs_disk_info set_geometry
tfs_disk_info-IsDivided s fd open_fd many small = rw open_fd (
  refl,
  record {
    drive = refl;
    drivesize = refl;
    whole = omega arith;
    no_more = omega arith;
    table = omega arith;
    table_fits = omega arith;
    ratio = omega arith;
    unused = omega arith;
    data_fits = λ h. omega arith;
    data_overrun = λ h. (omega arith, omega arith);
    rest = refl;
  },
)
