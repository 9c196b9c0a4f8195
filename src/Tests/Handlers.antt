-- ===== src/Tests/Handlers.antt =====
-- The format and the handlers on the small device.
use tyrant_fs.Base.{◌+◌, ◌≡◌, refl, [], ◌∷◌, arith}
use tyrant_fs.Base.Bytes.{bytes_at, word, le_bytes}
use tyrant_fs.Base.Int.{pos}
use tyrant_fs.Device.{Fs}
use tyrant_fs.Device.Command.{ret, Returns}
use tyrant_fs.Base.Octets.{HasBytes, store-HasBytes, AllBytes-le_bytes}
use tyrant_fs.Directory.{stale_bytes}
use tyrant_fs.Inode.Io.{inode_at, fetch_new-ok}
use tyrant_fs.FilePath.{find_path_node, walk, tokens, tokens_from}
use tyrant_fs.Format.{tfs_disk_info, lay_out, tfs_mkfs}
use tyrant_fs.Format.Made.{IsMade, tfs_mkfs-IsMade}
use tyrant_fs.Format.Layout.{IsLaidOut, lay_out-IsLaidOut}
use tyrant_fs.Format.Geometry.{IsDivided, tfs_disk_info-IsDivided}
use tyrant_fs.Handlers.{write_dots, tfs_chmod, tfs_chown, tfs_utime}
use tyrant_fs.Handlers.Dots.{write_dots_lem}
use tyrant_fs.Handlers.Attributes.{Changes, attributes_lem}
use tyrant_fs.Tests.{small_fs, small_bytes, some_env}
use tyrant_fs.Format.Overrun.{Overruns, lay_out-Overruns}

abbrev full_fs : Fs
full_fs = record small_fs { size = 409600 }

tfs_disk_info-IsDivided_example :
    Returns (λ r t. (r ≡ pos 0) × IsDivided full_fs (pos 3) t) (tfs_disk_info (pos 3) full_fs)
tfs_disk_info-IsDivided_example =
    tfs_disk_info-IsDivided full_fs (pos 3) refl (omega arith) (omega arith)

lay_out-IsLaidOut_example : Returns (λ r t. IsLaidOut full_fs (pos 3) t) (lay_out (pos 3) full_fs)
lay_out-IsLaidOut_example =
    lay_out-IsLaidOut full_fs (pos 3) (omega arith) (omega arith) (omega arith)

-- A device of 65 blocks.
abbrev tight_fs : Fs
tight_fs = record small_fs { size = 266240 }

lay_out-Overruns_example : Returns (λ r t. Overruns tight_fs t) (lay_out (pos 3) tight_fs)
lay_out-Overruns_example =
    lay_out-Overruns tight_fs (pos 3) (omega arith) (omega arith) (omega arith)

abbrev clocked_fs : Fs
clocked_fs = record full_fs { env = record some_env { clock = λ t. 1000 } }

tfs_mkfs-IsMade_example :
    Returns (λ r t. (r ≡ pos 0) × IsMade 409600 t) (tfs_mkfs (pos 3) clocked_fs)
tfs_mkfs-IsMade_example =
    tfs_mkfs-IsMade clocked_fs (pos 3) refl (omega arith) (omega arith) (omega arith)
      λ k. omega arith

write_dots_lem_example :
    Returns
      (λ r t.
        (bytes_at t.byte 8192 2 ≡ b'.' ∷ 0 ∷ [])
        × (word t.byte (8192 + 248) ≡ 4352)
        × (bytes_at t.byte (8192 + 256) 3 ≡ b'.' ∷ b'.' ∷ 0 ∷ [])
        × (word t.byte (8192 + 504) ≡ word small_fs.byte (8192 + 504)))
      (write_dots 8192 4352 4096 small_fs)
write_dots_lem_example =
    write_dots_lem small_fs 8192 4352 4096 (record { inside = omega arith; small = omega arith })
      (omega arith)

-- The root is found, at 16384.
abbrev found_at : Fs
found_at = record small_fs { at = 16384 + 208 }

root_found : find_path_node (b'/' ∷ []) small_fs ≡ ret 16384 found_at
unfolding find_path_node walk tokens tokens_from stale_bytes
root_found = rw (fetch_new-ok small_fs 16384 (omega arith) (omega arith)) refl

pub small_bytes-HasBytes : HasBytes small_bytes
small_bytes-HasBytes =
    store-HasBytes _ 4104 (le_bytes 8 12288)
      (store-HasBytes _ 4096 (le_bytes 8 8192)
        (store-HasBytes (λ _. 0) 0 (le_bytes 8 4096) (λ x. omega arith) (AllBytes-le_bytes 8 4096))
        (AllBytes-le_bytes 8 8192))
      (AllBytes-le_bytes 8 12288)

attributes_lem_example :
    Changes found_at 16384
      (record (inode_at small_fs.byte 16384) { mode = 0o644 })
      (tfs_chmod (b'/' ∷ []) 0o644 small_fs)
    × Changes found_at 16384
        (record (inode_at small_fs.byte 16384) { user_id = 5; group_id = 6 })
        (tfs_chown (b'/' ∷ []) 5 6 small_fs)
    × Changes found_at 16384
        (record (inode_at small_fs.byte 16384) { access_time = 7; change_time = 8 })
        (tfs_utime (b'/' ∷ []) 7 8 small_fs)
attributes_lem_example =
    attributes_lem small_fs found_at (b'/' ∷ []) 16384 root_found (omega arith) (omega arith) 0o644
      5 6 7 8 small_bytes-HasBytes (omega arith) (omega arith) (omega arith) (omega arith)
      (omega arith)
