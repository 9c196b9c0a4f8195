-- ===== src/Unlink/ByPath.antt =====
-- `tfs_unlink` and `tfs_rmdir` of a file, as FUSE calls them.
use tyrant_fs.Base.{
  ℕ, ◌+◌, ◌%◌, ◌^◌, ◌≤◌, ◌<◌, ◌≡◌, ◌≢◌, ◌⊎◌, List, [], ◌∷◌, some, false, arith, ne→==,
}
use tyrant_fs.Base.Int.{pos, is_neg}
use tyrant_fs.Base.Bytes.{bytes_at}
use tyrant_fs.Device.{Fs}
use tyrant_fs.Device.Command.{ret, Returns}
use tyrant_fs.Inode.Codec.{length-decode}
use tyrant_fs.Inode.Io.{inode_at, fetch_new-ok}
use tyrant_fs.Directory.{same_string}
use tyrant_fs.Files.Isolation.{AreApart}
use tyrant_fs.Files.Small.{IsSmall}
use tyrant_fs.FilePath.{find_path_node}
use tyrant_fs.Removal.Search.{IsFirst}
use tyrant_fs.Removal.Shrink.{IsDirectory}
use tyrant_fs.Unlink.{is_dir, split_path, find_parent, tfs_unlink, tfs_rmdir}
use tyrant_fs.Unlink.Dropped.{Dropped}
use tyrant_fs.Unlink.Listed.{unlinked_entry}

-- Where the path, which is not "/", leads to the inode at `cur` and the part before its last "/" to the
-- directory at `parent`, with `u` the state behind the first lookup and `w` that behind the second; and in
-- `w` the two are a regular file of one link and a directory whose entry `q` is the first with the
-- file's address, both of at most 12 blocks that the free list spares, and without overlap, on an open
-- device with a clock of 64 bits; and the entries fill the directory's blocks, the last block holds
-- more than one, and `q` is the last or the last block is not full: `tfs_unlink` and `tfs_rmdir`
-- both end with 0, and entry and file are gone as `Dropped` has it: the directory keeps the other
-- entries, the free list gets the file's blocks, and the inode is free.
pub tfs_unlink_lem :
    (s u w : Fs) (bs path before name : List ℕ) (cur parent q last fuel : ℕ)
    → find_path_node path s ≡ ret cur u
    → cur ≢ 0
    → cur + 256 ≤ u.size
    → same_string path (b'/' ∷ []) ≡ false
    → split_path path ≡ some (before, name)
    → find_parent before (record u { at = cur + 208 }) ≡ ret parent w
    → IsSmall w bs (inode_at w.byte cur) cur
    → IsSmall w bs (inode_at w.byte parent) parent
    → AreApart w (inode_at w.byte cur) cur (inode_at w.byte parent) parent
    → IsDirectory w (inode_at w.byte parent) parent last
    → q ≤ last
    → last % 16 ≢ 0
    → (q ≡ last) ⊎ ((last + 1) % 16 ≢ 0)
    → IsFirst w.byte (inode_at w.byte parent) cur q
    → is_neg w.globals.drive ≡ false
    → ((k : ℕ) → w.env.clock k < 2 ^ 64)
    → (inode_at w.byte cur).links ≡ 1
    → is_dir (inode_at w.byte cur).mode ≡ false
    → Returns
        (λ r t.
          (r ≡ pos 0)
          × Dropped w bs (inode_at w.byte cur) cur (inode_at w.byte parent) parent q last t)
        (tfs_unlink fuel path s)
      × Returns
          (λ r t.
            (r ≡ pos 0)
            × Dropped w bs (inode_at w.byte cur) cur (inode_at w.byte parent) parent q last t)
          (tfs_rmdir fuel path s)
unfolding tfs_unlink tfs_rmdir inode_at
tfs_unlink_lem s u w bs path before name cur parent q last fuel found ne inside other split there v
      d a dir l partial movable first opened clock one file =
    let gone =
      (unlinked_entry w bs cur parent q last fuel (inode_at u.byte cur) v d a dir l partial movable
        first opened clock one file (length-decode (bytes_at u.byte cur 208))).0 in
    let p = (d.placed).behind in
    let steps : Returns
        (λ r t.
          (r ≡ pos 0)
          × Dropped w bs (inode_at w.byte cur) cur (inode_at w.byte parent) parent q last t)
        (tfs_unlink fuel path s) =
      rw
        (
          found,
          ne→== cur 0 ne,
          fetch_new-ok u cur ne inside,
          other,
          split,
          there,
          ne→== parent 0 (omega arith),
        )
        gone in
    (steps, steps)
