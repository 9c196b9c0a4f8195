-- ===== src/Unlink/Listed.antt =====
-- The removal of a file that a directory lists (`unlink_from`, `sub_unlink`).
use tyrant_fs.Base.{
  ℕ, suc, ◌+◌, ◌%◌, ◌^◌, ◌≤◌, ◌<◌, ◌≡◌, ◌≢◌, ap, ◌∙◌, ◌⊎◌, List, false, arith, length,
}
use tyrant_fs.Base.Int.{ℤ, pos, is_neg}
use tyrant_fs.Device.{Fs}
use tyrant_fs.Device.Command.{ret, Returns, Returns-mono, Returns-result}
use tyrant_fs.Inode.{Node}
use tyrant_fs.Inode.Io.{inode_at}
use tyrant_fs.Files.Isolation.{AreApart}
use tyrant_fs.Files.Small.{IsSmall}
use tyrant_fs.Removal.{remove_link_from_parent}
use tyrant_fs.Removal.Search.{IsFirst}
use tyrant_fs.Removal.Shrink.{IsDirectory, Unlisted}
use tyrant_fs.Removal.Link.{remove_link_from_parent_lem}
use tyrant_fs.Unlink.{is_dir, unlink_from, sub_unlink}
use tyrant_fs.Unlink.File.{Unlinked, unlink_from-Unlinked, sub_unlink-Unlinked}
use tyrant_fs.Unlink.Dropped.{Dropped, file_inode, Unlisted-IsFile, dropped}

-- For a regular file of one link and a directory whose entry `q` is the first with its address, both
-- of at most 12 blocks that the free list spares, and without overlap, on an open device with a clock
-- of 64 bits; where the entries fill the directory's blocks, the last block holds more than one, and
-- `q` is the last or the last block is not full: `tfs_unlink`, behind its searches, and `sub_unlink`
-- both end with 0. The directory's last entry is in the place of `q`, with zeros in its own, and its
-- other entries stay; the free list, still well formed, has each of the file's blocks besides the
-- blocks that it had; the file's inode is free; and no byte elsewhere changes but those of free blocks
-- and of the superblock's first word.
pub unlinked_entry :
    (s : Fs) (bs : List ℕ) (cur parent q last fuel : ℕ) (buff : Node)
    → IsSmall s bs (inode_at s.byte cur) cur
    → IsSmall s bs (inode_at s.byte parent) parent
    → AreApart s (inode_at s.byte cur) cur (inode_at s.byte parent) parent
    → IsDirectory s (inode_at s.byte parent) parent last
    → q ≤ last
    → last % 16 ≢ 0
    → (q ≡ last) ⊎ ((last + 1) % 16 ≢ 0)
    → IsFirst s.byte (inode_at s.byte parent) cur q
    → is_neg s.globals.drive ≡ false
    → ((k : ℕ) → s.env.clock k < 2 ^ 64)
    → (inode_at s.byte cur).links ≡ 1
    → is_dir (inode_at s.byte cur).mode ≡ false
    → length buff.direct_blocks ≡ 12
    → Returns
        (λ r t.
          (r ≡ pos 0)
          × Dropped s bs (inode_at s.byte cur) cur (inode_at s.byte parent) parent q last t)
        (unlink_from fuel parent cur buff s)
      × Returns
          (λ r t.
            (r ≡ pos 0)
            × Dropped s bs (inode_at s.byte cur) cur (inode_at s.byte parent) parent q last t)
          (sub_unlink (suc fuel) parent cur s)
unlinked_entry s bs cur parent q last fuel buff v w a dir l partial movable first opened clock one
      file full =
    let n : Node = inode_at s.byte cur in
    let d : Node = inode_at s.byte parent in
    let p = (v.placed).behind in
    let (r, u, done, gone) =
      Returns-result (Unlisted s d parent q last) (remove_link_from_parent parent cur s) (
        (remove_link_from_parent_lem s parent cur last dir (omega arith) partial
            (omega (arith, w.few)) (clock s.ticks)).0
          q l first movable) in
    let only = gone.4 in
    let size : u.size ≡ s.size = ap (λ (x : Fs). x.size) only in
    let same : inode_at u.byte cur ≡ n = file_inode s bs n d cur parent q last v w a u r gone in
    let isfile = Unlisted-IsFile s bs n d cur parent q last v w a u r gone opened in
    let removed : remove_link_from_parent parent cur s ≡ ret (pos 0) u =
      done ∙ ap (λ x. ret x u) gone.0 in
    let finish : (x : ℤ) (t : Fs)
        → Unlinked u bs n cur x t
        → (x ≡ pos 0) × Dropped s bs n cur d parent q last t =
      λ x t (e, (left, g)).
        (e, dropped s bs n d cur parent q last v w a u r gone t left g dir.blocks l) in
    let time_ok : u.env.clock u.ticks < 2 ^ 64 = rw (ap (λ (x : Fs). x.env) only) (clock u.ticks) in
    let fits : parent + 256 ≤ u.size = rw size (w.placed).inside in
    let ne : parent ≢ 0 = let b = (w.placed).behind in omega arith in
    (
      Returns-mono (Unlinked u bs n cur) _ (unlink_from fuel parent cur buff s)
          (rw same at (
            unlink_from-Unlinked fuel parent cur 0 buff s u bs removed (rw same isfile) full ne fits
              time_ok (rw same one) (rw same file)))
          finish,
      Returns-mono (Unlinked u bs n cur) _ (sub_unlink (suc fuel) parent cur s)
          (rw same at (
            sub_unlink-Unlinked fuel parent cur 0 s u bs removed (rw same isfile) ne fits
              (rw same one) (rw same file)))
          finish,
    )
