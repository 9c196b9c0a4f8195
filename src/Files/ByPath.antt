-- ===== src/Files/ByPath.antt =====
-- `tfs_read` and `tfs_write` of a file that a path leads to.
use tyrant_fs.Base.{
  ℕ, ◌+◌, ◌-◌, ◌*◌, ◌^◌, ◌≤◌, ◌<◌, ◌≡◌, refl, List, [], arith, min, length, ne→==, le→leb,
}
use tyrant_fs.Base.Bytes.{bytes_at}
use tyrant_fs.Base.Int.{pos, negsuc, to_int}
use tyrant_fs.Device.{Fs}
use tyrant_fs.Device.Command.{ret, Returns, Returns-mono}
use tyrant_fs.Inode.{Node}
use tyrant_fs.Inode.Io.{inode_at, fetch_new-ok, inode_at-store_self}
use tyrant_fs.FilePath.{find_path_node}
use tyrant_fs.Files.{read_node, tfs_read, write_node, tfs_write}
use tyrant_fs.Files.Contents.{contents}
use tyrant_fs.Files.Placed.{IsPlaced, IsNode-TimesOk, IsPlaced-stamp, contents-committed}
use tyrant_fs.Files.Nodes.{read_node-contents}
use tyrant_fs.Files.Small.{IsSmall}
use tyrant_fs.Files.Extend.{Saved, write_node-Saved}

module _ (s u : Fs) (path : List ℕ) (cur : ℕ) (found : find_path_node path s ≡ ret cur u) where
  -- Where the path leads to a file whose inode lies apart from its blocks, `tfs_read` from its size
  -- on returns -1 and no bytes, and does nothing behind the lookup and the fetch. Before its size it
  -- returns the bytes of the file's contents from `offset` on, as many as are asked for and as there
  -- are before its size, and their number, cut to an `int`; it sets the time of access and leaves the
  -- contents. The size is within the blocks, the range below 2 ^ 64, and the clock has 64 bits.
  pub tfs_read_lem :
      (size offset : ℕ)
      → IsPlaced u.byte u.size (inode_at u.byte cur) cur
      → u.env.clock u.ticks < 2 ^ 64
      → (inode_at u.byte cur).size ≤ (inode_at u.byte cur).blocks * 4096
      → offset + size < 2 ^ 64
      → ((inode_at u.byte cur).size ≤ offset
          → tfs_read path size offset s ≡ ret (negsuc 0, []) (record u { at = cur + 208 }))
        × (offset < (inode_at u.byte cur).size
            → Returns
                (λ r t.
                  (r ≡ (
                    to_int (min size ((inode_at u.byte cur).size - offset)),
                    bytes_at
                        (contents u.byte (inode_at u.byte cur))
                        offset
                        (min size ((inode_at u.byte cur).size - offset)),
                  ))
                  × (inode_at t.byte cur
                      ≡ record (inode_at u.byte cur) { access_time = u.env.clock u.ticks })
                  × ((x : ℕ)
                      → x < (inode_at u.byte cur).blocks * 4096
                      → contents t.byte (inode_at u.byte cur) x
                        ≡ contents u.byte (inode_at u.byte cur) x))
                (tfs_read path size offset s))
  unfolding tfs_read read_node
  tfs_read_lem size offset v now_ok full small =
      let n : Node = inode_at u.byte cur in
      let here : Fs = record u { at = cur + 208 } in
      let b = IsNode-TimesOk n v.node in
      let w =
        (IsPlaced-stamp u.byte u.size n cur (u.env.clock u.ticks) n.change_time n.data_time n.size v
          now_ok b.change b.data_ok b.size).node in
      rw
        (
          found,
          ne→== cur 0 (omega (arith, v.behind)),
          fetch_new-ok u cur (omega (arith, v.behind)) v.inside,
        )
        (
          λ behind. rw (le→leb n.size offset behind) refl,
          λ within.
              Returns-mono _ _ (read_node cur n size offset here)
                (read_node-contents here n cur v now_ok size offset full within small)
                λ r t (e, o). (
                  e,
                  rw o (
                      inode_at-store_self u.byte cur
                        (record n { access_time = u.env.clock u.ticks }) w),
                  rw o (contents-committed v (record n { access_time = u.env.clock u.ticks }) w),
                ),
        )

  -- Where the path leads to a file of at most 12 blocks that the free list spares, and whose size is
  -- within its blocks, `tfs_write` up to byte 49152 at most ends with the number of bytes written:
  -- all, or up to the end of its blocks if no block is free any more. The bytes from `offset` on become those of the
  -- buffer, and the other bytes of the old blocks stay. The inode on the device gets the blocks that
  -- were added, each of them free before, its new size and its times, and no other change. The file
  -- is as well formed as before, so is the free list, and no other byte changes but those of blocks
  -- that were free and of the superblock's first word.
  pub tfs_write_lem :
      (bs buff : List ℕ) (size offset : ℕ)
      → IsSmall u bs (inode_at u.byte cur) cur
      → u.env.clock u.ticks < 2 ^ 64
      → size ≤ length buff
      → length buff < 2 ^ 64
      → (inode_at u.byte cur).size ≤ (inode_at u.byte cur).blocks * 4096
      → offset + size ≤ 49152
      → Returns
          (λ r t.
            (wrote : ℕ) × (node : Node) × (left : List ℕ) × (r ≡ pos wrote)
            × Saved u bs (inode_at u.byte cur) cur buff size offset wrote node left t)
          (tfs_write path buff size offset s)
  unfolding tfs_write
  tfs_write_lem bs buff size offset v now_ok enough small full fits =
      let p = v.placed in
      let f = v.formatted in
      let n : Node = inode_at u.byte cur in
      let here : Fs = record u { at = cur + 208 } in
      let w : IsSmall here bs n cur = record {
        placed = p;
        few = v.few;
        formatted = record { room = f.room; list = f.list };
        spared = v.spared;
        used = v.used;
      } in
      rw
        (
          found,
          ne→== cur 0 (omega (arith, p.behind)),
          fetch_new-ok u cur (omega (arith, p.behind)) p.inside,
        )
        (Returns-mono _ _ (write_node cur n buff size offset here)
          (write_node-Saved here bs n cur w now_ok buff size offset enough small full fits)
          λ r t (wrote, node, left, e, k). (
            wrote,
            node,
            left,
            e,
            record {
              amount = k.amount;
              small = k.small;
              stored = k.stored;
              attributes = k.attributes;
              more = k.more;
              inside = k.inside;
              outside = k.outside;
              bounded = k.bounded;
              fewer = k.fewer;
              origin = k.origin;
              elsewhere = k.elsewhere;
              only = k.only;
            },
          ))
