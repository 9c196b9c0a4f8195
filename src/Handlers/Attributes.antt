-- ===== src/Handlers/Attributes.antt =====
-- chmod, chown and utime: what they change.
use tyrant_fs.Base.{ℕ, ◌+◌, ◌^◌, ◌≤◌, ◌<◌, ◌≡◌, ◌≢◌, refl, List, arith, ne→==}
use tyrant_fs.Base.Int.{ℤ, pos}
use tyrant_fs.Device.{Fs}
use tyrant_fs.Device.Command.{Run, ret, Returns}
use tyrant_fs.Inode.{Node, head_values, tail_values}
use tyrant_fs.Inode.Codec.{IsNode}
use tyrant_fs.Inode.Io.{
  inode_at, Apart, fetch_new-ok, commit_inode-ok, inode_at-store_self, inode_at-store-Apart,
}
use tyrant_fs.Base.Octets.{HasBytes}
use tyrant_fs.Inode.Valid.{inode_at-IsNode}
use tyrant_fs.FilePath.{find_path_node}
use tyrant_fs.Handlers.{update_inode, tfs_chmod, tfs_chown, tfs_utime}

-- The handler returns 0, and the inode at `cur` becomes `n`; other inodes stay.
abbrev pub Changes : Fs → ℕ → Node → Run Fs ℤ → Type 0
Changes s cur n r =
    Returns
      (λ v t.
        (v ≡ pos 0)
        × (inode_at t.byte cur ≡ n)
        × ((other : ℕ) → Apart cur other → inode_at t.byte other ≡ inode_at s.byte other))
      r

module _ (s u : Fs) (path : List ℕ) (cur : ℕ) (found : find_path_node path s ≡ ret cur u)
    (ne : cur ≢ 0) (fits : cur + 256 ≤ u.size) where
  update_inode-Changes :
      (change : Node → Node)
      → IsNode (change (inode_at u.byte cur))
      → Changes u cur (change (inode_at u.byte cur)) (update_inode path change s)
  unfolding update_inode
  update_inode-Changes change h =
      rw
        (
          found,
          ne→== cur 0 ne,
          fetch_new-ok u cur ne fits,
          commit_inode-ok (record u { at = cur + 208 }) cur ne fits (change (inode_at u.byte cur))
              h,
        )
        (refl, inode_at-store_self u.byte cur _ h, inode_at-store-Apart u.byte cur _ h)

  -- Where the path leads to an inode that is on the device, not at address 0, and the arguments
  -- are within their types, `tfs_chmod`, `tfs_chown` and `tfs_utime` return 0 and change of it
  -- just the mode, just the owner and group, and just the times of access and of change (not
  -- that of the data); inodes at other places are not changed.
  pub attributes_lem :
      (m owner group actime modtime : ℕ)
      → HasBytes u.byte
      → m < 2 ^ 32
      → owner < 2 ^ 32
      → group < 2 ^ 32
      → actime < 2 ^ 64
      → modtime < 2 ^ 64
      → Changes u cur (record (inode_at u.byte cur) { mode = m }) (tfs_chmod path m s)
        × Changes u cur
            (record (inode_at u.byte cur) { user_id = owner; group_id = group })
            (tfs_chown path owner group s)
        × Changes u cur
            (record (inode_at u.byte cur) { access_time = actime; change_time = modtime })
            (tfs_utime path actime modtime s)
  unfolding tfs_chmod tfs_chown tfs_utime head_values tail_values
  attributes_lem m owner group actime modtime bytes m_ok owner_ok group_ok a_ok c_ok =
      let h = inode_at-IsNode u.byte cur (λ x p q. bytes x) in
      (
        update_inode-Changes (λ n. record n { mode = m })
            (record {
              head = ((h.head).0, (((h.head).1).0, (omega arith, (((h.head).1).1).1)));
              direct = h.direct;
              last = h.last;
            }),
        update_inode-Changes (λ n. record n { user_id = owner; group_id = group })
            (record {
              head = (omega arith, (omega arith, ((h.head).1).1));
              direct = h.direct;
              last = h.last;
            }),
        update_inode-Changes (λ n. record n { access_time = actime; change_time = modtime })
            (record {
              head = (
                (h.head).0,
                (
                  ((h.head).1).0,
                  (
                    (((h.head).1).1).0,
                    (
                      ((((h.head).1).1).1).0,
                      (
                        (((((h.head).1).1).1).1).0,
                        (omega arith, (omega arith, ((((((((h.head).1).1).1).1).1).1).1))),
                      ),
                    ),
                  ),
                ),
              );
              direct = h.direct;
              last = h.last;
            }),
      )
