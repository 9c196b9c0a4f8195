-- ===== src/Format/Made.antt =====
-- `tfs_mkfs` as a whole: the file system that it makes.
use tyrant_fs.Base.{
  ℕ, zero, suc, ◌+◌, ◌*◌, ◌/◌, ◌%◌, ◌^◌, ◌≤◌, ◌<◌, ◌≡◌, ◌≢◌, ap, ◌∙◌, List, false, arith, get_or,
  get_or-set,
}
use tyrant_fs.Base.Int.{ℤ, pos, is_neg}
use tyrant_fs.Device.{Fs}
use tyrant_fs.Device.Command.{Returns, Returns-bind, Returns-mono}
use tyrant_fs.Inode.Codec.{length-decode}
use tyrant_fs.Inode.Io.{inode_at}
use tyrant_fs.Format.{root_mode, lay_out, make_root, tfs_mkfs}
use tyrant_fs.Format.Slots.{run}
use tyrant_fs.Format.Layout.{run_in, IsLaidOut, lay_out-IsLaidOut}
use tyrant_fs.Format.RootBlock.{HasDots}
use tyrant_fs.Format.Root.{IsReady, RootMade, make_root-RootMade}
use tyrant_fs.Format.RootInode.{root_inode}
use tyrant_fs.FreeList.Chain.{count, count_self, members}
use tyrant_fs.FreeList.Slots.{occurs}
use tyrant_fs.FreeList.Refine.{IsFormatted}

-- The end of the inode table of a device of this size.
abbrev pub table_end : ℕ → ℕ
table_end size = 4096 * (size / 4096 / 65 + 1)

-- A new file system: the data blocks but one are free, and that one is the root directory's, whose
-- inode is the first of the table.
pub record IsMade (size : ℕ) (t : Fs) : Type 0 where
  pub left : List ℕ
  pub block : ℕ
  pub formatted : IsFormatted t left
  pub nonzero : block ≢ 0
  pub free :
      (x : ℕ)
      → count x (run (table_end size) (64 * (size / 4096 / 65)))
        ≡ occurs x block + count x (members t.byte left)
  pub root : t.globals.root_node ≡ 4096
  pub mode : (inode_at t.byte 4096).mode ≡ root_mode
  pub bytes : (inode_at t.byte 4096).size ≡ 512
  pub links : (inode_at t.byte 4096).links ≡ 1
  pub blocks : (inode_at t.byte 4096).blocks ≡ 1
  pub direct : get_or (inode_at t.byte 4096).direct_blocks 0 0 ≡ block
  pub dots : HasDots t.byte 4096 block
  pub inodes : (x : ℕ) → 4352 ≤ x → x + 256 ≤ table_end size → (inode_at t.byte x).mode ≡ 0

run_first : (p n : ℕ) → 0 < n → 0 < count p (run p n)
unfolding run
run_first p zero h = absurd (omega arith)
run_first p (suc n) h = omega (arith, count_self p (run (p + 4096) n))

IsLaidOut-IsReady :
    (s : Fs) (fd : ℤ) (u : Fs)
    → is_neg fd ≡ false
    → 65 ≤ s.size / 4096
    → ((k : ℕ) → s.env.clock k < 2 ^ 64)
    → (l : IsLaidOut s fd u) → IsReady u l.bs (table_end s.size)
IsLaidOut-IsReady s fd u open_fd many clock l = record {
  formatted = l.formatted;
  limited = l.table;
  aligned = omega arith;
  room = omega arith;
  inside = omega (arith, l.size_kept);
  behind = λ b p. (run_in b _ _ (rw l.free at p)).0;
  zeroed = l.zeroed;
  opened = rw l.opened open_fd;
  clock = λ k. rw l.env_kept (clock k);
  some_free = (table_end s.size, rw l.free (run_first _ _ (omega arith)));
}

IsMade-of :
    (s : Fs) (fd : ℤ) (u t : Fs)
    → (l : IsLaidOut s fd u) → RootMade u l.bs (table_end s.size) t
    → IsMade s.size t
unfolding inode_at
IsMade-of s fd u t l m =
    let is : inode_at t.byte 4096
        ≡ root_inode (inode_at u.byte 4096) m.block m.inode.0 m.inode.1 m.inode.2 =
      m.inode.3 in
    record {
      left = m.left;
      block = m.block;
      formatted = m.formatted;
      nonzero = m.nonzero;
      free = λ x. rw (← l.free) (m.taken x);
      root = m.root;
      mode = ap (λ n. n.mode) is;
      bytes = ap (λ n. n.size) is;
      links = ap (λ n. n.links) is;
      blocks = ap (λ n. n.blocks) is;
      direct =
          ap (λ n. get_or n.direct_blocks 0 0) is
          ∙ get_or-set _ 0 m.block 0 (omega (arith, length-decode _));
      dots = m.dots;
      inodes = m.inodes;
    }

-- With an open device of at least 65 blocks and less than 2 ^ 63 bytes, whose number of blocks
-- is not a multiple of 65, and a clock of 64 bits, `tfs_mkfs` ends and returns 0. The device
-- then holds a well-formed free list of all data blocks but one; the first inode is a directory
-- of two entries whose one block is that block, with the entries "." and "..", which both lead
-- back to it; and all other inodes are free.
pub tfs_mkfs-IsMade :
    (s : Fs) (fd : ℤ)
    → is_neg fd ≡ false
    → 65 ≤ s.size / 4096
    → (s.size / 4096) % 65 ≢ 0
    → s.size < 2 ^ 63
    → ((k : ℕ) → s.env.clock k < 2 ^ 64)
    → Returns (λ r t. (r ≡ pos 0) × IsMade s.size t) (tfs_mkfs fd s)
unfolding tfs_mkfs
tfs_mkfs-IsMade s fd open_fd many ok small clock = rw open_fd (
    Returns-bind (λ r u. IsLaidOut s fd u) _ (lay_out fd s) _ (lay_out-IsLaidOut s fd many ok small)
      λ r u l.
        Returns-mono (λ r t. (r ≡ pos 0) × RootMade u l.bs (table_end s.size) t) _ (make_root u)
          (make_root-RootMade u l.bs (table_end s.size)
            (IsLaidOut-IsReady s fd u open_fd many clock l))
          λ r t (z, m). (z, IsMade-of s fd u t l m))
