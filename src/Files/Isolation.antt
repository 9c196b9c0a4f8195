-- ===== src/Files/Isolation.antt =====
-- A write to one file leaves the others.
use tyrant_fs.Base.{
  ℕ, ◌+◌, ◌*◌, ◌/◌, ◌%◌, ◌^◌, ◌≤◌, ◌<◌, ◌≡◌, ◌≢◌, sym, ap, ◌∙◌, inl, inr, List, arith, length,
}
use tyrant_fs.Device.{Fs}
use tyrant_fs.Device.Command.{Returns, Returns-mono}
use tyrant_fs.Inode.{Node, decode}
use tyrant_fs.Inode.Io.{Apart, inode_at}
use tyrant_fs.FreeList.Head.{apart}
use tyrant_fs.BlockMap.Address.{block_at}
use tyrant_fs.Files.{write_node}
use tyrant_fs.Files.Contents.{contents}
use tyrant_fs.Files.Placed.{Off}
use tyrant_fs.Files.Small.{IsSmall, block_at-direct, direct-IsPlaced}
use tyrant_fs.Files.Read.{bytes_at-shift}
use tyrant_fs.Files.Extend.{Saved, write_node-Saved}

-- The two files, inodes and blocks, do not overlap.
pub record AreApart (s : Fs) (n : Node) (cur : ℕ) (n' : Node) (cur' : ℕ) : Type 0 where
  pub inodes : Apart cur cur'
  pub blocks : (i j : ℕ) → i < n.blocks → j < n'.blocks → block_at s.byte n i ≢ block_at s.byte n' j
  pub off : (j : ℕ) → j < n'.blocks → Off cur (block_at s.byte n' j)
  pub off' : (i : ℕ) → i < n.blocks → Off cur' (block_at s.byte n i)

module _ (s t : Fs) (bs left : List ℕ) (n node other : Node) (cur there : ℕ) (buff : List ℕ)
    (size offset wrote : ℕ) (v : IsSmall s bs n cur) (w : IsSmall s bs other there)
    (a : AreApart s n cur other there)
    (d : Saved s bs n cur buff size offset wrote node left t) where
  other_address : (j : ℕ) → j < other.blocks → block_at t.byte other j ≡ block_at s.byte other j
  other_address j h =
      block_at-direct t.byte other j (omega (arith, w.few))
      ∙ sym (block_at-direct s.byte other j (omega (arith, w.few)))

  -- A byte of the other file's blocks.
  other_byte :
      (j o : ℕ)
      → j < other.blocks
      → o < 4096
      → t.byte (block_at s.byte other j + o) ≡ s.byte (block_at s.byte other j + o)
  other_byte j o h l =
      let p = (v.placed).mapped in
      let q = (w.placed).mapped in
      let ok = q.blocks_ok j h in
      let f = a.off j h in
      d.elsewhere (block_at s.byte other j + o) (omega (arith, ok.behind)) (omega arith)
        (λ i k. let r = apart ok (p.blocks_ok i k) (λ e. a.blocks i j k h (sym e)) in omega arith)
        (λ b free.
          let ne : b ≢ block_at s.byte other j =
            λ e. absurd (omega (arith, (rw e at free), w.used j h)) in
          let r = apart ok ((w.formatted).list.valid b free) (λ e. ne (sym e)) in omega arith)

  other-contents :
      (x : ℕ) → x < other.blocks * 4096 → contents t.byte other x ≡ contents s.byte other x
  other-contents x h =
      let j : x / 4096 < other.blocks = omega arith in
      rw (other_address (x / 4096) j) (other_byte (x / 4096) (x % 4096) j (omega arith))

  other-inode : inode_at t.byte there ≡ inode_at s.byte there
  unfolding inode_at
  other-inode =
      let p = (v.placed).mapped in
      let q = w.placed in
      let i = a.inodes in
      ap decode (
        bytes_at-shift t.byte s.byte there there 208 λ o l.
          d.elsewhere (there + o) (omega (arith, q.behind)) (omega arith)
            (λ k m. let f = a.off' k m in omega arith)
            (λ b free. let f = w.spared b free in omega arith))

  other-IsSmall : IsSmall t left other there
  other-IsSmall =
      let size_same : t.size ≡ s.size = ap (λ (u : Fs). u.size) d.only in
      record {
        placed = rw size_same (direct-IsPlaced s bs other there w t.byte);
        few = w.few;
        formatted = (d.small).formatted;
        spared = λ b free. w.spared b (omega (arith, d.fewer b));
        used = λ j h.
            rw (other_address j h) (omega (arith, d.fewer (block_at s.byte other j), w.used j h));
      }

  other-AreApart : AreApart t node cur other there
  other-AreApart = record {
    inodes = a.inodes;
    blocks = λ i j h k e. elim (d.origin i h) [
      | inl (l, same) ↦ a.blocks i j l k (sym same ∙ e ∙ other_address j k)
      | inr free ↦ absurd (omega (arith, (rw (e ∙ other_address j k) at free), w.used j k))
    ];
    off = λ j h. rw (other_address j h) (a.off j h);
    off' = λ i h. elim (d.origin i h) [
      | inl (l, same) ↦ rw same (a.off' i l)
      | inr free ↦ w.spared (block_at t.byte node i) free
    ];
  }

-- Both files are well formed and apart, and the other one is as it was.
pub record LeavesOther (s : Fs) (cur : ℕ) (other : Node) (there : ℕ) (t : Fs) : Type 0 where
  pub left : List ℕ
  pub node : Node
  pub stored : inode_at t.byte cur ≡ node
  pub written : IsSmall t left node cur
  pub small : IsSmall t left other there
  pub separate : AreApart t node cur other there
  pub same : (x : ℕ) → x < other.blocks * 4096 → contents t.byte other x ≡ contents s.byte other x
  pub inode : inode_at t.byte there ≡ inode_at s.byte there

-- For two files of at most 12 blocks that the free list spares and that do not overlap, a write to
-- one up to byte 49152 at most, which may add blocks to it, ends; it leaves the bytes of the other's
-- blocks and the inode at its place, and both files well formed and without overlap.
pub write_node-LeavesOther :
    (s : Fs) (bs : List ℕ) (n other : Node) (cur there : ℕ) (buff : List ℕ) (size offset : ℕ)
    → IsSmall s bs n cur
    → IsSmall s bs other there
    → AreApart s n cur other there
    → s.env.clock s.ticks < 2 ^ 64
    → size ≤ length buff
    → length buff < 2 ^ 64
    → n.size ≤ n.blocks * 4096
    → offset + size ≤ 49152
    → Returns (λ r t. LeavesOther s cur other there t) (write_node cur n buff size offset s)
write_node-LeavesOther s bs n other cur there buff size offset v w a now_ok enough small full fits =
    Returns-mono _ _ (write_node cur n buff size offset s)
      (write_node-Saved s bs n cur v now_ok buff size offset enough small full fits)
      λ r t (wrote, node, left, e, d). record {
        left = left;
        node = node;
        stored = d.stored;
        written = d.small;
        small = other-IsSmall s t bs left n node other cur there buff size offset wrote v w a d;
        separate = other-AreApart s t bs left n node other cur there buff size offset wrote v w a d;
        same = other-contents s t bs left n node other cur there buff size offset wrote v w a d;
        inode = other-inode s t bs left n node other cur there buff size offset wrote v w a d;
      }
