-- ===== src/Unlink/Dropped.antt =====
-- What the removal of a listed file leaves: its directory, and the free list with its blocks.
use tyrant_fs.Base.{
  ℕ, ◌+◌, ◌*◌, ◌/◌, ◌%◌, ◌≤◌, ◌<◌, ◌≡◌, ◌≢◌, sym, ap, ◌∙◌, ◌⊎◌, inl, inr, List, false, arith,
  Bool-cases, ltb, ltb→lt,
}
use tyrant_fs.Base.Int.{ℤ, is_neg}
use tyrant_fs.Device.{Fs}
use tyrant_fs.Inode.{Node, decode}
use tyrant_fs.Inode.Io.{inode_at}
use tyrant_fs.FreeList.Chain.{count, members}
use tyrant_fs.FreeList.Frame.{KeepsFree, members-KeepsFree, IsFreeList-KeepsFree}
use tyrant_fs.FreeList.Head.{apart}
use tyrant_fs.FreeList.Refine.{IsFormatted}
use tyrant_fs.BlockMap.Address.{block_at}
use tyrant_fs.Files.Contents.{contents}
use tyrant_fs.Files.Isolation.{AreApart}
use tyrant_fs.Files.Placed.{Off}
use tyrant_fs.Files.Read.{bytes_at-shift}
use tyrant_fs.Files.Small.{
  IsSmall, block_at-direct, tables-direct, direct-IsPlaced, direct-KeepsTables,
}
use tyrant_fs.Removal.Entry.{Removes, OffBlocks}
use tyrant_fs.Removal.Shrink.{Unlisted, shrunk}
use tyrant_fs.Unlink.Owned.{block_list, block_list_congr}
use tyrant_fs.Unlink.Counted.{IsFile}
use tyrant_fs.Unlink.File.{Removed, count-block_list-All}

-- A byte in neither of the two inodes and not in the directory's blocks.
abbrev pub Elsewhere : Fs → Node → ℕ → ℕ → ℕ → Type 0
Elsewhere s d parent cur y =
    ((y < parent) ⊎ (parent + 256 ≤ y)) × ((y < cur) ⊎ (cur + 256 ≤ y)) × OffBlocks s.byte d y

-- Entry `q` and the file at `cur` that it led to are gone: the directory has the other entries, the
-- file's blocks are free, and so is its inode. No other byte changes but those of the superblock's
-- first word and of free blocks.
pub record Dropped (s : Fs) (bs : List ℕ) (n : Node) (cur : ℕ) (d : Node) (parent q last : ℕ)
    (t : Fs) : Type 0 where
  pub left : List ℕ
  pub listed : inode_at t.byte parent ≡ shrunk d last (s.env.clock s.ticks)
  pub removes : Removes s.byte t.byte s.size d q last
  pub formatted : IsFormatted t left
  pub rest :
      (x : ℕ)
      → count x (members t.byte left)
        ≡ count x (block_list s.byte n 0 n.blocks) + count x (members s.byte bs)
  pub unused : (inode_at t.byte cur).mode ≡ 0
  pub kept :
      (y : ℕ)
      → 8 ≤ y
      → Elsewhere s d parent cur y
      → ((b : ℕ) → 0 < count b (members t.byte left) → (y < b) ⊎ (b + 4096 ≤ y))
      → t.byte y ≡ s.byte y

module _ (s : Fs) (bs : List ℕ) (n d : Node) (cur parent q last : ℕ) (v : IsSmall s bs n cur)
    (w : IsSmall s bs d parent) (a : AreApart s n cur d parent) (u : Fs) (r : ℤ)
    (gone : Unlisted s d parent q last r u) where
  abbrev elsewhere :
      (y : ℕ) → (y < parent) ⊎ (parent + 256 ≤ y) → OffBlocks s.byte d y → u.byte y ≡ s.byte y
  elsewhere = gone.3

  same_size : u.size ≡ s.size
  same_size = ap (λ (x : Fs). x.size) gone.4

  same_drive : u.globals.drive ≡ s.globals.drive
  same_drive = ap (λ (x : Fs). x.globals.drive) gone.4

  Unlisted-KeepsFree : KeepsFree s.byte u.byte bs
  Unlisted-KeepsFree = record {
    first = λ x l.
        elsewhere x (let p = (w.placed).behind in omega arith)
          λ i h. let ok = ((w.placed).mapped.blocks_ok i h).behind in omega arith;
    blocks = λ b x free l m. elsewhere x (let f = w.spared b free in omega arith) λ i h.
        let ne : b ≢ block_at s.byte d i =
          λ e. absurd (omega (arith, (rw e at free), w.used i h)) in
        let k = apart ((w.formatted).list.valid b free) ((w.placed).mapped.blocks_ok i h) ne in
        omega arith;
  }

  same_members : members u.byte bs ≡ members s.byte bs
  same_members = members-KeepsFree (v.formatted).list Unlisted-KeepsFree

  same_block : (i : ℕ) → i < n.blocks → block_at u.byte n i ≡ block_at s.byte n i
  same_block i h =
      block_at-direct u.byte n i (omega (arith, v.few))
      ∙ sym (block_at-direct s.byte n i (omega (arith, v.few)))

  -- The file is as it was.
  pub file_inode : inode_at u.byte cur ≡ inode_at s.byte cur
  unfolding inode_at
  file_inode =
      let i = a.inodes in
      ap decode (
        bytes_at-shift u.byte s.byte cur cur 208
          λ o l. elsewhere (cur + o) (omega arith) λ j h. let f = a.off j h in omega arith)

  pub Unlisted-IsFile : is_neg s.globals.drive ≡ false → IsFile u bs n cur
  Unlisted-IsFile opened =
      let there = direct-IsPlaced s bs n cur v u.byte in
      record {
        placed = rw same_size there;
        owns = record {
          mapped = rw same_size (there.mapped);
          formatted = record {
            room = rw same_size (v.formatted).room;
            list = rw same_size (IsFreeList-KeepsFree (v.formatted).list Unlisted-KeepsFree);
          };
          opened = rw same_drive opened;
          used = λ j p h. rw (same_block j h, same_members) (v.used j h);
          tables_used = λ j h. rw (tables-direct u.byte n j (omega (arith, v.few))) tt;
        };
        spared = rw same_members v.spared;
      }

  -- Behind the removal of the file.
  module _ (t : Fs) (left : List ℕ) (g : Removed u bs n cur t left) where
    blocks_same : block_list u.byte n 0 n.blocks ≡ block_list s.byte n 0 n.blocks
    blocks_same = block_list_congr s.byte u.byte n 0 n.blocks (omega arith) same_block

    freed :
        (x : ℕ)
        → count x (members t.byte left)
          ≡ count x (block_list s.byte n 0 n.blocks) + count x (members s.byte bs)
    freed x = rw (← blocks_same, ← same_members) (g.rest x)

    -- A block that is free now is apart from the directory.
    free_apart :
        (b : ℕ)
        → 0 < count b (members t.byte left)
        → Off parent b
          × ((j : ℕ)
              → j < d.blocks
              → (b + 4096 ≤ block_at s.byte d j) ⊎ (block_at s.byte d j + 4096 ≤ b))
    free_apart b free = elim (Bool-cases (ltb 0 (count b (block_list s.byte n 0 n.blocks)))) [
      | inl own ↦
          count-block_list-All
            (λ x.
              Off parent x
              × ((j : ℕ)
                  → j < d.blocks
                  → (x + 4096 ≤ block_at s.byte d j) ⊎ (block_at s.byte d j + 4096 ≤ x)))
            s.byte n b 0 n.blocks
            (λ i l h. (
              a.off' i (omega arith),
              λ j k.
                  apart ((v.placed).mapped.blocks_ok i (omega arith))
                    ((w.placed).mapped.blocks_ok j k) (a.blocks i j (omega arith) k),
            ))
            (ltb→lt 0 _ own)
      | inr other ↦
          let old : 0 < count b (members s.byte bs) = let f = freed b in ground (arith, other) in
          (
            w.spared b old,
            λ j k.
                apart ((w.formatted).list.valid b old) ((w.placed).mapped.blocks_ok j k)
                  λ e. absurd (omega (arith, (rw e at old), w.used j k)),
          )
    ]

    dir_inode : inode_at t.byte parent ≡ shrunk d last (s.env.clock s.ticks)
    unfolding inode_at
    dir_inode =
        let p = (w.placed).behind in
        let i = a.inodes in
        ap decode (
          bytes_at-shift t.byte u.byte parent parent 208 λ o l.
            g.kept (parent + o) (omega arith) (omega arith)
              λ b free. let f = (free_apart b free).0 in omega arith)
        ∙ gone.1

    dir_contents : (x : ℕ) → x < d.blocks * 4096 → contents t.byte d x ≡ contents u.byte d x
    dir_contents x h =
        let j : x / 4096 < d.blocks = omega arith in
        let same_u =
          block_at-direct u.byte d (x / 4096) (omega (arith, w.few))
          ∙ sym (block_at-direct s.byte d (x / 4096) (omega (arith, w.few))) in
        let same_t =
          block_at-direct t.byte d (x / 4096) (omega (arith, w.few))
          ∙ sym (block_at-direct s.byte d (x / 4096) (omega (arith, w.few))) in
        let ok = ((w.placed).mapped.blocks_ok (x / 4096) j).behind in
        let off = a.off (x / 4096) j in
        rw (same_u, same_t)
          (g.kept (block_at s.byte d (x / 4096) + x % 4096) (omega arith) (omega arith)
            λ b free. let f = (free_apart b free).1 (x / 4096) j in omega arith)

    pub dropped : d.blocks ≡ last / 16 + 1 → q ≤ last → Dropped s bs n cur d parent q last t
    dropped full l =
        let e = gone.2 in
        record {
          left = left;
          listed = dir_inode;
          removes = record {
            mapped = (direct-IsPlaced s bs d parent w t.byte).mapped;
            kept_tables = direct-KeepsTables s bs d parent w t.byte;
            cleared = λ o h. dir_contents (last * 256 + o) (omega arith) ∙ e.cleared o h;
            moved = λ ne o h. dir_contents (q * 256 + o) (omega arith) ∙ e.moved ne o h;
            others = λ r o i ne ne' h.
                dir_contents (r * 256 + o) (omega arith) ∙ e.others r o i ne ne' h;
          };
          formatted = g.formatted;
          rest = freed;
          unused = g.unused;
          kept = λ y h off away. g.kept y h off.1 away ∙ elsewhere y off.0 off.2;
        }
