-- ===== src/FreeList/Refine.antt =====
-- `allocate_block` and `free_block` as commands, against the set of free blocks.
use tyrant_fs.Base.{ℕ, ◌+◌, ◌≤◌, ◌≡◌, ap, List, [], ◌∷◌, false, arith}
use tyrant_fs.Base.Bytes.{word}
use tyrant_fs.Base.Int.{ℤ, pos, is_neg}
use tyrant_fs.Device.{Fs}
use tyrant_fs.Device.Command.{Returns, Returns-mono}
use tyrant_fs.FreeList.{allocate_block, free_block}
use tyrant_fs.FreeList.Exec.{Leaves, alloc_pure, allocate_block-Leaves}
use tyrant_fs.FreeList.FreeExec.{free_pure, free_block-Leaves}
use tyrant_fs.FreeList.Chain.{count, members, IsFreeList, IsBlock}
use tyrant_fs.FreeList.Head.{head-IsBlock}
use tyrant_fs.FreeList.Alloc.{Taken, alloc_pure-Taken}
use tyrant_fs.FreeList.Put.{Put}
use tyrant_fs.FreeList.Free.{free_pure-Put}

-- Nothing but the bytes and the file position differs.
abbrev pub OnlyBytes : Fs → Fs → Type 0
OnlyBytes s t = t ≡ record s { byte = t.byte; at = t.at }

-- A formatted device holds at least the superblock; its free list is well formed.
pub record IsFormatted (s : Fs) (bs : List ℕ) : Type 0 where
  pub room : 4096 ≤ s.size
  pub list : IsFreeList s.byte s.size bs

abbrev pub Allocated : Fs → List ℕ → ℕ → Fs → Type 0
Allocated s bs a t = (bs' : List ℕ) × Taken s.byte s.size bs a t.byte bs' × OnlyBytes s t

abbrev pub Freed : Fs → List ℕ → ℕ → Fs → Type 0
Freed s bs block t = (bs' : List ℕ) × Put s.byte s.size bs block t.byte bs' × OnlyBytes s t

first_fits : {s : Fs} (bs : List ℕ) → IsFormatted s bs → word s.byte 0 + 4096 ≤ s.size
first_fits [] v = omega (arith, v.list.chain)
first_fits (b ∷ bs) v = omega (arith, (v.list.chain).0, (head-IsBlock v.list).inside)

-- On a well-formed free list `allocate_block` ends. It returns 0 only if no block is free; else it
-- returns a free block, which leaves the set of free blocks. The free list stays well formed, no
-- byte outside the superblock and the free blocks changes, and of the rest of the state only the
-- file position does.
pub allocate_block_refines :
    (s : Fs) (bs : List ℕ) → IsFormatted s bs → Returns (Allocated s bs) (allocate_block s)
allocate_block_refines s bs v =
    Returns-mono (Leaves s (alloc_pure s.byte).0 (alloc_pure s.byte).1) (Allocated s bs)
      (allocate_block s) (allocate_block-Leaves s (omega (arith, v.room)) (first_fits bs v))
      λ a t l.
        let g : t.byte ≡ (alloc_pure s.byte).1 = ap (λ (u : Fs). u.byte) l.bytes in
        let r = alloc_pure-Taken s.byte s.size bs v.list in
        (r.0, (rw (← l.result, ← g) at (r.1)), (rw (← g) at (l.bytes)))

-- On a well-formed free list, with an open device, `free_block` of an aligned block behind the
-- superblock that is not free ends with 0, and the block joins the set of free blocks. The free
-- list stays well formed, no byte outside the superblock, the freed block and the free blocks
-- changes, and of the rest of the state only the file position does.
pub free_block_refines :
    (s : Fs) (bs : List ℕ) (fd : ℤ) (block : ℕ)
    → IsFormatted s bs
    → is_neg fd ≡ false
    → IsBlock s.size block
    → count block (members s.byte bs) ≡ 0
    → Returns (λ r t. (r ≡ pos 0) × Freed s bs block t) (free_block fd block s)
free_block_refines s bs fd block v open_fd ok fresh =
    Returns-mono (Leaves s (pos 0) (free_pure s.byte block))
      (λ r t. (r ≡ pos 0) × Freed s bs block t) (free_block fd block s)
      (free_block-Leaves s block ok.inside v.list.small fd open_fd
        (λ z. absurd (omega (arith, ok.behind))) (omega (arith, v.room)) (first_fits bs v))
      λ r t l.
        let g : t.byte ≡ free_pure s.byte block = ap (λ (u : Fs). u.byte) l.bytes in
        let p = free_pure-Put s.byte s.size block bs v.list ok fresh in
        (l.result, (p.0, (rw (← g) at (p.1)), (rw (← g) at (l.bytes))))

pub IsFormatted-Allocated :
    {s t : Fs} {bs : List ℕ} {a : ℕ}
    → IsFormatted s bs
    → (d : Allocated s bs a t) → IsFormatted t d.0
IsFormatted-Allocated {s} {t} v d =
    let size : t.size ≡ s.size = ap (λ (u : Fs). u.size) (d.2) in
    record { room = omega (arith, v.room); list = (rw (← size) at ((d.1).list)) }

pub IsFormatted-Freed :
    {s t : Fs} {bs : List ℕ} {b : ℕ} → IsFormatted s bs → (d : Freed s bs b t) → IsFormatted t d.0
IsFormatted-Freed {s} {t} v d =
    let size : t.size ≡ s.size = ap (λ (u : Fs). u.size) (d.2) in
    record { room = omega (arith, v.room); list = (rw (← size) at ((d.1).list)) }
