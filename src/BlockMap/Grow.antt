-- ===== src/BlockMap/Grow.antt =====
-- `add_block_to_node` and `get_i_block`: a block that was added is found under its index.
use tyrant_fs.Base.{
  ℕ, ◌+◌, ◌-◌, ◌^◌, ◌≤◌, ◌<◌, ◌≡◌, refl, ap, ◌≢◌, ◌⊎◌, inl, inr, List, arith, ◌==◌, Bool-cases,
  get_or, set, get_or-set, get_or-set_lt, lt→ltb, lt→leb, ne→==, ==→eq, ==→ne,
}
use tyrant_fs.Base.Bytes.{store}
use tyrant_fs.Device.{Fs}
use tyrant_fs.Device.Command.{ret, Returns, Returns-bind, Returns-mono}
use tyrant_fs.Inode.{Node, encode, head_values, tail_values, direct_widths}
use tyrant_fs.Inode.Codec.{IsNode, length-encode, length-direct_blocks}
use tyrant_fs.Inode.Valid.{Fits-set}
use tyrant_fs.Inode.Io.{inode_at, commit_inode-ok, inode_at-store_self}
use tyrant_fs.FreeList.{allocate_block}
use tyrant_fs.FreeList.Chain.{count, members, IsBlock}
use tyrant_fs.FreeList.Slots.{occurs}
use tyrant_fs.FreeList.Refine.{
  IsFormatted, Allocated, allocate_block_refines, IsFormatted-Allocated,
}
use tyrant_fs.FreeList.Frame.{KeepsFree, members-KeepsFree, IsFreeList-KeepsFree, store-KeepsFree}
use tyrant_fs.BlockMap.{get_i_block, add_commit, add_block_to_node}

-- The place of an inode: behind the superblock, on the device and apart from the free blocks.
pub record IsHome (s : Fs) (bs : List ℕ) (loc : ℕ) : Type 0 where
  pub behind : 4096 ≤ loc
  pub inside : loc + 256 ≤ s.size
  pub apart : (b : ℕ) → 0 < count b (members s.byte bs) → (loc + 256 ≤ b) ⊎ (b + 4096 ≤ loc)

-- The node after block `r` became its next direct block.
abbrev pub with_direct : Node → ℕ → Node
with_direct n r = record n { direct_blocks = set n.direct_blocks n.blocks r; blocks = n.blocks + 1 }

pub with_direct-IsNode :
    (n : Node) (r : ℕ) → IsNode n → n.blocks < 12 → r < 2 ^ 64 → IsNode (with_direct n r)
unfolding head_values tail_values
with_direct-IsNode n r h few small = record {
  head = omega arith;
  direct = Fits-set direct_widths n.direct_blocks n.blocks r (omega arith) small h.direct;
  last = h.last;
}

-- Block `r` was taken from the free blocks and is the next block of the node, which is on the device
-- as `m`; the node's earlier blocks stay.
pub record Grown (s : Fs) (bs : List ℕ) (n : Node) (loc r : ℕ) (m : Node) (t : Fs) : Type 0 where
  pub nonzero : r ≢ 0
  pub blocks : m.blocks ≡ n.blocks + 1
  pub node : IsNode m
  pub stored : inode_at t.byte loc ≡ m
  pub left : List ℕ
  pub formatted : IsFormatted t left
  pub taken : (x : ℕ) → count x (members s.byte bs) ≡ occurs x r + count x (members t.byte left)
  pub found : Returns (λ x u. x ≡ r) (get_i_block m n.blocks t)
  pub kept :
      (j : ℕ)
      → j < n.blocks
      → Returns (λ x u. Returns (λ y v. y ≡ x) (get_i_block m j t)) (get_i_block n j s)

-- What is taken was a free block.
pub taken-IsBlock :
    {s t : Fs} {bs : List ℕ} {r : ℕ}
    → IsFormatted s bs
    → Allocated s bs r t
    → r ≢ 0
    → (0 < count r (members s.byte bs)) × IsBlock s.size r
taken-IsBlock {s} {bs = bs} {r = r} v d ne =
    let p : 0 < count r (members s.byte bs) = ground (arith, (d.1).rest r) in (p, v.list.valid r p)

-- A direct block is read from the inode.
pub get_i_block-direct :
    (n : Node) (i : ℕ) (s : Fs)
    → i < n.blocks
    → i < 12
    → get_i_block n i s ≡ ret (get_or n.direct_blocks i 0) s
unfolding get_i_block
get_i_block-direct n i s h few =
    rw (ne→== n.blocks 0 (omega arith), lt→leb n.blocks i h, lt→ltb i 12 few)

direct-Grown :
    (s : Fs) (bs : List ℕ) (n : Node) (loc : ℕ)
    → IsFormatted s bs
    → IsHome s bs loc
    → IsNode n
    → n.blocks < 12
    → (r : ℕ) (t : Fs) → Allocated s bs r t
    → r ≢ 0
    → Returns
        (λ p u. Grown s bs n loc p.0 p.1 u)
        (add_commit r (record n { direct_blocks = set n.direct_blocks n.blocks r }) loc t)
unfolding add_commit
direct-Grown s bs n loc v home h few r t d ne =
    let ok = taken-IsBlock v d ne in
    let size : t.size ≡ s.size = ap (λ (u : Fs). u.size) (d.2) in
    let m : Node = with_direct n r in
    let m_ok : IsNode m =
      with_direct-IsNode n r h few (omega (arith, (ok.1).inside, v.list.small)) in
    let u : Fs = record t { byte = store t.byte loc (encode m); at = loc + 208 } in
    let v' : IsFormatted t (d.0) = IsFormatted-Allocated v d in
    let keeps : KeepsFree t.byte u.byte (d.0) =
      store-KeepsFree t.byte loc (encode m) (d.0) 256
        (omega (arith, length-encode m (length-direct_blocks m m_ok))) (omega (arith, home.behind))
        (λ b p. home.apart b (omega (arith, (d.1).rest b))) in
    rw (commit_inode-ok t loc (omega (arith, home.behind)) (omega (arith, home.inside)) m m_ok)
      (record {
        nonzero = ne;
        blocks = refl;
        node = m_ok;
        stored = inode_at-store_self t.byte loc m m_ok;
        left = d.0;
        formatted = record { room = v'.room; list = IsFreeList-KeepsFree v'.list keeps };
        taken = λ x. rw (members-KeepsFree v'.list keeps) ((d.1).rest x);
        found =
            rw (get_i_block-direct m n.blocks u (omega arith) few)
              (get_or-set n.direct_blocks n.blocks r 0 (omega (arith, length-direct_blocks n h)));
        kept = λ j p.
            rw
              (
                get_i_block-direct n j s p (omega arith),
                get_i_block-direct m j u (omega arith) (omega arith),
              )
              (get_or-set_lt n.direct_blocks n.blocks j r 0 p);
      })

-- For an inode of fewer than 12 blocks, on a device with a well-formed free list that spares the
-- inode's place, `add_block_to_node` ends. If it returns 0, no block was free and the inode is as it
-- was. Else the block that it returns was free and leaves the free list, which stays well formed; the
-- inode has one block more and is on the device; `get_i_block` finds the new block under the old
-- number of blocks, and under each smaller index the block that it found before.
pub add_block_to_node-direct :
    (s : Fs) (bs : List ℕ) (n : Node) (loc : ℕ)
    → IsFormatted s bs
    → IsHome s bs loc
    → IsNode n
    → n.blocks < 12
    → Returns
        (λ p t.
          ((p.0 ≡ 0) × (p.1 ≡ n) × ((b : ℕ) → count b (members s.byte bs) ≡ 0))
          ⊎ Grown s bs n loc p.0 p.1 t)
        (add_block_to_node n loc s)
unfolding add_block_to_node
add_block_to_node-direct s bs n loc v home h few = rw (ne→== loc 0 (omega (arith, home.behind))) (
    Returns-bind (Allocated s bs) _ (allocate_block s) _ (allocate_block_refines s bs v) λ r t d.
      elim (Bool-cases (r == 0)) [
        | inl none_left ↦ rw none_left (
            inl (
              refl,
              refl,
              λ b. let f = (d.1).found b in let z = ==→eq r 0 none_left in ground arith,
            ))
        | inr got ↦
            rw (got, ne→== n.blocks (2 ^ 64 - 1) (omega arith), lt→ltb n.blocks 12 few)
              (Returns-mono (λ p u. Grown s bs n loc p.0 p.1 u) _
                (add_commit r (record n { direct_blocks = set n.direct_blocks n.blocks r }) loc t)
                (direct-Grown s bs n loc v home h few r t d (==→ne r 0 got)) λ p u g. inr g)
      ])
