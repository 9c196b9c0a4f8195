-- ===== src/BlockMap/Indirect.antt =====
-- `add_block_to_node` and `get_i_block` behind an indirect block that the inode already has.
use tyrant_fs.Base.{
  ℕ, ◌+◌, ◌-◌, ◌^◌, ◌≤◌, ◌<◌, ◌≡◌, ◌≢◌, refl, sym, ap, ◌∙◌, ◌⊎◌, inl, inr, List, arith, Bool-cases,
  ltb, ltb→lt, lt→ltb, le→ltb, lt→leb, ne→==, ==→eq, ==→ne, ◌==◌, length,
}
use tyrant_fs.Base.Bytes.{Memory, store, word, word_congr, le_bytes, length-le_bytes}
use tyrant_fs.Base.Store.{store_off, word-store_off, word-store_self, word-store_ne}
use tyrant_fs.Device.{Fs, stale_u64}
use tyrant_fs.Device.Command.{Returns, Returns-bind, Returns-mono}
use tyrant_fs.Block.Io.{read_block_u64-ok, write_block_u64-ok}
use tyrant_fs.Inode.{Node, encode, head_values, tail_values}
use tyrant_fs.Inode.Codec.{IsNode, length-encode, length-direct_blocks}
use tyrant_fs.Inode.Io.{commit_inode-ok, inode_at-store_self}
use tyrant_fs.FreeList.{allocate_block}
use tyrant_fs.FreeList.Chain.{count, members, IsBlock}
use tyrant_fs.FreeList.Head.{apart}
use tyrant_fs.FreeList.Refine.{
  IsFormatted, Allocated, allocate_block_refines, IsFormatted-Allocated,
}
use tyrant_fs.FreeList.Frame.{KeepsFree, members-KeepsFree, IsFreeList-KeepsFree}
use tyrant_fs.BlockMap.{get_i_block, add_indirect, add_commit, add_block_to_node, indirect_offset}
use tyrant_fs.BlockMap.Grow.{IsHome, Grown, taken-IsBlock, get_i_block-direct}

-- The indirect block of an inode at `loc`: a block of the device that is not free and does not hold
-- the inode.
pub record HasTable (s : Fs) (bs : List ℕ) (loc table : ℕ) : Type 0 where
  pub block : IsBlock s.size table
  pub used : count table (members s.byte bs) ≡ 0
  pub away : (loc + 256 ≤ table) ⊎ (table + 4096 ≤ loc)

-- A block behind the indirect block is read from it.
get_i_block-indirect :
    (n : Node) (i : ℕ) (s : Fs)
    → i < n.blocks
    → 12 ≤ i
    → i < 524
    → IsBlock s.size n.indirect_blocks
    → s.size < 2 ^ 63
    → Returns (λ x t. x ≡ word s.byte (n.indirect_blocks + indirect_offset i)) (get_i_block n i s)
unfolding get_i_block stale_u64
get_i_block-indirect n i s h many few b small =
    rw
      (
        ne→== n.blocks 0 (omega arith),
        lt→leb n.blocks i h,
        le→ltb i 12 many,
        lt→ltb i 524 few,
        ne→== n.indirect_blocks 0 (omega (arith, b.behind)),
        read_block_u64-ok s n.indirect_blocks (indirect_offset i)
            (record { inside = b.inside; small = small }) (omega arith) _ (omega (arith, b.behind)),
      )
      refl

-- The node with one block more.
abbrev one_more : Node → Node
one_more n = record n { blocks = n.blocks + 1 }

one_more-IsNode : (n : Node) → IsNode n → n.blocks < 524 → IsNode (one_more n)
unfolding head_values tail_values
one_more-IsNode n h few = record { head = omega arith; direct = h.direct; last = h.last }

module _ (s : Fs) (bs : List ℕ) (n : Node) (loc : ℕ) (v : IsFormatted s bs) (home : IsHome s bs loc)
    (h : IsNode n) (many : 12 ≤ n.blocks) (few : n.blocks < 524)
    (table : HasTable s bs loc n.indirect_blocks) where
  abbrev place : ℕ → ℕ
  place i = n.indirect_blocks + indirect_offset i

  -- The bytes after the slot and the inode are written.
  abbrev grown_bytes : Memory → ℕ → Memory
  grown_bytes f r = store (store f (place n.blocks) (le_bytes 8 r)) loc (encode (one_more n))

  length-one_more : length (encode (one_more n)) ≡ 208
  length-one_more =
      length-encode (one_more n) (length-direct_blocks (one_more n) (one_more-IsNode n h few))

  -- A free block is not the indirect block.
  table_apart :
      (b : ℕ)
      → 0 < count b (members s.byte bs)
      → (b + 4096 ≤ n.indirect_blocks) ⊎ (n.indirect_blocks + 4096 ≤ b)
  table_apart b p =
      apart (v.list.valid b p) table.block
        λ e. ground (arith, table.used, p, ap (λ x. count x (members s.byte bs)) e)

  grown-KeepsFree :
      (r : ℕ) (t : Fs) (d : Allocated s bs r t) → KeepsFree t.byte (grown_bytes t.byte r) (d.0)
  grown-KeepsFree r t d = record {
    first = λ x p.
        store_off _ loc (encode (one_more n)) x (omega (arith, home.behind))
        ∙ store_off t.byte (place n.blocks) (le_bytes 8 r) x (omega (arith, (table.block).behind));
    blocks = λ b x p q q'.
        let old : 0 < count b (members s.byte bs) = omega (arith, (d.1).rest b) in
        let o = table_apart b old in
        let o' = home.apart b old in
        store_off _ loc (encode (one_more n)) x (omega (arith, length-one_more))
        ∙ store_off t.byte (place n.blocks) (le_bytes 8 r) x (omega (arith, length-le_bytes 8 r));
  }

  -- The new slot holds the new block, and the slots before it what they held.
  slot_self : (f : Memory) (r : ℕ) → r < 2 ^ 64 → word (grown_bytes f r) (place n.blocks) ≡ r
  slot_self f r small =
      word-store_off _ loc (encode (one_more n)) (place n.blocks)
        (omega (arith, table.away, length-one_more))
      ∙ word-store_self f (place n.blocks) r small

  slot_before :
      (r : ℕ) (t : Fs)
      → Allocated s bs r t
      → (j : ℕ) → 12 ≤ j
      → j < n.blocks
      → word (grown_bytes t.byte r) (place j) ≡ word s.byte (place j)
  slot_before r t d j q p =
      word-store_off _ loc (encode (one_more n)) (place j)
        (omega (arith, table.away, length-one_more))
      ∙ word-store_ne t.byte (place n.blocks) r (place j) (inl (omega arith))
      ∙ word_congr t.byte s.byte (place j) λ x a b.
        (d.1).kept x (omega (arith, (table.block).behind))
          λ y c. let o = table_apart y c in omega arith

  indirect-Grown :
      (r : ℕ) (t : Fs)
      → Allocated s bs r t
      → r ≢ 0
      → Returns (λ p u. Grown s bs n loc p.0 p.1 u) (add_indirect n.blocks r n loc t)
  unfolding add_indirect add_commit
  indirect-Grown r t d ne =
      let ok = taken-IsBlock v d ne in
      let size : t.size ≡ s.size = ap (λ (u : Fs). u.size) (d.2) in
      let b = table.block in
      let m : Node = one_more n in
      let m_ok : IsNode m = one_more-IsNode n h few in
      let t1 : Fs = record t {
        byte = store t.byte (place n.blocks) (le_bytes 8 r);
        at = place n.blocks + 8;
      } in
      let u : Fs = record t1 { byte = grown_bytes t.byte r; at = loc + 208 } in
      let v' : IsFormatted t (d.0) = IsFormatted-Allocated v d in
      let keeps = grown-KeepsFree r t d in
      let b' : IsBlock t.size n.indirect_blocks = (rw size b) in
      let small : t.size < 2 ^ 63 = (rw size v.list.small) in
      rw
        (
          write_block_u64-ok t n.indirect_blocks (indirect_offset n.blocks)
              (record { inside = b'.inside; small = small }) (omega arith) r,
          commit_inode-ok t1 loc (omega (arith, home.behind)) (omega (arith, home.inside)) m m_ok,
        )
        (record {
          nonzero = ne;
          blocks = refl;
          node = m_ok;
          stored = inode_at-store_self t1.byte loc m m_ok;
          left = d.0;
          formatted = record { room = v'.room; list = IsFreeList-KeepsFree v'.list keeps };
          taken = λ x. rw (members-KeepsFree v'.list keeps) ((d.1).rest x);
          found =
              Returns-mono (λ x w. x ≡ word u.byte (place n.blocks)) (λ x w. x ≡ r)
                (get_i_block m n.blocks u)
                (get_i_block-indirect m n.blocks u (omega arith) many few b' small)
                λ x w e. e ∙ slot_self t.byte r (omega (arith, (ok.1).inside, v.list.small));
          kept = λ j p. elim (Bool-cases (ltb j 12)) [
            | inl low ↦
                let q = ltb→lt j 12 low in
                rw (get_i_block-direct n j s p q, get_i_block-direct m j u (omega arith) q) refl
            | inr high ↦
                let q : 12 ≤ j = ground (arith, high) in
                Returns-mono (λ x w. x ≡ word s.byte (place j)) _ (get_i_block n j s)
                  (get_i_block-indirect n j s p q (omega arith) b v.list.small)
                  λ x w e.
                    Returns-mono (λ y w'. y ≡ word u.byte (place j)) (λ y w'. y ≡ x)
                      (get_i_block m j u)
                      (get_i_block-indirect m j u (omega arith) q (omega arith) b' small)
                      λ y w' e'. e' ∙ slot_before r t d j q p ∙ sym e
          ];
        })

  -- For an inode of at least 12 and fewer than 524 blocks that has an indirect block, on a device with
  -- a well-formed free list that spares that block and the inode's place, `add_block_to_node` ends. If
  -- it returns 0, no block was free and the inode is as it was. Else the block that it returns was free
  -- and leaves the free list, which stays well formed; the inode has one block more and is on the
  -- device; `get_i_block` finds the new block under the old number of blocks, and under each smaller
  -- index the block that it found before.
  pub add_block_to_node-indirect :
      Returns
        (λ p t.
          ((p.0 ≡ 0) × (p.1 ≡ n) × ((b : ℕ) → count b (members s.byte bs) ≡ 0))
          ⊎ Grown s bs n loc p.0 p.1 t)
        (add_block_to_node n loc s)
  unfolding add_block_to_node
  add_block_to_node-indirect = rw (ne→== loc 0 (omega (arith, home.behind))) (
      Returns-bind (Allocated s bs) _ (allocate_block s) _ (allocate_block_refines s bs v) λ r t d.
        elim (Bool-cases (r == 0)) [
          | inl none_left ↦ rw none_left (
              inl (
                refl,
                refl,
                λ b. let f = (d.1).found b in let z = ==→eq r 0 none_left in ground arith,
              ))
          | inr got ↦
              rw
                (
                  got,
                  ne→== n.blocks (2 ^ 64 - 1) (omega arith),
                  le→ltb n.blocks 12 many,
                  lt→ltb n.blocks 524 few,
                  ne→== n.indirect_blocks 0 (omega (arith, (table.block).behind)),
                )
                (Returns-mono (λ p u. Grown s bs n loc p.0 p.1 u) _
                  (add_indirect n.blocks r n loc t) (indirect-Grown r t d (==→ne r 0 got))
                  λ p u g. inr g)
        ])
