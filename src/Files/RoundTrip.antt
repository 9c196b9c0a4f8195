-- ===== src/Files/RoundTrip.antt =====
-- `tfs_read` and `tfs_write` of a file that a path leads to, and a read behind a write.
use tyrant_fs.Base.{
  ℕ, zero, suc, ◌+◌, ◌-◌, ◌*◌, ◌^◌, ◌≤◌, ◌<◌, ◌≡◌, refl, ap, ap₂, ◌∙◌, List, [], ◌∷◌, arith, min,
  length, take, get_or, ◌⊎◌, inl, inr,
}
use tyrant_fs.Base.Bytes.{Memory, bytes_at}
use tyrant_fs.Base.Int.{pos, to_int, to_int-small}
use tyrant_fs.Device.{Fs}
use tyrant_fs.Device.Command.{and_then, Returns, Returns-mono}
use tyrant_fs.Inode.{Node, fetch_new}
use tyrant_fs.Inode.Io.{fetch_new-ok, inode_at}
use tyrant_fs.Files.{read_node, write_node}
use tyrant_fs.Files.Contents.{contents}
use tyrant_fs.Files.Overwrite.{size_after}
use tyrant_fs.Files.Placed.{IsPlaced, IsNode-TimesOk}
use tyrant_fs.Files.Nodes.{read_node-contents, write_node-Overwrote}
use tyrant_fs.Files.Small.{IsSmall}
use tyrant_fs.Files.Extend.{write_node-Saved}
use tyrant_fs.FreeList.Chain.{count, members}
use tyrant_fs.FreeList.Refine.{IsFormatted}

-- Bytes that are those of a buffer, one by one.
bytes_at-take :
    (f : Memory) (a m : ℕ) (xs : List ℕ)
    → m ≤ length xs
    → ((i : ℕ) → i < m → f (a + i) ≡ get_or xs i 0)
    → bytes_at f a m ≡ take m xs
unfolding bytes_at
bytes_at-take f a zero xs l h = refl
bytes_at-take f a (suc m) [] l h = absurd (omega arith)
bytes_at-take f a (suc m) (x ∷ xs) l h =
    ap₂ ◌∷◌ (ap f (omega arith) ∙ h 0 (omega arith)) (
      bytes_at-take f (a + 1) m xs (omega arith)
        λ i p. ap f (omega arith) ∙ h (suc i) (omega arith))

-- A read of what a write left.
read_back :
    (t : Fs) (m : Node) (cur : ℕ) (buff : List ℕ) (size offset : ℕ)
    → IsPlaced t.byte t.size m cur
    → inode_at t.byte cur ≡ m
    → ((x : ℕ) → offset ≤ x → x < offset + size → contents t.byte m x ≡ get_or buff (x - offset) 0)
    → t.env.clock t.ticks < 2 ^ 64
    → size ≤ length buff
    → 0 < size
    → offset + size ≤ m.size
    → m.size ≤ m.blocks * 4096
    → Returns
        (λ q u. q ≡ (to_int size, take size buff))
        (and_then (fetch_new cur t) (λ l. read_node cur l size offset))
read_back t m cur buff size offset v stored inside now_ok enough p fits full =
    let here : Fs = record t { at = cur + 208 } in
    let b = IsNode-TimesOk m v.node in
    let k : min size (m.size - offset) ≡ size = omega arith in
    rw (fetch_new-ok t cur (omega (arith, v.behind)) v.inside, stored)
      (Returns-mono _ _ (read_node cur m size offset here)
        (read_node-contents here m cur v now_ok size offset full (omega arith)
          (omega (arith, b.size)))
        λ q u (e, o).
          e
          ∙ ap₂ (λ x y. (to_int x, y)) k
              (ap (bytes_at (contents t.byte m) offset) k
                ∙ bytes_at-take (contents t.byte m) offset size buff enough λ i l.
                  inside (offset + i) (omega arith) (omega arith)
                  ∙ ap (λ j. get_or buff j 0) (omega arith)))

-- For a file whose inode lies apart from its blocks, and whose size is within them, with a clock of 64
-- bits, a write of 1 byte or more that ends within its blocks ends with the number of bytes asked for,
-- cut to an `int`, and a read of the same range behind it gives these bytes and that number.
pub read_node-write_node :
    (s : Fs) (n : Node) (cur : ℕ) (buff : List ℕ) (size offset : ℕ)
    → IsPlaced s.byte s.size n cur
    → ((k : ℕ) → s.env.clock k < 2 ^ 64)
    → 0 < size
    → size ≤ length buff
    → length buff < 2 ^ 64
    → offset + size ≤ n.blocks * 4096
    → n.size ≤ n.blocks * 4096
    → Returns
        (λ r t.
          (r ≡ to_int size)
          × Returns
              (λ q u. q ≡ (to_int size, take size buff))
              (and_then (fetch_new cur t) (λ m. read_node cur m size offset)))
        (write_node cur n buff size offset s)
read_node-write_node s n cur buff size offset v clock p enough small fits full =
    Returns-mono _ _ (write_node cur n buff size offset s)
      (write_node-Overwrote s n cur buff size offset v (clock s.ticks) enough small fits)
      λ r t (e, w, o).
        let reach = (v.mapped).reach in
        (
          e,
          read_back t _ cur buff size offset w.placed w.node w.inside (rw o (clock (s.ticks + 1)))
              enough p (ground arith) (ground arith),
        )

-- For a file of at most 12 blocks whose inode and blocks the free list spares, and whose size is within
-- its blocks, with a clock of 64 bits, a write up to byte 49152 (12 blocks) at most ends with the number
-- of bytes written and leaves a well-formed free list. It wrote all, or no block is free any more and it
-- wrote up to the end of the blocks that the inode on the device then has. If it wrote any, a read of
-- that range behind it gives these bytes.
pub read_node-write_node_small :
    (s : Fs) (bs : List ℕ) (n : Node) (cur : ℕ) (buff : List ℕ) (size offset : ℕ)
    → IsSmall s bs n cur
    → ((k : ℕ) → s.env.clock k < 2 ^ 64)
    → size ≤ length buff
    → length buff < 2 ^ 64
    → offset + size ≤ 49152
    → n.size ≤ n.blocks * 4096
    → Returns
        (λ r t.
          (wrote : ℕ) × (left : List ℕ) × (r ≡ pos wrote)
          × IsFormatted t left
          × ((wrote ≡ size)
              ⊎ ((wrote ≤ size)
                  × (wrote ≡ (inode_at t.byte cur).blocks * 4096 - offset)
                  × ((b : ℕ) → count b (members t.byte left) ≡ 0)))
          × (0 < wrote
              → Returns
                  (λ q u. q ≡ (pos wrote, take wrote buff))
                  (and_then (fetch_new cur t) (λ m. read_node cur m wrote offset))))
        (write_node cur n buff size offset s)
read_node-write_node_small s bs n cur buff size offset v clock enough small fits full =
    Returns-mono _ _ (write_node cur n buff size offset s)
      (write_node-Saved s bs n cur v (clock s.ticks) buff size offset enough small full fits)
      λ r t (wrote, node, left, e, w). (
        wrote,
        left,
        e,
        (w.small).formatted,
        rw w.stored w.amount,
        λ p.
            let l = w.more in
            let z : node.size ≡ size_after n.size (offset + wrote) =
              ap (λ (k : Node). k.size) w.attributes in
            let o = w.only in
            let some_room = w.bounded p in
            let enough_read : wrote ≤ length buff = elim w.amount [
              | inl all ↦ omega arith
              | inr cut ↦ let l = cut.0 in omega arith
            ] in
            let reached : offset + wrote ≤ node.size = ground arith in
            let a : to_int wrote ≡ pos wrote =
              to_int-small wrote (elim w.amount [
                | inl all ↦ omega arith
                | inr cut ↦ let l = cut.0 in omega arith
              ]) in
            rw a at (
              read_back t node cur buff wrote offset (w.small).placed w.stored w.inside
                (rw o (clock (s.ticks + 1))) enough_read p reached (ground arith)),
      )
