-- ===== src/Files/Truncate.antt =====
-- `tfs_truncate` behind the lookup: which blocks of the file go to the free list.
use tyrant_fs.Base.{
  ℕ, suc, ◌+◌, ◌-◌, ◌*◌, ◌/◌, ◌^◌, ◌≤◌, ◌<◌, ◌≡◌, refl, ap, List, arith, lt→leb, le→leb, min,
}
use tyrant_fs.Base.Bytes.{store}
use tyrant_fs.Base.Word.{add32}
use tyrant_fs.Base.Int.{pos}
use tyrant_fs.Device.{Fs, time}
use tyrant_fs.Device.Command.{ret, and_then, Returns, Returns-bind, Returns-mono}
use tyrant_fs.Inode.{Node, encode, head_values, tail_values, commit_inode}
use tyrant_fs.Inode.Codec.{IsNode, length-encode, length-direct_blocks}
use tyrant_fs.Inode.Io.{inode_at, commit_inode-ok, inode_at-store_self}
use tyrant_fs.FreeList.Chain.{count, members}
use tyrant_fs.FreeList.Frame.{KeepsFree, members-KeepsFree, IsFreeList-KeepsFree, store-KeepsFree}
use tyrant_fs.FreeList.Refine.{IsFormatted}
use tyrant_fs.BlockMap.{get_i_block}
use tyrant_fs.BlockMap.Address.{block_at}
use tyrant_fs.Files.{truncate_loop, truncate_node}
use tyrant_fs.Unlink.Owned.{block_list, Owns-sub}
use tyrant_fs.Unlink.Blocks.{GivesBack}
use tyrant_fs.Unlink.Counted.{IsFile}
use tyrant_fs.Unlink.File.{given_Off}
use tyrant_fs.Files.Read.{Returns-bind_at, get_i_block-IsMapped}
use tyrant_fs.Files.Shorten.{released, Shortened, truncate_loop-Shortened}

-- The inode after `tfs_truncate`.
abbrev truncated : Node → ℕ → ℕ → ℕ → Node
truncated n b now size = record n { blocks = b; change_time = now; data_time = now; size = size }

truncated-IsNode :
    (n : Node) (b now size : ℕ)
    → IsNode n
    → b ≤ n.blocks
    → now < 2 ^ 64
    → size ≤ n.size
    → IsNode (truncated n b now size)
unfolding head_values tail_values
truncated-IsNode n b now size h few now_ok shorter = record {
  head = (
    (h.head).0,
    (
      ((h.head).1).0,
      (
        (((h.head).1).1).0,
        (
          ((((h.head).1).1).1).0,
          (
            omega arith,
            (
              ((((((h.head).1).1).1).1).1).0,
              (
                omega arith,
                (
                  omega arith,
                  (
                    (((((((((h.head).1).1).1).1).1).1).1).1).0,
                    (
                      ((((((((((h.head).1).1).1).1).1).1).1).1).1).0,
                      (
                        (((((((((((h.head).1).1).1).1).1).1).1).1).1).1).0,
                        (
                          ((((((((((((h.head).1).1).1).1).1).1).1).1).1).1).1).0,
                          (
                            omega arith,
                            ((((((((((((((h.head).1).1).1).1).1).1).1).1).1).1).1).1).1),
                          ),
                        ),
                      ),
                    ),
                  ),
                ),
              ),
            ),
          ),
        ),
      ),
    ),
  );
  direct = h.direct;
  last = h.last;
}

-- The file at `cur` was truncated: every second block behind the one that is to be the last is free.
pub record Truncated (s : Fs) (bs : List ℕ) (n : Node) (cur size : ℕ) (t : Fs) : Type 0 where
  pub node :
      inode_at t.byte cur ≡ truncated n (min n.blocks (size / 4096 + 1)) (s.env.clock s.ticks) size
  pub left : List ℕ
  pub formatted : IsFormatted t left
  pub rest :
      (x : ℕ)
      → count x (members t.byte left)
        ≡ count x (block_list s.byte n (size / 4096 + 1) (released (size / 4096 + 1) n.blocks))
          + count x (members s.byte bs)

-- A commit behind the loop.
commit-Truncated :
    (s u : Fs) (bs : List ℕ) (n : Node) (cur size : ℕ)
    → IsFile s bs n cur
    → s.env.clock s.ticks < 2 ^ 64
    → size ≤ n.size
    → GivesBack s bs (block_list s.byte n (size / 4096 + 1) (released (size / 4096 + 1) n.blocks)) u
    → Returns
        (λ r t. (r ≡ pos 0) × Truncated s bs n cur size t)
        (and_then
          (commit_inode
            (truncated n (min n.blocks (size / 4096 + 1)) (s.env.clock s.ticks) size)
            cur
            (record u { ticks = s.ticks + 1 }))
          (λ x. ret (pos 0)))
commit-Truncated s u bs n cur size v now_ok shorter (left, g) =
    let p = v.placed in
    let first = size / 4096 + 1 in
    let m : Node = truncated n (min n.blocks first) (s.env.clock s.ticks) size in
    let ok =
      truncated-IsNode n (min n.blocks first) (s.env.clock s.ticks) size p.node (omega arith) now_ok
        shorter in
    let size_same : u.size ≡ s.size = ap (λ (k : Fs). k.size) g.only in
    let keeps : KeepsFree u.byte (store u.byte cur (encode m)) left =
      store-KeepsFree u.byte cur (encode m) left 256
        (omega (arith, length-encode m (length-direct_blocks m ok))) (omega (arith, p.behind))
        (given_Off s u bs left n cur first (released first n.blocks) v g (λ j a l. omega arith)) in
    rw
      (commit_inode-ok (record u { ticks = s.ticks + 1 }) cur (omega (arith, p.behind))
        (omega (arith, p.inside)) m ok)
      (
        refl,
        record {
          node = inode_at-store_self u.byte cur m ok;
          left = left;
          formatted = record {
            room = (g.formatted).room;
            list = IsFreeList-KeepsFree (g.formatted).list keeps;
          };
          rest = rw (members-KeepsFree (g.formatted).list keeps) g.rest;
        },
      )

-- On a file whose inode, blocks and index blocks the free list spares, with at most 2 ^ 32 - 1 blocks
-- and a size within its blocks, a truncation to its size or more returns 0 and changes nothing. Else,
-- with a clock of 64 bits, it ends and returns 0, and the inode on the device gets the new size and
-- times and at most one block more than the new size has full ones. Of the blocks behind these, only
-- the first half, rounded up, goes to the free list, which stays well formed.
pub truncate_node-Truncated :
    (s : Fs) (bs : List ℕ) (n : Node) (cur size : ℕ)
    → IsFile s bs n cur
    → n.size ≤ n.blocks * 4096
    → n.blocks < 2 ^ 32
    → s.env.clock s.ticks < 2 ^ 64
    → (n.size ≤ size → truncate_node cur n size s ≡ ret (pos 0) s)
      × (size < n.size
          → Returns (λ r t. (r ≡ pos 0) × Truncated s bs n cur size t) (truncate_node cur n size s))
unfolding truncate_node time
truncate_node-Truncated s bs n cur size v full few now_ok = (
  λ longer. rw (le→leb n.size size longer) refl,
  λ shorter.
      let first = size / 4096 + 1 in
      let from : add32 (size / 4096) 1 ≡ first = omega arith in
      let count_of : n.blocks - (n.blocks - first) ≡ min n.blocks first = omega arith in
      rw (lt→leb n.size size shorter, from)
        (Returns-bind_at (λ x. x ≡ block_at s.byte n (size / 4096)) _ s
          (get_i_block n (size / 4096) s) _
          (get_i_block-IsMapped n (size / 4096) s (v.placed).mapped (omega arith))
          λ x p e.
            let here : Fs = record s { at = p } in
            let o = v.owns in
            let f = o.formatted in
            let w : IsFile here bs n cur = record {
              placed = v.placed;
              owns = record {
                mapped = o.mapped;
                formatted = record { room = f.room; list = f.list };
                opened = o.opened;
                used = o.used;
                tables_used = o.tables_used;
              };
              spared = v.spared;
            } in
            Returns-bind (Shortened here bs n first (n.blocks - first)) _
              (truncate_loop (suc n.blocks) first n.blocks n here) _
              (truncate_loop-Shortened (suc n.blocks) first n.blocks here bs n
                (Owns-sub here bs n (λ j. 0 ≤ j) (λ j. first ≤ j) (λ j h q. omega arith) w.owns)
                (omega arith) (omega arith) (omega arith) (omega arith) few)
              λ m u (e', (left, g)).
                let tick : u.ticks ≡ s.ticks = ap (λ (k : Fs). k.ticks) g.only in
                let time_of : u.env.clock u.ticks ≡ s.env.clock s.ticks =
                  ap (λ (k : Fs). k.env.clock k.ticks) g.only in
                rw (e', time_of, tick, count_of)
                  (Returns-mono (λ r t. (r ≡ pos 0) × Truncated here bs n cur size t) _ _
                    (commit-Truncated here u bs n cur size w now_ok (omega arith) (left, g))
                    λ r t (z, d). (
                      z,
                      record {
                        node = d.node;
                        left = d.left;
                        formatted = d.formatted;
                        rest = d.rest;
                      },
                    ))),
)
