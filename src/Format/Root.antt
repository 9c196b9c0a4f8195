-- ===== src/Format/Root.antt =====
-- The root directory that `tfs_mkfs` makes.
use tyrant_fs.Base.{
  ℕ, ◌+◌, ◌%◌, ◌^◌, ◌≤◌, ◌<◌, ◌≡◌, ◌≢◌, refl, ap, ◌∙◌, ◌⊎◌, inl, List, false, arith, length,
}
use tyrant_fs.Base.Bytes.{Memory, bytes_at, store, overlay_full, length-bytes_at}
use tyrant_fs.Base.Store.{store_below, store_above, le_value-zero}
use tyrant_fs.Base.Int.{pos, is_neg}
use tyrant_fs.Device.{Fs, time}
use tyrant_fs.Device.Command.{Returns, Returns-bind, Returns-mono}
use tyrant_fs.Device.Rules.{lseek_set-le, read-le}
use tyrant_fs.Inode.{Node, encode, decode, stale_node, allocate_inode}
use tyrant_fs.Inode.Codec.{IsNode, length-encode, length-decode, length-direct_blocks}
use tyrant_fs.Inode.Io.{inode_at, mode_at, commit_inode-ok, fetch_inode-ok, inode_at-store_self}
use tyrant_fs.Inode.Search.{FirstFree, OnlyAt, allocate_inode-FirstFree}
use tyrant_fs.Inode.Valid.{inode_at-IsNode}
use tyrant_fs.Format.{root_entries, finish_root, make_root}
use tyrant_fs.Format.RootBlock.{HasDots, HasDots-congr, root_entries-HasDots}
use tyrant_fs.FreeList.{allocate_block}
use tyrant_fs.FreeList.Chain.{count, members, IsBlock}
use tyrant_fs.FreeList.Slots.{occurs}
use tyrant_fs.FreeList.Head.{apart}
use tyrant_fs.FreeList.Alloc.{Taken}
use tyrant_fs.FreeList.Refine.{IsFormatted, Allocated, allocate_block_refines}
use tyrant_fs.FreeList.Frame.{KeepsFree, members-KeepsFree, IsFreeList-KeepsFree}
use tyrant_fs.Format.RootInode.{root_inode, root_inode-IsNode, FirstFree-start}

-- A device that is laid out, with the inode table up to `limit` free and a free block behind it.
pub record IsReady (u : Fs) (bs : List ℕ) (limit : ℕ) : Type 0 where
  pub formatted : IsFormatted u bs
  pub limited : u.globals.inode_byte_boundary ≡ limit
  pub aligned : limit % 256 ≡ 0
  pub room : 4352 ≤ limit
  pub inside : limit ≤ u.size
  pub behind : (b : ℕ) → 0 < count b (members u.byte bs) → limit ≤ b
  pub zeroed : (x : ℕ) → 4096 ≤ x → x < limit → u.byte x ≡ 0
  pub opened : is_neg u.globals.drive ≡ false
  pub clock : (k : ℕ) → u.env.clock k < 2 ^ 64
  pub some_free : (b : ℕ) × (0 < count b (members u.byte bs))

-- The root directory is made, with a block that was free; what else was free still is.
pub record RootMade (u : Fs) (bs : List ℕ) (limit : ℕ) (t : Fs) : Type 0 where
  pub left : List ℕ
  pub block : ℕ
  pub formatted : IsFormatted t left
  pub nonzero : block ≢ 0
  pub taken : (x : ℕ) → count x (members u.byte bs) ≡ occurs x block + count x (members t.byte left)
  pub root : t.globals.root_node ≡ 4096
  pub inode :
      (access creation written : ℕ) × (inode_at t.byte 4096
        ≡ root_inode (inode_at u.byte 4096) block access creation written)
  pub dots : HasDots t.byte 4096 block
  pub inodes : (x : ℕ) → 4352 ≤ x → x + 256 ≤ limit → (inode_at t.byte x).mode ≡ 0

module _ (u : Fs) (bs : List ℕ) (limit : ℕ) (h : IsReady u bs limit) where
  mode_free : (inode_at u.byte 4096).mode ≡ 0
  mode_free =
      mode_at u.byte 4096
      ∙ le_value-zero u.byte (4096 + 8) 4 λ x p q. h.zeroed x (omega arith) (omega (arith, h.room))

  found-IsNode : IsNode (inode_at u.byte 4096)
  found-IsNode =
      inode_at-IsNode u.byte 4096 λ x p q. omega (arith, h.zeroed x p (omega (arith, h.room)))

  first_inode : Returns (λ a t. (a ≡ 4096) × OnlyAt u t) (allocate_inode u)
  first_inode =
      Returns-mono (λ a t. FirstFree u 4096 a × OnlyAt u t) (λ a t. (a ≡ 4096) × OnlyAt u t)
        (allocate_inode u)
        (allocate_inode-FirstFree u
          (record { aligned = rw h.limited h.aligned; inside = rw h.limited h.inside }) h.opened
          h.formatted.room)
        λ a t (f, o). (FirstFree-start u a mode_free (omega (arith, h.limited, h.room)) f, o)

  module _ (w : Fs) (block : ℕ) (left : List ℕ) (d : Taken u.byte u.size bs block w.byte left)
      (ne : block ≢ 0) (size : w.size ≡ u.size) where
    block-IsBlock : (limit ≤ block) × IsBlock u.size block
    block-IsBlock =
        let p : 0 < count block (members u.byte bs) = ground (arith, d.rest block) in
        (h.behind block p, h.formatted.list.valid block p)

    -- The bytes of the rest of the device after the root's block and inode are written.
    pub root-KeepsFree :
        (v : Memory) (n : List ℕ)
        → length n ≡ 208
        → ((x : ℕ) → (x < block) ⊎ (block + 4096 ≤ x) → v x ≡ w.byte x)
        → KeepsFree w.byte (store v 4096 n) left
    root-KeepsFree v n len out = record {
      first = λ x p.
          store_below v 4096 n x (omega arith)
          ∙ out x (inl (omega (arith, block-IsBlock.0, h.room)));
      blocks = λ b x p q r.
          let old : 0 < count b (members u.byte bs) = omega (arith, d.rest b) in
          let other : b ≢ block = λ e. ground (arith, d.rest b, h.formatted.list.once b, e) in
          let o = apart (h.formatted.list.valid b old) block-IsBlock.1 other in
          store_above v 4096 n x (omega (arith, h.behind b old, h.room)) ∙ out x (omega arith);
    }

    -- The inode table behind the root's inode stays zero.
    pub table_zero :
        (v : Memory) (n : List ℕ)
        → length n ≡ 208
        → ((x : ℕ) → (x < block) ⊎ (block + 4096 ≤ x) → v x ≡ w.byte x)
        → (x : ℕ) → 4352 ≤ x
        → x < limit
        → store v 4096 n x ≡ 0
    table_zero v n len out x p q =
        store_above v 4096 n x (omega arith)
        ∙ out x (inl (omega (arith, block-IsBlock.0)))
        ∙ d.kept x (omega arith) (λ b r. inl (omega (arith, h.behind b r)))
        ∙ h.zeroed x (omega arith) q

    pub finish_root-RootMade :
        (access creation : ℕ)
        → access < 2 ^ 64
        → creation < 2 ^ 64
        → w.env ≡ u.env
        → w.globals.root_node ≡ 4096
        → Returns
            (λ r t. (r ≡ pos 0) × RootMade u bs limit t)
            (finish_root 4096 (inode_at u.byte 4096) access creation block w)
    unfolding finish_root time
    finish_root-RootMade access creation a_ok c_ok env root =
        let b = block-IsBlock.1 in
        Returns-bind _ _ (root_entries 4096 block w) _
          (root_entries-HasDots w 4096 block
            (record { inside = omega (arith, b.inside); small = rw size h.formatted.list.small }) ne
            (omega arith))
          λ r v (dots, out, o).
            let written : ℕ = v.env.clock v.ticks in
            let env' : v.env ≡ u.env = ap (λ (z : Fs). z.env) o ∙ env in
            let size' : v.size ≡ w.size = ap (λ (z : Fs). z.size) o in
            let n : Node = root_inode (inode_at u.byte 4096) block access creation written in
            let n_ok : IsNode n =
              root_inode-IsNode (inode_at u.byte 4096) block access creation written found-IsNode
                (omega (arith, b.inside, h.formatted.list.small)) a_ok c_ok
                (rw env' (h.clock v.ticks)) in
            let len : length (encode n) ≡ 208 = length-encode n (length-direct_blocks n n_ok) in
            let v1 : Fs = record v { ticks = v.ticks + 1 } in
            let v2 : Fs = record v1 { byte = store v.byte 4096 (encode n); at = 4096 + 208 } in
            let keeps = root-KeepsFree v.byte (encode n) len out in
            rw
              (
                commit_inode-ok v1 4096 (omega arith) (omega (arith, h.room, h.inside)) n n_ok,
                fetch_inode-ok v2 4096 (omega arith) (omega (arith, h.room, h.inside)) n
                    (length-direct_blocks n n_ok),
              )
              (
                refl,
                record {
                  left = left;
                  block = block;
                  formatted = record {
                    room = omega (arith, h.room, h.inside);
                    list = rw (size', size) (IsFreeList-KeepsFree d.list keeps);
                  };
                  nonzero = ne;
                  taken = λ x. rw (members-KeepsFree d.list keeps) (d.rest x);
                  root = ap (λ (z : Fs). z.globals.root_node) o ∙ root;
                  inode = (access, creation, written, inode_at-store_self v.byte 4096 n n_ok);
                  dots =
                      HasDots-congr v.byte (store v.byte 4096 (encode n)) 4096 block
                        (λ x p q.
                          store_above v.byte 4096 (encode n) x
                            (omega (arith, block-IsBlock.0, h.room)))
                        dots;
                  inodes = λ x p q.
                      mode_at _ x
                      ∙ le_value-zero _ (x + 8) 4 λ y p' q'.
                        table_zero v.byte (encode n) len out y (omega arith) (omega arith);
                },
              )

  -- Started on a device that is laid out, `make_root` makes the root directory.
  pub make_root-RootMade : Returns (λ r t. (r ≡ pos 0) × RootMade u bs limit t) (make_root u)
  unfolding make_root stale_node inode_at time
  make_root-RootMade =
      Returns-bind (λ a t. (a ≡ 4096) × OnlyAt u t) _ (allocate_inode u) _ first_inode
        λ a t (e, o).
          let size : t.size ≡ u.size = ap (λ (z : Fs). z.size) o in
          let byte : t.byte ≡ u.byte = ap (λ (z : Fs). z.byte) o in
          let env : t.env ≡ u.env = ap (λ (z : Fs). z.env) o in
          let s1 : Fs = record t { globals = record (t.globals) { root_node = 4096 } } in
          let s3 : Fs = record s1 { at = 4096 + 208; ticks = t.ticks + 1 + 1 } in
          rw
            (
              e,
              lseek_set-le s1 4096 (omega (arith, h.formatted.room)),
              read-le (record s1 { at = 4096 }) 208 (omega (arith, h.room, h.inside)),
              overlay_full (bytes_at t.byte 4096 208) (encode (decode (bytes_at t.env.stale 0 208)))
                  (omega (
                    arith,
                    length-encode (decode (bytes_at t.env.stale 0 208))
                        (length-decode (bytes_at t.env.stale 0 208)),
                    length-bytes_at t.byte 4096 208,
                  )),
            )
            (Returns-bind (Allocated s3 bs) _ (allocate_block s3) _
              (allocate_block_refines s3 bs (record {
                room = omega (arith, h.formatted.room);
                list = rw (byte, size) h.formatted.list;
              }))
              λ block w d.
                let taken : Taken u.byte u.size bs block w.byte d.0 = (rw (byte, size) at (d.1)) in
                rw byte (
                  finish_root-RootMade w block d.0 taken (taken.found h.some_free.0 h.some_free.1)
                    (ap (λ (z : Fs). z.size) d.2 ∙ size) (t.env.clock t.ticks)
                    (t.env.clock (t.ticks + 1)) (rw env (h.clock t.ticks))
                    (rw env (h.clock (t.ticks + 1))) (ap (λ (z : Fs). z.env) d.2 ∙ env)
                    (ap (λ (z : Fs). z.globals.root_node) d.2)))
