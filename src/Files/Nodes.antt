-- ===== src/Files/Nodes.antt =====
-- `tfs_read` and `tfs_write` behind the lookup, for a file whose blocks are there.
use tyrant_fs.Base.{
  ℕ, ◌+◌, ◌-◌, ◌*◌, ◌/◌, ◌%◌, ◌^◌, ◌≤◌, ◌<◌, ◌≡◌, refl, ap, ap₂, ◌∙◌, arith, min, ltb, lt→leb,
  if◌then◌else◌, length, List, inl, inr, Bool-cases,
}
use tyrant_fs.Base.Bytes.{bytes_at, store, length-bytes_at, Memory}
use tyrant_fs.Base.Word.{add64}
use tyrant_fs.Base.Int.{to_int}
use tyrant_fs.Device.{Fs, time}
use tyrant_fs.Device.Command.{Returns, Returns-mono}
use tyrant_fs.Inode.{Node, encode}
use tyrant_fs.Inode.Io.{commit_inode-ok}
use tyrant_fs.Inode.Search.{OnlyAt}
use tyrant_fs.Files.{read_loop, read_node, blocks_for, write_node, grow}
use tyrant_fs.Files.Contents.{contents, same_address}
use tyrant_fs.Files.Read.{Returns-bind_at, read_loop-contents, bytes_at-shift}
use tyrant_fs.Files.Placed.{
  IsPlaced, IsNode-TimesOk, IsPlaced-stamp, IsPlaced-KeepsTables, committed-KeepsTables,
  contents-committed, contents-stamp, stamp, block_at-stamp,
}
use tyrant_fs.Inode.Codec.{IsNode, length-encode, length-direct_blocks}
use tyrant_fs.Files.Overwrite.{Overwrote, size_after, finish, finish-Overwrote, Done}
use tyrant_fs.Base.Store.{store_off}

-- The clock's answers are 64 bits wide.
abbrev pub IsClock : Fs → Type 0
IsClock s = (k : ℕ) → s.env.clock k < 2 ^ 64

module _ (s : Fs) (n : Node) (cur : ℕ) (v : IsPlaced s.byte s.size n cur)
    (now_ok : s.env.clock s.ticks < 2 ^ 64) where
  -- The state after the commit of the new time of access.
  abbrev pub accessed : Fs
  accessed = record s {
    byte = store s.byte cur (encode (record n { access_time = s.env.clock s.ticks }));
    at = cur + 208;
    ticks = s.ticks + 1;
  }

  pub read_node-contents :
      (size offset : ℕ)
      → n.size ≤ n.blocks * 4096
      → offset < n.size
      → offset + size < 2 ^ 64
      → Returns
          (λ r t.
            (r ≡ (
              to_int (min size (n.size - offset)),
              bytes_at (contents s.byte n) offset (min size (n.size - offset)),
            ))
            × OnlyAt accessed t)
          (read_node cur n size offset s)
  unfolding read_node time
  read_node-contents size offset full h small =
      let now = s.env.clock s.ticks in
      let node : Node = record n { access_time = now } in
      let b = IsNode-TimesOk n v.node in
      let w =
        IsPlaced-stamp s.byte s.size n cur now n.change_time n.data_time n.size v now_ok b.change
          b.data_ok b.size in
      let w' = IsPlaced-KeepsTables _ w (committed-KeepsTables w node w.node) in
      let k : ℕ = min size (n.size - offset) in
      let counter : (if ltb n.size (add64 offset size) then n.size - offset else size) ≡ k =
        ground (arith, small) in
      rw
        (
          lt→leb n.size offset h,
          counter,
          commit_inode-ok (record s { ticks = s.ticks + 1 }) cur (omega (arith, v.behind)) v.inside
              node w.node,
        )
        (Returns-bind_at
          (λ bs.
            bs ≡ bytes_at (contents accessed.byte node) (offset / 4096 * 4096 + offset % 4096) k)
          _ accessed
          (read_loop (n.blocks - offset / 4096) node (offset / 4096) (offset % 4096) k accessed) _
          (read_loop-contents accessed node w'.mapped (n.blocks - offset / 4096) (offset / 4096)
            (offset % 4096) k accessed.at (omega arith) (omega arith) (omega arith))
          λ bs q e.
            let all : bs ≡ bytes_at (contents s.byte n) offset k =
              e
              ∙ bytes_at-shift _ _ (offset / 4096 * 4096 + offset % 4096) offset k λ i p.
                ap (contents accessed.byte node) (omega arith)
                ∙ contents-stamp accessed.byte n now n.change_time n.data_time n.size (offset + i)
                ∙ contents-committed v node w.node (offset + i) (omega arith) in
            (
              ap₂ (λ x y. (to_int x, y))
                  (ap length all ∙ length-bytes_at (contents s.byte n) offset k) all,
              refl,
            ))

module _ (s : Fs) (n : Node) (cur : ℕ) (v : IsPlaced s.byte s.size n cur) (m : Node)
    (h : IsNode m) where
  -- What comes behind a commit, seen from before it.
  Overwrote-committed :
      (c d : ℕ) (buff : List ℕ) (size offset : ℕ) (l : Node) (at ticks : ℕ) (t : Fs)
      → offset + size ≤ n.blocks * 4096
      → Overwrote
          (record s { byte = store s.byte cur (encode m); at = at; ticks = ticks })
          (stamp n n.access_time c d n.size)
          cur
          buff
          size
          offset
          l
          t
      → Overwrote s n cur buff size offset l t
  Overwrote-committed c d buff size offset l at ticks t fits w =
      let len = length-encode m (length-direct_blocks m h) in
      let g : Memory = store s.byte cur (encode m) in
      record {
        node = w.node;
        placed = w.placed;
        inside = w.inside;
        outside = λ x p q.
            w.outside x p q
            ∙ contents-stamp g n n.access_time c d n.size x
            ∙ contents-committed v m h x p;
        elsewhere = λ y (o, q).
            w.elsewhere y (
              o,
              λ i p.
                  rw
                    (
                      block_at-stamp g n n.access_time c d n.size i,
                      same_address g v.mapped (committed-KeepsTables v m h) i p,
                    )
                    (q i p),
            )
            ∙ store_off s.byte cur (encode m) y (omega arith);
      }

-- Nothing but the bytes, the file position and one more answer of the clock.
abbrev pub OneTick : Fs → Fs → Type 0
OneTick s t = t ≡ record s { byte = t.byte; at = t.at; ticks = s.ticks + 1 }

no_growth :
    (offset size blocks : ℕ)
    → offset + size ≤ blocks * 4096
    → offset + size < 2 ^ 64
    → blocks_for (add64 size offset) - blocks ≡ 0
no_growth offset size blocks fits small =
    let e : add64 size offset ≡ offset + size = omega arith in rw e (ground arith)

pub write_node-Overwrote :
    (s : Fs) (n : Node) (cur : ℕ) (buff : List ℕ) (size offset : ℕ)
    → IsPlaced s.byte s.size n cur
    → s.env.clock s.ticks < 2 ^ 64
    → size ≤ length buff
    → length buff < 2 ^ 64
    → offset + size ≤ n.blocks * 4096
    → Returns
        (λ r t.
          (r ≡ to_int size)
          × Overwrote s n cur buff size offset
              (record n {
                data_time = s.env.clock s.ticks;
                change_time = s.env.clock s.ticks;
                size = size_after n.size (offset + size);
              })
              t
          × OneTick s t)
        (write_node cur n buff size offset s)
unfolding write_node time grow
write_node-Overwrote s n cur buff size offset v now_ok enough small fits =
    let now = s.env.clock s.ticks in
    let stamped : Node = record n { data_time = now; change_time = now } in
    let b = IsNode-TimesOk n v.node in
    let w =
      IsPlaced-stamp s.byte s.size n cur n.access_time now now n.size v b.access now_ok now_ok
        b.size in
    let reach = (v.mapped).reach in
    let s1 : Fs = record s {
      byte = store s.byte cur (encode stamped);
      at = cur + 208;
      ticks = s.ticks + 1;
    } in
    let w' = IsPlaced-KeepsTables s1.byte w (committed-KeepsTables w stamped w.node) in
    let none : blocks_for (add64 size offset) - n.blocks ≡ 0 =
      no_growth offset size n.blocks fits (omega arith) in
    rw
      (
        commit_inode-ok (record s { ticks = s.ticks + 1 }) cur (omega (arith, v.behind)) v.inside
            stamped w.node,
        none,
      )
      (let finished : Returns
            (λ r t. (r ≡ to_int size) × Overwrote s n cur buff size offset _ t × OneTick s t)
            (finish s1 stamped cur w' buff size offset n.size size enough small (omega arith)
              (omega arith) b.size) =
          Returns-mono
            (Done s1 stamped cur w' buff size offset n.size size enough small (omega arith)
              (omega arith) b.size)
            _ _
            (finish-Overwrote s1 stamped cur w' buff size offset n.size size enough small
              (omega arith) (omega arith) b.size)
            λ r t (e, o, only). (
              e,
              Overwrote-committed s n cur v stamped w.node now now buff size offset _ s1.at s1.ticks
                  t fits o,
              only,
            ) in
        elim (Bool-cases (ltb n.size (add64 size offset))) [
          | inl longer ↦ rw longer finished
          | inr shorter ↦ rw shorter finished
        ])
