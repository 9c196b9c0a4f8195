-- ===== src/Files/Extend.antt =====
-- `tfs_write` behind the lookup for a file of at most 12 blocks, which grows as far as blocks are free.
use tyrant_fs.Base.{
  ℕ, ◌+◌, ◌-◌, ◌*◌, ◌^◌, ◌≤◌, ◌<◌, ◌≡◌, refl, ap, ◌∙◌, ◌⊎◌, inl, inr, List, arith, min, ltb, length,
  get_or, Bool-cases, if◌then◌else◌, leb,
}
use tyrant_fs.Base.Bytes.{store}
use tyrant_fs.Base.Store.{store_off}
use tyrant_fs.Base.Word.{add64}
use tyrant_fs.Base.Int.{pos, to_int-small}
use tyrant_fs.Device.{Fs, time}
use tyrant_fs.Device.Command.{Returns, Returns-bind, Returns-mono, ret}
use tyrant_fs.Inode.{Node, encode}
use tyrant_fs.Inode.Codec.{IsNode, length-encode, length-direct_blocks}
use tyrant_fs.Inode.Io.{inode_at, commit_inode-ok}
use tyrant_fs.FreeList.Chain.{count, members}
use tyrant_fs.FreeList.Frame.{members-KeepsFree}
use tyrant_fs.FreeList.Refine.{OnlyBytes}
use tyrant_fs.BlockMap.Address.{block_at}
use tyrant_fs.Files.{grow, write_node, blocks_for}
use tyrant_fs.Files.Contents.{contents}
use tyrant_fs.Files.Placed.{IsNode-TimesOk, IsPlaced-stamp, contents-committed, contents-stamp}
use tyrant_fs.Files.Overwrite.{Overwrote, size_after, finish-Overwrote, Done}
use tyrant_fs.Files.Nodes.{OneTick}
use tyrant_fs.Files.Small.{IsSmall, GrewTo, committed-KeepsFree}
use tyrant_fs.Files.Growth.{Extended, GrewTo-refl, grow-Extended}
use tyrant_fs.Format.Lists.{OnlyBytes-trans}
use tyrant_fs.Files.Sparing.{IsSmall-KeepsFree, Overwrote-KeepsFree, committed-IsSmall}
use tyrant_fs.Files.Origin.{Origin, Origin-refl, Origin-trans}

-- After a write of `wrote` bytes of `buff` to the file `n` at `cur`: the file is `node`.
pub record Saved (s : Fs) (bs : List ℕ) (n : Node) (cur : ℕ) (buff : List ℕ) (size offset wrote : ℕ)
    (node : Node) (left : List ℕ) (t : Fs) : Type 0 where
  pub amount :
      (wrote ≡ size)
      ⊎ ((wrote ≤ size)
          × (wrote ≡ node.blocks * 4096 - offset)
          × ((b : ℕ) → count b (members t.byte left) ≡ 0))
  pub small : IsSmall t left node cur
  pub stored : inode_at t.byte cur ≡ node
  pub attributes : node ≡ record n {
    blocks = node.blocks;
    direct_blocks = node.direct_blocks;
    change_time = s.env.clock s.ticks;
    data_time = s.env.clock s.ticks;
    size = size_after n.size (offset + wrote);
  }
  pub more : n.blocks ≤ node.blocks
  pub inside :
      (x : ℕ)
      → offset ≤ x
      → x < offset + wrote
      → contents t.byte node x ≡ get_or buff (x - offset) 0
  pub outside :
      (x : ℕ)
      → x < n.blocks * 4096
      → (x < offset) ⊎ (offset + wrote ≤ x)
      → contents t.byte node x ≡ contents s.byte n x
  pub bounded : 0 < wrote → offset + wrote ≤ node.blocks * 4096
  pub fewer : (x : ℕ) → count x (members t.byte left) ≤ count x (members s.byte bs)
  pub origin : Origin s bs n node t
  pub elsewhere :
      (y : ℕ)
      → 8 ≤ y
      → (y < cur) ⊎ (cur + 256 ≤ y)
      → ((i : ℕ) → i < n.blocks → (y < block_at s.byte n i) ⊎ (block_at s.byte n i + 4096 ≤ y))
      → ((b : ℕ) → 0 < count b (members s.byte bs) → (y < b) ⊎ (b + 4096 ≤ y))
      → t.byte y ≡ s.byte y
  pub only : OneTick s t

-- The blocks for a write up to `offset + size` were added, or none is free any more.
abbrev Ready : Fs → List ℕ → Node → ℕ → ℕ → Node → Fs → Type 0
Ready s bs n cur end m t =
    (left : List ℕ) × GrewTo s bs n cur m t left
    × Origin s bs n m t
    × ((end ≤ m.blocks * 4096) ⊎ ((b : ℕ) → count b (members t.byte left) ≡ 0))

grow-Ready :
    (s : Fs) (bs : List ℕ) (n : Node) (cur size offset : ℕ)
    → IsSmall s bs n cur
    → n.size ≤ n.blocks * 4096
    → offset + size ≤ 49152
    → Returns (Ready s bs n cur (offset + size)) (
        (if ltb n.size (add64 size offset)
            then grow (blocks_for (add64 size offset) - n.blocks) cur n
            else ret n)
          s)
grow-Ready s bs n cur size offset v full fits =
    let end : add64 size offset ≡ offset + size = omega arith in
    rw end (elim (Bool-cases (ltb n.size (offset + size))) [
      | inl longer ↦ rw longer (
          Returns-mono (Extended s bs n cur (blocks_for (offset + size) - n.blocks)) _
            (grow (blocks_for (offset + size) - n.blocks) cur n s)
            (grow-Extended (blocks_for (offset + size) - n.blocks) s bs n cur v
              (let f = v.few in ground arith))
            λ m t (left, g, o, enough). (
              left,
              g,
              o,
              elim enough [
                | inl all ↦ inl (let k = blocks_for_enough (offset + size) in omega arith)
                | inr none_left ↦ inr none_left
              ],
            ))
      | inr within ↦ rw within (
        bs,
        GrewTo-refl s bs n cur v,
        Origin-refl s s bs n n v.few refl refl,
        inl (ground (arith, within)),
      )
    ])
  where
    blocks_for_enough : (end : ℕ) → end ≤ blocks_for end * 4096
    blocks_for_enough end = ground arith

module _ (s : Fs) (bs : List ℕ) (n : Node) (cur : ℕ) (v : IsSmall s bs n cur)
    (now_ok : s.env.clock s.ticks < 2 ^ 64) where
  -- The inode with the new times, and the state after its commit.
  abbrev stamped : Node
  stamped = record n { data_time = s.env.clock s.ticks; change_time = s.env.clock s.ticks }

  abbrev started : Fs
  started = record s {
    byte = store s.byte cur (encode stamped);
    at = cur + 208;
    ticks = s.ticks + 1;
  }

  stamped-IsNode : IsNode stamped
  stamped-IsNode =
      let b = IsNode-TimesOk n (v.placed).node in
      (IsPlaced-stamp s.byte s.size n cur n.access_time (s.env.clock s.ticks) (s.env.clock s.ticks)
        n.size v.placed b.access now_ok now_ok b.size).node

  started-IsSmall : IsSmall started bs stamped cur
  started-IsSmall =
      committed-IsSmall s bs n cur (s.env.clock s.ticks) (s.env.clock s.ticks) (cur + 208)
        (s.ticks + 1) v now_ok now_ok

  Overwrote-Saved :
      (buff : List ℕ) (size offset wrote : ℕ) (g : Node) (left : List ℕ) (u t : Fs)
      → GrewTo started bs stamped cur g u left
      → Overwrote u g cur buff wrote offset
          (record g { size = size_after n.size (offset + wrote) })
          t
      → OnlyBytes u t
      → (wrote ≡ size)
        ⊎ ((wrote ≤ size)
            × (wrote ≡ g.blocks * 4096 - offset)
            × ((b : ℕ) → count b (members u.byte left) ≡ 0))
      → (0 < wrote → offset + wrote ≤ g.blocks * 4096)
      → Origin started bs stamped g u
      → Saved s bs n cur buff size offset wrote
          (record g { size = size_after n.size (offset + wrote) })
          left
          t
  Overwrote-Saved buff size offset wrote g left u t gr ov o amount bounded from =
      let m : Node = record g { size = size_after n.size (offset + wrote) } in
      let p = (gr.small).placed in
      let size_same : t.size ≡ u.size = ap (λ (k : Fs). k.size) o in
      let keeps = Overwrote-KeepsFree u t left g m cur buff wrote offset gr.small ov in
      let free = members-KeepsFree ((gr.small).formatted).list keeps in
      let free' : members started.byte bs ≡ members s.byte bs =
        members-KeepsFree (v.formatted).list
          (committed-KeepsFree s bs n cur v stamped stamped-IsNode) in
      let resize : Node → Node = λ k. record k { size = size_after n.size (offset + wrote) } in
      let before : (x : ℕ) → count x (members u.byte left) ≤ count x (members s.byte bs) =
        λ x. rw (← free') (gr.fewer x) in
      let begun : Origin s bs n g u =
        Origin-trans s started u bs bs n stamped g (λ x. rw free' (omega arith))
          (Origin-refl s started bs n stamped v.few refl refl) from in
      let len = length-encode stamped (length-direct_blocks stamped stamped-IsNode) in
      record {
        amount = rw free amount;
        small = IsSmall-KeepsFree u t left g m cur gr.small ov.placed refl refl size_same keeps;
        stored = ov.node;
        attributes = ap resize gr.same;
        more = gr.more;
        inside = ov.inside;
        outside = λ x h q.
            ov.outside x (omega (arith, gr.more)) q
            ∙ gr.kept x h
            ∙ contents-stamp started.byte n n.access_time (s.env.clock s.ticks)
                (s.env.clock s.ticks) n.size x
            ∙ contents-committed v.placed stamped stamped-IsNode x h;
        bounded = bounded;
        fewer = λ x. rw (free, ← free') (gr.fewer x);
        origin =
            Origin-trans s u t bs left n g m before begun
              (Origin-refl u t left g m (gr.small).few refl refl);
        elsewhere = λ y h off blocks away.
            ov.elsewhere y (
              off,
              λ i l. elim (begun i l) [
                | inl (q, e) ↦ rw e (blocks i q)
                | inr free ↦ away (block_at u.byte g i) free
              ],
            )
            ∙ gr.elsewhere y h off (rw free' away)
            ∙ store_off s.byte cur (encode stamped) y (omega arith);
        only = OnlyBytes-trans started u t gr.only o;
      }

  --
  pub write_node-Saved :
      (buff : List ℕ) (size offset : ℕ)
      → size ≤ length buff
      → length buff < 2 ^ 64
      → n.size ≤ n.blocks * 4096
      → offset + size ≤ 49152
      → Returns
          (λ r t.
            (wrote : ℕ) × (node : Node) × (left : List ℕ) × (r ≡ pos wrote)
            × Saved s bs n cur buff size offset wrote node left t)
          (write_node cur n buff size offset s)
  unfolding write_node time
  write_node-Saved buff size offset enough small full fits =
      let u = v.placed in
      rw
        (commit_inode-ok (record s { ticks = s.ticks + 1 }) cur (omega (arith, u.behind)) u.inside
          stamped stamped-IsNode)
        (Returns-bind (Ready started bs stamped cur (offset + size)) _ _ _
          (grow-Ready started bs stamped cur size offset started-IsSmall full fits)
          λ g w (left, gr, from, ready).
            let wrote : ℕ = min size (g.blocks * 4096 - offset) in
            let b = IsNode-TimesOk n u.node in
            let cap : ℕ = g.blocks * 4096 - offset in
            Returns-mono
              (Done w g cur (gr.small).placed buff size offset n.size wrote enough small
                (omega arith) refl b.size)
              _ _
              (finish-Overwrote w g cur (gr.small).placed buff size offset n.size wrote enough small
                (omega arith) refl b.size)
              λ r t (e, ov, o). (
                wrote,
                record g { size = size_after n.size (offset + wrote) },
                left,
                e ∙ to_int-small wrote (omega arith),
                Overwrote-Saved buff size offset wrote g left w t gr ov o
                    (elim ready [
                      | inl room ↦ inl (omega arith)
                      | inr none_left ↦ elim (Bool-cases (leb size cap)) [
                        | inl room ↦ inl (ground (arith, room))
                        | inr short ↦ inr (omega arith, ground (arith, short), none_left)
                      ]
                    ])
                    (λ p. omega arith) from,
              ))
