-- ===== src/Removal/Shrink.antt =====
-- The last step of `remove_link_from_parent`: the directory's size goes down.
use tyrant_fs.Base.{ℕ, ◌+◌, ◌*◌, ◌/◌, ◌%◌, ◌^◌, ◌≤◌, ◌<◌, ◌≡◌, ◌≢◌, refl, ◌∙◌, ◌⊎◌, arith, ne→==}
use tyrant_fs.Base.Bytes.{Memory, store}
use tyrant_fs.Base.Word.{sub64}
use tyrant_fs.Base.Int.{ℤ, pos}
use tyrant_fs.Device.{Fs, time}
use tyrant_fs.Device.Command.{Returns}
use tyrant_fs.Inode.{Node, encode}
use tyrant_fs.Inode.Io.{inode_at, commit_inode-ok, inode_at-store_self}
use tyrant_fs.BlockMap.Address.{block_at}
use tyrant_fs.Files.Contents.{IsMapped-KeepsTables, KeepsTables-trans}
use tyrant_fs.Files.Placed.{
  IsPlaced, IsPlaced-stamp, IsNode-TimesOk, IsPlaced-KeepsTables, committed-KeepsTables,
  contents-committed,
}
use tyrant_fs.Removal.{shrink}
use tyrant_fs.Removal.Entry.{Removes, OffBlocks}
use tyrant_fs.Files.Nodes.{OneTick}
use tyrant_fs.Base.Store.{store_off}
use tyrant_fs.Inode.Codec.{length-encode, length-direct_blocks}

-- A directory of `last + 1` entries in as many blocks as they fill, at `parent`.
pub record IsDirectory (s : Fs) (d : Node) (parent last : ℕ) : Type 0 where
  pub placed : IsPlaced s.byte s.size d parent
  pub size : d.size ≡ (last + 1) * 256
  pub blocks : d.blocks ≡ last / 16 + 1

-- The directory without the entry.
abbrev pub shrunk : Node → ℕ → ℕ → Node
shrunk d last now = record d { size = last * 256; data_time = now; change_time = now }

abbrev pub Unlisted : Fs → Node → ℕ → ℕ → ℕ → ℤ → Fs → Type 0
Unlisted s d parent q last r t =
    (r ≡ pos 0)
    × (inode_at t.byte parent ≡ shrunk d last (s.env.clock s.ticks))
    × Removes s.byte t.byte s.size d q last
    × ((y : ℕ) → (y < parent) ⊎ (parent + 256 ≤ y) → OffBlocks s.byte d y → t.byte y ≡ s.byte y)
    × OneTick s t

module _ (s : Fs) (d : Node) (parent q last : ℕ) (v : IsDirectory s d parent last) (l : q ≤ last)
    (partial : last % 16 ≢ 0) (now_ok : s.env.clock s.ticks < 2 ^ 64) where
  -- The end of the removal, behind the writes to the blocks.
  pub shrink-Unlisted :
      (g : Memory) (p : ℕ)
      → Removes s.byte g s.size d q last
      → ((y : ℕ) → OffBlocks s.byte d y → g y ≡ s.byte y)
      → Returns
          (Unlisted s d parent q last)
          (shrink d parent (block_at s.byte d (last / 16)) (record s { byte = g; at = p }))
  unfolding shrink time
  shrink-Unlisted g p w elsewhere =
      let u = v.placed in
      let full = v.size in
      let b = IsNode-TimesOk d u.node in
      let now = s.env.clock s.ticks in
      let m : Node = shrunk d last now in
      let here = IsPlaced-KeepsTables g u w.kept_tables in
      let there =
        IsPlaced-stamp g s.size d parent d.access_time now now (last * 256) here b.access now_ok
          now_ok (omega (arith, b.size)) in
      let smaller : sub64 d.size 256 ≡ last * 256 = omega (arith, b.size) in
      let some_left : last * 256 % 4096 ≢ 0 = omega arith in
      let keep = committed-KeepsTables here m there.node in
      rw
        (
          smaller,
          ne→== (last * 256 % 4096) 0 some_left,
          commit_inode-ok (record s { byte = g; at = p; ticks = s.ticks + 1 }) parent
              (omega (arith, u.behind)) u.inside m there.node,
        )
        (
          refl,
          inode_at-store_self g parent m there.node,
          record {
            mapped = IsMapped-KeepsTables (store g parent (encode m)) here.mapped keep;
            kept_tables =
                KeepsTables-trans g (store g parent (encode m)) u.mapped w.kept_tables keep;
            cleared = λ o h.
                contents-committed here m there.node (last * 256 + o) (omega (arith, v.blocks))
                ∙ w.cleared o h;
            moved = λ ne o h.
                contents-committed here m there.node (q * 256 + o) (omega (arith, v.blocks))
                ∙ w.moved ne o h;
            others = λ r o i ne ne' h.
                contents-committed here m there.node (r * 256 + o) (omega (arith, v.blocks))
                ∙ w.others r o i ne ne' h;
          },
          λ y o off.
              store_off g parent (encode m) y
                (omega (arith, length-encode m (length-direct_blocks m there.node)))
              ∙ elsewhere y off,
          refl,
        )
