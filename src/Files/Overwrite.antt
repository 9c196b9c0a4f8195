-- ===== src/Files/Overwrite.antt =====
-- `tfs_write` from the loop that writes on: what it makes of the contents and of the inode.
use tyrant_fs.Base.{
  ℕ, ◌+◌, ◌-◌, ◌*◌, ◌/◌, ◌%◌, ◌^◌, ◌≤◌, ◌<◌, ◌≡◌, refl, ap, ◌∙◌, ◌⊎◌, List, arith, ltb,
  if◌then◌else◌, length, get_or, min,
}
use tyrant_fs.Base.Bytes.{Memory, store}
use tyrant_fs.Base.Store.{store_off}
use tyrant_fs.Base.Word.{add64}
use tyrant_fs.Base.Int.{ℤ, to_int}
use tyrant_fs.Device.{Fs, pure, ◌>>=◌}
use tyrant_fs.Device.Command.{Run, and_then, Returns, Returns-bind}
use tyrant_fs.Inode.{Node, encode, commit_inode}
use tyrant_fs.Inode.Codec.{length-encode, length-direct_blocks}
use tyrant_fs.Inode.Io.{inode_at, commit_inode-ok, inode_at-store_self}
use tyrant_fs.FreeList.Refine.{OnlyBytes}
use tyrant_fs.BlockMap.Address.{block_at}
use tyrant_fs.Files.{write_loop}
use tyrant_fs.Files.Contents.{contents}
use tyrant_fs.Files.Written.{Written, Written-KeepsTables}
use tyrant_fs.Files.Write.{write_loop-Written, Wrote}
use tyrant_fs.Files.Placed.{
  IsPlaced, IsNode-TimesOk, IsPlaced-stamp, IsPlaced-KeepsTables, committed-KeepsTables,
  contents-committed, contents-stamp,
}
use mathlib.Core.Path.{subst⁻¹}

-- The size of a file of `size` bytes after a write up to byte `end`.
abbrev pub size_after : ℕ → ℕ → ℕ
size_after size end = if ltb end size then size else end

-- A byte that is neither in the inode at `cur` nor in a block of the file.
abbrev pub Elsewhere : Memory → Node → ℕ → ℕ → Type 0
Elsewhere f n cur y =
    ((y < cur) ⊎ (cur + 256 ≤ y))
    × ((i : ℕ) → i < n.blocks → (y < block_at f n i) ⊎ (block_at f n i + 4096 ≤ y))

-- From the file `n` at `cur` to the file `m`: the `size` bytes from `offset` on became the first of
-- `buff`, and nothing else changed but the inode.
pub record Overwrote (s : Fs) (n : Node) (cur : ℕ) (buff : List ℕ) (size offset : ℕ) (m : Node)
    (t : Fs) : Type 0 where
  pub node : inode_at t.byte cur ≡ m
  pub placed : IsPlaced t.byte t.size m cur
  pub inside :
      (x : ℕ) → offset ≤ x → x < offset + size → contents t.byte m x ≡ get_or buff (x - offset) 0
  pub outside :
      (x : ℕ)
      → x < n.blocks * 4096
      → (x < offset) ⊎ (offset + size ≤ x)
      → contents t.byte m x ≡ contents s.byte n x
  pub elsewhere : (y : ℕ) → Elsewhere s.byte n cur y → t.byte y ≡ s.byte y

module _ (s : Fs) (n : Node) (cur : ℕ) (v : IsPlaced s.byte s.size n cur) (buff : List ℕ)
    (size offset old wrote : ℕ) (enough : size ≤ length buff) (small : length buff < 2 ^ 64)
    (end_ok : offset + size < 2 ^ 64) (cut : wrote ≡ min size (n.blocks * 4096 - offset))
    (old_ok : old < 2 ^ 64) where
  -- What is left of `tfs_write` when the blocks are there.
  abbrev pub finish : Run Fs ℤ
  finish =
      (write_loop (n.blocks - offset / 4096) n buff 0 (offset / 4096) (offset % 4096) size
          >>= λ bytes.
              commit_inode (record n { size = size_after old (add64 offset bytes) }) cur >>= λ _.
              pure (to_int bytes))
        s

  abbrev pub Done : ℤ → Fs → Type 0
  Done r t =
      (r ≡ to_int wrote)
      × Overwrote s n cur buff wrote offset (record n { size = size_after old (offset + wrote) }) t
      × OnlyBytes s t

  commit-Done :
      (f : Memory) (p : ℕ)
      → Written s.byte f n (offset / 4096 * 4096 + offset % 4096) wrote buff 0
      → Returns Done (
          and_then
            (commit_inode
              (record n { size = size_after old (offset + wrote) })
              cur
              (record s { byte = f; at = p }))
            (λ x. pure (to_int wrote)))
  commit-Done f p w =
      let m : Node = record n { size = size_after old (offset + wrote) } in
      let reach = (v.mapped).reach in
      let b = IsNode-TimesOk n v.node in
      let keep = Written-KeepsTables v.mapped w in
      let here = IsPlaced-KeepsTables f v keep in
      let there =
        IsPlaced-stamp f s.size n cur n.access_time n.change_time n.data_time
          (size_after old (offset + wrote)) here b.access b.change b.data_ok (ground arith) in
      let g = store f cur (encode m) in
      let len = length-encode m (length-direct_blocks m there.node) in
      rw
        (commit_inode-ok (record s { byte = f; at = p }) cur (omega (arith, v.behind)) v.inside m
          there.node)
        (
          refl,
          record {
            node = inode_at-store_self f cur m there.node;
            placed = IsPlaced-KeepsTables g there (committed-KeepsTables there m there.node);
            inside = λ x p q.
                contents-stamp g n n.access_time n.change_time n.data_time
                  (size_after old (offset + wrote)) x
                ∙ contents-committed here m there.node x (omega arith)
                ∙ w.inside x (omega arith) (omega arith)
                ∙ ap (λ i. get_or buff i 0) (omega arith);
            outside = λ x p q.
                contents-stamp g n n.access_time n.change_time n.data_time
                  (size_after old (offset + wrote)) x
                ∙ contents-committed here m there.node x p
                ∙ w.outside x p (omega arith);
            elsewhere = λ y q. store_off f cur (encode m) y (omega arith) ∙ w.elsewhere y q.1;
          },
          refl,
        )

  pub finish-Overwrote : Returns Done finish
  finish-Overwrote =
      Returns-bind
        (Wrote s n buff (offset / 4096 * 4096 + offset % 4096) 0
          (min size ((n.blocks - offset / 4096) * 4096 - offset % 4096)))
        _ _ _
        (write_loop-Written n buff (n.blocks - offset / 4096) (offset / 4096) (offset % 4096) 0 size
          s v.mapped (omega arith) (omega arith) (omega arith) small)
        λ r t (e, w, o).
          let reach = (v.mapped).reach in
          let amount : wrote ≡ min size ((n.blocks - offset / 4096) * 4096 - offset % 4096) =
            omega arith in
          let end : add64 offset r ≡ offset + wrote = omega arith in
          let done : r ≡ wrote = omega arith in
          rw (end, done)
            (subst⁻¹
              (λ u. Returns Done (
                and_then (commit_inode (record n { size = size_after old (offset + wrote) }) cur u)
                  (λ x. pure (to_int wrote))))
              o (commit-Done t.byte t.at (rw (← amount) at w)))
