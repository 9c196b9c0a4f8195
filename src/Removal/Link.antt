-- ===== src/Removal/Link.antt =====
-- `remove_link_from_parent`: the entry of an inode leaves a directory.
use tyrant_fs.Base.{
  ℕ, ◌+◌, ◌*◌, ◌/◌, ◌%◌, ◌^◌, ◌≤◌, ◌<◌, ◌≡◌, ◌≢◌, refl, sym, ap, ◌∙◌, ◌⊎◌, inl, inr, arith, ◌==◌,
  Bool-cases, ne→==, length, replicate, length-replicate,
}
use tyrant_fs.Base.Bytes.{Memory, bytes_at, length-bytes_at, overlay_full}
use tyrant_fs.Base.Word.{sub64}
use tyrant_fs.Base.Int.{negsuc, int_u64, int_u64-small}
use tyrant_fs.Device.{Fs}
use tyrant_fs.Device.Command.{ret, Returns}
use tyrant_fs.Inode.{Node}
use tyrant_fs.Inode.Io.{inode_at, fetch_new-ok}
use tyrant_fs.Inode.Search.{OnlyAt}
use tyrant_fs.BlockMap.{get_i_block}
use tyrant_fs.BlockMap.Address.{block_at}
use tyrant_fs.Directory.{stale_bytes}
use tyrant_fs.Files.Contents.{IsMapped}
use tyrant_fs.Files.Placed.{IsNode-TimesOk}
use tyrant_fs.Files.Read.{Returns-bind_at, get_i_block-IsMapped}
use tyrant_fs.Removal.{move_last, remove_entry, remove_link_from_parent}
use tyrant_fs.Removal.Search.{IsFirst, entry_address, blocks_loop-first, blocks_loop-none}
use tyrant_fs.Removal.Entry.{
  write_entry, read_entry_bytes, blanked, blanked-IsMapped, blanked-Removes, last_bytes, refilled,
  refilled-IsMapped, moved_up, moved_up-Removes, put_address, blanked-elsewhere, moved_up-elsewhere,
}
use tyrant_fs.Block.{write_block}
use tyrant_fs.Removal.Shrink.{IsDirectory, Unlisted, shrink-Unlisted}

module _ (s : Fs) (d : Node) (parent q last : ℕ) (v : IsDirectory s d parent last) (l : q ≤ last)
    (partial : last % 16 ≢ 0) (now_ok : s.env.clock s.ticks < 2 ^ 64) where
  in_blocks : last / 16 < d.blocks
  in_blocks = let b = v.blocks in omega arith

  entry_in : q / 16 < d.blocks
  entry_in = let b = v.blocks in omega arith

  abbrev mapped : IsMapped s.byte s.size d
  mapped = (v.placed).mapped

  -- The memory after each write.
  abbrev bare : Memory
  bare = blanked mapped q last entry_in in_blocks

  abbrev again : Memory
  again = refilled mapped q last entry_in in_blocks

  bare-IsMapped : IsMapped bare s.size d
  bare-IsMapped = blanked-IsMapped mapped q last entry_in in_blocks

  again-IsMapped : IsMapped again s.size d
  again-IsMapped = refilled-IsMapped mapped q last entry_in in_blocks

  bare_address : (i : ℕ) → i < d.blocks → block_at bare d i ≡ block_at s.byte d i
  bare_address =
      put_address mapped q (replicate 256 0) entry_in (length-replicate {0} {A = ℕ} 256 0)

  again_address : (i : ℕ) → i < d.blocks → block_at again d i ≡ block_at bare d i
  again_address =
      put_address bare-IsMapped q (last_bytes mapped q last entry_in in_blocks) entry_in
        (length-bytes_at bare _ 256)

  move_last_lem :
      (p : ℕ)
      → move_last
          (block_at bare d (last / 16))
          (last % 16 * 256)
          (block_at bare d (q / 16))
          (q % 16 * 256)
          (record s { byte = bare; at = p })
        ≡ ret tt (record s {
          byte = moved_up mapped q last entry_in in_blocks;
          at = block_at again d (last / 16) + last % 16 * 256 + 256;
        })
  unfolding move_last stale_bytes
  move_last_lem p =
      let u : Fs = record s { byte = bare; at = p } in
      let r = read_entry_bytes u d last bare-IsMapped in_blocks in
      let bs = last_bytes mapped q last entry_in in_blocks in
      let full : length bs ≡ 256 =
        length-bytes_at bare (block_at bare d (last / 16) + last % 16 * 256) 256 in
      let whole =
        overlay_full bs (bytes_at s.env.stale 0 256)
          (omega (arith, full, length-bytes_at s.env.stale 0 256)) in
      let w1 =
        write_entry (record u { at = block_at bare d (last / 16) + last % 16 * 256 + 256 }) d q bs
          bare-IsMapped entry_in full in
      let t : Fs = record s { byte = again; at = block_at bare d (q / 16) + q % 16 * 256 + 256 } in
      let w2 =
        ap (λ b. write_block (replicate 256 0) b (last % 16 * 256) 256 t)
          (sym (again_address (last / 16) in_blocks))
        ∙ write_entry t d last (replicate 256 0) again-IsMapped in_blocks
            (length-replicate {0} {A = ℕ} 256 0) in
      rw (r, whole, w1, w2) refl

  remove_entry-Unlisted :
      (p : ℕ)
      → (q ≡ last) ⊎ ((last + 1) % 16 ≢ 0)
      → d.blocks ≤ 524288
      → Returns (Unlisted s d parent q last) (
          remove_entry d parent
            (q / 16)
            (q % 16 * 256)
            (block_at s.byte d (q / 16))
            (record s { at = p }))
  unfolding remove_entry
  remove_entry-Unlisted p movable few =
      let b = v.blocks in
      let full = v.size in
      let times = IsNode-TimesOk d (v.placed).node in
      let small = times.size in
      let w1 =
        write_entry (record s { at = p }) d q (replicate 256 0) mapped entry_in
          (length-replicate {0} {A = ℕ} 256 0) in
      let final : sub64 d.blocks 1 ≡ last / 16 = let r = mapped.reach in omega arith in
      let ne : block_at s.byte d (last / 16) ≢ 0 =
        let k = (mapped.blocks_ok (last / 16) in_blocks).behind in omega arith in
      let place : int_u64 (q % 16 * 256 + q / 16 * 4096) ≡ q * 256 =
        int_u64-small (q % 16 * 256 + q / 16 * 4096) (omega arith) ∙ omega arith in
      let end : sub64 d.size 256 ≡ last * 256 = omega arith in
      rw (w1, final)
        (Returns-bind_at (λ x. x ≡ block_at bare d (last / 16)) _ (record s { byte = bare })
          (get_i_block d (last / 16)
            (record s { byte = bare; at = block_at s.byte d (q / 16) + q % 16 * 256 + 256 }))
          _
          (get_i_block-IsMapped d (last / 16)
            (record s { byte = bare; at = block_at s.byte d (q / 16) + q % 16 * 256 + 256 })
            bare-IsMapped in_blocks)
          λ x p' e.
            rw
              (
                e,
                bare_address (last / 16) in_blocks,
                ne→== (block_at s.byte d (last / 16)) 0 ne,
                place,
                end,
              )
              (elim (Bool-cases (q * 256 == last * 256)) [
                | inl at_end ↦
                    let same : q ≡ last = ground (arith, at_end) in
                    rw at_end (
                      shrink-Unlisted s d parent q last v l partial now_ok bare p'
                        (blanked-Removes mapped q last entry_in in_blocks same)
                        (blanked-elsewhere mapped q last entry_in in_blocks))
                | inr inner ↦
                    let differ : q ≢ last = ground (arith, inner) in
                    let offset : sub64 (d.size % 4096) 256 ≡ last % 16 * 256 = omega arith in
                    let moves =
                      ap
                        (λ y.
                          move_last y (last % 16 * 256) (block_at s.byte d (q / 16)) (q % 16 * 256)
                            (record s { byte = bare; at = p' }))
                        (sym (bare_address (last / 16) in_blocks))
                      ∙ ap
                          (λ y.
                            move_last (block_at bare d (last / 16)) (last % 16 * 256) y
                              (q % 16 * 256) (record s { byte = bare; at = p' }))
                          (sym (bare_address (q / 16) entry_in))
                      ∙ move_last_lem p' in
                    rw (inner, offset, moves)
                      (shrink-Unlisted s d parent q last v l partial now_ok _ _
                        (moved_up-Removes mapped q last entry_in in_blocks differ)
                        (moved_up-elsewhere mapped q last entry_in in_blocks))
              ]))

-- On a directory of at most 524288 blocks, which keeps the offsets of its entries within an `int`, whose
-- inode lies apart from its blocks, whose entries fill its blocks, and whose last block holds more than
-- one entry, with a clock of 64 bits, and for `cur` not 0: if no entry has the address `cur`,
-- `remove_link_from_parent` ends with -1 and changes nothing but the file position. If entry `q` is the
-- first that has it, and is the last or the last block is not full, it ends with 0; the last entry
-- moves to the place of `q`, zeros stand in its own, the other entries stay, and the inode on the
-- device has its size lowered by an entry and new times, and no byte outside the inode and the
-- directory's blocks changes.
pub remove_link_from_parent_lem :
    (s : Fs) (parent cur last : ℕ)
    → IsDirectory s (inode_at s.byte parent) parent last
    → cur ≢ 0
    → last % 16 ≢ 0
    → (inode_at s.byte parent).blocks ≤ 524288
    → s.env.clock s.ticks < 2 ^ 64
    → ((q : ℕ)
        → q ≤ last
        → IsFirst s.byte (inode_at s.byte parent) cur q
        → (q ≡ last) ⊎ ((last + 1) % 16 ≢ 0)
        → Returns
            (Unlisted s (inode_at s.byte parent) parent q last)
            (remove_link_from_parent parent cur s))
      × (((q : ℕ) → q ≤ last → entry_address s.byte (inode_at s.byte parent) q ≢ cur)
          → Returns (λ r t. (r ≡ negsuc 0) × OnlyAt s t) (remove_link_from_parent parent cur s))
unfolding remove_link_from_parent
remove_link_from_parent_lem s parent cur last v ne partial few now_ok =
    let u = v.placed in
    let d : Node = inode_at s.byte parent in
    let b = v.blocks in
    let full = v.size in
    rw
      (
        ne→== parent 0 (omega (arith, u.behind)),
        ne→== cur 0 ne,
        fetch_new-ok s parent (omega (arith, u.behind)) u.inside,
      )
      (
        (λ q l first movable.
            blocks_loop-first s d cur u.mapped (remove_entry d parent) few
              (Unlisted s d parent q last) q d.blocks 0 0 (parent + 208) (omega arith) (omega arith)
              (omega arith) (omega arith) first.here first.before
              λ p. remove_entry-Unlisted s d parent q last v l partial now_ok p movable few),
        (λ other.
            blocks_loop-none s d cur u.mapped (remove_entry d parent) few d.blocks 0 0
              (parent + 208) (omega arith) λ k h. other k (omega arith)),
      )
