-- ===== src/Files/Sparing.antt =====
-- Writes to a file of at most 12 blocks spare the free list.
use tyrant_fs.Base.{ℕ, ◌^◌, ◌<◌, ◌≡◌, ◌≢◌, refl, sym, ap, ◌∙◌, List, arith, get_or}
use tyrant_fs.Base.Bytes.{store}
use tyrant_fs.Device.{Fs}
use tyrant_fs.Inode.{Node, encode}
use tyrant_fs.FreeList.Head.{apart}
use tyrant_fs.FreeList.Frame.{KeepsFree, members-KeepsFree, IsFreeList-KeepsFree}
use tyrant_fs.BlockMap.Address.{block_at}
use tyrant_fs.Files.Placed.{
  IsPlaced, stamp, IsNode-TimesOk, IsPlaced-stamp, IsPlaced-KeepsTables, committed-KeepsTables,
}
use tyrant_fs.Files.Overwrite.{Overwrote}
use tyrant_fs.Files.Small.{IsSmall, block_at-direct, committed-KeepsFree}

-- The same blocks, and a free list that was spared.
pub IsSmall-KeepsFree :
    (s t : Fs) (bs : List ℕ) (n m : Node) (cur : ℕ)
    → IsSmall s bs n cur
    → IsPlaced t.byte t.size m cur
    → m.blocks ≡ n.blocks
    → m.direct_blocks ≡ n.direct_blocks
    → t.size ≡ s.size
    → KeepsFree s.byte t.byte bs
    → IsSmall t bs m cur
IsSmall-KeepsFree s t bs n m cur v placed blocks direct size keeps =
    let free = members-KeepsFree (v.formatted).list keeps in
    record {
      placed = placed;
      few = omega (arith, v.few);
      formatted = record {
        room = omega (arith, (v.formatted).room);
        list = rw size (IsFreeList-KeepsFree (v.formatted).list keeps);
      };
      spared = rw free v.spared;
      used = λ i h.
          let l : i < n.blocks = omega arith in
          let same : block_at t.byte m i ≡ block_at s.byte n i =
            block_at-direct t.byte m i (omega (arith, v.few))
            ∙ ap (λ d. get_or d i 0) direct
            ∙ sym (block_at-direct s.byte n i (omega (arith, v.few))) in
          rw (same, free) (v.used i l);
    }

-- A write within the blocks spares the free list.
pub Overwrote-KeepsFree :
    (s t : Fs) (bs : List ℕ) (n m : Node) (cur : ℕ) (buff : List ℕ) (size offset : ℕ)
    → IsSmall s bs n cur
    → Overwrote s n cur buff size offset m t
    → KeepsFree s.byte t.byte bs
Overwrote-KeepsFree s t bs n m cur buff size offset v w =
    let u = v.placed in
    record {
      first = λ x h.
          w.elsewhere x
            (omega (arith, u.behind), λ i l. omega (arith, ((u.mapped).blocks_ok i l).behind));
      blocks = λ b x p l h.
          let o = v.spared b p in
          w.elsewhere x (
            omega arith,
            λ i q.
                let ne : b ≢ block_at s.byte n i =
                  λ e. absurd (omega (arith, (rw e at p), v.used i q)) in
                let a = apart ((v.formatted).list.valid b p) ((u.mapped).blocks_ok i q) ne in
                omega arith,
          );
    }

-- The inode was committed with other times.
pub committed-IsSmall :
    (s : Fs) (bs : List ℕ) (n : Node) (cur c d at ticks : ℕ)
    → IsSmall s bs n cur
    → c < 2 ^ 64
    → d < 2 ^ 64
    → IsSmall
        (record s {
          byte = store s.byte cur (encode (stamp n n.access_time c d n.size));
          at = at;
          ticks = ticks;
        })
        bs
        (stamp n n.access_time c d n.size)
        cur
committed-IsSmall s bs n cur c d at ticks v c_ok d_ok =
    let u = v.placed in
    let b = IsNode-TimesOk n u.node in
    let m : Node = stamp n n.access_time c d n.size in
    let w =
      IsPlaced-stamp s.byte s.size n cur n.access_time c d n.size u b.access c_ok d_ok b.size in
    IsSmall-KeepsFree s _ bs n m cur v
      (IsPlaced-KeepsTables (store s.byte cur (encode m)) w (committed-KeepsTables w m w.node)) refl
      refl refl (committed-KeepsFree s bs n cur v m w.node)
