-- ===== src/Unlink/File.antt =====
-- The removal of a regular file whose last link goes (`unlink_from`, `sub_unlink`).
use tyrant_fs.Base.{
  ℕ, suc, ◌+◌, ◌^◌, ◌≤◌, ◌<◌, ◌≡◌, ◌≢◌, refl, ap, ◌∙◌, ◌⊎◌, inl, inr, List, false, arith, length,
  replicate, length-replicate, ne→==, zero, Bool-cases, ◌==◌, ==→eq, ltb, ltb→lt,
}
use tyrant_fs.Base.Bytes.{Memory, store}
use tyrant_fs.Base.Store.{store_off}
use tyrant_fs.Base.Word.{sub32}
use tyrant_fs.Base.Int.{ℤ, pos}
use tyrant_fs.Device.{Fs, time}
use tyrant_fs.Device.Command.{ret, Returns, Returns-bind}
use tyrant_fs.Inode.{Node, encode, free_inode}
use tyrant_fs.Inode.Codec.{length-encode, length-direct_blocks}
use tyrant_fs.Inode.Io.{
  inode_at, fetch_inode-ok, fetch_new-ok, commit_inode-ok, free_inode-ok, free_inode_lem,
}
use tyrant_fs.FreeList.Chain.{count, members}
use tyrant_fs.FreeList.Frame.{KeepsFree, members-KeepsFree, IsFreeList-KeepsFree, store-KeepsFree}
use tyrant_fs.FreeList.Refine.{IsFormatted}
use tyrant_fs.BlockMap.Address.{block_at}
use tyrant_fs.Removal.{remove_link_from_parent}
use tyrant_fs.Files.Contents.{same_address}
use tyrant_fs.Files.Placed.{Off, committed-KeepsTables}
use tyrant_fs.Unlink.{is_dir, free_blocks_up, free_blocks_down, unlink_from, sub_unlink}
use tyrant_fs.Unlink.Owned.{block_list, block_list_congr, Owns-sub, Gained}
use tyrant_fs.Unlink.Blocks.{GivesBack, free_blocks_up-GivesBack, free_blocks_down-GivesBack}
use tyrant_fs.Unlink.Counted.{
  IsFile, relinked, after-members, block_list-relinked, relinked-IsNode, counted, counted-IsFile,
  relinked-IsFile,
}

-- The file at `cur` is gone: its blocks are free, and so is its inode.
pub record Removed (s : Fs) (bs : List ℕ) (n : Node) (cur : ℕ) (t : Fs) (bs' : List ℕ)
    : Type 0 where
  pub formatted : IsFormatted t bs'
  pub rest :
      (x : ℕ)
      → count x (members t.byte bs')
        ≡ count x (block_list s.byte n 0 n.blocks) + count x (members s.byte bs)
  pub unused : (inode_at t.byte cur).mode ≡ 0
  pub kept :
      (y : ℕ)
      → 8 ≤ y
      → (y < cur) ⊎ (cur + 256 ≤ y)
      → ((b : ℕ) → 0 < count b (members t.byte bs') → (y < b) ⊎ (b + 4096 ≤ y))
      → t.byte y ≡ s.byte y

-- What holds of the blocks of the file holds of a block of the list.
pub count-block_list-All :
    (P : ℕ → Type 0) (f : Memory) (n : Node) (x i k : ℕ)
    → ((j : ℕ) → i ≤ j → j < i + k → P (block_at f n j))
    → 0 < count x (block_list f n i k)
    → P x
unfolding block_list count
count-block_list-All P f n x i zero each p = absurd (omega arith)
count-block_list-All P f n x i (suc k) each p = elim (Bool-cases (x == block_at f n i)) [
  | inl e ↦ let z = ==→eq x (block_at f n i) e in rw z (each i (omega arith) (omega arith))
  | inr ne ↦
      count-block_list-All P f n x (i + 1) k (λ j a b. each j (omega arith) (omega arith))
        (ground (arith, p, ne))
]

-- After the release of blocks of the file, the free list spares the inode's place still.
pub given_Off :
    (s t : Fs) (bs bs' : List ℕ) (n : Node) (cur i k : ℕ)
    → IsFile s bs n cur
    → Gained s bs (block_list s.byte n i k) t bs'
    → ((j : ℕ) → i ≤ j → j < i + k → j < n.blocks)
    → (b : ℕ) → 0 < count b (members t.byte bs')
    → Off cur b
given_Off s t bs bs' n cur i k v g fits b q =
    elim (Bool-cases (ltb 0 (count b (block_list s.byte n i k)))) [
      | inl own ↦
          count-block_list-All (Off cur) s.byte n b i k (λ j a l. (v.placed).off j (fits j a l))
            (ltb→lt 0 _ own)
      | inr other ↦ v.spared b (let r = g.rest b in ground (arith, other))
    ]

-- Behind the release of all blocks, the inode is cleared.
clear_inode :
    (s : Fs) (bs : List ℕ) (n : Node) (cur : ℕ)
    → IsFile s bs n cur
    → (t : Fs) → GivesBack s bs (block_list s.byte n 0 n.blocks) t
    → Returns (λ r u. (r ≡ pos 0) × ((bs' : List ℕ) × Removed s bs n cur u bs')) (free_inode cur t)
clear_inode s bs n cur v t (bs', g) =
    let p = v.placed in
    let size : t.size ≡ s.size = ap (λ (u : Fs). u.size) g.only in
    let zeros : List ℕ = replicate 256 0 in
    let len : length zeros ≡ 256 = length-replicate {0} {A = ℕ} 256 0 in
    let done = free_inode-ok t cur (omega (arith, p.behind)) (omega (arith, p.inside)) in
    let cleared = free_inode_lem t cur (omega (arith, p.behind)) (omega (arith, p.inside)) in
    let spared = given_Off s t bs bs' n cur 0 n.blocks v g (λ j a l. omega arith) in
    let keeps : KeepsFree t.byte (store t.byte cur zeros) bs' =
      store-KeepsFree t.byte cur zeros bs' 256 (omega arith) (omega (arith, p.behind)) spared in
    rw done (
      refl,
      (
        bs',
        record {
          formatted = record {
            room = (g.formatted).room;
            list = IsFreeList-KeepsFree (g.formatted).list keeps;
          };
          rest = rw (members-KeepsFree (g.formatted).list keeps) g.rest;
          unused = ((rw done at cleared).1);
          kept = λ y h off away.
              store_off t.byte cur zeros y (omega arith)
              ∙ g.kept y h (rw (← members-KeepsFree (g.formatted).list keeps) away);
        },
      ),
    )

module _ (s : Fs) (bs : List ℕ) (n : Node) (cur : ℕ) (v : IsFile s bs n cur) (l c : ℕ)
    (l_ok : l < 2 ^ 32) (c_ok : c < 2 ^ 64) (at ticks : ℕ) where
  -- What is removed behind the commit, seen from before it.
  counted-Removed :
      (t : Fs) (bs' : List ℕ)
      → Removed (counted s bs n cur v l c l_ok c_ok at ticks) bs (relinked n l c) cur t bs'
      → Removed s bs n cur t bs'
  counted-Removed t bs' g =
      let m = (v.placed).mapped in
      let len = length-encode (relinked n l c) (
        length-direct_blocks (relinked n l c)
          (relinked-IsNode s bs n cur v l c l_ok c_ok at ticks)) in
      let keep =
        committed-KeepsTables v.placed (relinked n l c)
          (relinked-IsNode s bs n cur v l c l_ok c_ok at ticks) in
      let blocks : block_list (counted s bs n cur v l c l_ok c_ok at ticks).byte (relinked n l c) 0
            n.blocks
          ≡ block_list s.byte n 0 n.blocks =
        block_list-relinked (counted s bs n cur v l c l_ok c_ok at ticks).byte n l c 0 n.blocks
        ∙ block_list_congr s.byte (counted s bs n cur v l c l_ok c_ok at ticks).byte n 0 n.blocks
            (omega arith)
            (same_address (counted s bs n cur v l c l_ok c_ok at ticks).byte m keep) in
      let free =
        after-members s bs n cur v (relinked n l c)
          (relinked-IsNode s bs n cur v l c l_ok c_ok at ticks) at ticks in
      record {
        formatted = g.formatted;
        rest = λ x. rw (← blocks, ← free) (g.rest x);
        unused = g.unused;
        kept = λ y h off away.
            g.kept y h off away ∙ store_off s.byte cur (encode (relinked n l c)) y (omega arith);
      }

-- The last link of a regular file goes: what the two functions do behind `remove_link_from_parent`.
abbrev pub Unlinked : Fs → List ℕ → Node → ℕ → ℤ → Fs → Type 0
Unlinked s bs n cur r t = (r ≡ pos 0) × ((bs' : List ℕ) × Removed s bs n cur t bs')

pub unlink_from-Unlinked :
    (fuel parent cur k : ℕ) (buff : Node) (s u : Fs) (bs : List ℕ)
    → remove_link_from_parent parent cur s ≡ ret (pos k) u
    → IsFile u bs (inode_at u.byte cur) cur
    → length buff.direct_blocks ≡ 12
    → parent ≢ 0
    → parent + 256 ≤ u.size
    → u.env.clock u.ticks < 2 ^ 64
    → (inode_at u.byte cur).links ≡ 1
    → is_dir (inode_at u.byte cur).mode ≡ false
    → Returns (Unlinked u bs (inode_at u.byte cur) cur) (unlink_from fuel parent cur buff s)
unfolding unlink_from time
unlink_from-Unlinked fuel parent cur k buff s u bs removed v full ne inside now_ok one file =
    let p = v.placed in
    let n : Node = inode_at u.byte cur in
    let now = u.env.clock u.ticks in
    let gone : sub32 n.links 1 ≡ 0 = omega arith in
    let ok = relinked-IsNode u bs n cur v 0 now (omega arith) now_ok (cur + 208) (u.ticks + 1) in
    rw
      (
        removed,
        fetch_inode-ok u cur (omega (arith, p.behind)) p.inside buff full,
        fetch_new-ok (record u { at = cur + 208 }) parent ne inside,
        gone,
        commit_inode-ok (record u { at = parent + 208; ticks = u.ticks + 1 }) cur
            (omega (arith, p.behind)) p.inside (relinked n 0 now) ok,
        file,
      )
      (let t : Fs = counted u bs n cur v 0 now (omega arith) now_ok (cur + 208) (u.ticks + 1) in
        let w = counted-IsFile u bs n cur v 0 now (omega arith) now_ok (cur + 208) (u.ticks + 1) in
        Returns-bind (λ r x. GivesBack t bs (block_list t.byte (relinked n 0 now) 0 n.blocks) x) _
          (free_blocks_up n.blocks 0 (relinked n 0 now) t) _
          (free_blocks_up-GivesBack n.blocks 0 t bs (relinked n 0 now) w.owns (omega arith))
          λ r x given.
            Returns-bind (Unlinked t bs (relinked n 0 now) cur) _ (free_inode cur x) _
              (clear_inode t bs (relinked n 0 now) cur w x given)
              λ r y (e, (bs', g)). (
                refl,
                (
                  bs',
                  counted-Removed u bs n cur v 0 now (omega arith) now_ok (cur + 208) (u.ticks + 1)
                      y bs' g,
                ),
              ))

pub sub_unlink-Unlinked :
    (fuel parent cur k : ℕ) (s u : Fs) (bs : List ℕ)
    → remove_link_from_parent parent cur s ≡ ret (pos k) u
    → IsFile u bs (inode_at u.byte cur) cur
    → parent ≢ 0
    → parent + 256 ≤ u.size
    → (inode_at u.byte cur).links ≡ 1
    → is_dir (inode_at u.byte cur).mode ≡ false
    → Returns (Unlinked u bs (inode_at u.byte cur) cur) (sub_unlink (suc fuel) parent cur s)
unfolding sub_unlink
sub_unlink-Unlinked fuel parent cur k s u bs removed v ne inside one file =
    let p = v.placed in
    let n : Node = inode_at u.byte cur in
    let gone : sub32 n.links 1 ≡ 0 = omega arith in
    let m : Node = relinked n 0 n.change_time in
    let here : Fs = record u { at = cur + 208 } in
    let w = relinked-IsFile u bs n cur 0 (cur + 208) v (omega arith) in
    rw
      (
        ne→== parent 0 ne,
        ne→== cur 0 (omega (arith, p.behind)),
        removed,
        fetch_new-ok u parent ne inside,
        fetch_new-ok (record u { at = parent + 208 }) cur (omega (arith, p.behind)) p.inside,
        gone,
        file,
      )
      (Returns-bind (λ r x. GivesBack here bs (block_list here.byte m 0 n.blocks) x) _
        (free_blocks_down n.blocks m here) _
        (free_blocks_down-GivesBack n.blocks here bs m
          (Owns-sub here bs m (λ j. 0 ≤ j) (λ j. j < n.blocks) (λ j h q. omega arith) w.owns)
          (omega arith))
        λ r x given.
          Returns-bind (Unlinked here bs m cur) _ (free_inode cur x) _
            (clear_inode here bs m cur w x given)
            λ r y (e, (bs', g)). (
              refl,
              (
                bs',
                record {
                  formatted = g.formatted;
                  rest = λ x.
                      rw (← block_list-relinked u.byte n 0 n.change_time 0 n.blocks) (g.rest x);
                  unused = g.unused;
                  kept = g.kept;
                },
              ),
            ))
