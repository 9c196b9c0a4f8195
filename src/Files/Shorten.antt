-- ===== src/Files/Shorten.antt =====
-- The loop of `tfs_truncate`, which lowers the number of blocks while it counts its index up.
use tyrant_fs.Base.{
  ℕ, zero, suc, ◌+◌, ◌-◌, ◌/◌, ◌^◌, ◌≤◌, ◌<◌, ◌≡◌, refl, ap, ◌∙◌, inl, inr, List, ◌∷◌, arith, ltb,
  ltb→lt, le→leb, Bool-cases, false, ◌==◌,
}
use tyrant_fs.Base.Bytes.{Memory}
use tyrant_fs.Base.Word.{add32, sub64}
use tyrant_fs.Base.Int.{negsuc, is_neg}
use tyrant_fs.Device.{Fs}
use tyrant_fs.Device.Command.{ret, Returns, Returns-mono}
use tyrant_fs.Inode.{Node}
use tyrant_fs.FreeList.{free_block}
use tyrant_fs.FreeList.Refine.{IsFormatted}
use tyrant_fs.BlockMap.{get_i_block}
use tyrant_fs.BlockMap.Address.{block_at, tables}
use tyrant_fs.Files.{truncate_loop}
use tyrant_fs.Files.Contents.{same_address}
use tyrant_fs.Unlink.{release}
use tyrant_fs.Unlink.Owned.{
  Owns, block_list, block_list_congr, release-Freed, Freed-KeepsTables, Freed-Owns, Gained-none,
  Gained-cons, Owns-sub,
}
use tyrant_fs.Unlink.Blocks.{GivesBack}

-- The inode with fewer blocks.
abbrev pub shortened : Node → ℕ → Node
shortened n b = record n { blocks = b }

Owns-shortened :
    (s : Fs) (bs : List ℕ) (n : Node) (P : ℕ → Type 0) (b : ℕ)
    → Owns s bs n P
    → b ≤ n.blocks
    → Owns s bs (shortened n b) P
unfolding block_at tables
Owns-shortened s bs n P b v l =
    let m = v.mapped in
    record {
      mapped = record {
        small = m.small;
        reach = omega (arith, m.reach);
        tables_ok = λ i h. m.tables_ok i (omega arith);
        blocks_ok = λ i h. m.blocks_ok i (omega arith);
        distinct = λ i j h k. m.distinct i j (omega arith) (omega arith);
        no_table = λ i j h k. m.no_table i j (omega arith) (omega arith);
      };
      formatted = v.formatted;
      opened = v.opened;
      used = λ j p h. v.used j p (omega arith);
      tables_used = λ j h. v.tables_used j (omega arith);
    }

block_list-shortened :
    (f : Memory) (n : Node) (b i k : ℕ) → block_list f (shortened n b) i k ≡ block_list f n i k
unfolding block_list block_at
block_list-shortened f n b i zero = refl
block_list-shortened f n b i (suc k) =
    ap (λ t. block_at f n i ∷ t) (block_list-shortened f n b (i + 1) k)

-- A block behind the last is not found, and address 0 is not released.
get_i_block-behind : (n : Node) (i : ℕ) (s : Fs) → n.blocks ≤ i → get_i_block n i s ≡ ret 0 s
unfolding get_i_block
get_i_block-behind n i s h = elim (Bool-cases (n.blocks == 0)) [
  | inl none ↦ rw none refl
  | inr more ↦ rw (more, le→leb n.blocks i h) refl
]

release-none : (s : Fs) → is_neg s.globals.drive ≡ false → release 0 s ≡ ret (negsuc 0) s
unfolding release free_block
release-none s opened = rw opened refl

-- Every second block from `i` on is released, from the first on.
abbrev pub released : ℕ → ℕ → ℕ
released i b = (b + 1 - i) / 2

abbrev pub Shortened : Fs → List ℕ → Node → ℕ → ℕ → Node → Fs → Type 0
Shortened s bs n i rounds m t =
    (m ≡ shortened n (n.blocks - rounds))
    × GivesBack s bs (block_list s.byte n i (released i n.blocks)) t

-- The end of the loop.
Shortened-none :
    (s : Fs) (bs : List ℕ) (n : Node) (i rounds : ℕ)
    → IsFormatted s bs
    → rounds ≡ 0
    → released i n.blocks ≡ 0
    → Shortened s bs n i rounds n s
unfolding block_list
Shortened-none s bs n i rounds v z r =
    let same : n.blocks ≡ n.blocks - rounds = omega arith in
    rw r (ap (shortened n) same, (bs, Gained-none s bs v))

pub truncate_loop-Shortened :
    (k i total : ℕ) (s : Fs) (bs : List ℕ) (n : Node)
    → Owns s bs n (λ j. i ≤ j)
    → 0 < k
    → total < i + k
    → total ≤ i + n.blocks
    → n.blocks ≤ total
    → total < 2 ^ 32
    → Returns (Shortened s bs n i (total - i)) (truncate_loop k i total n s)
unfolding truncate_loop block_list
truncate_loop-Shortened zero i total s bs n v some fuel few most small = absurd (omega arith)
truncate_loop-Shortened (suc k) i total s bs n v some fuel few most small =
    elim (Bool-cases (ltb i total)) [
      | inr done ↦
          let l : total ≤ i = ground (arith, done) in
          rw done (Shortened-none s bs n i (total - i) v.formatted (omega arith) (omega arith))
      | inl going ↦
          let l : i < total = ltb→lt i total going in
          let next : add32 i 1 ≡ i + 1 = omega arith in
          let fewer : sub64 n.blocks 1 ≡ n.blocks - 1 = let r = (v.mapped).reach in omega arith in
          let rounds : n.blocks - 1 - (total - (i + 1)) ≡ n.blocks - (total - i) = omega arith in
          rw (going, next, fewer)
            (elim (Bool-cases (ltb i n.blocks)) [
              | inl here ↦
                  let h : i < n.blocks = ltb→lt i n.blocks here in
                  let count_up : released i n.blocks ≡ suc (released (i + 1) (n.blocks - 1)) =
                    omega arith in
                  release-Freed s bs n (λ j. i ≤ j) v i (omega arith) h _
                    (truncate_loop k (i + 1) total (shortened n (n.blocks - 1)))
                    λ t d.
                      let keep = Freed-KeepsTables s bs n (λ j. i ≤ j) v i (omega arith) h t d in
                      let w =
                        Freed-Owns s bs n (λ j. i ≤ j) v i (omega arith) h (λ j. i + 1 ≤ j) t d
                          (λ j q. (omega arith, omega arith)) in
                      Returns-mono
                        (Shortened t d.0 (shortened n (n.blocks - 1)) (i + 1) (total - (i + 1))) _ _
                        (truncate_loop-Shortened k (i + 1) total t d.0 (shortened n (n.blocks - 1))
                          (Owns-shortened t d.0 n (λ j. i + 1 ≤ j) (n.blocks - 1) w (omega arith))
                          (omega arith) (omega arith) (omega arith) (omega arith) small)
                        λ m u (e, (bs', g)).
                          let rest = released (i + 1) (n.blocks - 1) in
                          let same : block_list t.byte (shortened n (n.blocks - 1)) (i + 1) rest
                              ≡ block_list s.byte n (i + 1) rest =
                            block_list-shortened t.byte n (n.blocks - 1) (i + 1) rest
                            ∙ block_list_congr s.byte t.byte n (i + 1) rest (omega arith)
                                (same_address t.byte v.mapped keep) in
                          (
                            e ∙ ap (shortened n) rounds,
                            (
                              bs',
                              rw count_up (
                                  Gained-cons s t u bs bs' (block_at s.byte n i)
                                    (block_list s.byte n (i + 1) rest) d
                                    (omega (arith, ((v.mapped).blocks_ok i h).behind))
                                    (rw same at g)),
                            ),
                          )
              | inr behind ↦
                  let h : n.blocks ≤ i = ground (arith, behind) in
                  let none : released i n.blocks ≡ 0 = omega arith in
                  let none' : released (i + 1) (n.blocks - 1) ≡ 0 = omega arith in
                  rw (get_i_block-behind n i s h, release-none s v.opened)
                    (Returns-mono
                      (Shortened s bs (shortened n (n.blocks - 1)) (i + 1) (total - (i + 1))) _ _
                      (truncate_loop-Shortened k (i + 1) total s bs (shortened n (n.blocks - 1))
                        (Owns-shortened s bs n (λ j. i + 1 ≤ j) (n.blocks - 1)
                          (Owns-sub s bs n (λ j. i ≤ j) (λ j. i + 1 ≤ j) (λ j q r. omega arith) v)
                          (omega arith))
                        (omega arith) (omega arith) (omega arith) (omega arith) small)
                      λ m u (e, (bs', g)).
                        (e ∙ ap (shortened n) rounds, (bs', rw none (rw none' at g))))
            ])
    ]
