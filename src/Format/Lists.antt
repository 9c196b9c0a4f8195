-- ===== src/Format/Lists.antt =====
-- The loops of `tfs_mkfs` that lay out the free list.
use tyrant_fs.Base.{
  ℕ, zero, suc, ◌+◌, ◌-◌, ◌*◌, ◌%◌, ◌^◌, ◌≤◌, ◌<◌, ◌≡◌, ◌≢◌, refl, ap, ap₂, ◌∙◌, inl, inr, List, [],
  ◌∷◌, ◌++◌, append-nil, arith, min, Bool-cases, ltb, lt→ltb, le→ltb, ltb→lt, length, replicate,
  length-replicate,
}
use tyrant_fs.Base.Bytes.{Memory, word, store, word_congr}
use tyrant_fs.Base.Store.{store_below, word-store_zero}
use tyrant_fs.Base.Word.{add64, sub64}
use tyrant_fs.Device.{Fs}
use tyrant_fs.Device.Command.{ret, Returns, Returns-bind, Returns-mono}
use tyrant_fs.Device.Rules.{lseek_set-le, lseek_back-le, write-le}
use tyrant_fs.Format.{fill_slots, fill_lists}
use tyrant_fs.Format.Slots.{Filled, SlotsDone, fill_slots-SlotsDone, run, run-append, entries-run}
use tyrant_fs.FreeList.Chain.{Chain, SameBlock, members, entries, entries_congr}
use tyrant_fs.FreeList.Refine.{OnlyBytes}

abbrev zeros : List ℕ
zeros = replicate 4096 0

-- In `g` the free list that starts at block `p` is made of the `n` blocks from `p` on; below `p`
-- the bytes are those of `f`.
pub record LaidOut (f g : Memory) (p n : ℕ) (bs : List ℕ) : Type 0 where
  pub chain : Chain g p bs
  pub blocks : members g bs ≡ run p n
  pub below : (x : ℕ) → x < p → g x ≡ f x

LaidOut-last :
    (f g : Memory) (p m : ℕ)
    → p ≢ 0
    → m < 512
    → Filled (store f p zeros) g p m (p + 4096)
    → LaidOut f g p (m + 1) (p ∷ [])
unfolding members run
LaidOut-last f g p m ne few h = record {
  chain = (refl, ne, ap (word g) (omega arith) ∙ empty 511 (omega arith) (omega arith));
  blocks =
      ap (λ t. p ∷ t)
        (append-nil (entries g p 511 0)
          ∙ entries-run g p (p + 4096) m 511 0 0 refl (omega arith) h.inside
              (λ x q r. empty x q (omega arith))
          ∙ ap₂ run start n)
      ∙ ap (run p) total;
  below = λ x q. h.outside x (inl q) ∙ store_below f p zeros x q;
}
  where
    empty : (x : ℕ) → m ≤ x → x < 512 → word g (p + 8 * x) ≡ 0
    empty x q r =
        word_congr g (store f p zeros) (p + 8 * x) (λ y s t. h.outside y (inr (omega arith)))
        ∙ word-store_zero f p 4096 (p + 8 * x) (omega arith) (omega arith)

    total : suc m ≡ m + 1
    total = omega arith

    n : min 511 (m - 0) ≡ m
    n = omega arith

    start : p + 4096 + 4096 * 0 ≡ p + 4096
    start = omega arith

LaidOut-more :
    (f g h : Memory) (p q n : ℕ) (bs : List ℕ)
    → p ≢ 0
    → q ≡ p + 512 * 4096
    → Filled (store f p zeros) g p 512 (p + 4096)
    → LaidOut g h q n bs
    → LaidOut f h p (512 + n) (p ∷ bs)
unfolding members run
LaidOut-more f g h p q n bs ne next filled rest = record {
  chain = (refl, ne, (rw link (rest.chain)));
  blocks =
      ap (λ t. p ∷ t)
        (ap₂ ◌++◌
            (entries_congr h g p 511 0 (omega arith) same
              ∙ entries-run g p (p + 4096) 512 511 0 0 refl (omega arith) filled.inside
                  (λ x s t. absurd (omega arith))
              ∙ ap (λ a. run a 511) start)
            rest.blocks
          ∙ run-append (p + 4096) 511 n q (omega arith))
      ∙ ap (run p) total;
  below = λ x s. rest.below x (omega arith) ∙ filled.outside x (inl s) ∙ store_below f p zeros x s;
}
  where
    same : SameBlock h g p
    same i s = word_congr h g (p + i) λ x t u. rest.below x (omega arith)

    link : word h (p + 4088) ≡ q
    link =
        same 4088 (omega arith)
        ∙ ap (word g) (omega arith)
        ∙ filled.inside 511 (omega arith)
        ∙ omega arith

    start : p + 4096 + 4096 * 0 ≡ p + 4096
    start = omega arith

    total : suc (511 + n) ≡ 512 + n
    total = omega arith

-- What the outer loop leaves.
abbrev pub ListsDone : Fs → ℕ → ℕ → Fs → Type 0
ListsDone s p n t = ((bs : List ℕ) × LaidOut s.byte t.byte p n bs) × OnlyBytes s t

pub OnlyBytes-trans : (s t u : Fs) → OnlyBytes s t → OnlyBytes t u → OnlyBytes s u
OnlyBytes-trans s t u a b = b ∙ ap (λ (v : Fs). record v { byte = u.byte; at = u.at }) a

fill_lists-end :
    (k c p : ℕ) (s : Fs) → s.globals.data_blocks ≤ c → 0 < k → fill_lists k c p s ≡ ret tt s
unfolding fill_lists
fill_lists-end zero c p s done fuel = absurd (omega arith)
fill_lists-end (suc k) c p s done fuel = rw (le→ltb c s.globals.data_blocks done) refl

pub fill_lists-ListsDone :
    (k c p : ℕ) (s : Fs)
    → p ≡ s.globals.inode_byte_boundary + c * 4096
    → p ≢ 0
    → c < s.globals.data_blocks
    → s.globals.data_blocks - c < k
    → (s.globals.data_blocks - c) % 512 ≢ 0
    → p + (s.globals.data_blocks - c) * 4096 ≤ s.size
    → s.size < 2 ^ 63
    → Returns (λ r t. ListsDone s p (s.globals.data_blocks - c + 1) t) (fill_lists k c p s)
unfolding fill_lists
fill_lists-ListsDone zero c p s at ne more fuel rest fits small = absurd (omega arith)
fill_lists-ListsDone (suc k) c p s at ne more fuel rest fits small =
    let l = length-replicate {0} {A = ℕ} 4096 0 in
    let cleared : Fs = record s { byte = store s.byte p zeros; at = p } in
    let back : p + length zeros - 4096 ≡ p = omega arith in
    let start : add64 (add64 s.globals.inode_byte_boundary (c * 4096 % 2 ^ 64)) 4096 ≡ p + 4096 =
      omega arith in
    rw
      (
        lt→ltb c s.globals.data_blocks more,
        lseek_set-le s p (omega arith),
        write-le (record s { at = p }) zeros (omega arith) (omega arith),
        lseek_back-le (record s { byte = store s.byte p zeros; at = p + length zeros }) 4096
            (omega arith),
        back,
        start,
      )
      (Returns-bind (SlotsDone cleared c (p + 4096) (min 512 (s.globals.data_blocks - c))) _
        (fill_slots 512 c (p + 4096) cleared) _
        (fill_slots-SlotsDone 512 c (p + 4096) cleared (omega arith) (omega arith) (omega arith))
        λ r u d.
          let blocks : u.globals.data_blocks ≡ s.globals.data_blocks =
            ap (λ (v : Fs). v.globals.data_blocks) d.only in
          let bound : u.globals.inode_byte_boundary ≡ s.globals.inode_byte_boundary =
            ap (λ (v : Fs). v.globals.inode_byte_boundary) d.only in
          let size : u.size ≡ s.size = ap (λ (v : Fs). v.size) d.only in
          elim (Bool-cases (ltb (s.globals.data_blocks - c) 512)) [
            | inl few ↦
                let lt : s.globals.data_blocks - c < 512 = ltb→lt _ 512 few in
                let n : min 512 (s.globals.data_blocks - c) ≡ s.globals.data_blocks - c =
                  omega arith in
                rw
                  (fill_lists-end k r.0 (sub64 r.1 4096) u (omega (arith, d.counter)) (omega arith))
                  (
                    (
                      p ∷ [],
                      LaidOut-last s.byte u.byte p (s.globals.data_blocks - c) ne lt
                          (rw n at (d.filled)),
                    ),
                    d.only,
                  )
            | inr many ↦
                let ge : 512 < s.globals.data_blocks - c = ground (arith, many, rest) in
                let n : min 512 (s.globals.data_blocks - c) ≡ 512 = omega arith in
                let next : sub64 r.1 4096 ≡ p + 512 * 4096 = omega (arith, d.pointer) in
                let total : 512 + (u.globals.data_blocks - r.0 + 1)
                    ≡ s.globals.data_blocks - c + 1 =
                  omega (arith, d.counter) in
                Returns-mono
                  (λ x t. ListsDone u (sub64 r.1 4096) (u.globals.data_blocks - r.0 + 1) t)
                  (λ x t. ListsDone s p (s.globals.data_blocks - c + 1) t) _
                  (fill_lists-ListsDone k r.0 (sub64 r.1 4096) u (omega (arith, d.counter))
                    (omega arith) (omega (arith, d.counter)) (omega (arith, d.counter))
                    (λ z. rest (omega (arith, d.counter))) (omega (arith, d.counter)) (omega arith))
                  λ x t e. (
                    (
                      p ∷ (e.0).0,
                      (rw total at (
                          LaidOut-more s.byte u.byte t.byte p (sub64 r.1 4096)
                            (u.globals.data_blocks - r.0 + 1) (e.0).0 ne next (rw n at (d.filled))
                            (e.0).1)),
                    ),
                    OnlyBytes-trans s u t d.only e.1,
                  )
          ])
