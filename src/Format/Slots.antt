-- ===== src/Format/Slots.antt =====
-- The inner loop of `tfs_mkfs`: the addresses that it writes into one list block.
use tyrant_fs.Base.{
  ℕ, zero, suc, ◌+◌, ◌-◌, ◌*◌, ◌^◌, ◌≤◌, ◌<◌, ◌≡◌, ◌≢◌, refl, ap, ◌∙◌, ◌⊎◌, inl, inr, List, [], ◌∷◌,
  ◌++◌, arith, min, leb, Bool-cases, ap₂, ltb, ltb→lt, leb→le, ne→==,
}
use tyrant_fs.Base.Bytes.{Memory, word, store, le_bytes, length-le_bytes, word_congr}
use tyrant_fs.Base.Store.{word-store_self, store_below, store_above}
use tyrant_fs.Base.Word.{add64}
use tyrant_fs.Device.{Fs}
use tyrant_fs.Device.Command.{Returns, Returns-mono}
use tyrant_fs.Device.Rules.{write_u64-le}
use tyrant_fs.Format.{fill_slots}
use tyrant_fs.FreeList.Chain.{entries}
use tyrant_fs.FreeList.Refine.{OnlyBytes}

-- From address `a` on `g` holds `m` words, `p` and on in steps of a block; the rest is that of `f`.
pub record Filled (f g : Memory) (a m p : ℕ) : Type 0 where
  pub inside : (i : ℕ) → i < m → word g (a + 8 * i) ≡ p + 4096 * i
  pub outside : (x : ℕ) → (x < a) ⊎ (a + 8 * m ≤ x) → g x ≡ f x

Filled-none : (f : Memory) (a p : ℕ) → Filled f f a 0 p
Filled-none f a p = record { inside = λ i h. absurd (omega arith); outside = λ x h. refl }

Filled-next :
    (f g : Memory) (a m p : ℕ)
    → p < 2 ^ 64
    → Filled (store f a (le_bytes 8 p)) g (a + 8) m (p + 4096)
    → Filled f g a (suc m) p
Filled-next f g a m p small h = record {
  inside = words;
  outside = λ x o. h.outside x (omega arith) ∙ elim o [
    | inl q ↦ store_below f a (le_bytes 8 p) x q
    | inr q ↦ store_above f a (le_bytes 8 p) x (omega (arith, length-le_bytes 8 p))
  ];
}
  where
    words : (i : ℕ) → i < suc m → word g (a + 8 * i) ≡ p + 4096 * i
    words zero q =
        ap (word g) (omega arith)
        ∙ word_congr g (store f a (le_bytes 8 p)) a (λ x r t. h.outside x (inl (omega arith)))
        ∙ word-store_self f a p small
        ∙ omega arith
    words (suc i) q = ap (word g) (omega arith) ∙ h.inside i (omega arith) ∙ omega arith

-- What the loop leaves after `m` rounds.
pub record SlotsDone (s : Fs) (c p m : ℕ) (r : ℕ × ℕ) (t : Fs) : Type 0 where
  pub counter : r.0 ≡ c + m
  pub pointer : r.1 ≡ p + 4096 * m
  pub filled : Filled s.byte t.byte s.at m p
  pub only : OnlyBytes s t

SlotsDone-next :
    (s t : Fs) (c p m : ℕ) (r : ℕ × ℕ)
    → p < 2 ^ 64
    → SlotsDone
        (record s { byte = store s.byte s.at (le_bytes 8 p); at = s.at + 8 })
        (c + 1)
        (p + 4096)
        m
        r
        t
    → SlotsDone s c p (suc m) r t
SlotsDone-next s t c p m r small h = record {
  counter = omega (arith, h.counter);
  pointer = omega (arith, h.pointer);
  filled = Filled-next s.byte t.byte s.at m p small h.filled;
  only = h.only;
}

pub fill_slots-SlotsDone :
    (k c p : ℕ) (s : Fs)
    → s.at + 8 * k ≤ s.size
    → p + 4096 * k < 2 ^ 64
    → c + k < 2 ^ 64
    → Returns (SlotsDone s c p (min k (s.globals.data_blocks - c))) (fill_slots k c p s)
unfolding fill_slots
fill_slots-SlotsDone zero c p s fits small few = record {
  counter = omega arith;
  pointer = omega arith;
  filled = (rw none (Filled-none s.byte s.at p));
  only = refl;
}
  where
    none : min 0 (s.globals.data_blocks - c) ≡ 0
    none = omega arith
fill_slots-SlotsDone (suc k) c p s fits small few =
    elim (Bool-cases (leb s.globals.data_blocks c)) [
      | inl full ↦
          let z : min (suc k) (s.globals.data_blocks - c) ≡ 0 =
            omega (arith, leb→le s.globals.data_blocks c full) in
          rw (full, z)
            (record {
              counter = omega arith;
              pointer = omega arith;
              filled = Filled-none s.byte s.at p;
              only = refl;
            })
      | inr more ↦
          let m = min k (s.globals.data_blocks - (c + 1)) in
          let rounds : min (suc k) (s.globals.data_blocks - c) ≡ suc m = ground (arith, more) in
          let c1 : add64 c 1 ≡ c + 1 = omega arith in
          let p1 : add64 p 4096 ≡ p + 4096 = omega arith in
          let u : Fs = record s { byte = store s.byte s.at (le_bytes 8 p); at = s.at + 8 } in
          rw (more, rounds, write_u64-le s p (omega arith), c1, p1)
            (Returns-mono (SlotsDone u (c + 1) (p + 4096) m) (SlotsDone s c p (suc m)) _
              (fill_slots-SlotsDone k (c + 1) (p + 4096) u (omega arith) (omega arith)
                (omega arith))
              λ r t h. SlotsDone-next s t c p m r (omega arith) h)
    ]

-- The blocks from `p` on, `n` of them.
unfoldable pub run : ℕ → ℕ → List ℕ
run p zero = []
run p (suc n) = p ∷ run (p + 4096) n

pub run-append : (p a b q : ℕ) → q ≡ p + 4096 * a → run p a ++ run q b ≡ run p (a + b)
unfolding run
run-append p zero b q h = let z : q ≡ p = omega arith in ap₂ run z (omega arith)
run-append p (suc a) b q h =
    ap (λ t. p ∷ t) (run-append (p + 4096) a b q (omega arith)) ∙ ap (run p) n
  where
    n : suc (a + b) ≡ suc a + b
    n = omega arith

-- The entries of a block with `m` filled slots and zeros behind them.
pub entries-run :
    (g : Memory) (b p m k j i : ℕ)
    → i ≡ 8 * j
    → p ≢ 0
    → ((x : ℕ) → x < m → word g (b + 8 * x) ≡ p + 4096 * x)
    → ((x : ℕ) → m ≤ x → x < j + k → word g (b + 8 * x) ≡ 0)
    → entries g b k i ≡ run (p + 4096 * j) (min k (m - j))
unfolding entries run
entries-run g b p m zero j i e ne used empty = ap (run (p + 4096 * j)) n
  where
    n : 0 ≡ min 0 (m - j)
    n = omega arith
entries-run g b p m (suc k) j i e ne used empty = elim (Bool-cases (ltb j m)) [
  | inl more ↦
      let lt : j < m = ltb→lt j m more in
      let w : word g (b + i) ≡ p + 4096 * j = ap (word g) (omega arith) ∙ used j lt in
      let n : min (suc k) (m - j) ≡ suc (min k (m - suc j)) = omega arith in
      rw (w, ne→== (p + 4096 * j) 0 (omega (arith, ne)), n)
        (ap (λ t. (p + 4096 * j) ∷ t)
          (entries-run g b p m k (suc j) (i + 8) (omega arith) ne used
              (λ x q r. empty x q (omega arith))
            ∙ ap (λ a. run a (min k (m - suc j))) (omega arith)))
  | inr done ↦
      let ge : m ≤ j = ground (arith, done) in
      let w : word g (b + i) ≡ 0 = ap (word g) (omega arith) ∙ empty j ge (omega arith) in
      let n : min (suc k) (m - j) ≡ 0 = omega arith in
      let n' : min k (m - suc j) ≡ 0 = omega arith in
      rw (w, n)
        (entries-run g b p m k (suc j) (i + 8) (omega arith) ne used
            (λ x q r. empty x q (omega arith))
          ∙ ap (run (p + 4096 * suc j)) n')
]
