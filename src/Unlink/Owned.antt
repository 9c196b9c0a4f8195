-- ===== src/Unlink/Owned.antt =====
-- A file that owns its blocks, and the release of them.
use tyrant_fs.Base.{
  ℕ, zero, suc, ◌+◌, ◌≤◌, ◌<◌, ◌≡◌, ◌≢◌, refl, sym, ap, ◌∙◌, ◌⊎◌, List, [], ◌∷◌, false, arith, ap₂,
}
use tyrant_fs.Base.Bytes.{Memory, word_congr}
use tyrant_fs.Base.Int.{pos, is_neg}
use tyrant_fs.Device.{Fs}
use tyrant_fs.Device.Command.{Run, and_then, Returns, Returns-bind}
use tyrant_fs.Inode.{Node}
use tyrant_fs.FreeList.Chain.{count, members, IsBlock, SameBlock}
use tyrant_fs.FreeList.Head.{apart}
use tyrant_fs.FreeList.Refine.{IsFormatted, Freed, OnlyBytes, free_block_refines, IsFormatted-Freed}
use tyrant_fs.Format.Lists.{OnlyBytes-trans}
use tyrant_fs.BlockMap.{get_i_block}
use tyrant_fs.BlockMap.Address.{block_at, tables, All}
use tyrant_fs.Unlink.{release}
use tyrant_fs.Files.Contents.{
  IsMapped, KeepsTables, IsMapped-KeepsTables, same_address, same_tables, All-map, All-zip,
}
use tyrant_fs.Files.Read.{Returns-bind_at, get_i_block-IsMapped}
use tyrant_fs.FreeList.{free_block}

-- The blocks of the file whose indices are in `P`, and its index blocks, are not free.
pub record Owns (s : Fs) (bs : List ℕ) (n : Node) (P : ℕ → Type 0) : Type 0 where
  pub mapped : IsMapped s.byte s.size n
  pub formatted : IsFormatted s bs
  pub opened : is_neg s.globals.drive ≡ false
  pub used : (j : ℕ) → P j → j < n.blocks → count (block_at s.byte n j) (members s.byte bs) ≡ 0
  pub tables_used :
      (j : ℕ) → j < n.blocks → All (λ b. count b (members s.byte bs) ≡ 0) (tables s.byte n j)

pub Owns-sub :
    (s : Fs) (bs : List ℕ) (n : Node) (P Q : ℕ → Type 0)
    → ((j : ℕ) → j < n.blocks → Q j → P j)
    → Owns s bs n P
    → Owns s bs n Q
Owns-sub s bs n P Q sub o = record {
  mapped = o.mapped;
  formatted = o.formatted;
  opened = o.opened;
  used = λ j q h. o.used j (sub j h q) h;
  tables_used = o.tables_used;
}

-- The free list `bs'` of state `t` has the blocks of `freed` besides those of `bs`; nothing behind
-- the superblock's first word changed but free blocks.
pub record Gained (s : Fs) (bs : List ℕ) (freed : List ℕ) (t : Fs) (bs' : List ℕ) : Type 0 where
  pub formatted : IsFormatted t bs'
  pub rest : (x : ℕ) → count x (members t.byte bs') ≡ count x freed + count x (members s.byte bs)
  pub kept :
      (y : ℕ)
      → 8 ≤ y
      → ((b : ℕ) → 0 < count b (members t.byte bs') → (y < b) ⊎ (b + 4096 ≤ y))
      → t.byte y ≡ s.byte y
  pub only : OnlyBytes s t

module _ (s : Fs) (bs : List ℕ) (n : Node) (P : ℕ → Type 0) (v : Owns s bs n P) (i : ℕ) (mine : P i)
    (h : i < n.blocks) where
  pub Freed-KeepsTables :
      (t : Fs) → Freed s bs (block_at s.byte n i) t → KeepsTables s.byte t.byte n
  Freed-KeepsTables t d j l =
      let m = v.mapped in
      All-map
        (λ b. IsBlock s.size b × ((b ≢ block_at s.byte n i) × (count b (members s.byte bs) ≡ 0)))
        (SameBlock s.byte t.byte) (tables s.byte n j)
        (λ b (ok, (ne, unused)) o q. word_congr s.byte t.byte (b + o) λ x r w. sym (
          (d.1).kept x (omega (arith, ok.behind))
            (let a = apart ok (m.blocks_ok i h) ne in omega arith)
            λ c p.
              let ne' : b ≢ c = λ e. absurd (omega (arith, (rw (← e) at p), unused)) in
              let a = apart ok ((v.formatted).list.valid c p) ne' in omega arith))
        (All-zip _ _ (tables s.byte n j) (m.tables_ok j l)
          (All-zip _ _ (tables s.byte n j) (m.no_table i j h l) (v.tables_used j l)))

  -- One block was freed; those of `Q` are left.
  pub Freed-Owns :
      (Q : ℕ → Type 0) (t : Fs) (d : Freed s bs (block_at s.byte n i) t)
      → ((j : ℕ) → Q j → P j × (j ≢ i))
      → Owns t d.0 n Q
  Freed-Owns Q t d others =
      let keep = Freed-KeepsTables t d in
      let size : t.size ≡ s.size = ap (λ (u : Fs). u.size) d.2 in
      let drive : t.globals.drive ≡ s.globals.drive = ap (λ (u : Fs). u.globals.drive) d.2 in
      let m = v.mapped in
      record {
        mapped = rw size (IsMapped-KeepsTables t.byte m keep);
        formatted = IsFormatted-Freed v.formatted d;
        opened = rw drive v.opened;
        used = λ j q l.
            let (p, ne) = others j q in
            let u = v.used j p l in
            let apart_ne : block_at s.byte n j ≢ block_at s.byte n i =
              λ e. ne (m.distinct j i l h e) in
            rw (same_address t.byte m keep j l)
              (let r = (d.1).rest (block_at s.byte n j) in ground arith);
        tables_used = λ j l. rw (same_tables t.byte m keep j l) (
            All-map (λ b. (b ≢ block_at s.byte n i) × (count b (members s.byte bs) ≡ 0)) _
              (tables s.byte n j) (λ b (ne, unused). let r = (d.1).rest b in ground arith)
              (All-zip _ _ (tables s.byte n j) (m.no_table i j h l) (v.tables_used j l)));
      }

  -- The round of both loops, and what comes behind it.
  pub release-Freed :
      {A : Type 0} (Q : A → Fs → Type 0) (rest : Fs → Run Fs A)
      → ((t : Fs) → Freed s bs (block_at s.byte n i) t → Returns Q (rest t))
      → Returns Q (and_then (get_i_block n i s) λ block u. and_then (release block u) λ _ t. rest t)
  unfolding release
  release-Freed Q rest next =
      let m = v.mapped in
      Returns-bind_at (λ x. x ≡ block_at s.byte n i) Q s (get_i_block n i s) _
        (get_i_block-IsMapped n i s m h)
        λ x q e. rw e (
          Returns-bind (λ r t. (r ≡ pos 0) × Freed s bs (block_at s.byte n i) t) Q
            (free_block s.globals.drive (block_at s.byte n i) (record s { at = q })) _
            (free_block_refines (record s { at = q }) bs s.globals.drive (block_at s.byte n i)
              (record { room = (v.formatted).room; list = (v.formatted).list }) v.opened
              (m.blocks_ok i h) (v.used i mine h))
            λ r t d. next t d.1)

-- `k` blocks of the file from index `i` on.
unfoldable pub block_list : Memory → Node → ℕ → ℕ → List ℕ
block_list f n i zero = []
block_list f n i (suc k) = block_at f n i ∷ block_list f n (i + 1) k

pub block_list_congr :
    (f g : Memory) (n : Node) (i k : ℕ)
    → i + k ≤ n.blocks
    → ((j : ℕ) → j < n.blocks → block_at g n j ≡ block_at f n j)
    → block_list g n i k ≡ block_list f n i k
unfolding block_list
block_list_congr f g n i zero fits same = refl
block_list_congr f g n i (suc k) fits same =
    ap₂ ◌∷◌ (same i (omega arith)) (block_list_congr f g n (i + 1) k (omega arith) same)

-- The last of the blocks counts as well as the first.
pub count-block_list-snoc :
    (f : Memory) (n : Node) (x i k : ℕ)
    → count x (block_list f n i (suc k))
      ≡ count x (block_list f n i k) + count x (block_at f n (i + k) ∷ [])
unfolding block_list count
count-block_list-snoc f n x i zero = let e : i + 0 ≡ i = omega arith in rw e (omega arith)
count-block_list-snoc f n x i (suc k) =
    let e : i + 1 + k ≡ i + suc k = omega arith in
    let z : block_at f n (i + suc k) ≡ block_at f n (i + 1 + k) = ap (block_at f n) (sym e) in
    let r = count-block_list-snoc f n x (i + 1) k in rw z (omega (arith, r))

pub Gained-none : (s : Fs) (bs : List ℕ) → IsFormatted s bs → Gained s bs [] s bs
unfolding count
Gained-none s bs v = record {
  formatted = v;
  rest = λ x. omega arith;
  kept = λ y h away. refl;
  only = refl;
}

-- A block that was freed, and those that are freed behind it.
pub Gained-cons :
    (s t u : Fs) (bs bs' : List ℕ) (block : ℕ) (freed : List ℕ) (d : Freed s bs block t)
    → block ≢ 0
    → Gained t d.0 freed u bs'
    → Gained s bs (block ∷ freed) u bs'
unfolding count
Gained-cons s t u bs bs' block freed d ne g = record {
  formatted = g.formatted;
  rest = λ x. let a = g.rest x in let b = (d.1).rest x in ground arith;
  kept = λ y h away.
      g.kept y h away
      ∙ (d.1).kept y h
          (away block (let a = g.rest block in let b = (d.1).rest block in ground arith))
          (λ c p. away c (let a = g.rest c in let b = (d.1).rest c in ground arith));
  only = OnlyBytes-trans s t u d.2 g.only;
}

pub Gained-count :
    (s t : Fs) (bs bs' freed freed' : List ℕ)
    → ((x : ℕ) → count x freed ≡ count x freed')
    → Gained s bs freed t bs'
    → Gained s bs freed' t bs'
Gained-count s t bs bs' freed freed' same g = record {
  formatted = g.formatted;
  rest = λ x. rw (← same x) (g.rest x);
  kept = g.kept;
  only = g.only;
}
