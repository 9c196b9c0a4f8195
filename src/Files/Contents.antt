-- ===== src/Files/Contents.antt =====
-- The contents of a file as the bytes of its blocks in order, and a write into one of them.
use tyrant_fs.Base.{
  ℕ, ◌+◌, ◌-◌, ◌*◌, ◌/◌, ◌%◌, ◌^◌, ◌≤◌, ◌<◌, ◌≡◌, ◌≢◌, sym, ap, ◌∙◌, ◌⊎◌, inl, inr, List, [], ◌∷◌,
  arith, Bool-cases, ◌==◌, ==→eq, ==→ne, length, get_or,
}
use tyrant_fs.Base.Bytes.{Memory, word_congr, store}
use tyrant_fs.Base.Store.{store_in, store_off}
use tyrant_fs.Inode.{Node}
use tyrant_fs.FreeList.Chain.{IsBlock, SameBlock}
use tyrant_fs.FreeList.Head.{apart}
use tyrant_fs.BlockMap.Offsets.{trpl_end}
use tyrant_fs.BlockMap.Address.{block_at, tables, All, block_at_congr}

-- Every block of the inode, and every index block on the way to it, is a block of the device; no two
-- indices share a block, and no block is an index block.
pub record IsMapped (f : Memory) (size : ℕ) (n : Node) : Type 0 where
  pub small : size < 2 ^ 63
  pub reach : n.blocks ≤ trpl_end
  pub tables_ok : (i : ℕ) → i < n.blocks → All (IsBlock size) (tables f n i)
  pub blocks_ok : (i : ℕ) → i < n.blocks → IsBlock size (block_at f n i)
  pub distinct : (i j : ℕ) → i < n.blocks → j < n.blocks → block_at f n i ≡ block_at f n j → i ≡ j
  pub no_table :
      (i j : ℕ) → i < n.blocks → j < n.blocks → All (λ b. b ≢ block_at f n i) (tables f n j)

-- Byte `x` of the file.
abbrev pub contents : Memory → Node → Memory
contents f n x = f (block_at f n (x / 4096) + x % 4096)

pub All-map {ℓ κ} :
    (P : ℕ → Type ℓ) (Q : ℕ → Type κ) (xs : List ℕ) → ((x : ℕ) → P x → Q x) → All P xs → All Q xs
All-map P Q [] h a = tt
All-map P Q (x ∷ xs) h a = (h x a.0, All-map P Q xs h a.1)

pub All-zip {ℓ κ} :
    (P : ℕ → Type ℓ) (Q : ℕ → Type κ) (xs : List ℕ) → All P xs → All Q xs → All (λ x. P x × Q x) xs
All-zip P Q [] a b = tt
All-zip P Q (x ∷ xs) a b = ((a.0, b.0), All-zip P Q xs a.1 b.1)

-- The index blocks keep their words.
abbrev pub KeepsTables : Memory → Memory → Node → Type 0
KeepsTables f g n = (i : ℕ) → i < n.blocks → All (SameBlock f g) (tables f n i)

module _ {f : Memory} {size : ℕ} {n : Node} (g : Memory) (v : IsMapped f size n)
    (k : KeepsTables f g n) where
  pub same_address : (i : ℕ) → i < n.blocks → block_at g n i ≡ block_at f n i
  same_address i h = (block_at_congr f g n i (omega (arith, v.reach)) (k i h)).0

  pub same_tables : (i : ℕ) → i < n.blocks → tables g n i ≡ tables f n i
  same_tables i h = (block_at_congr f g n i (omega (arith, v.reach)) (k i h)).1

  pub IsMapped-KeepsTables : IsMapped g size n
  IsMapped-KeepsTables = record {
    small = v.small;
    reach = v.reach;
    tables_ok = λ i h. rw (same_tables i h) (v.tables_ok i h);
    blocks_ok = λ i h. rw (same_address i h) (v.blocks_ok i h);
    distinct = λ i j h l e. v.distinct i j h l (sym (same_address i h) ∙ e ∙ same_address j l);
    no_table = λ i j h l. rw (same_address i h, same_tables j l) (v.no_table i j h l);
  }

pub KeepsTables-trans :
    {f : Memory} {size : ℕ} {n : Node} (g h : Memory)
    → IsMapped f size n
    → KeepsTables f g n
    → KeepsTables g h n
    → KeepsTables f h n
KeepsTables-trans {f} {size} {n} g h v a b i l =
    All-map (λ x. SameBlock f g x × SameBlock g h x) (SameBlock f h) (tables f n i)
      (λ x (p, q) o r. p o r ∙ q o r)
      (All-zip (SameBlock f g) (SameBlock g h) (tables f n i) (a i l)
        (rw (same_tables g v a i l) at (b i l)))

module _ {f : Memory} {size : ℕ} {n : Node} (v : IsMapped f size n) (i loc : ℕ) (xs : List ℕ)
    (h : i < n.blocks) (fits : loc + length xs ≤ 4096) where
  -- The bytes after a write into block `i`.
  abbrev pub written : Memory
  written = store f (block_at f n i + loc) xs

  pub written-KeepsTables : KeepsTables f written n
  written-KeepsTables j l =
      All-map (λ b. IsBlock size b × (b ≢ block_at f n i)) (SameBlock f written) (tables f n j)
        (λ b p o q.
          let a = apart p.0 (v.blocks_ok i h) p.1 in
          word_congr f written (b + o)
            λ x r t. sym (store_off f (block_at f n i + loc) xs x (omega arith)))
        (All-zip (IsBlock size) (λ b. b ≢ block_at f n i) (tables f n j) (v.tables_ok j l)
          (v.no_table i j h l))

  -- Of the contents that changes the range written.
  pub contents-in :
      (x : ℕ)
      → i * 4096 + loc ≤ x
      → x < i * 4096 + loc + length xs
      → contents written n x ≡ get_or xs (x - (i * 4096 + loc)) 0
  contents-in x p q =
      let d : x / 4096 ≡ i = omega arith in
      rw (d, same_address written v written-KeepsTables i h)
        (store_in f (block_at f n i + loc) xs (block_at f n i + x % 4096) (omega arith)
            (omega arith)
          ∙ ap (λ k. get_or xs k 0) (omega arith))

  pub contents-out :
      (x : ℕ)
      → x < n.blocks * 4096
      → (x < i * 4096 + loc) ⊎ (i * 4096 + loc + length xs ≤ x)
      → contents written n x ≡ contents f n x
  contents-out x p o =
      let l : x / 4096 < n.blocks = omega arith in
      rw (same_address written v written-KeepsTables (x / 4096) l)
        (elim (Bool-cases (x / 4096 == i)) [
          | inl e ↦
              let d : x / 4096 ≡ i = ==→eq (x / 4096) i e in
              rw d (store_off f (block_at f n i + loc) xs (block_at f n i + x % 4096) (omega arith))
          | inr e ↦
              let a =
                apart (v.blocks_ok (x / 4096) l) (v.blocks_ok i h)
                  (λ q. ==→ne (x / 4096) i e (v.distinct (x / 4096) i l h q)) in
              store_off f (block_at f n i + loc) xs (block_at f n (x / 4096) + x % 4096)
                (omega arith)
        ])
