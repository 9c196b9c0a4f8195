-- ===== src/Format/RootBlock.antt =====
-- The block of the root directory.
use tyrant_fs.Base.{
  ℕ, ◌+◌, ◌^◌, ◌≤◌, ◌<◌, ◌≡◌, ◌≢◌, refl, ap, ◌∙◌, ◌⊎◌, inl, inr, [], ◌∷◌, arith, replicate,
  length-replicate,
}
use tyrant_fs.Base.Bytes.{
  Memory, bytes_at, bytes_at_congr, word_congr, store, word, le_bytes, length-le_bytes,
}
use tyrant_fs.Base.Store.{
  bytes_at-store, bytes_at-store_below, word-store_self, word-store_below, store_below, store_above,
}
use tyrant_fs.Device.{Fs}
use tyrant_fs.Device.Command.{Returns}
use tyrant_fs.Block.Io.{IsOnDevice, read_block-ok, write_block-ok, write_block_u64-ok}
use tyrant_fs.Format.{root_entries}
use tyrant_fs.FreeList.Refine.{OnlyBytes}

-- The block holds the entries "." and "..", both with the address `root`.
pub record HasDots (g : Memory) (root block : ℕ) : Type 0 where
  pub dot : bytes_at g block 2 ≡ b'.' ∷ 0 ∷ []
  pub self : word g (block + 248) ≡ root
  pub dot_dot : bytes_at g (block + 256) 3 ≡ b'.' ∷ b'.' ∷ 0 ∷ []
  pub parent : word g (block + 504) ≡ root

pub HasDots-congr :
    (g h : Memory) (root block : ℕ)
    → ((x : ℕ) → block ≤ x → x < block + 4096 → h x ≡ g x)
    → HasDots g root block
    → HasDots h root block
HasDots-congr g h root block same d = record {
  dot = bytes_at_congr h g block 2 (λ x p q. same x p (omega arith)) ∙ d.dot;
  self = word_congr h g (block + 248) (λ x p q. same x (omega arith) (omega arith)) ∙ d.self;
  dot_dot =
      bytes_at_congr h g (block + 256) 3 (λ x p q. same x (omega arith) (omega arith)) ∙ d.dot_dot;
  parent = word_congr h g (block + 504) (λ x p q. same x (omega arith) (omega arith)) ∙ d.parent;
}

-- The bytes after the writes.
abbrev dots_in : Memory → ℕ → ℕ → Memory
dots_in f root block =
    store
      (store
        (store (store (store f (block + 0) (replicate 4096 0)) (block + 0) (b'.' ∷ 0 ∷ []))
          (block + 248) (le_bytes 8 root))
        (block + 256) (b'.' ∷ b'.' ∷ 0 ∷ []))
      (block + 504) (le_bytes 8 root)

dots_in-HasDots :
    (f : Memory) (root block : ℕ) → root < 2 ^ 64 → HasDots (dots_in f root block) root block
dots_in-HasDots f root block small =
    let n = length-le_bytes 8 root in
    let l = length-replicate {0} {A = ℕ} 4096 0 in
    let f1 : Memory = store f (block + 0) (replicate 4096 0) in
    let f2 : Memory = store f1 (block + 0) (b'.' ∷ 0 ∷ []) in
    let f3 : Memory = store f2 (block + 248) (le_bytes 8 root) in
    let f4 : Memory = store f3 (block + 256) (b'.' ∷ b'.' ∷ 0 ∷ []) in
    record {
      dot =
          bytes_at-store_below f4 (block + 504) (le_bytes 8 root) block 2 (omega arith)
          ∙ bytes_at-store_below f3 (block + 256) (b'.' ∷ b'.' ∷ 0 ∷ []) block 2 (omega arith)
          ∙ bytes_at-store_below f2 (block + 248) (le_bytes 8 root) block 2 (omega arith)
          ∙ ap (λ b. bytes_at f2 b 2) (omega arith)
          ∙ bytes_at-store f1 (block + 0) (b'.' ∷ 0 ∷ []);
      self =
          word-store_below f4 (block + 504) (le_bytes 8 root) (block + 248) (omega arith)
          ∙ word-store_below f3 (block + 256) (b'.' ∷ b'.' ∷ 0 ∷ []) (block + 248) (omega arith)
          ∙ word-store_self f2 (block + 248) root small;
      dot_dot =
          bytes_at-store_below f4 (block + 504) (le_bytes 8 root) (block + 256) 3 (omega arith)
          ∙ bytes_at-store f3 (block + 256) (b'.' ∷ b'.' ∷ 0 ∷ []);
      parent = word-store_self f4 (block + 504) root small;
    }

dots_in-outside :
    (f : Memory) (root block x : ℕ)
    → (x < block) ⊎ (block + 4096 ≤ x)
    → dots_in f root block x ≡ f x
dots_in-outside f root block x o =
    let n = length-le_bytes 8 root in
    let l = length-replicate {0} {A = ℕ} 4096 0 in
    let f1 : Memory = store f (block + 0) (replicate 4096 0) in
    let f2 : Memory = store f1 (block + 0) (b'.' ∷ 0 ∷ []) in
    let f3 : Memory = store f2 (block + 248) (le_bytes 8 root) in
    let f4 : Memory = store f3 (block + 256) (b'.' ∷ b'.' ∷ 0 ∷ []) in
    elim o [
      | inl p ↦
          store_below f4 (block + 504) (le_bytes 8 root) x (omega arith)
          ∙ store_below f3 (block + 256) (b'.' ∷ b'.' ∷ 0 ∷ []) x (omega arith)
          ∙ store_below f2 (block + 248) (le_bytes 8 root) x (omega arith)
          ∙ store_below f1 (block + 0) (b'.' ∷ 0 ∷ []) x (omega arith)
          ∙ store_below f (block + 0) (replicate 4096 0) x (omega arith)
      | inr p ↦
          store_above f4 (block + 504) (le_bytes 8 root) x (omega arith)
          ∙ store_above f3 (block + 256) (b'.' ∷ b'.' ∷ 0 ∷ []) x (omega arith)
          ∙ store_above f2 (block + 248) (le_bytes 8 root) x (omega arith)
          ∙ store_above f1 (block + 0) (b'.' ∷ 0 ∷ []) x (omega arith)
          ∙ store_above f (block + 0) (replicate 4096 0) x (omega arith)
    ]

pub root_entries-HasDots :
    (s : Fs) (root block : ℕ)
    → IsOnDevice s block
    → block ≢ 0
    → root < 2 ^ 64
    → Returns
        (λ r t.
          HasDots t.byte root block
          × ((x : ℕ) → (x < block) ⊎ (block + 4096 ≤ x) → t.byte x ≡ s.byte x)
          × OnlyBytes s t)
        (root_entries root block s)
unfolding root_entries
root_entries-HasDots s root block on ne small =
    let l = length-replicate {0} {A = ℕ} 4096 0 in
    let s1 : Fs = record s {
      byte = store s.byte (block + 0) (replicate 4096 0);
      at = block + 0 + 4096;
    } in
    let s2 : Fs = record s1 {
      byte = store s1.byte (block + 0) (b'.' ∷ 0 ∷ []);
      at = block + 0 + 2;
    } in
    let s3 : Fs = record s2 {
      byte = store s2.byte (block + 248) (le_bytes 8 root);
      at = block + 248 + 8;
    } in
    let s4 : Fs = record s3 {
      byte = store s3.byte (block + 256) (b'.' ∷ b'.' ∷ 0 ∷ []);
      at = block + 256 + 3;
    } in
    let s5 : Fs = record s4 {
      byte = store s4.byte (block + 504) (le_bytes 8 root);
      at = block + 504 + 8;
    } in
    let s6 : Fs = record s5 { at = block + 248 + 8 } in
    let w1 =
      write_block-ok s block 0 on (omega arith) (replicate 4096 0) (omega arith) (omega arith) in
    rw
      (
        rw l at w1,
        write_block-ok s1 block 0 (record { inside = on.inside; small = on.small }) (omega arith)
            (b'.' ∷ 0 ∷ []) (omega arith) (omega arith),
        write_block_u64-ok s2 block 248 (record { inside = on.inside; small = on.small })
            (omega arith) root,
        write_block-ok s3 block 256 (record { inside = on.inside; small = on.small }) (omega arith)
            (b'.' ∷ b'.' ∷ 0 ∷ []) (omega arith) (omega arith),
        write_block_u64-ok s4 block 504 (record { inside = on.inside; small = on.small })
            (omega arith) root,
        read_block-ok s5 block 248 (record { inside = on.inside; small = on.small }) (omega arith) 8
            ne (omega arith),
        read_block-ok s6 block 504 (record { inside = on.inside; small = on.small }) (omega arith) 8
            ne (omega arith),
      )
      (dots_in-HasDots s.byte root block small, dots_in-outside s.byte root block, refl)
