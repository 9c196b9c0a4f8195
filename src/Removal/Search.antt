-- ===== src/Removal/Search.antt =====
-- The search of a directory for the entry of an inode (`blocks_loop`).
use tyrant_fs.Base.{
  ℕ, zero, suc, ◌+◌, ◌-◌, ◌*◌, ◌/◌, ◌%◌, ◌≤◌, ◌<◌, ◌≡◌, ◌≢◌, refl, sym, inl, inr, Option, none,
  some, arith, ltb, ltb→lt, lt→ltb, ◌==◌, Bool-cases, ==→eq, ==→ne, eq→==, ne→==, lt→leb,
}
use tyrant_fs.Base.Bytes.{Memory, word}
use tyrant_fs.Base.Int.{ℤ, negsuc, int_u64-small}
use tyrant_fs.Device.{Fs, Cmd}
use tyrant_fs.Device.Command.{ret, and_then, Returns, Returns-bind}
use tyrant_fs.Block.Io.{IsOnDevice, read_block_u64-ok}
use tyrant_fs.Inode.{Node}
use tyrant_fs.Inode.Search.{OnlyAt}
use tyrant_fs.BlockMap.{get_i_block}
use tyrant_fs.BlockMap.Address.{block_at}
use tyrant_fs.Files.Contents.{IsMapped}
use tyrant_fs.Files.Read.{Returns-bind_at, get_i_block-IsMapped}
use tyrant_fs.Removal.{entry_loop, blocks_loop}
use tyrant_fs.Block.{read_block_u64}

-- The address in entry `q` of the directory, 16 of them in a block.
abbrev pub entry_address : Memory → Node → ℕ → ℕ
entry_address f d q = word f (block_at f d (q / 16) + (q % 16 * 256 + 248))

-- Entry `q` is the first with the address `cur`.
pub record IsFirst (f : Memory) (d : Node) (cur q : ℕ) : Type 0 where
  pub here : entry_address f d q ≡ cur
  pub before : (p : ℕ) → p < q → entry_address f d p ≢ cur

module _ (s : Fs) (act : ℕ → ℕ → ℕ → Cmd ℤ) (i block size cur : ℕ) (on : IsOnDevice s block)
    (ne : block ≢ 0) (low : i < 524288) where
  -- A round: what the entry's address is.
  read_entry :
      (a child p : ℕ)
      → a < 16
      → read_block_u64 child block (a * 256 + 256 - 8) (record s { at = p })
        ≡ ret
            (word s.byte (block + (a * 256 + 248)))
            (record s { at = block + (a * 256 + 256 - 8) + 8 })
  read_entry a child p h =
      let o : a * 256 + 256 - 8 ≡ a * 256 + 248 = omega arith in
      rw o (
        read_block_u64-ok (record s { at = p }) block (a * 256 + 248)
          (record { inside = on.inside; small = on.small }) (omega arith) child ne)

  -- The loop comes to the entry `m` and runs `act` there.
  entry_loop-first :
      (Q : Option ℤ × ℕ → Fs → Type 0) (m k a child p : ℕ)
      → a + k ≡ 16
      → a ≤ m
      → m < 16
      → m * 256 + i * 4096 < size
      → word s.byte (block + (m * 256 + 248)) ≡ cur
      → ((b : ℕ) → a ≤ b → b < m → word s.byte (block + (b * 256 + 248)) ≢ cur)
      → ((c p' : ℕ)
          → Returns Q
              (and_then (act i (m * 256) block (record s { at = p' })) (λ r. ret (some r, c))))
      → Returns Q (entry_loop act k i (a * 256) block size cur child (record s { at = p }))
  unfolding entry_loop
  entry_loop-first Q m zero a child p e l h fits here before next = absurd (omega arith)
  entry_loop-first Q m (suc k) a child p e l h fits here before next =
      rw
        (
          int_u64-small (a * 256 + i * 4096) (omega arith),
          lt→ltb (a * 256 + i * 4096) size (omega arith),
          read_entry a child p (omega arith),
        )
        (elim (Bool-cases (a == m)) [
          | inl found ↦
              let z : a ≡ m = ==→eq a m found in
              rw (z, eq→== (word s.byte (block + (m * 256 + 248))) cur here) (next _ _)
          | inr further ↦
              let l' : a < m = omega (arith, ==→ne a m further) in
              let step : a * 256 + 256 ≡ (a + 1) * 256 = omega arith in
              rw
                (
                  ne→== (word s.byte (block + (a * 256 + 248))) cur (before a (omega arith) l'),
                  step,
                )
                (entry_loop-first Q m k (a + 1) _ _ (omega arith) (omega arith) h fits here
                  (λ b b1 b2. before b (omega arith) b2) next)
        ])

  -- The loop goes through the block without a match.
  entry_loop-none :
      (k a child p : ℕ)
      → a + k ≡ 16
      → ((b : ℕ)
          → a ≤ b
          → b < 16
          → b * 256 + i * 4096 < size
          → word s.byte (block + (b * 256 + 248)) ≢ cur)
      → Returns
          (λ r t. (r.0 ≡ none) × OnlyAt s t)
          (entry_loop act k i (a * 256) block size cur child (record s { at = p }))
  unfolding entry_loop
  entry_loop-none zero a child p e other = (refl, refl)
  entry_loop-none (suc k) a child p e other = elim (Bool-cases (ltb (a * 256 + i * 4096) size)) [
    | inl within ↦
        let l : a * 256 + i * 4096 < size = ltb→lt (a * 256 + i * 4096) size within in
        let step : a * 256 + 256 ≡ (a + 1) * 256 = omega arith in
        rw
          (
            int_u64-small (a * 256 + i * 4096) (omega arith),
            within,
            read_entry a child p (omega arith),
            ne→== (word s.byte (block + (a * 256 + 248))) cur
                (other a (omega arith) (omega arith) l),
            step,
          )
          (entry_loop-none k (a + 1) _ _ (omega arith) λ b b1 b2 b3. other b (omega arith) b2 b3)
    | inr past ↦ rw (int_u64-small (a * 256 + i * 4096) (omega arith), past) (refl, refl)
  ]

module _ (s : Fs) (d : Node) (cur : ℕ) (v : IsMapped s.byte s.size d) (act : ℕ → ℕ → ℕ → Cmd ℤ)
    (few : d.blocks ≤ 524288) where
  on_block : (i : ℕ) → i < d.blocks → IsOnDevice s (block_at s.byte d i)
  on_block i h = record { inside = (v.blocks_ok i h).inside; small = v.small }

  entry_of :
      (i b : ℕ)
      → b < 16
      → word s.byte (block_at s.byte d i + (b * 256 + 248)) ≡ entry_address s.byte d (i * 16 + b)
  entry_of i b h =
      let x : (i * 16 + b) / 16 ≡ i = omega arith in
      let y : (i * 16 + b) % 16 ≡ b = omega arith in rw (x, y) refl

  -- The search comes to the first entry with the address, and what `act` does there is its result.
  pub blocks_loop-first :
      (Q : ℤ → Fs → Type 0) (q k i child p : ℕ)
      → i + k ≡ d.blocks
      → i ≤ q / 16
      → q / 16 < d.blocks
      → q * 256 < d.size
      → entry_address s.byte d q ≡ cur
      → ((b : ℕ) → b < q → entry_address s.byte d b ≢ cur)
      → ((p' : ℕ)
          → Returns Q
              (act (q / 16) (q % 16 * 256) (block_at s.byte d (q / 16)) (record s { at = p' })))
      → Returns Q (blocks_loop act k i d cur child (record s { at = p }))
  unfolding blocks_loop
  blocks_loop-first Q q zero i child p e l h fits here before next = absurd (omega arith)
  blocks_loop-first Q q (suc k) i child p e l h fits here before next =
      let m : i < d.blocks = omega arith in
      let ne : block_at s.byte d i ≢ 0 = let b = (v.blocks_ok i m).behind in omega arith in
      rw (lt→leb d.blocks i m) (
        Returns-bind_at (λ x. x ≡ block_at s.byte d i) Q s (get_i_block d i (record s { at = p })) _
          (get_i_block-IsMapped d i (record s { at = p }) v m)
          λ x p' ex.
            rw (ex, ne→== (block_at s.byte d i) 0 ne)
              (elim (Bool-cases (i == q / 16)) [
                | inl same ↦
                    let z : q / 16 ≡ i = sym (==→eq i (q / 16) same) in
                    let index : i * 16 + q % 16 ≡ q = omega arith in
                    let found : word s.byte (block_at s.byte d i + (q % 16 * 256 + 248)) ≡ cur =
                      (rw z at here) in
                    Returns-bind (λ r t. (x : ℤ) × (r.0 ≡ some x) × Q x t) Q
                      (entry_loop act 16 i 0 (block_at s.byte d i) d.size cur child
                        (record s { at = p' }))
                      _
                      (entry_loop-first s act i (block_at s.byte d i) d.size cur (on_block i m) ne
                        (omega arith) (λ r t. (x : ℤ) × (r.0 ≡ some x) × Q x t) (q % 16) 16 0 child
                        p' (omega arith) (omega arith) (omega arith) (omega arith) found
                        (λ b b1 b2.
                          rw (entry_of i b (omega arith)) (before (i * 16 + b) (omega arith)))
                        λ c p''.
                          Returns-bind Q _
                            (act i (q % 16 * 256) (block_at s.byte d i) (record s { at = p'' })) _
                            (rw z at (next p'')) λ r t a. (r, refl, a))
                      λ (r, c) t (x, some_found, a). rw some_found a
                | inr further ↦
                    let l' : i < q / 16 = omega (arith, ==→ne i (q / 16) further) in
                    Returns-bind_at (λ r. r.0 ≡ none) Q s
                      (entry_loop act 16 i 0 (block_at s.byte d i) d.size cur child
                        (record s { at = p' }))
                      _
                      (entry_loop-none s act i (block_at s.byte d i) d.size cur (on_block i m) ne
                        (omega arith) 16 0 child p' (omega arith)
                        λ b b1 b2 b3. rw (entry_of i b b2) (before (i * 16 + b) (omega arith)))
                      λ (r, c) p'' none_found.
                        rw (none_found, int_u64-small (i + 1) (omega arith))
                          (blocks_loop-first Q q k (i + 1) c p'' (omega arith) (omega arith) h fits
                            here before next)
              ]))

  -- No entry has the address.
  pub blocks_loop-none :
      (k i child p : ℕ)
      → i + k ≡ d.blocks
      → ((b : ℕ) → b * 256 < d.size → entry_address s.byte d b ≢ cur)
      → Returns
          (λ r t. (r ≡ negsuc 0) × OnlyAt s t)
          (blocks_loop act k i d cur child (record s { at = p }))
  unfolding blocks_loop
  blocks_loop-none zero i child p e other = (refl, refl)
  blocks_loop-none (suc k) i child p e other =
      let m : i < d.blocks = omega arith in
      let ne : block_at s.byte d i ≢ 0 = let b = (v.blocks_ok i m).behind in omega arith in
      rw (lt→leb d.blocks i m) (
        Returns-bind_at (λ x. x ≡ block_at s.byte d i) _ s (get_i_block d i (record s { at = p })) _
          (get_i_block-IsMapped d i (record s { at = p }) v m)
          λ x p' ex.
            rw (ex, ne→== (block_at s.byte d i) 0 ne)
              (Returns-bind_at (λ r. r.0 ≡ none) _ s
                (entry_loop act 16 i 0 (block_at s.byte d i) d.size cur child
                  (record s { at = p' }))
                _
                (entry_loop-none s act i (block_at s.byte d i) d.size cur (on_block i m) ne
                  (omega arith) 16 0 child p' (omega arith)
                  λ b b1 b2 b3. rw (entry_of i b b2) (other (i * 16 + b) (omega arith)))
                λ (r, c) p'' none_found.
                  rw (none_found, int_u64-small (i + 1) (omega arith))
                    (blocks_loop-none k (i + 1) c p'' (omega arith) other)))
