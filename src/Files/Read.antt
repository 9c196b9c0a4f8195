-- ===== src/Files/Read.antt =====
-- The loop of `tfs_read`: the bytes that it gives are those of the file's contents.
use tyrant_fs.Base.{
  ℕ, zero, suc, ◌+◌, ◌-◌, ◌*◌, ◌/◌, ◌%◌, ◌≤◌, ◌<◌, ◌≡◌, refl, sym, ap, ap₂, ◌∙◌, inl, inr, [], ◌∷◌,
  ◌++◌, append-nil, arith, Bool-cases, ltb, ltb→lt, ◌==◌, ==→eq, length, min,
}
use tyrant_fs.Base.Bytes.{Memory, bytes_at, length-bytes_at}
use tyrant_fs.Base.Word.{sub64}
use tyrant_fs.Device.{Fs}
use tyrant_fs.Device.Command.{Run, and_then, Returns, Returns-bind}
use tyrant_fs.Block.{read_block}
use tyrant_fs.Block.Io.{IsOnDevice, read_block-ok, read_block-cut}
use tyrant_fs.Inode.{Node}
use tyrant_fs.Inode.Search.{OnlyAt}
use tyrant_fs.BlockMap.{get_i_block}
use tyrant_fs.BlockMap.Address.{block_at, get_i_block-block_at}
use tyrant_fs.Files.{read_loop}
use tyrant_fs.Files.Contents.{IsMapped, contents}
use mathlib.Core.Path.{subst⁻¹}

-- After a command that only moves the file position.
pub Returns-bind_at :
    {A B : Type 0} (P : A → Type 0) (Q : B → Fs → Type 0) (s : Fs) (r : Run Fs A)
    (k : A → Fs → Run Fs B)
    → Returns (λ a t. P a × OnlyAt s t) r
    → ((a : A) (p : ℕ) → P a → Returns Q (k a (record s { at = p })))
    → Returns Q (and_then r k)
Returns-bind_at P Q s r k h next =
    Returns-bind (λ a t. P a × OnlyAt s t) Q r k h
      λ a t (p, o). subst⁻¹ (λ u. Returns Q (k a u)) o (next a t.at p)

-- The block's address, at any file position.
pub get_i_block-IsMapped :
    (n : Node) (i : ℕ) (s : Fs)
    → IsMapped s.byte s.size n
    → i < n.blocks
    → Returns (λ x t. (x ≡ block_at s.byte n i) × OnlyAt s t) (get_i_block n i s)
get_i_block-IsMapped n i s v h =
    get_i_block-block_at n i s h (omega (arith, v.reach)) (v.tables_ok i h) v.small

bytes_at-split :
    (f : Memory) (a m k : ℕ) → bytes_at f a (m + k) ≡ bytes_at f a m ++ bytes_at f (a + m) k
unfolding bytes_at
bytes_at-split f a zero k =
    let e : 0 + k ≡ k = omega arith in
    let z : a ≡ a + 0 = omega arith in ap (bytes_at f a) e ∙ ap (λ b. bytes_at f b k) z
bytes_at-split f a (suc m) k =
    let e : suc m + k ≡ suc (m + k) = omega arith in
    let z : a + 1 + m ≡ a + suc m = omega arith in
    ap (bytes_at f a) e
    ∙ ap (λ t. f a ∷ t)
        (bytes_at-split f (a + 1) m k ∙ ap (λ b. bytes_at f (a + 1) m ++ bytes_at f b k) z)

pub bytes_at-none : (f : Memory) (a m : ℕ) → m ≡ 0 → [] ≡ bytes_at f a m
unfolding bytes_at
bytes_at-none f a m z = rw z refl

-- The same bytes at two places.
pub bytes_at-shift :
    (f g : Memory) (a b m : ℕ)
    → ((i : ℕ) → i < m → f (a + i) ≡ g (b + i))
    → bytes_at f a m ≡ bytes_at g b m
unfolding bytes_at
bytes_at-shift f g a b zero h = refl
bytes_at-shift f g a b (suc m) h =
    ap₂ ◌∷◌ (ap f (omega arith) ∙ h 0 (omega arith) ∙ ap g (omega arith)) (
      bytes_at-shift f g (a + 1) (b + 1) m
        λ i p. ap f (omega arith) ∙ h (suc i) (omega arith) ∙ ap g (omega arith))

module _ (s : Fs) (n : Node) (v : IsMapped s.byte s.size n) where
  -- The part of the file that lies in one block.
  in_block :
      (i loc m : ℕ)
      → loc + m ≤ 4096
      → bytes_at s.byte (block_at s.byte n i + loc) m
        ≡ bytes_at (contents s.byte n) (i * 4096 + loc) m
  in_block i loc m fits =
      bytes_at-shift s.byte (contents s.byte n) (block_at s.byte n i + loc) (i * 4096 + loc) m
        λ j p.
          let d : i ≡ (i * 4096 + loc + j) / 4096 = omega arith in
          let r : loc + j ≡ (i * 4096 + loc + j) % 4096 = omega arith in
          ap s.byte (omega arith) ∙ ap₂ (λ k o. s.byte (block_at s.byte n k + o)) d r

  -- One round: what `read_block` gives of a request for `count` bytes.
  read_part :
      (i loc count p : ℕ)
      → i < n.blocks
      → loc < 4096
      → Returns
          (λ bs t.
            (bs ≡ bytes_at (contents s.byte n) (i * 4096 + loc) (min count (4096 - loc)))
            × OnlyAt s t)
          (read_block (block_at s.byte n i) loc count (record s { at = p }))
  read_part i loc count p h l =
      let b = v.blocks_ok i h in
      let on : IsOnDevice (record s { at = p }) (block_at s.byte n i) = record {
        inside = b.inside;
        small = v.small;
      } in
      elim (Bool-cases (ltb (4096 - loc) count)) [
        | inl cut ↦
            let c : 4096 - loc < count = ltb→lt (4096 - loc) count cut in
            let m : min count (4096 - loc) ≡ 4096 - loc = omega arith in
            rw
              (
                read_block-cut (record s { at = p }) (block_at s.byte n i) loc on (omega arith)
                    count (omega (arith, b.behind)) (omega arith),
                m,
              )
              (in_block i loc (4096 - loc) (omega arith), refl)
        | inr whole ↦
            let c : count ≤ 4096 - loc = ground (arith, whole) in
            let m : min count (4096 - loc) ≡ count = omega arith in
            rw
              (
                read_block-ok (record s { at = p }) (block_at s.byte n i) loc on (omega arith) count
                    (omega (arith, b.behind)) (omega arith),
                m,
              )
              (in_block i loc count (omega arith), refl)
      ]

  joined :
      (i loc count m : ℕ)
      → loc < 4096
      → m ≡ min count (4096 - loc)
      → bytes_at (contents s.byte n) (i * 4096 + loc) m
          ++ bytes_at (contents s.byte n) ((i + 1) * 4096 + 0) (count - m)
        ≡ bytes_at (contents s.byte n) (i * 4096 + loc) count
  joined i loc count m l e =
      let total : m + (count - m) ≡ count = omega arith in
      elim (Bool-cases (ltb (4096 - loc) count)) [
        | inl cut ↦
            let c : 4096 - loc < count = ltb→lt (4096 - loc) count cut in
            let next : (i + 1) * 4096 + 0 ≡ i * 4096 + loc + m = omega arith in
            ap
              (λ a.
                bytes_at (contents s.byte n) (i * 4096 + loc) m
                ++ bytes_at (contents s.byte n) a (count - m))
              next
            ∙ sym (bytes_at-split (contents s.byte n) (i * 4096 + loc) m (count - m))
            ∙ ap (bytes_at (contents s.byte n) (i * 4096 + loc)) total
        | inr whole ↦
            let c : count ≤ 4096 - loc = ground (arith, whole) in
            let z : count - m ≡ 0 = omega arith in
            let same : m ≡ count = omega arith in
            ap (λ t. bytes_at (contents s.byte n) (i * 4096 + loc) m ++ t)
              (sym (bytes_at-none (contents s.byte n) ((i + 1) * 4096 + 0) (count - m) z))
            ∙ append-nil _
            ∙ ap (bytes_at (contents s.byte n) (i * 4096 + loc)) same
      ]

  pub read_loop-contents :
      (k i loc count p : ℕ)
      → i + k ≡ n.blocks
      → loc < 4096
      → i * 4096 + loc + count ≤ n.blocks * 4096
      → Returns
          (λ bs t. (bs ≡ bytes_at (contents s.byte n) (i * 4096 + loc) count) × OnlyAt s t)
          (read_loop k n i loc count (record s { at = p }))
  unfolding read_loop
  read_loop-contents zero i loc count p e l fits =
      (bytes_at-none (contents s.byte n) (i * 4096 + loc) count (omega arith), refl)
  read_loop-contents (suc k) i loc count p e l fits = elim (Bool-cases (count == 0)) [
    | inl none ↦
        rw none
          (bytes_at-none (contents s.byte n) (i * 4096 + loc) count (==→eq count 0 none), refl)
    | inr more ↦
        let h : i < n.blocks = omega arith in
        let m : ℕ = min count (4096 - loc) in
        rw more (
          Returns-bind_at (λ x. x ≡ block_at s.byte n i) _ s (get_i_block n i (record s { at = p }))
            _ (get_i_block-IsMapped n i (record s { at = p }) v h)
            λ x q ex. rw ex (
              Returns-bind_at (λ bs. bs ≡ bytes_at (contents s.byte n) (i * 4096 + loc) m) _ s
                (read_block (block_at s.byte n i) loc count (record s { at = q })) _
                (read_part i loc count q h l)
                λ bs q' eb.
                  let len : length bs ≡ m =
                    ap length eb ∙ length-bytes_at (contents s.byte n) (i * 4096 + loc) m in
                  let left : sub64 count (length bs) ≡ count - m = omega (arith, v.reach) in
                  rw left (
                    Returns-bind_at
                      (λ bs'. bs' ≡ bytes_at (contents s.byte n) ((i + 1) * 4096 + 0) (count - m)) _
                      s (read_loop k n (i + 1) 0 (count - m) (record s { at = q' })) _
                      (read_loop-contents k (i + 1) 0 (count - m) q' (omega arith) (omega arith)
                        (omega arith))
                      λ rest q'' er. (ap₂ ◌++◌ eb er ∙ joined i loc count m l refl, refl))))
  ]
