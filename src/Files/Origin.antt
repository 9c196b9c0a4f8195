-- ===== src/Files/Origin.antt =====
-- Where the blocks of a file that has grown come from.
use tyrant_fs.Base.{
  ℕ, ◌≤◌, ◌<◌, ◌≡◌, sym, ◌∙◌, ◌⊎◌, inl, inr, List, arith, ◌==◌, Bool-cases, ==→eq, ==→ne,
  get_or-set, get_or-set_lt, length, ap, get_or,
}
use tyrant_fs.Device.{Fs}
use tyrant_fs.Inode.{Node}
use tyrant_fs.FreeList.Chain.{count, members}
use tyrant_fs.BlockMap.Address.{block_at}
use tyrant_fs.BlockMap.Grow.{with_direct}
use tyrant_fs.Files.Small.{block_at-direct}

-- Each block of `m` in state `t` is that of `n` in state `s` at the same index, or was free.
abbrev pub Origin : Fs → List ℕ → Node → Node → Fs → Type 0
Origin s bs n m t =
    (i : ℕ)
    → i < m.blocks
    → ((i < n.blocks) × (block_at t.byte m i ≡ block_at s.byte n i))
      ⊎ (0 < count (block_at t.byte m i) (members s.byte bs))

-- The direct blocks do not depend on the bytes.
pub Origin-refl :
    (s t : Fs) (bs : List ℕ) (n m : Node)
    → n.blocks ≤ 12
    → m.blocks ≡ n.blocks
    → m.direct_blocks ≡ n.direct_blocks
    → Origin s bs n m t
Origin-refl s t bs n m few blocks direct i h = inl (
  omega arith,
  block_at-direct t.byte m i (omega arith)
      ∙ ap (λ d. get_or d i 0) direct
      ∙ sym (block_at-direct s.byte n i (omega arith)),
)

pub Origin-trans :
    (s t u : Fs) (bs left : List ℕ) (n m l : Node)
    → ((x : ℕ) → count x (members t.byte left) ≤ count x (members s.byte bs))
    → Origin s bs n m t
    → Origin t left m l u
    → Origin s bs n l u
Origin-trans s t u bs left n m l fewer a b i h = elim (b i h) [
  | inl (p, e) ↦ elim (a i p) [ inl (q, e') ↦ inl (q, e ∙ e') | inr free ↦ inr (rw e free) ]
  | inr free ↦ inr (omega (arith, fewer (block_at u.byte l i)))
]

pub with_direct-Origin :
    (s t : Fs) (bs : List ℕ) (n : Node) (r : ℕ)
    → n.blocks < 12
    → length n.direct_blocks ≡ 12
    → 0 < count r (members s.byte bs)
    → Origin s bs n (with_direct n r) t
with_direct-Origin s t bs n r few full free i h = elim (Bool-cases (i == n.blocks)) [
  | inl e ↦
      let z = ==→eq i n.blocks e in
      let new : block_at t.byte (with_direct n r) i ≡ r =
        block_at-direct t.byte (with_direct n r) i (omega arith)
        ∙ ap (λ k. get_or (with_direct n r).direct_blocks k 0) z
        ∙ get_or-set n.direct_blocks n.blocks r 0 (omega arith) in
      inr (rw new free)
  | inr e ↦
      let l : i < n.blocks = omega (arith, ==→ne i n.blocks e) in
      inl (
        l,
        block_at-direct t.byte (with_direct n r) i (omega arith)
            ∙ get_or-set_lt n.direct_blocks n.blocks i r 0 l
            ∙ sym (block_at-direct s.byte n i (omega arith)),
      )
]
