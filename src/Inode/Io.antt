-- ===== src/Inode/Io.antt =====
-- Fetching, committing and freeing inodes on the device.
use tyrant_fs.Base.{
  ℕ, ◌+◌, ◌-◌, ◌≤◌, ◌≡◌, refl, sym, ap, ◌∙◌, ◌≢◌, ◌⊎◌, inl, inr, List, arith, ne→==, length,
  replicate, length-replicate, get_or-replicate,
}
use tyrant_fs.Base.Bytes.{Memory, bytes_at, store, le_value, overlay_full, length-bytes_at}
use tyrant_fs.Base.Store.{
  bytes_at-store, bytes_at-store_above, bytes_at-store_below, store_in, le_value-zero,
}
use tyrant_fs.Base.Int.{pos}
use tyrant_fs.Device.{Fs}
use tyrant_fs.Device.Command.{ret, Returns}
use tyrant_fs.Device.Rules.{lseek_set-le, read-le, write-le}
use tyrant_fs.Inode.{
  Node, encode, decode, unpack, of_values, stale_node, fetch_inode, fetch_new, commit_inode,
  free_inode,
}
use tyrant_fs.Inode.Codec.{
  IsNode, length-encode, length-decode, length-direct_blocks, decode-encode,
}

-- The inode at an address.
unfoldable pub inode_at : Memory → ℕ → Node
inode_at f loc = decode (bytes_at f loc 208)

-- Two inodes' places do not overlap.
abbrev pub Apart : ℕ → ℕ → Type 0
Apart a b = (a + 256 ≤ b) ⊎ (b + 256 ≤ a)

module _ (s : Fs) (loc : ℕ) (ne : loc ≢ 0) (fits : loc + 256 ≤ s.size) where
  pub fetch_inode-ok :
      (buff : Node)
      → length buff.direct_blocks ≡ 12
      → fetch_inode loc buff s ≡ ret (inode_at s.byte loc) (record s { at = loc + 208 })
  unfolding fetch_inode inode_at
  fetch_inode-ok buff h = rw (
    ne→== loc 0 ne,
    lseek_set-le s loc (omega arith),
    read-le (record s { at = loc }) 208 (omega arith),
    overlay_full (bytes_at s.byte loc 208) (encode buff)
        (omega (arith, length-encode buff h, length-bytes_at s.byte loc 208)),
  )

  -- The uninitialised local has its full length too.
  pub fetch_new-ok : fetch_new loc s ≡ ret (inode_at s.byte loc) (record s { at = loc + 208 })
  unfolding fetch_new stale_node
  fetch_new-ok = fetch_inode-ok _ (length-decode (bytes_at s.env.stale 0 208))

  pub commit_inode-ok :
      (n : Node)
      → IsNode n
      → commit_inode n loc s
        ≡ ret (pos 208) (record s { byte = store s.byte loc (encode n); at = loc + 208 })
  unfolding commit_inode
  commit_inode-ok n h =
      let l = length-encode n (length-direct_blocks n h) in
      rw (lseek_set-le s loc (omega arith)) (
        write-le (record s { at = loc }) (encode n) (omega arith) (omega arith)
        ∙ ap (λ k. ret (pos k) (record s { byte = store s.byte loc (encode n); at = loc + k })) l)

module _ (f : Memory) (loc : ℕ) (n : Node) (h : IsNode n) where
  -- What was committed is what the place holds.
  pub inode_at-store_self : inode_at (store f loc (encode n)) loc ≡ n
  unfolding inode_at
  inode_at-store_self =
      ap (λ k. decode (bytes_at (store f loc (encode n)) loc k))
        (sym (length-encode n (length-direct_blocks n h)))
      ∙ ap decode (bytes_at-store f loc (encode n))
      ∙ decode-encode n h

  -- Other places keep their inodes.
  pub inode_at-store-Apart :
      (other : ℕ) → Apart loc other → inode_at (store f loc (encode n)) other ≡ inode_at f other
  unfolding inode_at
  inode_at-store-Apart other a = elim a [
    | inl p ↦ ap decode (
        bytes_at-store_above f loc (encode n) other 208
          (omega (arith, length-encode n (length-direct_blocks n h))))
    | inr p ↦ ap decode (bytes_at-store_below f loc (encode n) other 208 (omega arith))
  ]

inode_at-store_other :
    (f : Memory) (loc : ℕ) (bs : List ℕ)
    → length bs ≡ 256
    → (other : ℕ) → Apart loc other
    → inode_at (store f loc bs) other ≡ inode_at f other
unfolding inode_at
inode_at-store_other f loc bs l other a = elim a [
  | inl p ↦ ap decode (bytes_at-store_above f loc bs other 208 (omega arith))
  | inr p ↦ ap decode (bytes_at-store_below f loc bs other 208 (omega arith))
]

-- At an address other than 0 where 256 bytes are on the device, an inode whose members are
-- within their types is committed with 208 bytes, a fetch into a valid buffer gives it back and
-- changes no byte, and inodes at places 256 bytes apart are not changed.
pub fetch_inode-commit_inode :
    (s : Fs) (loc : ℕ) (n buff : Node)
    → loc ≢ 0
    → loc + 256 ≤ s.size
    → IsNode n
    → IsNode buff
    → Returns
        (λ r t.
          (r ≡ pos 208)
          × Returns (λ m u. (m ≡ n) × (u.byte ≡ t.byte)) (fetch_inode loc buff t)
          × ((other : ℕ) → Apart loc other → inode_at t.byte other ≡ inode_at s.byte other))
        (commit_inode n loc s)
fetch_inode-commit_inode s loc n buff ne fits h hb =
    let t : Fs = record s { byte = store s.byte loc (encode n); at = loc + 208 } in
    rw (commit_inode-ok s loc ne fits n h) (
      refl,
      rw (fetch_inode-ok t loc ne fits buff (length-direct_blocks buff hb))
          (inode_at-store_self s.byte loc n h, refl),
      inode_at-store-Apart s.byte loc n h,
    )

-- What `free_inode` writes.
pub free_inode-ok :
    (s : Fs) (loc : ℕ)
    → loc ≢ 0
    → loc + 256 ≤ s.size
    → free_inode loc s
      ≡ ret (pos 0) (record s { byte = store s.byte loc (replicate 256 0); at = loc + 208 })
unfolding free_inode
free_inode-ok s loc ne fits =
    let zeros : List ℕ = replicate 256 0 in
    let l : length zeros ≡ 256 = length-replicate {0} {A = ℕ} 256 0 in
    rw
      (
        ne→== loc 0 ne,
        lseek_set-le s loc (omega arith),
        write-le (record s { at = loc }) zeros (omega arith) (omega arith),
        fetch_new-ok (record s { byte = store s.byte loc zeros; at = loc + length zeros }) loc ne
            fits,
      )
      refl

-- `mode` stands at byte 8 of an inode.
pub mode_at : (f : Memory) (loc : ℕ) → (inode_at f loc).mode ≡ le_value (bytes_at f (loc + 8) 4)
unfolding inode_at decode unpack of_values bytes_at
mode_at f loc = ap (λ p. le_value (bytes_at f p 4)) at
  where
    at : loc + 1 + 1 + 1 + 1 + 1 + 1 + 1 + 1 ≡ loc + 8
    at = omega arith

-- At an address other than 0 where 256 bytes are on the device, `free_inode` returns 0 and
-- leaves an inode of mode 0, one that can be allocated again; inodes at places 256 bytes apart
-- are not changed.
pub free_inode_lem :
    (s : Fs) (loc : ℕ)
    → loc ≢ 0
    → loc + 256 ≤ s.size
    → Returns
        (λ r t.
          (r ≡ pos 0)
          × ((inode_at t.byte loc).mode ≡ 0)
          × ((other : ℕ) → Apart loc other → inode_at t.byte other ≡ inode_at s.byte other))
        (free_inode loc s)
free_inode_lem s loc ne fits =
    let zeros : List ℕ = replicate 256 0 in
    let l : length zeros ≡ 256 = length-replicate {0} {A = ℕ} 256 0 in
    let g : Memory = store s.byte loc zeros in
    rw (free_inode-ok s loc ne fits) (
      refl,
      mode_at g loc
          ∙ le_value-zero g (loc + 8) 4 (λ x p q.
            store_in s.byte loc zeros x (omega arith) (omega arith)
            ∙ get_or-replicate 256 (x - loc) 0),
      inode_at-store_other s.byte loc zeros l,
    )
