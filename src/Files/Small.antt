-- ===== src/Files/Small.antt =====
-- A file of at most 12 blocks on a device with a free list, and a block added to it.
use tyrant_fs.Base.{
  ℕ, ◌+◌, ◌*◌, ◌/◌, ◌%◌, ◌≤◌, ◌<◌, ◌≡◌, ◌≢◌, refl, ◌⊎◌, List, [], arith, get_or, lt→ltb, set,
  get_or-set, get_or-set_lt, Bool-cases, ==→eq, ==→ne, inl, inr, ap, ◌∙◌, sym, ◌==◌,
}
use tyrant_fs.Base.Bytes.{Memory, store}
use tyrant_fs.Device.{Fs}
use tyrant_fs.Inode.{Node, encode}
use tyrant_fs.FreeList.Chain.{count, members, IsBlock}
use tyrant_fs.FreeList.Head.{apart}
use tyrant_fs.FreeList.Refine.{IsFormatted, OnlyBytes, IsFormatted-Allocated, Allocated}
use tyrant_fs.BlockMap.Address.{block_at, tables, All}
use tyrant_fs.Files.Contents.{contents, KeepsTables, same_address}
use tyrant_fs.Files.Placed.{IsPlaced, Off, IsPlaced-KeepsTables}
use tyrant_fs.FreeList.Frame.{KeepsFree, members-KeepsFree, IsFreeList-KeepsFree, store-KeepsFree}
use tyrant_fs.Inode.Codec.{IsNode, length-encode, length-direct_blocks}
use tyrant_fs.BlockMap.Grow.{with_direct-IsNode, with_direct}
use tyrant_fs.Base.Store.{store_off}

-- The free list spares the inode `n` at `cur` and its blocks, which are direct ones.
pub record IsSmall (s : Fs) (bs : List ℕ) (n : Node) (cur : ℕ) : Type 0 where
  pub placed : IsPlaced s.byte s.size n cur
  pub few : n.blocks ≤ 12
  pub formatted : IsFormatted s bs
  pub spared : (b : ℕ) → 0 < count b (members s.byte bs) → Off cur b
  pub used : (i : ℕ) → i < n.blocks → count (block_at s.byte n i) (members s.byte bs) ≡ 0

-- The file `m` in state `t` has the contents of `n` in state `s`, with blocks from the free list
-- behind them; nothing else differs but the inode and the free list.
pub record GrewTo (s : Fs) (bs : List ℕ) (n : Node) (cur : ℕ) (m : Node) (t : Fs) (left : List ℕ)
    : Type 0 where
  pub small : IsSmall t left m cur
  pub same : m ≡ record n { blocks = m.blocks; direct_blocks = m.direct_blocks }
  pub more : n.blocks ≤ m.blocks
  pub kept : (x : ℕ) → x < n.blocks * 4096 → contents t.byte m x ≡ contents s.byte n x
  pub fewer : (x : ℕ) → count x (members t.byte left) ≤ count x (members s.byte bs)
  pub elsewhere :
      (y : ℕ)
      → 8 ≤ y
      → (y < cur) ⊎ (cur + 256 ≤ y)
      → ((b : ℕ) → 0 < count b (members s.byte bs) → (y < b) ⊎ (b + 4096 ≤ y))
      → t.byte y ≡ s.byte y
  pub only : OnlyBytes s t

pub block_at-direct :
    (f : Memory) (n : Node) (i : ℕ) → i < 12 → block_at f n i ≡ get_or n.direct_blocks i 0
unfolding block_at
block_at-direct f n i h = rw (lt→ltb i 12 h) refl

pub tables-direct : (f : Memory) (n : Node) (i : ℕ) → i < 12 → tables f n i ≡ []
unfolding tables
tables-direct f n i h = rw (lt→ltb i 12 h) refl

module _ (s : Fs) (bs : List ℕ) (n : Node) (cur : ℕ) (v : IsSmall s bs n cur) where
  -- A byte of the file is in none of the free blocks.
  pub in_use :
      (x : ℕ)
      → x < n.blocks * 4096
      → (b : ℕ) → 0 < count b (members s.byte bs)
      → (block_at s.byte n (x / 4096) + x % 4096 < b)
        ⊎ (b + 4096 ≤ block_at s.byte n (x / 4096) + x % 4096)
  in_use x h b p =
      let i : x / 4096 < n.blocks = omega arith in
      let u = v.used (x / 4096) i in
      let ne : b ≢ block_at s.byte n (x / 4096) = λ e. absurd (omega (arith, (rw e at p))) in
      let a = apart ((v.formatted).list.valid b p) ((v.placed).mapped.blocks_ok (x / 4096) i) ne in
      omega arith

  pub direct-KeepsTables : (g : Memory) → KeepsTables s.byte g n
  direct-KeepsTables g i h = rw (tables-direct s.byte n i (omega (arith, v.few))) tt

  pub direct-IsPlaced : (g : Memory) → IsPlaced g s.size n cur
  direct-IsPlaced g = IsPlaced-KeepsTables g v.placed (direct-KeepsTables g)

  -- The allocation of a block leaves the file.
  pub Allocated-GrewTo : (r : ℕ) (t : Fs) (d : Allocated s bs r t) → GrewTo s bs n cur n t d.0
  Allocated-GrewTo r t d =
      let size : t.size ≡ s.size = ap (λ (u : Fs). u.size) (d.2) in
      let fewer : (x : ℕ) → count x (members t.byte d.0) ≤ count x (members s.byte bs) =
        λ x. omega (arith, (d.1).rest x) in
      let address : (i : ℕ) → i < n.blocks → block_at t.byte n i ≡ block_at s.byte n i =
        λ i h. same_address t.byte (v.placed).mapped (direct-KeepsTables t.byte) i h in
      record {
        small = record {
          placed = rw size (direct-IsPlaced t.byte);
          few = v.few;
          formatted = IsFormatted-Allocated v.formatted d;
          spared = λ b p. v.spared b (omega (arith, fewer b));
          used = λ i h. rw (address i h) (omega (arith, fewer (block_at s.byte n i), v.used i h));
        };
        same = refl;
        more = omega arith;
        kept = λ x h.
            let i : x / 4096 < n.blocks = omega arith in
            rw (address (x / 4096) i) (
              (d.1).kept (block_at s.byte n (x / 4096) + x % 4096)
                (omega (arith, ((v.placed).mapped.blocks_ok (x / 4096) i).behind)) (in_use x h));
        fewer = fewer;
        elsewhere = λ y h o away. (d.1).kept y h away;
        only = d.2;
      }

  module _ (m : Node) (ok : IsNode m) where
    pub committed-KeepsFree : KeepsFree s.byte (store s.byte cur (encode m)) bs
    committed-KeepsFree =
        store-KeepsFree s.byte cur (encode m) bs 256
          (omega (arith, length-encode m (length-direct_blocks m ok)))
          (omega (arith, (v.placed).behind)) v.spared

  -- A block that was taken becomes the next one of the file.
  pub with_direct-GrewTo :
      (r p : ℕ)
      → n.blocks < 12
      → IsBlock s.size r
      → count r (members s.byte bs) ≡ 0
      → Off cur r
      → ((i : ℕ) → i < n.blocks → r ≢ block_at s.byte n i)
      → GrewTo s bs n cur
          (with_direct n r)
          (record s { byte = store s.byte cur (encode (with_direct n r)); at = p })
          bs
  with_direct-GrewTo r p more ok gone off fresh =
      let m : Node = with_direct n r in
      let d : List ℕ = set n.direct_blocks n.blocks r in
      let u = v.placed in
      let small = (u.mapped).small in
      let m_ok : IsNode m = with_direct-IsNode n r u.node more (omega (arith, ok.inside)) in
      let len = length-encode m (length-direct_blocks m m_ok) in
      let g : Memory = store s.byte cur (encode m) in
      let keeps : KeepsFree s.byte g bs = committed-KeepsFree m m_ok in
      let free : members g bs ≡ members s.byte bs = members-KeepsFree (v.formatted).list keeps in
      let old : (i : ℕ) → i < n.blocks → block_at g m i ≡ block_at s.byte n i = λ i h.
        block_at-direct g m i (omega arith)
        ∙ get_or-set_lt n.direct_blocks n.blocks i r 0 h
        ∙ sym (block_at-direct s.byte n i (omega arith)) in
      let new : block_at g m n.blocks ≡ r =
        block_at-direct g m n.blocks more
        ∙ get_or-set n.direct_blocks n.blocks r 0 (omega (arith, length-direct_blocks n u.node)) in
      let each : (P : ℕ → Type 0)
          → P r
          → ((i : ℕ) → i < n.blocks → P (block_at s.byte n i))
          → (i : ℕ) → i < n.blocks + 1
          → P (block_at g m i) =
        λ P last rest i h. elim (Bool-cases (i == n.blocks)) [
          | inl e ↦ let z = ==→eq i n.blocks e in rw (z, new) last
          | inr e ↦
              let l : i < n.blocks = omega (arith, ==→ne i n.blocks e) in rw (old i l) (rest i l)
        ] in
      let no_tables : (i : ℕ) → i < n.blocks + 1 → tables g m i ≡ [] =
        λ i h. tables-direct g m i (omega arith) in
      let none : (P : ℕ → Type 0) (i : ℕ) → i < n.blocks + 1 → All P (tables g m i) =
        λ P i h. rw (no_tables i h) tt in
      record {
        small = record {
          placed = record {
            mapped = record {
              small = small;
              reach = omega arith;
              tables_ok = none (IsBlock s.size);
              blocks_ok = each (IsBlock s.size) ok (u.mapped).blocks_ok;
              distinct = λ i j h l e. elim (Bool-cases (i == n.blocks)) [
                | inl a ↦ elim (Bool-cases (j == n.blocks)) [
                  | inl b ↦ ground (arith, a, b)
                  | inr b ↦
                      let j_old : j < n.blocks = omega (arith, ==→ne j n.blocks b) in
                      let z = ==→eq i n.blocks a in
                      absurd (fresh j j_old (sym new ∙ ap (block_at g m) (sym z) ∙ e ∙ old j j_old))
                ]
                | inr a ↦
                    let i_old : i < n.blocks = omega (arith, ==→ne i n.blocks a) in
                    elim (Bool-cases (j == n.blocks)) [
                      | inl b ↦
                          let z = ==→eq j n.blocks b in
                          absurd (
                            fresh i i_old
                              (sym new ∙ ap (block_at g m) (sym z) ∙ sym e ∙ old i i_old))
                      | inr b ↦
                          let j_old : j < n.blocks = omega (arith, ==→ne j n.blocks b) in
                          (u.mapped).distinct i j i_old j_old (sym (old i i_old) ∙ e ∙ old j j_old)
                    ]
              ];
              no_table = λ i j h l. none (λ b. b ≢ block_at g m i) j l;
            };
            node = m_ok;
            behind = u.behind;
            inside = u.inside;
            off = each (Off cur) off u.off;
            tables_off = none (Off cur);
          };
          few = omega arith;
          formatted = record {
            room = (v.formatted).room;
            list = IsFreeList-KeepsFree (v.formatted).list keeps;
          };
          spared = rw free v.spared;
          used = rw free (each (λ b. count b (members s.byte bs) ≡ 0) gone v.used);
        };
        same = refl;
        more = omega arith;
        kept = λ x h.
            let i : x / 4096 < n.blocks = omega arith in
            let o = u.off (x / 4096) i in
            rw (old (x / 4096) i) (
              store_off s.byte cur (encode m) (block_at s.byte n (x / 4096) + x % 4096)
                (omega arith));
        fewer = λ x. rw free (omega arith);
        elsewhere = λ y h o away. store_off s.byte cur (encode m) y (omega arith);
        only = refl;
      }
