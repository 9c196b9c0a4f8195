-- ===== src/Files/Growth.antt =====
-- The loop of `tfs_write` that adds blocks, for a file of at most 12 blocks.
use tyrant_fs.Base.{
  ℕ, zero, suc, ◌+◌, ◌-◌, ◌^◌, ◌≤◌, ◌<◌, ◌≡◌, ◌≢◌, refl, sym, ap, ◌∙◌, ◌⊎◌, inl, inr, List, arith,
  ◌==◌, Bool-cases, ==→eq, ==→ne, ne→==, eq→==, lt→ltb,
}
use tyrant_fs.Base.Bytes.{store}
use tyrant_fs.Device.{Fs}
use tyrant_fs.Device.Command.{Returns, Returns-bind, Returns-mono}
use tyrant_fs.Inode.{Node, encode}
use tyrant_fs.Inode.Io.{commit_inode-ok}
use tyrant_fs.FreeList.{allocate_block}
use tyrant_fs.FreeList.Chain.{count, members}
use tyrant_fs.FreeList.Refine.{Allocated, allocate_block_refines}
use tyrant_fs.Format.Lists.{OnlyBytes-trans}
use tyrant_fs.BlockMap.{add_block_to_node, add_commit}
use tyrant_fs.BlockMap.Address.{block_at}
use tyrant_fs.BlockMap.Grow.{with_direct, taken-IsBlock}
use tyrant_fs.Files.{grow}
use tyrant_fs.Files.Small.{IsSmall, GrewTo, Allocated-GrewTo, with_direct-GrewTo, block_at-direct}
use tyrant_fs.Files.Origin.{Origin, Origin-refl, Origin-trans, with_direct-Origin}
use tyrant_fs.Inode.Codec.{length-direct_blocks}

pub GrewTo-trans :
    (s t u : Fs) (bs : List ℕ) (n m l : Node) (cur : ℕ) (left left' : List ℕ)
    → GrewTo s bs n cur m t left
    → GrewTo t left m cur l u left'
    → GrewTo s bs n cur l u left'
GrewTo-trans s t u bs n m l cur left left' a b = record {
  small = b.small;
  same =
      let f : Node → Node = λ k. record k { blocks = l.blocks; direct_blocks = l.direct_blocks } in
      b.same ∙ ap f a.same;
  more = omega (arith, a.more, b.more);
  kept = λ x h. b.kept x (omega (arith, a.more)) ∙ a.kept x h;
  fewer = λ x. omega (arith, a.fewer x, b.fewer x);
  elsewhere = λ y h o away.
      b.elsewhere y h o (λ k p. away k (omega (arith, a.fewer k))) ∙ a.elsewhere y h o away;
  only = OnlyBytes-trans s t u a.only b.only;
}

-- One block was added, or none is free.
abbrev pub Stepped : Fs → List ℕ → Node → ℕ → ℕ × Node → Fs → Type 0
Stepped s bs n cur p t =
    (left : List ℕ) × GrewTo s bs n cur p.1 t left
    × Origin s bs n p.1 t
    × (((p.0 ≡ 0) × (p.1 ≡ n) × ((b : ℕ) → count b (members t.byte left) ≡ 0))
        ⊎ ((p.0 ≢ 0) × ((p.1).blocks ≡ n.blocks + 1)))

add_block_to_node-Stepped :
    (s : Fs) (bs : List ℕ) (n : Node) (cur : ℕ)
    → IsSmall s bs n cur
    → n.blocks < 12
    → Returns (Stepped s bs n cur) (add_block_to_node n cur s)
unfolding add_block_to_node add_commit
add_block_to_node-Stepped s bs n cur v more =
    let u = v.placed in
    rw (ne→== cur 0 (omega (arith, u.behind))) (
      Returns-bind (Allocated s bs) _ (allocate_block s) _ (allocate_block_refines s bs v.formatted)
        λ r t d.
          let a : GrewTo s bs n cur n t d.0 = Allocated-GrewTo s bs n cur v r t d in
          elim (Bool-cases (r == 0)) [
            | inl none_left ↦ rw none_left (
              d.0,
              a,
              Origin-refl s t bs n n v.few refl refl,
              inl (
                refl,
                refl,
                λ b.
                    let f = (d.1).found b in
                    let c = (d.1).rest b in let z = ==→eq r 0 none_left in ground arith,
              ),
            )
            | inr got ↦
                let ok = taken-IsBlock v.formatted d (==→ne r 0 got) in
                let w = (a.small).placed in
                let gone : count r (members t.byte d.0) ≡ 0 =
                  let c = (d.1).rest r in
                  let o = (v.formatted).list.once r in let ne = ==→ne r 0 got in ground arith in
                let size : t.size ≡ s.size = ap (λ (k : Fs). k.size) d.2 in
                let fresh : (i : ℕ) → i < n.blocks → r ≢ block_at t.byte n i = λ i h e.
                  let z : r ≡ block_at s.byte n i =
                    e
                    ∙ block_at-direct t.byte n i (omega arith)
                    ∙ sym (block_at-direct s.byte n i (omega arith)) in
                  absurd (omega (arith, (rw z at (ok.0)), v.used i h)) in
                let b =
                  with_direct-GrewTo t d.0 n cur a.small r (cur + 208) more (rw size ok.1) gone
                    (v.spared r ok.0) fresh in
                rw
                  (
                    got,
                    ne→== n.blocks (2 ^ 64 - 1) (omega arith),
                    lt→ltb n.blocks 12 more,
                    commit_inode-ok t cur (omega (arith, w.behind)) w.inside (with_direct n r)
                        ((b.small).placed).node,
                  )
                  (
                    d.0,
                    GrewTo-trans s t _ bs n n _ cur d.0 d.0 a b,
                    with_direct-Origin s
                        (record t {
                          byte = store t.byte cur (encode (with_direct n r));
                          at = cur + 208;
                        })
                        bs n r more (length-direct_blocks n u.node) ok.0,
                    inr (==→ne r 0 got, refl),
                  )
          ])

-- All `k` blocks were added, or none is free any more.
abbrev pub Extended : Fs → List ℕ → Node → ℕ → ℕ → Node → Fs → Type 0
Extended s bs n cur k m t =
    (left : List ℕ) × GrewTo s bs n cur m t left
    × Origin s bs n m t
    × ((m.blocks ≡ n.blocks + k) ⊎ ((b : ℕ) → count b (members t.byte left) ≡ 0))

pub GrewTo-refl :
    (s : Fs) (bs : List ℕ) (n : Node) (cur : ℕ) → IsSmall s bs n cur → GrewTo s bs n cur n s bs
GrewTo-refl s bs n cur v = record {
  small = v;
  same = refl;
  more = omega arith;
  kept = λ x h. refl;
  fewer = λ x. omega arith;
  elsewhere = λ y h o away. refl;
  only = refl;
}

pub grow-Extended :
    (k : ℕ) (s : Fs) (bs : List ℕ) (n : Node) (cur : ℕ)
    → IsSmall s bs n cur
    → n.blocks + k ≤ 12
    → Returns (Extended s bs n cur k) (grow k cur n s)
unfolding grow
grow-Extended zero s bs n cur v few =
    (bs, GrewTo-refl s bs n cur v, Origin-refl s s bs n n v.few refl refl, inl (omega arith))
grow-Extended (suc k) s bs n cur v few =
    Returns-bind (Stepped s bs n cur) _ (add_block_to_node n cur s) _
      (add_block_to_node-Stepped s bs n cur v (omega arith))
      λ (block, m) t (left, g, o, which). elim which [
        | inl (z, e, none_left) ↦ rw (eq→== block 0 z) (left, g, o, inr none_left)
        | inr (got, one) ↦ rw (ne→== block 0 got) (
            Returns-mono (Extended t left m cur k) _ (grow k cur m t)
              (grow-Extended k t left m cur g.small (omega arith))
              λ l u (left', g', o', enough). (
                left',
                GrewTo-trans s t u bs n m l cur left left' g g',
                Origin-trans s t u bs left n m l g.fewer o o',
                elim enough [ inl all ↦ inl (omega arith) | inr none_left ↦ inr none_left ],
              ))
      ]
