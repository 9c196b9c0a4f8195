-- ===== src/Files/Write.antt =====
-- The loop of `tfs_write`: what it makes of the file's contents.
use tyrant_fs.Base.{
  ℕ, zero, suc, ◌+◌, ◌-◌, ◌*◌, ◌%◌, ◌^◌, ◌≤◌, ◌<◌, ◌≡◌, refl, ap, ◌∙◌, inl, inr, List, [], ◌∷◌,
  arith, min, Bool-cases, ltb, ltb→lt, ◌==◌, ==→eq, length, length-take, length-drop, take, drop,
  get_or,
}
use tyrant_fs.Base.Bytes.{store}
use tyrant_fs.Base.Store.{store_off}
use tyrant_fs.Base.Word.{add64, sub64}
use tyrant_fs.Base.Int.{pos}
use tyrant_fs.Device.{Fs}
use tyrant_fs.Device.Command.{ret, Returns, Returns-mono}
use tyrant_fs.Block.{write_block}
use tyrant_fs.Block.Io.{IsOnDevice, write_block-take, write_block-cut}
use tyrant_fs.Inode.{Node}
use tyrant_fs.FreeList.Refine.{OnlyBytes}
use tyrant_fs.BlockMap.{get_i_block}
use tyrant_fs.BlockMap.Address.{block_at}
use tyrant_fs.Files.{write_loop}
use tyrant_fs.Files.Contents.{
  IsMapped, written-KeepsTables, IsMapped-KeepsTables, same_address, contents-in, contents-out,
  KeepsTables,
}
use tyrant_fs.Files.Written.{Written, Written-none, Written-append}
use tyrant_fs.Files.Read.{Returns-bind_at, get_i_block-IsMapped}

get_or-take-drop :
    (xs : List ℕ) (m from i : ℕ)
    → i < m
    → get_or (take m (drop from xs)) i 0 ≡ get_or xs (from + i) 0
get_or-take-drop xs zero from i h = absurd (omega arith)
get_or-take-drop [] (suc m) zero i h = refl
get_or-take-drop [] (suc m) (suc from) i h = refl
get_or-take-drop (x ∷ xs) (suc m) zero zero h = refl
get_or-take-drop (x ∷ xs) (suc m) zero (suc i) h =
    let e : suc (0 + i) ≡ 0 + suc i = omega arith in
    get_or-take-drop xs m zero i (omega arith) ∙ ap (λ j. get_or (x ∷ xs) j 0) e
get_or-take-drop (x ∷ xs) (suc m) (suc from) i h =
    let e : suc (from + i) ≡ suc from + i = omega arith in
    get_or-take-drop xs (suc m) from i h ∙ ap (λ j. get_or (x ∷ xs) j 0) e

-- One round.
module _ (s : Fs) (n : Node) (v : IsMapped s.byte s.size n) (buff : List ℕ) (from i loc m : ℕ)
    (h : i < n.blocks) (fits : loc + m ≤ 4096) (enough : from + m ≤ length buff) where
  abbrev part : List ℕ
  part = take m (drop from buff)

  length-part : length part ≡ m
  length-part = omega (arith, length-take m (drop from buff), length-drop from buff)

  part-Written :
      Written s.byte (store s.byte (block_at s.byte n i + loc) part) n (i * 4096 + loc) m buff from
  part-Written =
      let len = length-part in
      let k : KeepsTables s.byte (store s.byte (block_at s.byte n i + loc) part) n =
        written-KeepsTables v i loc part h (omega arith) in
      record {
        address = same_address _ v k;
        inside = λ x p q.
            contents-in v i loc part h (omega arith) x p (omega arith)
            ∙ get_or-take-drop buff m from (x - (i * 4096 + loc)) (omega arith);
        outside = λ x p o. contents-out v i loc part h (omega arith) x p (omega arith);
        elsewhere = λ y o.
            let w = o i h in store_off s.byte (block_at s.byte n i + loc) part y (omega arith);
      }

  part-IsMapped : IsMapped (store s.byte (block_at s.byte n i + loc) part) s.size n
  part-IsMapped =
      let len = length-part in
      IsMapped-KeepsTables _ v (written-KeepsTables v i loc part h (omega arith))

-- One round: what `write_block` makes of a request for `count` bytes.
write_part :
    (s : Fs) (n : Node) (buff : List ℕ) (block loc count : ℕ)
    → IsOnDevice s block
    → loc < 4096
    → 0 < count
    → count ≤ length buff
    → write_block buff block loc count s
      ≡ ret (pos (min count (4096 - loc))) (record s {
        byte = store s.byte (block + loc) (take (min count (4096 - loc)) buff);
        at = block + loc + min count (4096 - loc);
      })
write_part s n buff block loc count on l p enough = elim (Bool-cases (ltb (4096 - loc) count)) [
  | inl cut ↦
      let c : 4096 - loc < count = ltb→lt (4096 - loc) count cut in
      let m : min count (4096 - loc) ≡ 4096 - loc = omega arith in
      rw m (write_block-cut s block loc on (omega arith) buff count l enough (omega arith))
  | inr whole ↦
      let c : count ≤ 4096 - loc = ground (arith, whole) in
      let m : min count (4096 - loc) ≡ count = omega arith in
      rw m (write_block-take s block loc on (omega arith) buff count p enough (omega arith))
]

abbrev pub Wrote : Fs → Node → List ℕ → ℕ → ℕ → ℕ → ℕ → Fs → Type 0
Wrote s n buff start bytes count r t =
    (r ≡ bytes + count) × Written s.byte t.byte n start count buff bytes × OnlyBytes s t

-- The bytes of the buffer from `bytes` on go to the file from block `i` and byte `loc` of it on,
-- as far as there are blocks.
pub write_loop-Written :
    (n : Node) (buff : List ℕ) (k i loc bytes count : ℕ) (s : Fs)
    → IsMapped s.byte s.size n
    → k ≡ n.blocks - i
    → loc < 4096
    → bytes + count ≤ length buff
    → length buff < 2 ^ 64
    → Returns
        (Wrote s n buff (i * 4096 + loc) bytes (min count (k * 4096 - loc)))
        (write_loop k n buff bytes i loc count s)
unfolding write_loop
write_loop-Written n buff zero i loc bytes count s v e l enough small =
    let z : min count (0 * 4096 - loc) ≡ 0 = omega arith in
    rw z (omega arith, Written-none s.byte n (i * 4096 + loc) buff bytes, refl)
write_loop-Written n buff (suc k) i loc bytes count s v e l enough small =
    elim (Bool-cases (count == 0)) [
      | inl none ↦
          let z : count ≡ 0 = ==→eq count 0 none in
          let z' : min count (suc k * 4096 - loc) ≡ 0 = omega arith in
          rw (none, z') (omega arith, Written-none s.byte n (i * 4096 + loc) buff bytes, refl)
      | inr more ↦
          let h : i < n.blocks = omega arith in
          let p : 0 < count = ground (arith, more) in
          let m : ℕ = min count (4096 - loc) in
          let b = v.blocks_ok i h in
          rw more (
            Returns-bind_at (λ x. x ≡ block_at s.byte n i) _ s (get_i_block n i s) _
              (get_i_block-IsMapped n i s v h)
              λ x q ex.
                let on : IsOnDevice (record s { at = q }) (block_at s.byte n i) = record {
                  inside = b.inside;
                  small = v.small;
                } in
                let u : Fs = record s {
                  byte = store s.byte (block_at s.byte n i + loc) (take m (drop bytes buff));
                  at = block_at s.byte n i + loc + m;
                } in
                let total : add64 bytes (m % 2 ^ 64) ≡ bytes + m = omega arith in
                let left : sub64 count (m % 2 ^ 64) ≡ count - m = omega arith in
                rw
                  (
                    ex,
                    write_part (record s { at = q }) n (drop bytes buff) (block_at s.byte n i) loc
                        count on l p (omega (arith, length-drop bytes buff)),
                  )
                  (rw (total, left)
                    (Returns-mono
                      (Wrote u n buff ((i + 1) * 4096 + 0) (bytes + m)
                        (min (count - m) (k * 4096 - 0)))
                      _ _
                      (write_loop-Written n buff k (i + 1) 0 (bytes + m) (count - m) u
                        (part-IsMapped s n v buff bytes i loc m h (omega arith) (omega arith))
                        (omega arith) (omega arith) (omega arith) small)
                      λ r t w. (
                        omega (arith, w.0),
                        Written-append _ _ _ n (i * 4096 + loc) m ((i + 1) * 4096 + 0)
                            (min (count - m) (k * 4096 - 0)) (min count (suc k * 4096 - loc)) buff
                            bytes
                            (part-Written s n v buff bytes i loc m h (omega arith) (omega arith))
                            (w.1) (omega arith) (omega arith) (omega arith),
                        w.2,
                      ))))
    ]
