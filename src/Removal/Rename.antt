-- ===== src/Removal/Rename.antt =====
-- `rename_from_parent`: the entry of an inode gets a new name.
use tyrant_fs.Base.{
  ℕ, suc, ◌+◌, ◌-◌, ◌*◌, ◌/◌, ◌%◌, ◌^◌, ◌≤◌, ◌<◌, ◌≡◌, ◌≢◌, refl, sym, ap, ◌∙◌, ◌⊎◌, inl, inr, List,
  arith, Bool-cases, ltb, ltb→lt, leb, length, get_or, ne→==, replicate, length-replicate,
  get_or-replicate, if◌then◌else◌, take, take_all, zero, [], ◌∷◌,
}
use tyrant_fs.Base.Bytes.{Memory, store}
use tyrant_fs.Base.Int.{ℤ, pos, negsuc}
use tyrant_fs.Device.{Fs, time}
use tyrant_fs.Device.Command.{ret, Returns, and_then}
use tyrant_fs.Block.Io.{IsOnDevice, read_block-ok, write_block-take, write_block-ok}
use tyrant_fs.Inode.{Node, commit_inode}
use tyrant_fs.Inode.Io.{inode_at, fetch_new-ok, commit_inode-ok, inode_at-store_self}
use tyrant_fs.Inode.Search.{OnlyAt}
use tyrant_fs.BlockMap.Address.{block_at}
use tyrant_fs.Files.Contents.{
  IsMapped, contents, KeepsTables, written-KeepsTables, IsMapped-KeepsTables, KeepsTables-trans,
  same_address, contents-in, contents-out,
}
use tyrant_fs.Files.Placed.{
  IsPlaced, IsPlaced-stamp, IsNode-TimesOk, IsPlaced-KeepsTables, contents-committed,
}
use tyrant_fs.Removal.{rename_entry, rename_from_parent}
use tyrant_fs.Removal.Search.{IsFirst, entry_address, blocks_loop-first, blocks_loop-none}

-- Entry `q` has the name `name`, filled up with zeros to 248 bytes; all other bytes stay.
pub record Renames (f g : Memory) (d : Node) (q : ℕ) (name : List ℕ) : Type 0 where
  pub named : (o : ℕ) → o < 248 → contents g d (q * 256 + o) ≡ get_or name o 0
  pub kept :
      (x : ℕ)
      → x < d.blocks * 4096
      → (x < q * 256) ⊎ (q * 256 + 248 ≤ x)
      → contents g d x ≡ contents f d x

abbrev pub restamped : Node → ℕ → Node
restamped d now = record d { data_time = now; change_time = now }

abbrev pub Renamed : Fs → Node → ℕ → ℕ → List ℕ → ℤ → Fs → Type 0
Renamed s d parent q name r t =
    (r ≡ pos 0)
    × (inode_at t.byte parent ≡ restamped d (s.env.clock s.ticks))
    × Renames s.byte t.byte d q name

get_or-past : (xs : List ℕ) (i : ℕ) → length xs ≤ i → get_or xs i 0 ≡ 0
get_or-past [] i h = refl
get_or-past (x ∷ xs) zero h = absurd (omega arith)
get_or-past (x ∷ xs) (suc i) h = get_or-past xs i (omega arith)

module _ (s : Fs) (d : Node) (parent q : ℕ) (name : List ℕ) (v : IsPlaced s.byte s.size d parent)
    (h : q / 16 < d.blocks) (some : 0 < length name) (short : length name ≤ 248)
    (now_ok : s.env.clock s.ticks < 2 ^ 64) where
  abbrev mapped : IsMapped s.byte s.size d
  mapped = v.mapped

  blank_full : length (replicate {0} {A = ℕ} 248 0) ≡ 248
  blank_full = length-replicate {0} {A = ℕ} 248 0

  abbrev blank : Memory
  blank = store s.byte (block_at s.byte d (q / 16) + q % 16 * 256) (replicate 248 0)

  abbrev named : Memory
  named = store blank (block_at blank d (q / 16) + q % 16 * 256) name

  blank-KeepsTables : KeepsTables s.byte blank d
  blank-KeepsTables =
      written-KeepsTables mapped (q / 16) (q % 16 * 256) (replicate 248 0) h
        (omega (arith, blank_full))

  blank-IsMapped : IsMapped blank s.size d
  blank-IsMapped = IsMapped-KeepsTables blank mapped blank-KeepsTables

  named-KeepsTables : KeepsTables blank named d
  named-KeepsTables =
      written-KeepsTables blank-IsMapped (q / 16) (q % 16 * 256) name h (omega arith)

  named-Renames : Renames s.byte named d q name
  named-Renames = record {
    named = λ o l. elim (Bool-cases (ltb o (length name))) [
      | inl within ↦
          let w = ltb→lt o (length name) within in
          contents-in blank-IsMapped (q / 16) (q % 16 * 256) name h (omega arith) (q * 256 + o)
            (omega arith) (omega arith)
          ∙ ap (λ k. get_or name k 0) (omega arith)
      | inr past ↦
          let w : length name ≤ o = ground (arith, past) in
          contents-out blank-IsMapped (q / 16) (q % 16 * 256) name h (omega arith) (q * 256 + o)
            (omega arith) (inr (omega arith))
          ∙ contents-in mapped (q / 16) (q % 16 * 256) (replicate 248 0) h
              (omega (arith, blank_full)) (q * 256 + o) (omega arith) (omega (arith, blank_full))
          ∙ get_or-replicate 248 (q * 256 + o - (q / 16 * 4096 + q % 16 * 256)) 0
          ∙ sym (get_or-past name o w)
    ];
    kept = λ x l o.
        contents-out blank-IsMapped (q / 16) (q % 16 * 256) name h (omega arith) x l (omega arith)
        ∙ contents-out mapped (q / 16) (q % 16 * 256) (replicate 248 0) h
            (omega (arith, blank_full)) x l (omega (arith, blank_full));
  }

  -- The commit behind the writes.
  stamp-Renamed :
      (g : Memory) (p : ℕ)
      → KeepsTables s.byte g d
      → Renames s.byte g d q name
      → Returns (Renamed s d parent q name) (
          and_then
            (commit_inode
              (restamped d (s.env.clock s.ticks))
              parent
              (record s { byte = g; at = p; ticks = s.ticks + 1 }))
            (λ x. ret (pos 0)))
  stamp-Renamed g p keep w =
      let b = IsNode-TimesOk d v.node in
      let now = s.env.clock s.ticks in
      let m : Node = restamped d now in
      let here = IsPlaced-KeepsTables g v keep in
      let ok =
        (IsPlaced-stamp g s.size d parent d.access_time now now d.size here b.access now_ok now_ok
          b.size).node in
      rw
        (commit_inode-ok (record s { byte = g; at = p; ticks = s.ticks + 1 }) parent
          (omega (arith, v.behind)) v.inside m ok)
        (
          refl,
          inode_at-store_self g parent m ok,
          record {
            named = λ o l. contents-committed here m ok (q * 256 + o) (omega arith) ∙ w.named o l;
            kept = λ x l o. contents-committed here m ok x l ∙ w.kept x l o;
          },
        )

  rename_entry-Renamed :
      (p : ℕ)
      → Returns (Renamed s d parent q name) (
          rename_entry d parent name
            (q / 16)
            (q % 16 * 256)
            (block_at s.byte d (q / 16))
            (record s { at = p }))
  unfolding rename_entry time
  rename_entry-Renamed p =
      let k = mapped.blocks_ok (q / 16) h in
      let block = block_at s.byte d (q / 16) in
      let loc = q % 16 * 256 in
      let on : (g : Memory) (a : ℕ) → IsOnDevice (record s { byte = g; at = a }) block =
        λ g a. record { inside = k.inside; small = mapped.small } in
      let whole : take 248 (replicate {0} {A = ℕ} 248 0) ≡ replicate 248 0 =
        take_all 248 (replicate {0} {A = ℕ} 248 0) (omega (arith, blank_full)) in
      let w1 =
        write_block-take (record s { at = p }) block loc (on s.byte p) (omega arith)
          (replicate 248 0) 248 (omega arith) (omega (arith, blank_full)) (omega arith) in
      let amount : (if leb 248 (length name) then 248 else length name) ≡ length name =
        ground arith in
      let w2 =
        write_block-ok (record s { byte = blank; at = block + loc + 248 }) block loc
          (on blank (block + loc + 248)) (omega arith) name some (omega arith) in
      let address : block_at blank d (q / 16) ≡ block =
        same_address blank mapped blank-KeepsTables (q / 16) h in
      let g : Memory = store blank (block + loc) name in
      let same : named ≡ g = ap (λ b. store blank (b + loc) name) address in
      rw
        (
          w1,
          whole,
          amount,
          w2,
          read_block-ok (record s { byte = g; at = block + loc + length name }) block loc
              (on g (block + loc + length name)) (omega arith) 248 (omega (arith, k.behind))
              (omega arith),
        )
        (stamp-Renamed g (block + loc + 248)
          (rw same at (KeepsTables-trans blank named mapped blank-KeepsTables named-KeepsTables))
          (rw same at named-Renames))

-- On a directory of at most 524288 blocks, which keeps the offsets of its entries within an `int`, whose
-- inode lies apart from its blocks, with a clock of 64 bits, for `cur` not 0 and a new name of 1 to 248
-- bytes: if no entry within the directory's size has the address `cur`, `rename_from_parent` ends
-- with -1 and changes nothing but the file position. If entry `q` is the first that has it, it ends
-- with 0, and the entry has the new name, filled up with zeros, and its old address; the other bytes of
-- the directory's blocks stay, and the inode on the device has new times.
pub rename_from_parent_lem :
    (s : Fs) (parent cur : ℕ) (name : List ℕ)
    → IsPlaced s.byte s.size (inode_at s.byte parent) parent
    → cur ≢ 0
    → 0 < length name
    → length name ≤ 248
    → (inode_at s.byte parent).blocks ≤ 524288
    → s.env.clock s.ticks < 2 ^ 64
    → ((q : ℕ)
        → q * 256 < (inode_at s.byte parent).size
        → q / 16 < (inode_at s.byte parent).blocks
        → IsFirst s.byte (inode_at s.byte parent) cur q
        → Returns
            (Renamed s (inode_at s.byte parent) parent q name)
            (rename_from_parent parent cur name s))
      × (((q : ℕ)
            → q * 256 < (inode_at s.byte parent).size
            → entry_address s.byte (inode_at s.byte parent) q ≢ cur)
          → Returns (λ r t. (r ≡ negsuc 0) × OnlyAt s t) (rename_from_parent parent cur name s))
unfolding rename_from_parent
rename_from_parent_lem s parent cur name v ne some short few now_ok =
    let d : Node = inode_at s.byte parent in
    rw
      (
        ne→== parent 0 (omega (arith, v.behind)),
        ne→== cur 0 ne,
        fetch_new-ok s parent (omega (arith, v.behind)) v.inside,
      )
      (
        (λ q l h first.
            blocks_loop-first s d cur v.mapped (rename_entry d parent name) few
              (Renamed s d parent q name) q d.blocks 0 0 (parent + 208) (omega arith) (omega arith)
              h l first.here first.before
              λ p. rename_entry-Renamed s d parent q name v h some short now_ok p),
        (λ other.
            blocks_loop-none s d cur v.mapped (rename_entry d parent name) few d.blocks 0 0
              (parent + 208) (omega arith) λ k l. other k l),
      )
