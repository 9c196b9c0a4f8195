-- ===== src/Removal/Entry.antt =====
-- The removal of an entry from a directory's blocks (`remove_entry`).
use tyrant_fs.Base.{
  ℕ, zero, suc, ◌+◌, ◌*◌, ◌/◌, ◌%◌, ◌≤◌, ◌<◌, ◌≡◌, ◌≢◌, sym, ap, ◌∙◌, ◌⊎◌, List, arith, length,
  get_or, replicate, length-replicate, get_or-replicate, take, take_all,
}
use tyrant_fs.Base.Bytes.{Memory, bytes_at, store, length-bytes_at}
use tyrant_fs.Base.Int.{pos}
use tyrant_fs.Device.{Fs}
use tyrant_fs.Device.Command.{ret}
use tyrant_fs.Block.Io.{read_block-ok, write_block-take}
use tyrant_fs.Inode.{Node}
use tyrant_fs.BlockMap.Address.{block_at}
use tyrant_fs.Files.Contents.{
  IsMapped, contents, written-KeepsTables, IsMapped-KeepsTables, same_address, contents-in,
  contents-out, KeepsTables, KeepsTables-trans,
}
use tyrant_fs.Block.{write_block, read_block}
use tyrant_fs.Base.Store.{store_off}

-- 256 bytes of the file `d` from byte `p * 256` on were written.
abbrev pub put_entry : Memory → Node → ℕ → List ℕ → Memory
put_entry f d p xs = store f (block_at f d (p / 16) + p % 16 * 256) xs

module _ {f : Memory} {size : ℕ} {d : Node} (v : IsMapped f size d) (p : ℕ) (xs : List ℕ)
    (h : p / 16 < d.blocks) (full : length xs ≡ 256) where
  put-IsMapped : IsMapped (put_entry f d p xs) size d
  put-IsMapped =
      IsMapped-KeepsTables (put_entry f d p xs) v
        (written-KeepsTables v (p / 16) (p % 16 * 256) xs h (omega arith))

  pub put_address : (i : ℕ) → i < d.blocks → block_at (put_entry f d p xs) d i ≡ block_at f d i
  put_address =
      same_address (put_entry f d p xs) v
        (written-KeepsTables v (p / 16) (p % 16 * 256) xs h (omega arith))

  put-in : (o : ℕ) → o < 256 → contents (put_entry f d p xs) d (p * 256 + o) ≡ get_or xs o 0
  put-in o l =
      contents-in v (p / 16) (p % 16 * 256) xs h (omega arith) (p * 256 + o) (omega arith)
        (omega arith)
      ∙ ap (λ k. get_or xs k 0) (omega arith)

  put-out :
      (r o : ℕ)
      → r / 16 < d.blocks
      → r ≢ p
      → o < 256
      → contents (put_entry f d p xs) d (r * 256 + o) ≡ contents f d (r * 256 + o)
  put-out r o k ne l =
      contents-out v (p / 16) (p % 16 * 256) xs h (omega arith) (r * 256 + o) (omega arith)
        (ground (arith, full))

-- A byte that is in no block of the file.
abbrev pub OffBlocks : Memory → Node → ℕ → Type 0
OffBlocks f d y = (i : ℕ) → i < d.blocks → (y < block_at f d i) ⊎ (block_at f d i + 4096 ≤ y)

put-elsewhere :
    (f : Memory) (d : Node) (p : ℕ) (xs : List ℕ) (y : ℕ)
    → p / 16 < d.blocks
    → length xs ≡ 256
    → OffBlocks f d y
    → put_entry f d p xs y ≡ f y
put-elsewhere f d p xs y h full off =
    let o = off (p / 16) h in store_off f (block_at f d (p / 16) + p % 16 * 256) xs y (omega arith)

-- Entry `q` is gone: the last entry stands in its place, and there are zeros where the last one was.
pub record Removes (f g : Memory) (size : ℕ) (d : Node) (q last : ℕ) : Type 0 where
  pub mapped : IsMapped g size d
  pub kept_tables : KeepsTables f g d
  pub cleared : (o : ℕ) → o < 256 → contents g d (last * 256 + o) ≡ 0
  pub moved :
      q ≢ last → (o : ℕ) → o < 256 → contents g d (q * 256 + o) ≡ contents f d (last * 256 + o)
  pub others :
      (r o : ℕ)
      → r / 16 < d.blocks
      → r ≢ q
      → r ≢ last
      → o < 256
      → contents g d (r * 256 + o) ≡ contents f d (r * 256 + o)

-- A write of an entry.
pub write_entry :
    (s : Fs) (d : Node) (p : ℕ) (xs : List ℕ)
    → IsMapped s.byte s.size d
    → p / 16 < d.blocks
    → length xs ≡ 256
    → write_block xs (block_at s.byte d (p / 16)) (p % 16 * 256) 256 s
      ≡ ret (pos 256) (record s {
        byte = put_entry s.byte d p xs;
        at = block_at s.byte d (p / 16) + p % 16 * 256 + 256;
      })
write_entry s d p xs v h full =
    let b = v.blocks_ok (p / 16) h in
    let whole : take 256 xs ≡ xs = take_all 256 xs (omega arith) in
    write_block-take s (block_at s.byte d (p / 16)) (p % 16 * 256)
      (record { inside = b.inside; small = v.small }) (omega arith) xs 256 (omega arith)
      (omega arith) (omega arith)
    ∙ ap
        (λ ys. ret (pos 256) (record s {
          byte = put_entry s.byte d p ys;
          at = block_at s.byte d (p / 16) + p % 16 * 256 + 256;
        }))
        whole

pub read_entry_bytes :
    (s : Fs) (d : Node) (p : ℕ)
    → IsMapped s.byte s.size d
    → p / 16 < d.blocks
    → read_block (block_at s.byte d (p / 16)) (p % 16 * 256) 256 s
      ≡ ret
          (bytes_at s.byte (block_at s.byte d (p / 16) + p % 16 * 256) 256)
          (record s { at = block_at s.byte d (p / 16) + p % 16 * 256 + 256 })
read_entry_bytes s d p v h =
    let b = v.blocks_ok (p / 16) h in
    read_block-ok s (block_at s.byte d (p / 16)) (p % 16 * 256)
      (record { inside = b.inside; small = v.small }) (omega arith) 256 (omega (arith, b.behind))
      (omega arith)

get_or-bytes_at : (f : Memory) (a n o : ℕ) → o < n → get_or (bytes_at f a n) o 0 ≡ f (a + o)
unfolding bytes_at
get_or-bytes_at f a zero o h = absurd (omega arith)
get_or-bytes_at f a (suc n) zero h = ap f (omega arith)
get_or-bytes_at f a (suc n) (suc o) h =
    get_or-bytes_at f (a + 1) n o (omega arith) ∙ ap f (omega arith)

contents_entry :
    (f : Memory) (d : Node) (p o : ℕ)
    → o < 256
    → f (block_at f d (p / 16) + p % 16 * 256 + o) ≡ contents f d (p * 256 + o)
contents_entry f d p o h =
    let i : (p * 256 + o) / 4096 ≡ p / 16 = omega arith in
    let j : (p * 256 + o) % 4096 ≡ p % 16 * 256 + o = omega arith in rw (i, j) (ap f (omega arith))

-- What the removal does to the bytes.
module _ {f : Memory} {size : ℕ} {d : Node} (v : IsMapped f size d) (q last : ℕ)
    (h : q / 16 < d.blocks) (k : last / 16 < d.blocks) where
  zeros_full : length (replicate {0} {A = ℕ} 256 0) ≡ 256
  zeros_full = length-replicate {0} {A = ℕ} 256 0

  abbrev pub blanked : Memory
  blanked = put_entry f d q (replicate 256 0)

  pub blanked-Removes : q ≡ last → Removes f blanked size d q last
  blanked-Removes same = record {
    mapped = put-IsMapped v q (replicate 256 0) h zeros_full;
    kept_tables =
        written-KeepsTables v (q / 16) (q % 16 * 256) (replicate 256 0) h
          (omega (arith, zeros_full));
    cleared = λ o l.
        rw (← same) (put-in v q (replicate 256 0) h zeros_full o l ∙ get_or-replicate 256 o 0);
    moved = λ ne. absurd (ne same);
    others = λ r o i ne ne' l. put-out v q (replicate 256 0) h zeros_full r o i ne l;
  }

  pub blanked-IsMapped : IsMapped blanked size d
  blanked-IsMapped = put-IsMapped v q (replicate 256 0) h zeros_full

  abbrev pub last_bytes : List ℕ
  last_bytes = bytes_at blanked (block_at blanked d (last / 16) + last % 16 * 256) 256

  abbrev pub refilled : Memory
  refilled = put_entry blanked d q last_bytes

  pub refilled-IsMapped : IsMapped refilled size d
  refilled-IsMapped = put-IsMapped blanked-IsMapped q last_bytes h (length-bytes_at blanked _ 256)

  abbrev pub moved_up : Memory
  moved_up = put_entry refilled d last (replicate 256 0)

  pub moved_up-Removes : q ≢ last → Removes f moved_up size d q last
  moved_up-Removes ne =
      let full = length-bytes_at blanked (block_at blanked d (last / 16) + last % 16 * 256) 256 in
      let w = blanked-IsMapped in
      let x = refilled-IsMapped in
      let k1 =
        written-KeepsTables v (q / 16) (q % 16 * 256) (replicate 256 0) h
          (omega (arith, zeros_full)) in
      let k2 = written-KeepsTables w (q / 16) (q % 16 * 256) last_bytes h (omega (arith, full)) in
      let k3 =
        written-KeepsTables x (last / 16) (last % 16 * 256) (replicate 256 0) k
          (omega (arith, zeros_full)) in
      record {
        mapped = put-IsMapped x last (replicate 256 0) k zeros_full;
        kept_tables =
            KeepsTables-trans refilled moved_up v (KeepsTables-trans blanked refilled v k1 k2) k3;
        cleared =
            λ o l. put-in x last (replicate 256 0) k zeros_full o l ∙ get_or-replicate 256 o 0;
        moved = λ _ o l.
            put-out x last (replicate 256 0) k zeros_full q o h ne l
            ∙ put-in w q last_bytes h full o l
            ∙ get_or-bytes_at blanked (block_at blanked d (last / 16) + last % 16 * 256) 256 o l
            ∙ contents_entry blanked d last o l
            ∙ put-out v q (replicate 256 0) h zeros_full last o k (λ e. ne (sym e)) l;
        others = λ r o i ne1 ne2 l.
            put-out x last (replicate 256 0) k zeros_full r o i ne2 l
            ∙ put-out w q last_bytes h full r o i ne1 l
            ∙ put-out v q (replicate 256 0) h zeros_full r o i ne1 l;
      }

  pub blanked-elsewhere : (y : ℕ) → OffBlocks f d y → blanked y ≡ f y
  blanked-elsewhere y off = put-elsewhere f d q (replicate 256 0) y h zeros_full off

  pub moved_up-elsewhere : (y : ℕ) → OffBlocks f d y → moved_up y ≡ f y
  moved_up-elsewhere y off =
      let full = length-bytes_at blanked (block_at blanked d (last / 16) + last % 16 * 256) 256 in
      let off1 : OffBlocks blanked d y =
        λ i l. rw (put_address v q (replicate 256 0) h zeros_full i l) (off i l) in
      let off2 : OffBlocks refilled d y =
        λ i l. rw (put_address blanked-IsMapped q last_bytes h full i l) (off1 i l) in
      put-elsewhere refilled d last (replicate 256 0) y k zeros_full off2
      ∙ put-elsewhere blanked d q last_bytes y h full off1
      ∙ blanked-elsewhere y off
