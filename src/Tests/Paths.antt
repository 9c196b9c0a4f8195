-- ===== src/Tests/Paths.antt =====
-- Paths, and names in a directory block.
use tyrant_fs.Base.{
  ℕ, ◌≡◌, refl, sym, ◌∙◌, ◌≢◌, ◌+◌, ◌*◌, ◌≤◌, arith, ◌⊎◌, ◌<◌, List, [], ◌∷◌, ◌++◌, replicate,
}
use tyrant_fs.Base.Int.{pos, negsuc}
use tyrant_fs.Device.Command.{Returns}
use tyrant_fs.Base.Bytes.{bytes_at, le_bytes, length-le_bytes}
use tyrant_fs.Base.Store.{store_off}
use tyrant_fs.Directory.{c_string, add_addr, check_block}
use tyrant_fs.Directory.Lookup.{contents, name_at-contents, check_block-add_addr}
use tyrant_fs.Directory.NewEntry.{CanAdd, IsTaken}
use tyrant_fs.Directory.Add.{AddedEntry, add_addr_lem}
use tyrant_fs.Tests.{small_fs, small_bytes}
use tyrant_fs.Tests.Handlers.{small_bytes-HasBytes}
use tyrant_fs.FilePath.{tokens, tokens_from}
use tyrant_fs.Unlink.{split_path, scan_back}
use tyrant_fs.Unlink.Split.{IsSplit, split_path-SplitOf}
use tyrant_fs.Directory.Entries.{name_at, FirstEntry, check_block-FirstEntry}

-- `ab` and `c`
abbrev names : List (List ℕ)
names = (97 ∷ 98 ∷ []) ∷ (99 ∷ []) ∷ []

-- `/ab//c`
abbrev path : List ℕ
path = b'/' ∷ 97 ∷ 98 ∷ b'/' ∷ b'/' ∷ 99 ∷ []

split_tokens : tokens path ≡ names
unfolding tokens tokens_from
split_tokens = refl

-- `/ab/` before the last `/`, `c` behind it.
split_path-SplitOf_example : IsSplit path (b'/' ∷ 97 ∷ 98 ∷ b'/' ∷ []) (99 ∷ [])
unfolding split_path scan_back
split_path-SplitOf_example = split_path-SplitOf path

-- A directory block whose first entry is `.`, for the inode at 4096.
abbrev dot_block : List ℕ
dot_block = b'.' ∷ replicate 247 0 ++ 0 ∷ 16 ∷ replicate 3846 0

check_block-FirstEntry_example :
    FirstEntry 0 16 dot_block (b'.' ∷ []) (check_block 0 dot_block (b'.' ∷ []))
check_block-FirstEntry_example = check_block-FirstEntry 0 dot_block (b'.' ∷ [])

-- A directory at 16384 with its block at 8192; the new inode is at 16640.
can_add : CanAdd small_fs 16384 8192 16640
can_add = record {
  on = record { inside = omega arith; small = omega arith };
  block_ok = omega arith;
  parent_ok = omega arith;
  addr_ok = omega arith;
  parent_away = omega arith;
  addr_away = omega arith;
  apart = omega arith;
  bytes = small_bytes-HasBytes;
  clock = omega arith;
}

add_addr_lem_example :
    Returns
      (λ r t.
        ((r ≡ negsuc 0) × (t.byte ≡ small_fs.byte) × ((j : ℕ) → j < 16 → IsTaken small_fs 8192 j))
        ⊎ ((r ≡ pos 0) × AddedEntry small_fs 16384 8192 16640 (97 ∷ 98 ∷ []) t))
      (add_addr 16384 8192 16640 (97 ∷ 98 ∷ []) small_fs)
add_addr_lem_example =
    add_addr_lem small_fs 16384 8192 16640 (97 ∷ 98 ∷ []) can_add (omega arith, (omega arith, tt))
      (omega arith)

-- The bytes behind the list block are zero, so that the block at 8192 has no names.
small_bytes-zero : (x : ℕ) → 4112 ≤ x → small_bytes x ≡ 0
small_bytes-zero x h =
    store_off _ 4104 (le_bytes 8 12288) x (omega (arith, length-le_bytes 8 12288))
    ∙ store_off _ 4096 (le_bytes 8 8192) x (omega (arith, length-le_bytes 8 8192))
    ∙ store_off (λ _. 0) 0 (le_bytes 8 4096) x (omega (arith, length-le_bytes 8 4096))

no_names : (i : ℕ) → i < 16 → name_at 0 (contents small_fs 8192) i ≢ 97 ∷ 98 ∷ []
unfolding c_string bytes_at
no_names i h e =
    let z : small_bytes (8192 + 256 * i) ≡ 0 = small_bytes-zero (8192 + 256 * i) (omega arith) in
    let named : c_string (bytes_at small_bytes (8192 + 256 * i) 248 ++ 0 ∷ []) ≡ 97 ∷ 98 ∷ [] =
      sym (name_at-contents small_fs 8192 0 i h) ∙ e in
    let empty : [] ≡ 97 ∷ 98 ∷ [] = (rw z at named) in cc empty

check_block-add_addr_example :
    Returns
      (λ r t.
        ((r ≡ negsuc 0) × ((j : ℕ) → j < 16 → IsTaken small_fs 8192 j))
        ⊎ ((r ≡ pos 0) × (check_block 0 (contents t 8192) (97 ∷ 98 ∷ []) ≡ 16640)))
      (add_addr 16384 8192 16640 (97 ∷ 98 ∷ []) small_fs)
check_block-add_addr_example =
    check_block-add_addr small_fs 16384 8192 16640 (97 ∷ 98 ∷ []) 0 can_add
      (omega arith, (omega arith, tt)) (omega arith) no_names
