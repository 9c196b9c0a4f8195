-- ===== src/Tests/FreeList.antt =====
-- The free list of a small device: runs, and the theorems at it.
use tyrant_fs.Base.{ℕ, ◌+◌, ◌<◌, inr, ◌≡◌, refl, List, [], ◌∷◌, arith}
use tyrant_fs.Base.Bytes.{word, store, bytes_at, le_bytes, le_value, overlay}
use tyrant_fs.Base.Int.{pos}
use tyrant_fs.Device.{Fs, lseek_set, lseek_back, read, write, read_u64, write_u64}
use tyrant_fs.Device.Command.{Run, ret, out_of_fuel, Returns}
use tyrant_fs.FreeList.{allocate_block, free_block, alloc_scan, take_slot}
use tyrant_fs.FreeList.Chain.{count, entries, members, IsFreeList}
use tyrant_fs.FreeList.Refine.{
  IsFormatted, Allocated, Freed, allocate_block_refines, free_block_refines,
}
use tyrant_fs.FreeList.Client.{next, here, allocates, Reach-conserves}
use tyrant_fs.FreeList.Frame.{store-KeepsFree, IsFreeList-KeepsFree}
use tyrant_fs.Tests.{small_bytes, small_fs}

abbrev result : Run Fs ℕ → ℕ
result (ret a s) = a
result out_of_fuel = 0

abbrev after : {A : Type 0} → Run Fs A → Fs
after (ret a s) = s
after out_of_fuel = small_fs

first_allocated : result (allocate_block small_fs) ≡ 8192
unfolding allocate_block alloc_scan take_slot lseek_set lseek_back read write read_u64 write_u64
    store le_bytes le_value bytes_at overlay
first_allocated = refl

pub small_members : members small_bytes (4096 ∷ []) ≡ 4096 ∷ 8192 ∷ 12288 ∷ []
unfolding members entries word store le_bytes le_value bytes_at
small_members = refl

small_first : word small_bytes 0 ≡ 4096
unfolding word store le_bytes le_value bytes_at
small_first = refl

small_last : word small_bytes 8184 ≡ 0
unfolding word store le_bytes le_value bytes_at
small_last = refl

pub small_IsFormatted : IsFormatted small_fs (4096 ∷ [])
unfolding count
small_IsFormatted = record {
  room = omega arith;
  list = record {
    chain = (small_first, (omega arith), small_last);
    once = λ a. rw small_members (ground arith);
    valid = λ a. rw small_members (λ p. ground arith);
    small = omega arith;
  };
}

allocate_block_refines_example : Returns (Allocated small_fs (4096 ∷ [])) (allocate_block small_fs)
allocate_block_refines_example = allocate_block_refines small_fs (4096 ∷ []) small_IsFormatted

free_block_refines_example :
    Returns
      (λ r t. (r ≡ pos 0) × Freed small_fs (4096 ∷ []) 16384 t)
      (free_block (pos 3) 16384 small_fs)
unfolding count
free_block_refines_example =
    free_block_refines small_fs (4096 ∷ []) (pos 3) 16384 small_IsFormatted refl
      (record { inside = omega arith; behind = omega arith; aligned = omega arith })
      (rw small_members (ground arith))

abbrev one_taken : Fs
unfolding allocate_block
one_taken = after (allocate_block small_fs)

takes_one : allocate_block small_fs ≡ ret 8192 one_taken
unfolding allocate_block alloc_scan take_slot lseek_set lseek_back read write read_u64 write_u64
    store le_bytes le_value bytes_at overlay
takes_one = refl

Reach-conserves_example :
    (bs' : List ℕ) × IsFormatted one_taken bs'
    × ((x : ℕ)
        → count x (members one_taken.byte bs') + count x (8192 ∷ [])
          ≡ count x (members small_bytes (4096 ∷ [])))
Reach-conserves_example =
    Reach-conserves small_fs (4096 ∷ []) small_IsFormatted
      (next here (allocates takes_one (omega arith)))

IsFreeList-KeepsFree_example : IsFreeList (store small_bytes 16384 (1 ∷ 2 ∷ [])) 20480 (4096 ∷ [])
unfolding count
IsFreeList-KeepsFree_example = IsFreeList-KeepsFree (small_IsFormatted.list) (
    store-KeepsFree small_bytes 16384 (1 ∷ 2 ∷ []) (4096 ∷ []) 2 (omega arith) (omega arith) λ b p.
      let q : 0 < count b (4096 ∷ 8192 ∷ 12288 ∷ []) = (rw small_members at p) in
      inr (ground arith))
