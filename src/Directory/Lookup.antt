-- ===== src/Directory/Lookup.antt =====
-- A name that `add_addr` entered is found by `check_block`.
use tyrant_fs.Base.{
  ℕ, zero, suc, ◌+◌, ◌-◌, ◌*◌, ◌≤◌, ◌<◌, ◌≡◌, ◌≢◌, refl, sym, ap, ◌∙◌, ◌⊎◌, inl, inr, List, [], ◌∷◌,
  ◌++◌, arith, Bool-cases, ltb, ltb→lt, ◌==◌, length, take, drop,
}
use tyrant_fs.Base.Bytes.{Memory, bytes_at, bytes_at_congr, word, le_value, length-bytes_at}
use tyrant_fs.Base.Int.{pos, negsuc}
use tyrant_fs.Device.{Fs}
use tyrant_fs.Device.Command.{Returns, Returns-mono}
use tyrant_fs.Directory.{c_string, check_block, add_addr}
use tyrant_fs.Directory.Entries.{
  name_at, addr_at, FirstEntry, absent, found, check_block-FirstEntry,
}
use tyrant_fs.Directory.NewEntry.{IsCString, CanAdd, IsTaken}
use tyrant_fs.Directory.Add.{add_addr_lem}

drop-bytes_at : (f : Memory) (a k n : ℕ) → drop k (bytes_at f a (k + n)) ≡ bytes_at f (a + k) n
unfolding bytes_at
drop-bytes_at f a zero n =
    let m : 0 + n ≡ n = omega arith in
    let b : a ≡ a + 0 = omega arith in ap (bytes_at f a) m ∙ ap (λ c. bytes_at f c n) b
drop-bytes_at f a (suc k) n =
    let m : suc k + n ≡ suc (k + n) = omega arith in
    let b : a + 1 + k ≡ a + suc k = omega arith in
    ap (λ c. drop (suc k) (bytes_at f a c)) m
    ∙ drop-bytes_at f (a + 1) k n
    ∙ ap (λ c. bytes_at f c n) b

take-bytes_at : (f : Memory) (a k n : ℕ) → k ≤ n → take k (bytes_at f a n) ≡ bytes_at f a k
unfolding bytes_at
take-bytes_at f a zero n h = refl
take-bytes_at f a (suc k) zero h = absurd (omega arith)
take-bytes_at f a (suc k) (suc n) h = ap (λ t. f a ∷ t) (take-bytes_at f (a + 1) k n (omega arith))

-- The contents of a block.
abbrev pub contents : Fs → ℕ → List ℕ
contents s block = bytes_at s.byte block 4096

from_entry :
    (s : Fs) (block j : ℕ)
    → j < 16
    → drop (256 * j) (contents s block) ≡ bytes_at s.byte (block + 256 * j) (4096 - 256 * j)
from_entry s block j h =
    let n : 4096 ≡ 256 * j + (4096 - 256 * j) = omega arith in
    ap (λ k. drop (256 * j) (bytes_at s.byte block k)) n
    ∙ drop-bytes_at s.byte block (256 * j) (4096 - 256 * j)

pub name_at-contents :
    (s : Fs) (block last j : ℕ)
    → j < 16
    → name_at last (contents s block) j
      ≡ c_string (bytes_at s.byte (block + 256 * j) 248 ++ last ∷ [])
name_at-contents s block last j h =
    ap (λ t. c_string (t ++ last ∷ []))
      (ap (take 248) (from_entry s block j h)
        ∙ take-bytes_at s.byte (block + 256 * j) 248 (4096 - 256 * j) (omega arith))

addr_at-contents :
    (s : Fs) (block j : ℕ)
    → j < 16
    → addr_at (contents s block) j ≡ word s.byte (block + 256 * j + 248)
unfolding word
addr_at-contents s block j h =
    let n : 4096 - 256 * j ≡ 248 + (4096 - 256 * j - 248) = omega arith in
    ap (λ t. le_value (take 8 (drop 248 t))) (from_entry s block j h)
    ∙ ap (λ k. le_value (take 8 (drop 248 (bytes_at s.byte (block + 256 * j) k)))) n
    ∙ ap (λ t. le_value (take 8 t))
        (drop-bytes_at s.byte (block + 256 * j) 248 (4096 - 256 * j - 248))
    ∙ ap le_value
        (take-bytes_at s.byte (block + 256 * j + 248) 8 (4096 - 256 * j - 248) (omega arith))

-- A string that ends within the bytes does not depend on what follows.
c_string-append :
    (xs ys : List ℕ) → length (c_string xs) < length xs → c_string (xs ++ ys) ≡ c_string xs
unfolding c_string
c_string-append [] ys few = absurd (omega arith)
c_string-append (x ∷ xs) ys few = elim (Bool-cases (x == 0)) [
  | inl end ↦ rw end refl
  | inr other ↦
      let shorter : length (x ∷ c_string xs) < suc (length xs) = (rw other at few) in
      rw other (ap (λ t. x ∷ t) (c_string-append xs ys (omega (arith, shorter))))
]

first_found :
    (last k : ℕ) (block name : List ℕ) (a j : ℕ)
    → FirstEntry last k block name a
    → j < k
    → name_at last block j ≡ name
    → ((i : ℕ) → i < j → name_at last block i ≢ name)
    → a ≡ addr_at block j
first_found last k block name a j (absent z all) h e before = absurd (all j h e)
first_found last k block name a j (found j' h' e' q before') h e before =
    elim (Bool-cases (ltb j' j)) [
      | inl lower ↦ absurd (before j' (ltb→lt j' j lower) e')
      | inr not_lower ↦ elim (Bool-cases (ltb j j')) [
        | inl higher ↦ absurd (before' j (ltb→lt j j' higher) e)
        | inr not_higher ↦
            let same : j' ≡ j = ground (arith, not_lower, not_higher) in q ∙ ap (addr_at block) same
      ]
    ]

-- Where the directory's block and the two inodes are on the device and apart, after `add_addr`
-- of a C string of less than 248 bytes that no entry of the block had as its name, either every
-- entry was taken and the result is -1, or the result is 0 and `check_block` finds the inode's
-- address under the name.
pub check_block-add_addr :
    (s : Fs) (parent block addr : ℕ) (name : List ℕ) (last : ℕ)
    → CanAdd s parent block addr
    → IsCString name
    → length name < 248
    → ((i : ℕ) → i < 16 → name_at last (contents s block) i ≢ name)
    → Returns
        (λ r t.
          ((r ≡ negsuc 0) × ((j : ℕ) → j < 16 → IsTaken s block j))
          ⊎ ((r ≡ pos 0) × (check_block last (contents t block) name ≡ addr)))
        (add_addr parent block addr name s)
check_block-add_addr s parent block addr name last c cs few new =
    Returns-mono _ _ (add_addr parent block addr name s)
      (add_addr_lem s parent block addr name c cs few)
      λ r t h. elim h [
        | inl (z, same, full) ↦ inl (z, full)
        | inr (z, w) ↦ inr (
          z,
          first_found last 16 (contents t block) name _ w.slot
                (check_block-FirstEntry last (contents t block) name) w.in_block
                (name_at-contents t block last w.slot w.in_block
                  ∙ c_string-append (bytes_at t.byte (block + 256 * w.slot) 248) (last ∷ []) (
                      rw w.named (omega (arith, length-bytes_at t.byte (block + 256 * w.slot) 248)))
                  ∙ w.named)
                (λ i p e. new i (omega (arith, w.in_block)) (
                  name_at-contents s block last i (omega (arith, w.in_block))
                  ∙ ap (λ b. c_string (b ++ last ∷ []))
                      (bytes_at_congr s.byte t.byte (block + 256 * i) 248 λ x a b. sym (
                        (w.written).rest x (omega arith) (omega (arith, w.in_block))
                          (inl (omega arith))))
                  ∙ sym (name_at-contents t block last i (omega (arith, w.in_block)))
                  ∙ e))
              ∙ addr_at-contents t block w.slot w.in_block
              ∙ (w.written).address,
        )
      ]
