-- ===== src/Format/Layout.antt =====
-- What `tfs_mkfs` makes of a device before it makes the root: the free list and the free inodes.
use tyrant_fs.Base.{
  ℕ, zero, suc, ◌+◌, ◌-◌, ◌*◌, ◌/◌, ◌%◌, ◌^◌, ◌≤◌, ◌<◌, ◌≡◌, ◌≢◌, refl, ap, ap₂, ◌∙◌, ◌⊎◌, inl, inr,
  List, arith, length, replicate, length-replicate, get_or-replicate, Bool-cases, ==→eq, ltb,
  ltb→lt, ◌==◌,
}
use tyrant_fs.Base.Bytes.{Memory, word, word_congr, store, le_bytes, length-le_bytes}
use tyrant_fs.Base.Store.{store_in, store_below, store_above, word-store_self, le_value-zero}
use tyrant_fs.Base.Word.{sub64}
use tyrant_fs.Base.Int.{ℤ}
use tyrant_fs.Device.{Fs}
use tyrant_fs.Device.Command.{Returns, Returns-bind, Returns-mono}
use tyrant_fs.Device.Rules.{lseek_set-le, write-le, write_u64-le}
use tyrant_fs.Inode.Io.{inode_at, mode_at}
use tyrant_fs.Format.{set_geometry, clear_blocks, fill_lists, lay_out}
use tyrant_fs.Format.Slots.{run}
use tyrant_fs.Format.Lists.{LaidOut, ListsDone, OnlyBytes-trans, fill_lists-ListsDone}
use tyrant_fs.FreeList.Chain.{Chain, count, members}
use tyrant_fs.FreeList.Refine.{OnlyBytes, IsFormatted}

-- The bytes of a range are zero, all others are kept.
pub record Cleared (f g : Memory) (a n : ℕ) : Type 0 where
  inside : (x : ℕ) → a ≤ x → x < a + n → g x ≡ 0
  outside : (x : ℕ) → (x < a) ⊎ (a + n ≤ x) → g x ≡ f x

clear_blocks-Cleared :
    (n : ℕ) (s : Fs)
    → s.at + 4096 * n ≤ s.size
    → Returns (λ r t. Cleared s.byte t.byte s.at (4096 * n) × OnlyBytes s t) (clear_blocks n s)
unfolding clear_blocks
clear_blocks-Cleared zero s fits =
    (record { inside = λ x p q. absurd (omega arith); outside = λ x h. refl }, refl)
clear_blocks-Cleared (suc n) s fits =
    let zeros : List ℕ = replicate 4096 0 in
    let l : length zeros ≡ 4096 = length-replicate {0} {A = ℕ} 4096 0 in
    let u : Fs = record s { byte = store s.byte s.at zeros; at = s.at + length zeros } in
    rw (write-le s zeros (omega arith) (omega arith)) (
      Returns-mono (λ r t. Cleared u.byte t.byte u.at (4096 * n) × OnlyBytes u t) _
        (clear_blocks n u) (clear_blocks-Cleared n u (omega arith))
        λ r t (c, o). (
          record {
            inside = λ x p q. elim (lt_or_le x (s.at + 4096)) [
              | inl below ↦
                  c.outside x (inl (omega arith))
                  ∙ store_in s.byte s.at zeros x p (omega arith)
                  ∙ get_or-replicate 4096 (x - s.at) 0
              | inr above ↦ c.inside x (omega arith) (omega arith)
            ];
            outside = λ x h. c.outside x (omega arith) ∙ elim h [
              | inl p ↦ store_below s.byte s.at zeros x p
              | inr p ↦ store_above s.byte s.at zeros x (omega arith)
            ];
          },
          OnlyBytes-trans s u t refl o,
        ))
  where
    lt_or_le : (x y : ℕ) → (x < y) ⊎ (y ≤ x)
    lt_or_le x y = omega arith

pub run_in :
    (a p n : ℕ)
    → 0 < count a (run p n)
    → (p ≤ a) × (a + 4096 ≤ p + 4096 * n) × (a % 4096 ≡ p % 4096)
unfolding run count
run_in a p zero h = absurd (omega arith)
run_in a p (suc n) h = elim (Bool-cases (a == p)) [
  | inl e ↦ let q = ==→eq a p e in (omega arith, omega arith, ap (λ z. z % 4096) q)
  | inr e ↦
      let r = run_in a (p + 4096) n (ground (arith, h, e)) in
      (omega (arith, r.0), omega (arith, r.1), omega (arith, r.2))
]

run_once : (a p n : ℕ) → count a (run p n) ≤ 1
unfolding run count
run_once a p zero = omega arith
run_once a p (suc n) = elim (Bool-cases (a == p)) [
  | inl e ↦ rw e (elim (Bool-cases (ltb 0 (count a (run (p + 4096) n)))) [
    | inl again ↦ absurd (omega (arith, ==→eq a p e, (run_in a (p + 4096) n (ltb→lt 0 _ again)).0))
    | inr fresh ↦ ground (arith, fresh)
  ])
  | inr e ↦ rw e (omega (arith, run_once a (p + 4096) n))
]

IsFormatted-run :
    (t : Fs) (bs : List ℕ) (p n : ℕ)
    → Chain t.byte p bs
    → word t.byte 0 ≡ p
    → members t.byte bs ≡ run p n
    → p % 4096 ≡ 0
    → 4096 ≤ p
    → p + 4096 * n ≤ t.size
    → t.size < 2 ^ 63
    → IsFormatted t bs
IsFormatted-run t bs p n chain first blocks aligned behind inside small = record {
  room = omega arith;
  list = record {
    chain = (rw first chain);
    once = λ a. rw blocks (run_once a p n);
    valid = λ a h.
        let r = run_in a p n (rw blocks at h) in
        record {
          aligned = omega (arith, r.2);
          behind = omega (arith, r.0);
          inside = omega (arith, r.1);
        };
    small = small;
  };
}

-- The geometry is set, and the file position is 0.
abbrev pub divided : Fs → ℤ → ℕ → ℕ → Fs
divided s fd start blocks = record s {
  at = 0;
  globals = record (s.globals) {
    drive = fd;
    drivesize = s.size;
    num_blocks = s.size / 4096;
    inode_blocks = s.size / 4096 / 65;
    data_blocks = blocks;
    inode_byte_boundary = start;
  };
}

-- The first word is written.
abbrev pub headed : Fs → ℕ → Fs
headed u start = record u { byte = store u.byte 0 (le_bytes 8 start); at = 8 }

-- The free list is well formed and holds, in order, every block that the geometry counts behind the
-- inode table; every inode is free.
pub record IsLaidOut (s : Fs) (fd : ℤ) (t : Fs) : Type 0 where
  pub bs : List ℕ
  pub formatted : IsFormatted t bs
  pub free : members t.byte bs ≡ run (4096 * (s.size / 4096 / 65 + 1)) (64 * (s.size / 4096 / 65))
  pub zeroed : (x : ℕ) → 4096 ≤ x → x < 4096 * (s.size / 4096 / 65 + 1) → t.byte x ≡ 0
  pub inodes :
      (x : ℕ) → 4096 ≤ x → x + 256 ≤ 4096 * (s.size / 4096 / 65 + 1) → (inode_at t.byte x).mode ≡ 0
  pub size_kept : t.size ≡ s.size
  pub opened : t.globals.drive ≡ fd
  pub env_kept : t.env ≡ s.env
  pub table : t.globals.inode_byte_boundary ≡ 4096 * (s.size / 4096 / 65 + 1)

-- What the last loop leaves, behind the zeros and the first word.
IsLaidOut-of :
    (s : Fs) (fd : ℤ) (u t : Fs) (start blocks : ℕ)
    → OnlyBytes (divided s fd start blocks) u
    → ListsDone (headed u start) start (u.globals.data_blocks - 0 + 1) t
    → start ≡ 4096 * (s.size / 4096 / 65 + 1)
    → blocks + 1 ≡ 64 * (s.size / 4096 / 65)
    → 65 ≤ s.size / 4096
    → s.size < 2 ^ 63
    → Cleared s.byte u.byte 0 (4096 * (s.size / 4096 / 65 + 1))
    → start + (blocks + 1) * 4096 ≤ s.size
    → IsLaidOut s fd t
IsLaidOut-of s fd u t start blocks o e at_start ratio many small c fits =
    let lo : LaidOut (headed u start).byte t.byte start (u.globals.data_blocks - 0 + 1) (e.0).0 =
      (e.0).1 in
    let size : u.size ≡ s.size = ap (λ (v : Fs). v.size) o in
    let size' : t.size ≡ u.size = ap (λ (v : Fs). v.size) e.1 in
    let d : u.globals.data_blocks ≡ blocks = ap (λ (v : Fs). v.globals.data_blocks) o in
    let b : u.globals.inode_byte_boundary ≡ start =
      ap (λ (v : Fs). v.globals.inode_byte_boundary) o in
    let first : word t.byte 0 ≡ start =
      word_congr t.byte (headed u start).byte 0 (λ x p q. lo.below x (omega arith))
      ∙ word-store_self u.byte 0 start (omega arith) in
    let zero_byte : (x : ℕ) → 4096 ≤ x → x < 4096 * (s.size / 4096 / 65 + 1) → t.byte x ≡ 0 =
      λ x p q.
        lo.below x (omega arith)
        ∙ store_above u.byte 0 (le_bytes 8 start) x (omega (arith, length-le_bytes 8 start))
        ∙ c.inside x (omega arith) (omega arith) in
    record {
      bs = (e.0).0;
      formatted =
          IsFormatted-run t (e.0).0 start (u.globals.data_blocks - 0 + 1) lo.chain first lo.blocks
            (omega arith) (omega arith) (omega arith) (omega arith);
      free = lo.blocks ∙ ap₂ run at_start (omega arith);
      zeroed = zero_byte;
      inodes = λ x p q.
          mode_at t.byte x
          ∙ le_value-zero t.byte (x + 8) 4 λ y p' q'. zero_byte y (omega arith) (omega arith);
      size_kept = size' ∙ size;
      opened = ap (λ (v : Fs). v.globals.drive) e.1 ∙ ap (λ (v : Fs). v.globals.drive) o;
      table = ap (λ (v : Fs). v.globals.inode_byte_boundary) e.1 ∙ b ∙ at_start;
      env_kept = ap (λ (v : Fs). v.env) e.1 ∙ ap (λ (v : Fs). v.env) o;
    }

-- The bytes after each part: the zeros, and the list blocks.
abbrev pub Parts : Fs → ℤ → ℕ → ℕ → Fs → Type 0
Parts s fd start blocks t =
    (u : Fs) × Cleared s.byte u.byte 0 (4096 * (s.size / 4096 / 65 + 1))
    × OnlyBytes (divided s fd start blocks) u
    × ListsDone (headed u start) start (u.globals.data_blocks - 0 + 1) t

pub lay_out-Parts :
    (s : Fs) (fd : ℤ)
    → 65 ≤ s.size / 4096
    → s.size < 2 ^ 63
    → Returns
        (λ r t.
          Parts s fd
            ((s.size / 4096 / 65 + 1) * 4096 % 2 ^ 64)
            (sub64 (s.size / 4096 / 65 * 64 % 2 ^ 64) 1)
            t)
        (lay_out fd s)
unfolding lay_out set_geometry
lay_out-Parts s fd many small =
    let n : ℕ = s.size / 4096 / 65 in
    let start : ℕ = (n + 1) * 4096 % 2 ^ 64 in
    let blocks : ℕ = sub64 (n * 64 % 2 ^ 64) 1 in
    let s1 : Fs = divided s fd start blocks in
    let geometry : (start ≡ 4096 * (n + 1)) × (blocks + 1 ≡ 64 * n) = (omega arith, omega arith) in
    rw (lseek_set-le (record s1 { at = s.at }) 0 (omega arith)) (
      Returns-bind (λ r u. Cleared s1.byte u.byte 0 (4096 * (n + 1)) × OnlyBytes s1 u) _
        (clear_blocks (n + 1) s1) _ (clear_blocks-Cleared (n + 1) s1 (omega arith))
        λ r u (c, o).
          let size : u.size ≡ s.size = ap (λ (v : Fs). v.size) o in
          let u2 : Fs = headed u start in
          let d : u.globals.data_blocks ≡ blocks = ap (λ (v : Fs). v.globals.data_blocks) o in
          let b : u.globals.inode_byte_boundary ≡ start =
            ap (λ (v : Fs). v.globals.inode_byte_boundary) o in
          rw
            (lseek_set-le u 0 (omega arith), write_u64-le (record u { at = 0 }) start (omega arith))
            (Returns-mono (λ r t. ListsDone u2 start (u2.globals.data_blocks - 0 + 1) t)
              (λ r t. Parts s fd start blocks t) (fill_lists (suc blocks) 0 start u2)
              (fill_lists-ListsDone (suc blocks) 0 start u2 (omega arith) (omega arith)
                (omega arith) (omega arith) (λ z. omega arith) (omega arith) (omega arith))
              λ r t e. (u, c, o, e)))

-- On a device of at least 65 blocks and less than 2 ^ 63 bytes, whose number of blocks is not a
-- multiple of 65, the format ends and leaves a well-formed free list of all data blocks, 64 for
-- each block of the inode table, each once and in order, and an inode table in which every inode
-- is free.
pub lay_out-IsLaidOut :
    (s : Fs) (fd : ℤ)
    → 65 ≤ s.size / 4096
    → (s.size / 4096) % 65 ≢ 0
    → s.size < 2 ^ 63
    → Returns (λ r t. IsLaidOut s fd t) (lay_out fd s)
lay_out-IsLaidOut s fd many ok small =
    let n : ℕ = s.size / 4096 / 65 in
    let start : ℕ = (n + 1) * 4096 % 2 ^ 64 in
    let blocks : ℕ = sub64 (n * 64 % 2 ^ 64) 1 in
    let geometry : (start ≡ 4096 * (n + 1)) × (blocks + 1 ≡ 64 * n) = (omega arith, omega arith) in
    Returns-mono (λ r t. Parts s fd start blocks t) (λ r t. IsLaidOut s fd t) (lay_out fd s)
      (lay_out-Parts s fd many small)
      λ r t (u, c, o, e).
        IsLaidOut-of s fd u t start blocks o e geometry.0 geometry.1 many small c (omega arith)
