-- ===== src/Inode/Search.antt =====
-- `allocate_inode`: the search for the first inode with mode 0.
use tyrant_fs.Base.{
  ℕ, zero, suc, ◌+◌, ◌%◌, ◌≤◌, ◌<◌, ◌≡◌, refl, ◌≢◌, inl, inr, false, arith, ltb, ◌==◌, Bool-cases,
  ltb→lt, ==→eq, ==→ne, length,
}
use tyrant_fs.Base.Bytes.{bytes_at, overlay_full, length-bytes_at}
use tyrant_fs.Base.Int.{is_neg}
use tyrant_fs.Device.{Fs}
use tyrant_fs.Device.Command.{Returns, Returns-mono}
use tyrant_fs.Device.Rules.{lseek_set-le, read-le}
use tyrant_fs.Inode.{Node, encode, decode, stale_node, find_free_inode, allocate_inode}
use tyrant_fs.Inode.Codec.{length-encode, length-decode}
use tyrant_fs.Inode.Io.{inode_at}

-- Nothing but the file position differs.
abbrev pub OnlyAt : Fs → Fs → Type 0
OnlyAt s t = t ≡ record s { at = t.at }

-- The inode at an address of the table is in use.
abbrev pub IsUsed : Fs → ℕ → Type 0
IsUsed s x = (inode_at s.byte x).mode ≢ 0

-- `a` is the first inode from `i` on that is not in use, or 0 if there is none.
pub data FirstFree (s : Fs) (i a : ℕ) : Type 0 where
  full :
      a ≡ 0
      → ((x : ℕ) → i ≤ x → x < s.globals.inode_byte_boundary → x % 256 ≡ 0 → IsUsed s x)
      → FirstFree s i a
  first :
      i ≤ a
      → a < s.globals.inode_byte_boundary
      → a % 256 ≡ 0
      → (inode_at s.byte a).mode ≡ 0
      → ((x : ℕ) → i ≤ x → x < a → x % 256 ≡ 0 → IsUsed s x)
      → FirstFree s i a

-- The inode table lies on the device.
pub record HasTable (s : Fs) : Type 0 where
  pub aligned : s.globals.inode_byte_boundary % 256 ≡ 0
  pub inside : s.globals.inode_byte_boundary ≤ s.size

FirstFree-step :
    (s : Fs) (i a : ℕ) → i % 256 ≡ 0 → IsUsed s i → FirstFree s (i + 256) a → FirstFree s i a
FirstFree-step s i a m used (full z all) = full z λ x p q r. elim (Bool-cases (x == i)) [
  | inl e ↦ rw (==→eq x i e) used
  | inr e ↦ all x (omega (arith, ==→ne x i e)) q r
]
FirstFree-step s i a m used (first p q r free all) = first (omega arith) q r free λ x p' q' r'.
    elim (Bool-cases (x == i)) [
      | inl e ↦ rw (==→eq x i e) used
      | inr e ↦ all x (omega (arith, ==→ne x i e)) q' r'
    ]

module _ (s : Fs) (h : HasTable s) where
  find_free_inode-FirstFree :
      (k i p : ℕ) (buff : Node)
      → i % 256 ≡ 0
      → 0 < k
      → s.globals.inode_byte_boundary < i + k
      → length buff.direct_blocks ≡ 12
      → Returns
          (λ a t. FirstFree s i a × OnlyAt s t)
          (find_free_inode k i buff (record s { at = p }))
  unfolding find_free_inode inode_at
  find_free_inode-FirstFree zero i p buff m more fuel len = absurd (omega arith)
  find_free_inode-FirstFree (suc k) i p buff m more fuel len =
      elim (Bool-cases (ltb i s.globals.inode_byte_boundary)) [
        | inl lt ↦
            let room : i + 208 ≤ s.size =
              omega (arith, h.aligned, h.inside, ltb→lt i s.globals.inode_byte_boundary lt) in
            rw
              (
                lt,
                lseek_set-le (record s { at = p }) i (omega arith),
                read-le (record s { at = i }) 208 room,
                overlay_full (bytes_at s.byte i 208) (encode buff)
                    (omega (arith, length-encode buff len, length-bytes_at s.byte i 208)),
              )
              (elim (Bool-cases ((inode_at s.byte i).mode == 0)) [
                | inl free ↦ rw free (
                  first (omega arith) (ltb→lt i s.globals.inode_byte_boundary lt) m (==→eq _ 0 free)
                      (λ x q r t. absurd (omega arith)),
                  refl,
                )
                | inr used ↦ rw used (
                    Returns-mono (λ a t. FirstFree s (i + 256) a × OnlyAt s t)
                      (λ a t. FirstFree s i a × OnlyAt s t) _
                      (find_free_inode-FirstFree k (i + 256) (i + 208) (inode_at s.byte i)
                        (omega arith) (omega (arith, ltb→lt i s.globals.inode_byte_boundary lt))
                        (omega (arith, ltb→lt i s.globals.inode_byte_boundary lt))
                        (length-decode (bytes_at s.byte i 208)))
                      λ a t (f, o). (FirstFree-step s i a m (==→ne _ 0 used) f, o))
              ])
        | inr done ↦ rw done (full refl (λ x q r t. absurd (ground (arith, done))), refl)
      ]

-- With an open device that holds the superblock and the inode table, `allocate_inode` ends and
-- returns the first place of the table whose inode has mode 0, or 0 if every inode is in use. It
-- changes nothing but the file position: the inode stays free until the caller commits a mode.
pub allocate_inode-FirstFree :
    (s : Fs)
    → HasTable s
    → is_neg s.globals.drive ≡ false
    → 4096 ≤ s.size
    → Returns (λ a t. FirstFree s 4096 a × OnlyAt s t) (allocate_inode s)
unfolding allocate_inode stale_node
allocate_inode-FirstFree s h open_fd room =
    rw (open_fd, lseek_set-le s 4096 room)
      (find_free_inode-FirstFree s h (suc s.globals.inode_byte_boundary) 4096 4096
        (decode (bytes_at s.env.stale 0 208)) (omega arith) (omega arith) (omega arith)
        (length-decode (bytes_at s.env.stale 0 208)))
