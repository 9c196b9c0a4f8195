-- ===== src/Directory/Add.antt =====
-- `add_addr`: the search for a free entry, and the new entry there.
use tyrant_fs.Base.{
  ℕ, zero, suc, ◌+◌, ◌*◌, ◌<◌, ◌≡◌, refl, ap, ◌∙◌, ◌⊎◌, inl, inr, List, [], ◌∷◌, ◌++◌, append_assoc,
  arith, Bool-cases, ◌==◌, ne→==, ==→eq, ==→ne, length, take, drop, length-take, length-drop,
  length-append,
}
use tyrant_fs.Base.Bytes.{bytes_at, overlay, length-bytes_at}
use tyrant_fs.Base.Int.{ℤ, pos, negsuc}
use tyrant_fs.Device.{Fs}
use tyrant_fs.Device.Command.{Returns, Returns-mono}
use tyrant_fs.Block.Io.{read_block-ok}
use tyrant_fs.Inode.Io.{inode_at, fetch_new-ok}
use tyrant_fs.Directory.{c_string, stale_bytes, add_addr_loop, add_addr}
use tyrant_fs.Directory.NewEntry.{
  IsCString, c_string-take, one_byte, IsTaken, CanAdd, Entered, fill_entry-Entered,
}

module _ (s : Fs) (parent block addr : ℕ) (c : CanAdd s parent block addr) (temp : List ℕ)
    (len : length temp ≡ 248) where
  -- What `add_addr` does, by the entries of the block.
  abbrev pub Added : ℤ → Fs → Type 0
  Added r t =
      ((r ≡ negsuc 0) × (t.byte ≡ s.byte) × ((j : ℕ) → j < 16 → IsTaken s block j))
      ⊎ ((r ≡ pos 0)
          × (j : ℕ) × (j < 16)
          × (s.byte (block + 256 * j) ≡ 0)
          × ((i : ℕ) → i < j → IsTaken s block i)
          × Entered s parent block addr j temp t)

  add_addr_loop-Added :
      (k j es p : ℕ)
      → j + k ≡ 16
      → ((i : ℕ) → i < j → IsTaken s block i)
      → Returns Added (
          add_addr_loop k
            (256 * j)
            es
            parent
            block
            addr
            temp
            (inode_at s.byte parent)
            (inode_at s.byte addr)
            (record s { at = p }))
  unfolding add_addr_loop
  add_addr_loop-Added zero j es p e used = inl (refl, refl, λ i q. used i (omega arith))
  add_addr_loop-Added (suc k) j es p e used =
      rw
        (read_block-ok (record s { at = p }) block (256 * j)
          (record { inside = (c.on).inside; small = (c.on).small }) (omega arith) 1 c.block_ok
          (omega arith))
        (rw (one_byte s.byte (block + 256 * j) es)
          (elim (Bool-cases (s.byte (block + 256 * j) == 0)) [
            | inl empty ↦ rw empty (
                Returns-mono (λ r t. (r ≡ pos 0) × Entered s parent block addr j temp t) Added _
                  (fill_entry-Entered s parent block addr c temp len j (block + 256 * j + 1)
                    (omega arith))
                  λ r t (z, h). inr (z, j, omega arith, ==→eq _ 0 empty, used, h))
            | inr taken ↦
                let next : 256 * j + 256 ≡ 256 * suc j = omega arith in
                rw (taken, next)
                  (add_addr_loop-Added k (suc j) (s.byte (block + 256 * j)) (block + 256 * j + 1)
                    (omega arith)
                    λ i q. elim (Bool-cases (i == j)) [
                      | inl same ↦ rw (==→eq i j same) (==→ne _ 0 taken)
                      | inr other ↦ used i (omega (arith, ==→ne i j other))
                    ])
          ]))

-- The buffer with the name.
abbrev pub name_buffer : Fs → List ℕ → List ℕ
name_buffer s name = take 248 (overlay (name ++ 0 ∷ []) (bytes_at s.env.stale 0 248))

length-name_buffer : (s : Fs) (name : List ℕ) → length (name_buffer s name) ≡ 248
unfolding overlay
length-name_buffer s name =
    let got : List ℕ = name ++ 0 ∷ [] in
    let old : List ℕ = bytes_at s.env.stale 0 248 in
    omega (
      arith,
      length-take 248 (got ++ drop (length got) old),
      length-append got (drop (length got) old),
      length-drop (length got) old,
      length-bytes_at s.env.stale 0 248,
    )

c_string-name_buffer :
    (s : Fs) (name : List ℕ)
    → IsCString name
    → length name < 248
    → c_string (name_buffer s name) ≡ name
unfolding overlay
c_string-name_buffer s name h few =
    let rest : List ℕ = drop (length (name ++ 0 ∷ [])) (bytes_at s.env.stale 0 248) in
    ap (λ t. c_string (take 248 t)) (append_assoc name (0 ∷ []) rest)
    ∙ c_string-take 248 name rest h few

-- What `add_addr` leaves: the name and the address stand in the first entry that was free.
pub record AddedEntry (s : Fs) (parent block addr : ℕ) (name : List ℕ) (t : Fs) : Type 0 where
  pub slot : ℕ
  pub in_block : slot < 16
  pub was_free : s.byte (block + 256 * slot) ≡ 0
  pub before : (i : ℕ) → i < slot → IsTaken s block i
  pub named : c_string (bytes_at t.byte (block + 256 * slot) 248) ≡ name
  pub written : Entered s parent block addr slot (name_buffer s name) t

-- Where the directory's block and the two inodes are on the device and apart, and the name is a
-- C string of less than 248 bytes, `add_addr` ends. If all 16 entries of the block are taken, it
-- returns -1 and writes nothing. Else it returns 0; the first free entry holds the name and the
-- inode's address, and the block's other entries are as they were; the directory's inode has its
-- size raised by an entry, that of the entry a link more.
pub add_addr_lem :
    (s : Fs) (parent block addr : ℕ) (name : List ℕ)
    → CanAdd s parent block addr
    → IsCString name
    → length name < 248
    → Returns
        (λ r t.
          ((r ≡ negsuc 0) × (t.byte ≡ s.byte) × ((j : ℕ) → j < 16 → IsTaken s block j))
          ⊎ ((r ≡ pos 0) × AddedEntry s parent block addr name t))
        (add_addr parent block addr name s)
unfolding add_addr stale_bytes
add_addr_lem s parent block addr name c cs few =
    rw
      (
        ne→== block 0 c.block_ok,
        ne→== parent 0 c.parent_ok.0,
        ne→== addr 0 c.addr_ok.0,
        fetch_new-ok s parent c.parent_ok.0 c.parent_ok.1,
        fetch_new-ok (record s { at = parent + 208 }) addr c.addr_ok.0 c.addr_ok.1,
      )
      (Returns-mono (Added s parent block addr c (name_buffer s name) (length-name_buffer s name)) _
        _
        (add_addr_loop-Added s parent block addr c (name_buffer s name) (length-name_buffer s name)
          16 0 0 (addr + 208) refl (λ i q. absurd (omega arith)))
        λ r t h. elim h [
          | inl no_room ↦ inl no_room
          | inr (z, j, q, free, used, w) ↦ inr (
            z,
            record {
              slot = j;
              in_block = q;
              was_free = free;
              before = used;
              named = ap c_string w.name ∙ c_string-name_buffer s name cs few;
              written = w;
            },
          )
        ])
