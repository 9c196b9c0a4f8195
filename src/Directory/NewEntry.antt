-- ===== src/Directory/NewEntry.antt =====
-- A new entry in a directory block: what `fill_entry` writes.
use tyrant_fs.Base.{
  ℕ, zero, suc, ◌+◌, ◌-◌, ◌*◌, ◌^◌, ◌≤◌, ◌<◌, ◌≡◌, ◌≢◌, refl, sym, ap, ◌∙◌, ◌⊎◌, List, [], ◌∷◌,
  ◌++◌, arith, ne→==, length, take,
}
use tyrant_fs.Base.Bytes.{
  Memory, bytes_at, bytes_at_congr, word_congr, store, word, le_bytes, le_value, overlay,
  length-le_bytes,
}
use tyrant_fs.Base.Store.{store_off, bytes_at-store, bytes_at-store_below, word-store_self}
use tyrant_fs.Base.Octets.{HasBytes}
use tyrant_fs.Base.Word.{add64, add32}
use tyrant_fs.Base.Int.{pos}
use tyrant_fs.Device.{Fs, time}
use tyrant_fs.Device.Command.{Returns}
use tyrant_fs.Block.Io.{IsOnDevice, write_block-ok, write_block_u64-ok}
use tyrant_fs.Inode.{Node, encode, head_values, tail_values}
use tyrant_fs.Inode.Codec.{IsNode, length-encode, length-direct_blocks}
use tyrant_fs.Inode.Io.{inode_at, Apart, commit_inode-ok, inode_at-store_self, inode_at-store-Apart}
use tyrant_fs.Inode.Valid.{inode_at-IsNode}
use tyrant_fs.Directory.{c_string, fill_entry}

-- A C string: no byte is the terminator.
abbrev pub IsCString : List ℕ → Type 0
IsCString [] = Unit {0}
IsCString (c ∷ cs) = (c ≢ 0) × IsCString cs

pub c_string-take :
    (n : ℕ) (name rest : List ℕ)
    → IsCString name
    → length name < n
    → c_string (take n (name ++ 0 ∷ rest)) ≡ name
unfolding c_string
c_string-take zero name rest h few = absurd (omega arith)
c_string-take (suc n) [] rest h few = refl
c_string-take (suc n) (c ∷ name) rest h few =
    rw (ne→== c 0 h.0) (ap (λ t. c ∷ t) (c_string-take n name rest h.1 (omega arith)))

pub one_byte : (f : Memory) (a old : ℕ) → le_value (overlay (bytes_at f a 1) (old ∷ [])) ≡ f a
unfolding le_value overlay bytes_at
one_byte f a old = omega arith

-- The directory's inode with an entry more, and the entry's inode with a link more.
abbrev pub with_entry : Node → ℕ → Node
with_entry n now = record n { size = add64 n.size 256; data_time = now; change_time = now }

abbrev pub with_link : Node → ℕ → Node
with_link n now = record n { links = add32 n.links 1; change_time = now }

with_entry-IsNode : (n : Node) (now : ℕ) → IsNode n → now < 2 ^ 64 → IsNode (with_entry n now)
unfolding head_values tail_values
with_entry-IsNode n now h small = record { head = omega arith; direct = h.direct; last = h.last }

with_link-IsNode : (n : Node) (now : ℕ) → IsNode n → now < 2 ^ 64 → IsNode (with_link n now)
unfolding head_values tail_values
with_link-IsNode n now h small = record { head = omega arith; direct = h.direct; last = h.last }

-- Entry `j` is in use: its name is not empty.
abbrev pub IsTaken : Fs → ℕ → ℕ → Type 0
IsTaken s block j = s.byte (block + 256 * j) ≢ 0

-- The places that `add_addr` writes to lie on the device and apart.
pub record CanAdd (s : Fs) (parent block addr : ℕ) : Type 0 where
  pub on : IsOnDevice s block
  pub block_ok : block ≢ 0
  pub parent_ok : (parent ≢ 0) × (parent + 256 ≤ s.size)
  pub addr_ok : (addr ≢ 0) × (addr + 256 ≤ s.size)
  pub parent_away : (parent + 256 ≤ block) ⊎ (block + 4096 ≤ parent)
  pub addr_away : (addr + 256 ≤ block) ⊎ (block + 4096 ≤ addr)
  pub apart : Apart parent addr
  pub bytes : HasBytes s.byte
  pub clock : s.env.clock s.ticks < 2 ^ 64

-- Entry `j` holds the name's bytes `temp` and the address; the rest of the block is as it was; both
-- inodes are brought up to date.
pub record Entered (s : Fs) (parent block addr j : ℕ) (temp : List ℕ) (t : Fs) : Type 0 where
  pub name : bytes_at t.byte (block + 256 * j) 248 ≡ temp
  pub address : word t.byte (block + 256 * j + 248) ≡ addr
  pub rest :
      (x : ℕ)
      → block ≤ x
      → x < block + 4096
      → (x < block + 256 * j) ⊎ (block + 256 * j + 256 ≤ x)
      → t.byte x ≡ s.byte x
  pub directory : inode_at t.byte parent ≡ with_entry (inode_at s.byte parent) (s.env.clock s.ticks)
  pub entry : inode_at t.byte addr ≡ with_link (inode_at s.byte addr) (s.env.clock s.ticks)

module _ (s : Fs) (parent block addr : ℕ) (c : CanAdd s parent block addr) (temp : List ℕ)
    (len : length temp ≡ 248) where
  -- The block's bytes with the entry, and those of the device with both inodes.
  abbrev entry_bytes : ℕ → Memory
  entry_bytes j =
      store (store s.byte (block + 256 * j) temp) (block + (256 * j + 248)) (le_bytes 8 addr)

  Entered-of :
      (j : ℕ) (pn an : Node) (t : Fs)
      → j < 16
      → IsNode pn
      → IsNode an
      → pn ≡ with_entry (inode_at s.byte parent) (s.env.clock s.ticks)
      → an ≡ with_link (inode_at s.byte addr) (s.env.clock s.ticks)
      → t.byte ≡ store (store (entry_bytes j) parent (encode pn)) addr (encode an)
      → Entered s parent block addr j temp t
  Entered-of j pn an t few pn_ok an_ok is_pn is_an e =
      let pl = length-encode pn (length-direct_blocks pn pn_ok) in
      let al = length-encode an (length-direct_blocks an an_ok) in
      let n = length-le_bytes 8 addr in
      let f1 : Memory = store s.byte (block + 256 * j) temp in
      let f3 : Memory = store (entry_bytes j) parent (encode pn) in
      let same : (x : ℕ)
          → block ≤ x
          → x < block + 4096
          → store f3 addr (encode an) x ≡ entry_bytes j x =
        λ x a b.
          store_off f3 addr (encode an) x (omega (arith, c.addr_away))
          ∙ store_off (entry_bytes j) parent (encode pn) x (omega (arith, c.parent_away)) in
      rw e (record {
        name =
            bytes_at_congr _ (entry_bytes j) (block + 256 * j) 248
              (λ x a b. same x (omega arith) (omega arith))
            ∙ bytes_at-store_below f1 (block + (256 * j + 248)) (le_bytes 8 addr) (block + 256 * j)
                248 (omega arith)
            ∙ ap (bytes_at f1 (block + 256 * j)) (sym len)
            ∙ bytes_at-store s.byte (block + 256 * j) temp;
        address =
            word_congr _ (entry_bytes j) (block + 256 * j + 248)
              (λ x a b. same x (omega arith) (omega arith))
            ∙ ap (word (entry_bytes j)) (omega arith)
            ∙ word-store_self f1 (block + (256 * j + 248)) addr
                (omega (arith, c.addr_ok.1, (c.on).small));
        rest = λ x a b o.
            same x a b
            ∙ store_off f1 (block + (256 * j + 248)) (le_bytes 8 addr) x (omega arith)
            ∙ store_off s.byte (block + 256 * j) temp x (omega arith);
        directory =
            inode_at-store-Apart f3 addr an an_ok parent (omega (arith, c.apart))
            ∙ inode_at-store_self (entry_bytes j) parent pn pn_ok
            ∙ is_pn;
        entry = inode_at-store_self f3 addr an an_ok ∙ is_an;
      })

  pub fill_entry-Entered :
      (j p : ℕ)
      → j < 16
      → Returns
          (λ r t. (r ≡ pos 0) × Entered s parent block addr j temp t)
          (fill_entry
            (256 * j)
            parent
            block
            addr
            temp
            (inode_at s.byte parent)
            (inode_at s.byte addr)
            (record s { at = p }))
  unfolding fill_entry time
  fill_entry-Entered j p few =
      let now : ℕ = s.env.clock s.ticks in
      let pn : Node = with_entry (inode_at s.byte parent) now in
      let an : Node = with_link (inode_at s.byte addr) now in
      let pn_ok : IsNode pn =
        with_entry-IsNode _ now (inode_at-IsNode s.byte parent (λ x a b. c.bytes x)) c.clock in
      let an_ok : IsNode an =
        with_link-IsNode _ now (inode_at-IsNode s.byte addr (λ x a b. c.bytes x)) c.clock in
      let s0 : Fs = record s { at = p } in
      let s1 : Fs = record s {
        byte = store s.byte (block + 256 * j) temp;
        at = block + 256 * j + 248;
      } in
      let off : 256 * j + 256 - 8 ≡ 256 * j + 248 = omega arith in
      let f2 : Memory = store s1.byte (block + (256 * j + 248)) (le_bytes 8 addr) in
      let s2 : Fs = record s { byte = f2; at = block + (256 * j + 248) + 8; ticks = s.ticks + 1 } in
      let s3 : Fs = record s2 { byte = store f2 parent (encode pn); at = parent + 208 } in
      let w =
        write_block-ok s0 block (256 * j) (record { inside = (c.on).inside; small = (c.on).small })
          (omega arith) temp (omega arith) (omega arith) in
      rw
        (
          rw len at w,
          off,
          write_block_u64-ok s1 block (256 * j + 248)
              (record { inside = (c.on).inside; small = (c.on).small }) (omega arith) addr,
          commit_inode-ok s2 parent c.parent_ok.0 c.parent_ok.1 pn pn_ok,
          commit_inode-ok s3 addr c.addr_ok.0 c.addr_ok.1 an an_ok,
        )
        (refl, Entered-of j pn an _ few pn_ok an_ok refl refl refl)
