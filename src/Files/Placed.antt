-- ===== src/Files/Placed.antt =====
-- A file whose inode lies apart from its blocks: a commit of the inode leaves the contents.
use tyrant_fs.Base.{ℕ, ◌+◌, ◌*◌, ◌/◌, ◌%◌, ◌^◌, ◌≤◌, ◌<◌, ◌≡◌, refl, sym, ◌⊎◌, arith}
use tyrant_fs.Base.Bytes.{Memory, word_congr, store}
use tyrant_fs.Base.Store.{store_off}
use tyrant_fs.Inode.{Node, encode, head_values, tail_values}
use tyrant_fs.Inode.Codec.{IsNode, length-encode, length-direct_blocks}
use tyrant_fs.FreeList.Chain.{SameBlock}
use tyrant_fs.BlockMap.Address.{block_at, tables, All}
use tyrant_fs.Files.Contents.{
  IsMapped, contents, KeepsTables, IsMapped-KeepsTables, same_address, same_tables, All-map,
}

-- A block that does not overlap the inode at `cur`.
abbrev pub Off : ℕ → ℕ → Type 0
Off cur b = (cur + 256 ≤ b) ⊎ (b + 4096 ≤ cur)

-- The inode `n`, which lies at `cur`, its blocks and its index blocks do not overlap.
pub record IsPlaced (f : Memory) (size : ℕ) (n : Node) (cur : ℕ) : Type 0 where
  pub mapped : IsMapped f size n
  pub node : IsNode n
  pub behind : 4096 ≤ cur
  pub inside : cur + 256 ≤ size
  pub off : (i : ℕ) → i < n.blocks → Off cur (block_at f n i)
  pub tables_off : (i : ℕ) → i < n.blocks → All (Off cur) (tables f n i)

-- The inode with other times and another size.
abbrev pub stamp : Node → ℕ → ℕ → ℕ → ℕ → Node
stamp n a c d z = record n { access_time = a; change_time = c; data_time = d; size = z }

IsNode-stamp :
    (n : Node) (a c d z : ℕ)
    → IsNode n
    → a < 2 ^ 64
    → c < 2 ^ 64
    → d < 2 ^ 64
    → z < 2 ^ 64
    → IsNode (stamp n a c d z)
unfolding head_values tail_values
IsNode-stamp n a c d z h p q r w = record {
  head = (
    (h.head).0,
    (
      ((h.head).1).0,
      (
        (((h.head).1).1).0,
        (
          ((((h.head).1).1).1).0,
          (
            omega arith,
            (omega arith, (omega arith, (omega arith, (((((((((h.head).1).1).1).1).1).1).1).1)))),
          ),
        ),
      ),
    ),
  );
  direct = h.direct;
  last = h.last;
}

IsMapped-stamp :
    (f : Memory) (size : ℕ) (n : Node) (a c d z : ℕ)
    → IsMapped f size n
    → IsMapped f size (stamp n a c d z)
unfolding block_at tables
IsMapped-stamp f size n a c d z v = record {
  small = v.small;
  reach = v.reach;
  tables_ok = v.tables_ok;
  blocks_ok = v.blocks_ok;
  distinct = v.distinct;
  no_table = v.no_table;
}

pub record TimesOk (n : Node) : Type 0 where
  pub size : n.size < 2 ^ 64
  pub access : n.access_time < 2 ^ 64
  pub change : n.change_time < 2 ^ 64
  pub data_ok : n.data_time < 2 ^ 64

pub IsNode-TimesOk : (n : Node) → IsNode n → TimesOk n
unfolding head_values
IsNode-TimesOk n h = record {
  size = (((((h.head).1).1).1).1).0;
  access = ((((((h.head).1).1).1).1).1).0;
  change = (((((((h.head).1).1).1).1).1).1).0;
  data_ok = ((((((((h.head).1).1).1).1).1).1).1).0;
}

pub IsPlaced-stamp :
    (f : Memory) (size : ℕ) (n : Node) (cur a c d z : ℕ)
    → IsPlaced f size n cur
    → a < 2 ^ 64
    → c < 2 ^ 64
    → d < 2 ^ 64
    → z < 2 ^ 64
    → IsPlaced f size (stamp n a c d z) cur
unfolding block_at tables
IsPlaced-stamp f size n cur a c d z v p q r w = record {
  mapped = IsMapped-stamp f size n a c d z v.mapped;
  node = IsNode-stamp n a c d z v.node p q r w;
  behind = v.behind;
  inside = v.inside;
  off = v.off;
  tables_off = v.tables_off;
}

pub contents-stamp :
    (f : Memory) (n : Node) (a c d z x : ℕ) → contents f (stamp n a c d z) x ≡ contents f n x
unfolding block_at
contents-stamp f n a c d z x = refl

pub block_at-stamp :
    (f : Memory) (n : Node) (a c d z i : ℕ) → block_at f (stamp n a c d z) i ≡ block_at f n i
unfolding block_at
block_at-stamp f n a c d z i = refl

-- Where the index blocks keep their words, the inode stays apart.
pub IsPlaced-KeepsTables :
    {f : Memory} {size : ℕ} {n : Node} {cur : ℕ} (g : Memory)
    → IsPlaced f size n cur
    → KeepsTables f g n
    → IsPlaced g size n cur
IsPlaced-KeepsTables g v k = record {
  mapped = IsMapped-KeepsTables g v.mapped k;
  node = v.node;
  behind = v.behind;
  inside = v.inside;
  off = λ i h. rw (same_address g v.mapped k i h) (v.off i h);
  tables_off = λ i h. rw (same_tables g v.mapped k i h) (v.tables_off i h);
}

module _ {f : Memory} {size : ℕ} {n : Node} {cur : ℕ} (v : IsPlaced f size n cur) (m : Node)
    (h : IsNode m) where
  abbrev pub committed : Memory
  committed = store f cur (encode m)

  pub committed-KeepsTables : KeepsTables f committed n
  committed-KeepsTables j l =
      let len = length-encode m (length-direct_blocks m h) in
      All-map (Off cur) (SameBlock f committed) (tables f n j)
        (λ b p o q.
          word_congr f committed (b + o) λ x r t. sym (store_off f cur (encode m) x (omega arith)))
        (v.tables_off j l)

  pub contents-committed : (x : ℕ) → x < n.blocks * 4096 → contents committed n x ≡ contents f n x
  contents-committed x l =
      let len = length-encode m (length-direct_blocks m h) in
      let i : x / 4096 < n.blocks = omega arith in
      let o = v.off (x / 4096) i in
      rw (same_address committed v.mapped committed-KeepsTables (x / 4096) i)
        (store_off f cur (encode m) (block_at f n (x / 4096) + x % 4096) (omega arith))
