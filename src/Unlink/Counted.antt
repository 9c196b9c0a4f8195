-- ===== src/Unlink/Counted.antt =====
-- The inode of a file with fewer links, committed or not.
use tyrant_fs.Base.{ℕ, suc, ◌+◌, ◌^◌, ◌≤◌, ◌<◌, ◌≡◌, refl, List, arith, zero, ap₂, ◌∷◌}
use tyrant_fs.Base.Bytes.{Memory, store}
use tyrant_fs.Device.{Fs}
use tyrant_fs.Inode.{Node, encode, head_values, tail_values}
use tyrant_fs.Inode.Codec.{IsNode, length-encode, length-direct_blocks}
use tyrant_fs.FreeList.Chain.{count, members}
use tyrant_fs.FreeList.Frame.{KeepsFree, members-KeepsFree, IsFreeList-KeepsFree, store-KeepsFree}
use tyrant_fs.BlockMap.Address.{block_at, tables}
use tyrant_fs.Files.Contents.{same_address, same_tables}
use tyrant_fs.Files.Placed.{
  IsPlaced, Off, IsPlaced-KeepsTables, committed-KeepsTables, IsNode-TimesOk,
}
use tyrant_fs.Unlink.Owned.{Owns, block_list}

-- A file on the device, with a free list that spares its inode, its blocks and its index blocks.
pub record IsFile (s : Fs) (bs : List ℕ) (n : Node) (cur : ℕ) : Type 0 where
  pub placed : IsPlaced s.byte s.size n cur
  pub owns : Owns s bs n (λ j. 0 ≤ j)
  pub spared : (b : ℕ) → 0 < count b (members s.byte bs) → Off cur b

-- The inode with fewer links.
abbrev pub relinked : Node → ℕ → ℕ → Node
relinked n l c = record n { links = l; change_time = c }

pub IsPlaced-relinked :
    (f : Memory) (size : ℕ) (n : Node) (cur l c : ℕ)
    → IsPlaced f size n cur
    → l < 2 ^ 32
    → c < 2 ^ 64
    → IsPlaced f size (relinked n l c) cur
unfolding block_at tables head_values tail_values
IsPlaced-relinked f size n cur l c v l_ok c_ok =
    let m = v.mapped in
    record {
      mapped = record {
        small = m.small;
        reach = m.reach;
        tables_ok = m.tables_ok;
        blocks_ok = m.blocks_ok;
        distinct = m.distinct;
        no_table = m.no_table;
      };
      node = record {
        head = (
          ((v.node).head).0,
          (
            (((v.node).head).1).0,
            (
              ((((v.node).head).1).1).0,
              (
                (((((v.node).head).1).1).1).0,
                (
                  ((((((v.node).head).1).1).1).1).0,
                  (
                    (((((((v.node).head).1).1).1).1).1).0,
                    (
                      omega arith,
                      (
                        (((((((((v.node).head).1).1).1).1).1).1).1).0,
                        (
                          ((((((((((v.node).head).1).1).1).1).1).1).1).1).0,
                          (
                            (((((((((((v.node).head).1).1).1).1).1).1).1).1).1).0,
                            (
                              omega arith,
                              (((((((((((((v.node).head).1).1).1).1).1).1).1).1).1).1).1),
                            ),
                          ),
                        ),
                      ),
                    ),
                  ),
                ),
              ),
            ),
          ),
        );
        direct = (v.node).direct;
        last = (v.node).last;
      };
      behind = v.behind;
      inside = v.inside;
      off = v.off;
      tables_off = v.tables_off;
    }

pub block_at-relinked :
    (f : Memory) (n : Node) (l c i : ℕ) → block_at f (relinked n l c) i ≡ block_at f n i
unfolding block_at
block_at-relinked f n l c i = refl

tables-relinked : (f : Memory) (n : Node) (l c i : ℕ) → tables f (relinked n l c) i ≡ tables f n i
unfolding tables
tables-relinked f n l c i = refl

module _ (s : Fs) (bs : List ℕ) (n : Node) (cur : ℕ) (v : IsFile s bs n cur) (m : Node)
    (ok : IsNode m) (at ticks : ℕ) where
  -- After a commit at the inode's place.
  abbrev pub after : Fs
  after = record s { byte = store s.byte cur (encode m); at = at; ticks = ticks }

  pub after-KeepsFree : KeepsFree s.byte after.byte bs
  after-KeepsFree =
      store-KeepsFree s.byte cur (encode m) bs 256
        (omega (arith, length-encode m (length-direct_blocks m ok)))
        (omega (arith, (v.placed).behind)) v.spared

  pub after-members : members after.byte bs ≡ members s.byte bs
  after-members = members-KeepsFree ((v.owns).formatted).list after-KeepsFree

  pub after-IsFile : (l c : ℕ) → l < 2 ^ 32 → c < 2 ^ 64 → IsFile after bs (relinked n l c) cur
  after-IsFile l c l_ok c_ok =
      let p = v.placed in
      let o = v.owns in
      let keep = committed-KeepsTables p m ok in
      let q =
        IsPlaced-relinked after.byte s.size n cur l c (IsPlaced-KeepsTables after.byte p keep) l_ok
          c_ok in
      record {
        placed = q;
        owns = record {
          mapped = q.mapped;
          formatted = record {
            room = (o.formatted).room;
            list = IsFreeList-KeepsFree (o.formatted).list after-KeepsFree;
          };
          opened = o.opened;
          used = λ j z h.
              rw
                (
                  block_at-relinked after.byte n l c j,
                  same_address after.byte p.mapped keep j h,
                  after-members,
                )
                (o.used j z h);
          tables_used = λ j h.
              rw
                (
                  tables-relinked after.byte n l c j,
                  same_tables after.byte p.mapped keep j h,
                  after-members,
                )
                (o.tables_used j h);
        };
        spared = rw after-members v.spared;
      }

pub block_list-relinked :
    (f : Memory) (n : Node) (l c i k : ℕ) → block_list f (relinked n l c) i k ≡ block_list f n i k
unfolding block_list
block_list-relinked f n l c i zero = refl
block_list-relinked f n l c i (suc k) =
    ap₂ ◌∷◌ (block_at-relinked f n l c i) (block_list-relinked f n l c (i + 1) k)

module _ (s : Fs) (bs : List ℕ) (n : Node) (cur : ℕ) (v : IsFile s bs n cur) (l c : ℕ)
    (l_ok : l < 2 ^ 32) (c_ok : c < 2 ^ 64) (at ticks : ℕ) where
  pub relinked-IsNode : IsNode (relinked n l c)
  relinked-IsNode = (IsPlaced-relinked s.byte s.size n cur l c v.placed l_ok c_ok).node

  abbrev pub counted : Fs
  counted = after s bs n cur v (relinked n l c) relinked-IsNode at ticks

  pub counted-IsFile : IsFile counted bs (relinked n l c) cur
  counted-IsFile = after-IsFile s bs n cur v (relinked n l c) relinked-IsNode at ticks l c l_ok c_ok

-- The inode in memory has fewer links, the one on the device does not.
pub relinked-IsFile :
    (s : Fs) (bs : List ℕ) (n : Node) (cur l p : ℕ)
    → IsFile s bs n cur
    → l < 2 ^ 32
    → IsFile (record s { at = p }) bs (relinked n l n.change_time) cur
relinked-IsFile s bs n cur l p v l_ok =
    let o = v.owns in
    let q =
      IsPlaced-relinked s.byte s.size n cur l n.change_time v.placed l_ok
        (IsNode-TimesOk n (v.placed).node).change in
    record {
      placed = q;
      owns = record {
        mapped = q.mapped;
        formatted = record { room = (o.formatted).room; list = (o.formatted).list };
        opened = o.opened;
        used = λ j z h. rw (block_at-relinked s.byte n l n.change_time j) (o.used j z h);
        tables_used = λ j h. rw (tables-relinked s.byte n l n.change_time j) (o.tables_used j h);
      };
      spared = v.spared;
    }
