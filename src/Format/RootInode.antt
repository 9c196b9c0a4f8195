-- ===== src/Format/RootInode.antt =====
-- The inode of the root directory, and its place in the table.
use tyrant_fs.Base.{ℕ, ◌^◌, ◌<◌, ◌≡◌, refl, inl, inr, arith, set, ◌==◌, Bool-cases, ==→ne, ==→eq}
use tyrant_fs.Device.{Fs}
use tyrant_fs.Inode.{Node, head_values, tail_values, direct_widths}
use tyrant_fs.Inode.Codec.{IsNode}
use tyrant_fs.Inode.Io.{inode_at}
use tyrant_fs.Inode.Search.{FirstFree, full, first}
use tyrant_fs.Inode.Valid.{Fits-set}
use tyrant_fs.Format.{root_mode}

-- The root's inode, with the times of access, creation and data.
abbrev pub root_inode : Node → ℕ → ℕ → ℕ → ℕ → Node
root_inode found block access creation written = record found {
  mode = root_mode;
  access_time = access;
  creation_time = creation;
  direct_blocks = set found.direct_blocks 0 block;
  data_time = written;
  size = 512;
  blocks = 1;
  links = 1;
}

pub root_inode-IsNode :
    (found : Node) (block access creation written : ℕ)
    → IsNode found
    → block < 2 ^ 64
    → access < 2 ^ 64
    → creation < 2 ^ 64
    → written < 2 ^ 64
    → IsNode (root_inode found block access creation written)
unfolding head_values tail_values
root_inode-IsNode found block access creation written h b_ok a_ok c_ok w_ok =
    let gid = (h.head).1 in
    let pad = (gid.1).1 in
    let change = ((pad.1).1).1 in
    let deletion = ((change.1).1).1 in
    let pad' = (deletion.1).1 in
    record {
      head = (
        (h.head).0,
        (
          gid.0,
          (
            omega arith,
            (
              pad.0,
              (
                omega arith,
                (
                  omega arith,
                  (
                    change.0,
                    (
                      omega arith,
                      (omega arith, (deletion.0, (omega arith, (pad'.0, (omega arith, tt))))),
                    ),
                  ),
                ),
              ),
            ),
          ),
        ),
      );
      direct = Fits-set direct_widths found.direct_blocks 0 block (omega arith) b_ok h.direct;
      last = h.last;
    }

pub FirstFree-start :
    (s : Fs) (a : ℕ)
    → (inode_at s.byte 4096).mode ≡ 0
    → 4096 < s.globals.inode_byte_boundary
    → FirstFree s 4096 a
    → a ≡ 4096
FirstFree-start s a free some (full z all) = absurd (all 4096 (omega arith) some refl free)
FirstFree-start s a free some (first p q r free' all) = elim (Bool-cases (a == 4096)) [
  | inl e ↦ ==→eq a 4096 e
  | inr e ↦ absurd (all 4096 (omega arith) (omega (arith, ==→ne a 4096 e)) refl free)
]
