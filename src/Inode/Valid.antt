-- ===== src/Inode/Valid.antt =====
-- Bytes make a node whose members are within their types.
use tyrant_fs.Base.{◌+◌, ◌≤◌, ◌≡◌, set, ℕ, zero, suc, ◌^◌, ◌<◌, List, [], ◌∷◌, arith, take, drop}
use tyrant_fs.Base.Bytes.{Memory, bytes_at, le_value}
use tyrant_fs.Base.Octets.{AllBytes, AllBytes-drop, AllBytes-bytes_at}
use tyrant_fs.Inode.{
  head_widths, direct_widths, tail_widths, unpack, head_values, tail_values, decode, of_values,
}
use tyrant_fs.Inode.Codec.{Fits, IsNode}
use tyrant_fs.Inode.Io.{inode_at}
use native.Mathlib.Nat.{pow-suc}

le_value-take_lt : (n : ℕ) (bs : List ℕ) → AllBytes bs → le_value (take n bs) < 256 ^ n
unfolding le_value
le_value-take_lt zero bs h = omega arith
le_value-take_lt (suc n) [] h = omega (arith, le_value-take_lt n [] tt, pow-suc 256 n)
le_value-take_lt (suc n) (b ∷ bs) h = omega (arith, le_value-take_lt n bs h.1, h.0, pow-suc 256 n)

Fits-unpack : (ws bs : List ℕ) → AllBytes bs → Fits ws (unpack ws bs)
unfolding unpack
Fits-unpack [] bs h = tt
Fits-unpack (w ∷ ws) bs h =
    (le_value-take_lt w bs h, Fits-unpack ws (drop w bs) (AllBytes-drop w bs h))

decode-IsNode : (bs : List ℕ) → AllBytes bs → IsNode (decode bs)
unfolding decode of_values head_values tail_values unpack
decode-IsNode bs h = record {
  head = Fits-unpack head_widths bs h;
  direct = Fits-unpack direct_widths (drop 80 bs) (AllBytes-drop 80 bs h);
  last = Fits-unpack tail_widths (drop 176 bs) (AllBytes-drop 176 bs h);
}

pub inode_at-IsNode :
    (f : Memory) (loc : ℕ)
    → ((x : ℕ) → loc ≤ x → x < loc + 208 → f x < 256)
    → IsNode (inode_at f loc)
unfolding inode_at
inode_at-IsNode f loc h = decode-IsNode (bytes_at f loc 208) (AllBytes-bytes_at f loc 208 h)

-- Widths of eight bytes.
abbrev pub AllEight : List ℕ → Type 0
AllEight [] = Unit {0}
AllEight (w ∷ ws) = (w ≡ 8) × AllEight ws

pub Fits-set :
    (ws vs : List ℕ) (i v : ℕ) → AllEight ws → v < 2 ^ 64 → Fits ws vs → Fits ws (set vs i v)
Fits-set [] [] i v e h f = f
Fits-set [] (x ∷ vs) i v e h f = absurd f
Fits-set (w ∷ ws) [] i v e h f = absurd f
Fits-set (w ∷ ws) (x ∷ vs) zero v e h f = ((rw e.0 h), f.1)
Fits-set (w ∷ ws) (x ∷ vs) (suc i) v e h f = (f.0, Fits-set ws vs i v e.1 h f.1)
