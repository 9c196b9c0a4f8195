-- ===== src/Inode/Codec.antt =====
-- The layout of `struct inode`: a node is read back from its bytes.
use tyrant_fs.Base.{
  ℕ, suc, ◌+◌, ◌^◌, ◌<◌, ◌≡◌, refl, sym, ap, ◌∙◌, List, [], ◌∷◌, ◌++◌, append_assoc, append-nil,
  arith, length, drop, length-append, take-append, drop-append,
}
use tyrant_fs.Base.Bytes.{le_bytes, length-le_bytes, le_value-le_bytes}
use tyrant_fs.Inode.{
  Node, head_widths, direct_widths, tail_widths, pack, unpack, head_values, tail_values, encode,
  decode, of_values,
}

-- The values fit into members of these widths, one for each.
abbrev pub Fits : List ℕ → List ℕ → Type 0
Fits [] [] = Unit {0}
Fits (w ∷ ws) (v ∷ vs) = (v < 256 ^ w) × Fits ws vs
Fits _ _ = ⊥

-- Every member of the node is within its type.
pub record IsNode (n : Node) : Type 0 where
  pub head : Fits head_widths (head_values n)
  pub direct : Fits direct_widths n.direct_blocks
  pub last : Fits tail_widths (tail_values n)

abbrev sum : List ℕ → ℕ
sum [] = 0
sum (w ∷ ws) = w + sum ws

length-pack : (ws vs : List ℕ) → length vs ≡ length ws → length (pack ws vs) ≡ sum ws
unfolding pack
length-pack [] vs h = refl
length-pack (w ∷ ws) [] h = absurd (omega arith)
length-pack (w ∷ ws) (v ∷ vs) h = omega (
  arith,
  length-append (le_bytes w v) (pack ws vs),
  length-le_bytes w v,
  length-pack ws vs (omega arith),
)

length-Fits : (ws vs : List ℕ) → Fits ws vs → length vs ≡ length ws
length-Fits [] [] h = refl
length-Fits [] (v ∷ vs) h = absurd h
length-Fits (w ∷ ws) [] h = absurd h
length-Fits (w ∷ ws) (v ∷ vs) h = ap suc (length-Fits ws vs h.1)

length-unpack : (ws bs : List ℕ) → length (unpack ws bs) ≡ length ws
unfolding unpack
length-unpack [] bs = refl
length-unpack (w ∷ ws) bs = ap suc (length-unpack ws (drop w bs))

unpack-pack : (ws vs rest : List ℕ) → Fits ws vs → unpack ws (pack ws vs ++ rest) ≡ vs
unfolding pack unpack
unpack-pack [] [] rest h = refl
unpack-pack [] (v ∷ vs) rest h = absurd h
unpack-pack (w ∷ ws) [] rest h = absurd h
unpack-pack (w ∷ ws) (v ∷ vs) rest h =
    let n = length-le_bytes w v in
    rw
      (
        append_assoc (le_bytes w v) (pack ws vs) rest,
        take-append w (le_bytes w v) (pack ws vs ++ rest) n,
        drop-append w (le_bytes w v) (pack ws vs ++ rest) n,
        le_value-le_bytes w v h.0,
      )
      (ap (λ t. v ∷ t) (unpack-pack ws vs rest h.1))

pub length-direct_blocks : (n : Node) → IsNode n → length n.direct_blocks ≡ 12
length-direct_blocks n h = length-Fits direct_widths n.direct_blocks h.direct

pub length-decode : (bs : List ℕ) → length (decode bs).direct_blocks ≡ 12
unfolding decode
length-decode bs = length-unpack direct_widths (drop 80 bs)

-- The bytes of a node with 12 direct blocks.
pub length-encode : (n : Node) → length n.direct_blocks ≡ 12 → length (encode n) ≡ 208
unfolding encode head_values tail_values
length-encode n h =
    let a = length-pack head_widths (head_values n) refl in
    let b = length-pack direct_widths n.direct_blocks h in
    let c = length-pack tail_widths (tail_values n) refl in
    omega (
      arith,
      a,
      b,
      c,
      length-append (pack head_widths (head_values n))
          (pack direct_widths n.direct_blocks ++ pack tail_widths (tail_values n)),
      length-append (pack direct_widths n.direct_blocks) (pack tail_widths (tail_values n)),
    )

of_values_lem : (n : Node) → of_values (head_values n) n.direct_blocks (tail_values n) ≡ n
unfolding of_values head_values tail_values
of_values_lem n = refl

-- The bytes of a node whose members are within their types decode to that node.
pub decode-encode : (n : Node) → IsNode n → decode (encode n) ≡ n
unfolding decode encode
decode-encode n h =
    let hd = pack head_widths (head_values n) in
    let d = pack direct_widths n.direct_blocks in
    let t = pack tail_widths (tail_values n) in
    let hd_len : length hd ≡ 80 =
      length-pack head_widths (head_values n) (length-Fits head_widths (head_values n) h.head) in
    let d_len : length d ≡ 96 =
      length-pack direct_widths n.direct_blocks
        (length-Fits direct_widths n.direct_blocks h.direct) in
    let front : length (hd ++ d) ≡ 176 = omega (arith, length-append hd d) in
    let first : unpack head_widths (hd ++ (d ++ t)) ≡ head_values n =
      unpack-pack head_widths (head_values n) (d ++ t) h.head in
    let second : unpack direct_widths (drop 80 (hd ++ (d ++ t))) ≡ n.direct_blocks =
      rw (drop-append 80 hd (d ++ t) hd_len)
        (unpack-pack direct_widths n.direct_blocks t h.direct) in
    let whole : t ++ [] ≡ t = append-nil t in
    let third : unpack tail_widths (drop 176 (hd ++ (d ++ t))) ≡ tail_values n =
      ap (λ x. unpack tail_widths (drop 176 x)) (sym (append_assoc hd d t))
      ∙ rw (drop-append 176 (hd ++ d) t front) (
          ap (unpack tail_widths) (sym whole)
          ∙ unpack-pack tail_widths (tail_values n) [] h.last) in
    rw (first, second, third) (of_values_lem n)
