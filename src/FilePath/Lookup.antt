-- ===== src/FilePath/Lookup.antt =====
-- `find_path_node`: the walk from the root along the names of a path.
use tyrant_fs.Base.{
  ℕ, zero, suc, ◌+◌, ◌-◌, ◌≤◌, ◌<◌, ◌≡◌, ◌≢◌, refl, ap, ◌∙◌, inl, inr, List, [], ◌∷◌, arith, leb,
  ◌==◌, Bool-cases, ==→eq, ==→ne, ne→==, eq→==, get_or, drop, length, true, false, sym, ltb, ltb→lt,
}
use tyrant_fs.Base.Bytes.{Memory, bytes_at, length-bytes_at, overlay_full}
use tyrant_fs.Device.{Fs}
use tyrant_fs.Device.Command.{ret, Returns, Returns-mono}
use tyrant_fs.Device.Rules.{lseek_set-le, read-le}
use tyrant_fs.Inode.{Node}
use tyrant_fs.Inode.Codec.{length-decode}
use tyrant_fs.Inode.Io.{inode_at, fetch_inode-ok, fetch_new-ok}
use tyrant_fs.Inode.Search.{OnlyAt}
use tyrant_fs.Directory.{check_block, stale_byte, stale_bytes, load_block}
use tyrant_fs.Directory.Entries.{drop-drop}
use tyrant_fs.Files.Read.{Returns-bind_at}
use tyrant_fs.FilePath.{
  Search, stops, goes_on, search_direct, search_node, walk, tokens, find_path_node, search_tables,
}

-- What `check_block` finds in block `i`, `last` being the byte behind the longest name.
abbrev pub hit : Memory → ℕ → Node → List ℕ → ℕ → ℕ
hit f last d name i = check_block last (bytes_at f (get_or d.direct_blocks i 0) 4096) name

-- `a` is what the first block that has the name gives, or 0 if none has it.
pub data Finds (f : Memory) (last : ℕ) (d : Node) (name : List ℕ) (a : ℕ) : Type 0 where
  nowhere : a ≡ 0 → ((i : ℕ) → i < d.blocks → hit f last d name i ≡ 0) → Finds f last d name a
  in_block :
      (i : ℕ)
      → i < d.blocks
      → hit f last d name i ≡ a
      → a ≢ 0
      → ((j : ℕ) → j < i → hit f last d name j ≡ 0)
      → Finds f last d name a

-- The names lead from the inode at `cur` to `goal`, which is 0 if one of them is not found.
pub data Leads (f : Memory) (last : ℕ) : ℕ → List (List ℕ) → ℕ → Type 0 where
  arrives : (cur : ℕ) → Leads f last cur [] cur
  lost :
      (cur : ℕ) (name : List ℕ) (names : List (List ℕ))
      → Finds f last (inode_at f cur) name 0
      → Leads f last cur (name ∷ names) 0
  enters :
      (cur next goal : ℕ) (name : List ℕ) (names : List (List ℕ))
      → next ≢ 0
      → Finds f last (inode_at f cur) name next
      → Leads f last next names goal
      → Leads f last cur (name ∷ names) goal

-- The search of a directory has one result, and so has the walk along names.
Finds-unique :
    (f : Memory) (last : ℕ) (d : Node) (name : List ℕ) (a b : ℕ)
    → Finds f last d name a
    → Finds f last d name b
    → a ≡ b
Finds-unique f last d name a b (nowhere z all) (nowhere w all') = z ∙ sym w
Finds-unique f last d name a b (nowhere z all) (in_block j h e ne before) =
    absurd (ne (sym e ∙ all j h))
Finds-unique f last d name a b (in_block i h e ne before) (nowhere w all) =
    absurd (ne (sym e ∙ all i h))
Finds-unique f last d name a b (in_block i h e ne before) (in_block j h' e' ne' before') =
    elim (Bool-cases (ltb i j)) [
      | inl less ↦ absurd (ne (sym e ∙ before' i (ltb→lt i j less)))
      | inr no_less ↦ elim (Bool-cases (ltb j i)) [
        | inl more ↦ absurd (ne' (sym e' ∙ before j (ltb→lt j i more)))
        | inr no_more ↦
            let same : i ≡ j = ground (arith, no_less, no_more) in
            sym e ∙ ap (hit f last d name) same ∙ e'
      ]
    ]

pub Leads-unique :
    (f : Memory) (last cur : ℕ) (names : List (List ℕ)) (a b : ℕ)
    → Leads f last cur names a
    → Leads f last cur names b
    → a ≡ b
Leads-unique f last cur [] a b (arrives _) (arrives _) = refl
Leads-unique f last cur (name ∷ names) a b (lost _ _ _ p) (lost _ _ _ q) = refl
Leads-unique f last cur (name ∷ names) a b (lost _ _ _ p) (enters _ next _ _ _ ne q way) =
    absurd (ne (Finds-unique f last (inode_at f cur) name next 0 q p))
Leads-unique f last cur (name ∷ names) a b (enters _ next _ _ _ ne p way) (lost _ _ _ q) =
    absurd (ne (Finds-unique f last (inode_at f cur) name next 0 p q))
Leads-unique f last cur (name ∷ names) a b (enters _ x _ _ _ ne p way)
      (enters _ y _ _ _ ne' q way') =
    Leads-unique f last x names a b way
      (rw (Finds-unique f last (inode_at f cur) name x y p q) way')

-- A directory of direct blocks on the device.
pub record IsDir (size : ℕ) (d : Node) : Type 0 where
  pub few : d.blocks ≤ 12
  pub there :
      (i : ℕ)
      → i < d.blocks
      → (get_or d.direct_blocks i 0 ≢ 0) × (get_or d.direct_blocks i 0 + 4096 ≤ size)

-- Each inode that is searched on the way along the names is such a directory.
abbrev pub Searchable : Memory → ℕ → ℕ → ℕ → List (List ℕ) → Type 0
Searchable f size last cur [] = Unit {0}
Searchable f size last cur (name ∷ names) =
    IsDir size (inode_at f cur)
    × ((a : ℕ)
        → a ≢ 0
        → Finds f last (inode_at f cur) name a
        → (a + 256 ≤ size) × Searchable f size last a names)

load_block-ok :
    (s : Fs) (block : ℕ) (old : List ℕ) (p : ℕ)
    → block + 4096 ≤ s.size
    → length old ≤ 4096
    → load_block block old (record s { at = p })
      ≡ ret (bytes_at s.byte block 4096) (record s { at = block + 4096 })
unfolding load_block
load_block-ok s block old p fits short =
    rw
      (
        lseek_set-le (record s { at = p }) block (omega arith),
        read-le (record s { at = block }) 4096 (omega arith),
        overlay_full (bytes_at s.byte block 4096) old
            (omega (arith, short, length-bytes_at s.byte block 4096)),
      )
      refl

get_or-drop : (xs : List ℕ) (i : ℕ) → get_or (drop i xs) 0 0 ≡ get_or xs i 0
get_or-drop [] zero = refl
get_or-drop [] (suc i) = refl
get_or-drop (x ∷ xs) zero = refl
get_or-drop (x ∷ xs) (suc i) = get_or-drop xs i

module _ (s : Fs) (d : Node) (name : List ℕ) (v : IsDir s.size d) where
  abbrev last : ℕ
  last = s.env.stale 248

  -- What the loop over the direct blocks leaves.
  abbrev Ends : Search → Type 0
  Ends stops = Finds s.byte last d name 0
  Ends (goes_on a count loaded) =
      Finds s.byte last d name a × (a ≡ 0 → count ≡ 0) × (length loaded ≤ 4096)

  before_next :
      (i : ℕ)
      → hit s.byte last d name i ≡ 0
      → ((j : ℕ) → j < i → hit s.byte last d name j ≡ 0)
      → (j : ℕ) → j < i + 1
      → hit s.byte last d name j ≡ 0
  before_next i here before j h = elim (Bool-cases (j == i)) [
    | inl e ↦ ap (hit s.byte last d name) (==→eq j i e) ∙ here
    | inr e ↦ before j (ground (arith, e))
  ]

  search_direct-Ends :
      (k i : ℕ) (old : List ℕ) (p : ℕ)
      → i + k ≡ 12
      → i ≤ d.blocks
      → length old ≤ 4096
      → ((j : ℕ) → j < i → hit s.byte last d name j ≡ 0)
      → Returns
          (λ r t. Ends r × OnlyAt s t)
          (search_direct k (drop i d.direct_blocks) name (d.blocks - i) old (record s { at = p }))
  unfolding search_direct stale_byte
  search_direct-Ends zero i old p e l short before =
      let few = v.few in
      ((nowhere refl (λ j h. before j (omega arith)), (λ z. omega arith), short), refl)
  search_direct-Ends (suc k) i old p e l short before = elim (Bool-cases (d.blocks - i == 0)) [
    | inl end ↦
        let z : d.blocks - i ≡ 0 = ==→eq (d.blocks - i) 0 end in
        rw end (nowhere refl (λ j h. before j (omega arith)), refl)
    | inr more ↦
        let h : i < d.blocks = let z = ==→ne (d.blocks - i) 0 more in omega arith in
        let (ne, fits) = v.there i h in
        let less : d.blocks - i - 1 ≡ d.blocks - (i + 1) = omega arith in
        rw
          (
            more,
            get_or-drop d.direct_blocks i,
            ne→== (get_or d.direct_blocks i 0) 0 ne,
            load_block-ok s (get_or d.direct_blocks i 0) old p fits short,
            drop-drop i 1 (i + 1) d.direct_blocks refl,
            less,
          )
          (elim (Bool-cases (hit s.byte last d name i == 0)) [
            | inl none_here ↦ rw none_here (
                search_direct-Ends k (i + 1) (bytes_at s.byte (get_or d.direct_blocks i 0) 4096)
                  (get_or d.direct_blocks i 0 + 4096) (omega arith) (omega arith)
                  (omega (arith, length-bytes_at s.byte (get_or d.direct_blocks i 0) 4096))
                  (before_next i (==→eq (hit s.byte last d name i) 0 none_here) before))
            | inr found ↦
                let a_ne = ==→ne (hit s.byte last d name i) 0 found in
                rw found (
                  (
                    in_block i h refl a_ne before,
                    (λ z. absurd (a_ne z)),
                    omega (arith, length-bytes_at s.byte (get_or d.direct_blocks i 0) 4096),
                  ),
                  refl,
                )
          ])
  ]

  -- What comes behind the loop, if no index block is needed.
  rest :
      (old : List ℕ)
      → length old ≤ 4096
      → (r : Search) (q : ℕ) → Ends r
      → Returns
          (λ (a, loaded) t. (Finds s.byte last d name a × (length loaded ≤ 4096)) × OnlyAt s t)
          (search_tables d name old r (record s { at = q }))
  unfolding search_tables
  rest old short stops q e = ((e, short), refl)
  rest old short (goes_on a count loaded) q e = elim (Bool-cases (a == 0)) [
    | inl z ↦
        let zero_a : a ≡ 0 = ==→eq a 0 z in
        let below : leb 1 a ≡ false = ground arith in
        rw (below, eq→== count 0 (e.1 zero_a)) ((rw zero_a at e.0, e.2), refl)
    | inr ne ↦ let above : leb 1 a ≡ true = ground (arith, ne) in rw above ((e.0, e.2), refl)
  ]

  -- The search for one name.
  search_node-Finds :
      (old : List ℕ) (p : ℕ)
      → length old ≤ 4096
      → Returns
          (λ (a, loaded) t. (Finds s.byte last d name a × (length loaded ≤ 4096)) × OnlyAt s t)
          (search_node d name old (record s { at = p }))
  unfolding search_node
  search_node-Finds old p short =
      let all : d.blocks - 0 ≡ d.blocks = omega arith in
      let whole =
        search_direct-Ends 12 0 old p (omega arith) (omega arith) short
          λ j h. absurd (omega arith) in
      Returns-bind_at Ends
        (λ (a, loaded) t. (Finds s.byte last d name a × (length loaded ≤ 4096)) × OnlyAt s t) s
        (search_direct 12 d.direct_blocks name d.blocks old (record s { at = p })) _
        (rw all at whole) (rest old short)

-- The walk along names.
walk-Leads :
    (s : Fs) (names : List (List ℕ)) (cur : ℕ) (old : List ℕ) (p : ℕ)
    → Searchable s.byte s.size (s.env.stale 248) cur names
    → length old ≤ 4096
    → Returns
        (λ a t. Leads s.byte (s.env.stale 248) cur names a × OnlyAt s t)
        (walk names cur (inode_at s.byte cur) old (record s { at = p }))
unfolding walk inode_at
walk-Leads s [] cur old p v short = (arrives cur, refl)
walk-Leads s (name ∷ names) cur old p v short =
    let d : Node = inode_at s.byte cur in
    Returns-bind_at
      (λ (a, loaded). Finds s.byte (s.env.stale 248) d name a × (length loaded ≤ 4096))
      (λ a t. Leads s.byte (s.env.stale 248) cur (name ∷ names) a × OnlyAt s t) s
      (search_node d name old (record s { at = p })) _ (search_node-Finds s d name v.0 old p short)
      λ (a, loaded) q (e, full). elim (Bool-cases (a == 0)) [
        | inl z ↦
            let zero_a : a ≡ 0 = ==→eq a 0 z in rw z (lost cur name names (rw zero_a at e), refl)
        | inr other ↦
            let ne = ==→ne a 0 other in
            let (inside, rest) = v.1 a ne e in
            rw
              (
                other,
                fetch_inode-ok (record s { at = q }) a ne inside d
                    (length-decode (bytes_at s.byte cur 208)),
              )
              (Returns-mono (λ b t. Leads s.byte (s.env.stale 248) a names b × OnlyAt s t) _
                (walk names a (inode_at s.byte a) loaded (record s { at = a + 208 }))
                (walk-Leads s names a loaded (a + 208) rest full)
                λ b t (l, o). (enters cur a b name names ne e l, o))
      ]

-- Where each inode that is searched on the way along the path's names is a directory of at most 12
-- blocks on the device, and the inodes found lie on the device, `find_path_node` ends. It returns
-- the address that the names lead to from the root, each the first entry of its name, block by block;
-- or 0 if one of them is in no block of its directory. It changes nothing but the file position.
pub find_path_node_lem :
    (s : Fs) (path : List ℕ)
    → s.globals.root_node ≢ 0
    → s.globals.root_node + 256 ≤ s.size
    → Searchable s.byte s.size (s.env.stale 248) s.globals.root_node (tokens path)
    → Returns
        (λ a t. Leads s.byte (s.env.stale 248) s.globals.root_node (tokens path) a × OnlyAt s t)
        (find_path_node path s)
unfolding find_path_node stale_bytes
find_path_node_lem s path ne inside v =
    rw (ne→== s.globals.root_node 0 ne, fetch_new-ok s s.globals.root_node ne inside)
      (walk-Leads s (tokens path) s.globals.root_node (bytes_at s.env.stale 0 4096)
        (s.globals.root_node + 208) v (omega (arith, length-bytes_at s.env.stale 0 4096)))
