-- ===== src/FreeList/Client.antt =====
-- Any sequence of calls of `allocate_block` and `free_block` by clients that free only blocks they
-- hold.
use tyrant_fs.Base.{ℕ, ◌+◌, ◌≤◌, ◌<◌, ◌≡◌, refl, ap, ◌∙◌, ◌≢◌, List, [], ◌∷◌, ◌++◌, false, arith}
use tyrant_fs.Base.Int.{ℤ, pos, is_neg}
use tyrant_fs.Device.{Fs}
use tyrant_fs.Device.Command.{ret}
use tyrant_fs.FreeList.{allocate_block, free_block}
use tyrant_fs.FreeList.Chain.{count, count-append, members, IsBlock}
use tyrant_fs.FreeList.Refine.{
  IsFormatted, Allocated, Freed, allocate_block_refines, free_block_refines, IsFormatted-Allocated,
  IsFormatted-Freed,
}

-- The device, and the blocks that were handed out and not yet given back.
pub record World : Type 0 where
  pub device : Fs
  pub held : List ℕ

abbrev pub world : Fs → List ℕ → World
world s xs = record { device = s; held = xs }

pub data Step : World → World → Type 0 where
  allocates :
      {s t : Fs} {held : List ℕ} {a : ℕ}
      → allocate_block s ≡ ret a t
      → a ≢ 0
      → Step (world s held) (world t (a ∷ held))
  fails :
      {s t : Fs} {held : List ℕ} {a : ℕ}
      → allocate_block s ≡ ret a t
      → a ≡ 0
      → Step (world s held) (world t held)
  frees :
      {s t : Fs} {held : List ℕ} (before after : List ℕ) (fd : ℤ) (b : ℕ) {r : ℤ}
      → held ≡ before ++ b ∷ after
      → is_neg fd ≡ false
      → free_block fd b s ≡ ret r t
      → Step (world s held) (world t (before ++ after))

pub data Reach (u : World) : World → Type 0 where
  here : Reach u u
  next : {v w : World} → Reach u v → Step v w → Reach u w

-- The free blocks and the held blocks together are the blocks `all`, each once.
pub record Split (size : ℕ) (all : ℕ → ℕ) (w : World) : Type 0 where
  pub bs : List ℕ
  pub formatted : IsFormatted w.device bs
  pub size_kept : w.device.size ≡ size
  pub parts : (x : ℕ) → count x (members w.device.byte bs) + count x w.held ≡ all x

-- `all` holds blocks of a device of this size, each at most once.
pub record IsPool (size : ℕ) (all : ℕ → ℕ) : Type 0 where
  pub once : (x : ℕ) → all x ≤ 1
  pub valid : (x : ℕ) → 0 < all x → IsBlock size x

module _ {size : ℕ} {all : ℕ → ℕ} (pool : IsPool size all) where
  Step-Split : {v w : World} → Step v w → Split size all v → Split size all w
  unfolding count
  Step-Split (allocates {s} {t} {held} {a} e ne) h =
      let d : Allocated s h.bs a t = (rw e at (allocate_block_refines s h.bs h.formatted)) in
      record {
        bs = d.0;
        formatted = IsFormatted-Allocated h.formatted d;
        size_kept = ap (λ (u : Fs). u.size) (d.2) ∙ h.size_kept;
        parts = λ x. ground (arith, (d.1).rest x, h.parts x);
      }
  Step-Split (fails {s} {t} {held} {a} e z) h =
      let d : Allocated s h.bs a t = (rw e at (allocate_block_refines s h.bs h.formatted)) in
      record {
        bs = d.0;
        formatted = IsFormatted-Allocated h.formatted d;
        size_kept = ap (λ (u : Fs). u.size) (d.2) ∙ h.size_kept;
        parts = λ x. ground (arith, (d.1).rest x, h.parts x);
      }
  Step-Split (frees {s} {t} before after fd b {r} at open_fd e) h =
      let total : (x : ℕ) → count x (members s.byte h.bs) + count x (before ++ b ∷ after) ≡ all x =
        (rw at at (h.parts)) in
      let ok : IsBlock size b =
        pool.valid b (ground (arith, total b, count-append b before (b ∷ after))) in
      let ok' : IsBlock s.size b = (rw (← h.size_kept) at ok) in
      let fresh : count b (members s.byte h.bs) ≡ 0 =
        ground (arith, total b, pool.once b, count-append b before (b ∷ after)) in
      let d : (r ≡ pos 0) × Freed s h.bs b t =
        (rw e at (free_block_refines s h.bs fd b h.formatted open_fd ok' fresh)) in
      record {
        bs = (d.1).0;
        formatted = IsFormatted-Freed h.formatted (d.1);
        size_kept = ap (λ (u : Fs). u.size) ((d.1).2) ∙ h.size_kept;
        parts = λ x. ground (
          arith,
          ((d.1).1).rest x,
          total x,
          count-append x before (b ∷ after),
          count-append x before after,
          ok.behind,
        );
      }

  Reach-Split : {v w : World} → Reach v w → Split size all v → Split size all w
  Reach-Split here h = h
  Reach-Split (next r st) h = Step-Split st (Reach-Split r h)

-- Started on a well-formed free list with nothing handed out, no sequence of calls in which only held
-- blocks are freed hands out a block twice without a free in between, or a block that is still free:
-- a block that was free at the start is always either free or held, exactly once, and no other block
-- ever is.
pub Reach-conserves :
    (s : Fs) (bs : List ℕ) {w : World}
    → IsFormatted s bs
    → Reach (world s []) w
    → (bs' : List ℕ) × IsFormatted w.device bs'
      × ((x : ℕ)
          → count x (members w.device.byte bs') + count x w.held ≡ count x (members s.byte bs))
unfolding count
Reach-conserves s bs v r =
    let pool : IsPool s.size (λ x. count x (members s.byte bs)) = record {
      once = v.list.once;
      valid = v.list.valid;
    } in
    let start : Split s.size (λ x. count x (members s.byte bs)) (world s []) = record {
      bs = bs;
      formatted = v;
      size_kept = refl;
      parts = λ x. omega arith;
    } in
    let h = Reach-Split pool r start in (h.bs, h.formatted, h.parts)
