-- ===== src/Format/Overrun.antt =====
-- The format of a device whose number of blocks is a multiple of 65.
use tyrant_fs.Base.{
  ℕ, zero, suc, ◌+◌, ◌-◌, ◌*◌, ◌/◌, ◌%◌, ◌^◌, ◌≤◌, ◌<◌, ◌≡◌, ◌≢◌, refl, ap, ap₂, ◌∙◌, inl, inr,
  List, arith, Bool-cases, ==→eq, ◌==◌, eq→==,
}
use tyrant_fs.Base.Bytes.{word, word_congr}
use tyrant_fs.Base.Store.{word-store_self}
use tyrant_fs.Base.Word.{sub64}
use tyrant_fs.Base.Int.{ℤ}
use tyrant_fs.Device.{Fs}
use tyrant_fs.Device.Command.{Returns, Returns-mono}
use tyrant_fs.Format.{lay_out}
use tyrant_fs.Format.Slots.{run}
use tyrant_fs.Format.Lists.{LaidOut}
use tyrant_fs.FreeList.Chain.{Chain, count, members}
use mathlib.Core.Path.{subst⁻¹}
use tyrant_fs.Format.Layout.{headed, Parts, lay_out-Parts, run_in}

-- The list blocks are chained from the superblock's word on, and hold every block that the geometry
-- counts behind the inode table. The one at `4096 * (s.size / 4096)`, and no other, ends behind the
-- end of the device.
pub record Overruns (s : Fs) (t : Fs) : Type 0 where
  pub bs : List ℕ
  pub chain : Chain t.byte (word t.byte 0) bs
  pub listed : members t.byte bs ≡ run (4096 * (s.size / 4096 / 65 + 1)) (64 * (s.size / 4096 / 65))
  pub behind : 0 < count (4096 * (s.size / 4096)) (members t.byte bs)
  pub past : s.size < 4096 * (s.size / 4096) + 4096
  pub others :
      (b : ℕ) → 0 < count b (members t.byte bs) → b ≢ 4096 * (s.size / 4096) → b + 4096 ≤ s.size

run_last : (p n : ℕ) → 0 < count (p + 4096 * n) (run p (suc n))
unfolding run count
run_last p zero = let e : p + 4096 * 0 ≡ p = omega arith in rw (e, eq→== p p refl) (omega arith)
run_last p (suc n) =
    let e : p + 4096 * suc n ≡ p + 4096 + 4096 * n = omega arith in
    let r = run_last (p + 4096) n in
    elim (Bool-cases (p + 4096 * suc n == p)) [
      | inl same ↦ absurd (omega (arith, ==→eq (p + 4096 * suc n) p same))
      | inr other ↦
          let q = subst⁻¹ (λ a. 0 < count a (run (p + 4096) (suc n))) e r in
          rw other (omega (arith, q))
    ]

-- On a device of at least 65 blocks and less than 2 ^ 63 bytes whose number of blocks is a multiple of
-- 65, the format ends as well and lists the same blocks, but the last of them lies behind the end of the
-- device: a block is free that cannot be written.
pub lay_out-Overruns :
    (s : Fs) (fd : ℤ)
    → 65 ≤ s.size / 4096
    → (s.size / 4096) % 65 ≡ 0
    → s.size < 2 ^ 63
    → Returns (λ r t. Overruns s t) (lay_out fd s)
lay_out-Overruns s fd many whole small =
    let n : ℕ = s.size / 4096 / 65 in
    let start : ℕ = (n + 1) * 4096 % 2 ^ 64 in
    let blocks : ℕ = sub64 (n * 64 % 2 ^ 64) 1 in
    Returns-mono (λ r t. Parts s fd start blocks t) (λ r t. Overruns s t) (lay_out fd s)
      (lay_out-Parts s fd many small)
      λ r t (u, c, o, e).
        let lo : LaidOut (headed u start).byte t.byte start (u.globals.data_blocks - 0 + 1)
            (e.0).0 =
          (e.0).1 in
        let d : u.globals.data_blocks ≡ blocks = ap (λ (v : Fs). v.globals.data_blocks) o in
        let first : word t.byte 0 ≡ start =
          word_congr t.byte (headed u start).byte 0 (λ x p q. lo.below x (omega arith))
          ∙ word-store_self u.byte 0 start (omega arith) in
        let at_start : start ≡ 4096 * (n + 1) = omega arith in
        let free : members t.byte (e.0).0 ≡ run (4096 * (n + 1)) (64 * n) =
          lo.blocks ∙ ap₂ run at_start (omega arith) in
        let number : suc (64 * n - 1) ≡ 64 * n = omega arith in
        let end : 4096 * (n + 1) + 4096 * (64 * n - 1) ≡ 4096 * (s.size / 4096) = omega arith in
        record {
          bs = (e.0).0;
          chain = rw first (lo.chain);
          listed = free;
          behind = rw free (rw (number, end) at (run_last (4096 * (n + 1)) (64 * n - 1)));
          past = omega arith;
          others = λ b p ne.
              let q = run_in b (4096 * (n + 1)) (64 * n) (rw free at p) in
              omega (arith, q.0, q.1, q.2, ne);
        }
