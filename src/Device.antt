-- ===== src/Device.antt =====
-- The world of disk.c, tyrant_help.c and tyrant.c: the block device behind the file descriptor
-- `drive` with its file position, the global variables of disk.c, and what the system answers.
-- A function of the C code is a command over this state. The device answers `lseek`, `read` and
-- `write` as a Linux block device with no hardware error does.
pub mod Command
pub mod Rules
use tyrant_fs.Base.{ℕ, ◌+◌, ◌-◌, ◌<◌, min, List, ◌&&◌, leb, ltb, if◌then◌else◌, length, take, drop}
use tyrant_fs.Base.Bytes.{Memory, bytes_at, store, overlay, le_bytes, le_value}
use tyrant_fs.Base.Int.{ℤ, pos, negsuc}
use tyrant_fs.Device.Command.{Run, ret, and_then}

-- What the program reads from outside: the clock by calls of `time`, the caller's ids, and the
-- bytes that an uninitialised local happens to hold.
pub record Env : Type 0 where
  pub clock : ℕ → ℕ
  pub euid : ℕ
  pub egid : ℕ
  pub stale : Memory

-- The global variables of disk.c.
pub record Globals : Type 0 where
  pub drive : ℤ
  pub root_node : ℕ
  pub drivesize : ℕ
  pub inode_byte_boundary : ℕ
  pub num_blocks : ℕ
  pub inode_blocks : ℕ
  pub data_blocks : ℕ

pub record Fs : Type 0 where
  pub byte : Memory
  pub size : ℕ
  pub at : ℕ
  pub ticks : ℕ
  pub globals : Globals
  pub env : Env

abbrev pub Cmd : Type 0 → Type 0
Cmd A = Fs → Run Fs A

abbrev pub pure : {A : Type 0} → A → Cmd A
pure = ret

infixl 5 ◌>>=◌ ◌>>◌
abbrev pub ◌>>=◌ : {A B : Type 0} → Cmd A → (A → Cmd B) → Cmd B
m >>= k = λ s. and_then (m s) k

abbrev pub ◌>>◌ : {B : Type 0} → Cmd (Unit {0}) → Cmd B → Cmd B
m >> n = m >>= λ _. n

-- A value of the state, such as a global variable.
abbrev pub gets : {A : Type 0} → (Fs → A) → Cmd A
gets f s = ret (f s) s

-- `lseek(drive, offset, SEEK_SET)`. An offset past the end is refused, and the position stays.
unfoldable pub lseek_set : ℕ → Cmd (Unit {0})
lseek_set offset s = ret tt (record s { at = if leb offset s.size then offset else s.at })

-- `lseek(drive, -n, SEEK_CUR)`
unfoldable pub lseek_back : ℕ → Cmd (Unit {0})
lseek_back n s = ret tt (record s { at = if leb n s.at then s.at - n else s.at })

-- `read(drive, …, n)`: the bytes that were read, fewer than `n` at the end of the device.
unfoldable pub read : ℕ → Cmd (List ℕ)
read n s =
    let k = min n (s.size - s.at) in ret (bytes_at s.byte s.at k) (record s { at = s.at + k })

-- `write(drive, bs, …)`: as many bytes as fit, and ENOSPC if none does.
unfoldable pub write : List ℕ → Cmd ℤ
write bs s =
    let fit = take (s.size - s.at) bs in
    if ltb 0 (length bs) && leb s.size s.at
    then ret (negsuc 0) s
    else ret (pos (length fit)) (record s { byte = store s.byte s.at fit; at = s.at + length fit })

-- `time(NULL)`
unfoldable pub time : Cmd ℕ
time s = ret (s.env.clock s.ticks) (record s { ticks = s.ticks + 1 })

-- `read(drive, &x, 8)` into a `uint64_t` that holds `old`.
unfoldable pub read_u64 : ℕ → Cmd ℕ
read_u64 old = do bs ← read 8; pure (le_value (overlay bs (le_bytes 8 old)))

-- `write(drive, &v, 8)` from a `uint64_t`.
unfoldable pub write_u64 : ℕ → Cmd ℤ
write_u64 v = write (le_bytes 8 v)

-- An uninitialised `uint64_t`.
unfoldable pub stale_u64 : Cmd ℕ
stale_u64 s = ret (le_value (bytes_at s.env.stale 0 8)) s
