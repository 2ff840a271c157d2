-- ===== src/Vfs/Proc.antt =====
-- The files under /proc that servers/vfs/src/lib.rs writes when they are opened: each takes a slot of
-- the writable files under a path of its own.
use cyanos.Base.{
  ℕ, zero, suc, ◌+◌, ◌-◌, ◌*◌, ◌/◌, ◌%◌, ◌^◌, false, ◌||◌, Option, none, some, List, [], ◌∷◌, ◌++◌,
  ◌==◌, if◌then◌else◌, length, position, take, overwrite,
}
use Prim.Native.String.{String}
use cyanos.Base.Text.{text, same_bytes, ends_with}
use cyanos.Vfs.{Vfs, VnodeKind, tmp_file}
use cyanos.Vfs.Tmp.{file_unused, with_path, new_file, put_file}

-- What the files say of the system: the scheduler's numbers of the current task, and the pages of the
-- page allocator.
pub record Facts : Type 0 where
  pub current_pid : ℕ
  pub ppid : ℕ
  pub pgid : ℕ
  pub total_pages : ℕ
  pub free_pages : ℕ

abbrev tmp_buf_size : ℕ
tmp_buf_size = 512

-- The decimal digits of a number below 10 ^ `n`, the last one first.
unfoldable digits_of : ℕ → ℕ → List ℕ
digits_of zero v = []
digits_of (suc n) v = if v == 0 then [] else (48 + v % 10) ∷ digits_of n (v / 10)

unfoldable backwards : List ℕ → List ℕ → List ℕ
backwards [] acc = acc
backwards (b ∷ bs) acc = backwards bs (b ∷ acc)

-- A `u32` has at most ten digits.
unfoldable pub decimal : ℕ → List ℕ
unfolding digits_of backwards
decimal v = if v == 0 then 48 ∷ [] else backwards (digits_of 10 v) []

-- A writer appends to the bytes written so far, and drops what the buffer has no room for.
unfoldable write_lit : List ℕ → List ℕ → List ℕ
write_lit bs out = out ++ take (tmp_buf_size - length out) bs

abbrev lit : String → List ℕ → List ℕ
lit s out = write_lit (text s) out

abbrev write_u32 : ℕ → List ℕ → List ℕ
write_u32 v out = write_lit (decimal (v % 2 ^ 32)) out

-- The first writer first.
abbrev pub written : List (List ℕ → List ℕ) → List ℕ
written ws = go ws []
  where
    go : List (List ℕ → List ℕ) → List ℕ → List ℕ
    go [] out = out
    go (w ∷ ws) out = go ws (w out)

unfoldable gen_proc_system_content : Facts → ℕ → List ℕ → Option (List ℕ)
unfolding text same_bytes decimal write_lit
gen_proc_system_content f ticks path =
    let uptime_sec = ticks / 100 in
    let total = f.total_pages * 4 in
    let free = f.free_pages * 4 in
    if same_bytes path (text "/proc/uptime")
    then some (
        written (
          write_u32 uptime_sec
          ∷ lit "."
          ∷ write_u32 (ticks % 100 / 10)
          ∷ lit " "
          ∷ write_u32 uptime_sec
          ∷ lit ".0\n"
          ∷ []))
    else if same_bytes path (text "/proc/loadavg")
    then some (written (lit "0.00 0.00 0.00 1/1 " ∷ write_u32 f.current_pid ∷ lit "\n" ∷ []))
    else if same_bytes path (text "/proc/meminfo")
    then some (
        written (
          lit "MemTotal:       "
          ∷ write_u32 total
          ∷ lit " kB\nMemFree:        "
          ∷ write_u32 free
          ∷ lit " kB\nMemAvailable:   "
          ∷ write_u32 free
          ∷ lit " kB\nBuffers:        0 kB\nCached:         "
          ∷ write_u32 (total - free)
          ∷ lit " kB\nSwapTotal:      0 kB\nSwapFree:       0 kB\n"
          ∷ []))
    else if same_bytes path (text "/proc/stat")
    then some (
        written (
          lit "cpu  0 0 0 "
          ∷ write_u32 (uptime_sec * 100)
          ∷ lit " 0 0 0 0 0 0\ncpu0 0 0 0 "
          ∷ write_u32 (uptime_sec * 100)
          ∷ lit " 0 0 0 0 0 0\nbtime "
          ∷ lit "0\nprocesses 1\nprocs_running 1\n"
          ∷ []))
    else if same_bytes path (text "/proc/self")
    then some (written (write_u32 f.current_pid ∷ []))
    else none

unfoldable gen_proc_self_content : Facts → ℕ → ℕ → List ℕ → Option (List ℕ)
unfolding text same_bytes decimal write_lit
gen_proc_self_content f ticks pid path =
    if same_bytes path (text "/proc/self/status") || ends_with path (text "/status")
    then some (
        written (
          lit "Name:\tcyanos\nState:\tR (running)\nPid:\t"
          ∷ write_u32 pid
          ∷ lit "\nPPid:\t"
          ∷ write_u32 f.ppid
          ∷ lit "\nPGid:\t"
          ∷ write_u32 f.pgid
          ∷ lit "\nUid:\t0\t0\t0\t0\nGid:\t0\t0\t0\t0\n"
          ∷ lit "VmRSS:\t4096 kB\nVmSize:\t8192 kB\nThreads:\t1\n"
          ∷ []))
    else if same_bytes path (text "/proc/self/stat") || ends_with path (text "/stat")
    then some (
        written (
          write_u32 pid
          ∷ lit " (cyanos) R "
          ∷ write_u32 f.ppid
          ∷ lit " "
          ∷ write_u32 f.pgid
          ∷ lit " 0 0 0 0 0 0 0 0 0 0 0 0 0 0 20 0 1 0 "
          ∷ write_u32 (ticks / 100)
          ∷ lit " 8388608 2048 18446744073709551615 0 0 0 0 0 0 0 0 0 0 0 0 0\n"
          ∷ []))
    else if same_bytes path (text "/proc/self/cmdline") || ends_with path (text "/cmdline")
    then some (text "cyanos" ++ (0 ∷ []))
    else if same_bytes path (text "/proc/self/maps") || ends_with path (text "/maps")
    then some []
    else if same_bytes path (text "/proc/self/fd")
    then some []
    else none

-- The slot with the content, and a vnode for it.
abbrev place_file : List ℕ → List ℕ → ℕ → Vfs → VnodeKind × Vfs
place_file name content idx v =
    let f = with_path (name ++ decimal idx) (new_file false) in
    (
      tmp_file idx 0 false,
      put_file idx (record f { data_ = overwrite 0 content f.data_; len = length content }) v,
    )

unfoldable gen_file : List ℕ → Option (List ℕ) → Vfs → Option (VnodeKind × Vfs)
unfolding decimal
gen_file name content v = elim content [
  | none ↦ none
  | some bs ↦ elim (position file_unused v.tmp_files) [
    | none ↦ none
    | some idx ↦ some (place_file name bs idx v)
  ]
]

unfoldable pub gen_proc_system : Facts → List ℕ → Vfs → Option (VnodeKind × Vfs)
unfolding text gen_file gen_proc_system_content
gen_proc_system f path v = gen_file (text "/tmp/.psys_") (gen_proc_system_content f v.now path) v

unfoldable pub gen_proc_self : Facts → ℕ → List ℕ → Vfs → Option (VnodeKind × Vfs)
unfolding text gen_file gen_proc_self_content
gen_proc_self f pid path v =
    gen_file (text "/tmp/.proc_") (gen_proc_self_content f v.now pid path) v
