-- ===== src/Vfs/Seek.antt =====
-- `handle_lseek` of servers/vfs/src/lib.rs. Offsets are `i64`, here their 64-bit words: a sum wraps
-- around, as in a release build, and a word from 2^63 on is negative.
use cyanos.Base.{ℕ, ◌^◌, Option, none, some, leb, ◌==◌, if◌then◌else◌, length, add64}
use cyanos.Server.Wire.{Reply, value, errno}
use cyanos.Vfs.{Vfs, VnodeKind, ram_file, tmp_file, dev_fb, at_fd, put_entry}
use cyanos.Vfs.Transfer.{file_at, fb_size, move_to}

-- `SEEK_SET` is 0, `SEEK_CUR` 1 and `SEEK_END` 2; none is `EINVAL`.
unfoldable pub new_pos : ℕ → ℕ → ℕ → ℕ → Option ℕ
new_pos cur len offset whence =
    let target =
      if whence == 0
      then some offset
      else if whence == 1
      then some (add64 cur offset)
      else if whence == 2
      then some (add64 len offset)
      else none in
    elim target [ none ↦ none | some p ↦ if leb (2 ^ 63) p then none else some p ]

-- The position and the length of a vnode that has them; none is `ESPIPE`.
unfoldable pub extent : VnodeKind → Vfs → Option (ℕ × ℕ)
extent (ram_file d pos) v = some (pos, length d)
extent (tmp_file idx pos writable) v = some (pos, (file_at idx v).len)
extent (dev_fb pos) v = some (pos, fb_size v)
extent k v = none

unfoldable pub handle_lseek : ℕ → ℕ → ℕ → ℕ → Vfs → Reply × Vfs
unfolding new_pos extent
handle_lseek pid fd offset whence v = elim (at_fd pid fd v.tables) [
  | none ↦ (errno 9, v)
  | some (i, t, e) ↦ elim (extent e.kind v) [
    | none ↦ (errno 29, v)
    | some (cur, len) ↦ elim (new_pos cur len offset whence) [
      | none ↦ (errno 22, v)
      | some p ↦ (value p, put_entry i t fd (move_to e p) v)
    ]
  ]
]
