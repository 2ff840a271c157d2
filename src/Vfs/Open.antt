-- ===== src/Vfs/Open.antt =====
-- `handle_open` of servers/vfs/src/lib.rs, with the path lookups beside it.
pub mod Laws
use cyanos.Base.{
  ℕ, ◌+◌, ◌-◌, bit_and, Bool, true, false, not, ◌&&◌, ◌||◌, Option, none, some, List, ltb, ◌==◌,
  if◌then◌else◌, length, set, position, take,
}
use cyanos.Base.Text.{text, same_bytes, starts_with, ends_with}
use cyanos.Server.Wire.{Reply, value, errno}
use cyanos.Vfs.{
  Vfs, VnodeKind, FdEntry, ProcFdTable, TmpFileEntry, ram_file, dev_null, dev_zero, tmp_file,
  dev_urandom, dev_stdio, dev_fb, get_or_create, alloc_fd, put_fd,
}
use cyanos.Vfs.Initrd.{find_in_initrd}
use cyanos.Vfs.Proc.{Facts, gen_proc_system, gen_proc_self}
use cyanos.Vfs.Ramfs.{RamEntry, ramfs, ramfs_dirs, ram_data, is_ram_dir}
use cyanos.Vfs.Tmp.{
  read_cstr_raw, is_tmp_path, is_file_at, is_dir_at, file_unused, with_path, new_file, put_file,
}
use cyanos.Vfs.Transfer.{file_at}

abbrev pub o_wronly : ℕ
o_wronly = 1

abbrev pub o_rdwr : ℕ
o_rdwr = 2

abbrev pub o_creat : ℕ
o_creat = 64

abbrev o_trunc : ℕ
o_trunc = 512

abbrev pub has_bits : ℕ → ℕ → Bool
has_bits flags mask = not (bit_and flags mask == 0)

-- What a path names: a vnode, or an error number.
pub data Named : Type 0 where
  node : VnodeKind → Named
  failed : ℕ → Named

-- `.` is the root, and a slash at the end is dropped.
unfoldable normalize : List ℕ → List ℕ
unfolding text same_bytes
normalize path =
    if same_bytes path (text ".")
    then text "/"
    else if ltb 1 (length path) && ends_with path (text "/")
    then take (length path - 1) path
    else path

unfoldable device_at : List ℕ → Option VnodeKind
unfolding text same_bytes
device_at path =
    if same_bytes path (text "/dev/null")
    then some dev_null
    else if same_bytes path (text "/dev/zero")
    then some dev_zero
    else if same_bytes path (text "/dev/urandom") || same_bytes path (text "/dev/random")
    then some dev_urandom
    else if same_bytes path (text "/dev/stdin")
    then some (dev_stdio 0)
    else if same_bytes path (text "/dev/stdout")
    then some (dev_stdio 1)
    else if same_bytes path (text "/dev/stderr")
    then some (dev_stdio 2)
    else if same_bytes path (text "/dev/fb0")
    then some (dev_fb 0)
    else none

-- A file under /tmp: one that exists, or a new one if the flags ask for it.
unfoldable pub open_tmp : List ℕ → ℕ → Vfs → Named × Vfs
open_tmp path flags v =
    let writable = has_bits flags (o_wronly + o_rdwr) in
    elim (position (is_file_at path) v.tmp_files) [
      | some idx ↦
          let f = file_at idx v in
          let f' = if has_bits flags o_trunc then record f { len = 0 } else f in
          let pos = if has_bits flags o_wronly then f'.len else 0 in
          (node (tmp_file idx pos writable), put_file idx f' v)
      | none ↦
          if has_bits flags o_creat
          then elim (position file_unused v.tmp_files) [
            | none ↦ (failed 28, v)
            | some idx ↦
                (node (tmp_file idx 0 writable), put_file idx (with_path path (new_file false)) v)
          ]
          else (failed 2, v)
    ]

abbrev generated : Vfs → Option (VnodeKind × Vfs) → Named × Vfs
generated v none = (failed 2, v)
generated v (some (k, v')) = (node k, v')

-- The static files, the directories and the archive, in this order.
unfoldable lookup_static : List ℕ → Vfs → Option VnodeKind
unfolding ram_data ramfs is_ram_dir ramfs_dirs is_tmp_path find_in_initrd text
lookup_static path v = elim (ram_data path ramfs) [
  | some d ↦ some (ram_file d 0)
  | none ↦
      if is_ram_dir path ramfs_dirs
      then some (ram_file path 0)
      else if is_tmp_path path
      then some (ram_file (text "/tmp") 0)
      else elim (position (is_dir_at path) v.tmp_files) [
        | some idx ↦ some dev_null
        | none ↦ elim (find_in_initrd path v) [
          | none ↦ none
          | some none ↦ none
          | some (some bs) ↦ some (ram_file bs 0)
        ]
      ]
]

unfoldable is_system_file : List ℕ → Bool
unfolding text same_bytes
is_system_file path =
    same_bytes path (text "/proc/meminfo")
    || same_bytes path (text "/proc/uptime")
    || same_bytes path (text "/proc/loadavg")
    || same_bytes path (text "/proc/stat")
    || same_bytes path (text "/proc/self")

unfoldable vnode_for : Facts → ℕ → List ℕ → ℕ → Vfs → Named × Vfs
unfolding device_at is_tmp_path text same_bytes starts_with open_tmp gen_proc_self gen_proc_system
    is_system_file lookup_static
vnode_for f pid path flags v = elim (device_at path) [
  | some k ↦ (node k, v)
  | none ↦
      if is_tmp_path path && not (same_bytes path (text "/tmp"))
      then open_tmp path flags v
      else if starts_with path (text "/proc/self/") && not (same_bytes path (text "/proc/self/"))
      then generated v (gen_proc_self f pid path v)
      else if is_system_file path
      then generated v (gen_proc_system f path v)
      else elim (lookup_static path v) [ none ↦ (failed 2, v) | some k ↦ (node k, v) ]
]

unfoldable pub place_fd : ℕ → VnodeKind → ℕ → Vfs → Reply × Vfs
unfolding get_or_create
place_fd pid kind flags v = elim (get_or_create pid v.tables) [
  | none ↦ (errno 12, v)
  | some (i, t, tbls) ↦ elim (alloc_fd t) [
    | none ↦ (errno 24, record v { tables = tbls })
    | some fd ↦ (
      value fd,
      record v {
        tables = set tbls i (put_fd fd (record { kind = kind; flags = flags; in_use = true }) t);
      },
    )
  ]
]

abbrev pub placed : ℕ → ℕ → Named × Vfs → Reply × Vfs
placed pid flags (failed e, v) = (errno e, v)
placed pid flags (node k, v) = place_fd pid k flags v

unfoldable pub handle_open : Facts → ℕ → ℕ → ℕ → Vfs → Reply × Vfs
unfolding read_cstr_raw normalize vnode_for place_fd
handle_open f pid path_ptr flags v = elim (read_cstr_raw path_ptr v.memory) [
  | none ↦ (errno 14, v)
  | some path ↦ placed pid flags (vnode_for f pid (normalize path) flags v)
]

-- `get_file_data` and `get_file_data_by_path`: the bytes of a static file.
unfoldable get_file_data : ℕ → Vfs → Option (List ℕ)
unfolding read_cstr_raw ram_data ramfs
get_file_data path_ptr v = elim (read_cstr_raw path_ptr v.memory) [
  | none ↦ none
  | some path ↦ ram_data path ramfs
]
