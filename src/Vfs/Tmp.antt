-- ===== src/Vfs/Tmp.antt =====
-- The writable files of servers/vfs/src/lib.rs: unlink, mkdir, rename and ftruncate, and the paths in
-- the caller's memory.
use cyanos.Base.{
  ℕ, zero, suc, ◌+◌, ◌-◌, min, Bool, true, false, not, ◌&&◌, ◌||◌, Option, none, some, List, [],
  ◌∷◌, ltb, ◌==◌, if◌then◌else◌, length, set, replicate, position, take, overwrite,
}
use cyanos.Base.Text.{text, same_bytes, starts_with}
use cyanos.Server.Memory.{UserMemory}
use cyanos.Server.Wire.{Reply, value, errno}
use cyanos.Vfs.{
  Vfs, VnodeKind, TmpFileEntry, tmp_file, empty_file, max_tmp_path, max_tmp_size, at_fd,
}
use cyanos.Vfs.Ramfs.{ramfs_dirs, is_ram_dir}
use cyanos.Vfs.Transfer.{file_at}

-- The bytes before the first zero byte, among `n`.
unfoldable cstr : ℕ → ℕ → UserMemory → Option (List ℕ)
cstr zero p m = none
cstr (suc n) p m =
    if m p == 0
    then some []
    else elim (cstr n (p + 1) m) [ none ↦ none | some bs ↦ some (m p ∷ bs) ]

unfoldable pub read_cstr_raw : ℕ → UserMemory → Option (List ℕ)
unfolding cstr
read_cstr_raw ptr m = if ptr == 0 then none else cstr 256 ptr m

unfoldable pub is_tmp_path : List ℕ → Bool
unfolding text same_bytes starts_with
is_tmp_path path = same_bytes path (text "/tmp") || starts_with path (text "/tmp/")

-- `e.path_len == path.len() && &e.path[..path.len()] == path`.
abbrev pub has_path : List ℕ → TmpFileEntry → Bool
has_path path e = (e.path_len == length path) && same_bytes (take (length path) e.path) path

abbrev pub is_file_at : List ℕ → TmpFileEntry → Bool
is_file_at path e = e.in_use && (not e.is_dir && has_path path e)

abbrev pub is_dir_at : List ℕ → TmpFileEntry → Bool
is_dir_at path e = e.in_use && (e.is_dir && has_path path e)

abbrev pub file_unused : TmpFileEntry → Bool
file_unused e = not e.in_use

-- The path is cut at 63 bytes.
abbrev pub with_path : List ℕ → TmpFileEntry → TmpFileEntry
with_path path e =
    let n = min (length path) (max_tmp_path - 1) in
    record e { path = overwrite 0 (take n path) e.path; path_len = n }

abbrev pub put_file : ℕ → TmpFileEntry → Vfs → Vfs
put_file idx f v = record v { tmp_files = set v.tmp_files idx f }

abbrev pub new_file : Bool → TmpFileEntry
new_file is_dir = record empty_file { in_use = true; is_dir = is_dir }

unfoldable is_directory : ℕ → Vfs → Bool
unfolding read_cstr_raw is_ram_dir ramfs_dirs
is_directory path_ptr v = elim (read_cstr_raw path_ptr v.memory) [
  | none ↦ false
  | some path ↦
      is_ram_dir path ramfs_dirs
      || elim (position (is_dir_at path) v.tmp_files) [ none ↦ false | some i ↦ true ]
]

unfoldable pub handle_unlink : ℕ → Vfs → Reply × Vfs
unfolding read_cstr_raw is_tmp_path
handle_unlink path_ptr v = elim (read_cstr_raw path_ptr v.memory) [
  | none ↦ (errno 14, v)
  | some path ↦
      if is_tmp_path path
      then elim (position (is_file_at path) v.tmp_files) [
        | none ↦ (errno 2, v)
        | some idx ↦ (value 0, put_file idx empty_file v)
      ]
      else (errno 30, v)
]

abbrev pub used_at : List ℕ → TmpFileEntry → Bool
used_at path e = e.in_use && has_path path e

unfoldable pub handle_mkdir : ℕ → Vfs → Reply × Vfs
unfolding read_cstr_raw is_tmp_path is_ram_dir ramfs_dirs
handle_mkdir path_ptr v = elim (read_cstr_raw path_ptr v.memory) [
  | none ↦ (errno 14, v)
  | some path ↦
      if not (is_tmp_path path)
      then (errno 30, v)
      else if is_ram_dir path ramfs_dirs
      then (errno 17, v)
      else elim (position (used_at path) v.tmp_files) [
        | some idx ↦ (errno 17, v)
        | none ↦ elim (position file_unused v.tmp_files) [
          | none ↦ (errno 28, v)
          | some idx ↦ (value 0, put_file idx (with_path path (new_file true)) v)
        ]
      ]
]

-- The path that a file gets may be that of another one.
unfoldable pub handle_rename : ℕ → ℕ → Vfs → Reply × Vfs
unfolding read_cstr_raw is_tmp_path
handle_rename old_ptr new_ptr v = elim (read_cstr_raw old_ptr v.memory) [
  | none ↦ (errno 14, v)
  | some old ↦ elim (read_cstr_raw new_ptr v.memory) [
    | none ↦ (errno 14, v)
    | some new ↦
        if is_tmp_path old && is_tmp_path new
        then elim (position (is_file_at old) v.tmp_files) [
          | none ↦ (errno 2, v)
          | some idx ↦ (value 0, put_file idx (with_path new (file_at idx v)) v)
        ]
        else (errno 30, v)
  ]
]

abbrev file_of : VnodeKind → Option ℕ
file_of (tmp_file idx pos writable) = some idx
file_of k = none

-- A file that grows is filled with zero bytes.
abbrev resize : ℕ → TmpFileEntry → TmpFileEntry
resize new_len f = record f {
  data_ =
      if ltb f.len new_len
      then overwrite f.len (replicate (new_len - f.len) 0) f.data_
      else f.data_;
  len = new_len;
}

unfoldable pub handle_ftruncate : ℕ → ℕ → ℕ → Vfs → Reply × Vfs
unfolding replicate
handle_ftruncate pid fd new_len v = elim (at_fd pid fd v.tables) [
  | none ↦ (errno 9, v)
  | some (i, t, e) ↦ elim (file_of e.kind) [
    | none ↦ (errno 22, v)
    | some idx ↦
        if ltb max_tmp_size new_len
        then (errno 28, v)
        else (value 0, put_file idx (resize new_len (file_at idx v)) v)
  ]
]
