-- ===== src/Vfs/Dir.antt =====
-- `handle_getdents64` of servers/vfs/src/lib.rs: the entries of a directory, from the static files and
-- the archive, as `struct linux_dirent64` in the caller's buffer.
use cyanos.Base.{
  ℕ, zero, suc, ◌+◌, ◌-◌, bit_and, Bool, true, false, not, ◌&&◌, ◌||◌, Option, none, some, List, [],
  ◌∷◌, ◌++◌, ltb, leb, ◌==◌, if◌then◌else◌, length, get_or, drop, take,
}
use cyanos.Base.Bits.{and_not}
use cyanos.Base.Text.{text, same_bytes, starts_with, ends_with, slice}
use cyanos.Server.Memory.{store}
use cyanos.Server.Wire.{Reply, value, errno, to_le}
use cyanos.Vfs.{Vfs, VnodeKind, ram_file, at_fd, put_entry}
use cyanos.Vfs.Initrd.{entry_at, archive_of, parse_cpio_hex, cpio_name, align4, strip_slash}
use cyanos.Vfs.Ramfs.{RamEntry, ramfs, ramfs_dirs, ram_data, is_ram_dir}

-- An entry that the directory has; its inode number depends on its place among them.
record Dirent : Type 0 where
  pub ino : ℕ → ℕ
  pub name : List ℕ
  pub d_type : ℕ

abbrev reclen : List ℕ → ℕ
reclen name = and_not (8 + 8 + 2 + 1 + length name + 1 + 7) 7

-- `write_dirent`, when there is room.
abbrev dirent_bytes : ℕ → List ℕ → ℕ → List ℕ
dirent_bytes ino name d_type =
    to_le 8 ino ++ to_le 8 0 ++ to_le 2 (reclen name) ++ (d_type ∷ []) ++ name ++ (0 ∷ [])

-- How far the listing has come: the offset in the buffer and the position in the directory.
pub record Cursor : Type 0 where
  pub off : ℕ
  pub pos : ℕ
  pub vfs : Vfs

unfoldable write_dirent : ℕ → ℕ → ℕ → List ℕ → ℕ → Cursor → Option Cursor
unfolding to_le store
write_dirent buf count ino name d_type c =
    if ltb count (c.off + reclen name)
    then none
    else some (record {
      off = c.off + reclen name;
      pos = c.pos + 1;
      vfs = record c.vfs {
        memory = store (buf + c.off) (dirent_bytes ino name d_type) c.vfs.memory;
      };
    })

-- The loops over the entries: those before the position are passed over. It stops at the first one
-- that does not fit. An entry `none` is a header whose read panics.
unfoldable list_entries : ℕ → ℕ → ℕ → List (Option Dirent) → Cursor → Option Cursor
unfolding write_dirent
list_entries buf count idx [] c = some c
list_entries buf count idx (none ∷ ds) c = none
list_entries buf count idx (some d ∷ ds) c =
    if leb c.pos idx
    then elim (write_dirent buf count (d.ino idx) d.name d.d_type c) [
      | none ↦ some c
      | some c' ↦ list_entries buf count (suc idx) ds c'
    ]
    else list_entries buf count (suc idx) ds c

unfoldable contains : ℕ → List ℕ → Bool
contains b [] = false
contains b (a ∷ bs) = (a == b) || contains b bs

abbrev is_root : List ℕ → Bool
is_root dir = same_bytes dir (text "/")

-- How many bytes of a child's path come before its name.
abbrev stem : List ℕ → ℕ
stem dir = if is_root dir then 1 else length dir + 1

unfoldable is_child : List ℕ → List ℕ → Bool
unfolding contains text same_bytes starts_with
is_child dir path =
    if is_root dir
    then ltb 1 (length path) && ((get_or path 0 0 == 47) && not (contains 47 (drop 1 path)))
    else ltb (length dir + 1) (length path)
      && (starts_with path dir
          && ((get_or path (length dir) 0 == 47) && not (contains 47 (drop (length dir + 1) path))))

unfoldable child_dirs : List ℕ → List (List ℕ) → List (Option Dirent)
unfolding is_child text same_bytes
child_dirs dir [] = []
child_dirs dir (d ∷ ds) =
    if not (same_bytes d dir) && is_child dir d
    then some (record { ino = λ i. i + 100; name = drop (stem dir) d; d_type = 4 })
      ∷ child_dirs dir ds
    else child_dirs dir ds

unfoldable child_files : List ℕ → List RamEntry → List (Option Dirent)
unfolding is_child text same_bytes
child_files dir [] = []
child_files dir (e ∷ es) =
    if is_child dir e.path
    then some (record { ino = λ i. i + 200; name = drop (stem dir) e.path; d_type = 8 })
      ∷ child_files dir es
    else child_files dir es

-- The path is cut at 254 bytes.
unfoldable is_duplicated : List ℕ → Bool
unfolding text starts_with ram_data ramfs is_ram_dir ramfs_dirs
is_duplicated name =
    let path = 47 ∷ take 254 (cpio_name name) in
    elim (ram_data path ramfs) [ some d ↦ true | none ↦ is_ram_dir path ramfs_dirs ]

-- The directory without its slashes at both ends.
abbrev match_dir : List ℕ → List ℕ
match_dir dir =
    let d = strip_slash dir in if ends_with d (text "/") then take (length d - 1) d else d

unfoldable is_archived_child : List ℕ → List ℕ → Bool
unfolding contains text same_bytes starts_with
is_archived_child dir name =
    let d = match_dir dir in
    let r = drop (length d + 1) name in
    if is_root dir
    then not (length name == 0) && (not (contains 47 name) && not (same_bytes name (text ".")))
    else not (length d == 0)
      && (starts_with name d
          && (ltb (length d) (length name)
              && ((get_or name (length d) 0 == 47)
                  && (not (length r == 0) && not (contains 47 r)))))

abbrev archived_entry : List ℕ → List ℕ → ℕ → ℕ → Dirent
archived_entry dir name mode offset = record {
  ino = λ i. 1000 + offset;
  name = if is_root dir then name else drop (length (match_dir dir) + 1) name;
  d_type = if bit_and mode 61440 == 16384 then 4 else 8;
}

-- A name of no bytes in the archive is a panic, `none`; so is the end of the fuel, which counts the
-- headers.
unfoldable child_archived : ℕ → List ℕ → List ℕ → ℕ → List (Option Dirent)
unfolding entry_at parse_cpio_hex is_archived_child is_duplicated text same_bytes starts_with
child_archived zero archive dir offset = none ∷ []
child_archived (suc fuel) archive dir offset =
    let header = slice offset (offset + 110) archive in
    let e = entry_at archive offset in
    let rest = child_archived fuel archive dir (align4 e.file_end) in
    let tail = if leb (align4 e.file_end) offset then [] else rest in
    if ltb (length archive) (offset + 110)
    then []
    else if not (same_bytes (slice 0 6 header) (text "070701"))
    then []
    else if ltb (length archive) e.name_end
    then []
    else if e.name_end == offset + 110
    then none ∷ []
    else if same_bytes e.name (text "TRAILER!!!")
    then []
    else if is_archived_child dir (cpio_name e.name) && not (is_duplicated e.name)
    then some (archived_entry dir (cpio_name e.name) (parse_cpio_hex (slice 14 22 header)) offset)
      ∷ tail
    else tail

unfoldable archived_in : List ℕ → Vfs → List (Option Dirent)
unfolding archive_of child_archived
archived_in dir v = elim (archive_of v) [
  | none ↦ []
  | some archive ↦ child_archived (length archive + 1) archive dir 0
]

unfoldable dir_entries : List ℕ → Vfs → List (Option Dirent)
unfolding archived_in child_dirs child_files ramfs ramfs_dirs
dir_entries dir v = child_dirs dir ramfs_dirs ++ child_files dir ramfs ++ archived_in dir v

abbrev dir_of : VnodeKind → Option (List ℕ × ℕ)
dir_of (ram_file d pos) = some (d, pos)
dir_of k = none

-- `.` and `..`, which are the positions 0 and 1; the Boolean says whether the listing goes on.
unfoldable list_dots : ℕ → ℕ → Cursor → Bool × Cursor
unfolding write_dirent text
list_dots buf count c =
    let first = if c.pos == 0 then write_dirent buf count 1 (text ".") 4 c else some c in
    elim first [
      | none ↦ (false, c)
      | some c' ↦
          let second = if c'.pos == 1 then write_dirent buf count 1 (text "..") 4 c' else some c' in
          elim second [ none ↦ (false, c') | some c'' ↦ (true, c'') ]
    ]

unfoldable pub handle_getdents64 : ℕ → ℕ → ℕ → ℕ → Vfs → Option (Reply × Vfs)
unfolding list_dots list_entries dir_entries
handle_getdents64 pid fd buf count v =
    if ltb count 64 then some (errno 22, v) else elim (at_fd pid fd v.tables) [
      | none ↦ some (errno 9, v)
      | some (i, t, e) ↦ elim (dir_of e.kind) [
        | none ↦ some (errno 20, v)
        | some (dir, start_pos) ↦
            let moved : Cursor → Reply × Vfs =
              λ c. (value c.off, put_entry i t fd (record e { kind = ram_file dir c.pos }) c.vfs) in
            let (more, c) = list_dots buf count (record { off = 0; pos = start_pos; vfs = v }) in
            if more
            then elim (list_entries buf count 2 (dir_entries dir v) c) [
              | none ↦ none
              | some c' ↦ some (moved c')
            ]
            else some (moved c)
      ]
    ]
