-- ===== src/Vfs/Initrd.antt =====
-- `find_in_initrd` of servers/vfs/src/lib.rs: a file of the CPIO archive (format "newc") that the boot
-- loader left in memory.
pub mod Bounds
use cyanos.Base.{
  ℕ, zero, suc, ◌+◌, ◌-◌, ◌*◌, ◌%◌, ◌^◌, not, ◌&&◌, ◌||◌, Option, none, some, List, [], ◌∷◌, ltb,
  leb, ◌==◌, if◌then◌else◌, length, drop, add64,
}
use cyanos.Base.Bits.{and_not}
use cyanos.Base.Text.{text, same_bytes, starts_with, slice}
use cyanos.Server.Memory.{load}
use cyanos.Vfs.{Vfs}

abbrev hex_digit : ℕ → Option ℕ
hex_digit b =
    if leb 48 b && leb b 57
    then some (b - 48)
    else if leb 97 b && leb b 102
    then some (b - 97 + 10)
    else if leb 65 b && leb b 70
    then some (b - 65 + 10)
    else none

-- The value so far; a character that is no digit makes the result 0.
unfoldable hex_from : ℕ → List ℕ → ℕ
hex_from val [] = val
hex_from val (b ∷ bs) = elim (hex_digit b) [
  | none ↦ 0
  | some d ↦ hex_from (val * 16 % 2 ^ 64 + d) bs
]

unfoldable pub parse_cpio_hex : List ℕ → ℕ
unfolding hex_from
parse_cpio_hex s = hex_from 0 s

-- `(n + 3) & !3`.
abbrev pub align4 : ℕ → ℕ
align4 n = and_not (n + 3) 3

abbrev pub strip_slash : List ℕ → List ℕ
strip_slash path = if starts_with path (text "/") then drop 1 path else path

abbrev pub cpio_name : List ℕ → List ℕ
cpio_name name = strip_slash (if starts_with name (text "./") then drop 2 name else name)

-- The fields of the header at an offset: the ends of the name and of the file, which lie in the
-- archive or after it.
pub record CpioEntry : Type 0 where
  pub name : List ℕ
  pub name_end : ℕ
  pub file_off : ℕ
  pub file_end : ℕ

unfoldable pub entry_at : List ℕ → ℕ → CpioEntry
unfolding parse_cpio_hex
entry_at archive offset =
    let header = slice offset (offset + 110) archive in
    let namesize = parse_cpio_hex (slice 94 102 header) in
    let filesize = parse_cpio_hex (slice 54 62 header) in
    let name_off = offset + 110 in
    record {
      name = slice name_off (name_off + (namesize - 1)) archive;
      name_end = name_off + namesize;
      file_off = align4 (name_off + namesize);
      file_end = align4 (name_off + namesize) + filesize;
    }

-- A turn of the loop: the search ends, or goes on at another offset.
pub data Step : Type 0 where
  stop : Option (List ℕ) → Step
  next : ℕ → Step

unfoldable pub step : List ℕ → List ℕ → ℕ → Step
unfolding entry_at text same_bytes starts_with
step archive query offset =
    let header = slice offset (offset + 110) archive in
    let e = entry_at archive offset in
    if ltb (length archive) (offset + 110)
    then stop none
    else if not (same_bytes (slice 0 6 header) (text "070701"))
    then stop none
    else if ltb (length archive) e.name_end
    then stop none
    else if same_bytes e.name (text "TRAILER!!!")
    then stop none
    else if same_bytes (cpio_name e.name) query && leb e.file_end (length archive)
    then stop (some (slice e.file_off e.file_end archive))
    else if leb (align4 e.file_end) offset
    then stop none
    else next (align4 e.file_end)

-- The outer `none` says that the fuel ran out.
unfoldable pub scan : ℕ → List ℕ → List ℕ → ℕ → Option (Option (List ℕ))
scan zero archive query offset = none
scan (suc fuel) archive query offset = elim (step archive query offset) [
  | stop r ↦ some r
  | next offset' ↦ scan fuel archive query offset'
]

-- The archive of a file server: its bytes, if there are some and they start with the mark.
unfoldable pub archive_of : Vfs → Option (List ℕ)
unfolding text same_bytes load
archive_of v =
    if v.initrd_base == 0 || v.initrd_size == 0
    then none
    else let bs = load v.initrd_size (add64 v.initrd_base v.hhdm_offset) v.memory in
      if ltb (length bs) 6 || not (same_bytes (slice 0 6 bs) (text "070701")) then none else some bs

-- Each turn moves on by at least one byte, so that a turn for each byte is enough.
unfoldable pub find_in_initrd : List ℕ → Vfs → Option (Option (List ℕ))
unfolding scan archive_of text starts_with
find_in_initrd path v = elim (archive_of v) [
  | none ↦ some none
  | some archive ↦ scan (length archive + 1) archive (strip_slash path) 0
]
