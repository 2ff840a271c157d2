-- ===== src/Vfs/Transfer/File.antt =====
-- A writable file of servers/vfs/src/lib.rs gives back what was written to it.
use cyanos.Base.{
  ℕ, ◌+◌, ◌≤◌, ◌<◌, ◌≡◌, ap, true, some, List, length, drop, take, suc, bit_and, refl, sym, subst,
  ◌∙◌, false, arith, ◌==◌, set, length-set, get_or-set_self, length-overwrite, take-drop-overwrite,
  ◌-◌, ◌^◌, min, ==_true, leb, none,
}
use cyanos.Server.Memory.{load, length-load, load-store}
use cyanos.Server.Wire.{value}
use cyanos.Vfs.{
  Vfs, FdEntry, ProcFdTable, TmpFileEntry, tmp_file, at_fd, put_fd, put_entry, max_tmp_size,
  empty_file,
}
use cyanos.Vfs.Seek.{handle_lseek, new_pos, extent}
use cyanos.Vfs.Table.{IsValid, at_fd_lem, find_tbl-Found, at_fd-put_fd, put_fd-IsValid}
use cyanos.Vfs.Transfer.{handle_read, read_vnode, file_at, move_to, put_bytes, at_pos, stdio_target}
use cyanos.Vfs.Transfer.Write.{handle_write, write_vnode, write_file, write_at, o_append}

-- A descriptor of a writable file at a position, with the bytes of the file: `e` is its entry, in the
-- table `t` with index `i`.
pub record AtFile (pid fd i : ℕ) (t : ProcFdTable) (e : FdEntry) (idx pos : ℕ) (v : Vfs)
    : Type 0 where
  pub valid : IsValid v.tables
  pub at : at_fd pid fd v.tables ≡ some (i, t, e)
  pub kind : e.kind ≡ tmp_file idx pos true
  pub used : e.in_use ≡ true
  pub in_range : idx < length v.tmp_files
  pub whole : length (file_at idx v).data_ ≡ max_tmp_size

-- The file holds the bytes `bs` from `pos` on.
record HasBytes (idx pos : ℕ) (bs : List ℕ) (v : Vfs) : Type 0 where
  pub long : pos + length bs ≤ (file_at idx v).len
  pub slice : take (length bs) (drop pos (file_at idx v).data_) ≡ bs

-- The file with the bytes written at a position.
abbrev after_write : ℕ → ℕ → List ℕ → Vfs → Vfs
after_write idx pos bs v = record v {
  tmp_files = set v.tmp_files idx (write_at pos bs (file_at idx v));
}

-- The descriptor is moved to another position.
abbrev moved : ℕ → ℕ → ProcFdTable → FdEntry → ℕ → Vfs → Vfs
moved fd i t e p v = put_entry i t fd (move_to e p) v

module _ {pid fd i : ℕ} {t : ProcFdTable} {e : FdEntry} {idx pos : ℕ} {v : Vfs} where
  AtFile-moved :
      (p : ℕ)
      → AtFile pid fd i t e idx pos v
      → AtFile pid fd i (put_fd fd (move_to e p) t) (move_to e p) idx p (moved fd i t e p v)
  AtFile-moved p a =
      let (found, open_) = at_fd_lem pid fd i t e v.tables a.at in
      let (row, used, same) = find_tbl-Found pid v.tables i t found in
      record {
        valid = put_fd-IsValid fd i t (move_to e p) v.tables a.valid row;
        at = at_fd-put_fd pid fd i t e (move_to e p) v.tables a.valid a.at a.used;
        kind = ap (λ k. at_pos k p) a.kind;
        used = a.used;
        in_range = a.in_range;
        whole = a.whole;
      }

  file_at-after_write :
      (bs : List ℕ)
      → AtFile pid fd i t e idx pos v
      → file_at idx (after_write idx pos bs v) ≡ write_at pos bs (file_at idx v)
  file_at-after_write bs a =
      get_or-set_self v.tmp_files idx (write_at pos bs (file_at idx v)) empty_file a.in_range

  AtFile-after_write :
      (bs : List ℕ)
      → AtFile pid fd i t e idx pos v
      → AtFile pid fd i t e idx pos (after_write idx pos bs v)
  AtFile-after_write bs a = record {
    valid = a.valid;
    at = a.at;
    kind = a.kind;
    used = a.used;
    in_range =
        omega (arith, a.in_range, length-set v.tmp_files idx (write_at pos bs (file_at idx v)));
    whole =
        ap (λ g. length g.data_) (file_at-after_write bs a)
        ∙ length-overwrite pos bs (file_at idx v).data_
        ∙ a.whole;
  }

  HasBytes-after_write :
      (bs : List ℕ)
      → pos + length bs ≤ max_tmp_size
      → AtFile pid fd i t e idx pos v
      → HasBytes idx pos bs (after_write idx pos bs v)
  HasBytes-after_write bs fits a =
      let f : TmpFileEntry = file_at idx v in
      let file = file_at-after_write bs a in
      let len : pos + length bs ≤ (write_at pos bs f).len = ground arith in
      record {
        long = subst (λ n. pos + length bs ≤ n) (sym (ap (λ g. g.len) file)) len;
        slice =
            ap (λ g. take (length bs) (drop pos g.data_)) file
            ∙ take-drop-overwrite pos bs f.data_ (omega (arith, fits, a.whole));
      }

  -- A write that fits appends no bytes elsewhere and moves the descriptor behind them.
  handle_write_file :
      (fuel buf count : ℕ)
      → AtFile pid fd i t e idx pos v
      → bit_and e.flags o_append ≡ 0
      → 0 < count
      → pos + count ≤ max_tmp_size
      → handle_write (suc fuel) pid fd buf count v
        ≡ some (
          value count,
          moved fd i t e (pos + count) (after_write idx pos (load count buf v.memory) v),
        )
  unfolding handle_write write_vnode write_file
  handle_write_file fuel buf count a plain some_ fits =
      let nonzero : (count == 0) ≡ false = ground arith in
      let all : min count (max_tmp_size - pos) ≡ count = omega arith in
      let flag : (bit_and e.flags o_append == 0) ≡ true = ==_true _ _ plain in
      let same : write_vnode i t fd e e.kind buf count v ≡ write_file i t fd e idx pos buf count v =
        ap (λ k. write_vnode i t fd e k buf count v) a.kind in
      let own : stdio_target e.kind ≡ none = ap stdio_target a.kind in
      rw (nonzero, a.at, own, handle_write)
        (ap some (same ∙ rw (flag, all, nonzero, write_file) refl))

  handle_lseek_file :
      (p : ℕ)
      → AtFile pid fd i t e idx pos v
      → p < 2 ^ 63
      → handle_lseek pid fd p 0 v ≡ (value p, moved fd i t e p v)
  unfolding handle_lseek new_pos extent
  handle_lseek_file p a h =
      let room : leb (2 ^ 63) p ≡ false = ground arith in
      let here : extent e.kind v ≡ some (pos, (file_at idx v).len) = ap (λ k. extent k v) a.kind in
      rw (a.at, here, room, handle_lseek) refl

  handle_read_file :
      (fuel buf count : ℕ) (bs : List ℕ)
      → AtFile pid fd i t e idx pos v
      → HasBytes idx pos bs v
      → length bs ≡ count
      → 0 < count
      → count ≤ 4096
      → handle_read (suc fuel) pid fd buf count v
        ≡ some (value count, put_bytes buf bs (moved fd i t e (pos + count) v))
  unfolding handle_read read_vnode
  handle_read_file fuel buf count bs a h long some_ fits =
      let nonzero : (count == 0) ≡ false = ground arith in
      let all : min (min count ((file_at idx v).len - pos)) 4096 ≡ count =
        omega (arith, h.long, long, fits) in
      let bytes : take count (drop pos (file_at idx v).data_) ≡ bs =
        subst (λ n. take n (drop pos (file_at idx v).data_) ≡ bs) long h.slice in
      let own : stdio_target e.kind ≡ none = ap stdio_target a.kind in
      rw (nonzero, a.at, own, handle_read)
        (ap some (
          ap (λ k. read_vnode i t fd e k buf count v) a.kind
          ∙ rw (all, nonzero, read_vnode)
              (ap (λ s. (value count, put_bytes buf s (moved fd i t e (pos + count) v))) bytes)))

-- Writing bytes to a file under /tmp at a position, seeking back to it and reading as many bytes gives
-- the bytes that were written: each call returns, the first and the last reply with the number of
-- bytes and the middle one with the position. It holds for a descriptor that is open for writing
-- without O_APPEND, if the bytes fit in the file.
pub handle_read-handle_write :
    (fuel pid fd i : ℕ) (t : ProcFdTable) (e : FdEntry) (idx pos buf count to : ℕ) (v : Vfs)
    → AtFile pid fd i t e idx pos v
    → bit_and e.flags o_append ≡ 0
    → 0 < count
    → pos + count ≤ max_tmp_size
    → (v1 v2 v3 : Vfs) × (handle_write (suc fuel) pid fd buf count v ≡ some (value count, v1))
      × (handle_lseek pid fd pos 0 v1 ≡ (value pos, v2))
      × (handle_read (suc fuel) pid fd to count v2 ≡ some (value count, v3))
      × (load count to v3.memory ≡ load count buf v.memory)
handle_read-handle_write fuel pid fd i t e idx pos buf count to v a plain some_ fits =
    let bs : List ℕ = load count buf v.memory in
    let long : length bs ≡ count = length-load count buf v.memory in
    let v0 : Vfs = after_write idx pos bs v in
    let t1 : ProcFdTable = put_fd fd (move_to e (pos + count)) t in
    let e1 : FdEntry = move_to e (pos + count) in
    let v1 : Vfs = moved fd i t e (pos + count) v0 in
    let t2 : ProcFdTable = put_fd fd (move_to e1 pos) t1 in
    let e2 : FdEntry = move_to e1 pos in
    let v2 : Vfs = moved fd i t1 e1 pos v1 in
    let v3 : Vfs = put_bytes to bs (moved fd i t2 e2 (pos + count) v2) in
    let a1 = AtFile-moved (pos + count) (AtFile-after_write bs a) in
    let has : HasBytes idx pos bs v0 = HasBytes-after_write bs (omega (arith, fits, long)) a in
    let has2 : HasBytes idx pos bs v2 = record { long = has.long; slice = has.slice } in
    (
      v1,
      v2,
      v3,
      handle_write_file fuel buf count a plain some_ fits,
      handle_lseek_file pos a1 (omega (arith, fits)),
      handle_read_file fuel to count bs (AtFile-moved pos a1) has2 long some_ (omega (arith, fits)),
      subst (λ n. load n to v3.memory ≡ bs) long (load-store to bs v2.memory),
    )
