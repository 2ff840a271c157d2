-- ===== src/Vfs/Pipe.antt =====
-- `handle_pipe` of servers/vfs/src/lib.rs.
pub mod Stream
use cyanos.Base.{ℕ, Bool, true, false, not, ◌&&◌, none, some, ◌==◌, set, position}
use cyanos.Server.Memory.{store_word}
use cyanos.Server.Ring.{ByteRing}
use cyanos.Server.Wire.{Reply, value, errno}
use cyanos.Vfs.{
  Vfs, FdEntry, ProcFdTable, PipeRing, pipe, get_or_create, alloc_fd, put_fd, empty_fd,
}
use cyanos.Vfs.Transfer.{pipe_at}

abbrev pipe_unused : PipeRing → Bool
pipe_unused r = not r.read_open && (not r.write_open && (r.count == 0))

abbrev open_ends : ℕ → Vfs → Vfs
open_ends ring v = record v {
  pipe_rings =
      set v.pipe_rings ring (record (pipe_at ring v) { read_open = true; write_open = true });
}

abbrev pipe_end : ℕ → Bool → FdEntry
pipe_end ring is_write = record { kind = pipe ring is_write; flags = 0; in_use = true }

-- A refusal after the choice of the ring leaves its ends open.
unfoldable pub handle_pipe : ℕ → ℕ → ℕ → Vfs → Reply × Vfs
unfolding get_or_create
handle_pipe pid rfd_ptr wfd_ptr v = elim (position pipe_unused v.pipe_rings) [
  | none ↦ (errno 23, v)
  | some ring ↦
      let v' = open_ends ring v in
      elim (get_or_create pid v'.tables) [
        | none ↦ (errno 12, v')
        | some (i, t, tbls) ↦ elim (alloc_fd t) [
          | none ↦ (errno 24, record v' { tables = tbls })
          | some rfd ↦
              let t' = put_fd rfd (pipe_end ring false) t in
              elim (alloc_fd t') [
                | none ↦ (errno 24, record v' { tables = set tbls i (put_fd rfd empty_fd t') })
                | some wfd ↦ (
                  value 0,
                  record v' {
                    tables = set tbls i (put_fd wfd (pipe_end ring true) t');
                    memory = store_word 4 wfd_ptr wfd (store_word 4 rfd_ptr rfd v.memory);
                  },
                )
              ]
        ]
      ]
]
