-- ===== src/Vfs/Descriptor/Processes.antt =====
-- What fork, exec and exit do to the descriptors of servers/vfs/src/lib.rs.
use cyanos.Base.{
  ℕ, zero, suc, bit_and, ◌≡◌, refl, sym, ap, subst, ◌∙◌, inl, inr, true, Option, none, some, List,
  [], ◌∷◌, map, arith, ℕ_discrete, ◌==◌, if◌then◌else◌, Option-cases, get_elem?, get_or, set,
  position, locate-set_other, locate-set_new, false, leb, Bool-cases, locate-none,
  get_elem?-set_self, get_elem?-set_ne, get_elem?-lt_length, position-some,
}
use cyanos.Server.Wire.{value}
use cyanos.Vfs.{
  Vfs, FdEntry, ProcFdTable, Tables, find_tbl, is_of, is_unused, open_fd, empty_fd, empty_table,
  max_fds,
}
use mathlib.Core.Option.{some-injective}
use cyanos.Vfs.Table.{
  is_of_lem, descriptor, IsValid, find_tbl-Found, descriptor_found, descriptor-none,
  descriptor_same, descriptor-set,
}
use cyanos.Vfs.Descriptor.{
  handle_fork_dup, handle_exec_cloexec, handle_close_all, without_cloexec, o_cloexec,
}

-- After a fork whose child has no table yet, the child sees the parent's entry behind each
-- descriptor, if a table is unused; every other process sees what it saw before.
pub descriptor-handle_fork_dup :
    (parent child pid fd i j : ℕ) (t : ProcFdTable) (v : Vfs)
    → find_tbl parent v.tables ≡ some (i, t)
    → find_tbl child v.tables ≡ none
    → position is_unused v.tables ≡ some j
    → descriptor pid fd (handle_fork_dup parent child v).1.tables
      ≡ (if pid == child then descriptor parent fd v.tables else descriptor pid fd v.tables)
unfolding handle_fork_dup
descriptor-handle_fork_dup parent child pid fd i j t v found fresh room =
    let new : ProcFdTable = record empty_table { in_use = true; pid = child; fds = t.fds } in
    let (old, at, free) = position-some is_unused v.tables j room in
    let result : handle_fork_dup parent child v
        ≡ (value 0, record v { tables = set v.tables j new }) =
      rw (found, room, handle_fork_dup) refl in
    ap (λ r. descriptor pid fd r.1.tables) result ∙ elim (ℕ_discrete pid child) [
      | yes p ↦
          let here =
            locate-set_new (is_of pid) v.tables j old new (ap (λ k. find_tbl k v.tables) p ∙ fresh)
              at (ground arith) in
          descriptor_found pid fd j new (set v.tables j new) here
          ∙ sym (descriptor_found parent fd i t v.tables found)
          ∙ ground arith
      | no p ↦
          let kept =
            locate-set_other (is_of pid) v.tables j old new at (ground arith) (ground arith) in
          descriptor_same pid fd (set v.tables j new) v.tables kept ∙ ground arith
    ]

-- What an exec keeps of an entry.
unfoldable pub kept_by_exec : Option FdEntry → Option FdEntry
kept_by_exec none = none
kept_by_exec (some e) = if bit_and e.flags o_cloexec == 0 then some e else none

get_or-map_cloexec :
    (es : List FdEntry) (fd : ℕ)
    → get_or (map without_cloexec es) fd empty_fd ≡ without_cloexec (get_or es fd empty_fd)
get_or-map_cloexec [] fd = refl
get_or-map_cloexec (e ∷ es) zero = refl
get_or-map_cloexec (e ∷ es) (suc fd) = get_or-map_cloexec es fd

open_fd-map_cloexec :
    (fd : ℕ) (t : ProcFdTable)
    → open_fd fd (record t { fds = map without_cloexec t.fds }) ≡ kept_by_exec (open_fd fd t)
unfolding kept_by_exec
open_fd-map_cloexec fd t =
    let law = get_or-map_cloexec t.fds fd in
    let e : FdEntry = get_or t.fds fd empty_fd in
    elim (Bool-cases (leb max_fds fd)) [
      | inl out ↦ ground (arith)
      | inr in_ ↦ elim (Bool-cases e.in_use) [
        | inl used ↦ ground (arith, law)
        | inr free ↦ ground (arith, law)
      ]
    ]

-- After an exec, the process sees exactly its descriptors without the close-on-exec flag, unchanged;
-- every other process sees what it saw before.
pub descriptor-handle_exec_cloexec :
    (pid pid' fd : ℕ) (v : Vfs)
    → descriptor pid' fd (handle_exec_cloexec pid v).1.tables ≡ (
        if pid' == pid
        then kept_by_exec (descriptor pid' fd v.tables)
        else descriptor pid' fd v.tables)
unfolding handle_exec_cloexec kept_by_exec
descriptor-handle_exec_cloexec pid pid' fd v = elim (Option-cases (find_tbl pid v.tables)) [
  | inl gone ↦
      let result : handle_exec_cloexec pid v ≡ (value 0, v) = rw (gone, handle_exec_cloexec) refl in
      ap (λ r. descriptor pid' fd r.1.tables) result ∙ elim (ℕ_discrete pid' pid) [
        | yes p ↦
            let shut = descriptor-none pid' fd v.tables (ap (λ k. find_tbl k v.tables) p ∙ gone) in
            shut ∙ sym (ap kept_by_exec shut) ∙ ground arith
        | no p ↦ ground arith
      ]
  | inr ((i, t), found) ↦
      let t' : ProcFdTable = record t { fds = map without_cloexec t.fds } in
      let (at, used, same) = find_tbl-Found pid v.tables i t found in
      let result : handle_exec_cloexec pid v ≡ (value 0, record v { tables = set v.tables i t' }) =
        rw (found, handle_exec_cloexec) refl in
      ap (λ r. descriptor pid' fd r.1.tables) result
      ∙ descriptor-set pid pid' fd i t t' v.tables found used same
      ∙ elim (ℕ_discrete pid' pid) [
        | yes p ↦
            let there =
              descriptor_found pid' fd i t v.tables (ap (λ k. find_tbl k v.tables) p ∙ found) in
            let law = open_fd-map_cloexec fd t ∙ sym (ap kept_by_exec there) in ground (arith, law)
        | no p ↦ ground arith
      ]
]

find_tbl-set_empty :
    (pid i : ℕ) (t : ProcFdTable) (tbls : Tables)
    → IsValid tbls
    → find_tbl pid tbls ≡ some (i, t)
    → find_tbl pid (set tbls i empty_table) ≡ none
unfolding empty_table
find_tbl-set_empty pid i t tbls valid found =
    locate-none (is_of pid) (set tbls i empty_table) none_passes
  where
    none_passes :
        (k : ℕ) (x : ProcFdTable)
        → get_elem? (set tbls i empty_table) k ≡ some x
        → is_of pid x ≡ false
    none_passes k x e =
        let (at, used, same) = find_tbl-Found pid tbls i t found in
        elim (ℕ_discrete i k) [
          | yes p ↦
              let self = get_elem?-set_self tbls i empty_table (get_elem?-lt_length tbls i at) in
              let row = ap (get_elem? (set tbls i empty_table)) p in
              subst (λ y. is_of pid y ≡ false) (some-injective _ _ (sym self ∙ row ∙ e)) refl
          | no p ↦ elim (Bool-cases (is_of pid x)) [
            | inl passes ↦
                let (used', same') = is_of_lem pid x passes in
                let kept = get_elem?-set_ne tbls empty_table p in
                absurd (p (valid.unique i k t x at (sym kept ∙ e) used used' (same ∙ sym same')))
            | inr fails ↦ fails
          ]
        ]

-- After an exit, no descriptor of the process is open; every other process sees what it saw before.
descriptor-handle_close_all :
    (pid pid' fd : ℕ) (v : Vfs)
    → IsValid v.tables
    → descriptor pid' fd (handle_close_all pid v).1.tables
      ≡ (if pid' == pid then none else descriptor pid' fd v.tables)
unfolding handle_close_all
descriptor-handle_close_all pid pid' fd v valid = elim (Option-cases (find_tbl pid v.tables)) [
  | inl gone ↦
      let result : handle_close_all pid v ≡ (value 0, v) = rw (gone, handle_close_all) refl in
      ap (λ r. descriptor pid' fd r.1.tables) result ∙ elim (ℕ_discrete pid' pid) [
        | yes p ↦
            descriptor-none pid' fd v.tables (ap (λ k. find_tbl k v.tables) p ∙ gone) ∙ ground arith
        | no p ↦ ground arith
      ]
  | inr ((i, t), found) ↦
      let (at, used, same) = find_tbl-Found pid v.tables i t found in
      let after : Tables = set v.tables i empty_table in
      let result : handle_close_all pid v ≡ (value 0, record v { tables = after }) =
        rw (found, handle_close_all) refl in
      ap (λ r. descriptor pid' fd r.1.tables) result ∙ elim (ℕ_discrete pid' pid) [
        | yes p ↦
            descriptor-none pid' fd after
              (find_tbl-set_empty pid' i t v.tables valid (ap (λ k. find_tbl k v.tables) p ∙ found))
            ∙ ground arith
        | no p ↦
            descriptor_same pid' fd after v.tables (
              locate-set_other (is_of pid') v.tables i t empty_table at (ground arith)
                (ground arith))
            ∙ ground arith
      ]
]
