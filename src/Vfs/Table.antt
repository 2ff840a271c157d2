-- ===== src/Vfs/Table.antt =====
-- The tables of descriptors as a map: what a process sees behind a descriptor, and what one write to
-- a table does to that.
use cyanos.Base.{
  ℕ, ◌<◌, ◌≡◌, sym, subst, true, ◌&&◌, Option, none, some, arith, ℕ_discrete, ◌==◌, if◌then◌else◌,
  length, get_elem?, set, get_or-set_self, get_or-set_ne, Located, locate-Located, locate-set_self,
  locate-set_other, ap, ◌∙◌, refl, inl, inr, Option-cases, length-set, get_elem?-set_self,
  get_elem?-set_ne, get_elem?-lt_length,
}
use mathlib.Core.Option.{some-injective}
use cyanos.Vfs.{
  at_fd, FdEntry, ProcFdTable, Tables, find_tbl, is_of, open_fd, put_fd, empty_fd, max_fds,
}

-- The entry behind a descriptor of a process, if it is open.
unfoldable pub descriptor : ℕ → ℕ → Tables → Option FdEntry
descriptor pid fd tbls = elim (find_tbl pid tbls) [ none ↦ none | some (i, t) ↦ open_fd fd t ]

abbrev pub opened : FdEntry → Option FdEntry
opened e = if e.in_use then some e else none

-- Each table has `max_fds` entries, and a process has at most one table.
pub record IsValid (tbls : Tables) : Type 0 where
  pub sized : (i : ℕ) (t : ProcFdTable) → get_elem? tbls i ≡ some t → length t.fds ≡ max_fds
  pub unique :
      (i j : ℕ) (s t : ProcFdTable)
      → get_elem? tbls i ≡ some s
      → get_elem? tbls j ≡ some t
      → s.in_use ≡ true
      → t.in_use ≡ true
      → s.pid ≡ t.pid
      → i ≡ j

pub is_of_lem : (pid : ℕ) (t : ProcFdTable) → is_of pid t ≡ true → (t.in_use ≡ true) × (t.pid ≡ pid)
is_of_lem pid t e = ground arith

pub find_tbl-Found :
    (pid : ℕ) (tbls : Tables) (i : ℕ) (t : ProcFdTable)
    → find_tbl pid tbls ≡ some (i, t)
    → (get_elem? tbls i ≡ some t) × (t.in_use ≡ true) × (t.pid ≡ pid)
find_tbl-Found pid tbls i t e =
    let (at, test, before) = subst (Located (is_of pid) tbls) e (locate-Located (is_of pid) tbls) in
    let (used, same) = is_of_lem pid t test in (at, used, same)

pub descriptor_found :
    (pid fd i : ℕ) (t : ProcFdTable) (tbls : Tables)
    → find_tbl pid tbls ≡ some (i, t)
    → descriptor pid fd tbls ≡ open_fd fd t
unfolding descriptor
descriptor_found pid fd i t tbls e = ap (λ o. elim o [ none ↦ none | some (i, t) ↦ open_fd fd t ]) e

pub descriptor-none :
    (pid fd : ℕ) (tbls : Tables) → find_tbl pid tbls ≡ none → descriptor pid fd tbls ≡ none
unfolding descriptor
descriptor-none pid fd tbls e = ap (λ o. elim o [ none ↦ none | some (i, t) ↦ open_fd fd t ]) e

pub descriptor_same :
    (pid fd : ℕ) (a b : Tables)
    → find_tbl pid a ≡ find_tbl pid b
    → descriptor pid fd a ≡ descriptor pid fd b
unfolding descriptor
descriptor_same pid fd a b e = ap (λ o. elim o [ none ↦ none | some (i, t) ↦ open_fd fd t ]) e

open_fd-put_fd :
    (fd fd' : ℕ) (e : FdEntry) (t : ProcFdTable)
    → length t.fds ≡ max_fds
    → fd < max_fds
    → open_fd fd' (put_fd fd e t) ≡ (if fd' == fd then opened e else open_fd fd' t)
open_fd-put_fd fd fd' e t sized h = elim (ℕ_discrete fd' fd) [
  | yes q ↦
      let written = get_or-set_self t.fds fd' e empty_fd (omega (arith, q, h, sized)) in
      subst (λ k. open_fd fd' (put_fd k e t) ≡ (if fd' == k then opened e else open_fd fd' t)) q
        (ground (arith, written, h, q))
  | no q ↦
      let kept = get_or-set_ne t.fds {i = fd} {j = fd'} e empty_fd (λ s. q (sym s)) in
      ground (arith, kept)
]

-- A write of a table of the same process, where its table was.
pub descriptor-set :
    (pid pid' fd' i : ℕ) (t t' : ProcFdTable) (tbls : Tables)
    → find_tbl pid tbls ≡ some (i, t)
    → t'.in_use ≡ true
    → t'.pid ≡ pid
    → descriptor pid' fd' (set tbls i t')
      ≡ (if pid' == pid then open_fd fd' t' else descriptor pid' fd' tbls)
descriptor-set pid pid' fd' i t t' tbls found used' same' = elim (ℕ_discrete pid' pid) [
  | yes p ↦
      let there : find_tbl pid' tbls ≡ some (i, t) = ap (λ k. find_tbl k tbls) p ∙ found in
      let here = locate-set_self (is_of pid') tbls i t t' there (ground arith) in
      descriptor_found pid' fd' i t' (set tbls i t') here ∙ ground arith
  | no p ↦
      let (at, used, same) = find_tbl-Found pid tbls i t found in
      let kept = locate-set_other (is_of pid') tbls i t t' at (ground arith) (ground arith) in
      descriptor_same pid' fd' (set tbls i t') tbls kept ∙ ground arith
]

-- After a write of an entry to the table of a process, that descriptor shows the entry, and every
-- other descriptor of every process shows what it showed before.
pub descriptor-put_fd :
    (pid fd pid' fd' i : ℕ) (t : ProcFdTable) (e : FdEntry) (tbls : Tables)
    → IsValid tbls
    → find_tbl pid tbls ≡ some (i, t)
    → fd < max_fds
    → descriptor pid' fd' (set tbls i (put_fd fd e t))
      ≡ (if (pid' == pid) && (fd' == fd) then opened e else descriptor pid' fd' tbls)
descriptor-put_fd pid fd pid' fd' i t e tbls v found h =
    let (at, used, same) = find_tbl-Found pid tbls i t found in
    let step = descriptor-set pid pid' fd' i t (put_fd fd e t) tbls found used same in
    let entry = open_fd-put_fd fd fd' e t (v.sized i t at) h in
    elim (ℕ_discrete pid' pid) [
      | yes p ↦
          let old = descriptor_found pid' fd' i t tbls (ap (λ k. find_tbl k tbls) p ∙ found) in
          step ∙ ground (arith, entry, old)
      | no p ↦ step ∙ ground arith
    ]

-- The table, the index and the entry that a handler finds behind a descriptor.
pub at_fd_lem :
    (pid fd i : ℕ) (t : ProcFdTable) (e : FdEntry) (tbls : Tables)
    → at_fd pid fd tbls ≡ some (i, t, e)
    → (find_tbl pid tbls ≡ some (i, t)) × (open_fd fd t ≡ some e)
unfolding at_fd
at_fd_lem pid fd i t e tbls h = elim (Option-cases (find_tbl pid tbls)) [
  | inl gone ↦ absurd (ground arith)
  | inr ((j, s), found) ↦ elim (Option-cases (open_fd fd s)) [
    | inl shut ↦ absurd (ground arith)
    | inr (e', open_) ↦ ground arith
  ]
]

pub open_fd_range : (fd : ℕ) (t : ProcFdTable) (e : FdEntry) → open_fd fd t ≡ some e → fd < max_fds
open_fd_range fd t e h = ground arith

-- After a write of an entry in use behind a descriptor that is open, a handler finds that entry.
pub at_fd-put_fd :
    (pid fd i : ℕ) (t : ProcFdTable) (e e' : FdEntry) (tbls : Tables)
    → IsValid tbls
    → at_fd pid fd tbls ≡ some (i, t, e)
    → e'.in_use ≡ true
    → at_fd pid fd (set tbls i (put_fd fd e' t)) ≡ some (i, put_fd fd e' t, e')
unfolding at_fd
at_fd-put_fd pid fd i t e e' tbls v at used' =
    let (found, open_) = at_fd_lem pid fd i t e tbls at in
    let (row, used, same) = find_tbl-Found pid tbls i t found in
    let here = locate-set_self (is_of pid) tbls i t (put_fd fd e' t) found (ground arith) in
    let range = open_fd_range fd t e open_ in
    let entry = open_fd-put_fd fd fd e' t (v.sized i t row) range in
    let shown : open_fd fd (put_fd fd e' t) ≡ some e' = entry ∙ ground (arith, used') in
    rw (here, shown, at_fd) refl

-- Such a write keeps the tables valid.
pub put_fd-IsValid :
    (fd i : ℕ) (t : ProcFdTable) (e : FdEntry) (tbls : Tables)
    → IsValid tbls
    → get_elem? tbls i ≡ some t
    → IsValid (set tbls i (put_fd fd e t))
put_fd-IsValid fd i t e tbls v at = record { sized = sized; unique = unique }
  where
    after : Tables
    after = set tbls i (put_fd fd e t)

    -- A table after the write is like one before it, up to an entry.
    before :
        (k : ℕ) (s : ProcFdTable)
        → get_elem? after k ≡ some s
        → (s' : ProcFdTable) × (get_elem? tbls k ≡ some s')
          × (s'.in_use ≡ s.in_use)
          × (s'.pid ≡ s.pid)
          × (length s'.fds ≡ length s.fds)
    before k s h = elim (ℕ_discrete i k) [
      | yes p ↦
          let self = get_elem?-set_self tbls i (put_fd fd e t) (get_elem?-lt_length tbls i at) in
          let eq : put_fd fd e t ≡ s = some-injective _ _ (sym self ∙ ap (get_elem? after) p ∙ h) in
          (
            t,
            sym (ap (get_elem? tbls) p) ∙ at,
            ap (λ q. q.in_use) eq,
            ap (λ q. q.pid) eq,
            sym (length-set t.fds fd e) ∙ ap (λ q. length q.fds) eq,
          )
      | no p ↦ (s, sym (get_elem?-set_ne tbls (put_fd fd e t) p) ∙ h, refl, refl, refl)
    ]

    sized : (k : ℕ) (s : ProcFdTable) → get_elem? after k ≡ some s → length s.fds ≡ max_fds
    sized k s h = let (s', at', u, q, l) = before k s h in sym l ∙ v.sized k s' at'

    unique :
        (j k : ℕ) (s r : ProcFdTable)
        → get_elem? after j ≡ some s
        → get_elem? after k ≡ some r
        → s.in_use ≡ true
        → r.in_use ≡ true
        → s.pid ≡ r.pid
        → j ≡ k
    unique j k s r hs hr us ur same =
        let (s', sat, su, sp, sl) = before j s hs in
        let (r', rat, ru, rp, rl) = before k r hr in
        v.unique j k s' r' sat rat (su ∙ us) (ru ∙ ur) (sp ∙ same ∙ sym rp)
