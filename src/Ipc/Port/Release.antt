-- ===== src/Ipc/Port/Release.antt =====
-- `release_by_owner` of ipc/src/port.rs: what happens to the ports of a task that exits.
use cyanos.Base.{
  ℕ, zero, suc, ◌≡◌, refl, List, [], ◌∷◌, if◌then◌else◌, ◌+◌, ap, ◌∙◌, inl, inr, false, ◌&&◌, ltb,
  Bool-cases, length,
}
use cyanos.Ipc.Port.{
  State, PortEntry, bucket, is_owned_by, empty_entry, release_buckets, release_by_owner,
}
use cyanos.Ipc.Port.Table.{IsValid, empty_entry-HasMessages}

-- The loop empties the buckets of the owner and keeps the others.
bucket-release_buckets :
    (pid : ℕ) (bs : List PortEntry) (n k : ℕ)
    → bucket (release_buckets pid n bs).0 k
      ≡ (if is_owned_by pid (bucket bs k) then empty_entry else bucket bs k)
unfolding release_buckets bucket
bucket-release_buckets pid [] n k = elim (Bool-cases (is_owned_by pid empty_entry)) [
  | inl e ↦ rw e
  | inr e ↦ rw e
]
bucket-release_buckets pid (b ∷ bs) n zero = refl
bucket-release_buckets pid (b ∷ bs) n (suc k) =
    bucket-release_buckets pid bs (if is_owned_by pid b && ltb n 64 then n + 1 else n) k

length-release_buckets :
    (pid : ℕ) (bs : List PortEntry) (n : ℕ) → length (release_buckets pid n bs).0 ≡ length bs
unfolding release_buckets
length-release_buckets pid [] n = refl
length-release_buckets pid (b ∷ bs) n =
    ap suc (length-release_buckets pid bs (if is_owned_by pid b && ltb n 64 then n + 1 else n))

not_owned-empty_entry : (pid : ℕ) → is_owned_by pid empty_entry ≡ false
unfolding empty_entry
not_owned-empty_entry pid = refl

-- When a task exits, every bucket of a port that it owned is emptied, every other bucket is kept,
-- and the task owns no port any more.
release_by_owner_lem :
    (pid k : ℕ) (s : State)
    → (bucket (release_by_owner pid s).table.buckets k ≡ (
        if is_owned_by pid (bucket s.table.buckets k)
        then empty_entry
        else bucket s.table.buckets k))
      × (is_owned_by pid (bucket (release_by_owner pid s).table.buckets k) ≡ false)
unfolding release_by_owner
release_by_owner_lem pid k s =
    let each = bucket-release_buckets pid s.table.buckets 0 k in
    (
      each,
      elim (Bool-cases (is_owned_by pid (bucket s.table.buckets k))) [
        | inl e ↦ rw (each, e) (not_owned-empty_entry pid)
        | inr e ↦ rw (each, e) e
      ],
    )

-- It keeps the table well formed.
release_by_owner-IsValid :
    (pid : ℕ) (s : State) → IsValid s.table → IsValid (release_by_owner pid s).table
unfolding release_by_owner
release_by_owner-IsValid pid s v = record {
  size = length-release_buckets pid s.table.buckets 0 ∙ v.size;
  next_in = v.next_in;
  queues = λ k. elim (Bool-cases (is_owned_by pid (bucket s.table.buckets k))) [
    | inl e ↦ ([], rw (bucket-release_buckets pid s.table.buckets 0 k, e) empty_entry-HasMessages)
    | inr e ↦
        let (q, w) = v.queues k in (q, rw (bucket-release_buckets pid s.table.buckets 0 k, e) w)
  ];
}
