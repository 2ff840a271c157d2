-- ===== src/Vfs/Initrd/Bounds.antt =====
-- The search of an archive in servers/vfs/src/lib.rs ends.
use cyanos.Base.{
  ℕ, zero, suc, ◌+◌, ◌≤◌, ◌<◌, ◌≡◌, refl, ap, ◌∙◌, Option, some, List, arith, length, inl, inr,
  Bool, true, false, not, ◌&&◌, none, ltb, leb, if◌then◌else◌, Bool-cases,
}
use cyanos.Base.Text.{text, same_bytes, slice}
use cyanos.Vfs.{Vfs}
use cyanos.Vfs.Initrd.{
  Step, stop, next, step, scan, find_in_initrd, archive_of, strip_slash, CpioEntry, entry_at,
  cpio_name, align4,
}

-- A turn that goes on moves forward, and the header was inside the archive.
abbrev Advances : List ℕ → ℕ → Step → Type 0
Advances archive offset (stop r) = Unit
Advances archive offset (next o) = (offset < o) × (offset + 110 ≤ length archive)

turn-Advances :
    (archive file : List ℕ) (offset end : ℕ) (unmarked cut trailer found : Bool)
    → Advances archive offset (
        if ltb (length archive) (offset + 110)
        then stop none
        else if unmarked
        then stop none
        else if cut
        then stop none
        else if trailer
        then stop none
        else if found
        then stop (some file)
        else if leb end offset
        then stop none
        else next end)
turn-Advances archive file offset end unmarked cut trailer found =
    elim (Bool-cases (ltb (length archive) (offset + 110))) [
      | inl short ↦ rw short tt
      | inr fits ↦ rw fits (go unmarked cut trailer found (ground arith))
    ]
  where
    past :
        (b : Bool)
        → leb end offset ≡ b
        → offset + 110 ≤ length archive
        → Advances archive offset (if b then stop none else next end)
    past true e h = tt
    past false e h = (ground arith, h)

    go :
        (a b c d : Bool)
        → offset + 110 ≤ length archive
        → Advances archive offset (
            if a
            then stop none
            else if b
            then stop none
            else if c
            then stop none
            else if d
            then stop (some file)
            else if leb end offset
            then stop none
            else next end)
    go true b c d h = tt
    go false true c d h = tt
    go false false true d h = tt
    go false false false true h = tt
    go false false false false h = past (leb end offset) refl h

step-Advances :
    (archive query : List ℕ) (offset : ℕ) → Advances archive offset (step archive query offset)
unfolding step
step-Advances archive query offset =
    let e : CpioEntry = entry_at archive offset in
    turn-Advances archive (slice e.file_off e.file_end archive) offset (align4 e.file_end)
      (not (same_bytes (slice 0 6 (slice offset (offset + 110) archive)) (text "070701")))
      (ltb (length archive) e.name_end) (same_bytes e.name (text "TRAILER!!!"))
      (same_bytes (cpio_name e.name) query && leb e.file_end (length archive))

scan_returns :
    (fuel : ℕ) (archive query : List ℕ) (offset : ℕ)
    → length archive < offset + fuel
    → 0 < fuel
    → (r : Option (List ℕ)) × (scan fuel archive query offset ≡ some r)
unfolding scan
scan_returns zero archive query offset h pos = absurd (omega arith)
scan_returns (suc fuel) archive query offset h pos =
    turn (step archive query offset) refl (step-Advances archive query offset)
      (λ o more room. scan_returns fuel archive query o more room)
  where
    turn :
        (s : Step)
        → step archive query offset ≡ s
        → Advances archive offset s
        → ((o : ℕ)
            → length archive < o + fuel
            → 0 < fuel
            → (r : Option (List ℕ)) × (scan fuel archive query o ≡ some r))
        → (r : Option (List ℕ)) × (scan (suc fuel) archive query offset ≡ some r)
    turn (stop r) e a later =
        (r, ap (λ s. elim s [ stop r ↦ some r | next o ↦ scan fuel archive query o ]) e)
    turn (next o) e a later =
        let (r, found) = later o (omega (arith, a.0, a.1)) (omega (arith, a.1)) in
        (r, ap (λ s. elim s [ stop r ↦ some r | next o ↦ scan fuel archive query o ]) e ∙ found)

-- A search of the archive always ends: its turns are at most one more than the bytes of the archive.
pub find_in_initrd_returns :
    (path : List ℕ) (v : Vfs) → (r : Option (List ℕ)) × (find_in_initrd path v ≡ some r)
unfolding find_in_initrd
find_in_initrd_returns path v = go (archive_of v)
  where
    go :
        (o : Option (List ℕ))
        → (r : Option (List ℕ)) × ((elim o [
          | none ↦ some none
          | some archive ↦ scan (length archive + 1) archive (strip_slash path) 0
        ])
            ≡ some r)
    go none = (none, refl)
    go (some archive) =
        scan_returns (length archive + 1) archive (strip_slash path) 0 (omega arith) (omega arith)
