-- ===== src/Server/Ring.antt =====
-- The circular byte buffer of the servers: `PipeRing` of the file server, `TtyBuf` of the terminal
-- server and `UnixRing` of the network server, which differ in their size `n` and their names.
pub mod Refine
use cyanos.Base.{
  ℕ, zero, suc, ◌+◌, ◌-◌, ◌%◌, Bool, true, false, Option, none, some, List, [], ◌∷◌, leb, ◌==◌,
  if◌then◌else◌, get_or, set, replicate,
}

pub record ByteRing : Type 0 where
  pub buf : List ℕ
  pub read_pos : ℕ
  pub write_pos : ℕ
  pub count : ℕ

unfoldable pub new : ℕ → ByteRing
unfolding replicate
new n = record { buf = replicate n 0; read_pos = 0; write_pos = 0; count = 0 }

module _ (n : ℕ) where
  unfoldable pub put : ByteRing → ℕ → Bool × ByteRing
  put r b = if leb n r.count then (false, r) else (
    true,
    record r {
      buf = set r.buf r.write_pos b;
      write_pos = (r.write_pos + 1) % n;
      count = r.count + 1;
    },
  )

  unfoldable pub get : ByteRing → Option ℕ × ByteRing
  get r = if r.count == 0 then (none, r) else (
    some (get_or r.buf r.read_pos 0),
    record r { read_pos = (r.read_pos + 1) % n; count = r.count - 1 },
  )

  -- `while n < count { if !r.put(..) { break; } n += 1; }`: how many bytes went in.
  unfoldable pub put_all : ByteRing → List ℕ → ℕ × ByteRing
  put_all r [] = (0, r)
  put_all r (b ∷ bs) =
      let (done, r') = put r b in
      let (k, r'') = put_all r' bs in if done then (suc k, r'') else (0, r')

  -- `while n < limit { match r.get() { Some(b) => .., None => break } }`: the bytes that came out.
  unfoldable pub get_some : ℕ → ByteRing → List ℕ × ByteRing
  get_some zero r = ([], r)
  get_some (suc k) r =
      let (taken, r') = get r in
      let (bs, r'') = get_some k r' in elim taken [ none ↦ ([], r') | some b ↦ (b ∷ bs, r'') ]
