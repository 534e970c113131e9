-- ===== src/Core/Storage/Wal.antt =====
-- core/src/storage/wal/batch.rs: the write-ahead log.
pub mod Names
pub mod Format
pub mod Steps
pub mod Segments
pub mod ReadBack
pub mod Directory
mod Tests
use nendi.Common.{
  ℕ, zero, suc, ◌+◌, ◌-◌, ◌*◌, ◌%◌, ◌^◌, ◌≡◌, ◌≢◌, Bool, true, false, ◌&&◌, ◌||◌, not, Option, none,
  some, List, [], ◌∷◌, ◌++◌, Bytes, Text, codes, length, leb, ltb, ◌==◌, be, text_eq, starts_with,
  drop, decimal, if◌then◌else◌, add_u64, map,
}
use nendi.Common.Cursor.{Outcome, ok, err, panic}
use nendi.Common.Effects.{Io, ◌>>=◌, ◌>>◌, pure, or_panic}
use nendi.Shared.Lsn.{Lsn, zero_lsn, to_be_bytes}

-- What a file holds if it is opened with `create` and `append`.
abbrev pub or_empty : Option Bytes → Bytes
or_empty none = []
or_empty (some c) = c

-- The directory of the log in a file system, which is not part of this repository, and what the
-- documentation of `std::fs` says of it. A call gives `false` or `none` for an I/O error. A file that
-- is open is known by its name.
pub record FileSystem : Type 1 where
  pub Fs : Type 0
  pub open_append : Text → Fs → Bool × Fs
  pub write_all : Text → Bytes → Fs → Bool × Fs
  pub sync_all : Text → Fs → Bool × Fs
  pub read_dir : Fs → Option (List (Option Text))
  pub remove_file : Text → Fs → Bool × Fs
  pub content : Text → Fs → Option Bytes
  pub open_creates :
      (n : Text) (fs : Fs)
      → (open_append n fs).0 ≡ true
      → content n (open_append n fs).1 ≡ some (or_empty (content n fs))
  pub open_keeps : (n m : Text) (fs : Fs) → m ≢ n → content m (open_append n fs).1 ≡ content m fs
  pub write_appends :
      (n : Text) (bytes c : Bytes) (fs : Fs)
      → content n fs ≡ some c
      → (write_all n bytes fs).0 ≡ true
      → content n (write_all n bytes fs).1 ≡ some (c ++ bytes)
  pub write_keeps :
      (n m : Text) (bytes : Bytes) (fs : Fs)
      → m ≢ n
      → content m (write_all n bytes fs).1 ≡ content m fs

pub data IoError : Type 0 where
  io : IoError

-- The directory is the file system's.
pub record WalWriter : Type 0 where
  pub current_file : Option Text
  pub segment : ℕ
  pub segment_bytes : ℕ
  pub max_segment_bytes : ℕ
  pub last_lsn : Lsn

-- `new` also creates the directory.
unfoldable pub new : ℕ → WalWriter
new max_segment_bytes = record {
  current_file = none;
  segment = 0;
  segment_bytes = 0;
  max_segment_bytes = max_segment_bytes;
  last_lsn = zero_lsn;
}

unfoldable pub zeros : ℕ → Text
zeros zero = []
zeros (suc n) = b'0' ∷ zeros n

-- `{:08}` on a `u64`, which has at most twenty digits.
unfoldable pub padded : ℕ → Text
padded v = let digits = decimal 19 v in zeros (8 - length digits) ++ digits

unfoldable pub segment_name : ℕ → Text
segment_name segment = codes "wal_" ++ (padded segment ++ codes ".log")

-- `Path::extension` and `Path::file_stem` of a file's name, together: what stands around the last
-- dot, if anything stands before it.
unfoldable pub around_dot : Text → Option (Text × Text)
around_dot [] = none
around_dot (c ∷ s) = elim (around_dot s) [
  | some (stem, extension) ↦ some (c ∷ stem, extension)
  | none ↦ if c == b'.' then some ([], s) else none
]

-- `trim_start_matches("wal_")`: as often as it is there.
unfoldable pub trim_wal : Text → Text
trim_wal (a ∷ (b ∷ (c ∷ (d ∷ s)))) =
    let rest = trim_wal s in
    if text_eq (a ∷ (b ∷ (c ∷ (d ∷ [])))) (codes "wal_") then rest else a ∷ (b ∷ (c ∷ (d ∷ s)))
trim_wal s = s

unfoldable pub digits_value : ℕ → Text → Option ℕ
digits_value value [] = some value
digits_value value (c ∷ s) =
    let more = digits_value (value * 10 + (c - b'0')) s in
    if leb b'0' c && leb c b'9' && ltb (value * 10 + (c - b'0')) (2 ^ 64) then more else none

-- `parse::<u64>`: digits, after a plus sign or not, of a value that fits.
unfoldable pub parse_u64 : Text → Option ℕ
parse_u64 [] = none
parse_u64 (c ∷ []) = if c == b'+' then none else digits_value 0 (c ∷ [])
parse_u64 (c ∷ (d ∷ s)) = digits_value 0 (if c == b'+' then d ∷ s else c ∷ (d ∷ s))

-- The tests of `gc_segments` on a file's name.
unfoldable pub is_old : ℕ → Text → Bool
is_old segment name = elim (around_dot name) [
  | none ↦ false
  | some ([], _) ↦ false
  | some (c ∷ stem, extension) ↦
      if text_eq extension (codes "log")
      then elim (parse_u64 (trim_wal (c ∷ stem))) [
        | none ↦ false
        | some seg_num ↦ ltb (add_u64 seg_num 2) segment
      ]
      else false
]

abbrev pub done : Bool → Outcome IoError (Unit {0})
done true = ok tt
done false = err io

-- `(8 + payload.len()) as u32`.
abbrev pub record_len : Bytes → ℕ
record_len payload = (8 + length payload) % 2 ^ 32

unfoldable pub must_rotate : WalWriter → Bool
must_rotate w = elim w.current_file [
  | none ↦ true
  | some _ ↦ leb w.max_segment_bytes w.segment_bytes
]

module _ (fs : FileSystem) where
  -- The writer and the file system: an error leaves what was done before it.
  abbrev pub Wal : Type 0 → Type 0
  Wal A = Io (WalWriter × fs.Fs) IoError A

  abbrev pub on_file : (fs.Fs → Bool × fs.Fs) → Wal (Unit {0})
  on_file call p = (done (call p.1).0, (p.0, (call p.1).1))

  abbrev pub change : (WalWriter → WalWriter) → Wal (Unit {0})
  change f p = (ok tt, (f p.0, p.1))

  unfoldable pub rotate : Wal (Unit {0})
  rotate p =
      let segment = add_u64 (p.0).segment 1 in
      (do
        change (λ w. record w { segment = segment })
        on_file (fs.open_append (segment_name segment))
        change (λ w. record w { current_file = some (segment_name segment); segment_bytes = 0 }))
        p

  -- What follows the rotation, with the current file.
  unfoldable pub write_record : Lsn → Bytes → Text → Wal (Unit {0})
  write_record lsn payload file = do
    on_file (fs.write_all file (be 4 (record_len payload)))
    on_file (fs.write_all file (to_be_bytes lsn))
    on_file (fs.write_all file payload)
    change (λ w. record w {
      segment_bytes = add_u64 w.segment_bytes (4 + 8 + length payload);
      last_lsn = lsn;
    })

  -- The rest of `append`: the current file is unwrapped.
  unfoldable pub append_now : Lsn → Bytes → Wal (Unit {0})
  append_now lsn payload p = (or_panic (p.0).current_file >>= write_record lsn payload) p

  unfoldable pub append : Lsn → Bytes → Wal (Unit {0})
  append lsn payload p =
      if must_rotate p.0
      then (rotate >>= λ _. append_now lsn payload) p
      else append_now lsn payload p

  unfoldable pub sync : Wal (Unit {0})
  sync p = elim ((p.0).current_file) as (λ _. Outcome IoError (Unit {0}) × (WalWriter × fs.Fs)) [
    | none ↦ (ok tt, p)
    | some file ↦ on_file (fs.sync_all file) p
  ]

  -- The loop of `gc_segments` over the directory's entries, of which an I/O error is `none`.
  unfoldable pub gc_loop : List (Option Text) → ℕ → Wal ℕ
  gc_loop [] removed p = (ok removed, p)
  gc_loop (none ∷ entries) removed p = (err io, p)
  gc_loop (some name ∷ entries) removed p =
      let rest = gc_loop entries removed p in
      if is_old (p.0).segment name
      then (on_file (fs.remove_file name) >>= λ _. gc_loop entries (removed + 1)) p
      else rest

  unfoldable pub gc_segments : Lsn → Wal ℕ
  gc_segments watermark_lsn p =
      elim (fs.read_dir p.1) as (λ _. Outcome IoError ℕ × (WalWriter × fs.Fs)) [
        | none ↦ (err io, p)
        | some entries ↦ gc_loop entries 0 p
      ]
