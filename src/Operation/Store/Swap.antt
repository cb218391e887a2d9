-- ===== src/Operation/Store/Swap.antt =====
-- What `write_cas_as` of crates/pty-core/src/operation/record.rs does to the file.
use pty.Base.{
  ◌≡◌, ◌≢◌, ◌⊎◌, ◌∙◌, false, refl, inl, inr, true, Option, none, some, Bytes, Result, ok, err, ap,
}
use pty.Operation.Record.{OperationRecord, check, is_ok, is_consistent}
use pty.Operation.Store.{
  Disk, stored, Landing, lands, fails_before, fails_after, WriteError, stale, missing, read,
  ReadError, read_file, OperationRecord_discrete, stamped, landed, compared, swapped,
  when_consistent, write_cas_as,
}

-- Why a write was refused.
abbrev pub IsRefusal : Landing → OperationRecord → OperationRecord → Disk → WriteError → Type 0
IsRefusal landing expected next disk (stale current) =
    (read_file disk ≡ ok (some current)) × (current ≢ expected)
IsRefusal landing expected next disk missing = read_file disk ≡ ok none
IsRefusal landing expected next disk (read e) = read_file disk ≡ err e
IsRefusal landing expected next disk WriteError.io =
    (is_consistent next ≡ false) ⊎ (landing ≢ lands)

abbrev pub WriteAnswer :
    Landing
    → Bytes
    → OperationRecord
    → OperationRecord
    → Disk
    → Disk × Result OperationRecord WriteError
    → Type 0
WriteAnswer landing now expected next disk (after, ok w) =
    (read_file disk ≡ ok (some expected))
    × (is_consistent next ≡ true)
    × (w ≡ stamped now expected next)
    × (after ≡ some (stored w))
WriteAnswer landing now expected next disk (after, err e) =
    IsRefusal landing expected next disk e
    × ((after ≡ disk)
        ⊎ ((landing ≡ fails_after)
            × (read_file disk ≡ ok (some expected))
            × (after ≡ some (stored (stamped now expected next)))))

module _ (now : Bytes) (expected next : OperationRecord) (disk : Disk) where
  landed-WriteAnswer :
      (l : Landing)
      → is_consistent next ≡ true
      → read_file disk ≡ ok (some expected)
      → WriteAnswer l now expected next disk (landed l (stamped now expected next) disk)
  landed-WriteAnswer lands c r = (r, c, refl, refl)
  landed-WriteAnswer fails_before c r = (inr (λ h. cc), inl refl)
  landed-WriteAnswer fails_after c r = (inr (λ h. cc), inr (refl, r, refl))

  compared-WriteAnswer :
      (l : Landing)
      → is_consistent next ≡ true
      → (current : OperationRecord) → read_file disk ≡ ok (some current)
      → (d : Dec (current ≡ expected))
      → WriteAnswer l now expected next disk (compared l now expected next disk current d)
  compared-WriteAnswer l c current r (yes p) = landed-WriteAnswer l c (r ∙ ap (λ x. ok (some x)) p)
  compared-WriteAnswer l c current r (no n) = ((r, n), inl refl)

  swapped-WriteAnswer :
      (l : Landing)
      → is_consistent next ≡ true
      → (r : Result (Option OperationRecord) ReadError) → read_file disk ≡ r
      → WriteAnswer l now expected next disk (swapped l now expected next disk r)
  swapped-WriteAnswer l c (err e) r = (r, inl refl)
  swapped-WriteAnswer l c (ok none) r = (r, inl refl)
  swapped-WriteAnswer l c (ok (some current)) r =
      compared-WriteAnswer l c current r (OperationRecord_discrete current expected)

  checked-WriteAnswer :
      (l : Landing) (r : Result Unit Bytes)
      → check next ≡ r
      → WriteAnswer l now expected next disk (when_consistent l now expected next disk r)
  unfolding is_consistent
  checked-WriteAnswer l (err e) h = (inl (ap is_ok h), inl refl)
  checked-WriteAnswer l (ok u) h = swapped-WriteAnswer l (ap is_ok h) (read_file disk) refl

-- A write that succeeds had a consistent record to write, found just the expected record, and
-- leaves its successor, with the next revision, in the file. A write that is refused leaves the
-- file as it was, but where the directory's synchronisation failed behind the rename: then the
-- file holds the successor of the expected record. It says stale with the record that is there,
-- another than the expected; missing where there is none; what the read said; or that the record
-- to write is inconsistent or the file system failed.
pub write_cas_as-WriteAnswer :
    (l : Landing) (now : Bytes) (expected next : OperationRecord) (disk : Disk)
    → WriteAnswer l now expected next disk (write_cas_as l now expected next disk)
unfolding write_cas_as
write_cas_as-WriteAnswer l now expected next disk =
    checked-WriteAnswer now expected next disk l (check next) refl
