-- ===== src/Operation/Occupancy.antt =====
-- `argv_carries_marker`, `Occupancy` and `occupancy_rule` of
-- crates/pty-core/src/operation/settle.rs. What the registry holds is data here.
use pty.Base.{
  Bool, false, ◌&&◌, ◌||◌, List, [], ◌∷◌, ◌++◌, Option, none, some, if◌then◌else◌, Bytes, codes,
  bytes_eq, Result, ok, err,
}
use pty.Operation.Record.{Cause, occupied, predecessor_mismatch}

-- The arguments before the first `--`.
abbrev pub before_separator : List Bytes → List Bytes
before_separator [] = []
before_separator (arg ∷ args) =
    let rest = before_separator args in if bytes_eq arg (codes "--") then [] else arg ∷ rest

-- The arguments behind the first `run` or `__daemon`.
abbrev pub behind_verb : List Bytes → Option (List Bytes)
behind_verb [] = none
behind_verb (arg ∷ args) =
    let rest = behind_verb args in
    if bytes_eq arg (codes "run") || bytes_eq arg (codes "__daemon") then some args else rest

-- `windows(2).any(..)`.
abbrev pub has_pair : Bytes → List Bytes → Bool
has_pair digest [] = false
has_pair digest (a ∷ []) = false
has_pair digest (a ∷ b ∷ rest) =
    bytes_eq a (codes "--launch-operation") && bytes_eq b digest || has_pair digest (b ∷ rest)

abbrev pub pair_behind : Bytes → Option (List Bytes) → Bool
pair_behind digest none = false
pair_behind digest (some args) = has_pair digest args

unfoldable pub argv_carries_marker : List Bytes → Bytes → Bool
argv_carries_marker [] digest = false
argv_carries_marker (program ∷ args) digest =
    pair_behind digest (behind_verb (before_separator args))

pub data Occupancy : Type 0 where
  absent : Occupancy
  live ended : Option Bytes → Occupancy
  unreadable : Bytes → Occupancy

abbrev or_unknown : Option Bytes → Bytes
or_unknown none = codes "unknown"
or_unknown (some i) = i

-- The predecessor that the launch may clear, or why there is no launch.
unfoldable pub occupancy_rule : Occupancy → Option Bytes → Result (Option Bytes) (Cause × Bytes)
occupancy_rule absent expected = ok none
occupancy_rule (unreadable path) expected = err (occupied, codes "unreadable:" ++ path)
occupancy_rule (live incarnation) expected = err (occupied, codes "live:" ++ or_unknown incarnation)
occupancy_rule (ended (some found)) (some expected) =
    if bytes_eq expected found
    then ok (some found)
    else err (predecessor_mismatch, codes "ended:" ++ found)
occupancy_rule (ended found) expected =
    err (predecessor_mismatch, codes "ended:" ++ or_unknown found)
