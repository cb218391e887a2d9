-- ===== src/Tui/Scroll/Grouped.antt =====
-- The selected item of a grouped list is in the rows that its layout draws.
use pty.Base.{
  ℕ, ◌+◌, ◌-◌, ◌≤◌, ◌<◌, ◌≡◌, true, List, [], ◌∷◌, Option, some, leb, if◌then◌else◌, length,
  get_elem?,
}
use pty.Tui.Scroll.{usize_add, GroupedRow, item, Building}

-- The number of items over all groups.
abbrev pub count : List ℕ → ℕ
count [] = 0
count (n ∷ ns) = n + count ns

-- A row of the selected item.
pub record IsSelectedRow (selected : ℕ) (row : Option GroupedRow) : Type 0 where
  pub group : ℕ
  pub at : ℕ
  pub is : row ≡ some (item group at selected true)

-- Once the index is past the selection, the row kept is that of the selected item.
pub record IsTracking (selected : ℕ) (b : Building) : Type 0 where
  pub tracked : selected < b.index → IsSelectedRow selected (get_elem? b.rows b.selected_visual_row)

-- All that the loops keep.
record Kept (selected items more : ℕ) (b b' : Building) : Type 0 where
  tracking : IsTracking selected b'
  counted : b'.index ≡ b.index + items
  grown : length b'.rows ≤ length b.rows + items + more
  inside : b'.selected_visual_row ≤ length b'.rows

-- The offset of a layout.
abbrev offset_of : ℕ → ℕ → ℕ
offset_of viewport row = if leb viewport row then usize_add row 2 - viewport else 0
