-- ===== src/Tui/Scroll.antt =====
-- `ScrollRegion` and `GroupedLayout` of crates/pty-tui/src/scroll.rs. A sum of two `usize` wraps at
-- 2^64; the differences are those of the source, which stop at 0 where it says `saturating_sub`
-- and are guarded by a comparison where it says `-`.
pub mod Visible
pub mod Grouped
use pty.Base.{
  ℕ, zero, suc, ◌+◌, ◌-◌, ◌%◌, Bool, true, false, List, [], ◌∷◌, ◌++◌, Option, none, some, ltb, leb,
  ◌==◌, if◌then◌else◌, length, take, drop, min,
}

-- `a + b` on `usize`.
unfoldable pub usize_add : ℕ → ℕ → ℕ
usize_add a b = (a + b) % 18446744073709551616

pub record ScrollRegion : Type 0 where
  pub offset : ℕ
  pub selected : ℕ
  pub total : ℕ
  pub viewport : ℕ

unfoldable pub new_region : ℕ → ℕ → ScrollRegion
new_region total viewport = record { offset = 0; selected = 0; total = total; viewport = viewport }

-- The offset that shows the selection, before it is clamped.
unfoldable pub offset_for : ScrollRegion → ℕ
offset_for r =
    if ltb r.selected r.offset
    then r.selected
    else if leb (usize_add r.offset r.viewport) r.selected
    then usize_add r.selected 1 - r.viewport
    else r.offset

unfoldable pub ensure_visible : ScrollRegion → ScrollRegion
ensure_visible r = record r { offset = min (offset_for r) (r.total - r.viewport) }

abbrev or_else : Option ℕ → ℕ → ℕ
or_else none d = d
or_else (some v) d = v

unfoldable pub update : ScrollRegion → ℕ → Option ℕ → ScrollRegion
update r total viewport = ensure_visible (record {
  offset = r.offset;
  selected = min r.selected (total - 1);
  total = total;
  viewport = or_else viewport r.viewport;
})

unfoldable pub scroll_up : ScrollRegion → ScrollRegion
scroll_up r = if r.selected == 0 then r else ensure_visible (record r { selected = r.selected - 1 })

unfoldable pub scroll_down : ScrollRegion → ScrollRegion
scroll_down r =
    if leb r.total (usize_add r.selected 1)
    then r
    else ensure_visible (record r { selected = usize_add r.selected 1 })

unfoldable pub page_up : ScrollRegion → ScrollRegion
page_up r = ensure_visible (record r { selected = r.selected - r.viewport })

unfoldable pub page_down : ScrollRegion → ScrollRegion
page_down r =
    ensure_visible (record r { selected = min (usize_add r.selected r.viewport) (r.total - 1) })

unfoldable pub to_top : ScrollRegion → ScrollRegion
to_top r = ensure_visible (record r { selected = 0 })

unfoldable pub to_bottom : ScrollRegion → ScrollRegion
to_bottom r = ensure_visible (record r { selected = r.total - 1 })

-- `&items[start..end]`.
abbrev pub slice {ℓ} : {A : Type ℓ} → ℕ → ℕ → List A → List A
slice start end items = take (end - start) (drop start items)

unfoldable pub visible_slice {ℓ} : {A : Type ℓ} → ScrollRegion → List A → List A
visible_slice r items =
    slice (min r.offset (length items)) (min (usize_add r.offset r.viewport) (length items)) items

-- `GroupedRow`: a header's group; an item's group, its place there, its index over all groups, and
-- whether it is selected.
pub data GroupedRow : Type 0 where
  spacer : GroupedRow
  header : ℕ → GroupedRow
  item : ℕ → ℕ → ℕ → Bool → GroupedRow

-- The variables of the loop of `GroupedLayout::new`: the rows, the index, and the visual row of
-- the selection.
pub record Building : Type 0 where
  pub rows : List GroupedRow
  pub index : ℕ
  pub selected_visual_row : ℕ

unfoldable pub push_item : ℕ → ℕ → ℕ → Building → Building
push_item selected group at b = record {
  rows = b.rows ++ item group at b.index (b.index == selected) ∷ [];
  index = usize_add b.index 1;
  selected_visual_row = if b.index == selected then length b.rows else b.selected_visual_row;
}

-- The inner loop, for the items left from a place on.
unfoldable pub push_items : ℕ → ℕ → ℕ → ℕ → Building → Building
push_items selected group at zero b = b
push_items selected group at (suc left) b =
    push_items selected group (suc at) left (push_item selected group at b)

abbrev pub is_nil {ℓ} : {A : Type ℓ} → List A → Bool
is_nil [] = true
is_nil (x ∷ xs) = false

unfoldable pub push_header : Bool → ℕ → Building → Building
push_header show_headers group b =
    if show_headers
    then record b {
      rows = (if is_nil b.rows then b.rows else b.rows ++ spacer ∷ []) ++ header group ∷ [];
    }
    else b

-- The outer loop; a group is the number of its items.
unfoldable pub push_groups : ℕ → Bool → ℕ → List ℕ → Building → Building
push_groups selected show_headers group [] b = b
push_groups selected show_headers group (items ∷ groups) b =
    push_groups selected show_headers (suc group) groups
      (push_items selected group 0 items (push_header show_headers group b))

pub record GroupedLayout : Type 0 where
  pub rows : List GroupedRow
  pub offset : ℕ
  pub total : ℕ

unfoldable pub new_layout : ScrollRegion → List ℕ → Bool → GroupedLayout
new_layout r groups show_headers =
    let b =
      push_groups r.selected show_headers 0 groups
        (record { rows = []; index = 0; selected_visual_row = 0 }) in
    record {
      rows = b.rows;
      offset =
          if leb r.viewport b.selected_visual_row
          then usize_add b.selected_visual_row 2 - r.viewport
          else 0;
      total = b.index;
    }

unfoldable pub visible : GroupedLayout → ℕ → List GroupedRow
visible l viewport =
    slice (min l.offset (length l.rows)) (min (usize_add l.offset viewport) (length l.rows)) l.rows
