-- ===== src/Tui/Tests.antt =====
-- Runs and instances of the theorems on lists.
use pty.Base.{ℕ, ◌≡◌, refl, arith, true, false, List, [], ◌∷◌, some, get_elem?}
use pty.Tui.Scroll.{
  ScrollRegion, new_region, usize_add, visible_slice, item, new_layout, push_groups, push_items,
  push_item, push_header, visible,
}
use pty.Tui.Scroll.Visible.{
  IsShowing, Move, down, page_back, resize_to, apply_all, apply_all-IsShowing,
  visible_slice-selected,
}

abbrev moves : List Move
moves = down ∷ down ∷ down ∷ down ∷ down ∷ page_back ∷ resize_to 4 (some 2) ∷ []

apply_all-IsShowing_example : IsShowing (apply_all moves (new_region 10 3))
apply_all-IsShowing_example =
    apply_all-IsShowing 10 3 moves (omega arith) (omega arith) (omega arith)
      (tt, (tt, (tt, (tt, (tt, (tt, ((omega arith, omega arith, omega arith), tt)))))))

-- The fourth of four items is selected, in the second row of two.
abbrev two_rows : ScrollRegion
two_rows = record { offset = 2; selected = 3; total = 4; viewport = 2 }

two_rows-IsShowing : IsShowing two_rows
two_rows-IsShowing = record {
  sized = record {
    short = omega arith;
    low = omega arith;
    has_row = omega arith;
    in_list = omega arith;
  };
  not_above = omega arith;
  not_below = omega arith;
  no_gap = omega arith;
}

visible_slice-selected_example :
    get_elem? {A = ℕ} (visible_slice two_rows (7 ∷ 8 ∷ 9 ∷ 10 ∷ [])) 1 ≡ some 10
visible_slice-selected_example =
    visible_slice-selected two_rows (7 ∷ 8 ∷ 9 ∷ 10 ∷ []) two_rows-IsShowing refl (omega arith)

-- A viewport of one row shows the row behind the selected item.
abbrev one_row : ScrollRegion
one_row = record { offset = 0; selected = 0; total = 2; viewport = 1 }

one_row_misses : visible (new_layout one_row (2 ∷ []) true) 1 ≡ item 0 1 1 false ∷ []
unfolding visible new_layout push_groups push_items push_item push_header usize_add
one_row_misses = refl
