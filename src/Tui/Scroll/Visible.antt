-- ===== src/Tui/Scroll/Visible.antt =====
-- The selection of a scroll region stays in the list and in the viewport.
use pty.Base.{
  ℕ, zero, suc, ◌+◌, ◌-◌, ◌≤◌, ◌<◌, ◌≡◌, refl, arith, List, [], ◌∷◌, Option, none, some, leb, All,
  Bool-cases, ap, ◌∙◌, ◌==◌, length, take, drop, min, get_elem?, inl, inr,
}
use pty.Tui.Scroll.{
  usize_add, ScrollRegion, new_region, offset_for, ensure_visible, update, scroll_up, scroll_down,
  page_up, page_down, to_top, to_bottom, visible_slice,
}

-- The list and the viewport are short of 2^63, the viewport has a row, and the selection is an
-- item, or 0 in an empty list.
pub record IsSized (r : ScrollRegion) : Type 0 where
  pub short : r.total < 9223372036854775808
  pub low : r.viewport < 9223372036854775808
  pub has_row : 0 < r.viewport
  pub in_list : r.selected ≤ r.total - 1

-- Besides, the selection is in the viewport, and the viewport ends with the list at the latest.
pub record IsShowing (r : ScrollRegion) : Type 0 where
  pub sized : IsSized r
  pub not_above : r.offset ≤ r.selected
  pub not_below : r.selected < r.offset + r.viewport
  pub no_gap : r.offset ≤ r.total - r.viewport

pub usize_add_small : (a b : ℕ) → a + b < 18446744073709551616 → usize_add a b ≡ a + b
unfolding usize_add
usize_add_small a b h = omega arith

offset_for-shows :
    (r : ScrollRegion)
    → IsSized r
    → r.offset < 9223372036854775808
    → (min (offset_for r) (r.total - r.viewport) ≤ r.selected)
      × (r.selected < min (offset_for r) (r.total - r.viewport) + r.viewport)
unfolding offset_for
offset_for-shows r s b =
    let window = usize_add_small r.offset r.viewport (omega arith) in
    let next = usize_add_small r.selected 1 (omega arith) in (ground arith, ground arith)

ensure_visible-IsShowing :
    (r : ScrollRegion) → IsSized r → r.offset < 9223372036854775808 → IsShowing (ensure_visible r)
unfolding ensure_visible
ensure_visible-IsShowing r s b = record {
  sized = record { short = s.short; low = s.low; has_row = s.has_row; in_list = s.in_list };
  not_above = (offset_for-shows r s b).0;
  not_below = (offset_for-shows r s b).1;
  no_gap = omega arith;
}

-- Moving the selection of a showing region within the list.
select-IsShowing :
    (r : ScrollRegion) (n : ℕ)
    → IsShowing r
    → n ≤ r.total - 1
    → IsShowing (ensure_visible (record r { selected = n }))
select-IsShowing r n s h =
    ensure_visible-IsShowing (record r { selected = n })
      (record { short = s.sized.short; low = s.sized.low; has_row = s.sized.has_row; in_list = h })
      (omega (arith, s.no_gap, s.sized.short))

-- The operations on a region.
pub data Move : Type 0 where
  up down page_back page_on top bottom : Move
  resize_to : ℕ → Option ℕ → Move

abbrev pub apply : Move → ScrollRegion → ScrollRegion
apply up r = scroll_up r
apply down r = scroll_down r
apply page_back r = page_up r
apply page_on r = page_down r
apply top r = to_top r
apply bottom r = to_bottom r
apply (resize_to total viewport) r = update r total viewport

abbrev pub apply_all : List Move → ScrollRegion → ScrollRegion
apply_all [] r = r
apply_all (m ∷ ms) r = apply_all ms (apply m r)

-- The sizes that a move brings are short of 2^63, and a viewport has a row.
abbrev pub IsSmallMove : Move → Type 0
IsSmallMove (resize_to total none) = total < 9223372036854775808
IsSmallMove (resize_to total (some viewport)) =
    (total < 9223372036854775808) × (viewport < 9223372036854775808) × (0 < viewport)
IsSmallMove _ = Unit

update-IsShowing :
    (r : ScrollRegion) (total : ℕ) (viewport : Option ℕ)
    → IsShowing r
    → IsSmallMove (resize_to total viewport)
    → IsShowing (update r total viewport)
unfolding update
update-IsShowing r total none s m =
    ensure_visible-IsShowing _
      (record { short = m; low = s.sized.low; has_row = s.sized.has_row; in_list = omega arith })
      (omega (arith, s.no_gap, s.sized.short))
update-IsShowing r total (some viewport) s m =
    ensure_visible-IsShowing _
      (record { short = m.0; low = m.1; has_row = m.2; in_list = omega arith })
      (omega (arith, s.no_gap, s.sized.short))

apply-IsShowing :
    (m : Move) (r : ScrollRegion) → IsShowing r → IsSmallMove m → IsShowing (apply m r)
unfolding scroll_up scroll_down page_up page_down to_top to_bottom
apply-IsShowing up r s m = elim (Bool-cases (r.selected == 0)) [
  | inl e ↦ rw (e) s
  | inr e ↦ rw (e) (select-IsShowing r (r.selected - 1) s (omega (arith, s.sized.in_list)))
]
apply-IsShowing down r s m = elim (Bool-cases (leb r.total (usize_add r.selected 1))) [
  | inl e ↦ rw (e) s
  | inr e ↦ rw (e) (select-IsShowing r (usize_add r.selected 1) s (ground arith))
]
apply-IsShowing page_back r s m =
    select-IsShowing r (r.selected - r.viewport) s (omega (arith, s.sized.in_list))
apply-IsShowing page_on r s m =
    select-IsShowing r (min (usize_add r.selected r.viewport) (r.total - 1)) s (omega arith)
apply-IsShowing top r s m = select-IsShowing r 0 s (omega arith)
apply-IsShowing bottom r s m = select-IsShowing r (r.total - 1) s (omega arith)
apply-IsShowing (resize_to total viewport) r s m = update-IsShowing r total viewport s m

-- Whatever is done to a new region of a list and a viewport short of 2^63, with a row: the
-- selection stays an item of the list, or 0 in an empty one, and stays in the viewport, and the
-- viewport never runs past the end of a list that it could be filled from.
pub apply_all-IsShowing :
    (total viewport : ℕ) (moves : List Move)
    → total < 9223372036854775808
    → viewport < 9223372036854775808
    → 0 < viewport
    → All IsSmallMove moves
    → IsShowing (apply_all moves (new_region total viewport))
unfolding new_region
apply_all-IsShowing total viewport moves t v p small =
    go moves (new_region total viewport)
      (record {
        sized = record { short = t; low = v; has_row = p; in_list = omega arith };
        not_above = omega arith;
        not_below = omega arith;
        no_gap = omega arith;
      })
      small
  where
    go :
        (ms : List Move) (r : ScrollRegion)
        → IsShowing r
        → All IsSmallMove ms
        → IsShowing (apply_all ms r)
    go [] r s h = s
    go (m ∷ ms) r s h = go ms (apply m r) (apply-IsShowing m r s h.0) h.1

get_elem?-drop {ℓ} :
    {A : Type ℓ} (n i : ℕ) (xs : List A) → get_elem? (drop n xs) i ≡ get_elem? xs (n + i)
get_elem?-drop zero i xs = let same : i ≡ zero + i = omega arith in ap (get_elem? xs) same
get_elem?-drop (suc n) i [] = refl
get_elem?-drop (suc n) i (x ∷ xs) =
    let same : suc (n + i) ≡ suc n + i = omega arith in
    get_elem?-drop n i xs ∙ ap (get_elem? (x ∷ xs)) same

get_elem?-take {ℓ} :
    {A : Type ℓ} (n i : ℕ) (xs : List A) → i < n → get_elem? (take n xs) i ≡ get_elem? xs i
get_elem?-take zero i xs h = absurd (omega arith)
get_elem?-take (suc n) i [] h = refl
get_elem?-take (suc n) zero (x ∷ xs) h = refl
get_elem?-take (suc n) (suc i) (x ∷ xs) h = get_elem?-take n i xs (omega arith)

-- A place in a slice is that place behind its start.
pub slice_lem {ℓ} :
    {A : Type ℓ} (start end i : ℕ) (xs : List A)
    → start ≤ i
    → i < end
    → get_elem? (take (end - start) (drop start xs)) (i - start) ≡ get_elem? xs i
slice_lem start end i xs a b =
    let same : start + (i - start) ≡ i = omega arith in
    get_elem?-take (end - start) (i - start) (drop start xs) (omega arith)
    ∙ get_elem?-drop start (i - start) xs
    ∙ ap (get_elem? xs) same

-- The selected item is in the slice that a region draws of a list of its total, at its place
-- behind the offset, where the region shows its selection and has an item.
pub visible_slice-selected {ℓ} :
    {A : Type ℓ} (r : ScrollRegion) (items : List A)
    → IsShowing r
    → length items ≡ r.total
    → r.selected < r.total
    → get_elem? (visible_slice r items) (r.selected - r.offset) ≡ get_elem? items r.selected
unfolding visible_slice
visible_slice-selected r items s len sel =
    let window =
      usize_add_small r.offset r.viewport (omega (arith, s.no_gap, s.sized.short, s.sized.low)) in
    let start : min r.offset (length items) ≡ r.offset = omega (arith, s.not_above) in
    rw (start, window)
      (slice_lem r.offset (min (r.offset + r.viewport) (length items)) r.selected items s.not_above
        (omega (arith, s.not_below)))
