-- ===== src/Process/Snapshot/Sort.antt =====
-- Sorting and merging keep the processes that a list holds.
use pty.Base.{
  ◌≡◌, refl, sym, ap, ◌∙◌, Bool, true, false, ◌||◌, List, [], ◌∷◌, ◌++◌, if◌then◌else◌, int_eq,
  bytes_eq, int_eq_iff, bytes_eq_iff, and_true, or_true, inl, inr, ◌⊎◌, Bool-cases, All,
}
use pty.Process.Snapshot.{
  ProcessIdentity, comes_before, insert_sorted, sort_identities, same_process, holds, add_new,
  merge_identities,
}

or_left_comm : (a b c : Bool) → (a || (b || c)) ≡ (b || (a || c))
or_left_comm true true c = refl
or_left_comm true false c = refl
or_left_comm false true c = refl
or_left_comm false false c = refl

pub or_left : (a b : Bool) → a ≡ true → (a || b) ≡ true
or_left a b k = rw k

pub or_right : (a b : Bool) → b ≡ true → (a || b) ≡ true
or_right true b k = refl
or_right false b k = k

holds-insert_sorted :
    (c x : ProcessIdentity) (l : List ProcessIdentity)
    → holds c (insert_sorted x l) ≡ (same_process x c || holds c l)
unfolding insert_sorted holds
holds-insert_sorted c x [] = refl
holds-insert_sorted c x (y ∷ l) = elim (Bool-cases (comes_before y x)) [
  | inl e ↦ rw e (
      ap (◌||◌ (same_process y c)) (holds-insert_sorted c x l)
      ∙ or_left_comm (same_process y c) (same_process x c) (holds c l))
  | inr e ↦ rw e
]

pub holds-sort_identities :
    (c : ProcessIdentity) (l : List ProcessIdentity) → holds c (sort_identities l) ≡ holds c l
unfolding sort_identities holds
holds-sort_identities c [] = refl
holds-sort_identities c (x ∷ l) =
    holds-insert_sorted c x (sort_identities l)
    ∙ ap (◌||◌ (same_process x c)) (holds-sort_identities c l)

insert_sorted-All {κ} :
    (P : ProcessIdentity → Type κ) (x : ProcessIdentity) (l : List ProcessIdentity)
    → P x
    → All P l
    → All P (insert_sorted x l)
unfolding insert_sorted
insert_sorted-All P x [] h k = (h, tt)
insert_sorted-All P x (y ∷ l) h k = elim (Bool-cases (comes_before y x)) [
  | inl e ↦ rw (e, insert_sorted) (k.0, insert_sorted-All P x l h k.1)
  | inr e ↦ rw (e, insert_sorted) (h, (k.0, k.1))
]

pub sort_identities-All {κ} :
    (P : ProcessIdentity → Type κ) (l : List ProcessIdentity) → All P l → All P (sort_identities l)
unfolding sort_identities
sort_identities-All P [] h = tt
sort_identities-All P (x ∷ l) h =
    insert_sorted-All P x (sort_identities l) h.0 (sort_identities-All P l h.1)

holds-append :
    (c : ProcessIdentity) (xs ys : List ProcessIdentity)
    → holds c (xs ++ ys) ≡ (holds c xs || holds c ys)
unfolding holds
holds-append c [] ys = refl
holds-append c (x ∷ xs) ys =
    ap (◌||◌ (same_process x c)) (holds-append c xs ys)
    ∙ sym (assoc (same_process x c) (holds c xs) (holds c ys))
  where
    assoc : (a b d : Bool) → ((a || b) || d) ≡ (a || (b || d))
    assoc true b d = refl
    assoc false b d = refl

-- Processes are the same when they cannot be told apart by pid and identity.
pub same_process_iff_left :
    (x y c : ProcessIdentity)
    → same_process x y ≡ true
    → same_process y c ≡ true
    → same_process x c ≡ true
same_process_iff_left x y c h k =
    let (p, i) = and_true (int_eq x.pid y.pid) (bytes_eq x.identity y.identity) h in
    rw ((int_eq_iff x.pid y.pid).0 p, (bytes_eq_iff x.identity y.identity).0 i) k

holds-same :
    (x c : ProcessIdentity) (l : List ProcessIdentity)
    → holds x l ≡ true
    → same_process x c ≡ true
    → holds c l ≡ true
unfolding holds
holds-same x c [] h k = cc
holds-same x c (y ∷ l) h k = elim (or_true (same_process y x) (holds x l) h) [
  | inl e ↦ or_left _ (holds c l) (same_process_iff_left y x c e k)
  | inr e ↦ or_right (same_process y c) _ (holds-same x c l e k)
]

add_new_old :
    (c : ProcessIdentity) (into more : List ProcessIdentity)
    → holds c into ≡ true
    → holds c (add_new into more) ≡ true
unfolding add_new
add_new_old c into [] h = h
add_new_old c into (x ∷ more) h = elim (Bool-cases (holds x into)) [
  | inl e ↦ rw (e, add_new) (add_new_old c into more h)
  | inr e ↦
      rw (e, add_new)
        (add_new_old c (into ++ x ∷ []) more (holds-append c into (x ∷ []) ∙ or_left _ _ h))
]

add_new_new :
    (c : ProcessIdentity) (into more : List ProcessIdentity)
    → holds c more ≡ true
    → holds c (add_new into more) ≡ true
unfolding add_new holds
add_new_new c into [] h = cc
add_new_new c into (x ∷ more) h = elim (or_true (same_process x c) (holds c more) h) [
  | inl e ↦ elim (Bool-cases (holds x into)) [
    | inl k ↦ rw (k, add_new) (add_new_old c into more (holds-same x c into k e))
    | inr k ↦
        rw (k, add_new)
          (add_new_old c (into ++ x ∷ []) more
            (holds-append c into (x ∷ []) ∙ or_right (holds c into) _ (or_left _ false e)))
  ]
  | inr e ↦ add_new_new c (if holds x into then into else into ++ x ∷ []) more e
]

-- A merge holds what either list held.
pub holds-merge_identities :
    (c : ProcessIdentity) (into more : List ProcessIdentity)
    → (holds c into ≡ true) ⊎ (holds c more ≡ true)
    → holds c (merge_identities into more) ≡ true
unfolding merge_identities
holds-merge_identities c into more (inl h) =
    holds-sort_identities c (add_new into more) ∙ add_new_old c into more h
holds-merge_identities c into more (inr h) =
    holds-sort_identities c (add_new into more) ∙ add_new_new c into more h
