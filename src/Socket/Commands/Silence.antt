-- ===== src/Socket/Commands/Silence.antt =====
-- What the commands on the lists are for: which messages a connection receives afterwards.
use messenger_service_go.Prelude.{
  ◌≡◌, refl, ap, String, ◌==◌, eq_iff, eq_refl, true, false, ◌||◌, List, [], ◌∷◌, ◌++◌, arith,
  if◌then◌else◌,
}
use messenger_service_go.Common.{contains}
use messenger_service_go.Socket.Server.{Connection}
use messenger_service_go.Socket.Deliver.{passes_filter}
use messenger_service_go.Socket.Commands.{
  queue, queue_open, remove_first, black_listed, not_black_listed, white_listed, not_white_listed,
}

pub contains-append :
    (xs ys : List String) (x : String) → contains (xs ++ ys) x ≡ contains xs x || contains ys x
unfolding contains
contains-append [] ys x = refl
contains-append (z ∷ xs) ys x = ground (arith, contains-append xs ys x)

remove_first-append :
    (xs : List String) (x : String) → contains xs x ≡ false → remove_first x (xs ++ (x ∷ [])) ≡ xs
unfolding contains remove_first
remove_first-append [] x h = ground (arith, eq_refl x)
remove_first-append (y ∷ xs) x h = ground (arith, h, remove_first-append xs x)

black_listed-lists :
    (k : String) (c : Connection)
    → ((black_listed k c).black_list
        ≡ (if contains c.black_list k then c.black_list else c.black_list ++ (k ∷ [])))
      × ((black_listed k c).white_list ≡ c.white_list)
      × ((black_listed k c).mode ≡ c.mode)
unfolding black_listed queue_open queue
black_listed-lists k c = (ground arith, ground arith, ground arith)

white_listed-lists :
    (k : String) (c : Connection)
    → ((white_listed k c).white_list
        ≡ (if contains c.white_list k then c.white_list else c.white_list ++ (k ∷ [])))
      × ((white_listed k c).black_list ≡ c.black_list)
      × ((white_listed k c).mode ≡ c.mode)
unfolding white_listed queue_open queue
white_listed-lists k c = (ground arith, ground arith, ground arith)

not_black_listed-list :
    (k : String) (c : Connection)
    → (not_black_listed k c).black_list
      ≡ (if contains c.black_list k then remove_first k c.black_list else c.black_list)
unfolding not_black_listed queue_open queue
not_black_listed-list k c = ground arith

not_white_listed-list :
    (k : String) (c : Connection)
    → (not_white_listed k c).white_list
      ≡ (if contains c.white_list k then remove_first k c.white_list else c.white_list)
unfolding not_white_listed queue_open queue
not_white_listed-list k c = ground arith

-- The list with an item that a command put in, or that was there.
contains-added :
    (xs : List String) (k other : String)
    → contains (if contains xs k then xs else xs ++ (k ∷ [])) other
      ≡ k == other || contains xs other
contains-added xs k other = ground (arith, contains-append xs (k ∷ []) other, last k other, same)
  where
    last : (k other : String) → contains (k ∷ []) other ≡ (k == other)
    last k other = unfold contains in ground arith

    same : (k == other) ≡ true → contains xs k ≡ contains xs other
    same h = ap (contains xs) ((eq_iff k other).0 h)

added_then_removed :
    (xs ys : List String) (k : String)
    → contains xs k ≡ false
    → ys ≡ xs ++ (k ∷ [])
    → (contains ys k ≡ true) × (remove_first k ys ≡ xs)
added_then_removed xs ys k h e = (
  rw e (rw (contains-append xs (k ∷ []) k) (unfold contains in ground (arith, h, eq_refl k))),
  rw e (remove_first-append xs k h),
)

-- After a class was put on the blacklist, the filter of a connection in mode "BlackList" lets no
-- message of the class pass; after a class was put on the whitelist, the filter of one in mode
-- "WhiteList" lets its messages pass. Both are so whether or not the class was on the list before,
-- and the messages of other classes pass as before.
pub listed-passes_filter :
    (c : Connection) (class_id other : String)
    → (c.mode ≡ "BlackList"
        → passes_filter (black_listed class_id c) other
          ≡ (if class_id == other then false else passes_filter c other))
      × (c.mode ≡ "WhiteList"
          → passes_filter (white_listed class_id c) other
            ≡ (if class_id == other then true else passes_filter c other))
unfolding passes_filter
listed-passes_filter c class_id other = (
  λ h. ground (
    arith,
    h,
    black_listed-lists class_id c,
    contains-added c.black_list class_id other,
    ap (λ (l : List String). contains l other) (black_listed-lists class_id c).0,
    eq_iff c.mode "BlackList",
  ),
  λ h. ground (
    arith,
    h,
    white_listed-lists class_id c,
    contains-added c.white_list class_id other,
    ap (λ (l : List String). contains l other) (white_listed-lists class_id c).0,
    eq_iff c.mode "WhiteList",
    eq_iff c.mode "BlackList",
    eq_iff "WhiteList" "BlackList",
  ),
)

-- A class that was not on a list, was put on it and was taken off again leaves the list as it was,
-- the blacklist and the whitelist alike.
pub listed_undone :
    (c : Connection) (class_id : String)
    → (contains c.black_list class_id ≡ false
        → (not_black_listed class_id (black_listed class_id c)).black_list ≡ c.black_list)
      × (contains c.white_list class_id ≡ false
          → (not_white_listed class_id (white_listed class_id c)).white_list ≡ c.white_list)
listed_undone c k = (
  λ h. ground (
    arith,
    h,
    not_black_listed-list k (black_listed k c),
    black_listed-lists k c,
    added_then_removed c.black_list (black_listed k c).black_list k h,
  ),
  λ h. ground (
    arith,
    h,
    not_white_listed-list k (white_listed k c),
    white_listed-lists k c,
    added_then_removed c.white_list (white_listed k c).white_list k h,
  ),
)
