-- ===== src/Memos/Queries/Laws.antt =====
-- Patching and finding, and patching back.
use memos_note.Common.{
  if◌then◌else◌, Bool-cases, get_or_else, or_else, find, All, map_option, Text, text_eq,
  text_eq_sound, ◌≡◌, refl, sym, ap, ap₂, ◌∙◌, inl, inr, Bool, true, false, ◌||◌, Option, none,
  some, List, [], ◌∷◌, map,
}
use memos_note.Api.{Memo}
use memos_note.Memos.Queries.{
  ListMemosResponse, QueryData, memo_list, infinite, other, MemoPatch, whole, merge, patch_memos,
  patch_memo_list_response, patch_pages, patch_memo_list_query_data, find_memo_in_list_response,
  find_memo_in_pages, find_memo_in_query_data,
}

-- What a patch makes of one memo.
abbrev pub patched : MemoPatch → Memo → Memo
patched update memo = if text_eq memo.name update.name then merge memo update else memo

unchanged {ℓ} :
    {A : Type ℓ} (b : Bool) (x y : A) (c : Bool)
    → (if◌then◌else◌ {A = A × Bool} b (x, true) (y, c)).1 ≡ false
    → (b ≡ false) × (c ≡ false)
unchanged true x y c h = cc
unchanged false x y c h = (refl, h)

neither : (b c : Bool) → (b || c) ≡ false → (b ≡ false) × (c ≡ false)
neither true c h = cc
neither false c h = (refl, h)

patch_memos-map :
    (update : MemoPatch) (ms : List Memo) → (patch_memos update ms).0 ≡ map (patched update) ms
unfolding patch_memos
patch_memos-map update [] = refl
patch_memos-map update (m ∷ ms) = elim (Bool-cases (text_eq m.name update.name)) [
  | inl h ↦ rw h (ap (λ r. merge m update ∷ r) (patch_memos-map update ms))
  | inr h ↦ rw h (ap (λ r. m ∷ r) (patch_memos-map update ms))
]

patch_memos-same :
    (update : MemoPatch) (ms : List Memo)
    → (patch_memos update ms).1 ≡ false
    → (patch_memos update ms).0 ≡ ms
unfolding patch_memos
patch_memos-same update [] h = refl
patch_memos-same update (m ∷ ms) h =
    let (kept, same) = unchanged (text_eq m.name update.name) _ _ _ h in
    rw kept (ap (λ r. m ∷ r) (patch_memos-same update ms same))

-- A response with every memo replaced.
abbrev pub with_memos : (Memo → Memo) → ListMemosResponse → ListMemosResponse
with_memos f r = record r { memos = map f r.memos }

response-patched :
    (update : MemoPatch) (r : ListMemosResponse)
    → (patch_memo_list_response update r).0 ≡ with_memos (patched update) r
unfolding patch_memo_list_response
response-patched update r = elim (Bool-cases (patch_memos update r.memos).1) [
  | inl h ↦ rw h (ap (λ ms. record r { memos = ms }) (patch_memos-map update r.memos))
  | inr h ↦ rw h (
      ap (λ ms. record r { memos = ms })
        (sym (patch_memos-same update r.memos h) ∙ patch_memos-map update r.memos))
]

response-same :
    (update : MemoPatch) (r : ListMemosResponse)
    → (patch_memo_list_response update r).1 ≡ false
    → (patch_memo_list_response update r).0 ≡ r
unfolding patch_memo_list_response
response-same update r h = rw (unchanged (patch_memos update r.memos).1 _ _ _ h).0 refl

pages-patched :
    (update : MemoPatch) (rs : List ListMemosResponse)
    → (patch_pages update rs).0 ≡ map (with_memos (patched update)) rs
unfolding patch_pages
pages-patched update [] = refl
pages-patched update (r ∷ rs) =
    ap₂ (λ x xs. x ∷ xs) (response-patched update r) (pages-patched update rs)

pages-same :
    (update : MemoPatch) (rs : List ListMemosResponse)
    → (patch_pages update rs).1 ≡ false
    → (patch_pages update rs).0 ≡ rs
unfolding patch_pages
pages-same update [] h = refl
pages-same update (r ∷ rs) h =
    ap₂ (λ x xs. x ∷ xs) (response-same update r (neither _ _ h).0)
      (pages-same update rs (neither _ _ h).1)

-- Data with every memo replaced.
abbrev pub with_each : (Memo → Memo) → QueryData → QueryData
with_each f (memo_list response) = memo_list (with_memos f response)
with_each f (infinite pages) = infinite (map (with_memos f) pages)
with_each f other = other

data-patched :
    (update : MemoPatch) (data' : QueryData)
    → patch_memo_list_query_data (some data') update ≡ some (with_each (patched update) data')
unfolding patch_memo_list_query_data
data-patched update (memo_list r) = ap (λ x. some (memo_list x)) (response-patched update r)
data-patched update other = refl
data-patched update (infinite pages) = elim (Bool-cases (patch_pages update pages).1) [
  | inl h ↦ rw h (ap (λ x. some (infinite x)) (pages-patched update pages))
  | inr h ↦
      rw h
        (ap (λ x. some (infinite x)) (sym (pages-same update pages h) ∙ pages-patched update pages))
]

patched-name :
    (update : MemoPatch) (m : Memo) (name : Text)
    → text_eq (patched update m).name name ≡ text_eq m.name name
unfolding merge
patched-name update m name = elim (Bool-cases (text_eq m.name update.name)) [
  | inl h ↦ rw h (ap (λ n. text_eq n name) (sym (text_eq_sound m.name update.name h)))
  | inr h ↦ rw h refl
]

find-map {ℓ} :
    {A : Type ℓ} (p : A → Bool) (f : A → A)
    → ((x : A) → p (f x) ≡ p x)
    → (xs : List A) → find p (map f xs) ≡ map_option f (find p xs)
find-map p f h [] = refl
find-map p f h (x ∷ xs) = elim (Bool-cases (p x)) [
  | inl e ↦ rw (h x) (rw e refl)
  | inr e ↦ rw (h x) (rw e (find-map p f h xs))
]

or_else-map_option {ℓ} :
    {A : Type ℓ} (f : A → A) (a b : Option A)
    → or_else (map_option f a) (map_option f b) ≡ map_option f (or_else a b)
or_else-map_option f none b = refl
or_else-map_option f (some x) b = refl

find_in_pages-with_memos :
    (update : MemoPatch) (name : Text) (rs : List ListMemosResponse)
    → find_memo_in_pages (map (with_memos (patched update)) rs) name
      ≡ map_option (patched update) (find_memo_in_pages rs name)
unfolding find_memo_in_pages find_memo_in_list_response
find_in_pages-with_memos update name [] = refl
find_in_pages-with_memos update name (r ∷ rs) =
    ap₂ or_else
      (find-map (λ m. text_eq m.name name) (patched update) (λ m. patched-name update m name)
        r.memos)
      (find_in_pages-with_memos update name rs)
    ∙ or_else-map_option (patched update) _ _

-- In data of either shape, what is found under a name after a patch is what was found before, with
-- the fields of the patch if the name is the patch's, and untouched otherwise.
pub find-patch_memo_list_query_data :
    (update : MemoPatch) (data' : Option QueryData) (name : Text)
    → find_memo_in_query_data (patch_memo_list_query_data data' update) name
      ≡ map_option (patched update) (find_memo_in_query_data data' name)
unfolding find_memo_in_query_data find_memo_in_list_response patch_memo_list_query_data
find-patch_memo_list_query_data update none name = refl
find-patch_memo_list_query_data update (some d) name =
    ap (λ o. find_memo_in_query_data o name) (data-patched update d) ∙ found d
  where
    found :
        (d : QueryData)
        → find_memo_in_query_data (some (with_each (patched update) d)) name
          ≡ map_option (patched update) (find_memo_in_query_data (some d) name)
    found (memo_list r) =
        find-map (λ m. text_eq m.name name) (patched update) (λ m. patched-name update m name)
          r.memos
    found (infinite pages) = find_in_pages-with_memos update name pages
    found other = refl

-- Of a memo that has the name of another: it is that other.
abbrev pub IsCopyOf : Memo → Memo → Type 0
IsCopyOf previous m = (if text_eq m.name previous.name then m else previous) ≡ previous

-- What is left of a memo when a patch of it is taken back: a field that was unset keeps the patch's.
abbrev pub left_after : MemoPatch → Memo → Memo
left_after update previous = record previous {
  create_time = or_else previous.create_time (get_or_else update.create_time none);
  update_time = or_else previous.update_time (get_or_else update.update_time none);
  property = or_else previous.property (get_or_else update.property none);
  parent = or_else previous.parent (get_or_else update.parent none);
  location = or_else previous.location (get_or_else update.location none);
}

unset_kept {ℓ} :
    {A : Type ℓ} (old : Option A) (new : Option (Option A))
    → get_or_else (map_option some old) (get_or_else new old) ≡ or_else old (get_or_else new none)
unset_kept none new = refl
unset_kept (some x) new = refl

merge-back :
    (update : MemoPatch) (previous : Memo)
    → merge (merge previous update) (whole previous) ≡ left_after update previous
unfolding merge whole
merge-back update previous = rw (unset_kept previous.create_time update.create_time) (
    rw (unset_kept previous.update_time update.update_time) (
      rw (unset_kept previous.property update.property) (
        rw (unset_kept previous.parent update.parent)
          (rw (unset_kept previous.location update.location) refl))))

-- A memo after the patch and the roll-back.
abbrev pub rolled_back : MemoPatch → Memo → Memo → Memo
rolled_back update previous m =
    if text_eq m.name previous.name then left_after update previous else m

patched_back :
    (update : MemoPatch) (previous m : Memo)
    → update.name ≡ previous.name
    → IsCopyOf previous m
    → patched (whole previous) (patched update m) ≡ rolled_back update previous m
unfolding whole
patched_back update previous m h k =
    let x = patched update m in
    let named = patched-name update m previous.name in
    let here = ap (text_eq m.name) h in
    elim (Bool-cases (text_eq m.name previous.name)) [
      | inl e ↦
          let m-previous : m ≡ previous = ap (λ b. if b then m else previous) (sym e) ∙ k in
          ap (λ b. if b then merge x (whole previous) else x) (named ∙ e)
          ∙ (ap (λ b. merge (if b then merge m update else m) (whole previous)) (here ∙ e)
              ∙ (ap (λ n. merge (merge n update) (whole previous)) m-previous
                  ∙ (merge-back update previous
                      ∙ ap (λ b. if b then left_after update previous else m) (sym e))))
      | inr e ↦
          ap (λ b. if b then merge x (whole previous) else x) (named ∙ e)
          ∙ (ap (λ b. if b then merge m update else m) (here ∙ e)
              ∙ ap (λ b. if b then left_after update previous else m) (sym e))
    ]

map-map {ℓ κ} :
    {A : Type ℓ} (P : A → Type κ) (f g k : A → A)
    → ((x : A) → P x → g (f x) ≡ k x)
    → (xs : List A) → All P xs
    → map g (map f xs) ≡ map k xs
map-map P f g k h [] _ = refl
map-map P f g k h (x ∷ xs) (p, ps) = ap₂ (λ y ys. y ∷ ys) (h x p) (map-map P f g k h xs ps)

-- The copies of a memo in some data.
abbrev pub AllCopies : Memo → QueryData → Type 0
AllCopies previous (memo_list r) = All (IsCopyOf previous) r.memos
AllCopies previous (infinite pages) = All (λ r. All (IsCopyOf previous) r.memos) pages
AllCopies previous other = Unit

-- An optimistic patch of a memo is taken back by patching with the memo from before, of which every
-- memo of that name in the data was a copy: the memos of that name are then as before, but for a
-- time, a property, a parent or a location that was unset and that the patch has set, which stays;
-- all other memos are as they were.
pub patch_memo_list_query_data-back :
    (update : MemoPatch) (previous : Memo) (d : QueryData)
    → update.name ≡ previous.name
    → AllCopies previous d
    → patch_memo_list_query_data (patch_memo_list_query_data (some d) update) (whole previous)
      ≡ some (with_each (rolled_back update previous) d)
patch_memo_list_query_data-back update previous d h k =
    ap (λ o. patch_memo_list_query_data o (whole previous)) (data-patched update d)
    ∙ (data-patched (whole previous) (with_each (patched update) d) ∙ ap some (back d k))
  where
    in_list :
        (ms : List Memo)
        → All (IsCopyOf previous) ms
        → map (patched (whole previous)) (map (patched update) ms)
          ≡ map (rolled_back update previous) ms
    in_list =
        map-map (IsCopyOf previous) (patched update) (patched (whole previous))
          (rolled_back update previous) (λ m c. patched_back update previous m h c)

    back :
        (d : QueryData)
        → AllCopies previous d
        → with_each (patched (whole previous)) (with_each (patched update) d)
          ≡ with_each (rolled_back update previous) d
    back (memo_list r) k = ap (λ ms. memo_list (record r { memos = ms })) (in_list r.memos k)
    back (infinite pages) k = ap infinite (
        map-map (λ r. All (IsCopyOf previous) r.memos) (with_memos (patched update))
          (with_memos (patched (whole previous))) (with_memos (rolled_back update previous))
          (λ r c. ap (λ ms. record r { memos = ms }) (in_list r.memos c)) pages k)
    back other k = refl
