-- ===== src/Editor/Draft.antt =====
-- Drafts kept in the browser: `cacheService` of
-- web/src/components/MemoEditor/services/cacheService.ts and `useAutoSave` of
-- web/src/components/MemoEditor/hooks/useAutoSave.ts. A timer is the callback that
-- `window.setTimeout` holds; which one runs next is the browser's choice, so `fire` takes its id.
-- `JSON.parse` is a parameter, which gives the three fields of the object that it reads.
pub mod Timers
pub mod Keyed
pub mod Loading
pub mod View
pub mod Wishes
pub mod Discarding
mod Samples
use memos_note.Common.{
  ◌==◌, if◌then◌else◌, is_some, get_or_else, filter, find, Text, codes, text_eq, is_blank, ℕ, suc,
  ◌-◌, Bool, false, not, ◌&&◌, Option, none, some, List, [], ◌∷◌, ◌++◌,
}

-- A `Map`, in the order of insertion.
module _ {ℓ} {A : Type ℓ} where
  unfoldable pub get_key : Text → List (Text × A) → Option A
  get_key k [] = none
  get_key k ((k', a) ∷ m) = let rest = get_key k m in if text_eq k' k then some a else rest

  unfoldable pub set_key : Text → A → List (Text × A) → List (Text × A)
  set_key k a [] = (k, a) ∷ []
  set_key k a ((k', a') ∷ m) =
      let rest = set_key k a m in if text_eq k' k then (k', a) ∷ m else (k', a') ∷ rest

  unfoldable pub delete_key : Text → List (Text × A) → List (Text × A)
  delete_key k [] = []
  delete_key k ((k', a') ∷ m) =
      let rest = delete_key k m in if text_eq k' k then rest else (k', a') ∷ rest

pub record Timer : Type 0 where
  pub id : ℕ
  pub key : Text
  pub content : Text

pub record Drafts : Type 0 where
  pub storage : List (Text × Text)
  pub pending_saves : List (Text × ℕ)
  pub timers : List Timer
  pub next_id : ℕ

abbrev pub no_drafts : Drafts
no_drafts = record { storage = []; pending_saves = []; timers = []; next_id = 1 }

-- `clearTimeout`
unfoldable pub clear_timeout : ℕ → List Timer → List Timer
clear_timeout i ts = filter (λ t. not (t.id == i)) ts

unfoldable pub clear_pending : Option ℕ → List Timer → List Timer
clear_pending none ts = ts
clear_pending (some i) ts = clear_timeout i ts

unfoldable pub write_entry : Text → Text → List (Text × Text) → List (Text × Text)
write_entry key content storage =
    if is_blank content then delete_key key storage else set_key key content storage

unfoldable pub draft_key : Text → Option Text → Text
draft_key username cache_key = username ++ codes "-" ++ get_or_else cache_key []

unfoldable pub save : Text → Text → Drafts → Drafts
save key content d = record d {
  pending_saves = set_key key d.next_id d.pending_saves;
  timers =
      clear_pending (get_key key d.pending_saves) d.timers
      ++ (record { id = d.next_id; key = key; content = content } ∷ []);
  next_id = suc d.next_id;
}

unfoldable pub save_now : Text → Text → Drafts → Drafts
save_now key content d = record d {
  storage = write_entry key content d.storage;
  pending_saves = delete_key key d.pending_saves;
  timers = clear_pending (get_key key d.pending_saves) d.timers;
}

unfoldable pub clear : Text → Drafts → Drafts
clear key d = record d {
  storage = delete_key key d.storage;
  pending_saves = delete_key key d.pending_saves;
  timers = clear_pending (get_key key d.pending_saves) d.timers;
}

unfoldable pub clear_timeouts : List (Text × ℕ) → List Timer → List Timer
clear_timeouts [] ts = ts
clear_timeouts ((k, i) ∷ m) ts = clear_timeouts m (clear_timeout i ts)

unfoldable pub clear_all : Drafts → Drafts
clear_all d = record d { pending_saves = []; timers = clear_timeouts d.pending_saves d.timers }

-- The callback of a timer, which is then gone.
unfoldable pub run_timer : Option Timer → Drafts → Drafts
run_timer none d = d
run_timer (some t) d = record d {
  storage = write_entry t.key t.content d.storage;
  pending_saves = delete_key t.key d.pending_saves;
  timers = clear_timeout t.id d.timers;
}

unfoldable pub fire : ℕ → Drafts → Drafts
fire i d = run_timer (find (λ t. t.id == i) d.timers) d

pub record Envelope : Type 0 where
  pub kind : Option Text
  pub version : Option ℕ
  pub content : Option Text

unfoldable pub is_cache_entry : Envelope → Bool
is_cache_entry e =
    text_eq (get_or_else e.kind []) (codes "memos.editor-cache")
    && (get_or_else e.version 0 == 1)
    && is_some e.content

unfoldable pub content_or_raw : Text → Option Envelope → Text
content_or_raw raw none = raw
content_or_raw raw (some e) = if is_cache_entry e then get_or_else e.content raw else raw

module _ (parse : Text → Option Envelope) where
  unfoldable pub deserialize_content : Text → Text
  deserialize_content raw = content_or_raw raw (parse raw)

  -- An empty entry is falsy.
  unfoldable pub read_entry : Option Text → Text
  read_entry none = []
  read_entry (some []) = []
  read_entry (some (c ∷ s)) = deserialize_content (c ∷ s)

  unfoldable pub load : Text → Drafts → Text
  load key d = read_entry (get_key key d.storage)

-- The hook's two refs beside the drafts.
pub record AutoSave : Type 0 where
  pub latest_content : Text
  pub discarded_content : Option Text
  pub drafts : Drafts

unfoldable pub is_discarded : Option Text → Text → Bool
is_discarded none content = false
is_discarded (some discarded) content = text_eq discarded content

module _ (key : Text) where
  unfoldable pub persist : Text → AutoSave → AutoSave
  persist content a = record {
    latest_content = content;
    discarded_content =
        if is_discarded a.discarded_content content then a.discarded_content else none;
    drafts = save key content a.drafts;
  }

  -- The listener on the editor's store.
  unfoldable pub on_store_change : Text → AutoSave → AutoSave
  on_store_change content a = if text_eq content a.latest_content then a else persist content a

  unfoldable pub flush_draft : AutoSave → AutoSave
  flush_draft a =
      if is_discarded a.discarded_content a.latest_content
      then a
      else record a { drafts = save_now key a.latest_content a.drafts }

  unfoldable pub discard_draft : AutoSave → AutoSave
  discard_draft a = record a {
    discarded_content = some a.latest_content;
    drafts = clear key a.drafts;
  }
