-- ===== src/Editor/State/Laws.antt =====
-- What the reducer keeps, and when a memo may be saved.
use memos_note.Common.{
  Bool-cases, is_some, any, all, filter, filter-append, Text, text_eq, text_eq_refl, is_blank, ◌≡◌,
  refl, ap, ◌∙◌, inl, inr, Bool, true, false, not, ◌||◌, Option, List, [], ◌∷◌, ◌++◌, append-nil,
  arith,
}
use memos_note.Editor.State.{
  saving, uploading, loading, LocalFile, Metadata, Timestamps, EditorState, EditorAction, init_memo,
  update_content, set_metadata, add_local_file, remove_local_file, set_local_files,
  toggle_focus_mode, set_loading, set_timestamps, set_recorder_busy, set_editor_mode, reset,
  editor_reducer, is_nil, can_save,
}

-- The actions of the editor one after the other.
pub run_actions : Option (Option Text) → EditorState → List EditorAction → EditorState
run_actions stored s [] = s
run_actions stored s (a ∷ rest) = run_actions stored (editor_reducer stored s a) rest

-- Whether something is on its way that a save has to wait for.
pub is_busy : EditorState → Bool
is_busy s =
    let flags = (s.ui).loading_flags in
    flags.is_loading || flags.is_uploading || flags.is_saving || s.recorder_busy

-- Whether there is something to save.
pub has_substance : EditorState → Bool
has_substance s =
    not (is_blank s.content) || not (is_nil (s.metadata).attachments) || not (is_nil s.local_files)

-- A memo may be saved exactly when there is something to save and nothing is on its way.
pub can_save_lem : (s : EditorState) → is_some (can_save s) ≡ (is_busy s || not (has_substance s))
unfolding can_save is_busy has_substance
can_save_lem s = ground arith

abbrev pub has_url : Text → LocalFile → Bool
has_url url f = text_eq f.preview_url url

without_url : Text → List LocalFile → List LocalFile
without_url url files = filter (λ f. not (has_url url f)) files

without_url-append_self :
    (url : Text) (f : LocalFile) (files : List LocalFile)
    → has_url url f ≡ true
    → without_url url (files ++ f ∷ []) ≡ without_url url files
unfolding without_url
without_url-append_self url f files h =
    filter-append (λ g. not (has_url url g)) files (f ∷ []) ∙ rw h (append-nil _)

any-without_url :
    (url : Text) (files : List LocalFile) → any (has_url url) (without_url url files) ≡ false
unfolding without_url
any-without_url url [] = refl
any-without_url url (f ∷ files) = elim (Bool-cases (has_url url f)) [
  | inl h ↦ rw h (any-without_url url files)
  | inr h ↦ rw (h, h) (any-without_url url files)
]

-- Adding a file and then removing the files with its address comes to removing those files, and
-- none with that address is left.
pub remove_local_file-add_local_file :
    (stored : Option (Option Text)) (s : EditorState) (f : LocalFile)
    → let s' =
        editor_reducer stored
          (editor_reducer stored s (add_local_file f))
          (remove_local_file f.preview_url) in
      (s' ≡ editor_reducer stored s (remove_local_file f.preview_url))
      × (any (has_url f.preview_url) s'.local_files ≡ false)
unfolding editor_reducer without_url
remove_local_file-add_local_file stored s f = (
  ap (λ files. record s { local_files = files })
      (without_url-append_self f.preview_url f s.local_files (text_eq_refl f.preview_url)),
  any-without_url f.preview_url (s.local_files ++ f ∷ []),
)

-- The actions on the mode, the flags and the files, as opposed to those on the memo.
unfoldable pub is_view_action : EditorAction → Bool
is_view_action (add_local_file f) = true
is_view_action (remove_local_file url) = true
is_view_action (set_local_files files) = true
is_view_action toggle_focus_mode = true
is_view_action (set_loading key value) = true
is_view_action (set_recorder_busy value) = true
is_view_action (set_editor_mode mode) = true
is_view_action a = false

-- Loading a memo into the editor and an action on the mode, the flags or the files come to the same
-- in either order.
pub init_memo_comm :
    (stored : Option (Option Text)) (s : EditorState) (a : EditorAction) (content : Text)
    (m : Metadata) (t : Timestamps)
    → is_view_action a ≡ true
    → editor_reducer stored (editor_reducer stored s (init_memo content m t)) a
      ≡ editor_reducer stored (editor_reducer stored s a) (init_memo content m t)
unfolding editor_reducer is_view_action
init_memo_comm stored s (add_local_file f) content m t h = refl
init_memo_comm stored s (remove_local_file url) content m t h = refl
init_memo_comm stored s (set_local_files files) content m t h = refl
init_memo_comm stored s toggle_focus_mode content m t h = refl
init_memo_comm stored s (set_loading key value) content m t h = refl
init_memo_comm stored s (set_recorder_busy value) content m t h = refl
init_memo_comm stored s (set_editor_mode mode) content m t h = refl
init_memo_comm stored s _ content m t h = cc

-- The actions that end a save.
unfoldable pub ends_saving : EditorAction → Bool
ends_saving (set_loading saving false) = true
ends_saving reset = true
ends_saving a = false

is_saving_now : EditorState → Bool
is_saving_now s = ((s.ui).loading_flags).is_saving

is_saving-step :
    (stored : Option (Option Text)) (s : EditorState) (a : EditorAction)
    → is_saving_now s ≡ true
    → ends_saving a ≡ false
    → is_saving_now (editor_reducer stored s a) ≡ true
unfolding editor_reducer ends_saving is_saving_now
is_saving-step stored s (set_loading saving value) h k = ground arith
is_saving-step stored s (set_loading uploading value) h k = h
is_saving-step stored s (set_loading loading value) h k = h
is_saving-step stored s reset h k = cc
is_saving-step stored s (init_memo c m t) h k = h
is_saving-step stored s (update_content c) h k = h
is_saving-step stored s (set_metadata p) h k = h
is_saving-step stored s (add_local_file f) h k = h
is_saving-step stored s (remove_local_file url) h k = h
is_saving-step stored s (set_local_files files) h k = h
is_saving-step stored s toggle_focus_mode h k = h
is_saving-step stored s (set_timestamps p) h k = h
is_saving-step stored s (set_recorder_busy value) h k = h
is_saving-step stored s (set_editor_mode mode) h k = h

is_saving-run :
    (stored : Option (Option Text)) (s : EditorState) (actions : List EditorAction)
    → is_saving_now s ≡ true
    → all (λ a. not (ends_saving a)) actions ≡ true
    → is_saving_now (run_actions stored s actions) ≡ true
unfolding run_actions
is_saving-run stored s [] h k = h
is_saving-run stored s (a ∷ rest) h k =
    is_saving-run stored (editor_reducer stored s a) rest
      (is_saving-step stored s a h (ground arith)) (ground arith)

busy_of_saving :
    (s : EditorState)
    → ((s.ui).loading_flags).is_saving ≡ true
    → (is_busy s || not (has_substance s)) ≡ true
unfolding is_busy
busy_of_saving s h = ground arith

-- Once the saving flag is set no further save is allowed, whatever is typed, uploaded, recorded or
-- loaded meanwhile, until the flag is taken back or the editor is reset.
pub can_save-while_saving :
    (stored : Option (Option Text)) (s : EditorState) (actions : List EditorAction)
    → all (λ a. not (ends_saving a)) actions ≡ true
    → is_some
        (can_save (run_actions stored (editor_reducer stored s (set_loading saving true)) actions))
      ≡ true
unfolding is_saving_now editor_reducer
can_save-while_saving stored s actions h =
    let started = editor_reducer stored s (set_loading saving true) in
    let later = run_actions stored started actions in
    can_save_lem later ∙ busy_of_saving later (is_saving-run stored started actions refl h)
