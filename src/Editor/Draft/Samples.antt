-- ===== src/Editor/Draft/Samples.antt =====
-- A writer with one draft.
use memos_note.Common.{
  if◌then◌else◌, Text, codes, text_eq, is_blank, ◌≡◌, refl, none, List, [], ◌∷◌,
}
use memos_note.Editor.Draft.{
  get_key, set_key, delete_key, no_drafts, clear_timeout, clear_pending, write_entry, save,
  save_now, clear, run_timer, fire, load, is_discarded, persist, on_store_change, flush_draft,
  discard_draft,
}
use memos_note.Editor.Draft.Timers.{IsKeyed, no_drafts-IsKeyed}
use memos_note.Editor.Draft.View.{clears_all, apply, view, fired, account, view-apply}
use memos_note.Editor.Draft.Wishes.{
  Action, changes, flushes, discards, runs_timer, wishes, wanted_view, perform_all,
}
use memos_note.Editor.Draft.Discarding.{mount, first_wish, flush_draft-perform_all}
use memos_note.Editor.Draft.Loading.{load-save_now}

abbrev writer_key : Text
writer_key = codes "ann-home"

abbrev day : List Action
day = changes (codes "a") ∷ runs_timer 2 ∷ discards ∷ flushes ∷ changes (codes "ab") ∷ []

saved_day :
    (flush_draft writer_key
      (perform_all writer_key day (mount writer_key [] no_drafts))).drafts.storage
    ≡ (writer_key, codes "ab") ∷ []
unfolding flush_draft persist on_store_change discard_draft is_discarded save save_now clear fire
    run_timer write_entry get_key set_key delete_key clear_pending clear_timeout
saved_day = refl

view-apply_example :
    IsKeyed (apply clears_all no_drafts)
    × (view (apply clears_all no_drafts) writer_key
        ≡ account clears_all (fired clears_all no_drafts) writer_key (view no_drafts writer_key))
view-apply_example = view-apply clears_all no_drafts writer_key no_drafts-IsKeyed

flush_draft-perform_all_example :
    view
      (flush_draft writer_key (perform_all writer_key day (mount writer_key [] no_drafts))).drafts
      writer_key
    ≡ wanted_view (wishes day (first_wish writer_key []))
flush_draft-perform_all_example =
    flush_draft-perform_all writer_key day [] no_drafts no_drafts-IsKeyed

load-save_now_example :
    load (λ raw. none) writer_key (save_now writer_key (codes "x") no_drafts) ≡ (
      if text_eq writer_key writer_key
      then (if is_blank (codes "x") then [] else codes "x")
      else load (λ raw. none) writer_key no_drafts)
load-save_now_example = load-save_now (λ raw. none) writer_key writer_key (codes "x") no_drafts refl
