-- ===== src/Editor/Save/Calls.antt =====
-- Which requests a save makes.
use memos_note.Common.{
  if◌then◌else◌, Bool-cases, Option-cases, length, length-append, is_some, get_or_else, Text,
  text_eq, ℕ, suc, ◌+◌, ◌≤◌, ◌≡◌, refl, ap, ◌∙◌, inl, inr, Bool, true, false, Option, none, some,
  some-injective, List, [], ◌∷◌, ◌++◌, append-nil, arith,
}
use memos_note.Api.{Attachment, Memo}
use memos_note.Editor.State.{LocalFile, EditorState, editor_reducer}
use memos_note.Editor.Save.{
  DeepEqual, Timestamping, is_empty_mask, build_update_mask, from_memo, Call, create_attachment,
  get_memo, update_memo, create_memo, create_memo_comment, Service, Log, to_new_attachment, ◌>>=◌,
  upload_from, update_existing, is_named, create_new, after_upload, save,
}
use memos_note.Editor.Save.Changes.{build_update_mask-from_memo}

-- The requests that upload some files, the latest in front, put on a log.
pub uploads : List LocalFile → Log → Log
uploads [] log = log
uploads (f ∷ files) log = uploads files (create_attachment (to_new_attachment f) ∷ log)

-- The requests that write a memo, as opposed to those that upload or read.
abbrev is_write : Call → Bool
is_write (update_memo mask patch) = true
is_write (create_memo draft) = true
is_write (create_memo_comment parent draft) = true
is_write call = false

pub writes : List Call → ℕ
writes [] = 0
writes (call ∷ log) = if is_write call then suc (writes log) else writes log

module _ {ℓ κ} {A : Type ℓ} {B : Type κ} where
  >>=-none :
      (m : Log × Option A) (f : A → Log → Log × Option B) → m.1 ≡ none → (m >>= f) ≡ (m.0, none)
  >>=-none (log, none) f h = refl
  >>=-none (log, some a) f h = cc

  >>=-some :
      (m : Log × Option A) (f : A → Log → Log × Option B) {a : A}
      → m.1 ≡ some a
      → (m >>= f) ≡ f a m.0
  >>=-some (log, none) f h = cc
  >>=-some (log, some b) f h = ap (λ c. f c log) (some-injective _ _ h)

module _ (service : Service) where
  open service use {attachment_reply, memo_reply}

  -- If the files are uploaded, one request was made for each, in their order, and there are as many
  -- new attachments.
  pub upload_from-done :
      (made : List Attachment) (files : List LocalFile) (log : Log) (result : List Attachment)
      → (upload_from service made files log).1 ≡ some result
      → ((upload_from service made files log).0 ≡ uploads files log)
        × (length result ≡ length made + length files)
  unfolding upload_from uploads
  upload_from-done made [] log result h = ground arith
  upload_from-done made (f ∷ files) log result h =
      let log' = create_attachment (to_new_attachment f) ∷ log in
      elim (Option-cases (attachment_reply log')) [
        | inl e ↦ cc (rw e at h)
        | inr (a, e) ↦
            let (same, count) = upload_from-done (made ++ a ∷ []) files log' result (rw e at h) in
            (rw e same, omega (arith, count, length-append made (a ∷ [])))
      ]

  writes-upload_from :
      (made : List Attachment) (files : List LocalFile) (log : Log)
      → writes (upload_from service made files log).0 ≡ writes log
  unfolding upload_from writes
  writes-upload_from made [] log = refl
  writes-upload_from made (f ∷ files) log =
      let log' = create_attachment (to_new_attachment f) ∷ log in
      elim (Option-cases (attachment_reply log')) [
        | inl e ↦ rw e
        | inr (a, e) ↦ rw e (writes-upload_from (made ++ a ∷ []) files log')
      ]

  module _ (equal : DeepEqual) (times : Timestamping) where
    writes-update_existing :
        (s : EditorState) (all_attachments : List Attachment) (previous : Memo) (log : Log)
        → writes (update_existing service equal times s all_attachments previous log).0
          ≤ suc (writes log)
    unfolding update_existing writes
    writes-update_existing s all_attachments previous log = ground arith

    writes-create_new :
        (parent : Option Text) (s : EditorState) (all_attachments : List Attachment) (log : Log)
        → writes (create_new service equal times parent s all_attachments log).0 ≤ suc (writes log)
    unfolding create_new writes
    writes-create_new parent s all_attachments log = ground arith

    writes-after_upload :
        (s : EditorState) (memo_name parent : Option Text) (added : List Attachment) (log : Log)
        → writes (after_upload service equal times s memo_name parent added log).0
          ≤ suc (writes log)
    unfolding after_upload writes
    writes-after_upload s memo_name parent added log =
        let all_attachments = (s.metadata).attachments ++ added in
        let log' = get_memo (get_or_else memo_name []) ∷ log in
        elim (Bool-cases (is_named service equal times memo_name)) [
          | inr e ↦ rw e (writes-create_new parent s all_attachments log)
          | inl e ↦ elim (Option-cases (memo_reply log')) [
            | inl missing ↦ rw (e, missing) (omega arith)
            | inr (memo, found) ↦ rw (e, found) (writes-update_existing s all_attachments memo log')
          ]
        ]

    -- A save writes one memo at most, whatever the service answers; and none if a file could not be
    -- uploaded, in which case the save fails.
    pub writes-save :
        (s : EditorState) (memo_name parent : Option Text) (log : Log)
        → let (log', result) = save service equal times s memo_name parent log in
          writes log'
          ≤ writes log + (if is_some (upload_from service [] s.local_files log).1 then 1 else 0)
    unfolding save
    writes-save s memo_name parent log =
        elim (Option-cases (upload_from service [] s.local_files log).1) [
          | inl failed ↦
              rw
                (
                  >>=-none (upload_from service [] s.local_files log)
                      (after_upload service equal times s memo_name parent) failed,
                  failed,
                )
                (omega (arith, writes-upload_from [] s.local_files log))
          | inr (added, done) ↦
              rw
                (
                  >>=-some (upload_from service [] s.local_files log)
                      (after_upload service equal times s memo_name parent) done,
                  done,
                )
                (omega (
                  arith,
                  writes-upload_from [] s.local_files log,
                  writes-after_upload s memo_name parent added
                      (upload_from service [] s.local_files log).0,
                ))
        ]

    after_upload_of_no_changes :
        (s : EditorState) (memo : Memo) (parent : Option Text) (log : Log)
        → text_eq memo.name [] ≡ false
        → memo_reply (get_memo memo.name ∷ log) ≡ some memo
        → is_empty_mask (build_update_mask equal times memo s ((s.metadata).attachments ++ [])).0
          ≡ true
        → after_upload service equal times s (some memo.name) parent [] log
          ≡ (get_memo memo.name ∷ log, some (memo.name, false))
    unfolding after_upload update_existing
    after_upload_of_no_changes s memo parent log named reply no_changes =
        rw (named, reply, no_changes)

    save_of_no_changes :
        (s : EditorState) (memo : Memo) (parent : Option Text) (log : Log)
        → s.local_files ≡ []
        → text_eq memo.name [] ≡ false
        → memo_reply (get_memo memo.name ∷ log) ≡ some memo
        → is_empty_mask (build_update_mask equal times memo s ((s.metadata).attachments ++ [])).0
          ≡ true
        → save service equal times s (some memo.name) parent log
          ≡ (get_memo memo.name ∷ log, some (memo.name, false))
    unfolding save upload_from
    save_of_no_changes s memo parent log no_files named reply no_changes =
        >>=-some (upload_from service [] s.local_files log)
          (after_upload service equal times s (some memo.name) parent)
          (ap (λ files. (upload_from service [] files log).1) no_files)
        ∙ ap (after_upload service equal times s (some memo.name) parent [])
            (ap (λ files. (upload_from service [] files log).0) no_files)
        ∙ after_upload_of_no_changes s memo parent log named reply no_changes

    attachments-from_memo :
        (stored : Option (Option Text)) (before : EditorState) (memo : Memo)
        → ((editor_reducer stored before (from_memo equal times memo)).metadata).attachments ++ []
          ≡ memo.attachments
    unfolding editor_reducer from_memo
    attachments-from_memo stored before memo = append-nil memo.attachments

    local_files-from_memo :
        (stored : Option (Option Text)) (before : EditorState) (memo : Memo)
        → (editor_reducer stored before (from_memo equal times memo)).local_files
          ≡ before.local_files
    unfolding editor_reducer from_memo
    local_files-from_memo stored before memo = refl

    -- Saving a memo that was loaded into the editor and not touched reads it again and writes
    -- nothing; the result says that there were no changes.
    pub save-unchanged :
        (stored : Option (Option Text)) (before : EditorState) (memo : Memo) (parent : Option Text)
        (log : Log)
        → before.local_files ≡ []
        → text_eq memo.name [] ≡ false
        → memo_reply (get_memo memo.name ∷ log) ≡ some memo
        → save service equal times
            (editor_reducer stored before (from_memo equal times memo))
            (some memo.name)
            parent
            log
          ≡ (get_memo memo.name ∷ log, some (memo.name, false))
    save-unchanged stored before memo parent log no_files named reply =
        let s = editor_reducer stored before (from_memo equal times memo) in
        save_of_no_changes s memo parent log (local_files-from_memo stored before memo ∙ no_files)
          named reply
          (ap (λ attachments. is_empty_mask (build_update_mask equal times memo s attachments).0)
              (attachments-from_memo stored before memo)
            ∙ build_update_mask-from_memo equal times stored before memo)
