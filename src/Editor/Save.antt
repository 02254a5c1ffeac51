-- ===== src/Editor/Save.antt =====
-- web/src/components/MemoEditor/services/{memoService,uploadService}.ts. The service, the
-- conversion of dates and the deep comparison are interfaces; the set of changed paths is a record
-- of flags, since the order of its members carries no meaning.
pub mod Changes
pub mod Calls
mod Samples
use memos_note.Common.{
  if◌then◌else◌, get_or_else, map_option, Text, text_eq, ℕ, ◌≡◌, ◌↔◌, Bool, true, false, not, ◌&&◌,
  ◌||◌, Option, none, some, List, [], ◌∷◌, ◌++◌,
}
use memos_note.Api.{Timestamp, Visibility, MotionMedia, Attachment, MemoRelation, Location, Memo}
use memos_note.Editor.State.{LocalFile, EditorState, EditorAction, init_memo}

-- `isEqual` at the types that it is called at: it tells apart what is different.
pub record DeepEqual : Type 0 where
  pub texts : Text → Text → Bool
  pub visibilities : Visibility → Visibility → Bool
  pub attachment_lists : List Attachment → List Attachment → Bool
  pub relation_lists : List MemoRelation → List MemoRelation → Bool
  pub locations : Option Location → Option Location → Bool
  pub dates : Option ℕ → Option ℕ → Bool
  pub texts_iff : (a b : Text) → (texts a b ≡ true) ↔ (a ≡ b)
  pub visibilities_iff : (a b : Visibility) → (visibilities a b ≡ true) ↔ (a ≡ b)
  pub attachment_lists_iff : (a b : List Attachment) → (attachment_lists a b ≡ true) ↔ (a ≡ b)
  pub relation_lists_iff : (a b : List MemoRelation) → (relation_lists a b ≡ true) ↔ (a ≡ b)
  pub locations_iff : (a b : Option Location) → (locations a b ≡ true) ↔ (a ≡ b)
  pub dates_iff : (a b : Option ℕ) → (dates a b ≡ true) ↔ (a ≡ b)

-- `timestampDate` and `timestampFromDate`
pub record Timestamping : Type 0 where
  pub timestamp_date : Timestamp → ℕ
  pub timestamp_from_date : ℕ → Timestamp
  pub date-from_date : (ms : ℕ) → timestamp_date (timestamp_from_date ms) ≡ ms

pub record Mask : Type 0 where
  pub has_content : Bool
  pub has_visibility : Bool
  pub has_attachments : Bool
  pub has_relations : Bool
  pub has_location : Bool
  pub has_update_time : Bool
  pub has_create_time : Bool

pub record MemoPatch : Type 0 where
  pub name : Text
  pub content : Text
  pub visibility : Option Visibility
  pub attachments : Option (List Attachment)
  pub relations : Option (List MemoRelation)
  pub location : Option (Option Location)
  pub create_time : Option Timestamp
  pub update_time : Option Timestamp

-- `mask.size === 0`
abbrev pub is_empty_mask : Mask → Bool
is_empty_mask m =
    not m.has_content
    && not m.has_visibility
    && not m.has_attachments
    && not m.has_relations
    && not m.has_location
    && not m.has_update_time
    && not m.has_create_time

-- An attachment of which only the name is given.
abbrev pub to_reference : Attachment → Attachment
to_reference a = record {
  name = a.name;
  create_time = none;
  filename = [];
  content = [];
  external_link = [];
  type = [];
  size = 0;
  memo = none;
  motion_media = none;
}

abbrev pub to_attachment_references : List Attachment → List Attachment
to_attachment_references [] = []
to_attachment_references (a ∷ as') = to_reference a ∷ to_attachment_references as'

abbrev pub when {ℓ} : {A : Type ℓ} → Bool → A → Option A
when true a = some a
when false a = none

module _ (equal : DeepEqual) (times : Timestamping) where
  open equal use {texts, visibilities, attachment_lists, relation_lists, locations, dates}
  open times use {timestamp_date, timestamp_from_date}

  -- Whether a custom date is given that the memo does not have yet.
  abbrev pub is_new_date : Option ℕ → Option Timestamp → Bool
  is_new_date none previous = false
  is_new_date (some date) previous = not (dates (some date) (map_option timestamp_date previous))

  abbrev pub date_patch : Option ℕ → Option Timestamp → Option Timestamp
  date_patch none previous = none
  date_patch (some date) previous =
      when (is_new_date (some date) previous) (timestamp_from_date date)

  unfoldable pub build_update_mask : Memo → EditorState → List Attachment → Mask × MemoPatch
  build_update_mask memo s all_attachments =
      let new_content = not (texts s.content memo.content) in
      let new_visibility = not (visibilities (s.metadata).visibility memo.visibility) in
      let new_attachments = not (attachment_lists all_attachments memo.attachments) in
      let new_relations = not (relation_lists (s.metadata).relations memo.relations) in
      let new_location = not (locations (s.metadata).location memo.location) in
      (
        record {
          has_content = new_content;
          has_visibility = new_visibility;
          has_attachments = new_attachments;
          has_relations = new_relations;
          has_location = new_location;
          has_update_time =
              (new_content || new_attachments || new_relations || new_location)
              || is_new_date (s.timestamps).update_time memo.update_time;
          has_create_time = is_new_date (s.timestamps).create_time memo.create_time;
        },
        record {
          name = memo.name;
          content = s.content;
          visibility = when new_visibility (s.metadata).visibility;
          attachments = when new_attachments (to_attachment_references all_attachments);
          relations = when new_relations (s.metadata).relations;
          location = when new_location (s.metadata).location;
          create_time = date_patch (s.timestamps).create_time memo.create_time;
          update_time = date_patch (s.timestamps).update_time memo.update_time;
        },
      )

  -- `fromMemo`, as the action that loads it
  unfoldable pub from_memo : Memo → EditorAction
  from_memo memo =
      init_memo memo.content
        (record {
          visibility = memo.visibility;
          attachments = memo.attachments;
          relations = memo.relations;
          location = memo.location;
        })
        (record {
          create_time = map_option timestamp_date memo.create_time;
          update_time = map_option timestamp_date memo.update_time;
        })

-- The requests that a save makes, and what the service answers to each after those before it,
-- `none` where the request fails.
pub record NewAttachment : Type 0 where
  pub filename : Text
  pub size : ℕ
  pub type : Text
  pub content : ℕ
  pub motion_media : Option MotionMedia

pub record MemoDraft : Type 0 where
  pub content : Text
  pub visibility : Visibility
  pub attachments : List Attachment
  pub relations : List MemoRelation
  pub location : Option Location
  pub create_time : Option Timestamp
  pub update_time : Option Timestamp

pub data Call : Type 0 where
  create_attachment : NewAttachment → Call
  get_memo : Text → Call
  update_memo : Mask → MemoPatch → Call
  create_memo : MemoDraft → Call
  create_memo_comment : Text → MemoDraft → Call

pub record Service : Type 0 where
  pub attachment_reply : List Call → Option Attachment
  pub memo_reply : List Call → Option Memo

-- A request is put in front of the log, and answered.
abbrev pub Log : Type 0
Log = List Call

abbrev pub to_new_attachment : LocalFile → NewAttachment
to_new_attachment f = record {
  filename = f.file_name;
  size = f.file_size;
  type = f.file_type;
  content = f.file_content;
  motion_media = f.motion_media;
}

infixl 5 ◌>>=◌
abbrev pub ◌>>=◌ {ℓ κ} :
    {A : Type ℓ} {B : Type κ} → Log × Option A → (A → Log → Log × Option B) → Log × Option B
(log, none) >>= f = (log, none)
(log, some a) >>= f = f a log

module _ (service : Service) where
  open service use {attachment_reply, memo_reply}

  abbrev pub request_memo : Call → Log → Log × Option Memo
  request_memo call log = (call ∷ log, memo_reply (call ∷ log))

  abbrev pub request_attachment : LocalFile → Log → Log × Option Attachment
  request_attachment f log =
      let log' = create_attachment (to_new_attachment f) ∷ log in (log', attachment_reply log')

  -- `uploadFiles`, with the attachments made so far
  unfoldable pub upload_from :
      List Attachment → List LocalFile → Log → Log × Option (List Attachment)
  upload_from made [] log = (log, some made)
  upload_from made (f ∷ files) log =
      request_attachment f log >>= λ a log'. upload_from (made ++ a ∷ []) files log'

  module _ (equal : DeepEqual) (times : Timestamping) where
    abbrev pub to_draft : EditorState → List Attachment → MemoDraft
    to_draft s all_attachments = record {
      content = s.content;
      visibility = (s.metadata).visibility;
      attachments = to_attachment_references all_attachments;
      relations = (s.metadata).relations;
      location = (s.metadata).location;
      create_time = map_option times.timestamp_from_date (s.timestamps).create_time;
      update_time = map_option times.timestamp_from_date (s.timestamps).update_time;
    }

    -- The name of the saved memo, and whether there were changes.
    abbrev pub saved : Memo → Log → Log × Option (Text × Bool)
    saved memo log = (log, some (memo.name, true))

    unfoldable pub update_existing :
        EditorState → List Attachment → Memo → Log → Log × Option (Text × Bool)
    update_existing s all_attachments previous log =
        let (mask, patch) = build_update_mask equal times previous s all_attachments in
        if is_empty_mask mask
        then (log, some (previous.name, false))
        else request_memo (update_memo mask patch) log >>= saved

    -- An empty name is none.
    abbrev pub is_named : Option Text → Bool
    is_named none = false
    is_named (some name) = not (text_eq name [])

    unfoldable pub create_new :
        Option Text → EditorState → List Attachment → Log → Log × Option (Text × Bool)
    create_new parent s all_attachments log =
        (if is_named parent
          then request_memo
              (create_memo_comment (get_or_else parent []) (to_draft s all_attachments)) log
          else request_memo (create_memo (to_draft s all_attachments)) log)
        >>= saved

    unfoldable pub after_upload :
        EditorState → Option Text → Option Text → List Attachment → Log → Log × Option (Text × Bool)
    after_upload s memo_name parent new_attachments log =
        let all_attachments = (s.metadata).attachments ++ new_attachments in
        if is_named memo_name
        then request_memo (get_memo (get_or_else memo_name [])) log
          >>= update_existing s all_attachments
        else create_new parent s all_attachments log

    unfoldable pub save : EditorState → Option Text → Option Text → Log → Log × Option (Text × Bool)
    save s memo_name parent log =
        upload_from [] s.local_files log >>= after_upload s memo_name parent
