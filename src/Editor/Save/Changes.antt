-- ===== src/Editor/Save/Changes.antt =====
-- Which changes are sent.
use memos_note.Common.{
  if◌then◌else◌, get_or_else, map_option, Text, ◌≡◌, refl, ap, true, Option, none, List, [], ◌∷◌,
  arith,
}
use memos_note.Api.{Attachment, Memo}
use memos_note.Editor.State.{EditorState, editor_reducer}
use memos_note.Editor.Save.{
  DeepEqual, Timestamping, Mask, MemoPatch, is_empty_mask, to_attachment_references,
  build_update_mask, from_memo,
}

pub names_of : List Attachment → List Text
names_of [] = []
names_of (a ∷ rest) = a.name ∷ names_of rest

names_of-references : (xs : List Attachment) → names_of (to_attachment_references xs) ≡ names_of xs
unfolding names_of
names_of-references [] = refl
names_of-references (a ∷ xs) = ap (λ ns. a.name ∷ ns) (names_of-references xs)

-- A field mask, as the service reads it: the fields of its paths are taken from the patch, and all
-- others stay. (The times, which the service may set itself, are left out.)
pub apply_mask : Mask → MemoPatch → Memo → Memo
apply_mask mask patch memo = record memo {
  content = if mask.has_content then patch.content else memo.content;
  visibility =
      if mask.has_visibility then get_or_else patch.visibility memo.visibility else memo.visibility;
  attachments = if mask.has_attachments then get_or_else patch.attachments [] else memo.attachments;
  relations = if mask.has_relations then get_or_else patch.relations [] else memo.relations;
  location = if mask.has_location then get_or_else patch.location none else memo.location;
}

module _ (equal : DeepEqual) (times : Timestamping) where
  open equal use {texts_iff, visibilities_iff, attachment_lists_iff, relation_lists_iff}
  open equal use {locations_iff, dates_iff}

  -- Applying the patch under its mask to the memo that it was computed from gives the memo of the
  -- editor: its content, visibility, relations and location, and attachments of the same names.
  pub apply_mask-build_update_mask :
      (memo : Memo) (s : EditorState) (all_attachments : List Attachment)
      → let (mask, patch) = build_update_mask equal times memo s all_attachments in
        let memo' = apply_mask mask patch memo in
        (memo'.content ≡ s.content)
        × (memo'.visibility ≡ (s.metadata).visibility)
        × (memo'.relations ≡ (s.metadata).relations)
        × (memo'.location ≡ (s.metadata).location)
        × (names_of memo'.attachments ≡ names_of all_attachments)
  unfolding build_update_mask apply_mask
  apply_mask-build_update_mask memo s all_attachments = (
    ground (arith, texts_iff s.content memo.content),
    ground (arith, visibilities_iff (s.metadata).visibility memo.visibility),
    ground (arith, relation_lists_iff (s.metadata).relations memo.relations),
    ground (arith, locations_iff (s.metadata).location memo.location),
    ground (
      arith,
      attachment_lists_iff all_attachments memo.attachments,
      names_of-references all_attachments,
    ),
  )

  -- A memo that is loaded into the editor and not touched has no changes: the mask is empty,
  -- whatever was in the editor before.
  pub build_update_mask-from_memo :
      (stored : Option (Option Text)) (before : EditorState) (memo : Memo)
      → is_empty_mask
          (build_update_mask equal times memo
            (editor_reducer stored before (from_memo equal times memo))
            memo.attachments).0
        ≡ true
  unfolding build_update_mask from_memo editor_reducer
  build_update_mask-from_memo stored before memo = ground (
    arith,
    texts_iff memo.content memo.content,
    visibilities_iff memo.visibility memo.visibility,
    attachment_lists_iff memo.attachments memo.attachments,
    relation_lists_iff memo.relations memo.relations,
    locations_iff memo.location memo.location,
    dates_iff (map_option times.timestamp_date memo.create_time)
        (map_option times.timestamp_date memo.create_time),
    dates_iff (map_option times.timestamp_date memo.update_time)
        (map_option times.timestamp_date memo.update_time),
  )
