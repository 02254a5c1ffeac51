-- ===== src/Api.antt =====
-- The messages of the service that the client works with: the generated types of
-- web/src/types/proto/api/v1/memo_service_pb.ts, attachment_service_pb.ts and common_pb.ts.
-- Coordinates are only passed on and compared; they are kept as the texts that they print as.
use memos_note.Common.{Text, ℕ, Bool, Option, List}

pub record Timestamp : Type 0 where
  pub seconds : ℕ
  pub nanos : ℕ

pub data State : Type 0 where
  state_unspecified normal archived : State

pub data Visibility : Type 0 where
  visibility_unspecified private protected public : Visibility

pub data MotionMediaFamily : Type 0 where
  family_unspecified apple_live_photo android_motion_photo : MotionMediaFamily

pub data MotionMediaRole : Type 0 where
  role_unspecified still video container : MotionMediaRole

pub record MotionMedia : Type 0 where
  pub family : MotionMediaFamily
  pub role : MotionMediaRole
  pub group_id : Text
  pub presentation_timestamp_us : ℕ
  pub has_embedded_video : Bool

pub record Attachment : Type 0 where
  pub name : Text
  pub create_time : Option Timestamp
  pub filename : Text
  pub content : Text
  pub external_link : Text
  pub type : Text
  pub size : ℕ
  pub memo : Option Text
  pub motion_media : Option MotionMedia

pub data RelationType : Type 0 where
  type_unspecified reference comment : RelationType

pub record RelationMemo : Type 0 where
  pub name : Text
  pub snippet : Text

pub record MemoRelation : Type 0 where
  pub memo : Option RelationMemo
  pub related_memo : Option RelationMemo
  pub type : RelationType

pub record Reaction : Type 0 where
  pub name : Text
  pub creator : Text
  pub content_id : Text
  pub reaction_type : Text

pub record Location : Type 0 where
  pub placeholder : Text
  pub latitude : Text
  pub longitude : Text

pub record Property : Type 0 where
  pub has_link : Bool
  pub has_task_list : Bool
  pub has_code : Bool
  pub has_incomplete_tasks : Bool
  pub title : Text

pub record Memo : Type 0 where
  pub name : Text
  pub state : State
  pub creator : Text
  pub create_time : Option Timestamp
  pub update_time : Option Timestamp
  pub content : Text
  pub visibility : Visibility
  pub tags : List Text
  pub pinned : Bool
  pub attachments : List Attachment
  pub relations : List MemoRelation
  pub reactions : List Reaction
  pub property : Option Property
  pub parent : Option Text
  pub snippet : Text
  pub location : Option Location
