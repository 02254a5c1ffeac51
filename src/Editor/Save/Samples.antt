-- ===== src/Editor/Save/Samples.antt =====
-- The theorems on saving, with the comparison by decisions and times in whole seconds.
use memos_note.Common.{
  Text, codes, ℕ, ◌≡◌, refl, ◌↔◌, Bool, true, false, Option, none, some, List, [], ℕ_discrete,
}
use memos_note.Api.{normal, Visibility, private, Attachment, MemoRelation, Location, Memo}
use memos_note.Editor.State.{EditorState, default_state}
use memos_note.Editor.Save.{DeepEqual, Timestamping, build_update_mask, Service}
use memos_note.Editor.Save.Changes.{names_of, apply_mask, apply_mask-build_update_mask}

decide_by {ℓ} : {A : Type ℓ} → Discrete A → A → A → Bool
decide_by d a b = elim (d a b) [ yes h ↦ true | no h ↦ false ]

decide_by_iff {ℓ} : {A : Type ℓ} (d : Discrete A) (a b : A) → (decide_by d a b ≡ true) ↔ (a ≡ b)
unfolding decide_by
decide_by_iff d a b =
    elim (d a b) as (λ x. ((elim x [ yes h ↦ true | no h ↦ false ]) ≡ true) ↔ (a ≡ b)) [
      | yes h ↦ (λ e. h, λ e. refl)
      | no h ↦ (λ e. cc, λ e. absurd (h e))
    ]

Text-discrete : Discrete Text
Text-discrete = hlevel ℕ_discrete

Visibility-discrete : Discrete Visibility
Visibility-discrete = hlevel

Attachments-discrete : Discrete (List Attachment)
Attachments-discrete = hlevel ℕ_discrete

Relations-discrete : Discrete (List MemoRelation)
Relations-discrete = hlevel ℕ_discrete

Location-discrete : Discrete (Option Location)
Location-discrete = hlevel ℕ_discrete

Date-discrete : Discrete (Option ℕ)
Date-discrete = hlevel ℕ_discrete

abbrev by_decision : DeepEqual
by_decision = record {
  texts = decide_by Text-discrete;
  visibilities = decide_by Visibility-discrete;
  attachment_lists = decide_by Attachments-discrete;
  relation_lists = decide_by Relations-discrete;
  locations = decide_by Location-discrete;
  dates = decide_by Date-discrete;
  texts_iff = decide_by_iff Text-discrete;
  visibilities_iff = decide_by_iff Visibility-discrete;
  attachment_lists_iff = decide_by_iff Attachments-discrete;
  relation_lists_iff = decide_by_iff Relations-discrete;
  locations_iff = decide_by_iff Location-discrete;
  dates_iff = decide_by_iff Date-discrete;
}

abbrev in_millis : Timestamping
in_millis = record {
  timestamp_date = λ t. t.seconds;
  timestamp_from_date = λ ms. record { seconds = ms; nanos = 0 };
  date-from_date = λ ms. refl;
}

abbrev sample_memo : Memo
sample_memo = record {
  name = codes "memos/1";
  state = normal;
  creator = codes "users/1";
  create_time = some (record { seconds = 5; nanos = 0 });
  update_time = none;
  content = codes "hi";
  visibility = private;
  tags = [];
  pinned = false;
  attachments = [];
  relations = [];
  reactions = [];
  property = none;
  parent = none;
  snippet = [];
  location = none;
}

abbrev found_service : Service
found_service = record { attachment_reply = λ log. none; memo_reply = λ log. some sample_memo }

abbrev edited : EditorState
edited = record default_state { content = codes "ho" }

apply_mask-build_update_mask_example :
    let (mask, patch) = build_update_mask by_decision in_millis sample_memo edited [] in
    let memo' = apply_mask mask patch sample_memo in
    (memo'.content ≡ codes "ho")
    × (memo'.visibility ≡ private)
    × (memo'.relations ≡ [])
    × (memo'.location ≡ none)
    × (names_of memo'.attachments ≡ names_of [])
apply_mask-build_update_mask_example =
    apply_mask-build_update_mask by_decision in_millis sample_memo edited []
