-- ===== src/Editor/Draft/Loading.antt =====
-- Reading a draft back.
use memos_note.Common.{
  if◌then◌else◌, Bool-cases, Text, text_eq, is_blank, ◌≡◌, refl, sym, ap, ◌∙◌, inl, inr, Bool,
  false, Option, none, some, [], ◌∷◌,
}
use memos_note.Editor.Draft.{
  get_key, Drafts, save_now, Envelope, is_cache_entry, content_or_raw, deserialize_content,
  read_entry, load,
}
use memos_note.Editor.Draft.View.{entry, get_key-write_entry}

abbrev is_entry : Option Envelope → Bool
is_entry none = false
is_entry (some e) = is_cache_entry e

module _ (parse : Text → Option Envelope) where
  -- Whether a text would be read as a draft of the structured form.
  abbrev pub is_structured : Text → Bool
  is_structured raw = is_entry (parse raw)

  deserialize_content-plain : (c : Text) → is_structured c ≡ false → deserialize_content parse c ≡ c
  unfolding deserialize_content content_or_raw
  deserialize_content-plain c h = go (parse c) h
    where
      go : (o : Option Envelope) → is_entry o ≡ false → content_or_raw c o ≡ c
      go none q = refl
      go (some e) q = rw q refl

  load_as :
      (k : Text) (d : Drafts) (o : Option Text)
      → get_key k d.storage ≡ o
      → load parse k d ≡ read_entry parse o
  unfolding load
  load_as k d o h = ap (read_entry parse) h

  save_now-storage :
      (k k' c : Text) (d : Drafts)
      → get_key k' (save_now k c d).storage
        ≡ (if text_eq k k' then entry c else get_key k' d.storage)
  unfolding save_now
  save_now-storage k k' c d = get_key-write_entry k k' c d.storage

  -- A draft that is written at once, and is not itself a text of the structured form, is read back as
  -- it was, a blank one as the empty text; what is read for any other key does not change.
  pub load-save_now :
      (k k' c : Text) (d : Drafts)
      → is_structured c ≡ false
      → load parse k' (save_now k c d)
        ≡ (if text_eq k k' then (if is_blank c then [] else c) else load parse k' d)
  unfolding read_entry
  load-save_now k k' c d h = elim (Bool-cases (text_eq k k')) [
    | inl e ↦
        rw e
          (load_as k' (save_now k c d) (entry c) (save_now-storage k k' c d ∙ rw e refl) ∙ own c h)
    | inr e ↦ rw e (
        load_as k' (save_now k c d) (get_key k' d.storage) (save_now-storage k k' c d ∙ rw e refl)
        ∙ sym (load_as k' d (get_key k' d.storage) refl))
  ]
    where
      own :
          (c : Text)
          → is_structured c ≡ false
          → read_entry parse (entry c) ≡ (if is_blank c then [] else c)
      own [] h = refl
      own (x ∷ s) h = elim (Bool-cases (is_blank (x ∷ s))) [
        | inl b ↦ rw b refl
        | inr b ↦ rw b (deserialize_content-plain (x ∷ s) h)
      ]
