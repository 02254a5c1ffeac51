-- ===== src/Markdown/Tags/Tree.antt =====
-- The pass over the syntax tree: `transformTagTextNodes` of
-- web/src/utils/remark-plugins/remark-tag.ts. Nodes other than texts, tags and links are parents
-- with children or leaves.
use memos_note.Common.{
  if◌then◌else◌, Bool-cases, all, Text, text_eq, text_eq_sound, slice, ℕ, ◌≡◌, refl, sym, ap, ◌∙◌,
  inl, inr, Bool, true, false, not, ◌&&◌, Option, none, some, List, [], ◌∷◌, ◌++◌, append_assoc,
  arith,
}
use memos_note.Markdown.Tags.{
  hash, Segment, text, tag, chars, unescape_backslashes, render_all, is_text, unescaped_cells,
  segments_for_text_node,
}
use memos_note.Markdown.Tags.Lossless.{render_all-parse_segments}

mutual
  pub data Node : Type 0 where
    text_node : Text → Option (ℕ × ℕ) → Node
    tag_node : Text → Node
    link : Nodes → Node
    parent : Nodes → Node
    leaf : Node

  pub data Nodes : Type 0 where
    nil : Nodes
    cons : Node → Nodes → Nodes

-- The nodes that stand in place of a text: `createTagNode` for a tag.
new_nodes : List Segment → Nodes → Nodes
new_nodes [] rest = rest
new_nodes (text value ∷ ss) rest = cons (text_node value none) (new_nodes ss rest)
new_nodes (tag value ∷ ss) rest = cons (tag_node value) (new_nodes ss rest)

replace_text : List Segment → Node → Nodes → Nodes
unfolding new_nodes
replace_text segments old rest =
    if all is_text segments then cons old rest else new_nodes segments rest

-- What a reader sees: a tag node shows its hash.
mutual
  pub node_text : Node → Text
  node_text (text_node value p) = value
  node_text (tag_node value) = hash ∷ value
  node_text (link ns) = nodes_text ns
  node_text (parent ns) = nodes_text ns
  node_text leaf = []

  pub nodes_text : Nodes → Text
  nodes_text nil = []
  nodes_text (cons n ns) = node_text n ++ nodes_text ns

-- What each link has below it, for the links that are in no other, in their order.
mutual
  pub node_links : Node → List Nodes
  node_links (text_node value p) = []
  node_links (tag_node value) = []
  node_links (link ns) = ns ∷ []
  node_links (parent ns) = nodes_links ns
  node_links leaf = []

  pub nodes_links : Nodes → List Nodes
  nodes_links nil = []
  nodes_links (cons n ns) = node_links n ++ nodes_links ns

module _ (is_tag_char : ℕ → Bool) (source : Text) where
  mutual
    transform_node : Bool → Node → Nodes → Nodes
    transform_node true (text_node value p) rest = cons (text_node value p) rest
    transform_node false (text_node value p) rest =
        replace_text (segments_for_text_node is_tag_char value p source) (text_node value p) rest
    transform_node inside (tag_node value) rest = cons (tag_node value) rest
    transform_node inside (link ns) rest = cons (link (transform_nodes true ns)) rest
    transform_node inside (parent ns) rest = cons (parent (transform_nodes inside ns)) rest
    transform_node inside leaf rest = cons leaf rest

    transform_nodes : Bool → Nodes → Nodes
    transform_nodes inside nil = nil
    transform_nodes inside (cons n ns) = transform_node inside n (transform_nodes inside ns)

  -- `remarkTag`, on the children of the root
  pub remark_tag : Nodes → Nodes
  unfolding transform_nodes transform_node replace_text segments_for_text_node
  remark_tag ns = transform_nodes false ns

nodes_text-new_nodes :
    (ss : List Segment) (rest : Nodes)
    → nodes_text (new_nodes ss rest) ≡ render_all ss ++ nodes_text rest
unfolding nodes_text node_text new_nodes
nodes_text-new_nodes [] rest = refl
nodes_text-new_nodes (text value ∷ ss) rest =
    rw (nodes_text-new_nodes ss rest) (sym (append_assoc value (render_all ss) (nodes_text rest)))
nodes_text-new_nodes (tag value ∷ ss) rest =
    rw (nodes_text-new_nodes ss rest)
      (ap (λ t. hash ∷ t) (sym (append_assoc value (render_all ss) (nodes_text rest))))

nodes_text-replace_text :
    (ss : List Segment) (value : Text) (p : Option (ℕ × ℕ)) (rest : Nodes)
    → render_all ss ≡ value
    → nodes_text (replace_text ss (text_node value p) rest) ≡ value ++ nodes_text rest
unfolding replace_text nodes_text node_text
nodes_text-replace_text ss value p rest h = elim (Bool-cases (all is_text ss)) [
  | inl e ↦ rw e
  | inr e ↦ rw (e, ← h) (nodes_text-new_nodes ss rest)
]

nodes_links-new_nodes :
    (ss : List Segment) (rest : Nodes) → nodes_links (new_nodes ss rest) ≡ nodes_links rest
unfolding nodes_links node_links new_nodes
nodes_links-new_nodes [] rest = refl
nodes_links-new_nodes (text value ∷ ss) rest = nodes_links-new_nodes ss rest
nodes_links-new_nodes (tag value ∷ ss) rest = nodes_links-new_nodes ss rest

nodes_links-replace_text :
    (ss : List Segment) (value : Text) (p : Option (ℕ × ℕ)) (rest : Nodes)
    → nodes_links (replace_text ss (text_node value p) rest) ≡ nodes_links rest
unfolding replace_text nodes_links node_links
nodes_links-replace_text ss value p rest = elim (Bool-cases (all is_text ss)) [
  | inl e ↦ rw e
  | inr e ↦ rw e (nodes_links-new_nodes ss rest)
]

chars-unescaped_cells : (s : Text) → chars (unescaped_cells s) ≡ s
chars-unescaped_cells [] = refl
chars-unescaped_cells (c ∷ s) = ap (λ t. c ∷ t) (chars-unescaped_cells s)

module _ (is_tag_char : ℕ → Bool) (source : Text) where
  -- Whatever position a text node claims, its segments make up its value: where the source slice
  -- does not account for the value it is not used.
  pub render_all-segments_for_text_node :
      (value : Text) (p : Option (ℕ × ℕ))
      → render_all (segments_for_text_node is_tag_char value p source) ≡ value
  unfolding segments_for_text_node
  render_all-segments_for_text_node value none =
      render_all-parse_segments is_tag_char _ ∙ chars-unescaped_cells value
  render_all-segments_for_text_node value (some (start, end)) =
      elim (Bool-cases (
        not (text_eq source [])
        && text_eq (chars (unescape_backslashes (slice source start end))) value)) [
          | inl e ↦ rw e (
              render_all-parse_segments is_tag_char _
              ∙ text_eq_sound (chars (unescape_backslashes (slice source start end))) value
                  (ground arith))
          | inr e ↦ rw e (render_all-parse_segments is_tag_char _ ∙ chars-unescaped_cells value)
        ]

  mutual
    unfolding transform_node transform_nodes nodes_text node_text

    nodes_text-transform_node :
        (inside : Bool) (n : Node) (rest : Nodes)
        → nodes_text (transform_node is_tag_char source inside n rest)
          ≡ node_text n ++ nodes_text rest
    nodes_text-transform_node true (text_node value p) rest = refl
    nodes_text-transform_node false (text_node value p) rest =
        nodes_text-replace_text _ value p rest (render_all-segments_for_text_node value p)
    nodes_text-transform_node inside (tag_node value) rest = refl
    nodes_text-transform_node inside (link ns) rest =
        ap (λ t. t ++ nodes_text rest) (nodes_text-transform_nodes true ns)
    nodes_text-transform_node inside (parent ns) rest =
        ap (λ t. t ++ nodes_text rest) (nodes_text-transform_nodes inside ns)
    nodes_text-transform_node inside leaf rest = refl

    nodes_text-transform_nodes :
        (inside : Bool) (ns : Nodes)
        → nodes_text (transform_nodes is_tag_char source inside ns) ≡ nodes_text ns
    nodes_text-transform_nodes inside nil = refl
    nodes_text-transform_nodes inside (cons n ns) =
        nodes_text-transform_node inside n (transform_nodes is_tag_char source inside ns)
        ∙ ap (λ t. node_text n ++ t) (nodes_text-transform_nodes inside ns)

  mutual
    unfolding transform_node transform_nodes

    transform_node-inside :
        (n : Node) (rest : Nodes) → transform_node is_tag_char source true n rest ≡ cons n rest
    transform_node-inside (text_node value p) rest = refl
    transform_node-inside (tag_node value) rest = refl
    transform_node-inside (link ns) rest = ap (λ m. cons (link m) rest) (transform_nodes-inside ns)
    transform_node-inside (parent ns) rest =
        ap (λ m. cons (parent m) rest) (transform_nodes-inside ns)
    transform_node-inside leaf rest = refl

    transform_nodes-inside : (ns : Nodes) → transform_nodes is_tag_char source true ns ≡ ns
    transform_nodes-inside nil = refl
    transform_nodes-inside (cons n ns) =
        transform_node-inside n _ ∙ ap (λ m. cons n m) (transform_nodes-inside ns)

  mutual
    unfolding transform_node transform_nodes node_links nodes_links

    node_links-transform_node :
        (n : Node) (rest : Nodes)
        → nodes_links (transform_node is_tag_char source false n rest)
          ≡ node_links n ++ nodes_links rest
    node_links-transform_node (text_node value p) rest =
        nodes_links-replace_text (segments_for_text_node is_tag_char value p source) value p rest
    node_links-transform_node (tag_node value) rest = refl
    node_links-transform_node (link ns) rest =
        ap (λ m. m ∷ nodes_links rest) (transform_nodes-inside ns)
    node_links-transform_node (parent ns) rest =
        ap (λ ls. ls ++ nodes_links rest) (nodes_links-transform_nodes ns)
    node_links-transform_node leaf rest = refl

    nodes_links-transform_nodes :
        (ns : Nodes) → nodes_links (transform_nodes is_tag_char source false ns) ≡ nodes_links ns
    nodes_links-transform_nodes nil = refl
    nodes_links-transform_nodes (cons n ns) =
        node_links-transform_node n (transform_nodes is_tag_char source false ns)
        ∙ ap (λ ls. node_links n ++ ls) (nodes_links-transform_nodes ns)

  -- The pass changes no character of what the tree shows, a tag node read as its hash and its
  -- value; and the links of the tree, at any depth, are the same in the same order, with everything
  -- below them.
  pub remark_tag-keeps_text :
      (ns : Nodes)
      → (nodes_text (remark_tag is_tag_char source ns) ≡ nodes_text ns)
        × (nodes_links (remark_tag is_tag_char source ns) ≡ nodes_links ns)
  unfolding remark_tag
  remark_tag-keeps_text ns = (nodes_text-transform_nodes false ns, nodes_links-transform_nodes ns)
