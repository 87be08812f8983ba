-- ===== src/Config/Base/Document.antt =====
-- The YAML document of internal/config/base/base.go: what `Load` reads of a `yaml.Node`, and
-- detectCloudSections.
use yukimi.Base.{
  if◌then◌else◌, Bool-cases, Str, text, str_beq, All, ◌≡◌, inl, inr, Bool, true, false, ◌||◌, List,
  [], ◌∷◌,
}

pub data NodeKind : Type 0 where
  document_node : NodeKind
  mapping_node : NodeKind
  -- a sequence, a scalar, an alias, or the zero value
  other_kind : NodeKind

mutual
  -- `Kind`, `Value` and `Content`
  pub data Node : Type 0 where
    node : NodeKind → Str → Nodes → Node

  pub data Nodes : Type 0 where
    no_nodes : Nodes
    more_nodes : Node → Nodes → Nodes

abbrev pub node_value : Node → Str
node_value (node kind value content) = value

-- `root.Kind == yaml.DocumentNode && len(root.Content) > 0`
unfoldable pub has_document : Node → Bool
has_document (node document_node value (more_nodes mapping rest)) = true
has_document (node document_node value no_nodes) = false
has_document (node mapping_node value content) = false
has_document (node other_kind value content) = false

-- `cloudSectionKeys[key]`
unfoldable pub is_cloud_section : Str → Bool
unfolding text
is_cloud_section key =
    str_beq key (text "aws") || str_beq key (text "azure") || str_beq key (text "gcp")

-- The loop over the pairs of key and value.
unfoldable pub cloud_keys : Nodes → List Str
unfolding is_cloud_section
cloud_keys no_nodes = []
cloud_keys (more_nodes key no_nodes) = []
cloud_keys (more_nodes key (more_nodes value content)) =
    let found = cloud_keys content in
    if is_cloud_section (node_value key) then node_value key ∷ found else found

cloud_sections_of : Node → List Str
unfolding cloud_keys
cloud_sections_of (node mapping_node value content) = cloud_keys content
cloud_sections_of (node document_node value content) = []
cloud_sections_of (node other_kind value content) = []

-- `detectCloudSections`
unfoldable pub detect_cloud_sections : Node → List Str
unfolding cloud_sections_of
detect_cloud_sections (node document_node value (more_nodes mapping rest)) =
    cloud_sections_of mapping
detect_cloud_sections (node document_node value no_nodes) = []
detect_cloud_sections (node mapping_node value content) = []
detect_cloud_sections (node other_kind value content) = []

-- Each section that is found is a cloud section.
pub cloud_keys_are :
    (content : Nodes) → All (λ key. is_cloud_section key ≡ true) (cloud_keys content)
unfolding cloud_keys
cloud_keys_are no_nodes = All.none_left
cloud_keys_are (more_nodes key no_nodes) = All.none_left
cloud_keys_are (more_nodes key (more_nodes value content)) =
    elim (Bool-cases (is_cloud_section (node_value key))) [
      | inl k ↦ rw k (All.one_more k (cloud_keys_are content))
      | inr k ↦ rw k (cloud_keys_are content)
    ]

sections_are :
    (mapping : Node) → All (λ key. is_cloud_section key ≡ true) (cloud_sections_of mapping)
unfolding cloud_sections_of
sections_are (node mapping_node value content) = cloud_keys_are content
sections_are (node document_node value content) = All.none_left
sections_are (node other_kind value content) = All.none_left

pub detected_are :
    (root : Node) → All (λ key. is_cloud_section key ≡ true) (detect_cloud_sections root)
unfolding detect_cloud_sections
detected_are (node document_node value (more_nodes mapping rest)) = sections_are mapping
detected_are (node document_node value no_nodes) = All.none_left
detected_are (node mapping_node value content) = All.none_left
detected_are (node other_kind value content) = All.none_left
