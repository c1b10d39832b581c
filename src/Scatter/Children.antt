-- ===== src/Scatter/Children.antt =====
-- The rows that the fan-in of a scatter reads, and how `_maybe_converge_scatter_root_tx` of
-- src/runtime/workflow/runtime_scatter.py binds the children to the members. An identifier is its place
-- in the order of identifiers.
use myknowledgebase.Prelude.{
  ℕ, suc, String, Bool, true, false, ◌&&◌, Option, none, some, List, [], ◌∷◌, ◌==◌, nat_eq,
  string_eq, option_eq, any, keep, if◌then◌else◌,
}
use myknowledgebase.Process.Row.{Status, ExecutionStatus}
use myknowledgebase.Workflow.Kinds.{ExecutionRole, scatter_root, scatter_child}
use myknowledgebase.Scatter.Members.{Membership, Fact, Member}

-- The columns of a child Execution.
pub record Child : Type 0 where
  pub execution_uuid : ℕ
  pub target_uuid : Option ℕ
  pub execution_role : ExecutionRole
  pub requiredness : String
  pub target_kind : String
  pub intake_snapshot_uuid : Option ℕ
  pub scatter_change_set_uuid : Option ℕ
  pub scatter_member_ordinal : Option ℕ
  pub scatter_intake_revision_uuid : Option ℕ
  pub status : ExecutionStatus
  pub publication_proof_ref : Option ℕ

-- A row of mkb_publication_proofs.
pub record PublicationProof : Type 0 where
  pub process_uuid : Option ℕ
  pub intake_item_uuid : ℕ
  pub intake_revision_uuid : ℕ
  pub execution_uuid : ℕ

-- A Process, as evidence of an end.
pub record Evidence : Type 0 where
  pub process_uuid : ℕ
  pub execution_uuid : ℕ
  pub status : Status
  pub step_key : String
  pub process_key : String
  pub proof_ref : Option ℕ
  pub output_manifest_ref : Option ℕ
  pub completed_at : Option ℕ

-- What the transaction reads: the root, its task, and the rows of the root and below it.
pub record Fan : Type 0 where
  pub execution_uuid : ℕ
  pub execution_role : ExecutionRole
  pub status : ExecutionStatus
  pub waiting_reason : Option String
  pub root_snapshot_uuid : Option ℕ
  pub task : Option (Option ℕ × Option ℕ)
  pub has_change_set : Bool
  pub memberships : List Membership
  pub facts : List Fact
  pub change_set_digest : Option String
  pub children : List Child
  pub proofs : List PublicationProof
  pub processes : List Evidence

pub data Broken : Type 0 where
  acceptance_binding_missing required_set_invalid zero_proof_missing change_set_missing : Broken
  child_intent_invalid publication_proof_missing publication_proof_invalid : Broken

pub data Verdict : Type 0 where
  ignored : Verdict
  breaks : Broken → Verdict
  ends_empty : Evidence → Verdict
  waits : Verdict
  fails : (error_code : String) → (source : Option Evidence) → Verdict
  succeeds : Evidence → Verdict

-- `expected_by_item`, a dictionary: a later member takes the place of one with the same item.
abbrev pub put_member : Member → List Member → List Member
put_member m [] = m ∷ []
put_member m (n ∷ ns) =
    let rest = put_member m ns in
    if n.intake_item_uuid == m.intake_item_uuid then m ∷ ns else n ∷ rest

abbrev pub put_members : List Member → List Member → List Member
put_members acc [] = acc
put_members acc (m ∷ ms) = put_members (put_member m acc) ms

abbrev pub by_item : List Member → List Member
by_item expected = put_members [] expected

abbrev pub is_expected : List Member → Child → Bool
is_expected expected c = any (λ m. c.target_uuid == some m.intake_item_uuid) expected

abbrev pub children_of : ℕ → List Child → List Child
children_of item children = keep (λ c. c.target_uuid == some item) children

abbrev pub role_is_child : ExecutionRole → Bool
role_is_child scatter_child = true
role_is_child _ = false

abbrev pub role_is_root : ExecutionRole → Bool
role_is_root scatter_root = true
role_is_root _ = false

-- The bindings of a child to the accepted snapshot, its change set and the member.
abbrev pub is_bound : ℕ → ℕ → Member → Child → Bool
is_bound snapshot change_set m c =
    (role_is_child c.execution_role && (c.requiredness == "required"))
    && ((c.target_kind == "intake_item") && (c.intake_snapshot_uuid == some snapshot))
    && ((c.scatter_change_set_uuid == some change_set)
        && ((c.scatter_member_ordinal == some m.member_ordinal)
            && (c.scatter_intake_revision_uuid == some m.intake_revision_uuid)))

abbrev pub cons_child : Option Child → Option (List Child) → Option (List Child)
cons_child (some c) (some cs) = some (c ∷ cs)
cons_child _ _ = none

-- The only child of a member, if it is bound as it should be.
abbrev pub only_bound : ℕ → ℕ → Member → List Child → Option Child
only_bound snapshot change_set m (c ∷ []) =
    if is_bound snapshot change_set m c then some c else none
only_bound snapshot change_set m _ = none

-- `bound_children`, or none where `malformed` is set.
unfoldable pub bind_children : ℕ → ℕ → List Child → List Member → Option (List Child)
bind_children snapshot change_set children [] = some []
bind_children snapshot change_set children (m ∷ ms) =
    cons_child (only_bound snapshot change_set m (children_of m.intake_item_uuid children))
      (bind_children snapshot change_set children ms)

abbrev pub id_or : Option ℕ → ℕ
id_or none = 0
id_or (some n) = suc n
