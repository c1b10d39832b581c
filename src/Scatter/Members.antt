-- ===== src/Scatter/Members.antt =====
-- The required members of an accepted snapshot: `_scatter_expected_members_tx` of
-- src/runtime/workflow/runtime_scatter.py, on the rows of one team. An identifier is its place in the
-- order of identifiers; an empty one counts as none.
use myknowledgebase.Prelude.{
  ℕ, Bool, ◌&&◌, Option, none, some, List, [], ◌∷◌, map, ◌==◌, nat_eq, string_eq, String, pair_eq,
  all, length, contains, add, if◌then◌else◌,
}

-- A row of mkb_intake_snapshot_memberships.
pub record Membership : Type 0 where
  pub member_ordinal : ℕ
  pub intake_item_uuid : Option ℕ
  pub observed_revision_uuid : Option ℕ
  pub decision_kind : String
  pub required : ℕ

-- A row of mkb_intake_change_set_facts of the kind `accept_revision`.
pub record Fact : Type 0 where
  pub fact_ordinal : ℕ
  pub intake_item_uuid : Option ℕ
  pub intake_revision_uuid : Option ℕ

pub record Member : Type 0 where
  pub member_ordinal : ℕ
  pub intake_item_uuid : ℕ
  pub intake_revision_uuid : ℕ

abbrev pub Triple : Type 0
Triple = ℕ × (ℕ × ℕ)

abbrev pub with_ids : ℕ → Option ℕ → Option ℕ → Option Member
with_ids ordinal (some item) (some revision) =
    some (record {
      member_ordinal = ordinal;
      intake_item_uuid = item;
      intake_revision_uuid = revision;
    })
with_ids ordinal _ _ = none

-- The member of a membership that is required.
abbrev pub accepted_member : Membership → Option Member
accepted_member m =
    if m.decision_kind == "accepted"
    then with_ids m.member_ordinal m.intake_item_uuid m.observed_revision_uuid
    else none

abbrev pub cons_member : Option Member → Option (List Member) → Option (List Member)
cons_member (some m) (some ms) = some (m ∷ ms)
cons_member _ _ = none

-- The loop over the memberships.
unfoldable pub required_members : List Membership → Option (List Member)
required_members [] = some []
required_members (m ∷ ms) =
    let rest = required_members ms in
    if m.required == 1 then cons_member (accepted_member m) rest else rest

abbrev pub member_triple : Member → Triple
member_triple m = (m.member_ordinal, (m.intake_item_uuid, m.intake_revision_uuid))

abbrev pub triple_if : ℕ → Option ℕ → Option ℕ → List Triple → List Triple
triple_if ordinal (some item) (some revision) rest = add (ordinal, (item, revision)) rest
triple_if ordinal _ _ rest = rest

-- `actual_facts`, a set
abbrev pub actual_facts : List Fact → List Triple
actual_facts [] = []
actual_facts (f ∷ fs) =
    triple_if f.fact_ordinal f.intake_item_uuid f.intake_revision_uuid (actual_facts fs)

abbrev pub facts_agree : List Fact → List Member → Bool
facts_agree facts expected =
    (length (actual_facts facts) == length facts)
    && (all (contains (map member_triple expected)) (actual_facts facts)
        && all (contains (actual_facts facts)) (map member_triple expected))

abbrev pub checked_members : List Fact → Option (List Member) → Option (List Member)
checked_members facts none = none
checked_members facts (some expected) = if facts_agree facts expected then some expected else none

-- `_scatter_expected_members_tx`; the first argument is whether the change set is there.
unfoldable pub expected_members : Bool → List Membership → List Fact → Option (List Member)
expected_members change_set memberships facts =
    if change_set then checked_members facts (required_members memberships) else none
