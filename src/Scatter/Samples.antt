-- ===== src/Scatter/Samples.antt =====
-- Tests and instances for src/runtime/workflow/runtime_scatter.py.
use myknowledgebase.Prelude.{◌+◌, ℕ, ◌≡◌, refl, true, none, some, [], ◌∷◌, Memᴰ}
use myknowledgebase.Process.Row
use myknowledgebase.Process.Row.{ExecutionStatus, is_terminal_execution}
use myknowledgebase.Workflow.Kinds.{scatter_root, scatter_child}
use myknowledgebase.Scatter.Members.{required_members, expected_members, Member, Membership, Fact}
use myknowledgebase.Scatter.Children.{
  bind_children, Child, PublicationProof, Evidence, Fan, fails, succeeds, waits,
}
use myknowledgebase.Scatter.Converge.{
  last_terminal, prove_children, sort_members, sort_children, maybe_converge, enter_join,
}
use myknowledgebase.Scatter.Sound.{Finished, maybe_converge-Finished, maybe_converge-collect_all}
use myknowledgebase.Scatter.Failing.{Blamed, maybe_converge-Blamed}

abbrev membership : ℕ → ℕ → ℕ → Membership
membership ordinal item revision = record {
  member_ordinal = ordinal;
  intake_item_uuid = some item;
  observed_revision_uuid = some revision;
  decision_kind = "accepted";
  required = 1;
}

abbrev fact : ℕ → ℕ → ℕ → Fact
fact ordinal item revision = record {
  fact_ordinal = ordinal;
  intake_item_uuid = some item;
  intake_revision_uuid = some revision;
}

abbrev child : ℕ → ℕ → ℕ → ℕ → ExecutionStatus → Child
child execution ordinal item revision status = record {
  execution_uuid = execution;
  target_uuid = some item;
  execution_role = scatter_child;
  requiredness = "required";
  target_kind = "intake_item";
  intake_snapshot_uuid = some 1;
  scatter_change_set_uuid = some 2;
  scatter_member_ordinal = some ordinal;
  scatter_intake_revision_uuid = some revision;
  status = status;
  publication_proof_ref = some (execution + 50);
}

abbrev proof : ℕ → ℕ → ℕ → PublicationProof
proof execution item revision = record {
  process_uuid = some (execution + 70);
  intake_item_uuid = item;
  intake_revision_uuid = revision;
  execution_uuid = execution;
}

abbrev evidence : ℕ → ℕ → Evidence
evidence execution completed = record {
  process_uuid = execution + 70;
  execution_uuid = execution;
  status = Row.succeeded;
  step_key = "validate_publication";
  process_key = "index.validate_publication";
  proof_ref = some (execution + 50);
  output_manifest_ref = some 9;
  completed_at = some completed;
}

-- Two members, whose children have the statuses given.
abbrev fan : ExecutionStatus → ExecutionStatus → Fan
fan first second = record {
  execution_uuid = 30;
  execution_role = scatter_root;
  status = ExecutionStatus.waiting;
  waiting_reason = some "scatter_children";
  root_snapshot_uuid = some 1;
  task = some (some 1, some 2);
  has_change_set = true;
  memberships = membership 0 12 22 ∷ membership 1 11 21 ∷ [];
  facts = fact 0 12 22 ∷ fact 1 11 21 ∷ [];
  change_set_digest = some "digest";
  children = child 31 0 12 22 first ∷ child 32 1 11 21 second ∷ [];
  proofs = proof 31 12 22 ∷ proof 32 11 21 ∷ [];
  processes = evidence 31 100 ∷ evidence 32 90 ∷ [];
}

abbrev all_succeeded : Fan
all_succeeded = fan ExecutionStatus.succeeded ExecutionStatus.succeeded

abbrev one_cancelled : Fan
one_cancelled = fan ExecutionStatus.succeeded ExecutionStatus.cancelled

abbrev one_failed : Fan
one_failed = fan ExecutionStatus.cancelled ExecutionStatus.failed

succeeds_test : maybe_converge all_succeeded ≡ succeeds (evidence 31 100)
unfolding maybe_converge expected_members required_members bind_children sort_children sort_members
    prove_children
succeeds_test = refl

waits_test : maybe_converge (fan ExecutionStatus.failed ExecutionStatus.running) ≡ waits
unfolding maybe_converge expected_members required_members bind_children
waits_test = refl

fails_test :
    maybe_converge one_failed ≡ fails "scatter-required-child-failed" (some (evidence 32 90))
unfolding maybe_converge expected_members required_members bind_children last_terminal
fails_test = refl

cancelled_test :
    maybe_converge one_cancelled ≡ fails "scatter-required-child-cancelled" (some (evidence 32 90))
unfolding maybe_converge expected_members required_members bind_children last_terminal
cancelled_test = refl

joins_test : enter_join (fan ExecutionStatus.created ExecutionStatus.created) none ≡ waits
unfolding enter_join expected_members required_members
joins_test = refl

abbrev second_member : Member
second_member = record { member_ordinal = 1; intake_item_uuid = 11; intake_revision_uuid = 21 }

abbrev first_member : Member
first_member = record { member_ordinal = 0; intake_item_uuid = 12; intake_revision_uuid = 22 }

accepted_test :
    expected_members true all_succeeded.memberships all_succeeded.facts
    ≡ some (first_member ∷ second_member ∷ [])
unfolding expected_members required_members
accepted_test = refl

maybe_converge-Finished_example : Finished all_succeeded 1 2 second_member
maybe_converge-Finished_example =
    maybe_converge-Finished all_succeeded refl accepted_test (Memᴰ.tail (Memᴰ.head refl))
      succeeds_test

maybe_converge-collect_all_example :
    is_terminal_execution (child 31 0 12 22 ExecutionStatus.cancelled).status ≡ true
maybe_converge-collect_all_example =
    maybe_converge-collect_all one_failed fails_test _ (Memᴰ.head refl)

maybe_converge-Blamed_example :
    Blamed one_failed "scatter-required-child-failed" (some (evidence 32 90))
maybe_converge-Blamed_example = maybe_converge-Blamed one_failed fails_test
