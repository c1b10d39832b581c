-- ===== src/Scatter/Converge.antt =====
-- `_maybe_converge_scatter_root_tx` and `_enter_scatter_children_join_tx` of
-- src/runtime/workflow/runtime_scatter.py. What they ask of the Execution, to be failed for its
-- integrity, to be ended or to wait, is the verdict.
use myknowledgebase.Prelude.{
  ℕ, String, Bool, true, false, not, ◌&&◌, ◌||◌, Option, none, some, List, [], ◌∷◌, ◌==◌, nat_eq,
  string_eq, option_eq, Result, ok, err, ◌>>=◌, of_option, all, any, keep, length, ltb, leb,
  if◌then◌else◌, is_some,
}
use myknowledgebase.Process.Row
use myknowledgebase.Process.Row.{
  Status, is_terminal, ExecutionStatus, is_terminal_execution, is_cancelling_execution,
}
use myknowledgebase.Scatter.Members.{Member, expected_members}
use myknowledgebase.Scatter.Children.{
  Child, PublicationProof, Evidence, Fan, Broken, Verdict, by_item, is_expected, bind_children,
  role_is_root, id_or, ignored, breaks, ends_empty, waits, fails, succeeds,
  acceptance_binding_missing, required_set_invalid, zero_proof_missing, change_set_missing,
  child_intent_invalid, publication_proof_missing, publication_proof_invalid,
}

abbrev pub insert_child : Child → List Child → List Child
insert_child c [] = c ∷ []
insert_child c (d ∷ ds) =
    let rest = insert_child c ds in
    if leb (id_or c.target_uuid) (id_or d.target_uuid) then c ∷ (d ∷ ds) else d ∷ rest

-- `sorted(bound_children, key=target_uuid)`
unfoldable pub sort_children : List Child → List Child
sort_children [] = []
sort_children (c ∷ cs) = insert_child c (sort_children cs)

abbrev pub insert_member : Member → List Member → List Member
insert_member m [] = m ∷ []
insert_member m (n ∷ ns) =
    let rest = insert_member m ns in
    if leb m.intake_item_uuid n.intake_item_uuid then m ∷ (n ∷ ns) else n ∷ rest

unfoldable pub sort_members : List Member → List Member
sort_members [] = []
sort_members (m ∷ ms) = insert_member m (sort_members ms)

abbrev pub has_succeeded : Status → Bool
has_succeeded Row.succeeded = true
has_succeeded _ = false

abbrev pub later_leb : Evidence → Evidence → Bool
later_leb d e =
    ltb (id_or e.completed_at) (id_or d.completed_at)
    || ((id_or e.completed_at == id_or d.completed_at) && ltb e.process_uuid d.process_uuid)

-- `max(terminal_proofs, key=...)`
abbrev pub latest : Evidence → List Evidence → Evidence
latest best [] = best
latest best (e ∷ es) = latest (if later_leb best e then best else e) es

-- The WHERE of the Process that accepted the snapshot of a root.
abbrev pub has_accepted : ℕ → Evidence → Bool
has_accepted root e =
    ((e.execution_uuid == root) && has_succeeded e.status)
    && ((e.step_key == "accept_snapshot") && (e.process_key == "intake.accept_snapshot"))

abbrev pub latest_of : List Evidence → Option Evidence
latest_of [] = none
latest_of (e ∷ es) = some (latest e es)

abbrev pub has_refs : Evidence → Bool
has_refs e = is_some e.proof_ref && is_some e.output_manifest_ref

-- The last one with its references.
abbrev pub last_accepted : ℕ → List Evidence → Option Evidence
last_accepted root processes = latest_of (keep (λ e. has_accepted root e && has_refs e) processes)

abbrev pub source_accepted : ℕ → List Evidence → List Evidence → Option Evidence
source_accepted root processes [] = last_accepted root processes
source_accepted root processes (e ∷ es) =
    if has_refs e then some e else last_accepted root processes

-- `_scatter_root_terminal_proof_tx`
unfoldable pub root_terminal_proof : ℕ → List Evidence → Option ℕ → Option Evidence
root_terminal_proof root processes none = last_accepted root processes
root_terminal_proof root processes (some process) =
    source_accepted root processes
      (keep (λ e. (e.process_uuid == process) && has_accepted root e) processes)

abbrev pub proofs_of : List PublicationProof → Child → Member → List PublicationProof
proofs_of proofs c m =
    keep
      (λ p.
        ((p.intake_item_uuid == m.intake_item_uuid)
          && (p.intake_revision_uuid == m.intake_revision_uuid))
        && (p.execution_uuid == c.execution_uuid))
      proofs

abbrev pub find_evidence : List Evidence → ℕ → ℕ → Option Evidence
find_evidence [] process execution = none
find_evidence (e ∷ es) process execution =
    let rest = find_evidence es process execution in
    if ((e.process_uuid == process) && (e.execution_uuid == execution))
      && (has_succeeded e.status
          && ((e.step_key == "validate_publication")
              && (e.process_key == "index.validate_publication")))
    then some e
    else rest

-- The Process of the one proof of a child.
abbrev pub the_process : List PublicationProof → Option ℕ
the_process (p ∷ []) = p.process_uuid
the_process _ = none

abbrev pub evidence_holds : Child → Evidence → Bool
evidence_holds c e = has_refs e && (c.publication_proof_ref == e.proof_ref)

abbrev pub checked_evidence : Child → Option Evidence → Result Broken Evidence
checked_evidence c none = err publication_proof_invalid
checked_evidence c (some e) = if evidence_holds c e then ok e else err publication_proof_invalid

-- The body of the loop over the children with their members.
abbrev pub prove_child : Fan → Child → Member → Result Broken Evidence
prove_child f c m = do
  process ← of_option (the_process (proofs_of f.proofs c m)) publication_proof_missing
  checked_evidence c (find_evidence f.processes process c.execution_uuid)

-- The loop, over `zip`.
unfoldable pub prove_children : Fan → List Child → List Member → Result Broken (List Evidence)
prove_children f [] ms = ok []
prove_children f (c ∷ cs) [] = ok []
prove_children f (c ∷ cs) (m ∷ ms) = do
  e ← prove_child f c m
  es ← prove_children f cs ms
  ok (e ∷ es)

abbrev pub with_source : List Evidence → Verdict
with_source [] = breaks publication_proof_missing
with_source (e ∷ es) = succeeds (latest e es)

abbrev pub verdict_of : Result Broken (List Evidence) → Verdict
verdict_of (err b) = breaks b
verdict_of (ok es) = with_source es

abbrev pub has_failed : ExecutionStatus → Bool
has_failed ExecutionStatus.failed = true
has_failed _ = false

abbrev pub was_cancelled : ExecutionStatus → Bool
was_cancelled ExecutionStatus.cancelled = true
was_cancelled _ = false

-- `_last_terminal_process_tx`
unfoldable pub last_terminal : List Evidence → ℕ → Option Evidence
last_terminal processes execution =
    latest_of (keep (λ e. (e.execution_uuid == execution) && is_terminal e.status) processes)

-- The children that did not succeed, `failed or cancelled`: the code, and the first of them.
abbrev pub unsuccessful : List Child → List Child → Option (String × Child)
unsuccessful (c ∷ cs) cancelled = some ("scatter-required-child-failed", c)
unsuccessful [] (c ∷ cs) = some ("scatter-required-child-cancelled", c)
unsuccessful [] [] = none

abbrev pub failures : List Child → Option (String × Child)
failures bound =
    unsuccessful (keep (λ c. has_failed c.status) bound) (keep (λ c. was_cancelled c.status) bound)

abbrev pub settle : Fan → List Member → List Child → Option (String × Child) → Verdict
settle f expected bound (some (code, child)) =
    fails code (last_terminal f.processes child.execution_uuid)
settle f expected bound none =
    verdict_of (prove_children f (sort_children bound) (sort_members expected))

-- What the bound children give.
abbrev pub collect : Fan → List Member → Option (List Child) → Verdict
collect f expected none = breaks child_intent_invalid
collect f expected (some bound) =
    if not (length bound == length expected)
    then breaks child_intent_invalid
    else if any (λ c. not (is_terminal_execution c.status)) bound
    then waits
    else settle f expected bound (failures bound)

abbrev pub of_empty : Option Evidence → Verdict
of_empty none = breaks zero_proof_missing
of_empty (some e) = ends_empty e

abbrev pub fan_in : Fan → ℕ → ℕ → Option (List Member) → Verdict
fan_in f snapshot change_set none = breaks required_set_invalid
fan_in f snapshot change_set (some []) =
    of_empty (root_terminal_proof f.execution_uuid f.processes none)
fan_in f snapshot change_set (some (m ∷ ms)) =
    let bound = bind_children snapshot change_set f.children (by_item (m ∷ ms)) in
    if not (is_some f.change_set_digest)
    then breaks change_set_missing
    else if not (all (is_expected (m ∷ ms)) f.children)
    then breaks child_intent_invalid
    else collect f (m ∷ ms) bound

abbrev pub of_task : Fan → Option (Option ℕ × Option ℕ) → Verdict
of_task f (some (some snapshot, some change_set)) =
    fan_in f snapshot change_set (expected_members f.has_change_set f.memberships f.facts)
of_task f _ = breaks acceptance_binding_missing

abbrev pub is_waiting : ExecutionStatus → Bool
is_waiting ExecutionStatus.waiting = true
is_waiting _ = false

-- `_maybe_converge_scatter_root_tx`
unfoldable pub maybe_converge : Fan → Verdict
maybe_converge f =
    if (role_is_root f.execution_role && is_waiting f.status)
      && (f.waiting_reason == some "scatter_children")
    then of_task f f.task
    else ignored

abbrev pub entered : Fan → Option ℕ → Option (List Member) → Verdict
entered f source none = breaks required_set_invalid
entered f source (some []) = of_empty (root_terminal_proof f.execution_uuid f.processes source)
entered f source (some (m ∷ ms)) = waits

abbrev pub enter_task : Fan → Option ℕ → Option (Option ℕ × Option ℕ) → Verdict
enter_task f source (some (some snapshot, some change_set)) =
    if f.root_snapshot_uuid == some snapshot
    then entered f source (expected_members f.has_change_set f.memberships f.facts)
    else breaks acceptance_binding_missing
enter_task f source _ = breaks acceptance_binding_missing

-- `_enter_scatter_children_join_tx`, with the source Process: the root waits for its members, which
-- are released.
unfoldable pub enter_join : Fan → Option ℕ → Verdict
enter_join f source =
    if is_terminal_execution f.status || is_cancelling_execution f.status
    then ignored
    else enter_task f source f.task
