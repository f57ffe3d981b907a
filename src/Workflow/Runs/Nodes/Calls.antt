-- ===== src/Workflow/Runs/Nodes/Calls.antt =====
-- The attempts of a node after calls.
use brain_inspired_agent.Prelude.{
  ℕ, ◌+◌, String, ◌≡◌, refl, sym, ap, ◌∙◌, subst, true, false, Option, none, some, List, [], ◌∷◌,
  ◌++◌, map, ◌==◌, str_eq, eq_iff, arith, if◌then◌else◌, Option-cases, Bool-cases, inl, inr, Result,
  ok, raise, Result-cases,
}
use brain_inspired_agent.Workflow.Runs.{RunStateError, timestamp, identity, transition_fields}
use brain_inspired_agent.Workflow.Runs.Nodes.{
  NodeRunStatus, pending, ready, running, succeeded, failed, timed_out, cancelled, skipped,
  requires_review, text_of, parse, is_member, terminal, transitions, NodeRow, NodeRun, NodeStore,
  CreateNode, TransitionNode, same_node, latest, attempts_of, new_row, check_attempt,
  insert_transition, create_node, swaps, moved_row, move_node, check_outputs, node_event, get_node,
  transition_node, Call, create_call, transition_call, after, call, calls, empty,
}
use brain_inspired_agent.Workflow.Runs.Nodes.Attempts.{
  done_status, is_done, sequential, Next, sequential-snoc, sequential-map, attempts-snoc,
  attempts-map,
}

created-Next : (a : ℕ) (o : Option NodeRow) → check_attempt a o ≡ ok tt → Next 0 a o
unfolding check_attempt is_done
created-Next a none h = ground (arith, h)
created-Next a (some p) h = elim (Option-cases (parse p.status)) [
  | inl n ↦ absurd (ground (arith, h, n))
  | inr (s, n) ↦
      let count : a ≡ p.attempt + 1 = ground (arith, h, n) in
      let member : is_member s terminal ≡ true = ground (arith, h, n, count) in
      (omega (arith, count), ap done_status n ∙ member)
]

-- The status that a move of the table leaves is not terminal.
not_terminal :
    (s to : NodeRunStatus) → is_member to (transitions s) ≡ true → is_member s terminal ≡ false
not_terminal pending to h = refl
not_terminal ready to h = refl
not_terminal running to h = refl
not_terminal succeeded to h = absurd (ground (arith, h))
not_terminal failed to h = absurd (ground (arith, h))
not_terminal timed_out to h = absurd (ground (arith, h))
not_terminal cancelled to h = absurd (ground (arith, h))
not_terminal skipped to h = absurd (ground (arith, h))
not_terminal requires_review to h = absurd (ground (arith, h))

parse-text_of : (s : NodeRunStatus) → parse (text_of s) ≡ some s
parse-text_of pending = refl
parse-text_of ready = refl
parse-text_of running = refl
parse-text_of succeeded = refl
parse-text_of failed = refl
parse-text_of timed_out = refl
parse-text_of cancelled = refl
parse-text_of skipped = refl
parse-text_of requires_review = refl

abbrev move_row : TransitionNode → NodeRun → NodeRow → NodeRow
move_row t current r = if swaps t current r then moved_row t current t.occurred_at.instant r else r

attempt-move_row :
    (t : TransitionNode) (current : NodeRun) (r : NodeRow)
    → (move_row t current r).attempt ≡ r.attempt
attempt-move_row t current r = elim (Bool-cases (swaps t current r)) [
  | inl e ↦ rw e refl
  | inr e ↦ rw e refl
]

same_node-move_row :
    (t : TransitionNode) (current : NodeRun) (run_id node_id : String) (r : NodeRow)
    → same_node run_id node_id (move_row t current r) ≡ same_node run_id node_id r
same_node-move_row t current run_id node_id r = elim (Bool-cases (swaps t current r)) [
  | inl e ↦ rw e refl
  | inr e ↦ rw e refl
]

row_stays :
    (t : TransitionNode) (current : NodeRun) (r : NodeRow)
    → swaps t current r ≡ false
    → move_row t current r ≡ r
row_stays t current r e = rw e refl

-- A row that is done is not the one that moves.
done-move_row :
    (t : TransitionNode) (current : NodeRun) (r : NodeRow)
    → is_member t.to_status (transitions current.status) ≡ true
    → is_done r ≡ true
    → is_done (move_row t current r) ≡ true
unfolding is_done
done-move_row t current r allowed h = elim (Bool-cases (str_eq r.status (text_of current.status))) [
  | inl e ↦
      let same = (eq_iff r.status (text_of current.status)).0 e in
      let ended : is_member current.status terminal ≡ true =
        ap done_status (sym (parse-text_of current.status))
        ∙ ap (λ x. done_status (parse x)) (sym same)
        ∙ h in
      absurd (ground (arith, ended, not_terminal current.status t.to_status allowed))
  | inr e ↦
      let stays : swaps t current r ≡ false = ground (arith, e) in
      subst (λ x. done_status (parse x.status) ≡ true) (sym (row_stays t current r stays)) h
]

abbrev AllSequential : NodeStore → Type 0
AllSequential db =
    (run_id node_id : String) → sequential 0 (attempts_of run_id node_id db.nodes) ≡ true

create-ok :
    (c : CreateNode) (db db' : NodeStore) (run : NodeRun)
    → create_node c db ≡ ok (run, db')
    → (check_attempt c.key.attempt (latest (attempts_of c.key.run_id c.key.node_id db.nodes))
        ≡ ok tt)
      × (db.nodes ++ new_row c c.created_at.instant ∷ [] ≡ db'.nodes)
unfolding create_node timestamp insert_transition
create-ok c db db' run e =
    let named : identity (c.key.run_id ∷ c.key.node_id ∷ c.correlation_id ∷ []) ≡ ok tt =
      ground (arith, e) in
    let checked : check_attempt c.key.attempt
          (latest (attempts_of c.key.run_id c.key.node_id db.nodes))
        ≡ ok tt =
      ground (arith, e, named) in
    (checked, ground (arith, e, named, checked))

move-ok :
    (t : TransitionNode) (current : NodeRun) (db db' : NodeStore) (run : NodeRun)
    → move_node t current db ≡ ok (run, db')
    → (is_member t.to_status (transitions current.status) ≡ true)
      × (map (move_row t current) db.nodes ≡ db'.nodes)
unfolding move_node timestamp insert_transition
move-ok t current db db' run e =
    let allowed : is_member t.to_status (transitions current.status) ≡ true = ground (arith, e) in
    let fields : transition_fields (text_of t.to_status) t.reason t.error_id ≡ ok tt =
      ground (arith, e, allowed) in
    let version : (current.row.version == t.expected_version) ≡ true =
      ground (arith, e, allowed, fields) in
    let outputs : check_outputs t ≡ ok tt = ground (arith, e, allowed, fields, version) in
    (allowed, ground (arith, e, allowed, fields, version, outputs))

create-sequential :
    (c : CreateNode) (db db' : NodeStore) (run : NodeRun)
    → AllSequential db
    → create_node c db ≡ ok (run, db')
    → AllSequential db'
create-sequential c db db' run v e run_id node_id =
    let new = new_row c c.created_at.instant in
    let (checked, nodes) = create-ok c db db' run e in
    let next =
      created-Next c.key.attempt (latest (attempts_of c.key.run_id c.key.node_id db.nodes))
        checked in
    let added = attempts-snoc run_id node_id db.nodes new in
    subst (λ rows. sequential 0 (attempts_of run_id node_id rows) ≡ true) nodes
      (elim (Bool-cases (same_node run_id node_id new)) [
        | inl s ↦
            let run_same = (eq_iff c.key.run_id run_id).0 (ground (arith, s)) in
            let node_same = (eq_iff c.key.node_id node_id).0 (ground (arith, s)) in
            let here =
              sequential-snoc 0 c.key.attempt (attempts_of c.key.run_id c.key.node_id db.nodes) new
                refl (v c.key.run_id c.key.node_id) next in
            let grown : attempts_of run_id node_id (db.nodes ++ new ∷ [])
                ≡ attempts_of run_id node_id db.nodes ++ new ∷ [] =
              ground (arith, added, s) in
            ap (sequential 0) grown
            ∙ (ap (λ k. sequential 0 (attempts_of k node_id db.nodes ++ new ∷ [])) (sym run_same)
                ∙ (ap (λ k. sequential 0 (attempts_of c.key.run_id k db.nodes ++ new ∷ []))
                      (sym node_same)
                    ∙ here))
        | inr s ↦
            let same : attempts_of run_id node_id (db.nodes ++ new ∷ [])
                ≡ attempts_of run_id node_id db.nodes =
              ground (arith, added, s) in
            ap (sequential 0) same ∙ v run_id node_id
      ])

move-sequential :
    (t : TransitionNode) (current : NodeRun) (db db' : NodeStore) (run : NodeRun)
    → AllSequential db
    → move_node t current db ≡ ok (run, db')
    → AllSequential db'
move-sequential t current db db' run v e run_id node_id =
    let (allowed, nodes) = move-ok t current db db' run e in
    subst (λ rows. sequential 0 (attempts_of run_id node_id rows) ≡ true) nodes
      (ap (sequential 0) (
          attempts-map run_id node_id (move_row t current) db.nodes
            (same_node-move_row t current run_id node_id))
        ∙ sequential-map (move_row t current) 0 (attempts_of run_id node_id db.nodes)
            (attempt-move_row t current) (λ r. done-move_row t current r allowed)
            (v run_id node_id))

transition-sequential :
    (t : TransitionNode) (db db' : NodeStore) (run : NodeRun)
    → AllSequential db
    → transition_node t db ≡ ok (run, db')
    → AllSequential db'
unfolding transition_node
transition-sequential t db db' run v e = elim (Result-cases (get_node t.key db)) [
  | inr (x, f) ↦ absurd (ground (arith, e, f))
  | inl (current, f) ↦ elim (Option-cases (node_event t.event_id db.log)) [
    | inl n ↦ move-sequential t current db db' run v (ground (arith, e, f, n))
    | inr ((key, duplicate), n) ↦
        let same : db ≡ db' = ground (arith, e, f, n) in subst AllSequential same v
  ]
]

after-sequential :
    (db : NodeStore) (m : Result RunStateError (NodeRun × NodeStore))
    → AllSequential db
    → ((run : NodeRun) (db' : NodeStore) → m ≡ ok (run, db') → AllSequential db')
    → AllSequential (after db m)
after-sequential db (ok (run, db')) v k = k run db' refl
after-sequential db (raise e) v k = v

calls-sequential :
    (cs : List Call) (db : NodeStore) → AllSequential db → AllSequential (calls cs db)
unfolding calls call
calls-sequential [] db v = v
calls-sequential (create_call c ∷ cs) db v =
    calls-sequential cs (after db (create_node c db))
      (after-sequential db (create_node c db) v (λ run db' e. create-sequential c db db' run v e))
calls-sequential (transition_call t ∷ cs) db v =
    calls-sequential cs (after db (transition_node t db)) (
      after-sequential db (transition_node t db) v
        (λ run db' e. transition-sequential t db db' run v e))

-- After any calls of `create_node` and `transition_node` on empty tables, the attempts of every node of
-- every run, in the order of their creation, are numbered from one without a gap, and every attempt but
-- the last is in a terminal status.
pub attempts-calls :
    (workflow_runs : List String) (cs : List Call) (run_id node_id : String)
    → sequential 0 (attempts_of run_id node_id (calls cs (empty workflow_runs)).nodes) ≡ true
attempts-calls workflow_runs cs = calls-sequential cs (empty workflow_runs) (λ run_id node_id. refl)
