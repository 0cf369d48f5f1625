-- ===== src/Flume/Dispatch/Recorded.antt =====
-- What a dispatch leaves in the receipts file: crates/flume/src/lib.rs and receipts.rs.
use artesian.Base.{
  String, Bool, true, false, Option, none, some, List, [], ◌∷◌, ◌++◌, ◌≡◌, refl, sym, ◌∙◌, ap,
  subst, append_nil, arith, ◌⊎◌, inl, inr,
}
use artesian.Base.Results.{Result, ok, err, Result-cases}
use mathlib.Core.List.{append_assoc}
use artesian.Headgate.Text.{TextOps}
use artesian.Flume.Envelope.{BudgetEnvelope}
use artesian.Flume.Redact.{redact_secrets}
use artesian.Flume.Delegation.{Delegation, FlumeError, receipt_refused, agent_error}
use artesian.Flume.Receipts.{
  StopReason, done, error, SpawnReceipt, ReturnReceipt, ReceiptsConfig, ReceiptWriter,
  receipts_from_env, check_admission, truthy_env,
}
use artesian.Flume.Dispatch.{
  SpawnRequest, TeamWorkerEvent, TeamExecution, team_events, Processes, request_of, start_worker,
  answer, Act, wrote_spawn, started, wrote_return, Registry, classify_stop_reason,
  resolve_receipt_budget, open_writer, append, return_receipt_of, write_return_receipt, receive,
  run_worker, spawn_receipt_of, after_spawn_receipt, after_open, execute_delegation_via_process,
}

-- The reason to stop that a result stands for.
abbrev pub reason_of : Result FlumeError TeamExecution → StopReason
reason_of (ok _) = done
reason_of (err (agent_error message)) = classify_stop_reason message
reason_of (err _) = error

-- The acts of a dispatch: none where it is refused, which only happens when it fails closed; the
-- start with no receipt, which only happens when it does not; the spawn receipt and the start; or
-- these and one return receipt, which names the spawn receipt and gives the reason of the result.
pub data Recorded {C : Type 0} (fail_closed : Bool) (acts : List (Act C))
    (result : Result FlumeError TeamExecution) : Type 0 where
  is_refused :
      (why : String)
      → fail_closed ≡ true
      → acts ≡ []
      → result ≡ err (receipt_refused why)
      → Recorded fail_closed acts result
  is_unrecorded :
      (request : SpawnRequest)
      → fail_closed ≡ false
      → acts ≡ started request ∷ []
      → Recorded fail_closed acts result
  is_open :
      (receipt : SpawnReceipt C) (request : SpawnRequest)
      → acts ≡ wrote_spawn receipt ∷ started request ∷ []
      → Recorded fail_closed acts result
  is_closed :
      (receipt : SpawnReceipt C) (request : SpawnRequest) (end : ReturnReceipt C)
      → end.spawn_ref ≡ receipt.receipt_id
      → end.stop_reason ≡ reason_of result
      → acts ≡ wrote_spawn receipt ∷ started request ∷ wrote_return end ∷ []
      → Recorded fail_closed acts result

-- The acts after a call are those before it and some more, of which the property holds.
abbrev pub Extends :
    {C S : Type 0}
    → (List (Act C) → Result FlumeError TeamExecution → Type 0)
    → Registry C S
    → Registry C S × Result FlumeError TeamExecution
    → Type 0
Extends {C} P before (after, result) =
    (more : List (Act C)) × (after.acts ≡ before.acts ++ more) × P more result

check_admission-err :
    {C : Type 0} (budget : BudgetEnvelope C) (fail_closed : Bool) {reason : String}
    → check_admission budget fail_closed ≡ err reason
    → fail_closed ≡ true
unfolding check_admission
check_admission-err budget fail_closed h = ground (arith, h)

-- The acts after a line was written, or was not.
abbrev Appended :
    {C S : Type 0} → List (Act C) → Act C → Registry C S × Result String (Unit {0}) → Type 0
Appended acts act (after, err e) = after.acts ≡ acts
Appended acts act (after, ok _) = after.acts ≡ acts ++ act ∷ []

module _ {C N A S : Type 0} ⦃t : TextOps⦄ (p : Processes N A S) where
  append-Appended : (reg : Registry C S) (act : Act C) → Appended reg.acts act (append p reg act)
  unfolding append
  append-Appended reg act = elim (Result-cases (p.append_line reg.world).1) [
    | inl (e, failed) ↦ rw (append, failed) refl
    | inr (_, written) ↦ rw (append, written) refl
  ]

  append-acts :
      (reg : Registry C S) (act : Act C)
      → ((append p reg act).0.acts ≡ reg.acts) ⊎ ((append p reg act).0.acts ≡ reg.acts ++ act ∷ [])
  unfolding append
  append-acts reg act = elim (Result-cases (p.append_line reg.world).1) [
    | inl (e, failed) ↦ inl (rw (append, failed) refl)
    | inr (_, written) ↦ inr (rw (append, written) refl)
  ]

  write_return_receipt-none :
      (reg : Registry C S) (writer : Option ReceiptWriter) (reason : StopReason)
      (source : Option String) (events : List TeamWorkerEvent)
      → (write_return_receipt p reg writer none reason source events).acts ≡ reg.acts
  unfolding write_return_receipt
  write_return_receipt-none reg none reason source events = refl
  write_return_receipt-none reg (some writer) reason source events = refl

  write_return_receipt-some :
      (reg : Registry C S) (writer : ReceiptWriter) (receipt : SpawnReceipt C) (reason : StopReason)
      (source : Option String) (events : List TeamWorkerEvent)
      → let after = write_return_receipt p reg (some writer) (some receipt) reason source events in
        (after.acts ≡ reg.acts)
        ⊎ ((end : ReturnReceipt C) × (end.spawn_ref ≡ receipt.receipt_id)
            × (end.stop_reason ≡ reason)
            × (after.acts ≡ reg.acts ++ wrote_return end ∷ []))
  unfolding write_return_receipt
  write_return_receipt-some reg writer receipt reason source events =
      let (at, end) = return_receipt_of p reg writer receipt reason source events in
      elim (append-acts at (wrote_return end)) [
        | inl same ↦ inl same
        | inr more ↦ inr (end, refl, refl, more)
      ]

  -- The end of a dispatch whose worker has no receipt, and of one whose worker has.
  end_dropped :
      (fail_closed : Bool) (before reg : Registry C S) (request : SpawnRequest)
      (writer : Option ReceiptWriter) (reason : StopReason) (source : Option String)
      (events : List TeamWorkerEvent) (result : Result FlumeError TeamExecution)
      → fail_closed ≡ false
      → reg.acts ≡ before.acts ++ started request ∷ []
      → Extends
          (Recorded fail_closed)
          before
          (write_return_receipt p reg writer none reason source events, result)
  end_dropped fail_closed before reg request writer reason source events result off acts = (
    started request ∷ [],
    write_return_receipt-none reg writer reason source events ∙ acts,
    is_unrecorded request off refl,
  )

  end_kept :
      (fail_closed : Bool) (before reg : Registry C S) (request : SpawnRequest)
      (writer : ReceiptWriter) (receipt : SpawnReceipt C) (source : Option String)
      (events : List TeamWorkerEvent) (result : Result FlumeError TeamExecution)
      → reg.acts ≡ before.acts ++ wrote_spawn receipt ∷ started request ∷ []
      → Extends (Recorded fail_closed) before (
        write_return_receipt p reg (some writer) (some receipt) (reason_of result) source events,
        result,
      )
  end_kept fail_closed before reg request writer receipt source events result acts =
      elim (write_return_receipt-some reg writer receipt (reason_of result) source events) [
        | inl same ↦
            (wrote_spawn receipt ∷ started request ∷ [], same ∙ acts, is_open receipt request refl)
        | inr (end, names, reason, more) ↦ (
          wrote_spawn receipt ∷ started request ∷ wrote_return end ∷ [],
          more
              ∙ ap (λ l. l ++ wrote_return end ∷ []) acts
              ∙ append_assoc before.acts (wrote_spawn receipt ∷ started request ∷ [])
                  (wrote_return end ∷ []),
          is_closed receipt request end names reason refl,
        )
      ]

  receive-dropped :
      (fail_closed : Bool) (before reg : Registry C S) (request : SpawnRequest)
      (writer : Option ReceiptWriter) (events : List TeamWorkerEvent)
      (response : Result String String)
      → fail_closed ≡ false
      → reg.acts ≡ before.acts ++ started request ∷ []
      → Extends (Recorded fail_closed) before (receive p reg writer none events response)
  receive-dropped fail_closed before reg request writer events (err e) off acts =
      end_dropped fail_closed before reg request writer (classify_stop_reason e) none events
        (err (agent_error e)) off acts
  receive-dropped fail_closed before reg request writer events (ok content) off acts =
      end_dropped fail_closed before reg request writer done (some content) events
        (ok record { response = redact_secrets content; events = events }) off acts

  receive-kept :
      (fail_closed : Bool) (before reg : Registry C S) (request : SpawnRequest)
      (writer : ReceiptWriter) (receipt : SpawnReceipt C) (events : List TeamWorkerEvent)
      (response : Result String String)
      → reg.acts ≡ before.acts ++ wrote_spawn receipt ∷ started request ∷ []
      → Extends
          (Recorded fail_closed)
          before
          (receive p reg (some writer) (some receipt) events response)
  receive-kept fail_closed before reg request writer receipt events (err e) acts =
      end_kept fail_closed before reg request writer receipt none events (err (agent_error e)) acts
  receive-kept fail_closed before reg request writer receipt events (ok content) acts =
      end_kept fail_closed before reg request writer receipt (some content) events
        (ok record { response = redact_secrets content; events = events }) acts

  answer-dropped :
      (fail_closed : Bool) (before reg : Registry C S) (session : Result String A)
      (request : SpawnRequest) (instruction team_id teammate : String)
      (writer : Option ReceiptWriter)
      → fail_closed ≡ false
      → reg.acts ≡ before.acts ++ started request ∷ []
      → Extends
          (Recorded fail_closed)
          before
          (answer p (reg, session) instruction team_id teammate writer none)
  unfolding answer
  answer-dropped fail_closed before reg (err e) request instruction team_id teammate writer off
        acts =
      end_dropped fail_closed before reg request writer (classify_stop_reason e) none []
        (err (agent_error e)) off acts
  answer-dropped fail_closed before reg (ok session) request instruction team_id teammate writer off
        acts =
      let (world, events, response) = p.send reg.world session instruction in
      receive-dropped fail_closed before (record reg { world = world }) request writer
        (team_events team_id teammate events) response off acts

  answer-kept :
      (fail_closed : Bool) (before reg : Registry C S) (session : Result String A)
      (request : SpawnRequest) (instruction team_id teammate : String) (writer : ReceiptWriter)
      (receipt : SpawnReceipt C)
      → reg.acts ≡ before.acts ++ wrote_spawn receipt ∷ started request ∷ []
      → Extends
          (Recorded fail_closed)
          before
          (answer p (reg, session) instruction team_id teammate (some writer) (some receipt))
  unfolding answer
  answer-kept fail_closed before reg (err e) request instruction team_id teammate writer receipt
        acts =
      end_kept fail_closed before reg request writer receipt none [] (err (agent_error e)) acts
  answer-kept fail_closed before reg (ok session) request instruction team_id teammate writer
        receipt acts =
      let (world, events, response) = p.send reg.world session instruction in
      receive-kept fail_closed before (record reg { world = world }) request writer receipt
        (team_events team_id teammate events) response acts

  run_worker-dropped :
      (fail_closed : Bool) (before reg : Registry C S) (native : Option N) (d : Delegation C)
      (repo_root team_id teammate : String) (writer : Option ReceiptWriter)
      → fail_closed ≡ false
      → reg.acts ≡ before.acts
      → Extends
          (Recorded fail_closed)
          before
          (run_worker p reg native d repo_root team_id teammate writer none)
  unfolding run_worker
  run_worker-dropped fail_closed before reg native d repo_root team_id teammate writer off acts =
      let request = request_of d repo_root in
      let (began, session) = start_worker p reg native request in
      answer-dropped fail_closed before began session request d.instruction team_id teammate writer
        off (ap (λ l. l ++ started request ∷ []) acts)

  run_worker-kept :
      (fail_closed : Bool) (before reg : Registry C S) (native : Option N) (d : Delegation C)
      (repo_root team_id teammate : String) (writer : ReceiptWriter) (receipt : SpawnReceipt C)
      → reg.acts ≡ before.acts ++ wrote_spawn receipt ∷ []
      → Extends
          (Recorded fail_closed)
          before
          (run_worker p reg native d repo_root team_id teammate (some writer) (some receipt))
  unfolding run_worker
  run_worker-kept fail_closed before reg native d repo_root team_id teammate writer receipt acts =
      let request = request_of d repo_root in
      let (began, session) = start_worker p reg native request in
      answer-kept fail_closed before began session request d.instruction team_id teammate writer
        receipt
        (ap (λ l. l ++ started request ∷ []) acts
          ∙ append_assoc before.acts (wrote_spawn receipt ∷ []) (started request ∷ []))

  after_spawn_receipt-Recorded :
      (fail_closed : Bool) (before : Registry C S) (native : Option N) (d : Delegation C)
      (repo_root team_id teammate : String) (writer : ReceiptWriter) (receipt : SpawnReceipt C)
      (r : Registry C S × Result String (Unit {0}))
      → Appended before.acts (wrote_spawn receipt) r
      → Extends
          (Recorded fail_closed)
          before
          (after_spawn_receipt p native d repo_root team_id teammate fail_closed writer receipt r)
  after_spawn_receipt-Recorded true before native d repo_root team_id teammate writer receipt
        (reg, err e) acts =
      ([], acts ∙ sym (append_nil before.acts), is_refused _ refl refl refl)
  after_spawn_receipt-Recorded false before native d repo_root team_id teammate writer receipt
        (reg, err e) acts =
      run_worker-dropped false before reg native d repo_root team_id teammate (some writer) refl
        acts
  after_spawn_receipt-Recorded fail_closed before native d repo_root team_id teammate writer receipt
        (reg, ok _) acts =
      run_worker-kept fail_closed before reg native d repo_root team_id teammate writer receipt acts

  after_open-Recorded :
      (fail_closed : Bool) (before : Registry C S) (native : Option N) (d : Delegation C)
      (repo_root team_id teammate : String) (budget : BudgetEnvelope C)
      (r : Registry C S × Result String ReceiptWriter)
      → r.0.acts ≡ before.acts
      → Extends
          (Recorded fail_closed)
          before
          (after_open p native d repo_root team_id teammate fail_closed budget r)
  after_open-Recorded true before native d repo_root team_id teammate budget (reg, err e) acts =
      ([], acts ∙ sym (append_nil before.acts), is_refused _ refl refl refl)
  after_open-Recorded false before native d repo_root team_id teammate budget (reg, err e) acts =
      run_worker-dropped false before reg native d repo_root team_id teammate none refl acts
  after_open-Recorded fail_closed before native d repo_root team_id teammate budget (reg, ok writer)
        acts =
      let (at, receipt) = spawn_receipt_of p reg writer d budget in
      let written = append-Appended at (wrote_spawn receipt) in
      after_spawn_receipt-Recorded fail_closed before native d repo_root team_id teammate writer
        receipt (append p at (wrote_spawn receipt))
        (subst (λ l. Appended l (wrote_spawn receipt) (append p at (wrote_spawn receipt))) acts
          written)

  open_writer-acts :
      (reg : Registry C S) (run : String) (fsync : Bool)
      → (open_writer p reg run fsync).0.acts ≡ reg.acts
  unfolding open_writer
  open_writer-acts reg run fsync = elim (Result-cases (p.open_receipts reg.world).1) [
    | inl (e, failed) ↦ rw (open_writer, failed) refl
    | inr (_, opened) ↦ rw (open_writer, opened) refl
  ]

  -- Whatever the processes, the file system and the delegation are: a dispatch either is refused
  -- with no act, which only happens when it fails closed; or starts the worker with no receipt,
  -- which only happens when it does not fail closed; or writes the spawn receipt before the worker
  -- starts, and then at most one return receipt, which names that spawn receipt and gives the reason
  -- to stop that the result stands for.
  pub execute_delegation_via_process-Recorded :
      (reg : Registry C S) (env : Option String) (native : Option N) (d : Delegation C)
      (repo_root team_id teammate : String)
      → Extends
          (Recorded (truthy_env env))
          reg
          (execute_delegation_via_process p reg env native d repo_root team_id teammate)
  unfolding execute_delegation_via_process
  execute_delegation_via_process-Recorded reg env native d repo_root team_id teammate =
      let config : ReceiptsConfig C = receipts_from_env env in
      let budget = resolve_receipt_budget d config in
      elim (Result-cases (check_admission budget config.fail_closed)) [
        | inl (reason, failed) ↦
            rw (execute_delegation_via_process, failed)
              (
                [],
                sym (append_nil reg.acts),
                is_refused _ (check_admission-err budget (truthy_env env) failed) refl refl,
              )
        | inr (_, admitted) ↦
            rw (execute_delegation_via_process, admitted)
              (after_open-Recorded (truthy_env env) reg native d repo_root team_id teammate budget
                (open_writer p reg team_id false) (open_writer-acts reg team_id false))
      ]
