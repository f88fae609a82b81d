-- ===== src/AutoCaller/Call/Safety.antt =====
-- What the goroutines of the auto-caller may do to a row of the call table.
use btp_sdk.Base.{
  ℕ, ◌≡◌, refl, ap, ◌∙◌, ◌≢◌, ◌⊎◌, inl, inr, String, Bool, true, false, Option, none, some, List,
  [], ◌∷◌, ◌==◌, ==_iff, arith, Bool-cases, Option-cases, str_eq,
}
use btp_sdk.Base.Results.{Result, ok, err, Result-cases}
use btp_sdk.AutoCaller.Task.{TaskState, task_none, sent, done, not_applicable, is_done}
use btp_sdk.AutoCaller.Repository.{Table, IsTable}
use btp_sdk.AutoCaller.Event.{
  Event, InvokeError, estimate_error, other_error, TxResult, success, failure, ResultError,
  not_found_transaction, other_result_error,
}
use btp_sdk.AutoCaller.CallRow.{
  Call, key, with_id, new_call, event_call_message, event_call_executed,
}
use btp_sdk.AutoCaller.Call.{
  executed_call, CallQuery, by_network_and_req_id, not_done, World, save_call, failed_call,
  save_logged, on_call_error, await_call, execute_call, call_result, on_call_message,
  on_call_executed, on_call_event, Input, event, result, take_out, step, run,
}

-- The states that the auto-caller writes.
abbrev pub is_active : TaskState → Bool
is_active task_none = false
is_active not_applicable = false
is_active _ = true

-- A row is left alone; or it is new or not done, and now holds a call in an active state.
abbrev pub Fits : Option Call → Option Call → Type 0
Fits o o' =
    (o' ≡ o) ⊎ ((c : Call) × (not_done o ≡ true) × (o' ≡ some c) × (is_active c.task.state ≡ true))

Fits-trans : (a b c : Option Call) → Fits a b → Fits b c → Fits a c
Fits-trans a b c (inl p) (inl q) = inl (q ∙ p)
Fits-trans a b c (inl p) (inr (x, q, e, act)) = inr (x, rw (← p) q, e, act)
Fits-trans a b c (inr (x, p, e, act)) (inl q) = inr (x, p, q ∙ e, act)
Fits-trans a b c (inr (x, p, e, act)) (inr (y, q, e', act')) = inr (y, p, e', act')

module _ (t : Table Call CallQuery key) (law : IsTable t with_id) where
  open t use {Store, row, save, first, find_one}

  abbrev pub FitsAll : Store → Store → Type 0
  FitsAll s s' = (id : ℕ) → Fits (row s id) (row s' id)

  save-Fits :
      (v : Call) (s s' : Store) (v' : Call)
      → is_active v.task.state ≡ true
      → ((key v ≢ 0) → not_done (row s (key v)) ≡ true)
      → save v s ≡ ok (s', v')
      → FitsAll s s'
  save-Fits v s s' v' act open_row e id = elim (Bool-cases (id == key v')) [
    | inr other ↦ inl (law.saved_other v s s' v' e id (λ p. ground (arith, ==_iff id (key v'))))
    | inl same ↦
        let p : id ≡ key v' = ground (arith, ==_iff id (key v')) in
        let (shape, written) = law.saved_row v s s' v' e in
        let state : v'.task.state ≡ v.task.state = ap (λ (c : Call). c.task.state) shape in
        let overwritten : not_done (row s (key v')) ≡ true = elim (law.saved_key v s s' v' e) [
          | inl (fresh, absent) ↦ rw absent refl
          | inr (old, kept) ↦ rw kept (open_row old)
        ] in
        rw p (inr (v', overwritten, written, ap is_active state ∙ act))
  ]

  save_call-Fits :
      (v : Call) (s s' : Store) (v' : Call) {saved : Bool}
      → is_active v.task.state ≡ true
      → save_call t v s ≡ ok (s', v', saved)
      → FitsAll s s'
  unfolding save_call
  save_call-Fits v s s' v' act e = elim (Result-cases (save v s)) [
    | inl ((s1, v1), q) ↦ elim (Bool-cases (key v == 0)) [
      | inl fresh ↦
          let same : s1 ≡ s' = ground arith in
          rw (← same) (save-Fits v s s1 v1 act (λ old. absurd (ground (arith, ==_iff (key v) 0))) q)
      | inr old ↦ elim (Result-cases (first (key v) s)) [
        | inr (x, failed) ↦ absurd (ground arith)
        | inl (found, at) ↦ elim (Bool-cases (not_done found)) [
          | inr kept ↦ let same : s ≡ s' = ground arith in rw (← same) (λ id. inl refl)
          | inl free ↦
              let same : s1 ≡ s' = ground arith in
              let here : found ≡ row s (key v) = law.first_row (key v) s found at in
              rw (← same) (save-Fits v s s1 v1 act (λ p. rw (← here) free) q)
        ]
      ]
    ]
    | inr (x, q) ↦ let same : s ≡ s' = ground arith in rw (← same) (λ id. inl refl)
  ]

  FitsAll-refl : (s : Store) → FitsAll s s
  FitsAll-refl s = λ id. inl refl

  save_logged-Fits :
      (cm : Call) (w : World t)
      → is_active cm.task.state ≡ true
      → FitsAll w.store (save_logged t cm w).store
  unfolding save_logged
  save_logged-Fits cm w act = elim (Result-cases (save_call t cm w.store)) [
    | inl ((s', v', saved), q) ↦ rw (q, save_logged) (save_call-Fits cm w.store s' v' act q)
    | inr (x, q) ↦ rw (q, save_logged) (FitsAll-refl w.store)
  ]

  await_call-Fits :
      (cm : Call) (w : World t)
      → is_active cm.task.state ≡ true
      → FitsAll w.store (await_call t cm w).store
  unfolding await_call
  await_call-Fits cm w act = elim (Result-cases (save_call t cm w.store)) [
    | inl ((s', v', saved), q) ↦ rw (q, await_call) (save_call-Fits cm w.store s' v' act q)
    | inr (x, q) ↦ rw (q, await_call) (FitsAll-refl w.store)
  ]

  failed_call_active :
      (cm : Call) (e : InvokeError) → is_active (failed_call cm e).task.state ≡ true
  unfolding failed_call
  failed_call_active cm (estimate_error reason text) = ground arith
  failed_call_active cm (other_error text) = refl

  execute_call-Fits :
      (cm : Call) (invoked : Result InvokeError String) (w : World t)
      → FitsAll w.store (execute_call t cm invoked w).store
  unfolding execute_call on_call_error
  execute_call-Fits cm (ok tx) w = await_call-Fits _ _ refl
  execute_call-Fits cm (err e) w = save_logged-Fits _ _ (failed_call_active cm e)

  call_result-Fits :
      (cm : Call) (r : Result ResultError TxResult) (invoked : Result InvokeError String)
      (w : World t)
      → FitsAll w.store (call_result t cm r invoked w).store
  unfolding call_result on_call_error
  call_result-Fits cm (err not_found_transaction) invoked w =
      execute_call-Fits (record cm { task = record cm.task { tx_id = "" } }) invoked w
  call_result-Fits cm (err other_result_error) invoked w = FitsAll-refl w.store
  call_result-Fits cm (ok (failure e)) invoked w = save_logged-Fits _ w (failed_call_active cm e)
  call_result-Fits cm (ok (success height block_id)) invoked w =
      save_logged-Fits
        (record cm {
          task = record cm.task { state = sent; block_id = block_id; block_height = height };
        })
        w refl

  message_state :
      (cm found : Call) (invoked : Result InvokeError String) (w : World t) (st : TaskState)
      → found.task.state ≡ st
      → FitsAll w.store (on_call_message t cm (some found) invoked w).store
  unfolding on_call_message
  message_state cm found invoked w task_none e =
      rw (e, on_call_message) (execute_call-Fits (with_id found.task.id cm) invoked w)
  message_state cm found invoked w st e = rw (e, on_call_message) (FitsAll-refl w.store)

  on_call_message-Fits :
      (cm : Call) (o : Option Call) (invoked : Result InvokeError String) (w : World t)
      → FitsAll w.store (on_call_message t cm o invoked w).store
  unfolding on_call_message
  on_call_message-Fits cm none invoked w = execute_call-Fits cm invoked w
  on_call_message-Fits cm (some found) invoked w =
      message_state cm found invoked w found.task.state refl

  on_call_executed-Fits :
      (cm : Call) (o : Option Call) (w w' : World t)
      → ((found : Call) → o ≡ some found → row w.store (key found) ≡ some found)
      → on_call_executed t cm o w ≡ ok w'
      → FitsAll w.store w'.store
  unfolding on_call_executed
  on_call_executed-Fits cm none w w' known e =
      let same : w ≡ w' = ground arith in rw (← same) (FitsAll-refl w.store)
  on_call_executed-Fits cm (some found) w w' known e =
      elim (Bool-cases (is_done found.task.state)) [
        | inl finished ↦ let same : w ≡ w' = ground arith in rw (← same) (FitsAll-refl w.store)
        | inr going ↦ elim (Result-cases (save (executed_call cm found) w.store)) [
          | inr (x, q) ↦ absurd (ground arith)
          | inl ((s', v'), q) ↦
              let same : record w { store = s' } ≡ w' = ground arith in
              rw (← same) (
                save-Fits (executed_call cm found) w.store s' v' refl
                  (λ p. rw (known found refl) (ground arith)) q)
        ]
      ]

  on_call_event-Fits :
      (network : String) (e : Event) (invoked : Result InvokeError String) (w w' : World t)
      → on_call_event t network e invoked w ≡ ok w'
      → FitsAll w.store w'.store
  unfolding on_call_event
  on_call_event-Fits network e invoked w w' h = elim (Result-cases (new_call network e)) [
    | inr (x, q) ↦ absurd (ground arith)
    | inl (cm, q) ↦
        elim (Result-cases (find_one (by_network_and_req_id cm.task.network cm.req_id) w.store)) [
          | inr (x, missing) ↦ absurd (ground arith)
          | inl (o, found) ↦ elim (Bool-cases (str_eq e.name event_call_message)) [
            | inl message ↦
                let same : on_call_message t cm o invoked w ≡ w' = ground arith in
                rw (← same) (on_call_message-Fits cm o invoked w)
            | inr other ↦ elim (Bool-cases (str_eq e.name event_call_executed)) [
              | inl executed ↦
                  on_call_executed-Fits cm o w w'
                    (λ c p. (law.found_row _ w.store c (rw p at found)).0) (ground arith)
              | inr neither ↦ let same : w ≡ w' = ground arith in rw (← same) (FitsAll-refl w.store)
            ]
          ]
        ]
  ]

  step-Fits : (i : Input) (w : World t) → FitsAll w.store (step t i w).store
  unfolding step
  step-Fits (event network e invoked) w =
      elim (Result-cases (on_call_event t network e invoked w)) [
        | inl (w', q) ↦ rw (q, step) (on_call_event-Fits network e invoked w w' q)
        | inr (x, q) ↦ rw (q, step) (FitsAll-refl w.store)
      ]
  step-Fits (result i r invoked) w = elim (Option-cases (take_out i w.pending)) [
    | inl q ↦ rw (q, step) (FitsAll-refl w.store)
    | inr ((cm, rest), q) ↦
        rw (q, step) (call_result-Fits cm r invoked (record w { pending = rest }))
  ]

  -- Whatever events arrive and in whatever order results come in, with any answers of the chain
  -- and of the database: every row of the call table is left as it was, or it was not done (or
  -- not there) and now holds a call that is sending, sent, skipped, done or failed.
  pub run-Fits :
      (is : List Input) (w : World t) (id : ℕ) → Fits (row w.store id) (row (run t is w).store id)
  unfolding run
  run-Fits [] w id = FitsAll-refl w.store id
  run-Fits (i ∷ is) w id =
      Fits-trans (row w.store id) (row (step t i w).store id) (row (run t is (step t i w)).store id)
        (step-Fits i w id) (run-Fits is (step t i w) id)

  -- A call that is done stays as it is: no later event, result or retry changes its row.
  pub run-done_final :
      (is : List Input) (w : World t) (id : ℕ) (c : Call)
      → row w.store id ≡ some c
      → c.task.state ≡ done
      → row (run t is w).store id ≡ some c
  run-done_final is w id c at finished = elim (run-Fits is w id) [
    | inl same ↦ same ∙ at
    | inr (x, p, e, act) ↦ absurd (ground (arith, ap not_done at))
  ]
