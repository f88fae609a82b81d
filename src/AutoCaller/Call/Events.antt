-- ===== src/AutoCaller/Call/Events.antt =====
-- What one event does: when onCallEvent invokes executeCall, and what CallExecuted records.
use btp_sdk.Base.{
  ◌≡◌, refl, ◌⊎◌, inl, inr, String, true, false, Option, none, some, [], ◌∷◌, ◌++◌, arith,
  Bool-cases, str_eq, eq_iff,
}
use btp_sdk.Base.Results.{Result, ok, err, Result-cases}
use btp_sdk.AutoCaller.Task.{TaskState, task_none, done, is_done}
use btp_sdk.AutoCaller.Repository.{Table, IsTable}
use btp_sdk.AutoCaller.Event.{Event, InvokeError}
use btp_sdk.AutoCaller.CallRow.{
  Call, key, with_id, new_call, event_call_message, event_call_executed,
}
use btp_sdk.AutoCaller.Call.{
  executed_call, CallQuery, by_network_and_req_id, World, save_call, save_logged, on_call_error,
  await_call, execute_call, on_call_message, on_call_executed, on_call_event,
}

module _ (t : Table Call CallQuery key) where
  open t use {Store, row, save, first, find_one}

  save_logged_log : (cm : Call) (w : World t) → (save_logged t cm w).invocations ≡ w.invocations
  unfolding save_logged
  save_logged_log cm w = elim (Result-cases (save_call t cm w.store)) [
    | inl (r, q) ↦ rw (q, save_logged) refl
    | inr (x, q) ↦ rw (q, save_logged) refl
  ]

  await_call_log : (cm : Call) (w : World t) → (await_call t cm w).invocations ≡ w.invocations
  unfolding await_call
  await_call_log cm w = elim (Result-cases (save_call t cm w.store)) [
    | inl (r, q) ↦ rw (q, await_call) refl
    | inr (x, q) ↦ rw (q, await_call) refl
  ]

  execute_call_log :
      (cm : Call) (invoked : Result InvokeError String) (w : World t)
      → (execute_call t cm invoked w).invocations ≡ w.invocations ++ cm.req_id ∷ []
  unfolding execute_call on_call_error
  execute_call_log cm (ok tx) w = await_call_log _ _
  execute_call_log cm (err e) w = save_logged_log _ _

  -- A call is to be executed: it is not in the table, or its row is in the state None.
  abbrev pub IsDue : Option Call → Type 0
  IsDue none = Unit
  IsDue (some found) = found.task.state ≡ task_none

  -- What on_call_message logs.
  abbrev Invokes : Call → Option Call → World t → World t → Type 0
  Invokes cm o w w' =
      (w'.invocations ≡ w.invocations)
      ⊎ ((w'.invocations ≡ w.invocations ++ cm.req_id ∷ []) × IsDue o)

  message_log :
      (cm found : Call) (invoked : Result InvokeError String) (w : World t) (st : TaskState)
      → found.task.state ≡ st
      → Invokes cm (some found) w (on_call_message t cm (some found) invoked w)
  unfolding on_call_message
  message_log cm found invoked w task_none e =
      inr (rw (e, on_call_message) (execute_call_log (with_id found.task.id cm) invoked w), e)
  message_log cm found invoked w st e = inl (rw (e, on_call_message) refl)

  on_call_message_log :
      (cm : Call) (o : Option Call) (invoked : Result InvokeError String) (w : World t)
      → Invokes cm o w (on_call_message t cm o invoked w)
  unfolding on_call_message
  on_call_message_log cm none invoked w = inr (execute_call_log cm invoked w, tt)
  on_call_message_log cm (some found) invoked w =
      message_log cm found invoked w found.task.state refl

  on_call_executed_log :
      (cm : Call) (o : Option Call) (w w' : World t)
      → on_call_executed t cm o w ≡ ok w'
      → w'.invocations ≡ w.invocations
  unfolding on_call_executed
  on_call_executed_log cm none w w' h = ground arith
  on_call_executed_log cm (some found) w w' h = ground arith

  -- An event that is handled invokes executeCall at most once, and only if it is a CallMessage whose
  -- call is not in the table or has a row in the state None; so a call that is sending, sent,
  -- skipped, done or failed is not executed again by an event.
  pub on_call_event_invokes :
      (network : String) (e : Event) (invoked : Result InvokeError String) (w w' : World t)
      → on_call_event t network e invoked w ≡ ok w'
      → (w'.invocations ≡ w.invocations)
        ⊎ ((cm : Call) × (o : Option Call) × (e.name ≡ event_call_message)
            × (new_call network e ≡ ok cm)
            × (find_one (by_network_and_req_id cm.task.network cm.req_id) w.store ≡ ok o)
            × (w'.invocations ≡ w.invocations ++ cm.req_id ∷ [])
            × IsDue o)
  unfolding on_call_event
  on_call_event_invokes network e invoked w w' h = elim (Result-cases (new_call network e)) [
    | inr (x, q) ↦ absurd (ground arith)
    | inl (cm, q) ↦
        elim (Result-cases (find_one (by_network_and_req_id cm.task.network cm.req_id) w.store)) [
          | inr (x, missing) ↦ absurd (ground arith)
          | inl (o, found) ↦ elim (Bool-cases (str_eq e.name event_call_message)) [
            | inl message ↦
                let same : on_call_message t cm o invoked w ≡ w' = ground arith in
                rw (← same) (elim (on_call_message_log cm o invoked w) [
                  | inl kept ↦ inl kept
                  | inr (logged, due) ↦
                      inr
                        (cm, o, (eq_iff e.name event_call_message).0 message, q, found, logged, due)
                ])
            | inr other ↦ elim (Bool-cases (str_eq e.name event_call_executed)) [
              | inl executed ↦ inl (on_call_executed_log cm o w w' (ground arith))
              | inr neither ↦ inl (ground arith)
            ]
          ]
        ]
  ]

  new_call_executed :
      (network : String) (e : Event) (cm : Call)
      → e.name ≡ event_call_executed
      → new_call network e ≡ ok cm
      → (cm.task.tx_id ≡ e.tx_id)
        × (cm.task.block_height ≡ e.block_height)
        × (cm.task.block_id ≡ e.block_id)
        × (e.int64_of "_code" ≡ ok cm.exec_result_code)
        × (e.string_of "_msg" ≡ ok cm.exec_result_msg)
  unfolding new_call
  new_call_executed network e cm name h =
      let other : str_eq e.name event_call_message ≡ false = rw name refl in
      let this : str_eq e.name event_call_executed ≡ true = rw name refl in
      elim (Result-cases (e.int64_of "_code")) [
        | inr (x, bad) ↦ absurd (ground arith)
        | inl (code, q) ↦ elim (Result-cases (e.string_of "_msg")) [
          | inr (x, bad) ↦ absurd (ground arith)
          | inl (msg, r) ↦ elim (Result-cases (e.uint64_of "_reqId")) [
            | inr (x, bad) ↦ absurd (ground arith)
            | inl (req_id, u) ↦ ground arith
          ]
        ]
      ]

  -- A CallExecuted event that is handled, of a call in the table that is not done yet, makes its row
  -- done, with the transaction, the block and the result of the event.
  pub on_call_event-executed :
      (law : IsTable t with_id) (network : String) (e : Event) (invoked : Result InvokeError String)
      (w w' : World t) (cm found : Call)
      → e.name ≡ event_call_executed
      → new_call network e ≡ ok cm
      → find_one (by_network_and_req_id cm.task.network cm.req_id) w.store ≡ ok (some found)
      → is_done found.task.state ≡ false
      → on_call_event t network e invoked w ≡ ok w'
      → (c : Call) × (row w'.store found.task.id ≡ some c)
        × (c.task.state ≡ done)
        × (c.req_id ≡ found.req_id)
        × (c.task.tx_id ≡ e.tx_id)
        × (c.task.block_height ≡ e.block_height)
        × (c.task.block_id ≡ e.block_id)
        × (e.int64_of "_code" ≡ ok c.exec_result_code)
        × (e.string_of "_msg" ≡ ok c.exec_result_msg)
  unfolding on_call_event on_call_executed
  on_call_event-executed law network e invoked w w' cm found name parsed at going h =
      let other : str_eq e.name event_call_message ≡ false = rw name refl in
      let this : str_eq e.name event_call_executed ≡ true = rw name refl in
      let (tx, height, block, code, msg) = new_call_executed network e cm name parsed in
      elim (Result-cases (save (executed_call cm found) w.store)) [
        | inr (x, failed) ↦ absurd (ground arith)
        | inl ((s', v'), q) ↦
            let same : record w { store = s' } ≡ w' = ground arith in
            let known =
              law.found_row (by_network_and_req_id cm.task.network cm.req_id) w.store found at in
            let (shape, written) = law.saved_row (executed_call cm found) w.store s' v' q in
            let kept : v' ≡ executed_call cm found =
              elim (law.saved_key (executed_call cm found) w.store s' v' q) [
                | inl (zero_key, absent) ↦ absurd (known.1 zero_key)
                | inr (old, v) ↦ v
              ] in
            (
              executed_call cm found,
              rw (← same) (rw kept at written),
              refl,
              refl,
              tx,
              height,
              block,
              code,
              msg,
            )
      ]
