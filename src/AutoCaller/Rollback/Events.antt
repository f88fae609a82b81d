-- ===== src/AutoCaller/Rollback/Events.antt =====
-- When onRollbackEvent invokes executeRollback, and when it panics.
use btp_sdk.Base.{
  ◌≡◌, refl, ◌⊎◌, inl, inr, String, false, Option, none, some, [], ◌∷◌, ◌++◌, arith, Bool-cases,
  str_eq, eq_iff,
}
use btp_sdk.Base.Results.{Result, ok, err, Result-cases}
use btp_sdk.AutoCaller.Task.{TaskState, task_none, not_applicable}
use btp_sdk.AutoCaller.Repository.{Table}
use btp_sdk.AutoCaller.Event.{Event, InvokeError, panicked}
use btp_sdk.AutoCaller.RollbackRow.{
  Rollback, key, new_rollback, event_call_message_sent, event_response_message,
  event_rollback_executed,
}
use btp_sdk.AutoCaller.Rollback.{
  RollbackQuery, by_network_and_sn, World, save_rollback, save_logged, on_rollback_error,
  await_rollback, execute_rollback, on_message_sent, on_response, responded, is_not_applicable,
  on_rollback_executed, on_rollback_event,
}

module _ (t : Table Rollback RollbackQuery key) where
  open t use {Store, row, save, first, find_one}

  save_logged_log : (rm : Rollback) (w : World t) → (save_logged t rm w).invocations ≡ w.invocations
  unfolding save_logged
  save_logged_log rm w = elim (Result-cases (save_rollback t rm w.store)) [
    | inl (r, q) ↦ rw (q, save_logged) refl
    | inr (x, q) ↦ rw (q, save_logged) refl
  ]

  await_rollback_log :
      (rm : Rollback) (w : World t) → (await_rollback t rm w).invocations ≡ w.invocations
  unfolding await_rollback
  await_rollback_log rm w = elim (Result-cases (save_rollback t rm w.store)) [
    | inl (r, q) ↦ rw (q, await_rollback) refl
    | inr (x, q) ↦ rw (q, await_rollback) refl
  ]

  execute_rollback_log :
      (rm : Rollback) (invoked : Result InvokeError String) (w : World t)
      → (execute_rollback t rm invoked w).invocations ≡ w.invocations ++ rm.sn ∷ []
  unfolding execute_rollback on_rollback_error
  execute_rollback_log rm (ok tx) w = await_rollback_log _ _
  execute_rollback_log rm (err e) w = save_logged_log _ _

  -- What a handler logs: nothing, or one execution of the rollback in the state None.
  abbrev Invokes : Rollback → Option Rollback → World t → World t → Type 0
  Invokes rm o w w' =
      (w'.invocations ≡ w.invocations)
      ⊎ ((found : Rollback) × (o ≡ some found)
          × (found.task.state ≡ task_none)
          × (is_not_applicable rm.task.state ≡ false)
          × (w'.invocations ≡ w.invocations ++ rm.sn ∷ []))

  response_log :
      (rm found : Rollback) (invoked : Result InvokeError String) (w w' : World t) (st : TaskState)
      → found.task.state ≡ st
      → on_response t rm (some found) invoked w ≡ ok w'
      → Invokes rm (some found) w w'
  unfolding on_response responded
  response_log rm found invoked w w' task_none e h =
      elim (Bool-cases (is_not_applicable rm.task.state)) [
        | inl done_well ↦ inl (ground arith)
        | inr failed ↦
            let same : execute_rollback t (responded rm found) invoked w ≡ w' = ground arith in
            rw (← same)
              (inr (found, refl, e, failed, execute_rollback_log (responded rm found) invoked w))
      ]
  response_log rm found invoked w w' st e h = inl (ground arith)

  on_response_log :
      (rm : Rollback) (o : Option Rollback) (invoked : Result InvokeError String) (w w' : World t)
      → on_response t rm o invoked w ≡ ok w'
      → Invokes rm o w w'
  unfolding on_response
  on_response_log rm none invoked w w' h = inl (ground arith)
  on_response_log rm (some found) invoked w w' h =
      response_log rm found invoked w w' found.task.state refl h

  on_message_sent_log :
      (rm : Rollback) (o : Option Rollback) (w w' : World t)
      → on_message_sent t rm o w ≡ ok w'
      → w'.invocations ≡ w.invocations
  unfolding on_message_sent
  on_message_sent_log rm none w w' h = ground arith
  on_message_sent_log rm (some found) w w' h = ground arith

  on_rollback_executed_log :
      (rm : Rollback) (o : Option Rollback) (w w' : World t)
      → on_rollback_executed t rm o w ≡ ok w'
      → w'.invocations ≡ w.invocations
  unfolding on_rollback_executed
  on_rollback_executed_log rm none w w' h = ground arith
  on_rollback_executed_log rm (some found) w w' h = ground arith

  -- An event that is handled invokes executeRollback at most once, and only if it is a
  -- ResponseMessage with a code other than success whose rollback has a row in the state None.
  pub on_rollback_event_invokes :
      (network : String) (e : Event) (invoked : Result InvokeError String) (w w' : World t)
      → on_rollback_event t network e invoked w ≡ ok w'
      → (w'.invocations ≡ w.invocations)
        ⊎ ((rm : Rollback) × (found : Rollback) × (e.name ≡ event_response_message)
            × (new_rollback network e ≡ ok rm)
            × (is_not_applicable rm.task.state ≡ false)
            × (find_one (by_network_and_sn rm.task.network rm.sn) w.store ≡ ok (some found))
            × (found.task.state ≡ task_none)
            × (w'.invocations ≡ w.invocations ++ rm.sn ∷ []))
  unfolding on_rollback_event
  on_rollback_event_invokes network e invoked w w' h =
      elim (Result-cases (new_rollback network e)) [
        | inr (x, q) ↦ absurd (ground arith)
        | inl (rm, q) ↦
            elim (Result-cases (find_one (by_network_and_sn rm.task.network rm.sn) w.store)) [
              | inr (x, missing) ↦ absurd (ground arith)
              | inl (o, found) ↦ elim (Bool-cases (str_eq e.name event_call_message_sent)) [
                | inl sent_first ↦ inl (on_message_sent_log rm o w w' (ground arith))
                | inr not_sent ↦ elim (Bool-cases (str_eq e.name event_response_message)) [
                  | inl answered ↦ elim (on_response_log rm o invoked w w' (ground arith)) [
                    | inl kept ↦ inl kept
                    | inr (c, p, due, failed, logged) ↦
                        let name = (eq_iff e.name event_response_message).0 answered in
                        inr (rm, c, name, q, failed, rw (← p) found, due, logged)
                  ]
                  | inr not_response ↦ elim (Bool-cases (str_eq e.name event_rollback_executed)) [
                    | inl executed ↦ inl (on_rollback_executed_log rm o w w' (ground arith))
                    | inr neither ↦ inl (ground arith)
                  ]
                ]
              ]
            ]
      ]

  -- The handler of RollbackExecuted panics exactly when the rollback was settled as not applicable.
  pub on_rollback_executed_panics :
      (rm found : Rollback) (w : World t)
      → ((on_rollback_executed t rm (some found) w ≡ err panicked)
          → found.task.state ≡ not_applicable)
        × ((found.task.state ≡ not_applicable)
            → on_rollback_executed t rm (some found) w ≡ err panicked)
  unfolding on_rollback_executed
  on_rollback_executed_panics rm found w = (λ h. ground arith, λ h. ground arith)
