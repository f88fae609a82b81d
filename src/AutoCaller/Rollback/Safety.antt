-- ===== src/AutoCaller/Rollback/Safety.antt =====
-- What the goroutines of the auto-caller may do to a row of the rollback table.
use btp_sdk.Base.{
  ℕ, ◌≡◌, refl, ap, ◌∙◌, ◌≢◌, ◌⊎◌, inl, inr, String, Bool, true, false, Option, none, some, List,
  [], ◌∷◌, ◌==◌, ==_iff, ◌&&◌, arith, Bool-cases, Option-cases, str_eq,
}
use btp_sdk.Base.Results.{Result, ok, err, Result-cases}
use btp_sdk.AutoCaller.Task.{TaskState, task_none, sent, done, is_done}
use btp_sdk.AutoCaller.Repository.{Table, IsTable}
use btp_sdk.AutoCaller.Event.{
  Error, Event, InvokeError, estimate_error, other_error, TxResult, success, failure, ResultError,
  not_found_transaction, other_result_error, database,
}
use btp_sdk.AutoCaller.RollbackRow.{
  Rollback, key, with_id, new_rollback, event_call_message_sent, event_response_message,
  event_rollback_executed,
}
use btp_sdk.AutoCaller.Rollback.{
  executed_rollback, RollbackQuery, by_network_and_sn, not_done, World, save_rollback,
  failed_rollback, save_logged, on_rollback_error, await_rollback, execute_rollback,
  rollback_result, on_message_sent, on_response, responded, is_not_applicable, on_rollback_executed,
  on_rollback_event, Input, event, result, take_out, step, run,
}

-- The states that the auto-caller writes.
abbrev pub is_active : TaskState → Bool
is_active task_none = false
is_active _ = true

-- A row is left alone; or it is new; or it is not done, and now holds a rollback in a state that
-- the auto-caller writes over a row.
abbrev pub Fits : Option Rollback → Option Rollback → Type 0
Fits o o' =
    (o' ≡ o)
    ⊎ ((c : Rollback) × (not_done o ≡ true)
        × (o' ≡ some c)
        × ((o ≡ none) ⊎ (is_active c.task.state ≡ true)))

Fits-trans : (a b c : Option Rollback) → Fits a b → Fits b c → Fits a c
Fits-trans a b c (inl p) (inl q) = inl (q ∙ p)
Fits-trans a b c (inl p) (inr (x, q, e, act)) = inr (x, rw (← p) q, e, ground arith)
Fits-trans a b c (inr (x, p, e, act)) (inl q) = inr (x, p, q ∙ e, act)
Fits-trans a b c (inr (x, p, e, act)) (inr (y, q, e', act')) = inr (y, p, e', ground arith)

module _ (t : Table Rollback RollbackQuery key) (law : IsTable t with_id) where
  open t use {Store, row, save, first, find_one}

  abbrev pub FitsAll : Store → Store → Type 0
  FitsAll s s' = (id : ℕ) → Fits (row s id) (row s' id)

  save-Fits :
      (v : Rollback) (s s' : Store) (v' : Rollback)
      → ((key v ≢ 0) → (not_done (row s (key v)) ≡ true) × (is_active v.task.state ≡ true))
      → save v s ≡ ok (s', v')
      → FitsAll s s'
  save-Fits v s s' v' open_row e id = elim (Bool-cases (id == key v')) [
    | inr other ↦ inl (law.saved_other v s s' v' e id (λ p. ground (arith, ==_iff id (key v'))))
    | inl same ↦
        let p : id ≡ key v' = ground (arith, ==_iff id (key v')) in
        let (shape, written) = law.saved_row v s s' v' e in
        let state : v'.task.state ≡ v.task.state = ap (λ (c : Rollback). c.task.state) shape in
        rw p (elim (law.saved_key v s s' v' e) [
          | inl (fresh, absent) ↦ inr (v', rw absent refl, written, inl absent)
          | inr (old, kept) ↦
              let (free, act) = open_row old in
              inr (v', rw kept free, written, inr (ap is_active state ∙ act))
        ])
  ]

  save_rollback-Fits :
      (v : Rollback) (s s' : Store) (v' : Rollback) {saved : Bool}
      → is_active v.task.state ≡ true
      → save_rollback t v s ≡ ok (s', v', saved)
      → FitsAll s s'
  unfolding save_rollback
  save_rollback-Fits v s s' v' act e = elim (Result-cases (save v s)) [
    | inl ((s1, v1), q) ↦ elim (Bool-cases (key v == 0)) [
      | inl fresh ↦
          let same : s1 ≡ s' = ground arith in
          rw (← same) (save-Fits v s s1 v1 (λ old. absurd (ground (arith, ==_iff (key v) 0))) q)
      | inr old ↦ elim (Result-cases (first (key v) s)) [
        | inr (x, failed) ↦ absurd (ground arith)
        | inl (found, at) ↦ elim (Bool-cases (not_done found)) [
          | inr kept ↦ let same : s ≡ s' = ground arith in rw (← same) (λ id. inl refl)
          | inl free ↦
              let same : s1 ≡ s' = ground arith in
              let here : found ≡ row s (key v) = law.first_row (key v) s found at in
              rw (← same) (save-Fits v s s1 v1 (λ p. (rw (← here) free, act)) q)
        ]
      ]
    ]
    | inr (x, q) ↦ let same : s ≡ s' = ground arith in rw (← same) (λ id. inl refl)
  ]

  FitsAll-refl : (s : Store) → FitsAll s s
  FitsAll-refl s = λ id. inl refl

  save_logged-Fits :
      (rm : Rollback) (w : World t)
      → is_active rm.task.state ≡ true
      → FitsAll w.store (save_logged t rm w).store
  unfolding save_logged
  save_logged-Fits rm w act = elim (Result-cases (save_rollback t rm w.store)) [
    | inl ((s', v', saved), q) ↦ rw (q, save_logged) (save_rollback-Fits rm w.store s' v' act q)
    | inr (x, q) ↦ rw (q, save_logged) (FitsAll-refl w.store)
  ]

  await_rollback-Fits :
      (rm : Rollback) (w : World t)
      → is_active rm.task.state ≡ true
      → FitsAll w.store (await_rollback t rm w).store
  unfolding await_rollback
  await_rollback-Fits rm w act = elim (Result-cases (save_rollback t rm w.store)) [
    | inl ((s', v', saved), q) ↦ rw (q, await_rollback) (save_rollback-Fits rm w.store s' v' act q)
    | inr (x, q) ↦ rw (q, await_rollback) (FitsAll-refl w.store)
  ]

  failed_rollback_active :
      (rm : Rollback) (e : InvokeError) → is_active (failed_rollback rm e).task.state ≡ true
  unfolding failed_rollback
  failed_rollback_active rm (estimate_error reason text) = ground arith
  failed_rollback_active rm (other_error text) = refl

  execute_rollback-Fits :
      (rm : Rollback) (invoked : Result InvokeError String) (w : World t)
      → FitsAll w.store (execute_rollback t rm invoked w).store
  unfolding execute_rollback on_rollback_error
  execute_rollback-Fits rm (ok tx) w = await_rollback-Fits _ _ refl
  execute_rollback-Fits rm (err e) w = save_logged-Fits _ _ (failed_rollback_active rm e)

  rollback_result-Fits :
      (rm : Rollback) (r : Result ResultError TxResult) (invoked : Result InvokeError String)
      (w : World t)
      → FitsAll w.store (rollback_result t rm r invoked w).store
  unfolding rollback_result on_rollback_error
  rollback_result-Fits rm (err not_found_transaction) invoked w =
      execute_rollback-Fits (record rm { task = record rm.task { tx_id = "" } }) invoked w
  rollback_result-Fits rm (err other_result_error) invoked w = FitsAll-refl w.store
  rollback_result-Fits rm (ok (failure e)) invoked w =
      save_logged-Fits _ w (failed_rollback_active rm e)
  rollback_result-Fits rm (ok (success height block_id)) invoked w =
      save_logged-Fits
        (record rm {
          task = record rm.task { state = sent; block_id = block_id; block_height = height };
        })
        w refl

  -- The two ways in which a handler ends with a save of its own.
  saved-Fits :
      (v : Rollback) (w w' : World t)
      → ((key v ≢ 0) → (not_done (row w.store (key v)) ≡ true) × (is_active v.task.state ≡ true))
      → (elim (save v w.store) as (λ x. Result Error (World t)) [
        | ok r ↦ ok (record w { store = r.0 })
        | err e ↦ err (database e)
      ])
        ≡ ok w'
      → FitsAll w.store w'.store
  saved-Fits v w w' open_row h = elim (Result-cases (save v w.store)) [
    | inr (x, q) ↦ absurd (ground arith)
    | inl ((s', v'), q) ↦
        let same : record w { store = s' } ≡ w' = ground arith in
        rw (← same) (save-Fits v w.store s' v' open_row q)
  ]

  on_message_sent-Fits :
      (rm : Rollback) (o : Option Rollback) (w w' : World t)
      → key rm ≡ 0
      → on_message_sent t rm o w ≡ ok w'
      → FitsAll w.store w'.store
  unfolding on_message_sent
  on_message_sent-Fits rm none w w' fresh h = saved-Fits rm w w' (λ p. absurd (p fresh)) h
  on_message_sent-Fits rm (some found) w w' fresh h =
      elim (Bool-cases (str_eq found.to rm.to && str_eq found.from rm.from)) [
        | inl same ↦ let kept : w ≡ w' = ground arith in rw (← kept) (FitsAll-refl w.store)
        | inr other ↦ saved-Fits rm w w' (λ p. absurd (p fresh)) (rw other at h)
      ]

  response_state :
      (rm found : Rollback) (invoked : Result InvokeError String) (w w' : World t) (st : TaskState)
      → found.task.state ≡ st
      → row w.store (key found) ≡ some found
      → on_response t rm (some found) invoked w ≡ ok w'
      → FitsAll w.store w'.store
  unfolding on_response responded
  response_state rm found invoked w w' task_none e known h =
      elim (Bool-cases (is_not_applicable rm.task.state)) [
        | inl done_well ↦
            saved-Fits (responded rm found) w w' (λ p. (rw known (rw e refl), ground arith))
              (ground arith)
        | inr failed ↦
            let same : execute_rollback t (responded rm found) invoked w ≡ w' = ground arith in
            rw (← same) (execute_rollback-Fits (responded rm found) invoked w)
      ]
  response_state rm found invoked w w' st e known h =
      let same : w.store ≡ w'.store = ground arith in rw (← same) (FitsAll-refl w.store)

  on_response-Fits :
      (rm : Rollback) (o : Option Rollback) (invoked : Result InvokeError String) (w w' : World t)
      → ((found : Rollback) → o ≡ some found → row w.store (key found) ≡ some found)
      → on_response t rm o invoked w ≡ ok w'
      → FitsAll w.store w'.store
  unfolding on_response
  on_response-Fits rm none invoked w w' known h =
      let same : w ≡ w' = ground arith in rw (← same) (FitsAll-refl w.store)
  on_response-Fits rm (some found) invoked w w' known h =
      response_state rm found invoked w w' found.task.state refl (known found refl) h

  on_rollback_executed-Fits :
      (rm : Rollback) (o : Option Rollback) (w w' : World t)
      → ((found : Rollback) → o ≡ some found → row w.store (key found) ≡ some found)
      → on_rollback_executed t rm o w ≡ ok w'
      → FitsAll w.store w'.store
  unfolding on_rollback_executed
  on_rollback_executed-Fits rm none w w' known h =
      let same : w ≡ w' = ground arith in rw (← same) (FitsAll-refl w.store)
  on_rollback_executed-Fits rm (some found) w w' known h =
      elim (Bool-cases (is_done found.task.state)) [
        | inl finished ↦ let same : w ≡ w' = ground arith in rw (← same) (FitsAll-refl w.store)
        | inr going ↦ elim (Bool-cases (is_not_applicable found.task.state)) [
          | inl settled ↦ absurd (ground arith)
          | inr open_still ↦
              saved-Fits (executed_rollback rm found) w w'
                (λ p. (rw (known found refl) (ground arith), refl)) (ground arith)
        ]
      ]

  new_rollback-key :
      (network : String) (e : Event) (rm : Rollback) → new_rollback network e ≡ ok rm → key rm ≡ 0
  unfolding new_rollback
  new_rollback-key network e rm h = ground arith

  on_rollback_event-Fits :
      (network : String) (e : Event) (invoked : Result InvokeError String) (w w' : World t)
      → on_rollback_event t network e invoked w ≡ ok w'
      → FitsAll w.store w'.store
  unfolding on_rollback_event
  on_rollback_event-Fits network e invoked w w' h = elim (Result-cases (new_rollback network e)) [
    | inr (x, q) ↦ absurd (ground arith)
    | inl (rm, q) ↦
        elim (Result-cases (find_one (by_network_and_sn rm.task.network rm.sn) w.store)) [
          | inr (x, missing) ↦ absurd (ground arith)
          | inl (o, found) ↦
              let known : (c : Rollback) → o ≡ some c → row w.store (key c) ≡ some c =
                λ c p. (law.found_row _ w.store c (rw p at found)).0 in
              elim (Bool-cases (str_eq e.name event_call_message_sent)) [
                | inl sent_first ↦
                    on_message_sent-Fits rm o w w' (new_rollback-key network e rm q) (ground arith)
                | inr not_sent ↦ elim (Bool-cases (str_eq e.name event_response_message)) [
                  | inl answered ↦ on_response-Fits rm o invoked w w' known (ground arith)
                  | inr not_response ↦ elim (Bool-cases (str_eq e.name event_rollback_executed)) [
                    | inl executed ↦ on_rollback_executed-Fits rm o w w' known (ground arith)
                    | inr neither ↦
                        let same : w ≡ w' = ground arith in rw (← same) (FitsAll-refl w.store)
                  ]
                ]
              ]
        ]
  ]

  step-Fits : (i : Input) (w : World t) → FitsAll w.store (step t i w).store
  unfolding step
  step-Fits (event network e invoked) w =
      elim (Result-cases (on_rollback_event t network e invoked w)) [
        | inl (w', q) ↦ rw (q, step) (on_rollback_event-Fits network e invoked w w' q)
        | inr (x, q) ↦ rw (q, step) (FitsAll-refl w.store)
      ]
  step-Fits (result i r invoked) w = elim (Option-cases (take_out i w.pending)) [
    | inl q ↦ rw (q, step) (FitsAll-refl w.store)
    | inr ((rm, rest), q) ↦
        rw (q, step) (rollback_result-Fits rm r invoked (record w { pending = rest }))
  ]

  -- Whatever events arrive and in whatever order results come in, with any answers of the chain
  -- and of the database: every row of the rollback table is left as it was; or it is new; or it was not
  -- done, and now holds a rollback in another state than None.
  pub rollback_run-Fits :
      (is : List Input) (w : World t) (id : ℕ) → Fits (row w.store id) (row (run t is w).store id)
  unfolding run
  rollback_run-Fits [] w id = FitsAll-refl w.store id
  rollback_run-Fits (i ∷ is) w id =
      Fits-trans (row w.store id) (row (step t i w).store id) (row (run t is (step t i w)).store id)
        (step-Fits i w id) (rollback_run-Fits is (step t i w) id)

  -- A rollback that is done stays as it is: no later event, result or retry changes its row.
  pub rollback_run-done_final :
      (is : List Input) (w : World t) (id : ℕ) (c : Rollback)
      → row w.store id ≡ some c
      → c.task.state ≡ done
      → row (run t is w).store id ≡ some c
  rollback_run-done_final is w id c at finished = elim (rollback_run-Fits is w id) [
    | inl same ↦ same ∙ at
    | inr (x, p, e, act) ↦ absurd (ground (arith, ap not_done at))
  ]
