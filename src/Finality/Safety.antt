-- ===== src/Finality/Safety.antt =====
-- The monitor never panics: no reachable sequence of calls closes a channel twice or sends to a
-- closed one, and a monitor with subscriptions is running.
use btp_sdk.Base.{
  ℕ, ◌≡◌, refl, ap, ◌∙◌, inl, inr, true, false, not, ◌&&◌, some, List, [], ◌∷◌, ==_iff, arith,
  Bool-cases,
}
use btp_sdk.Finality.{
  BlockInfo, Chan, Monitor, mem, new_monitor, notify, start, remove_all, stop, is_empty, subscribe,
  unsubscribe, Op, op_start, op_stop, op_subscribe, op_unsubscribe, op_notify, op_receive, op_wait,
  step, run,
}
use btp_sdk.Finality.Invariant.{
  Agrees, IsValid, removed, remove_sub_lem, removed-Agrees, Keeps, Keeps-trans, removed-Keeps,
  mem-removed,
}
use btp_sdk.Finality.Delivery.{is_empty-delete, Listed, notify_all_lem}

start_lem :
    (s : Monitor)
    → ((start s).m ≡ s.m)
      × ((start s).chans ≡ s.chans)
      × ((start s).fresh ≡ s.fresh)
      × ((start s).started ≡ true)
unfolding start
start_lem s = ground arith

start-IsValid : (s : Monitor) → IsValid s → IsValid (start s)
start-IsValid s v =
    let (m_eq, chans_eq, fresh_eq, on) = start_lem s in
    record {
      agrees = record {
        issued = λ k h. ground (arith, v.agrees.issued k, m_eq);
        listed_open = λ k h.
            ground (arith, v.agrees.listed_open k, m_eq, ap (λ (f : ℕ → Chan). f k) chans_eq);
        distinct = rw m_eq v.agrees.distinct;
      };
      running = λ h. on;
    }

pub subscribe-IsValid : (size : ℕ) (s : Monitor) → IsValid s → IsValid (subscribe size s).0
unfolding subscribe
subscribe-IsValid size s v =
    let w = (start-IsValid s v).agrees in
    let t = start s in
    record {
      agrees = record {
        issued = λ k h. ground (arith, w.issued k);
        listed_open = λ k h. ground (arith, w.listed_open k, w.issued k);
        distinct = (ground (arith, w.issued t.fresh), w.distinct);
      };
      running = λ h. (start_lem s).3;
    }

remove_all_lem :
    (ks : List ℕ) (s : Monitor)
    → Agrees s
    → (t : Monitor) × (remove_all ks s ≡ some t)
      × Agrees t
      × Keeps s t
      × ((j : ℕ) → mem j t.m ≡ (mem j s.m && not (mem j ks)))
unfolding remove_all
remove_all_lem [] s v = (s, refl, v, ground arith, λ j. ground arith)
remove_all_lem (k ∷ ks) s v =
    let (t, eq, w, kept, left) = remove_all_lem ks (removed k s) (removed-Agrees k s v) in
    (
      t,
      rw (remove_sub_lem k s v) eq,
      w,
      Keeps-trans (removed-Keeps k s) kept,
      λ j. ground (arith, left j, mem-removed k j s, ==_iff k j),
    )

is_empty_of_mem : (l : List ℕ) → ((j : ℕ) → mem j l ≡ false) → is_empty l ≡ true
is_empty_of_mem [] h = refl
is_empty_of_mem (k ∷ l) h = absurd (ground (arith, h k))

-- `stop` on a state whose map and channels agree: it empties the map and ends the run.
stop_lem :
    (s : Monitor)
    → Agrees s
    → s.started ≡ true
    → (t : Monitor) × (stop s ≡ some t)
      × Agrees t
      × (t.fresh ≡ s.fresh)
      × (t.started ≡ false)
      × (is_empty t.m ≡ true)
unfolding stop
stop_lem s v on =
    let off = record s { started = false } in
    let w : Agrees off = record {
      issued = v.issued;
      listed_open = v.listed_open;
      distinct = v.distinct;
    } in
    let (t, eq, a, kept, left) = remove_all_lem s.m off w in
    (
      t,
      ground (arith, eq),
      a,
      kept.fresh_same,
      kept.started_same,
      is_empty_of_mem t.m (λ j. ground (arith, left j)),
    )

stop-IsValid : (s : Monitor) → IsValid s → (t : Monitor) × (stop s ≡ some t) × IsValid t
stop-IsValid s v = elim (Bool-cases s.started) [
  | inr off ↦ (s, unfold stop in (ground arith), v)
  | inl on ↦
      let (t, eq, a, f, off, none_left) = stop_lem s v.agrees on in
      (t, eq, record { agrees = a; running = λ h. absurd (cc) })
]

removed-IsValid : (k : ℕ) (s : Monitor) → IsValid s → IsValid (removed k s)
removed-IsValid k s v = record {
  agrees = removed-Agrees k s v.agrees;
  running = λ h. ground (arith, v.running, is_empty-delete k s.m);
}

unsubscribe-IsValid :
    (k : ℕ) (s : Monitor) → IsValid s → (t : Monitor) × (unsubscribe k s ≡ some t) × IsValid t
unfolding unsubscribe
unsubscribe-IsValid k s v =
    let t = removed k s in
    let w = removed-IsValid k s v in
    elim (Bool-cases (is_empty t.m)) [
      | inr some_left ↦ (t, rw (remove_sub_lem k s v.agrees, some_left) refl, w)
      | inl none_left ↦
          let (u, eq, x) = stop-IsValid t w in
          (u, rw (remove_sub_lem k s v.agrees, none_left) eq, x)
    ]

pub notify-IsValid :
    (b : BlockInfo) (s : Monitor) → IsValid s → (t : Monitor) × (notify b s ≡ some t) × IsValid t
unfolding notify Listed
notify-IsValid b s v =
    let noted = record s { last = some b } in
    let w : Agrees noted = record {
      issued = v.agrees.issued;
      listed_open = v.agrees.listed_open;
      distinct = v.agrees.distinct;
    } in
    let (t, eq, a, kept, live) = notify_all_lem b s.m noted v.agrees.distinct w (λ j h. h) in
    (t, eq, record { agrees = a; running = λ q. kept.started_same ∙ v.running (live q) })

-- Every call keeps the invariant, and none panics.
pub step-IsValid :
    (op : Op) (s : Monitor) → IsValid s → (t : Monitor) × (step op s ≡ some t) × IsValid t
unfolding step
step-IsValid op_start s v = (start s, refl, start-IsValid s v)
step-IsValid op_stop s v = stop-IsValid s v
step-IsValid (op_subscribe size) s v = ((subscribe size s).0, refl, subscribe-IsValid size s v)
step-IsValid (op_unsubscribe k) s v = unsubscribe-IsValid k s v
step-IsValid (op_notify b) s v = notify-IsValid b s v
step-IsValid (op_receive k) s v = (
  _,
  refl,
  record {
    agrees = record {
      issued = v.agrees.issued;
      listed_open = λ j h. ground (arith, v.agrees.listed_open j, ==_iff k j);
      distinct = v.agrees.distinct;
    };
    running = v.running;
  },
)
step-IsValid (op_wait k) s v = (
  _,
  refl,
  record {
    agrees = record {
      issued = v.agrees.issued;
      listed_open = λ j h. ground (arith, v.agrees.listed_open j, ==_iff k j);
      distinct = v.agrees.distinct;
    };
    running = v.running;
  },
)

pub new_monitor-IsValid : IsValid new_monitor
unfolding new_monitor
new_monitor-IsValid = record {
  agrees = record {
    issued = λ k h. absurd (cc);
    listed_open = λ k h. absurd (omega arith);
    distinct = tt;
  };
  running = λ h. absurd (cc);
}

run-IsValid_from :
    (ops : List Op) (s : Monitor) → IsValid s → (t : Monitor) × (run ops s ≡ some t) × IsValid t
unfolding run
run-IsValid_from [] s v = (s, refl, v)
run-IsValid_from (op ∷ ops) s v =
    let (u, eq, w) = step-IsValid op s v in
    let (t, eq', x) = run-IsValid_from ops u w in (t, rw eq eq', x)

-- From a new monitor, every sequence of calls of Start, Stop, Subscribe, Unsubscribe and notify,
-- with receivers that take values or wait in between, runs without a panic. In the state reached,
-- a subscription is in the map exactly when its channel is open, no subscription stands in it
-- twice, and a monitor with subscriptions is started.
pub run-IsValid : (ops : List Op) → (t : Monitor) × (run ops new_monitor ≡ some t) × IsValid t
run-IsValid ops = run-IsValid_from ops new_monitor new_monitor-IsValid
