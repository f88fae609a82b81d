-- ===== src/Finality.antt =====
-- contract/monitor.go: DefaultFinalityMonitor, the subscriptions to finalized blocks and the test
-- whether a block is final. The map from a subscription to its channel is the list `m` of the
-- subscriptions' numbers with the channels in the store `chans`, which outlives the map: a
-- subscriber goes on holding its channel. `none` is a panic: a channel that is closed twice, or a
-- send to a closed channel. A receiver that waits on a channel gives it one place more.
pub mod Invariant
pub mod Delivery
pub mod Safety
pub mod Notify
pub mod Verdict
pub mod Supplier
use btp_sdk.Base.{
  ℕ, zero, suc, ◌+◌, String, Bool, true, false, not, ◌||◌, ◌&&◌, Option, none, some, List, [], ◌∷◌,
  ◌++◌, ltb, ◌==◌, if◌then◌else◌, length,
}
use btp_sdk.Base.Faults.{◌>>=◌}
use btp_sdk.Base.Results

pub record BlockInfo : Type 0 where
  pub block_id : String
  pub height : ℕ

pub record Chan : Type 0 where
  pub size : ℕ
  pub queue : List BlockInfo
  pub waiting : Bool
  pub closed : Bool

pub record Monitor : Type 0 where
  pub m : List ℕ
  pub chans : ℕ → Chan
  pub fresh : ℕ
  pub last : Option BlockInfo
  pub started : Bool

abbrev pub mem : ℕ → List ℕ → Bool
mem k [] = false
mem k (j ∷ l) = (j == k) || mem k l

-- `delete(m, k)`
abbrev pub delete : ℕ → List ℕ → List ℕ
delete k [] = []
delete k (j ∷ l) = if j == k then delete k l else j ∷ delete k l

abbrev pub update : (ℕ → Chan) → ℕ → Chan → ℕ → Chan
update f k c j = if k == j then c else f j

abbrev pub new_chan : ℕ → Chan
new_chan size = record { size = size; queue = []; waiting = false; closed = false }

-- NewDefaultFinalityMonitor
unfoldable pub new_monitor : Monitor
new_monitor = record { m = []; chans = λ k. new_chan 0; fresh = 0; last = none; started = false }

unfoldable pub close_chan : Chan → Option Chan
close_chan c = if c.closed then none else some (record c { closed = true })

-- The `select` of notify: a send that does not block. The flag says whether the value was sent.
unfoldable pub try_send : Chan → BlockInfo → Option (Chan × Bool)
try_send c v =
    if c.closed
    then none
    else if c.waiting || ltb (length c.queue) c.size
    then some (record c { queue = c.queue ++ v ∷ []; waiting = false }, true)
    else some (c, false)

unfoldable pub remove_sub : ℕ → Monitor → Option Monitor
unfolding close_chan
remove_sub k s =
    if mem k s.m
    then (do
      c ← close_chan (s.chans k)
      some (record s { m = delete k s.m; chans = update s.chans k c }))
    else some s

-- the body of the loop in `notify`, for the subscription `k`
unfoldable pub notify_one : BlockInfo → ℕ → Monitor → Option Monitor
unfolding try_send remove_sub
notify_one v k s = do
  (c, sent) ← try_send (s.chans k) v
  if sent then some (record s { chans = update s.chans k c }) else remove_sub k s

unfoldable pub notify_all : BlockInfo → List ℕ → Monitor → Option Monitor
unfolding notify_one
notify_all v [] s = some s
notify_all v (k ∷ ks) s = notify_one v k s >>= notify_all v ks

unfoldable pub notify : BlockInfo → Monitor → Option Monitor
unfolding notify_all
notify v s = notify_all v s.m (record s { last = some v })

unfoldable pub subscriptions : Monitor → ℕ
subscriptions s = length s.m

-- The goroutine that `_start` leaves running calls `notify`; it is a step of its own.
unfoldable pub start : Monitor → Monitor
start s = if s.started then s else record s { started = true }

unfoldable pub remove_all : List ℕ → Monitor → Option Monitor
unfolding remove_sub
remove_all [] s = some s
remove_all (k ∷ ks) s = remove_sub k s >>= remove_all ks

unfoldable pub stop : Monitor → Option Monitor
unfolding remove_all
stop s = if s.started then remove_all s.m (record s { started = false }) else some s

abbrev pub is_empty : List ℕ → Bool
is_empty [] = true
is_empty (k ∷ l) = false

-- `Subscribe(size)`, with the number of the new subscription
unfoldable pub subscribe : ℕ → Monitor → Monitor × ℕ
unfolding start
subscribe size s =
    let t = start s in
    (
      record t {
        m = t.fresh ∷ t.m;
        chans = update t.chans t.fresh (new_chan size);
        fresh = t.fresh + 1;
      },
      t.fresh,
    )

unfoldable pub unsubscribe : ℕ → Monitor → Option Monitor
unfolding remove_sub stop
unsubscribe k s = do t ← remove_sub k s; if is_empty t.m then stop t else some t

-- What the monitor's clients and its goroutine do. `receive` and `wait` are a subscriber's side of
-- its channel: it takes the oldest value, or blocks for one.
pub data Op : Type 0 where
  op_start op_stop : Op
  op_subscribe : ℕ → Op
  op_unsubscribe : ℕ → Op
  op_notify : BlockInfo → Op
  op_receive : ℕ → Op
  op_wait : ℕ → Op

abbrev pub rest : List BlockInfo → List BlockInfo
rest [] = []
rest (v ∷ q) = q

unfoldable pub step : Op → Monitor → Option Monitor
unfolding start stop subscribe unsubscribe notify
step op_start s = some (start s)
step op_stop s = stop s
step (op_subscribe size) s = some (subscribe size s).0
step (op_unsubscribe k) s = unsubscribe k s
step (op_notify v) s = notify v s
step (op_receive k) s =
    let c = s.chans k in
    some (record s { chans = update s.chans k (record c { queue = rest c.queue }) })
step (op_wait k) s =
    some (record s { chans = update s.chans k (record (s.chans k) { waiting = true }) })

unfoldable pub run : List Op → Monitor → Option Monitor
unfolding step
run [] s = some s
run (op ∷ ops) s = step op s >>= run ops
