-- ===== src/Tests/Monitor.antt =====
-- A monitor with one subscriber that has room and one that has none.
use btp_sdk.Base.{ℕ, ◌≡◌, ◌&&◌, some, List, [], ◌∷◌, if◌then◌else◌}
use btp_sdk.Finality.{
  BlockInfo, Monitor, mem, new_monitor, subscribe, notify, run, Op, op_subscribe, op_notify,
  op_unsubscribe, op_stop,
}
use btp_sdk.Finality.Invariant.{IsValid}
use btp_sdk.Finality.Safety.{run-IsValid, new_monitor-IsValid, subscribe-IsValid}
use btp_sdk.Finality.Notify.{has_room, offered, notify-offers}

abbrev block : BlockInfo
block = record { block_id = "0xb5"; height = 5 }

abbrev calls : List Op
calls = op_subscribe 1 ∷ op_subscribe 0 ∷ op_notify block ∷ op_unsubscribe 0 ∷ op_stop ∷ []

run-IsValid_example : (t : Monitor) × (run calls new_monitor ≡ some t) × IsValid t
run-IsValid_example = run-IsValid calls

-- the second subscriber's channel has no place and nobody waits at it
abbrev subscribed : Monitor
subscribed = (subscribe 0 (subscribe 1 new_monitor).0).0

subscribed-IsValid : IsValid subscribed
subscribed-IsValid =
    subscribe-IsValid 0 (subscribe 1 new_monitor).0
      (subscribe-IsValid 1 new_monitor new_monitor-IsValid)

notify-offers_example :
    (t : Monitor) × (notify block subscribed ≡ some t)
    × (t.last ≡ some block)
    × ((j : ℕ)
        → t.chans j
          ≡ (if mem j subscribed.m then offered block (subscribed.chans j) else subscribed.chans j))
    × ((j : ℕ) → mem j t.m ≡ (mem j subscribed.m && has_room (subscribed.chans j)))
notify-offers_example = notify-offers block subscribed subscribed-IsValid
