-- ===== src/Websocketx/Hub/Examples.antt =====
-- One client that connects, registers, and gets a message.
use sub_sdk.Base.{ℕ, ◌≡◌, ◌++◌, refl, [], ◌∷◌, done, ==_iff, arith}
use sub_sdk.Go.Text.{Bytes, bytes}
use sub_sdk.Websocketx.Hub.{
  World, connect, join, broadcast, next_client, end_range, step, Reach, start, next, new_hub,
  update, member, serve_ws, register, receive, idle, delivering,
}
use sub_sdk.Websocketx.Hub.Safety.{step_never_panics}
use sub_sdk.Websocketx.Hub.Delivery.{no_message_lost}

abbrev hello : Bytes
hello = bytes "hello"

abbrev connected : World
connected = serve_ws new_hub

abbrev registered : World
registered = register 0 connected

abbrev received : World
received = receive hello (0 ∷ []) registered

abbrev delivered : World
delivered = record received {
  mode = delivering hello [];
  queue = update received.queue 0 (hello ∷ []);
}

abbrev ended : World
ended = record delivered { mode = idle }

connected-Reach : Reach connected
connected-Reach = next {v = connected} start connect tt (unfold step in refl)

registered-Reach : Reach registered
registered-Reach =
    next {v = registered} connected-Reach (join 0) (unfold serve_ws in (refl, refl))
      (unfold step in refl)

members : (c : ℕ) → member c (0 ∷ []) ≡ registered.clients c
unfolding register serve_ws
members c = ground (arith, ==_iff 0 c)

received-Reach : Reach received
received-Reach =
    next {v = received} registered-Reach (broadcast hello (0 ∷ []))
      (unfold register serve_ws in refl, (refl, tt), members) (unfold step in refl)

delivered-Reach : Reach delivered
delivered-Reach =
    next {v = delivered} received-Reach (next_client hello 0 []) (unfold receive in refl)
      (unfold step receive register serve_ws in refl)

ended-Reach : Reach ended
ended-Reach = next {v = ended} delivered-Reach (end_range hello) refl (unfold step in refl)

step_never_panics_example : (v : World) × (step received (next_client hello 0 []) ≡ done v)
step_never_panics_example =
    step_never_panics received (next_client hello 0 []) received-Reach (unfold receive in refl)

no_message_lost_example : ended.taken 0 ++ ended.queue 0 ≡ ended.offered 0
no_message_lost_example =
    no_message_lost ended 0 ended-Reach refl (unfold receive register serve_ws in refl)

-- The client has the message.
got_hello : (ended.queue 0 ≡ hello ∷ []) × (ended.offered 0 ≡ hello ∷ [])
unfolding receive register serve_ws
got_hello = (refl, refl)
