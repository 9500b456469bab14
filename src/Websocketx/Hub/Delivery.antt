-- ===== src/Websocketx/Hub/Delivery.antt =====
-- What a registered client gets: every message that the hub took up since, in order.
use sub_sdk.Base.{
  ℕ, ◌≤◌, ◌≡◌, refl, true, false, List, [], ◌∷◌, ◌++◌, append-nil, append_assoc, done,
  if◌then◌else◌, arith, ==_iff,
}
use sub_sdk.Go.Text.{Bytes}
use sub_sdk.Websocketx.Hub.{
  Mode, idle, delivering, World, member, Distinct, Event, connect, join, leave, broadcast,
  next_client, end_range, write, IsEnabled, step, Reach, start, next,
}
use sub_sdk.Websocketx.Hub.Safety.{IsSound, IsSafe, Reach-IsSafe}

-- The message that the hub still has to give to the client.
abbrev pub owed : Mode → ℕ → List Bytes
owed idle c = []
owed (delivering m rest) c = if member c rest then m ∷ [] else []

record IsFair (w : World) (c : ℕ) : Type 0 where
  complete : w.clients c ≡ true → w.taken c ++ (w.queue c ++ owed w.mode c) ≡ w.offered c
  unused : w.joining c ≡ true → (w.taken c ≡ []) × (w.queue c ≡ [])
  unborn :
      w.next ≤ c
      → (w.taken c ≡ []) × (w.queue c ≡ []) × (w.clients c ≡ false) × (w.joining c ≡ false)

connect-IsFair : (w v : World) (c : ℕ) → IsFair w c → step w connect ≡ done v → IsFair v c
unfolding step
connect-IsFair w v c h e = ground arith

join-IsFair :
    (w v : World) (j c : ℕ)
    → IsFair w c
    → IsEnabled w (join j)
    → step w (join j) ≡ done v
    → IsFair v c
unfolding step
join-IsFair w v j c h en e = ground (arith, ==_iff j c)

leave-IsFair : (w v : World) (j c : ℕ) → IsFair w c → step w (leave j) ≡ done v → IsFair v c
unfolding step
leave-IsFair w v j c h e = ground arith

broadcast-IsFair :
    (w v : World) (m : Bytes) (order : List ℕ) (c : ℕ)
    → IsFair w c
    → w.mode ≡ idle
    → member c order ≡ w.clients c
    → step w (broadcast m order) ≡ done v
    → IsFair v c
unfolding step
broadcast-IsFair w v m order c h idl e st =
    ground (arith, append-nil (w.queue c), append_assoc (w.taken c) (w.queue c) (m ∷ []))

next_client-IsFair :
    (w v : World) (m : Bytes) (j : ℕ) (rest : List ℕ) (c : ℕ)
    → IsFair w c
    → w.mode ≡ delivering m (j ∷ rest)
    → member j rest ≡ false
    → IsSound w j
    → step w (next_client m j rest) ≡ done v
    → IsFair v c
unfolding step
next_client-IsFair w v m j rest c h mode apart snd st =
    ground (arith, ==_iff j c, append-nil (w.queue j ++ (m ∷ [])))

end_range-IsFair :
    (w v : World) (m : Bytes) (c : ℕ)
    → IsFair w c
    → w.mode ≡ delivering m []
    → step w (end_range m) ≡ done v
    → IsFair v c
unfolding step
end_range-IsFair w v m c h mode st = ground arith

write-IsFair :
    (w v : World) (j : ℕ) (m : Bytes) (rest : List Bytes) (c : ℕ)
    → IsFair w c
    → w.queue j ≡ m ∷ rest
    → step w (write j m rest) ≡ done v
    → IsFair v c
unfolding step
write-IsFair w v j m rest c h q st =
    ground (arith, ==_iff j c, append_assoc (w.taken j) (m ∷ []) (rest ++ owed w.mode j))

step-IsFair :
    (w v : World) (e : Event) (c : ℕ)
    → IsSafe w
    → IsFair w c
    → IsEnabled w e
    → step w e ≡ done v
    → IsFair v c
step-IsFair w v connect c s h en st = connect-IsFair w v c h st
step-IsFair w v (join j) c s h en st = join-IsFair w v j c h en st
step-IsFair w v (leave j) c s h en st = leave-IsFair w v j c h st
step-IsFair w v (broadcast m order) c s h (idl, d, all) st =
    broadcast-IsFair w v m order c h idl (all c) st
step-IsFair w v (next_client m j rest) c s h en st =
    let d : Distinct (j ∷ rest) = rw en at s.distinct in
    next_client-IsFair w v m j rest c h en d.0 (s.sound j) st
step-IsFair w v (end_range m) c s h en st = end_range-IsFair w v m c h en st
step-IsFair w v (write j m rest) c s h en st = write-IsFair w v j m rest c h en st

Reach-IsFair : {w : World} (c : ℕ) → Reach w → IsFair w c
Reach-IsFair c start = record {
  complete = λ p. cc;
  unused = λ p. cc;
  unborn = λ p. (refl, refl, refl, refl);
}
Reach-IsFair c (next {w} {v} r e en st) =
    step-IsFair w v e c (Reach-IsSafe r) (Reach-IsFair c r) en st

-- Between two broadcasts, what a registered client has been given and what waits in its channel
-- are together the messages that the hub took up since the client was registered, in that order,
-- each once.
pub no_message_lost :
    (w : World) (c : ℕ)
    → Reach w
    → w.mode ≡ idle
    → w.clients c ≡ true
    → w.taken c ++ w.queue c ≡ w.offered c
no_message_lost w c r idl here =
    let h = (Reach-IsFair c r).complete here in ground (arith, append-nil (w.queue c))
