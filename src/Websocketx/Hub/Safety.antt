-- ===== src/Websocketx/Hub/Safety.antt =====
-- The hub never sends on a closed channel nor closes one twice, and no buffer is overfull.
use sub_sdk.Base.{
  ℕ, ◌≤◌, ◌≡◌, refl, true, false, List, [], ◌∷◌, ◌++◌, done, ltb, length, length-append, arith, inl,
  inr, Bool-cases, ==_iff,
}
use sub_sdk.Go.Text.{Bytes}
use sub_sdk.Websocketx.Hub.{
  Mode, idle, delivering, World, update, member, Distinct, buf_size, new_hub, Event, connect, join,
  leave, broadcast, next_client, end_range, write, IsEnabled, step, Reach, start, next,
}

abbrev pub remaining : Mode → List ℕ
remaining idle = []
remaining (delivering m rest) = rest

-- The channels of one client.
pub record IsSound (w : World) (c : ℕ) : Type 0 where
  pub open_client : w.clients c ≡ true → w.closed c ≡ false
  pub open_joining : w.joining c ≡ true → w.closed c ≡ false
  pub apart : w.joining c ≡ true → w.clients c ≡ false
  pub unborn : w.next ≤ c → (w.clients c ≡ false) × (w.joining c ≡ false) × (w.closed c ≡ false)
  pub bounded : length (w.queue c) ≤ buf_size
  pub in_range : member c (remaining w.mode) ≡ true → w.clients c ≡ true

pub record IsSafe (w : World) : Type 0 where
  pub sound : (c : ℕ) → IsSound w c
  pub distinct : Distinct (remaining w.mode)

connect-IsSound : (w v : World) (c : ℕ) → IsSound w c → step w connect ≡ done v → IsSound v c
unfolding step
connect-IsSound w v c h e = ground arith

join-IsSound :
    (w v : World) (j c : ℕ)
    → IsSound w j
    → IsSound w c
    → IsEnabled w (join j)
    → step w (join j) ≡ done v
    → IsSound v c
unfolding step
join-IsSound w v j c hj h (idl, joi) e = ground arith

leave-IsSound :
    (w v : World) (j c : ℕ) → IsSound w c → w.mode ≡ idle → step w (leave j) ≡ done v → IsSound v c
unfolding step
leave-IsSound w v j c h idl e = ground arith

broadcast-IsSound :
    (w v : World) (m : Bytes) (order : List ℕ) (c : ℕ)
    → IsSound w c
    → member c order ≡ w.clients c
    → step w (broadcast m order) ≡ done v
    → IsSound v c
unfolding step
broadcast-IsSound w v m order c h e st = ground arith

next_client-IsSound :
    (w v : World) (m : Bytes) (j : ℕ) (rest : List ℕ) (c : ℕ)
    → IsSound w c
    → w.mode ≡ delivering m (j ∷ rest)
    → member j rest ≡ false
    → step w (next_client m j rest) ≡ done v
    → IsSound v c
unfolding step
next_client-IsSound w v m j rest c h mode apart st =
    ground (arith, length-append (w.queue j) (m ∷ []), ==_iff j c)

end_range-IsSound :
    (w v : World) (m : Bytes) (c : ℕ) → IsSound w c → step w (end_range m) ≡ done v → IsSound v c
unfolding step
end_range-IsSound w v m c h st = ground arith

write-IsSound :
    (w v : World) (j : ℕ) (m : Bytes) (rest : List Bytes) (c : ℕ)
    → IsSound w c
    → w.queue j ≡ m ∷ rest
    → step w (write j m rest) ≡ done v
    → IsSound v c
unfolding step
write-IsSound w v j m rest c h q st = ground (arith, ==_iff j c)

-- Every event keeps the invariant.
step-IsSafe : (w v : World) (e : Event) → IsSafe w → IsEnabled w e → step w e ≡ done v → IsSafe v
step-IsSafe w v connect s en st = record {
  sound = λ c. connect-IsSound w v c (s.sound c) st;
  distinct = unfold step in ground (arith, s.distinct);
}
step-IsSafe w v (join j) s en st = record {
  sound = λ c. join-IsSound w v j c (s.sound j) (s.sound c) en st;
  distinct = unfold step in ground (arith, s.distinct);
}
step-IsSafe w v (leave j) s en st = record {
  sound = λ c. leave-IsSound w v j c (s.sound c) en st;
  distinct = unfold step in ground (arith, s.distinct);
}
step-IsSafe w v (broadcast m order) s (idl, d, all) st = record {
  sound = λ c. broadcast-IsSound w v m order c (s.sound c) (all c) st;
  distinct = unfold step in ground (arith, s.distinct);
}
step-IsSafe w v (next_client m j rest) s en st =
    let d : Distinct (j ∷ rest) = rw en at s.distinct in
    record {
      sound = λ c. next_client-IsSound w v m j rest c (s.sound c) en d.0 st;
      distinct = unfold step in ground (arith, d);
    }
step-IsSafe w v (end_range m) s en st = record {
  sound = λ c. end_range-IsSound w v m c (s.sound c) st;
  distinct = unfold step in ground (arith, s.distinct);
}
step-IsSafe w v (write j m rest) s en st = record {
  sound = λ c. write-IsSound w v j m rest c (s.sound c) en st;
  distinct = unfold step in ground (arith, s.distinct);
}

new_hub-IsSafe : IsSafe new_hub
new_hub-IsSafe = record { sound = λ c. ground arith; distinct = tt }

pub Reach-IsSafe : {w : World} → Reach w → IsSafe w
Reach-IsSafe start = new_hub-IsSafe
Reach-IsSafe (next {w} {v} r e en st) = step-IsSafe w v e (Reach-IsSafe r) en st

-- In every reachable world each event that may happen ends in a world: the hub never sends on a
-- closed channel and never closes a channel twice.
pub step_never_panics :
    (w : World) (e : Event) → Reach w → IsEnabled w e → (v : World) × (step w e ≡ done v)
unfolding step
step_never_panics w connect r en = (_, refl)
step_never_panics w (join j) r en = (_, refl)
step_never_panics w (leave j) r en = elim (Bool-cases (w.clients j)) [
  | inl here ↦
      let s = (Reach-IsSafe r).sound j in
      (
        record w { clients = update w.clients j false; closed = update w.closed j true },
        ground arith,
      )
  | inr gone ↦ (w, ground arith)
]
step_never_panics w (broadcast m order) r en = (_, refl)
step_never_panics w (next_client m j rest) r en =
    let s = (Reach-IsSafe r).sound j in
    elim (Bool-cases (ltb (length (w.queue j)) buf_size)) [
      | inl room ↦ (
        record w { mode = delivering m rest; queue = update w.queue j (w.queue j ++ (m ∷ [])) },
        ground arith,
      )
      | inr full ↦ (
        record w {
          mode = delivering m rest;
          closed = update w.closed j true;
          clients = update w.clients j false;
        },
        ground arith,
      )
    ]
step_never_panics w (end_range m) r en = (_, refl)
step_never_panics w (write j m rest) r en = (_, refl)

-- No buffer of a reachable world holds more messages than its capacity.
pub queue-le-buf_size : (w : World) (c : ℕ) → Reach w → length (w.queue c) ≤ buf_size
queue-le-buf_size w c r = ((Reach-IsSafe r).sound c).bounded
