-- ===== src/Websocketx/Hub.antt =====
-- websocketx/hub.go, and the parts of client.go that send to the hub or take from a channel.
-- The hub is one goroutine: `mode` is where it stands in its loop. Between any two of its moves
-- the other goroutines may move.
pub mod Safety
pub mod Delivery
mod Examples
use sub_sdk.Base.{
  ℕ, ◌+◌, ◌≤◌, ◌≡◌, Bool, true, false, ◌||◌, List, [], ◌∷◌, ◌++◌, Run, done, panic, closed_channel,
  ◌>>=◌, ltb, ◌==◌, if◌then◌else◌, length,
}
use sub_sdk.Go.Text.{Bytes}

-- Where the hub's goroutine stands: at the outer select, or inside the range over the clients.
pub data Mode : Type 0 where
  idle : Mode
  delivering : Bytes → List ℕ → Mode

-- Clients are numbered in the order of `ServeWs`. `queue` and `closed` are the channel `send` of each
-- client. The last two fields are histories that no code reads: what the hub took from
-- `broadcast` since the client was registered, and what its writePump took from `send`.
pub record World : Type 0 where
  pub next : ℕ
  pub joining : ℕ → Bool
  pub clients : ℕ → Bool
  pub queue : ℕ → List Bytes
  pub closed : ℕ → Bool
  pub mode : Mode
  pub offered : ℕ → List Bytes
  pub taken : ℕ → List Bytes

abbrev pub update {ℓ} : {A : Type ℓ} → (ℕ → A) → ℕ → A → ℕ → A
update f c v d = if c == d then v else f d

abbrev pub member : ℕ → List ℕ → Bool
member c [] = false
member c (d ∷ ds) = d == c || member c ds

abbrev pub Distinct : List ℕ → Type 0
Distinct [] = Unit
Distinct (c ∷ cs) = (member c cs ≡ false) × Distinct cs

-- make(chan []byte, bufSize)
abbrev pub buf_size : ℕ
buf_size = 256

-- NewHub, before any connection
abbrev pub new_hub : World
new_hub = record {
  next = 0;
  joining = λ c. false;
  clients = λ c. false;
  queue = λ c. [];
  closed = λ c. false;
  mode = idle;
  offered = λ c. [];
  taken = λ c. [];
}

-- ServeWs makes a client and waits to send it on `register`.
pub serve_ws : World → World
serve_ws w = record w { next = w.next + 1; joining = update w.joining w.next true }

-- case client := <-h.register
pub register : ℕ → World → World
register c w = record w {
  joining = update w.joining c false;
  clients = update w.clients c true;
  offered = update w.offered c [];
}

-- close(client.send): a second close panics
pub close_send : ℕ → World → Run World
close_send c w =
    if w.closed c then panic closed_channel else done (record w { closed = update w.closed c true })

-- case client := <-h.unregister
pub unregister : ℕ → World → Run World
unfolding close_send
unregister c w =
    if w.clients c then close_send c (record w { clients = update w.clients c false }) else done w

-- case message := <-h.broadcast: the range over the clients begins.
pub receive : Bytes → List ℕ → World → World
receive m order w = record w {
  mode = delivering m order;
  offered = λ c. if w.clients c then w.offered c ++ (m ∷ []) else w.offered c;
}

-- The inner select for one client: a send on a closed channel panics, a full buffer drops the client.
pub deliver : ℕ → Bytes → World → Run World
unfolding close_send
deliver c m w =
    if w.closed c
    then panic closed_channel
    else if ltb (length (w.queue c)) buf_size
    then done (record w { queue = update w.queue c (w.queue c ++ (m ∷ [])) })
    else (do w' ← close_send c w; done (record w' { clients = update w'.clients c false }))

-- writePump takes one message from the channel of its client.
pub take_one : ℕ → Bytes → List Bytes → World → World
take_one c m rest w = record w {
  queue = update w.queue c rest;
  taken = update w.taken c (w.taken c ++ (m ∷ []));
}

pub data Event : Type 0 where
  connect : Event
  join leave : ℕ → Event
  broadcast : Bytes → List ℕ → Event
  next_client : Bytes → ℕ → List ℕ → Event
  end_range : Bytes → Event
  write : ℕ → Bytes → List Bytes → Event

-- When an event may happen. The range goes over the clients in any order, each once.
abbrev pub IsEnabled : World → Event → Type 0
IsEnabled w connect = Unit
IsEnabled w (join c) = (w.mode ≡ idle) × (w.joining c ≡ true)
IsEnabled w (leave c) = w.mode ≡ idle
IsEnabled w (broadcast m order) =
    (w.mode ≡ idle) × Distinct order × ((c : ℕ) → member c order ≡ w.clients c)
IsEnabled w (next_client m c rest) = w.mode ≡ delivering m (c ∷ rest)
IsEnabled w (end_range m) = w.mode ≡ delivering m []
IsEnabled w (write c m rest) = w.queue c ≡ m ∷ rest

pub step : World → Event → Run World
unfolding serve_ws register unregister receive deliver take_one
step w connect = done (serve_ws w)
step w (join c) = done (register c w)
step w (leave c) = unregister c w
step w (broadcast m order) = done (receive m order w)
step w (next_client m c rest) = deliver c m (record w { mode = delivering m rest })
step w (end_range m) = done (record w { mode = idle })
step w (write c m rest) = done (take_one c m rest w)

-- The worlds that events lead to from a new hub.
pub data Reach : World → Type 0 where
  start : Reach new_hub
  next : {w v : World} → Reach w → (e : Event) → IsEnabled w e → step w e ≡ done v → Reach v
