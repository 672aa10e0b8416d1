-- ===== src/Chat/Room/Fanout.antt =====
-- What one round of the loop of `broadcastEvent` does to the clients and their channels.
use realtime_chat_platform.Prelude.{
  ℕ, ◌≤◌, ◌<◌, ◌≡◌, refl, sym, ap, ◌∙◌, true, false, some, List, [], ◌∷◌, ◌++◌, ite, dec_lt, length,
  All, if◌then◌else◌, arith,
}
use realtime_chat_platform.Chat.Domain.{
  Message, Client, SendChannel, send_capacity, sent, full, try_send, close,
}
use realtime_chat_platform.Chat.Room.{update, has, Fanned, fan_out}

-- The pointers in the map are distinct, and their channels are open.
abbrev pub DistinctIds : List Client → Type 0
DistinctIds [] = Unit
DistinctIds (c ∷ cs) = (has c.id cs ≡ false) × DistinctIds cs

abbrev pub AllOpen : (ℕ → SendChannel) → List Client → Type 0
AllOpen channels = All (λ c. (channels c.id).closed ≡ false)

-- A channel after a send that may find it full.
abbrev pub served : Message → SendChannel → SendChannel
served m ch =
    ite (dec_lt (length ch.queue) send_capacity)
      (record { queue = ch.queue ++ (m ∷ []); closed = false })
      (record { queue = ch.queue; closed = true })

-- The clients with room in their channel, and those without.
abbrev pub stay_of : (ℕ → SendChannel) → List Client → List Client
stay_of channels [] = []
stay_of channels (c ∷ cs) =
    ite (dec_lt (length (channels c.id).queue) send_capacity) (c ∷ stay_of channels cs)
      (stay_of channels cs)

abbrev pub evicted_of : (ℕ → SendChannel) → List Client → List Client
evicted_of channels [] = []
evicted_of channels (c ∷ cs) =
    ite (dec_lt (length (channels c.id).queue) send_capacity) (evicted_of channels cs)
      (c ∷ evicted_of channels cs)

module _ (channels : ℕ → SendChannel) (k : ℕ) (ch : SendChannel) where
  stay_of-update :
      (cs : List Client)
      → has k cs ≡ false
      → stay_of (update channels k ch) cs ≡ stay_of channels cs
  unfolding has
  stay_of-update [] h = refl
  stay_of-update (c ∷ cs) h = ground (arith, stay_of-update cs)

  evicted_of-update :
      (cs : List Client)
      → has k cs ≡ false
      → evicted_of (update channels k ch) cs ≡ evicted_of channels cs
  unfolding has
  evicted_of-update [] h = refl
  evicted_of-update (c ∷ cs) h = ground (arith, evicted_of-update cs)

  AllOpen-update :
      (cs : List Client)
      → has k cs ≡ false
      → AllOpen channels cs
      → AllOpen (update channels k ch) cs
  unfolding has
  AllOpen-update [] h o = tt
  AllOpen-update (c ∷ cs) h o = ground (arith, AllOpen-update cs)

pub record FannedOut (m : Message) (cs : List Client) (channels : ℕ → SendChannel) (f : Fanned)
    : Type 0 where
  pub stay : f.stay ≡ stay_of channels cs
  pub evicted : f.evicted ≡ evicted_of channels cs
  pub channel : (j : ℕ) → f.channels j ≡ (if has j cs then served m (channels j) else channels j)

cons_room :
    (channels : ℕ → SendChannel) (c : Client) (cs : List Client)
    → length (channels c.id).queue < send_capacity
    → (stay_of channels (c ∷ cs) ≡ c ∷ stay_of channels cs)
      × (evicted_of channels (c ∷ cs) ≡ evicted_of channels cs)
cons_room channels c cs room = ground arith

cons_over :
    (channels : ℕ → SendChannel) (c : Client) (cs : List Client)
    → ¬ (length (channels c.id).queue < send_capacity)
    → (stay_of channels (c ∷ cs) ≡ stay_of channels cs)
      × (evicted_of channels (c ∷ cs) ≡ c ∷ evicted_of channels cs)
cons_over channels c cs over = ground arith

one_sent :
    (m : Message) (ch : SendChannel)
    → ch.closed ≡ false
    → length ch.queue < send_capacity
    → (try_send ch m ≡ sent (served m ch))
unfolding try_send
one_sent m ch open_ room = ground arith

one_full :
    (m : Message) (ch : SendChannel)
    → ch.closed ≡ false
    → send_capacity ≤ length ch.queue
    → (try_send ch m ≡ full) × (close ch ≡ some (served m ch))
unfolding try_send close
one_full m ch open_ over = ground arith

-- A loop over open channels of distinct clients never panics: those with room get the frame and
-- stay, the others are closed and evicted.
pub fan_out-FannedOut :
    (m : Message) (cs : List Client) (channels : ℕ → SendChannel)
    → DistinctIds cs
    → AllOpen channels cs
    → (f : Fanned) × (fan_out m cs channels ≡ some f) × FannedOut m cs channels f
unfolding fan_out has
fan_out-FannedOut m [] channels d o = (
  record { stay = []; channels = channels; evicted = [] },
  refl,
  record { stay = refl; evicted = refl; channel = λ j. refl },
)
fan_out-FannedOut m (c ∷ cs) channels d o =
    let next = served m (channels c.id) in
    let (f, done, spec) =
      fan_out-FannedOut m cs (update channels c.id next) d.1
        (AllOpen-update channels c.id next cs d.0 o.1) in
    let same_stay = stay_of-update channels c.id next cs d.0 in
    let same_evicted = evicted_of-update channels c.id next cs d.0 in
    elim (dec_lt (length (channels c.id).queue) send_capacity) [
      | yes room ↦ (
        record f { stay = c ∷ f.stay },
        rw (one_sent m (channels c.id) o.0 room, fan_out, done) refl,
        record {
          stay = ap (◌∷◌ c) (spec.stay ∙ same_stay) ∙ sym (cons_room channels c cs room).0;
          evicted = (spec.evicted ∙ same_evicted) ∙ sym (cons_room channels c cs room).1;
          channel = λ j. ground (arith, spec.channel j);
        },
      )
      | no over ↦
          let (is_full, closed) = one_full m (channels c.id) o.0 (omega arith) in
          (
            record f { evicted = c ∷ f.evicted },
            rw (is_full, fan_out, closed, done) refl,
            record {
              stay = (spec.stay ∙ same_stay) ∙ sym (cons_over channels c cs over).0;
              evicted =
                  ap (◌∷◌ c) (spec.evicted ∙ same_evicted) ∙ sym (cons_over channels c cs over).1;
              channel = λ j. ground (arith, spec.channel j);
            },
          )
    ]
