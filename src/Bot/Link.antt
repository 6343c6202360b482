-- ===== src/Bot/Link.antt =====
-- What of a bot its connection, its heartbeat and its reconnections depend on, and how the works
-- that are pending are counted. Requests, other timers and statistics leave all of it as it is.
use cpp_game_room.Base.{
  ℕ, ◌+◌, ◌≡◌, refl, ap, Bool, true, false, Option, List, [], ◌∷◌, ◌++◌, ◌==◌, arith, ◌%◌, ◌^◌, not,
  if_intro,
}
use cpp_game_room.Base.Int.{ℤ, pos, leb_ℤ}
use cpp_game_room.Net.Packet.{Packet}
use cpp_game_room.Bot.State.{
  BotClient, BotStats, Task, connects, heartbeats, Work, timer, posted, opening, reading, writing,
  BotRequest, Environment, tally, add_work, asked, max_ℤ, schedule_timer, send_packet, random_int,
  jitter_ms, percent_hit, send_request, schedule_jitter, schedule_random,
}

abbrev pub flag : Bool → ℕ
flag true = 1
flag false = 0

-- Attempts to connect, under way or waiting for their timer; reads of a socket, or its opening,
-- which begins them; writes to a socket.
pub data Kind : Type 0 where
  tries : Kind
  reads writes : ℕ → Kind

abbrev pub is_try : Task → Bool
is_try (connects reconnect) = true
is_try _ = false

abbrev pub is_heartbeat : Task → Bool
is_heartbeat heartbeats = true
is_heartbeat _ = false

abbrev pub is_kind : Kind → Work → Bool
is_kind tries (timer delay task) = is_try task
is_kind tries (opening s reconnect) = true
is_kind (reads s) (opening t reconnect) = t == s
is_kind (reads s) (reading t) = t == s
is_kind (writes s) (writing t bytes) = t == s
is_kind _ _ = false

abbrev pub is_beat : Work → Bool
is_beat (timer delay task) = is_heartbeat task
is_beat _ = false

abbrev pub count : (Work → Bool) → List Work → ℕ
count f [] = 0
count f (w ∷ ws) = flag (f w) + count f ws

pub count-add :
    (f : Work → Bool) (ws : List Work) (w : Work) → count f (ws ++ w ∷ []) ≡ count f ws + flag (f w)
count-add f [] w = omega arith
count-add f (v ∷ ws) w = let h = count-add f ws w in omega arith

pub record Wire : Type 0 where
  pub running : Bool
  pub connected : Bool
  pub socket : Option ℕ
  pub next_socket : ℕ
  pub write_queue : List (List ℕ)
  pub at : Kind → ℕ

abbrev pub wire : BotClient → Wire
wire c = record {
  running = c.running;
  connected = c.connected;
  socket = c.socket;
  next_socket = c.next_socket;
  write_queue = c.write_queue;
  at = λ k. count (is_kind k) c.pending;
}

pub record Pace : Type 0 where
  pub heartbeat_started : Bool
  pub beats : ℕ
  pub reconnect_count : ℕ

abbrev pub pace : BotClient → Pace
pace c = record {
  heartbeat_started = c.heartbeat_started;
  beats = count is_beat c.pending;
  reconnect_count = c.reconnect_count;
}

abbrev pub link : BotClient → Wire × Pace
link c = (wire c, pace c)

-- A work that is of no kind and no heartbeat.
abbrev pub Quiet : Work → Type 0
Quiet w = ((k : Kind) → is_kind k w ≡ false) × (is_beat w ≡ false)

abbrev pub QuietTask : Task → Type 0
QuietTask task = (is_try task ≡ false) × (is_heartbeat task ≡ false)

posted-is_kind : (p : Packet) (k : Kind) → is_kind k (posted p) ≡ false
posted-is_kind p tries = refl
posted-is_kind p (reads s) = refl
posted-is_kind p (writes s) = refl

posted-Quiet : (p : Packet) → Quiet (posted p)
posted-Quiet p = (λ k. posted-is_kind p k, refl)

count_quiet :
    (f : Work → Bool) (ws : List Work) (w : Work)
    → f w ≡ false
    → count f (ws ++ w ∷ []) ≡ count f ws
count_quiet f ws w h = let e = count-add f ws w in let z = ap flag h in omega arith

pub link-add_work : (w : Work) → Quiet w → (c : BotClient) → link (add_work w c) ≡ link c
link-add_work w q c = λ i. (
  record (wire c) { at = λ k. count_quiet (is_kind k) c.pending w (q.0 k) i },
  record (pace c) { beats = count_quiet is_beat c.pending w q.1 i },
)

pub link-tally : (f : BotStats → BotStats) (c : BotClient) → link (tally f c) ≡ link c
unfolding tally
link-tally f c = refl

pub link-send_packet : (p : Packet) (c : BotClient) → link (send_packet p c) ≡ link c
unfolding send_packet
link-send_packet p c =
    if_intro (λ x. link x ≡ link c) (not c.running) (λ _. refl)
      (λ _. link-add_work (posted p) (posted-Quiet p) c)

no_kind :
    (delay : ℤ) (task : Task)
    → is_try task ≡ false
    → (k : Kind) → is_kind k (timer delay task) ≡ false
no_kind delay task q tries = q
no_kind delay task q (reads s) = refl
no_kind delay task q (writes s) = refl

pub link-schedule_timer :
    (delay : ℤ) (task : Task)
    → QuietTask task
    → (c : BotClient) → link (schedule_timer delay task c) ≡ link c
unfolding schedule_timer
link-schedule_timer delay task q c =
    if_intro (λ x. link x ≡ link c) (not c.running) (λ _. refl)
      (λ _. link-add_work (timer (max_ℤ (pos 0) delay) task) (no_kind _ task q.0, q.1) c)

pub wire-schedule_timer :
    (delay : ℤ) (task : Task)
    → is_try task ≡ false
    → (c : BotClient) → wire (schedule_timer delay task c) ≡ wire c
unfolding schedule_timer
wire-schedule_timer delay task q c =
    if_intro (λ x. wire x ≡ wire c) (not c.running) (λ _. refl)
      (λ _ i. record (wire c) {
        at = λ k. count_quiet (is_kind k) c.pending _ (no_kind (max_ℤ (pos 0) delay) task q k) i;
      })

module _ {F : Type 0} (env : Environment F) where
  pub link-percent_hit : (percent : ℤ) (c : BotClient) → link (percent_hit env percent c).0 ≡ link c
  unfolding percent_hit random_int
  link-percent_hit percent c =
      if_intro (λ (x : BotClient × Bool). link x.0 ≡ link c) (leb_ℤ percent (pos 0)) (λ _. refl)
        (λ _.
          if_intro (λ (x : BotClient × Bool). link x.0 ≡ link c) (leb_ℤ (pos 100) percent)
            (λ _. refl) (λ _. refl))

  pub link-send_request :
      (request : BotRequest F) (c : BotClient) → link (send_request env request c) ≡ link c
  unfolding send_request
  link-send_request request c = link-send_packet _ (record c { seq = (c.seq + 1) % 2 ^ 32 })

  pub link-schedule_jitter :
      (base : ℤ) (task : Task)
      → QuietTask task
      → (c : BotClient) → link (schedule_jitter env base task c) ≡ link c
  unfolding schedule_jitter jitter_ms random_int
  link-schedule_jitter base task q c = link-schedule_timer (jitter_ms env base c).1 task q (asked c)

  pub link-schedule_random :
      (low base : ℤ) (task : Task)
      → QuietTask task
      → (c : BotClient) → link (schedule_random env low base task c) ≡ link c
  unfolding schedule_random jitter_ms random_int
  link-schedule_random low base task q c =
      link-schedule_timer (random_int env low (jitter_ms env base c).1 (jitter_ms env base c).0).1
        task q (asked (asked c))
