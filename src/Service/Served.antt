-- ===== src/Service/Served.antt =====
-- MatchService::StartMatching: where a player who asks for a match is then.
use cpp_game_room.Base.{
  if_intro, ℕ, suc, ◌+◌, ◌^◌, ◌≤◌, ◌<◌, ◌≡◌, ◌≢◌, ◌⊎◌, inl, inr, sym, ap, ◌∙◌, subst, refl, Bool,
  true, not, some, List, [], ◌∷◌, ◌==◌, arith, length, Bool-cases, String,
}
use cpp_game_room.Base.Map.{Map, lookup, has}
use cpp_game_room.Player.{Player, matching, set_status, set_room}
use cpp_game_room.Match.Queue.{MatchQueue, contains, push, size}
use cpp_game_room.Match.Queue.Refinement.{Inv, push-Inv, contains-append}
use cpp_game_room.Room.{Room, new_room}
use cpp_game_room.Service.World.{World, Context, match_resp, send, set_session_room, update_player}
use cpp_game_room.Service.Rooms.{add_players}
use cpp_game_room.Service.Consistent.{add_players-has}
use cpp_game_room.Service.Matching.{start_matching, try_create_room}
use cpp_game_room.Service.Core.{Core, core, core-send, core-set_session_room, core-update_player}
use cpp_game_room.Service.Grouping.{joined, Formed, Grouped, try_create_room-Grouped}
use cpp_game_room.Service.Requests.{push-length}

-- The player is mapped to a room with an id from `next` on, which is there and has the player.
abbrev pub Placed : ℕ → ℕ → Map Room → Map ℕ → Type 0
Placed p next rooms mapping =
    (id : ℕ) × (next ≤ id)
    × (lookup p mapping ≡ some id)
    × ((room : Room) × (lookup id rooms ≡ some room) × (has p room.players ≡ true))

-- The player waits, or is placed in a room with an id from `next` on.
abbrev pub Served : {F : Type 0} → ℕ → ℕ → Core F → Type 0
Served p next d = (contains p d.queue.queue ≡ true) ⊎ Placed p next d.rooms d.player_room_map

Formed-contains :
    (gs : List (List ℕ)) (next p : ℕ) (rooms : Map Room) (mapping : Map ℕ)
    → Formed next gs rooms mapping
    → contains p (joined gs) ≡ true
    → Placed p next rooms mapping
Formed-contains [] next p rooms mapping f h = absurd (unfold contains in cc h)
Formed-contains (g ∷ gs) next p rooms mapping f h = elim (Bool-cases (contains p g)) [
  | inl here ↦ (
    next,
    omega arith,
    f.1 p here,
    (
      add_players g (new_room next),
      f.0,
      add_players-has g (new_room next) p refl ∙ ground (arith, here),
    ),
  )
  | inr away ↦
      let later =
        Formed-contains gs (suc next) p rooms mapping f.2
          (ground (arith, away, h, contains-append p g (joined gs))) in
      (later.0, omega (arith, later.1), later.2, later.3)
]

Grouped-Served :
    {F : Type 0} (n p : ℕ) (c d : Core F)
    → Grouped n c d
    → contains p c.queue.queue ≡ true
    → Served p c.next_room_id d
Grouped-Served n p c d g h = elim (Bool-cases (contains p d.queue.queue)) [
  | inl waits ↦ inl waits
  | inr away ↦ inr (
      Formed-contains g.groups c.next_room_id p d.rooms d.player_room_map g.formed (
        ground (
          arith,
          away,
          h,
          ap (contains p) g.whole,
          contains-append p (joined g.groups) d.queue.queue,
        )))
]

push-contains :
    (p : ℕ) (q : MatchQueue) → (push p q).1 ≡ true → contains p (push p q).0.queue ≡ true
unfolding push contains
push-contains p q h = ground (arith, h, contains-append p q.queue (p ∷ []))

module _ {F : Type 0} (ctx : Context) (rooms_set : ctx.has_rooms ≡ true)
    (positive : 1 ≤ ctx.room_player_count) where
  -- Where rooms can be made and a room has at least one player, an agreeing queue and room ids
  -- that do not wrap: after StartMatching a player with an id whom the queue takes waits in the
  -- queue, or is mapped to a room with an id that was not given out before, and this room exists
  -- and has the player.
  pub start_matching-Served :
      (p s : ℕ) (message : String) (w : World F)
      → p ≢ 0
      → (push p w.queue).1 ≡ true
      → Inv w.queue
      → w.next_room_id + size w.queue + 1 < 2 ^ 64
      → Served p w.next_room_id (core (start_matching ctx p (some s) message w).0)
  unfolding start_matching size
  start_matching-Served p s message w real pushed v room =
      let f : Player → Player = λ q. set_room 0 (set_status matching q) in
      let w1 = record w { queue = (push p w.queue).0 } in
      let w2 = update_player ctx p f w1 in
      let w3 = set_session_room (some s) 0 w2 in
      let u = send s (match_resp 0 message) w3 in
      let same : core u ≡ core w1 =
        core-send s (match_resp 0 message) w3
        ∙ core-set_session_room (some s) 0 w2
        ∙ core-update_player ctx p f w1 in
      let queue_u = ap (λ (c : Core F). c.queue) same in
      let next_u = ap (λ (c : Core F). c.next_room_id) same in
      let size_u = ap (λ (q : MatchQueue). length q.queue) queue_u in
      let g =
        try_create_room-Grouped ctx rooms_set positive u
          (subst Inv (sym queue_u) (push-Inv p w.queue v))
          (omega (arith, room, size_u, next_u, push-length p w.queue)) in
      let served =
        Grouped-Served ctx.room_player_count p (core u) (core (try_create_room ctx u)) g
          (ap (λ (q : MatchQueue). contains p q.queue) queue_u ∙ push-contains p w.queue pushed) in
      if_intro (λ (r : World F × Bool). Served p w.next_room_id (core r.0)) (p == 0)
        (λ h. absurd (real (ground arith)))
        (λ h.
          if_intro (λ (r : World F × Bool). Served p w.next_room_id (core r.0))
            (not (push p w.queue).1) (λ k. absurd (cc (k, pushed)))
            (λ k. subst (λ i. Served p i (core (try_create_room ctx u))) next_u served))
