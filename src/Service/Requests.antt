-- ===== src/Service/Requests.antt =====
-- Requests to match, and players who leave: the maps still agree.
use cpp_game_room.Base.{
  if_intro, ℕ, zero, suc, ◌+◌, ◌^◌, ◌≤◌, ◌<◌, ◌≡◌, sym, ap, ◌∙◌, subst, Bool, not, ◌||◌, ◌&&◌,
  Option, none, some, List, [], ◌∷◌, ◌==◌, arith, length, length-append, String,
}
use cpp_game_room.Player.{Player, online, matching, set_status, set_room}
use cpp_game_room.Match.Queue.{MatchQueue, contains, erase, push, try_pop_n, size, is_matching}
use cpp_game_room.Match.Queue
use cpp_game_room.Match.Queue.Refinement.{Inv, push-Inv, remove-Inv, try_pop_n-Inv}
use cpp_game_room.Service.World.{
  World, Context, Message, match_resp, send, session_of_player, set_session_room, update_player,
}
use cpp_game_room.Service.Matching.{
  make_room, create_rooms, try_create_room, already_matching, start_matching, requeue_player,
  handle_match, handle_cancel_match, named,
}
use cpp_game_room.Service.Leaving.{requeue_all}
use cpp_game_room.Service.Core.{
  Core, core, core-make_room, core-send, core-set_session_room, core-update_player,
}
use cpp_game_room.Service.Grouping.{Popped, too_few, popped, try_pop_n-Popped, round}
use cpp_game_room.Service.Consistent.{Consistent, with_room-Consistent, with_queue-Consistent}

-- The maps agree, and the room ids suffice for the players who wait and `n` more.
abbrev pub Good : {F : Type 0} → ℕ → Core F → Type 0
Good n c = Consistent c × (c.next_room_id + length c.queue.queue + n < 2 ^ 64)

pub push-length : (p : ℕ) (q : MatchQueue) → length (push p q).0.queue ≤ length q.queue + 1
unfolding push
push-length p q = ground (arith, length-append q.queue (p ∷ []))

erase-length : (x : ℕ) (l : List ℕ) → length (erase x l) ≤ length l
unfolding erase
erase-length x [] = omega arith
erase-length x (y ∷ l) = ground (arith, erase-length x l)

remove-length : (p : ℕ) (q : MatchQueue) → length (Queue.remove p q).0.queue ≤ length q.queue
unfolding Queue.remove
remove-length p q = ground (arith, erase-length p q.queue)

module _ {F : Type 0} where
  -- What is equal on the core is good as well.
  pub same-Good : (n : ℕ) {c d : Core F} → d ≡ c → Good n c → Good n d
  same-Good n e g = subst (λ (c : Core F). Good n c) (sym e) g

  pub send-Good :
      (n s : ℕ) (m : Message F) (w : World F) → Good n (core w) → Good n (core (send s m w))
  send-Good n s m w g = same-Good n (core-send s m w) g

module _ {F : Type 0} (ctx : Context) where
  round-Good :
      (n fuel : ℕ) (w : World F) (r : MatchQueue × List ℕ)
      → Popped ctx.room_player_count w.queue r
      → Inv r.0
      → Good n (core w)
      → ((u : World F) → Good n (core u) → Good n (core (create_rooms ctx fuel u).0))
      → Good n (core (round ctx fuel w r).0)
  round-Good n fuel w r (too_few h) v' g next = g
  round-Good n fuel w r (popped q' [] split len) v' g next =
      (with_queue-Consistent (core w) g.0 q' v', omega (arith, g.1, ap length split))
  round-Good n fuel w r (popped q' (p ∷ ids) split len) v' g next =
      let w' = record w { queue = q' } in
      let c' = with_queue-Consistent (core w) g.0 q' v' in
      let left = ap length split in
      let total = length-append (p ∷ ids) q'.queue in
      if_intro (λ (s : World F × Bool). Good n (core s.0))
        (not (length (p ∷ ids) == ctx.room_player_count) || not ctx.has_rooms)
        (λ stop. (c', omega (arith, g.1, left, total)))
        (λ go. next (make_room ctx (p ∷ ids) w') (
          subst (λ (c : Core F). Good n c) (sym (core-make_room ctx (p ∷ ids) w'))
            (
              with_room-Consistent (core w') c' (p ∷ ids) (omega (arith, g.1, left, total)),
              omega (arith, g.1, left, total),
            )))

  create_rooms-Good :
      (n fuel : ℕ) (w : World F) → Good n (core w) → Good n (core (create_rooms ctx fuel w).0)
  unfolding create_rooms
  create_rooms-Good n zero w g = g
  create_rooms-Good n (suc fuel) w g =
      round-Good n fuel w (try_pop_n ctx.room_player_count w.queue)
        (try_pop_n-Popped ctx.room_player_count w.queue)
        (try_pop_n-Inv ctx.room_player_count w.queue g.0.agree) g (create_rooms-Good n fuel)

  pub try_create_room-Good :
      (n : ℕ) (w : World F) → Good n (core w) → Good n (core (try_create_room ctx w))
  unfolding try_create_room
  try_create_room-Good n w g = create_rooms-Good n (suc (size w.queue)) w g

  already_matching-Good :
      (n p s : ℕ) (w : World F) → Good n (core w) → Good n (core (already_matching ctx p s w).0)
  unfolding already_matching
  already_matching-Good n p s w g =
      let f : Player → Player = λ q. set_room 0 (set_status matching q) in
      send-Good n s (match_resp 2 "already matching") _ (
        if_intro (λ (u : World F). Good n (core u)) (is_matching p w.queue && ctx.has_players)
          (λ h.
            same-Good n
              (core-set_session_room (some s) 0 (update_player ctx p f w)
                ∙ core-update_player ctx p f w)
              g)
          (λ h. g))

  pub start_matching-Good :
      (n p : ℕ) (s : Option ℕ) (message : String) (w : World F)
      → Good (suc n) (core w)
      → Good n (core (start_matching ctx p s message w).0)
  unfolding start_matching
  start_matching-Good n p none message w g = (g.0, omega (arith, g.1))
  start_matching-Good n p (some s) message w g =
      let f : Player → Player = λ q. set_room 0 (set_status matching q) in
      let w1 = record w { queue = (push p w.queue).0 } in
      let w2 = update_player ctx p f w1 in
      let g1 : Good n (core w1) = (
        with_queue-Consistent (core w) g.0 (push p w.queue).0 (push-Inv p w.queue g.0.agree),
        omega (arith, g.1, push-length p w.queue),
      ) in
      if_intro (λ (r : World F × Bool). Good n (core r.0)) (p == 0)
        (λ h. send-Good n s (match_resp 1 "not login") w (g.0, omega (arith, g.1)))
        (λ h.
          if_intro (λ (r : World F × Bool). Good n (core r.0)) (not (push p w.queue).1)
            (λ k. already_matching-Good n p s w1 g1)
            (λ k. try_create_room-Good n _ (
              send-Good n s (match_resp 0 message) (set_session_room (some s) 0 w2) (
                same-Good n (core-set_session_room (some s) 0 w2 ∙ core-update_player ctx p f w1)
                  g1))))

  pub handle_match-Good :
      (s request : Option ℕ) (w : World F)
      → Good 1 (core w)
      → Good 0 (core (handle_match ctx s request w))
  unfolding handle_match
  handle_match-Good none request w g = (g.0, omega (arith, g.1))
  handle_match-Good (some s) none w g = (g.0, omega (arith, g.1))
  handle_match-Good (some s) (some player_id) w g =
      let player = named ctx player_id s w in
      if_intro (λ (u : World F). Good 0 (core u)) (player == 0)
        (λ h. send-Good 0 s (match_resp 1 "not login") w (g.0, omega (arith, g.1)))
        (λ h. start_matching-Good 0 player (some s) "matching" w g)

  pub handle_cancel_match-Good :
      (s request : Option ℕ) (w : World F)
      → Good 0 (core w)
      → Good 0 (core (handle_cancel_match ctx s request w))
  unfolding handle_cancel_match
  handle_cancel_match-Good none request w g = g
  handle_cancel_match-Good (some s) none w g = g
  handle_cancel_match-Good (some s) (some player_id) w g =
      let player = named ctx player_id s w in
      let f : Player → Player = λ q. set_room 0 (set_status online q) in
      let w' = record w { queue = (Queue.remove player w.queue).0 } in
      let g' : Good 0 (core w') = (
        with_queue-Consistent (core w) g.0 (Queue.remove player w.queue).0
            (remove-Inv player w.queue g.0.agree),
        omega (arith, g.1, remove-length player w.queue),
      ) in
      send-Good 0 s _ _ (
        if_intro (λ (u : World F). Good 0 (core u))
          ((Queue.remove player w.queue).1 && ctx.has_players)
          (λ h.
            same-Good 0
              (core-set_session_room (some s) 0 (update_player ctx player f w')
                ∙ core-update_player ctx player f w')
              g')
          (λ h. g'))

  pub requeue_all-Good :
      (n : ℕ) (ids : List ℕ) (w : World F)
      → Good (length ids + n) (core w)
      → Good n (core (requeue_all ctx ids w))
  unfolding requeue_all requeue_player
  requeue_all-Good n [] w g = (g.0, omega (arith, g.1))
  requeue_all-Good n (p ∷ ids) w g = requeue_all-Good n ids _ (
      start_matching-Good (length ids + n) p (session_of_player ctx p w) "matching" w
        (g.0, omega (arith, g.1)))
