-- ===== src/Service/Finished.antt =====
-- What the callback for a battle that is over does to the services when the settlement succeeds.
use cpp_game_room.Base.{
  ℕ, ◌+◌, ◌%◌, ◌^◌, ◌<◌, ◌≤◌, ◌≡◌, ◌≢◌, refl, sym, ap, ◌∙◌, subst, Bool, true, false, not, Option,
  none, some, List, [], ◌∷◌, ◌++◌, map, ◌==◌, if◌then◌else◌, if_intro, Option-cases, inl, inr,
  ne_test,
}
use mathlib.Core.List.{append_assoc, append-nil}
use cpp_game_room.Base.Map.{Map, lookup, remove, keys}
use cpp_game_room.Net.Connections.{get_by_player_id}
use cpp_game_room.Player.{Player}
use cpp_game_room.Net.Session.{Session, is_linked}
use cpp_game_room.Room.{Room, send_each, broadcast, close}
use cpp_game_room.Game.State.{EntityState}
use cpp_game_room.Game.Battle.{GameRoom}
use cpp_game_room.Game.Settlement.{RankService}
use cpp_game_room.Storage.Mysql.{MysqlApi, Client}
use cpp_game_room.Service.World.{
  World, Context, Message, game_over_notify, send, send_all, session_of_player, set_session_room,
  update_player, broadcast_to,
}
use cpp_game_room.Service.Rooms.{remove_room, release_players, put_room, ids_of, erase_all}
use cpp_game_room.Service.Core.{Core, core, core-broadcast_to}
use cpp_game_room.Service.Consistent.{insert-new, insert-other}
use cpp_game_room.Service.Freeing.{Freed, remove_room-Freed}
use cpp_game_room.Service.Server.{Server, PendingSettlement, losers_of, finish_room, settle_room}
use cpp_game_room.Service.Settling.{Attempted, settled_with, settle_room-Attempted}

-- All ids but one.
abbrev pub others : ℕ → List ℕ → List ℕ
others w [] = []
others w (p ∷ ps) = let rest = others w ps in if p == w then rest else p ∷ rest

losers_of-others :
    {F : Type 0} (w : ℕ) (m : Map (EntityState F)) → losers_of w m ≡ others w (keys m)
unfolding losers_of keys
losers_of-others w [] = refl
losers_of-others w ((k, e) ∷ m) =
    if_intro (λ l. (if not (k == w) then k ∷ losers_of w m else losers_of w m) ≡ l) (k == w)
      (λ same. rw same (losers_of-others w m))
      (λ other. rw other (ap (◌∷◌ k) (losers_of-others w m)))

-- The sessions of the players that have one with a connection, in order.
abbrev pub reached : Map Session → (ℕ → Option ℕ) → List ℕ → List ℕ
reached objects find [] = []
reached objects find (p ∷ ps) =
    let rest = reached objects find ps in
    elim (find p) [ none ↦ rest | some s ↦ if is_linked objects s then s ∷ rest else rest ]

reached_nobody : (objects : Map Session) (ids : List ℕ) → reached objects (λ p. none) ids ≡ []
reached_nobody objects [] = refl
reached_nobody objects (p ∷ ps) = reached_nobody objects ps

module _ {F : Type 0} where
  abbrev to_all : Message F → List ℕ → List (ℕ × Message F)
  to_all msg sessions = map (λ s. (s, msg)) sessions

  sent-send_each :
      (find : ℕ → Option ℕ) (msg : Message F) (ids : List ℕ) (w : World F)
      → (send_all (send_each find msg ids) w).sent
        ≡ w.sent ++ to_all msg (reached w.objects find ids)
  unfolding send_all send_each send
  sent-send_each find msg [] w = sym (append-nil w.sent)
  sent-send_each find msg (p ∷ ps) w = elim (Option-cases (find p)) [
    | inl e ↦ rw (e, send_each, reached) (sent-send_each find msg ps w)
    | inr (s, e) ↦
        rw (e, send_each, reached)
          (one s (is_linked w.objects s) (λ v. sent-send_each find msg ps v))
  ]
    where
      one :
          (s : ℕ) (b : Bool)
          → ((v : World F)
              → (send_all (send_each find msg ps) v).sent
                ≡ v.sent ++ to_all msg (reached v.objects find ps))
          → (send_all
              (send_each find msg ps)
              (if b then record w { sent = w.sent ++ (s, msg) ∷ [] } else w)).sent
            ≡ w.sent
              ++ to_all msg (if b then s ∷ reached w.objects find ps else reached w.objects find ps)
      one s true rest =
          rest (record w { sent = w.sent ++ (s, msg) ∷ [] })
          ∙ append_assoc w.sent ((s, msg) ∷ []) (to_all msg (reached w.objects find ps))
      one s false rest = rest w

  module _ (ctx : Context) where
    sent-broadcast_to :
        (room : Room) (msg : Message F) (w : World F)
        → (broadcast_to ctx room msg w).sent
          ≡ w.sent
            ++ to_all msg (reached w.objects (λ p. session_of_player ctx p w) (keys room.players))
    unfolding broadcast_to broadcast send_all
    sent-broadcast_to room msg w = with_manager ctx.has_connections
      where
        with_manager :
            (b : Bool)
            → (send_all
                (broadcast
                  (if b then some (λ p. get_by_player_id p w.connections) else none)
                  msg
                  room)
                w).sent
              ≡ w.sent
                ++ to_all msg (
                    reached w.objects
                      (λ p. if b then get_by_player_id p w.connections else none)
                      (keys room.players))
        with_manager true =
            sent-send_each (λ p. get_by_player_id p w.connections) msg (keys room.players) w
        with_manager false =
            sym (append-nil w.sent)
            ∙ ap (λ l. w.sent ++ to_all msg l) (sym (reached_nobody w.objects (keys room.players)))

    sent-update_player :
        (p : ℕ) (f : Player → Player) (w : World F) → (update_player ctx p f w).sent ≡ w.sent
    unfolding update_player
    sent-update_player p f w =
        if_intro (λ (v : World F). v.sent ≡ w.sent) ctx.has_players (λ _. refl) (λ _. refl)

    sent-set_session_room :
        (s : Option ℕ) (room_id : ℕ) (w : World F) → (set_session_room s room_id w).sent ≡ w.sent
    unfolding set_session_room
    sent-set_session_room none room_id w = refl
    sent-set_session_room (some s) room_id w = refl

    sent-release_players : (ids : List ℕ) (w : World F) → (release_players ctx ids w).sent ≡ w.sent
    unfolding release_players
    sent-release_players [] w = refl
    sent-release_players (p ∷ ps) w =
        sent-release_players ps _
        ∙ sent-update_player p _ _
        ∙ sent-set_session_room (session_of_player ctx p w) 0 w

    sent-remove_room : (room_id : ℕ) (w : World F) → (remove_room ctx room_id w).sent ≡ w.sent
    unfolding remove_room
    sent-remove_room room_id w =
        let ids = ids_of (lookup room_id w.rooms) in
        let w' = record w {
          player_room_map = erase_all ids w.player_room_map;
          rooms = remove room_id w.rooms;
        } in
        let e = sent-release_players ids w' in
        if_intro (λ (v : World F). v.sent ≡ w.sent) ctx.has_loop (λ _. e) (λ _. e)

-- The end of a battle for the room `r`: each player who can be reached is told of it, with the
-- winner and all others, and room, battle and mappings of the players are gone.
pub record Finished {F : Type 0} (ctx : Context) (r : Room) (g : GameRoom F) (w u : World F)
    : Type 0 where
  pub told :
      u.sent
      ≡ w.sent
        ++ map
            (λ s. (
              s,
              game_over_notify g.room_id g.winner_id (others g.winner_id (keys g.state.players)),
            ))
            (reached w.objects (λ p. session_of_player ctx p w) (keys r.players))
  pub freed : Freed r (core w) (core u)

module _ (api : MysqlApi) (ranks : RankService) (ctx : Context) {F : Type 0} where
  open ranks use {Store}

  Freed-closed :
      (r : Room) (w : World F) (d : Core F)
      → Freed (close r) (core (put_room (close r) w)) d
      → Freed r (core w) d
  unfolding put_room close
  Freed-closed r w d f = record {
    no_room = f.no_room;
    no_battle = f.no_battle;
    freed = f.freed;
    kept = f.kept;
    others = λ id h.
        f.others id h ∙ insert-other r.room_id id (close r) w.rooms (ne_test r.room_id id h);
    other_battles = f.other_battles;
  }

  finish_room-Finished :
      ctx.has_loop ≡ true
      → (r : Room) (g : GameRoom F) (w : World F) → r.room_id ≡ g.room_id
      → Finished ctx r g w (finish_room api ranks ctx r g w)
  unfolding finish_room put_room close
  finish_room-Finished loop_set r g w same =
      let over = game_over_notify g.room_id g.winner_id (losers_of g.winner_id g.state.players) in
      let w1 = broadcast_to ctx r over w in
      let w2 = put_room (close r) w1 in
      let told = sent-remove_room ctx g.room_id w2 ∙ sent-broadcast_to ctx r over w in
      record {
        told =
            told
            ∙ ap
                (λ l.
                  w.sent
                  ++ to_all (game_over_notify g.room_id g.winner_id l)
                      (reached w.objects (λ p. session_of_player ctx p w) (keys r.players)))
                (losers_of-others g.winner_id g.state.players);
        freed =
            subst (λ (c : Core F). Freed r c (core (remove_room ctx g.room_id w2)))
              (core-broadcast_to ctx r over w)
              (Freed-closed r w1 (core (remove_room ctx g.room_id w2)) (
                subst (λ id. Freed (close r) (core w2) (core (remove_room ctx id w2))) same
                  (remove_room-Freed ctx loop_set (close r) w2
                    (insert-new r.room_id (close r) w1.rooms))));
      }

  -- The three ways in which the callback ends: before the time of the next attempt; with an attempt
  -- that did not succeed, which throws just if SettleBattle does; and with one that did.
  pub data Settled (r : Room) (g : GameRoom F) (now : ℕ) (p : PendingSettlement)
      (v : Server F (Client api) Store) : Server F (Client api) Store × Bool → Type 0 where
    waits :
        (u : Server F (Client api) Store)
        → now < p.next_attempt
        → u.world ≡ v.world
        → u.mysql ≡ v.mysql
        → u.store ≡ v.store
        → lookup g.room_id u.pending ≡ some p
        → Settled r g now p v (u, true)
    fails :
        (u : Server F (Client api) Store) (ok : Bool)
        → p.next_attempt ≤ now
        → (settled_with api ranks ctx p.battle_id g v).1 ≡ (if ok then some false else none)
        → (u.mysql, u.store) ≡ (settled_with api ranks ctx p.battle_id g v).0
        → u.world ≡ v.world
        → lookup g.room_id u.pending
          ≡ some (record { battle_id = p.battle_id; next_attempt = (now + 1000000000) % 2 ^ 64 })
        → Settled r g now p v (u, ok)
    succeeds :
        (u : Server F (Client api) Store)
        → p.next_attempt ≤ now
        → (settled_with api ranks ctx p.battle_id g v).1 ≡ some true
        → (u.mysql, u.store) ≡ (settled_with api ranks ctx p.battle_id g v).0
        → Finished ctx r g v.world u.world
        → lookup g.room_id u.pending ≡ none
        → Settled r g now p v (u, true)

  -- With a game loop, for the room of a battle whose pending settlement has a battle id: the
  -- callback calls SettleBattle with this id or not at all, and not before the time of the next
  -- attempt; unless the settlement succeeds, the services are as before and the id is kept, after
  -- an attempt with a second until the next one; and if it succeeds, exactly this is sent: to the
  -- session of each player of the room that can be reached, the game-over message with the winner
  -- and all other players of the battle; the room, the battle and the mappings of the room's
  -- players are gone, the other ones are as they were, and the pending settlement is gone.
  pub settle_room-Settled :
      ctx.has_loop ≡ true
      → (r : Room) (g : GameRoom F) (now : ℕ) (p : PendingSettlement)
        (v : Server F (Client api) Store)
      → r.room_id ≡ g.room_id
      → lookup g.room_id v.pending ≡ some p
      → p.battle_id ≢ 0
      → Settled r g now p v (settle_room api ranks ctx r g now v)
  settle_room-Settled loop_set r g now p v same known set =
      named (settle_room-Attempted api ranks ctx r g now p v known set)
    where
      named :
          {s : Server F (Client api) Store × Bool}
          → Attempted api ranks ctx r g now p v s
          → Settled r g now p v s
      named (Attempted.waits u early world mysql store pending) =
          waits u early world mysql store pending
      named (Attempted.fails u ok due answer after world pending) =
          fails u ok due answer after world pending
      named (Attempted.succeeds u due answer after world pending) =
          succeeds u due answer after
            (subst (Finished ctx r g v.world) (sym world)
              (finish_room-Finished loop_set r g v.world same))
            pending
