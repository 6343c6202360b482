-- ===== src/Service/Freeing.antt =====
-- RoomManager::RemoveRoom: what becomes of the room's players.
use cpp_game_room.Base.{
  ℕ, ◌≡◌, ◌≢◌, refl, sym, ap, ◌∙◌, subst, true, false, none, some, List, ne_test, ==_refl,
}
use cpp_game_room.Base.Map.{Map, lookup, has}
use cpp_game_room.Match.Queue.{contains}
use cpp_game_room.Room.{Room, player_ids}
use cpp_game_room.Service.World.{World, Context}
use cpp_game_room.Service.Rooms.{remove_room, ids_of, erase_all}
use cpp_game_room.Service.Core.{Core, core, core-remove_room, without_room}
use cpp_game_room.Service.Consistent.{
  remove-same, remove-other, lookup-erased, lookup-erase_all, contains-player_ids,
}

pub record Freed {F : Type 0} (r : Room) (c d : Core F) : Type 0 where
  pub no_room : lookup r.room_id d.rooms ≡ none
  pub no_battle : lookup r.room_id d.battles ≡ none
  pub freed : (p : ℕ) → has p r.players ≡ true → lookup p d.player_room_map ≡ none
  pub kept :
      (p : ℕ) → has p r.players ≡ false → lookup p d.player_room_map ≡ lookup p c.player_room_map
  pub others : (id : ℕ) → r.room_id ≢ id → lookup id d.rooms ≡ lookup id c.rooms
  pub other_battles : (id : ℕ) → r.room_id ≢ id → lookup id d.battles ≡ lookup id c.battles

module _ {F : Type 0} (ctx : Context) (loop_set : ctx.has_loop ≡ true) where
  without_room-Freed :
      (r : Room) (c : Core F)
      → lookup r.room_id c.rooms ≡ some r
      → Freed r c (without_room ctx r.room_id c)
  without_room-Freed r c e =
      let ids : ids_of (lookup r.room_id c.rooms) ≡ player_ids r = ap ids_of e in
      let member : (p : ℕ) → contains p (ids_of (lookup r.room_id c.rooms)) ≡ has p r.players =
        λ p. ap (contains p) ids ∙ contains-player_ids p r in
      record {
        no_room = remove-same r.room_id r.room_id c.rooms (==_refl r.room_id);
        no_battle = rw loop_set (remove-same r.room_id r.room_id c.battles (==_refl r.room_id));
        freed = λ p h.
            lookup-erased (ids_of (lookup r.room_id c.rooms)) p c.player_room_map (member p ∙ h);
        kept = λ p h.
            erased-other (ids_of (lookup r.room_id c.rooms)) p c.player_room_map (member p ∙ h);
        others = λ id h. remove-other r.room_id id c.rooms (ne_test r.room_id id h);
        other_battles =
            λ id h. rw loop_set (remove-other r.room_id id c.battles (ne_test r.room_id id h));
      }
    where
      erased-other :
          (ids : List ℕ) (p : ℕ) (m : Map ℕ)
          → contains p ids ≡ false
          → lookup p (erase_all ids m) ≡ lookup p m
      erased-other ids p m h = lookup-erase_all ids p m ∙ rw h refl

  -- With a game loop: after RemoveRoom of a room that stands under its id, the room and its
  -- battle are gone and each of the room's players is mapped to no room; the other rooms, battles
  -- and players' mappings are as they were.
  pub remove_room-Freed :
      (r : Room) (w : World F)
      → lookup r.room_id w.rooms ≡ some r
      → Freed r (core w) (core (remove_room ctx r.room_id w))
  remove_room-Freed r w e =
      subst (λ (d : Core F). Freed r (core w) d) (sym (core-remove_room ctx r.room_id w))
        (without_room-Freed r (core w) e)
