-- ===== src/Service/Stored.antt =====
-- What lookups of rooms and battles give, and calls on them: the maps still agree.
use cpp_game_room.Base.{
  if_intro, ℕ, ◌≡◌, refl, sym, ap, ◌∙◌, subst, Bool, not, ◌||◌, Option, none, some, List, arith,
}
use cpp_game_room.Base.Map.{Map, lookup, has, adjust, lookup-adjust}
use cpp_game_room.Room.{
  Room, RoomPlayer, ReadyNotify, mark_ready, set_ready_and_try_start, is_waiting,
}
use cpp_game_room.Game.Battle.{GameRoom, eliminate_player, check_game_over}
use cpp_game_room.Service.World.{World}
use cpp_game_room.Service.Rooms.{get_room, get_player_room, room_behind, add_battle, put_room}
use cpp_game_room.Service.Core.{Core, core}
use cpp_game_room.Service.Consistent.{
  Consistent, Present, put_room-Consistent, add_battle-Consistent,
}
use cpp_game_room.Service.Requests.{Good}

-- What a lookup of a room, and of a battle, gives.
abbrev pub Stored : {F : Type 0} → Core F → Option Room → Type 0
Stored c none = Unit {0}
Stored c (some r) = lookup r.room_id c.rooms ≡ some r

abbrev pub Running : {F : Type 0} → Core F → Option (GameRoom F) → Type 0
Running c none = Unit {0}
Running c (some g) = Present g.room_id c.rooms

pub has-adjust :
    (p k : ℕ) (f : RoomPlayer → RoomPlayer) (m : Map RoomPlayer) → has p (adjust k f m) ≡ has p m
has-adjust p k f m = ground (arith, lookup-adjust k p f m)

module _ {F : Type 0} (c : Core F) (v : Consistent c) where
  lookup-Stored : (id : ℕ) → Stored c (lookup id c.rooms)
  lookup-Stored id = go (lookup id c.rooms) refl
    where
      go : (o : Option Room) → lookup id c.rooms ≡ o → Stored c o
      go none e = tt
      go (some r) e = ap (λ i. lookup i c.rooms) (v.keyed id r e).0 ∙ e

  room_behind-Stored : (o : Option ℕ) → Stored c (room_behind o c.rooms)
  unfolding room_behind
  room_behind-Stored none = tt
  room_behind-Stored (some id) = lookup-Stored id

  pub lookup-Running : (id : ℕ) → Running c (lookup id c.battles)
  lookup-Running id = go (lookup id c.battles) refl
    where
      go : (o : Option (GameRoom F)) → lookup id c.battles ≡ o → Running c o
      go none e = tt
      go (some g) e =
          subst (λ i. Present i c.rooms) (sym (v.battling id g e).0) (v.battling id g e).1

module _ {F : Type 0} where
  pub get_room-Stored :
      (id : ℕ) (w : World F) → Consistent (core w) → Stored (core w) (get_room id w)
  unfolding get_room
  get_room-Stored id w v = lookup-Stored (core w) v id

  pub get_player_room-Stored :
      (p : ℕ) (w : World F) → Consistent (core w) → Stored (core w) (get_player_room p w)
  unfolding get_player_room
  get_player_room-Stored p w v = room_behind-Stored (core w) v (lookup p w.player_room_map)

  pub put_room-Good :
      (n : ℕ) (r r' : Room) (w : World F)
      → Good n (core w)
      → lookup r.room_id w.rooms ≡ some r
      → r'.room_id ≡ r.room_id
      → ((p : ℕ) → has p r'.players ≡ has p r.players)
      → Good n (core (put_room r' w))
  put_room-Good n r r' w g e same players =
      (put_room-Consistent (core w) g.0 r r' e same players, g.1)

  pub add_battle-Good :
      (n : ℕ) (b : GameRoom F) (w : World F)
      → Good n (core w)
      → Present b.room_id w.rooms
      → Good n (core (add_battle b w))
  unfolding add_battle
  add_battle-Good n b w g e = (add_battle-Consistent (core w) g.0 b e, g.1)

-- No call on a battle changes its id.
pub check_game_over-room_id :
    {F : Type 0} (g : GameRoom F) → (check_game_over g).room_id ≡ g.room_id
unfolding check_game_over
check_game_over-room_id g = ground arith

pub eliminate_player-room_id :
    {F : Type 0} (p : ℕ) (g : GameRoom F) → (eliminate_player p g).room_id ≡ g.room_id
unfolding eliminate_player check_game_over
eliminate_player-room_id p g = ground arith

-- A call to be ready keeps the room's id and its players.
pub set_ready_and_try_start-room_id :
    (find : Option (ℕ → Option ℕ)) (p : ℕ) (b : Bool) (r : Room)
    → (set_ready_and_try_start find p b r).0.room_id ≡ r.room_id
unfolding set_ready_and_try_start
set_ready_and_try_start-room_id find p b r =
    if_intro (λ (s : Room × List (ℕ × ReadyNotify) × Bool). s.0.room_id ≡ r.room_id)
      (not (has p r.players) || not (is_waiting r.state)) (λ h. refl) (λ h. refl)

pub set_ready_and_try_start-has :
    (find : Option (ℕ → Option ℕ)) (p : ℕ) (b : Bool) (r : Room) (q : ℕ)
    → has q (set_ready_and_try_start find p b r).0.players ≡ has q r.players
unfolding set_ready_and_try_start
set_ready_and_try_start-has find p b r q =
    if_intro (λ (s : Room × List (ℕ × ReadyNotify) × Bool). has q s.0.players ≡ has q r.players)
      (not (has p r.players) || not (is_waiting r.state)) (λ h. refl)
      (λ h. has-adjust q p (mark_ready b) r.players)
