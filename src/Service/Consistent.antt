-- ===== src/Service/Consistent.antt =====
-- The agreement of the services' maps, and the changes to them that keep it.
use cpp_game_room.Base.{
  ℕ, suc, ◌+◌, ◌%◌, ◌^◌, ◌<◌, ◌≡◌, ◌⊎◌, refl, sym, ap, ◌∙◌, subst, inl, inr, true, false, ◌||◌,
  none, some, List, [], ◌∷◌, ◌==◌, if◌then◌else◌, arith, Bool-cases,
}
use cpp_game_room.Base.Map.{
  some-inj, Map, lookup, insert, remove, has, keys, lookup-insert, lookup-remove,
}
use cpp_game_room.Match.Queue.{MatchQueue, contains}
use cpp_game_room.Match.Queue.Refinement.{Inv}
use cpp_game_room.Room.{Room, waiting, new_room, add_player, player_ids}
use cpp_game_room.Game.Battle.{GameRoom}
use cpp_game_room.Service.World.{Context}
use cpp_game_room.Service.Rooms.{add_players, ids_of, erase_all}
use cpp_game_room.Service.Core.{Core, with_room, without_room}
use cpp_game_room.Service.Grouping.{lookup-insert_all}

abbrev pub Present {ℓ} : {V : Type ℓ} → ℕ → Map V → Type ℓ
Present {V = V} id m = (x : V) × (lookup id m ≡ some x)

-- Each room stands under its id, which is one that was given out; a player who is mapped to a room
-- is one of that room's players; each battle stands under its room's id, and the room is there; and
-- the queue's deque and set agree.
pub record Consistent {F : Type 0} (c : Core F) : Type 0 where
  pub keyed :
      (id : ℕ) (r : Room) → lookup id c.rooms ≡ some r → (r.room_id ≡ id) × (id < c.next_room_id)
  pub mapped :
      (p id : ℕ)
      → lookup p c.player_room_map ≡ some id
      → (r : Room) × (lookup id c.rooms ≡ some r) × (has p r.players ≡ true)
  pub battling :
      (id : ℕ) (g : GameRoom F)
      → lookup id c.battles ≡ some g
      → (g.room_id ≡ id) × Present id c.rooms
  pub agree : Inv c.queue

add_players-room_id : (ids : List ℕ) (r : Room) → (add_players ids r).room_id ≡ r.room_id
unfolding add_players add_player
add_players-room_id [] r = refl
add_players-room_id (p ∷ ids) r = add_players-room_id ids (add_player p r).0 ∙ ground arith

pub add_players-has :
    (ids : List ℕ) (r : Room) (p : ℕ)
    → r.state ≡ waiting
    → has p (add_players ids r).players ≡ (contains p ids || has p r.players)
unfolding add_players add_player contains
add_players-has [] r p h = refl
add_players-has (q ∷ ids) r p h =
    add_players-has ids (add_player q r).0 p (rw h)
    ∙ rw h (
        ground (
          arith,
          lookup-insert q p (record { player_id = q; ready = false; connected = true; hp = 100 })
              r.players,
        ))

module _ {ℓ} {V : Type ℓ} where
  pub insert-new : (k : ℕ) (a : V) (m : Map V) → lookup k (insert k a m) ≡ some a
  insert-new k a m = ground (arith, lookup-insert k k a m)

  pub insert-other :
      (k j : ℕ) (a : V) (m : Map V) → (k == j) ≡ false → lookup j (insert k a m) ≡ lookup j m
  insert-other k j a m h = ground (arith, lookup-insert k j a m)

  insert-cases :
      (k j : ℕ) (a x : V) (m : Map V)
      → lookup j (insert k a m) ≡ some x
      → ((k ≡ j) × (a ≡ x)) ⊎ (((k == j) ≡ false) × (lookup j m ≡ some x))
  insert-cases k j a x m h = elim (Bool-cases (k == j)) [
    | inl e ↦ inl (ground arith, some-inj (sym (rw e refl) ∙ sym (lookup-insert k j a m) ∙ h))
    | inr e ↦ inr (e, sym (insert-other k j a m e) ∙ h)
  ]

  insert-Present : (k j : ℕ) (a : V) (m : Map V) → Present j m → Present j (insert k a m)
  insert-Present k j a m (x, h) = elim (Bool-cases (k == j)) [
    | inl e ↦ (a, lookup-insert k j a m ∙ rw e refl)
    | inr e ↦ (x, insert-other k j a m e ∙ h)
  ]

  pub remove-same : (k j : ℕ) (m : Map V) → (k == j) ≡ true → lookup j (remove k m) ≡ none
  remove-same k j m h = lookup-remove k j m ∙ rw h refl

  remove-cases :
      (k j : ℕ) (x : V) (m : Map V)
      → lookup j (remove k m) ≡ some x
      → ((k == j) ≡ false) × (lookup j m ≡ some x)
  remove-cases k j x m h = elim (Bool-cases (k == j)) [
    | inl e ↦ absurd (cc (remove-same k j m e, h))
    | inr e ↦ (e, sym (lookup-remove k j m ∙ rw e refl) ∙ h)
  ]

  pub remove-other : (k j : ℕ) (m : Map V) → (k == j) ≡ false → lookup j (remove k m) ≡ lookup j m
  remove-other k j m h = lookup-remove k j m ∙ rw h refl

  contains-keys : (p : ℕ) (m : Map V) → contains p (keys m) ≡ has p m
  unfolding contains keys lookup
  contains-keys p [] = refl
  contains-keys p ((k, a) ∷ m) = ground (arith, contains-keys p m)

pub contains-player_ids : (p : ℕ) (r : Room) → contains p (player_ids r) ≡ has p r.players
unfolding player_ids
contains-player_ids p r = contains-keys p r.players

pub lookup-erase_all :
    (ids : List ℕ) (p : ℕ) (m : Map ℕ)
    → lookup p (erase_all ids m) ≡ (if contains p ids then none else lookup p m)
unfolding contains erase_all
lookup-erase_all [] p m = refl
lookup-erase_all (q ∷ ids) p m =
    ground (arith, lookup-erase_all ids p (remove q m), lookup-remove q p m)

pub lookup-erased :
    (ids : List ℕ) (p : ℕ) (m : Map ℕ) → contains p ids ≡ true → lookup p (erase_all ids m) ≡ none
lookup-erased ids p m h = lookup-erase_all ids p m ∙ rw h refl

module _ {F : Type 0} (c : Core F) (v : Consistent c) where
  pub with_room-Consistent :
      (ids : List ℕ) → c.next_room_id + 1 < 2 ^ 64 → Consistent (with_room ids c)
  with_room-Consistent ids h =
      let room = add_players ids (new_room c.next_room_id) in
      let next : (c.next_room_id + 1) % 2 ^ 64 ≡ suc c.next_room_id = omega arith in
      record {
        keyed = λ id r e. elim (insert-cases c.next_room_id id room r c.rooms e) [
          | inl (same, is) ↦ (
            ap (λ (x : Room). x.room_id) (sym is)
                ∙ add_players-room_id ids (new_room c.next_room_id)
                ∙ same,
            omega (arith, same, next),
          )
          | inr (other, old) ↦ ((v.keyed id r old).0, omega (arith, next, (v.keyed id r old).1))
        ];
        mapped = λ p id e. elim (Bool-cases (contains p ids)) [
          | inl new ↦
              let same : c.next_room_id ≡ id = some-inj (
                sym (lookup-insert_all ids c.next_room_id p c.player_room_map ∙ rw new refl) ∙ e) in
              subst
                (λ i.
                  (r : Room) × (lookup i (insert c.next_room_id room c.rooms) ≡ some r)
                  × (has p r.players ≡ true))
                same
                (
                  room,
                  insert-new c.next_room_id room c.rooms,
                  add_players-has ids (new_room c.next_room_id) p refl ∙ rw new refl,
                )
          | inr old ↦
              let before = v.mapped p id (
                sym (lookup-insert_all ids c.next_room_id p c.player_room_map ∙ rw old refl) ∙ e) in
              let below = (v.keyed id before.0 before.1).1 in
              (
                before.0,
                insert-other c.next_room_id id room c.rooms (ground (arith, below)) ∙ before.1,
                before.2,
              )
        ];
        battling = λ id g e. (
          (v.battling id g e).0,
          insert-Present c.next_room_id id room c.rooms (v.battling id g e).1,
        );
        agree = v.agree;
      }

  pub put_room-Consistent :
      (r r' : Room)
      → lookup r.room_id c.rooms ≡ some r
      → r'.room_id ≡ r.room_id
      → ((p : ℕ) → has p r'.players ≡ has p r.players)
      → Consistent (record c { rooms = insert r'.room_id r' c.rooms })
  put_room-Consistent r r' e same players = record {
    keyed = λ id x h. elim (insert-cases r'.room_id id r' x c.rooms h) [
      | inl (key, is) ↦ (
        ap (λ (y : Room). y.room_id) (sym is) ∙ key,
        omega (arith, (v.keyed r.room_id r e).1, same, key),
      )
      | inr (other, old) ↦ v.keyed id x old
    ];
    mapped = λ p id h.
        let before = v.mapped p id h in
        elim (Bool-cases (r'.room_id == id)) [
          | inl at ↦
              let is : r ≡ before.0 =
                some-inj
                  (sym e ∙ ap (λ i. lookup i c.rooms) (ground (arith, at, same)) ∙ before.1) in
              (
                r',
                lookup-insert r'.room_id id r' c.rooms ∙ rw at refl,
                players p ∙ ap (λ (y : Room). has p y.players) is ∙ before.2,
              )
          | inr other ↦ (before.0, insert-other r'.room_id id r' c.rooms other ∙ before.1, before.2)
        ];
    battling = λ id g h.
        ((v.battling id g h).0, insert-Present r'.room_id id r' c.rooms (v.battling id g h).1);
    agree = v.agree;
  }

  pub add_battle-Consistent :
      (g : GameRoom F)
      → Present g.room_id c.rooms
      → Consistent (record c { battles = insert g.room_id g c.battles })
  add_battle-Consistent g room = record {
    keyed = v.keyed;
    mapped = v.mapped;
    battling = λ id x h. elim (insert-cases g.room_id id g x c.battles h) [
      | inl (key, is) ↦ (
        ap (λ (y : GameRoom F). y.room_id) (sym is) ∙ key,
        subst (λ i. Present i c.rooms) key room,
      )
      | inr (other, old) ↦ v.battling id x old
    ];
    agree = v.agree;
  }

  pub with_queue-Consistent : (q : MatchQueue) → Inv q → Consistent (record c { queue = q })
  with_queue-Consistent q w = record {
    keyed = v.keyed;
    mapped = v.mapped;
    battling = v.battling;
    agree = w;
  }

  pub without_room-Consistent :
      (ctx : Context) (id : ℕ) → ctx.has_loop ≡ true → Consistent (without_room ctx id c)
  without_room-Consistent ctx id h =
      let ids = ids_of (lookup id c.rooms) in
      record {
        keyed = λ i r e. v.keyed i r (remove-cases id i r c.rooms e).1;
        mapped = λ p i e. elim (Bool-cases (contains p ids)) [
          | inl gone ↦ absurd (cc (lookup-erased ids p c.player_room_map gone, e))
          | inr stays ↦
              let before =
                v.mapped p i (sym (lookup-erase_all ids p c.player_room_map ∙ rw stays refl) ∙ e) in
              (
                before.0,
                remove-other id i c.rooms (elim (Bool-cases (id == i)) [
                  | inl at ↦ absurd (
                      cc (
                        sym stays
                        ∙ ap (λ j. contains p (ids_of (lookup j c.rooms))) (ground (arith, at))
                        ∙ ap (λ o. contains p (ids_of o)) before.1
                        ∙ contains-player_ids p before.0
                        ∙ before.2))
                  | inr other ↦ other
                ])
                    ∙ before.1,
                before.2,
              )
        ];
        battling = λ i g e.
            let left =
              remove-cases id i g c.battles
                (ap (λ b. lookup i (if b then remove id c.battles else c.battles)) (sym h) ∙ e) in
            let before = v.battling i g left.1 in
            (before.0, (before.1.0, remove-other id i c.rooms left.0 ∙ before.1.1));
        agree = v.agree;
      }
