-- ===== src/Service/Grouping.antt =====
-- MatchService::TryCreateRoom: the groups that it makes of the waiting players.
use cpp_game_room.Base.{
  if_intro, ℕ, zero, suc, ◌+◌, ◌%◌, ◌^◌, ◌≤◌, ◌<◌, ◌≡◌, refl, sym, ap, ap₂, ◌∙◌, subst, inl, inr,
  Bool, true, false, not, ◌||◌, some, List, [], ◌∷◌, ◌++◌, ltb, ◌==◌, if◌then◌else◌, arith, length,
  All, Bool-cases, length-take, length-append, take-append-drop,
}
use mathlib.Core.List.{append_assoc}
use cpp_game_room.Base.Map.{Map, lookup, insert, lookup-insert}
use cpp_game_room.Match.Queue.{MatchQueue, contains, try_pop_n, size}
use cpp_game_room.Match.Queue.Refinement.{
  Distinct, Inv, try_pop_n-Inv, pop_loop-queue, contains-append,
}
use cpp_game_room.Room.{Room, new_room}
use cpp_game_room.Service.World.{World, Context}
use cpp_game_room.Service.Rooms.{add_players}
use cpp_game_room.Service.Matching.{is_nil, make_room, create_rooms, try_create_room}
use cpp_game_room.Service.Core.{Core, core, core-make_room, insert_all, with_room}

abbrev pub joined : List (List ℕ) → List ℕ
joined [] = []
joined (g ∷ gs) = g ++ joined gs

-- The groups have the rooms from `room_id` on, in order: each room is a new one with the group's
-- players, and each of them is mapped to it.
abbrev pub Formed : ℕ → List (List ℕ) → Map Room → Map ℕ → Type 0
Formed room_id [] rooms mapping = Unit {0}
Formed room_id (g ∷ gs) rooms mapping =
    (lookup room_id rooms ≡ some (add_players g (new_room room_id)))
    × ((p : ℕ) → contains p g ≡ true → lookup p mapping ≡ some room_id)
    × Formed (suc room_id) gs rooms mapping

pub record Grouped {F : Type 0} (n : ℕ) (c d : Core F) : Type 0 where
  pub groups : List (List ℕ)
  -- The groups are the players who waited longest; fewer than a group are left.
  pub whole : joined groups ++ d.queue.queue ≡ c.queue.queue
  pub sizes : All (λ (g : List ℕ). length g ≡ n) groups
  pub few : length d.queue.queue < n
  pub agree : Inv d.queue
  pub counted : d.next_room_id ≡ c.next_room_id + length groups
  pub formed : Formed c.next_room_id groups d.rooms d.player_room_map
  -- Rooms from before are as they were, and so is who was not put into a group.
  pub old_rooms : (i : ℕ) → i < c.next_room_id → lookup i d.rooms ≡ lookup i c.rooms
  pub old_players :
      (p : ℕ)
      → contains p (joined groups) ≡ false
      → lookup p d.player_room_map ≡ lookup p c.player_room_map
  pub same_battles : d.battles ≡ c.battles

pub lookup-insert_all :
    (ids : List ℕ) (room_id p : ℕ) (m : Map ℕ)
    → lookup p (insert_all ids room_id m) ≡ (if contains p ids then some room_id else lookup p m)
unfolding contains
lookup-insert_all [] room_id p m = refl
lookup-insert_all (q ∷ ids) room_id p m =
    ground
      (arith, lookup-insert_all ids room_id p (insert q room_id m), lookup-insert q p room_id m)

-- A player who is taken does not wait any more.
Distinct-append :
    (xs ys : List ℕ) (p : ℕ) → Distinct (xs ++ ys) → contains p xs ≡ true → contains p ys ≡ false
unfolding contains
Distinct-append [] ys p d h = absurd (cc h)
Distinct-append (x ∷ xs) ys p d h =
    ground (arith, contains-append x xs ys, Distinct-append xs ys p d.2)

module _ {F : Type 0} (n : ℕ) where
  Grouped-step :
      (c d : Core F) (q : MatchQueue) (ids : List ℕ)
      → ids ++ q.queue ≡ c.queue.queue
      → length ids ≡ n
      → Distinct c.queue.queue
      → c.next_room_id + 1 < 2 ^ 64
      → Grouped n (with_room ids (record c { queue = q })) d
      → Grouped n c d
  Grouped-step c d q ids split len distinct room g =
      let made : (c.next_room_id + 1) % 2 ^ 64 ≡ suc c.next_room_id = omega arith in
      record {
        groups = ids ∷ g.groups;
        whole =
            append_assoc ids (joined g.groups) d.queue.queue
            ∙ ap (λ (l : List ℕ). ids ++ l) g.whole
            ∙ split;
        sizes = (len, g.sizes);
        few = g.few;
        agree = g.agree;
        counted = omega (arith, g.counted, made);
        formed = (
          g.old_rooms c.next_room_id (omega (arith, made))
              ∙ ground (
                arith,
                lookup-insert c.next_room_id c.next_room_id
                    (add_players ids (new_room c.next_room_id)) c.rooms,
              ),
          λ p h.
              let waits = Distinct-append ids q.queue p (subst Distinct (sym split) distinct) h in
              g.old_players p (
                ground (
                  arith,
                  waits,
                  ap (contains p) g.whole,
                  contains-append p (joined g.groups) d.queue.queue,
                ))
              ∙ lookup-insert_all ids c.next_room_id p c.player_room_map
              ∙ rw h,
          subst (λ i. Formed i g.groups d.rooms d.player_room_map) made g.formed,
        );
        old_rooms = λ i h.
            g.old_rooms i (omega (arith, made, h))
            ∙ ground (
              arith,
              h,
              lookup-insert c.next_room_id i (add_players ids (new_room c.next_room_id)) c.rooms,
            );
        old_players = λ p h.
            let apart = contains-append p ids (joined g.groups) in
            g.old_players p (ground (arith, apart, h))
            ∙ lookup-insert_all ids c.next_room_id p c.player_room_map
            ∙ ground (arith, apart, h);
        same_battles = g.same_battles;
      }

  Grouped-none : (c : Core F) → length c.queue.queue < n → Inv c.queue → Grouped n c c
  Grouped-none c h v = record {
    groups = [];
    whole = refl;
    sizes = tt;
    few = h;
    agree = v;
    counted = omega arith;
    formed = tt;
    old_rooms = λ i h. refl;
    old_players = λ p h. refl;
    same_battles = refl;
  }

-- What TryPopN gives: nothing, or the first `n` players.
pub data Popped (n : ℕ) (q : MatchQueue) : MatchQueue × List ℕ → Type 0 where
  too_few : length q.queue < n → Popped n q (q, [])
  popped :
      (q' : MatchQueue) (ids : List ℕ)
      → ids ++ q'.queue ≡ q.queue
      → length ids ≡ n
      → Popped n q (q', ids)

pub try_pop_n-Popped : (n : ℕ) (q : MatchQueue) → Popped n q (try_pop_n n q)
unfolding try_pop_n
try_pop_n-Popped n q = elim (Bool-cases (ltb (length q.queue) n)) [
  | inl e ↦ rw e (too_few (ground arith))
  | inr e ↦
      let r = pop_loop-queue n q.queue q.in_queue [] (ground arith) in
      rw e (
        popped _ _ (ap₂ (◌++◌) r.1 r.0 ∙ take-append-drop n q.queue)
          (ap length r.1 ∙ ground (arith, length-take n q.queue)))
]

not_nil : (ids : List ℕ) → 1 ≤ length ids → is_nil ids ≡ false
not_nil [] h = absurd (omega arith)
not_nil (x ∷ ids) h = refl

-- A round of the loop, after TryPopN.
module _ {F : Type 0} (ctx : Context) where
  abbrev pub round : ℕ → World F → MatchQueue × List ℕ → World F × Bool
  round fuel w (queue', ids) =
      let w' = record w { queue = queue' } in
      if is_nil ids || not (length ids == ctx.room_player_count) || not ctx.has_rooms
      then (w', true)
      else create_rooms ctx fuel (make_room ctx ids w')

module _ {F : Type 0} (ctx : Context) (rooms_set : ctx.has_rooms ≡ true)
    (positive : 1 ≤ ctx.room_player_count) where
  abbrev Result : World F → World F × Bool → Type 0
  Result w r = (r.1 ≡ true) × Grouped ctx.room_player_count (core w) (core r.0)

  round-Grouped :
      (fuel : ℕ) (w : World F) (r : MatchQueue × List ℕ)
      → Popped ctx.room_player_count w.queue r
      → Inv r.0
      → Inv w.queue
      → w.next_room_id + length w.queue.queue < 2 ^ 64
      → length w.queue.queue < suc fuel
      → ((u : World F)
          → Inv u.queue
          → u.next_room_id + length u.queue.queue < 2 ^ 64
          → length u.queue.queue < fuel
          → Result u (create_rooms ctx fuel u))
      → Result w (round ctx fuel w r)
  round-Grouped fuel w r (too_few h) v' v room enough next = (refl, Grouped-none _ (core w) h v)
  round-Grouped fuel w r (popped q' ids split len) v' v room enough next =
      let w' = record w { queue = q' } in
      let u = make_room ctx ids w' in
      let same : core u ≡ with_room ids (core w') = core-make_room ctx ids w' in
      let total = length-append ids q'.queue in
      let left = ap length split in
      let queue_u : u.queue ≡ q' = ap (λ (c : Core F). c.queue) same in
      let id_u : u.next_room_id ≡ (w.next_room_id + 1) % 2 ^ 64 =
        ap (λ (c : Core F). c.next_room_id) same in
      let size_u : length u.queue.queue ≡ length q'.queue =
        ap (λ (q : MatchQueue). length q.queue) queue_u in
      let ih =
        next u (subst Inv (sym queue_u) v')
          (omega (arith, room, id_u, size_u, total, left, len, positive))
          (omega (arith, size_u, total, left, len, positive)) in
      let goes_on : (is_nil ids || not (length ids == ctx.room_player_count) || not ctx.has_rooms)
          ≡ false =
        ground (arith, not_nil ids, len, positive, rooms_set) in
      if_intro (λ (r : World F × Bool). Result w r)
        (is_nil ids || not (length ids == ctx.room_player_count) || not ctx.has_rooms)
        (λ stop. absurd (cc (stop, goes_on)))
        (λ go. (
          ih.0,
          Grouped-step ctx.room_player_count (core w) (core (create_rooms ctx fuel u).0) q' ids
              split len v.distinct (omega (arith, room, total, left, len, positive))
              (subst
                (λ (c : Core F). Grouped ctx.room_player_count c (core (create_rooms ctx fuel u).0))
                same ih.1),
        ))

  -- Enough rounds for the players who wait: the loop returns, and groups them.
  pub create_rooms-Grouped :
      (fuel : ℕ) (w : World F)
      → Inv w.queue
      → w.next_room_id + length w.queue.queue < 2 ^ 64
      → length w.queue.queue < fuel
      → Result w (create_rooms ctx fuel w)
  unfolding create_rooms
  create_rooms-Grouped zero w v room enough = absurd (omega arith)
  create_rooms-Grouped (suc fuel) w v room enough =
      round-Grouped fuel w (try_pop_n ctx.room_player_count w.queue)
        (try_pop_n-Popped ctx.room_player_count w.queue)
        (try_pop_n-Inv ctx.room_player_count w.queue v) v room enough (create_rooms-Grouped fuel)

  -- Where rooms can be made and a room has at least one player, an agreeing queue of distinct
  -- players and room ids that do not wrap: TryCreateRoom takes the waiting players off in the
  -- order in which they came, in groups of the room's size, until fewer than that are left; the
  -- groups get new rooms with the next ids, one each, and their players are mapped to them; the
  -- rooms with lower ids, the battles, and the mappings of all players who were not put into a
  -- group are as they were.
  pub try_create_room-Grouped :
      (w : World F)
      → Inv w.queue
      → w.next_room_id + size w.queue < 2 ^ 64
      → Grouped ctx.room_player_count (core w) (core (try_create_room ctx w))
  unfolding try_create_room size
  try_create_room-Grouped w v room =
      (create_rooms-Grouped (suc (length w.queue.queue)) w v room (omega arith)).1

module _ {F : Type 0} (ctx : Context) where
  returns_round :
      (fuel : ℕ) (w : World F) (r : MatchQueue × List ℕ)
      → Popped ctx.room_player_count w.queue r
      → length w.queue.queue < suc fuel
      → ((u : World F) → length u.queue.queue < fuel → (create_rooms ctx fuel u).1 ≡ true)
      → (round ctx fuel w r).1 ≡ true
  returns_round fuel w r (too_few h) enough next = refl
  returns_round fuel w r (popped q' [] split len) enough next = refl
  returns_round fuel w r (popped q' (p ∷ ids) split len) enough next =
      let w' = record w { queue = q' } in
      let same = ap (λ (c : Core F). length c.queue.queue) (core-make_room ctx (p ∷ ids) w') in
      let ih =
        next (make_room ctx (p ∷ ids) w')
          (omega (arith, enough, same, length-append (p ∷ ids) q'.queue, ap length split)) in
      if_intro (λ (r : World F × Bool). r.1 ≡ true)
        (not (length (p ∷ ids) == ctx.room_player_count) || not ctx.has_rooms) (λ stop. refl)
        (λ go. ih)

  returns :
      (fuel : ℕ) (w : World F) → length w.queue.queue < fuel → (create_rooms ctx fuel w).1 ≡ true
  unfolding create_rooms
  returns zero w enough = absurd (omega arith)
  returns (suc fuel) w enough =
      returns_round fuel w (try_pop_n ctx.room_player_count w.queue)
        (try_pop_n-Popped ctx.room_player_count w.queue) enough (returns fuel)

  -- Whatever the room's size, also 0, and whatever is set: the loop of TryCreateRoom ends within
  -- one round more than there are waiting players.
  pub create_rooms-returns : (w : World F) → (create_rooms ctx (suc (size w.queue)) w).1 ≡ true
  unfolding size
  create_rooms-returns w = returns (suc (length w.queue.queue)) w (omega arith)
