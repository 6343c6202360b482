-- ===== src/Storage/Battles/Sheet.antt =====
-- Which results ApplySettlement takes to its transaction.
use cpp_game_room.Base.{
  ℕ, suc, ◌+◌, ◌≡◌, ◌↔◌, refl, sym, ap, ◌∙◌, Bool, true, false, not, ◌&&◌, ◌||◌, Option, none, some,
  List, All, [], ◌∷◌, ◌==◌, if◌then◌else◌, ==_iff, arith, if_intro, length, is_positive64, leb,
}
use cpp_game_room.Base.Int.{eqb_ℤ_iff}
use text.Mathlib.TextEquality.{eq_iff}
use cpp_game_room.Storage.Statement.{Battle, BattlePlayerResult}
use cpp_game_room.Storage.Battles.{
  insert_sorted, sort_results, is_expected, outcome_of, delta_of, count_winners, one_winner,
  checked_results, ltb64,
}

abbrev pub is_winner : Battle → BattlePlayerResult → Bool
is_winner battle r = r.player_id == battle.winner_id

-- The result is of this battle, with the outcome and the score of its player.
abbrev pub IsRight : Battle → BattlePlayerResult → Type 0
IsRight battle r =
    (r.battle_id ≡ battle.battle_id)
    × (r.result ≡ outcome_of (is_winner battle r))
    × (r.score_delta ≡ delta_of (is_winner battle r))

abbrev pub winners : Battle → List BattlePlayerResult → ℕ
winners battle [] = 0
winners battle (r ∷ rs) =
    let rest = winners battle rs in if is_winner battle r then suc rest else rest

-- The player ids are above `previous` and rise, as signed numbers.
abbrev pub Rises : ℕ → List BattlePlayerResult → Type 0
Rises previous [] = Unit {0}
Rises previous (r ∷ rs) = (ltb64 previous r.player_id ≡ true) × Rises r.player_id rs

both : {P Q : Type 0} {a b : Bool} → (a ≡ true) ↔ P → (b ≡ true) ↔ Q → ((a && b) ≡ true) ↔ (P × Q)
both {a = true} {b = true} h k = (λ _. (h.0 refl, k.0 refl), λ _. refl)
both {a = true} {b = false} h k = (λ e. cc, λ x. k.1 x.1)
both {a = false} {b = b} h k = (λ e. cc, λ x. h.1 x.0)

is_expected_iff :
    (battle : Battle) (previous : ℕ) (r : BattlePlayerResult)
    → (is_expected battle previous r ≡ true)
      ↔ ((ltb64 previous r.player_id ≡ true) × IsRight battle r)
unfolding is_expected
is_expected_iff battle previous r =
    let all =
      both
        (both (both (==_iff r.battle_id battle.battle_id) (λ h. h, λ h. h))
          (eq_iff r.result (outcome_of (is_winner battle r))))
        (eqb_ℤ_iff r.score_delta (delta_of (is_winner battle r))) in
    (
      λ h. let x = all.0 h in (x.0.0.1, (x.0.0.0, x.0.1, x.1)),
      λ h. all.1 (((h.1.0, h.0), h.1.1), h.1.2),
    )

count_winners-eq-some :
    (battle : Battle) (k n previous : ℕ) (rs : List BattlePlayerResult)
    → count_winners battle n previous rs ≡ some k
    → Rises previous rs × All (IsRight battle) rs × (k ≡ n + winners battle rs)
unfolding count_winners
count_winners-eq-some battle k n previous [] h = (tt, tt, ground arith)
count_winners-eq-some battle k n previous (r ∷ rs) h =
    if_intro
      (λ (o : Option ℕ).
        o ≡ some k
        → Rises previous (r ∷ rs)
          × All (IsRight battle) (r ∷ rs)
          × (k ≡ n + winners battle (r ∷ rs)))
      (is_expected battle previous r)
      (λ ok e.
        let x = (is_expected_iff battle previous r).0 ok in
        let rest =
          count_winners-eq-some battle k (if is_winner battle r then n + 1 else n) r.player_id rs
            e in
        ((x.0, rest.0), (x.1, rest.1), ground (arith, rest.2)))
      (λ _ e. absurd (cc e)) h

count_winners-of :
    (battle : Battle) (n previous : ℕ) (rs : List BattlePlayerResult)
    → Rises previous rs
    → All (IsRight battle) rs
    → count_winners battle n previous rs ≡ some (n + winners battle rs)
unfolding count_winners
count_winners-of battle n previous [] h a = ground arith
count_winners-of battle n previous (r ∷ rs) h a =
    let ok = (is_expected_iff battle previous r).1 (h.0, a.0) in
    let rest =
      count_winners-of battle (if is_winner battle r then n + 1 else n) r.player_id rs h.1 a.1 in
    rw (ok, rest) (ground arith)

winners-insert_sorted :
    (battle : Battle) (x : BattlePlayerResult) (xs : List BattlePlayerResult)
    → winners battle (insert_sorted x xs) ≡ winners battle (x ∷ xs)
unfolding insert_sorted
winners-insert_sorted battle x [] = refl
winners-insert_sorted battle x (y ∷ ys) = ground (arith, winners-insert_sorted battle x ys)

winners-sort_results :
    (battle : Battle) (xs : List BattlePlayerResult)
    → winners battle (sort_results xs) ≡ winners battle xs
unfolding sort_results
winners-sort_results battle [] = refl
winners-sort_results battle (x ∷ xs) =
    ground (arith, winners-insert_sorted battle x (sort_results xs), winners-sort_results battle xs)

All-insert_sorted :
    (P : BattlePlayerResult → Type 0) (x : BattlePlayerResult) (xs : List BattlePlayerResult)
    → All P (insert_sorted x xs) ↔ All P (x ∷ xs)
unfolding insert_sorted
All-insert_sorted P x [] = (λ h. h, λ h. h)
All-insert_sorted P x (y ∷ ys) =
    if_intro (λ (r : List BattlePlayerResult). All P r ↔ All P (x ∷ y ∷ ys))
      (ltb64 y.player_id x.player_id)
      (λ _.
        let rest = All-insert_sorted P x ys in
        (λ h. ((rest.0 h.1).0, (h.0, (rest.0 h.1).1)), λ h. (h.1.0, rest.1 (h.0, h.1.1))))
      (λ _. (λ h. h, λ h. h))

All-sort_results :
    (P : BattlePlayerResult → Type 0) (xs : List BattlePlayerResult)
    → All P (sort_results xs) ↔ All P xs
unfolding sort_results
All-sort_results P [] = (λ h. h, λ h. h)
All-sort_results P (x ∷ xs) =
    let front = All-insert_sorted P x (sort_results xs) in
    let rest = All-sort_results P xs in
    (λ h. ((front.0 h).0, rest.0 (front.0 h).1), λ h. front.1 (h.0, rest.1 h.1))

one_winner_iff :
    (xs ordered : List BattlePlayerResult) (o : Option ℕ)
    → (one_winner xs o ≡ some ordered) ↔ ((o ≡ some 1) × (ordered ≡ xs))
unfolding one_winner
one_winner_iff xs ordered none = (λ h. cc, λ h. cc)
one_winner_iff xs ordered (some n) =
    if_intro
      (λ (r : Option (List BattlePlayerResult)).
        (r ≡ some ordered) ↔ ((some n ≡ some 1) × (ordered ≡ xs)))
      (n == 1) (λ e. (λ h. (ap some ((==_iff n 1).0 e), cc), λ h. ap some (sym h.1)))
      (λ e. (λ h. cc, λ h. absurd (ground arith)))

-- What a settlement must be: a battle, a room and a winner with positive ids, and one result for
-- each of different players with positive ids, each of the battle and with the outcome and the
-- score that belong to it, one of them the winner's.
pub record IsSheet (battle : Battle) (results : List BattlePlayerResult) : Type 0 where
  pub battle_id : is_positive64 battle.battle_id ≡ true
  pub room_id : is_positive64 battle.room_id ≡ true
  pub winner_id : is_positive64 battle.winner_id ≡ true
  pub rises : Rises 0 (sort_results results)
  pub right : All (IsRight battle) results
  pub one : winners battle results ≡ 1

winners-empty :
    (battle : Battle) (rs : List BattlePlayerResult)
    → winners battle rs ≡ 1
    → leb (length rs) 0 ≡ false
winners-empty battle [] h = absurd (ground arith)
winners-empty battle (r ∷ rs) h = ground arith

zero-plus : (n : ℕ) → 0 + n ≡ n
zero-plus n = omega arith

guards_iff :
    (a b c d : Bool)
    → ((not true || not a || not b || not c || d) ≡ false)
      ↔ ((a ≡ true) × (b ≡ true) × (c ≡ true) × (d ≡ false))
guards_iff a b c d = ground arith

-- With a database, ApplySettlement takes results to its transaction exactly if they are a proper
-- sheet for the battle, in any order, and then it takes them in order of their player ids.
pub checked_results_iff :
    (battle : Battle) (results ordered : List BattlePlayerResult)
    → (checked_results true battle results ≡ some ordered)
      ↔ (IsSheet battle results × (ordered ≡ sort_results results))
unfolding checked_results
checked_results_iff battle results ordered =
    let sorted = sort_results results in
    let guards =
      guards_iff (is_positive64 battle.battle_id) (is_positive64 battle.room_id)
        (is_positive64 battle.winner_id) (leb (length results) 0) in
    if_intro
      (λ (r : Option (List BattlePlayerResult)).
        (r ≡ some ordered) ↔ (IsSheet battle results × (ordered ≡ sort_results results)))
      (not true
        || not (is_positive64 battle.battle_id)
        || not (is_positive64 battle.room_id)
        || not (is_positive64 battle.winner_id)
        || leb (length results) 0)
      (λ bad. (
        λ h. cc,
        λ h. cc (
            sym bad
            ∙ guards.1
                (h.0.battle_id, h.0.room_id, h.0.winner_id, winners-empty battle results h.0.one)),
      ))
      (λ good.
        let w = one_winner_iff sorted ordered (count_winners battle 0 0 sorted) in
        (
          λ h.
              let x = w.0 h in
              let y = count_winners-eq-some battle 1 0 0 sorted x.0 in
              (
                record {
                  battle_id = (guards.0 good).0;
                  room_id = (guards.0 good).1;
                  winner_id = (guards.0 good).2;
                  rises = y.0;
                  right = (All-sort_results (IsRight battle) results).0 y.1;
                  one = ground (arith, y.2, winners-sort_results battle results);
                },
                x.1,
              ),
          λ h. w.1 (
            count_winners-of battle 0 0 sorted h.0.rises
                  ((All-sort_results (IsRight battle) results).1 h.0.right)
                ∙ ap some (zero-plus _ ∙ winners-sort_results battle results ∙ h.0.one),
            h.1,
          ),
        ))
