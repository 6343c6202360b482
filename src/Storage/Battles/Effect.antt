-- ===== src/Storage/Battles/Effect.antt =====
-- What the effect of a settlement leaves in the battle table: the battle is settled.
use cpp_game_room.Base.{
  ℕ, ◌≡◌, refl, sym, ap, ◌∙◌, inl, inr, Option, none, some, List, [], ◌∷◌, arith, Option-cases,
}
use cpp_game_room.Base.Int.{ℤ}
use cpp_game_room.Base.Map.{Map, lookup, adjust, lookup-adjust}
use cpp_game_room.Storage.Statement.{
  Battle, BattlePlayerResult, SettlementLog, finish_battle, insert_result, insert_log, upsert_score,
}
use cpp_game_room.Storage.Battles.Tables.{Tables, BattleEntry, exec, finish}
use cpp_game_room.Storage.Battles.Work.{
  effect, effect_player, effect_players, and_then, run, score_statement, log_of,
}
use cpp_game_room.Storage.Battles.Verdict.{IsSettled, Unsettled}

-- The statements for the players leave the battle table alone.
run_upsert-battles :
    (p : ℕ) (i d w l : ℤ) (t t' : Tables)
    → run (upsert_score p i d w l) t ≡ some t'
    → t'.battles ≡ t.battles
unfolding exec
run_upsert-battles p i d w l t t' h = elim (Option-cases (lookup p t.players)) [
  | inl e ↦ ground arith
  | inr (x, e) ↦ ground arith
]

run_result-battles :
    (r : BattlePlayerResult) (t t' : Tables)
    → run (insert_result r) t ≡ some t'
    → t'.battles ≡ t.battles
unfolding exec
run_result-battles r t t' h = ground arith

run_log-battles :
    (l : SettlementLog) (t t' : Tables) → run (insert_log l) t ≡ some t' → t'.battles ≡ t.battles
unfolding exec
run_log-battles l t t' h = ground arith

and_then-cases :
    (f g : Tables → Option Tables) (t t'' : Tables)
    → and_then f g t ≡ some t''
    → (t' : Tables) × (f t ≡ some t') × (g t' ≡ some t'')
and_then-cases f g t t'' h = elim (Option-cases (f t)) [
  | inl e ↦ let k : and_then f g t ≡ none = rw (e, and_then) refl in absurd (cc (sym k ∙ h))
  | inr (t', e) ↦ let k : and_then f g t ≡ g t' = rw (e, and_then) refl in (t', e, sym k ∙ h)
]

effect_player-battles :
    (b : ℕ) (r : BattlePlayerResult) (t t' : Tables)
    → effect_player b r t ≡ some t'
    → t'.battles ≡ t.battles
effect_player-battles b r t t' h =
    let x = and_then-cases (run (insert_result r)) _ t t' h in
    let y = and_then-cases (run (insert_log (log_of b r))) (run (score_statement r)) x.0 t' x.2 in
    run_upsert-battles _ _ _ _ _ y.0 t' y.2
    ∙ run_log-battles (log_of b r) x.0 y.0 y.1
    ∙ run_result-battles r t x.0 x.1

effect_players-battles :
    (b : ℕ) (rs : List BattlePlayerResult) (t t' : Tables)
    → effect_players b rs t ≡ some t'
    → t'.battles ≡ t.battles
effect_players-battles b [] t t' h = let q : t' ≡ t = cc in ap (λ (x : Tables). x.battles) q
effect_players-battles b (r ∷ rs) t t' h =
    let x = and_then-cases (effect_player b r) (effect_players b rs) t t' h in
    effect_players-battles b rs x.0 t' x.2 ∙ effect_player-battles b r t x.0 x.1

run-finish_battle :
    (b winner : ℕ) (t : Tables) (e : BattleEntry)
    → lookup b t.battles ≡ some e
    → run (finish_battle b winner) t
      ≡ some (record t { battles = adjust b (finish winner) t.battles })
unfolding exec
run-finish_battle b winner t e h = rw (h, exec) refl

lookup-finish :
    (b winner : ℕ) (bs : Map BattleEntry) (e : BattleEntry)
    → lookup b bs ≡ some e
    → lookup b (adjust b (finish winner) bs) ≡ some (finish winner e)
lookup-finish b winner bs e h = ground (arith, lookup-adjust b b (finish winner) bs)

pub effect-IsSettled :
    (battle : Battle) (rs : List BattlePlayerResult) (t t' : Tables)
    → Unsettled battle t
    → effect battle rs t ≡ some t'
    → IsSettled battle t'
effect-IsSettled battle rs t t' u h =
    let x = and_then-cases (effect_players battle.battle_id rs) _ t t' h in
    let same = effect_players-battles battle.battle_id rs t x.0 x.1 in
    let listed : lookup battle.battle_id x.0.battles ≡ some u.entry = rw same u.listed in
    let done = run-finish_battle battle.battle_id battle.winner_id x.0 u.entry listed in
    let now : t'
        ≡ record x.0 { battles = adjust battle.battle_id (finish battle.winner_id) x.0.battles } =
      cc (sym x.2 ∙ done) in
    let e = ap (λ (y : Tables). y.battles) now in
    record {
      entry = finish battle.winner_id u.entry;
      listed = rw e (lookup-finish battle.battle_id battle.winner_id x.0.battles u.entry listed);
      settled = refl;
      winner = refl;
    }
