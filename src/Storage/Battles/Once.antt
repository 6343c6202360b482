-- ===== src/Storage/Battles/Once.antt =====
-- ApplySettlement as a whole, and any number of calls of it one after the other: the retries of a
-- settlement, and settlements of one battle that contradict each other.
use cpp_game_room.Base.{
  ℕ, ◌≡◌, refl, sym, ap, ◌∙◌, subst, ◌⊎◌, inl, inr, Bool, true, Option, some, List, All, Any, [],
  ◌∷◌, ◌==◌, Option-cases,
}
use cpp_game_room.Base.Map.{lookup}
use cpp_game_room.Storage.Statement.{Battle, BattlePlayerResult}
use cpp_game_room.Storage.Mysql.{MysqlApi, Client, run_transaction}
use cpp_game_room.Storage.Battles.{
  sort_results, checked_results, settle_in_transaction, apply_settlement,
}
use cpp_game_room.Storage.Battles.Tables.{Tables, BattleEntry, Transactional, Outside}
use cpp_game_room.Storage.Battles.Work.{effect}
use cpp_game_room.Storage.Battles.Verdict.{Settlement, IsSettled, Unsettled}
use cpp_game_room.Storage.Battles.Effect.{effect-IsSettled}
use cpp_game_room.Storage.Battles.Outcome.{Outcome, run_transaction-Outcome}
use cpp_game_room.Storage.Battles.Checked.{checked_results-eq-some}

module _ (api : MysqlApi) (laws : Transactional api) where
  open laws use {durable}

  -- On a server whose transactions behave as documented, one call of ApplySettlement that is made
  -- outside of a transaction, with nothing uncommitted on the connection, ends so again, on every
  -- failure, with the committed tables as they were or with exactly one settlement done; where it
  -- reports success the settlement is there for sure.
  pub apply_settlement-Outcome :
      (mysql : Bool) (battle : Battle) (results : List BattlePlayerResult) (c : Client api)
      → Outside api laws c
      → Outcome api laws battle
          (sort_results results)
          c
          (apply_settlement api mysql battle results c)
  unfolding apply_settlement
  apply_settlement-Outcome mysql battle results c h =
      elim (Option-cases (checked_results mysql battle results)) [
        | inl e ↦ rw (e, apply_settlement) (record { outside = h; safe = inl refl; sure = λ k. cc })
        | inr (ordered, e) ↦
            let x = checked_results-eq-some mysql battle results ordered e in
            rw (e, apply_settlement)
              (subst
                (λ rs.
                  Outcome api laws battle rs c
                    (run_transaction api (settle_in_transaction api mysql battle ordered) c))
                x.0 (run_transaction-Outcome api laws mysql battle ordered c x.1 h))
      ]

-- One call of ApplySettlement.
pub record Call : Type 0 where
  pub mysql : Bool
  pub battle : Battle
  pub results : List BattlePlayerResult

abbrev pub apply : (api : MysqlApi) → Call → Client api → Client api × Option Bool
apply api k c = apply_settlement api k.mysql k.battle k.results c

abbrev pub apply_all : (api : MysqlApi) → List Call → Client api → Client api
apply_all api [] c = c
apply_all api (k ∷ ks) c = apply_all api ks (apply api k c).0

-- A battle that the tables hold as settled.
abbrev pub Closed : ℕ → Tables → Type 0
Closed b t = (e : BattleEntry) × (lookup b t.battles ≡ some e) × ((e.settled == 1) ≡ true)

-- What the calls leave of the tables: they are as before, or one of the calls had its effect.
abbrev pub OneEffect : List Call → Tables → Tables → Type 0
OneEffect ks t t' =
    (t' ≡ t)
    ⊎ Any (λ k. Unsettled k.battle t × (effect k.battle (sort_results k.results) t ≡ some t')) ks

pub Unsettled-Closed :
    (battle : Battle) (t : Tables) → Closed battle.battle_id t → Unsettled battle t → ⊥
Unsettled-Closed battle t c u =
    let same : c.0 ≡ u.entry = cc (sym c.1 ∙ u.listed) in
    cc (sym c.2 ∙ ap (λ (e : BattleEntry). e.settled == 1) same ∙ u.unsettled)

Settlement-Closed :
    (battle : Battle) (rs : List BattlePlayerResult) (t t' : Tables)
    → Closed battle.battle_id t
    → Settlement battle rs t t'
    → IsSettled battle t × (t' ≡ t)
Settlement-Closed battle rs t t' c (inl s) = s
Settlement-Closed battle rs t t' c (inr (u, e)) = absurd (Unsettled-Closed battle t c u)

IsSettled-agree :
    (b d : Battle) (t : Tables)
    → b.battle_id ≡ d.battle_id
    → IsSettled b t
    → IsSettled d t
    → b.winner_id ≡ d.winner_id
IsSettled-agree b d t h x y =
    let same : x.entry ≡ y.entry = cc (sym x.listed ∙ ap (λ i. lookup i t.battles) h ∙ y.listed) in
    sym x.winner ∙ ap (λ (e : BattleEntry). e.winner_id) same ∙ y.winner

pub Settlement-IsSettled :
    (battle : Battle) (rs : List BattlePlayerResult) (t t' : Tables)
    → Settlement battle rs t t'
    → IsSettled battle t'
Settlement-IsSettled battle rs t t' (inl (s, same)) = subst (IsSettled battle) (sym same) s
Settlement-IsSettled battle rs t t' (inr (u, e)) = effect-IsSettled battle rs t t' u e

OneEffect-later :
    (k : Call) (ks : List Call) (t t' : Tables) → OneEffect ks t t' → OneEffect (k ∷ ks) t t'
OneEffect-later k ks t t' (inl e) = inl e
OneEffect-later k ks t t' (inr a) = inr (inr a)

pub IsSettled-Closed :
    (battle : Battle) (t : Tables) → IsSettled battle t → Closed battle.battle_id t
IsSettled-Closed battle t s = (s.entry, s.listed, s.settled)

module _ (api : MysqlApi) (laws : Transactional api) where
  open laws use {durable}

  abbrev pub AllOf : ℕ → List Call → Type 0
  AllOf b = All (λ k. k.battle.battle_id ≡ b)

  apply-Closed :
      (k : Call) (c : Client api)
      → Outside api laws c
      → Closed k.battle.battle_id (durable c.db)
      → durable (apply api k c).0.db ≡ durable c.db
  apply-Closed k c h d =
      elim (apply_settlement-Outcome api laws k.mysql k.battle k.results c h).safe [
        | inl same ↦ same
        | inr s ↦ (Settlement-Closed k.battle _ _ _ d s).1
      ]

  apply_all-Closed :
      (b : ℕ) (ks : List Call) (c : Client api)
      → Outside api laws c
      → AllOf b ks
      → Closed b (durable c.db)
      → durable (apply_all api ks c).db ≡ durable c.db
  apply_all-Closed b [] c h a d = refl
  apply_all-Closed b (k ∷ ks) c h a d =
      let o = apply_settlement-Outcome api laws k.mysql k.battle k.results c h in
      let same = apply-Closed k c h (subst (λ x. Closed x (durable c.db)) (sym a.0) d) in
      apply_all-Closed b ks _ o.outside a.1 (subst (Closed b) (sym same) d) ∙ same

  apply_all-Outside :
      (ks : List Call) (c : Client api) → Outside api laws c → Outside api laws (apply_all api ks c)
  apply_all-Outside [] c h = h
  apply_all-Outside (k ∷ ks) c h =
      apply_all-Outside ks _
        (apply_settlement-Outcome api laws k.mysql k.battle k.results c h).outside

  -- On a server whose transactions behave as documented, any number of calls of ApplySettlement
  -- for one battle, made from outside of a transaction and with nothing uncommitted on the
  -- connection, whatever their results and winners and whatever fails in between, leave the
  -- committed tables as they were, or with the whole effect of one of the calls on a battle that
  -- was not settled.
  pub apply_all-OneEffect :
      (b : ℕ) (ks : List Call) (c : Client api)
      → Outside api laws c
      → AllOf b ks
      → OneEffect ks (durable c.db) (durable (apply_all api ks c).db)
  apply_all-OneEffect b [] c h a = inl refl
  apply_all-OneEffect b (k ∷ ks) c h a =
      let o = apply_settlement-Outcome api laws k.mysql k.battle k.results c h in
      let c' = (apply api k c).0 in
      let later = apply_all-OneEffect b ks c' o.outside a.1 in
      let unchanged : durable c'.db ≡ durable c.db
          → OneEffect (k ∷ ks) (durable c.db) (durable (apply_all api ks c').db) =
        λ same.
          OneEffect-later k ks _ _
            (subst (λ t. OneEffect ks t (durable (apply_all api ks c').db)) same later) in
      elim o.safe [
        | inl same ↦ unchanged same
        | inr (inl (s, same)) ↦ unchanged same
        | inr (inr (u, e)) ↦
            let closed = IsSettled-Closed k.battle _ (effect-IsSettled k.battle _ _ _ u e) in
            let kept =
              apply_all-Closed b ks c' o.outside a.1
                (subst (λ x. Closed x (durable c'.db)) a.0 closed) in
            inr (inl (u, e ∙ ap some (sym kept)))
      ]

  -- On a server whose transactions behave as documented, two calls of ApplySettlement for one
  -- battle that both report success name the same winner, whatever calls for the battle come
  -- between them, when the first is made outside of a transaction and with nothing uncommitted on
  -- the connection.
  pub apply_all-agree :
      (first second : Call) (between : List Call) (c : Client api)
      → Outside api laws c
      → AllOf first.battle.battle_id between
      → second.battle.battle_id ≡ first.battle.battle_id
      → (apply api first c).1 ≡ some true
      → (apply api second (apply_all api between (apply api first c).0)).1 ≡ some true
      → second.battle.winner_id ≡ first.battle.winner_id
  apply_all-agree first second between c h a same ok1 ok2 =
      let o = apply_settlement-Outcome api laws first.mysql first.battle first.results c h in
      let c' = (apply api first c).0 in
      let settled = Settlement-IsSettled first.battle _ _ _ (o.sure ok1) in
      let kept =
        apply_all-Closed first.battle.battle_id between c' o.outside a
          (IsSettled-Closed first.battle _ settled) in
      let d = apply_all api between c' in
      let now : IsSettled first.battle (durable d.db) =
        subst (IsSettled first.battle) (sym kept) settled in
      let p =
        apply_settlement-Outcome api laws second.mysql second.battle second.results d
          (apply_all-Outside between c' o.outside) in
      let again =
        Settlement-Closed second.battle _ _ _
          (subst (λ x. Closed x (durable d.db)) (sym same) (IsSettled-Closed first.battle _ now))
          (p.sure ok2) in
      IsSettled-agree second.battle first.battle (durable d.db) same again.0 now
