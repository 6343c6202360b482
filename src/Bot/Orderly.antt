-- ===== src/Bot/Orderly.antt =====
-- The works and the pace of a bot stay in order through every event.
use cpp_game_room.Base.{
  ℕ, ◌+◌, ◌≡◌, refl, sym, ap, subst, Bool, true, false, not, some, arith, if_intro,
}
use cpp_game_room.Base.Int.{ℤ, pos}
use cpp_game_room.Bot.State.{
  BotClient, Task, connects, Work, timer, Environment, max_ℤ, schedule_timer, add_work,
}
use cpp_game_room.Bot.Link.{flag, Kind, is_kind, is_beat, count-add, wire, Pace, pace, link}
use cpp_game_room.Bot.Wired.{Wired, with_work, wire-add_work, lose}
use cpp_game_room.Bot.Paced.{Paced}

pub record Orderly {F : Type 0} (env : Environment F) (c : BotClient) : Type 0 where
  pub wired : Wired (wire c)
  pub paced : Paced env.options.max_reconnects (pace c)

abbrev pub with_beat : Work → Pace → Pace
with_beat x p = record p { beats = flag (is_beat x) + p.beats }

-- In order with a work that is taken from the list, whose handler is about to run.
pub record Taken {F : Type 0} (env : Environment F) (x : Work) (c : BotClient) : Type 0 where
  pub wired : Wired (with_work x (wire c))
  pub paced : Paced env.options.max_reconnects (with_beat x (pace c))

module _ {F : Type 0} (env : Environment F) where
  pub Orderly-link : (c c' : BotClient) → link c' ≡ link c → Orderly env c → Orderly env c'
  Orderly-link c c' e h = record {
    wired = subst (λ l. Wired l.0) (sym e) h.wired;
    paced = subst (λ l. Paced env.options.max_reconnects l.1) (sym e) h.paced;
  }

  pub less_beats :
      (x : Work) (p : Pace)
      → Paced env.options.max_reconnects (with_beat x p)
      → Paced env.options.max_reconnects p
  less_beats x p h =
      let b = h.one_beat in record { one_beat = omega arith; few_reconnects = h.few_reconnects }

  pub add_work-Orderly :
      (x : Work) (c : BotClient)
      → is_beat x ≡ false
      → Wired (with_work x (wire c))
      → Paced env.options.max_reconnects (pace c)
      → Orderly env (add_work x c)
  add_work-Orderly x c q h p =
      let b = p.one_beat in
      let e = count-add is_beat c.pending x in
      let z = ap flag q in
      record {
        wired = subst Wired (sym (wire-add_work x c)) h;
        paced = record { one_beat = omega arith; few_reconnects = p.few_reconnects };
      }

  -- A timer of connect, if the bot runs.
  pub schedule_connect-Orderly :
      (delay : ℤ) (r : Bool) (c : BotClient)
      → (not c.running ≡ true → Orderly env c)
      → Wired (with_work (timer (max_ℤ (pos 0) delay) (connects r)) (wire c))
      → Paced env.options.max_reconnects (pace c)
      → Orderly env (schedule_timer delay (connects r) c)
  unfolding schedule_timer
  schedule_connect-Orderly delay r c h k p =
      if_intro (Orderly env) (not c.running) h
        (λ _. add_work-Orderly (timer (max_ℤ (pos 0) delay) (connects r)) c refl k p)

  pub lose-Orderly :
      (x : Work) (c : BotClient)
      → (c.running ≡ true
          → (s : ℕ) → c.socket ≡ some s
          → (is_kind (Kind.reads s) x ≡ false) × (is_kind (Kind.writes s) x ≡ false))
      → Taken env x c
      → Orderly env c
  lose-Orderly x c spared h = record {
    wired = lose x (wire c) spared h.wired;
    paced = less_beats x (pace c) h.paced;
  }

  pub lose_timer-Orderly :
      (d : ℤ) (task : Task) (c : BotClient) → Taken env (timer d task) c → Orderly env c
  lose_timer-Orderly d task c h = lose-Orderly (timer d task) c (λ _ s _. (refl, refl)) h
