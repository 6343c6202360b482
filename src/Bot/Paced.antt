-- ===== src/Bot/Paced.antt =====
-- The pace of a bot: its heartbeat and its reconnections.
use cpp_game_room.Base.{◌≤◌, ◌≡◌, sym, ap, ◌∙◌, subst}
use cpp_game_room.Base.Int.{ℤ, pos_part}
use cpp_game_room.Bot.State.{BotClient}
use cpp_game_room.Bot.Link.{flag, wire, Pace, pace, link}

-- At most one heartbeat waits for its timer, and none before the first is started; a round has at
-- most so many reconnections.
pub record Paced (max_reconnects : ℤ) (p : Pace) : Type 0 where
  pub one_beat : p.beats ≤ flag p.heartbeat_started
  pub few_reconnects : p.reconnect_count ≤ pos_part max_reconnects

-- The works of the connection stay, and the pace with them.
pub record Handled (max : ℤ) (c c' : BotClient) : Type 0 where
  pub same_wire : wire c' ≡ wire c
  pub stays_paced : Paced max (pace c) → Paced max (pace c')

module _ {max : ℤ} where
  pub calm : {c c' : BotClient} → link c' ≡ link c → Handled max c c'
  calm e = record { same_wire = ap (λ l. l.0) e; stays_paced = subst (λ l. Paced max l.1) (sym e) }

  pub next : {c c' c'' : BotClient} → Handled max c c' → Handled max c' c'' → Handled max c c''
  next h k = record {
    same_wire = k.same_wire ∙ h.same_wire;
    stays_paced = λ p. k.stays_paced (h.stays_paced p);
  }

  pub rebase : {c c' c'' : BotClient} → link c' ≡ link c → Handled max c' c'' → Handled max c c''
  rebase e h = next (calm e) h
