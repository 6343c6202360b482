-- ===== src/Service/Binding.antt =====
-- LoginService::HandleLogin: the session that a player has after a login.
use cpp_game_room.Base.{
  ℕ, ◌≡◌, ◌≢◌, refl, ap, ◌∙◌, true, Option, none, some, [], ◌∷◌, ◌++◌, arith, ne_test, ==_refl,
}
use cpp_game_room.Base.Map.{lookup}
use cpp_game_room.Net.Session.{is_linked}
use cpp_game_room.Net.Connections.{ConnectionManager, get_by_player_id, bind_player}
use cpp_game_room.Service.World.{World, Context, close_session, session_of_player}
use cpp_game_room.Service.Login.{begin_login, bind, beat, close_old}
use cpp_game_room.Service.Consistent.{insert-new, insert-other}

-- The old session `t` was asked to close, and `s` is the player's session.
pub record Bound {F : Type 0} (s p : ℕ) (w u : World F) : Type 0 where
  pub bound : get_by_player_id p u.connections ≡ some s
  pub others : (q : ℕ) → p ≢ q → get_by_player_id q u.connections ≡ get_by_player_id q w.connections
  pub closes :
      (t : ℕ)
      → get_by_player_id p w.connections ≡ some t
      → t ≢ s
      → is_linked w.objects t ≡ true
      → u.closing ≡ w.closing ++ t ∷ []
  pub stays : get_by_player_id p w.connections ≡ some s → u.closing ≡ w.closing
  pub alone : get_by_player_id p w.connections ≡ none → u.closing ≡ w.closing

module _ {F : Type 0} (ctx : Context) (connections_set : ctx.has_connections ≡ true) where
  close_old-connections :
      (old : Option ℕ) (s : ℕ) (w : World F) → (close_old ctx old s w).connections ≡ w.connections
  unfolding close_old close_session
  close_old-connections none s w = refl
  close_old-connections (some t) s w = ground arith

  bind-connections :
      (s p : ℕ) (w : World F) → (bind ctx s p w).connections ≡ bind_player p (some s) w.connections
  unfolding bind
  bind-connections s p w = rw connections_set refl

  bind-closing : (s p : ℕ) (w : World F) → (bind ctx s p w).closing ≡ w.closing
  unfolding bind
  bind-closing s p w = rw connections_set refl

  old_session : (p : ℕ) (w : World F) → session_of_player ctx p w ≡ get_by_player_id p w.connections
  old_session p w = rw connections_set refl

  close_old-closing :
      (s t : ℕ) (w : World F)
      → t ≢ s
      → is_linked w.objects t ≡ true
      → (close_old ctx (some t) s w).closing ≡ w.closing ++ t ∷ []
  unfolding close_old close_session
  close_old-closing s t w other linked = rw (ne_test t s other, linked) refl

  close_old-same : (s : ℕ) (w : World F) → (close_old ctx (some s) s w).closing ≡ w.closing
  unfolding close_old
  close_old-same s w = rw (==_refl s) refl

  close_old-none : (s : ℕ) (w : World F) → close_old ctx none s w ≡ w
  unfolding close_old
  close_old-none s w = refl

  -- With a connection manager: after the first half of a login the player is bound to the session
  -- of the login and all other players to the sessions to which they were bound; a session to
  -- which the player was bound before, if it is another one and has a connection, has been asked
  -- to close, and only it; a player who was bound to no session or to the session of the login
  -- has none closed.
  pub begin_login-Bound : (s p now : ℕ) (w : World F) → Bound s p w (begin_login ctx s p now w)
  unfolding begin_login beat get_by_player_id bind_player
  begin_login-Bound s p now w =
      let w' = close_old ctx (session_of_player ctx p w) s w in
      let kept = close_old-connections (session_of_player ctx p w) s w in
      let now_bound =
        ap (λ (cm : ConnectionManager). cm.player_sessions) (bind-connections s p w') in
      let before = ap (λ (cm : ConnectionManager). cm.player_sessions) kept in
      let old = old_session p w in
      record {
        bound = ap (lookup p) now_bound ∙ insert-new p s w'.connections.player_sessions;
        others = λ q h.
            ap (lookup q) now_bound
            ∙ insert-other p q s w'.connections.player_sessions (ne_test p q h)
            ∙ ap (lookup q) before;
        closes = λ t e other linked.
            bind-closing s p w'
            ∙ ap (λ o. (close_old ctx o s w).closing) (old ∙ e)
            ∙ close_old-closing s t w other linked;
        stays = λ e.
            bind-closing s p w'
            ∙ ap (λ o. (close_old ctx o s w).closing) (old ∙ e)
            ∙ close_old-same s w;
        alone = λ e.
            bind-closing s p w'
            ∙ ap (λ o. (close_old ctx o s w).closing) (old ∙ e)
            ∙ (ap (λ (u : World F). u.closing) (close_old-none s w));
      }
