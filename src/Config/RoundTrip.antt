-- ===== src/Config/RoundTrip.antt =====
-- A settings file that is written in the form of config/server.yaml and read again.
use cpp_game_room.Base.{◌≡◌, refl, ap, ◌∙◌, true, false, Option, some, List, [], ◌∷◌, ◌++◌}
use cpp_game_room.Base.Int.{ℤ, IsInt}
use cpp_game_room.Config.{
  Text, codes, eq_text, ends_in, drop_last, is_nil, trim_front, trim_back, trim, split_at_colon,
  split_key_value, ConfigManager, Loading, map_number, set_server, set_mysql, set_redis, set_match,
  set_value, with_config, load_pair, load_line, load_lines, load,
}

-- "  key: value"
abbrev pub entry : Text → Text → Text
entry key value = b' ' ∷ b' ' ∷ (key ++ b':' ∷ b' ' ∷ value)

-- A value that Trim leaves as it is, and that is not empty.
abbrev pub Clean : Text → Type 0
Clean value = (trim value ≡ value) × (is_nil value ≡ false)

module _ (stoi : Text → Option ℤ) (to_text : ℤ → Text) where
  -- The lines of a file with all settings.
  abbrev pub printed : ConfigManager → List Text
  printed g =
      codes "server:"
      ∷ entry (codes "host") g.server_host
      ∷ entry (codes "port") (to_text g.server_port)
      ∷ entry (codes "worker_threads") (to_text g.worker_threads)
      ∷ entry (codes "tick_interval_ms") (to_text g.tick_interval_ms)
      ∷ []
      ∷ codes "mysql:"
      ∷ entry (codes "host") g.mysql.host
      ∷ entry (codes "port") (to_text g.mysql.port)
      ∷ entry (codes "user") g.mysql.user
      ∷ entry (codes "password") g.mysql.password
      ∷ entry (codes "database") g.mysql.database
      ∷ []
      ∷ codes "redis:"
      ∷ entry (codes "host") g.redis.host
      ∷ entry (codes "port") (to_text g.redis.port)
      ∷ []
      ∷ codes "match:"
      ∷ entry (codes "room_player_count") (to_text g.room_player_count)
      ∷ []

  -- A line whose key and value are cut out right.
  load_line-entry :
      (key value : Text) (l : Loading)
      → split_at_colon (entry key value) ≡ some (b' ' ∷ b' ' ∷ key, b' ' ∷ value)
      → trim (b' ' ∷ b' ' ∷ key) ≡ key
      → is_nil key ≡ false
      → Clean value
      → load_line stoi (entry key value) l
        ≡ with_config stoi l (set_value stoi l.section key value l.config)
  unfolding load_line load_pair split_key_value trim trim_front
  load_line-entry key value l cut key_trimmed key_some clean =
      rw (cut, key_trimmed, key_some, clean.0, clean.1) refl

  -- Lines that are read one after the other.
  data Loads : List Text → Loading → Loading → Type 0 where
    ends : {l : Loading} → Loads [] l l
    reads :
        {line : Text} {lines : List Text} {l l' m : Loading}
        → load_line stoi line l ≡ some l'
        → Loads lines l' m
        → Loads (line ∷ lines) l m

  load_lines-Loads :
      {lines : List Text} {l m : Loading} → Loads lines l m → load_lines stoi lines l ≡ some m
  unfolding load_lines
  load_lines-Loads ends = refl
  load_lines-Loads (reads e more) = rw (e, load_lines) (load_lines-Loads more)

  -- One entry of a section, of which only the key is fixed.
  text_line :
      (key value : Text) (l : Loading) (g : ConfigManager)
      → split_at_colon (entry key value) ≡ some (b' ' ∷ b' ' ∷ key, b' ' ∷ value)
      → trim (b' ' ∷ b' ' ∷ key) ≡ key
      → is_nil key ≡ false
      → Clean value
      → set_value stoi l.section key value l.config ≡ some g
      → load_line stoi (entry key value) l ≡ some (record l { config = g })
  text_line key value l g cut key_trimmed key_some clean set =
      load_line-entry key value l cut key_trimmed key_some clean ∙ ap (with_config stoi l) set

-- The texts of the settings are such that Trim leaves them and they are not empty.
pub record CleanTexts (g : ConfigManager) : Type 0 where
  pub server_host : Clean g.server_host
  pub mysql_host : Clean g.mysql.host
  pub user : Clean g.mysql.user
  pub password : Clean g.mysql.password
  pub database : Clean g.mysql.database
  pub redis_host : Clean g.redis.host

-- The numbers are int in ConfigManager.
pub record IntNumbers (g : ConfigManager) : Type 0 where
  pub server_port : IsInt g.server_port
  pub worker_threads : IsInt g.worker_threads
  pub tick_interval_ms : IsInt g.tick_interval_ms
  pub mysql_port : IsInt g.mysql.port
  pub redis_port : IsInt g.redis.port
  pub room_player_count : IsInt g.room_player_count

module _ (stoi : Text → Option ℤ) (to_text : ℤ → Text)
    (stoi_to_text : (n : ℤ) → IsInt n → stoi (to_text n) ≡ some n)
    (to_text-Clean : (n : ℤ) → Clean (to_text n)) (g : ConfigManager) (clean : CleanTexts g)
    (numbers : IntNumbers g) where
  number : (f : ℤ → ConfigManager) (n : ℤ) → IsInt n → map_number f (stoi (to_text n)) ≡ some (f n)
  number f n i = ap (map_number f) (stoi_to_text n i)

  printed-Loads :
      (c : ConfigManager)
      → Loads stoi to_text
          (printed stoi to_text g)
          (record { section = []; config = c })
          (record { section = codes "match"; config = g })
  unfolding load_line trim trim_front trim_back drop_last ends_in split_at_colon set_value
      set_server set_mysql set_redis set_match eq_text
  printed-Loads c =
      let text = text_line stoi to_text in
      let integer : (key : Text) (n : ℤ) (l : Loading) (f : ℤ → ConfigManager)
          → IsInt n
          → split_at_colon (entry key (to_text n)) ≡ some (b' ' ∷ b' ' ∷ key, b' ' ∷ to_text n)
          → trim (b' ' ∷ b' ' ∷ key) ≡ key
          → is_nil key ≡ false
          → set_value stoi l.section key (to_text n) l.config ≡ map_number f (stoi (to_text n))
          → load_line stoi (entry key (to_text n)) l ≡ some (record l { config = f n }) =
        λ key n l f i cut trimmed some_key set.
          text key (to_text n) l (f n) cut trimmed some_key (to_text-Clean n)
            (set ∙ number f n i) in
      reads refl (
        reads (text (codes "host") g.server_host _ _ refl refl refl clean.server_host refl) (
          reads (integer (codes "port") g.server_port _ _ numbers.server_port refl refl refl refl) (
            reads
              (integer (codes "worker_threads") g.worker_threads _ _ numbers.worker_threads refl
                refl refl refl)
              (reads
                (integer (codes "tick_interval_ms") g.tick_interval_ms _ _ numbers.tick_interval_ms
                  refl refl refl refl)
                (reads refl (
                  reads refl (
                    reads
                      (text (codes "host") g.mysql.host _ _ refl refl refl clean.mysql_host refl)
                      (reads
                        (integer (codes "port") g.mysql.port _ _ numbers.mysql_port refl refl refl
                          refl)
                        (reads (text (codes "user") g.mysql.user _ _ refl refl refl clean.user refl)
                          (reads
                            (text (codes "password") g.mysql.password _ _ refl refl refl
                              clean.password refl)
                            (reads
                              (text (codes "database") g.mysql.database _ _ refl refl refl
                                clean.database refl)
                              (reads refl (
                                reads refl (
                                  reads
                                    (text (codes "host") g.redis.host _ _ refl refl refl
                                      clean.redis_host refl)
                                    (reads
                                      (integer (codes "port") g.redis.port _ _ numbers.redis_port
                                        refl refl refl refl)
                                      (reads refl (
                                        reads refl (
                                          reads
                                            (integer (codes "room_player_count") g.room_player_count
                                              _ _ numbers.room_player_count refl refl refl refl)
                                            ends))))))))))))))))))

  -- Where std::stoi reads back what was written for a number of int, the numbers of the settings
  -- are within int, and Trim leaves every value as it is and none is empty: a file with all
  -- settings, written in the form of config/server.yaml, is loaded as these settings, whatever
  -- the settings were before.
  pub load-printed :
      (c : ConfigManager) → load stoi (some (printed stoi to_text g)) c ≡ some (g, true)
  unfolding load
  load-printed c = rw (load_lines-Loads stoi to_text (printed-Loads c)) refl
