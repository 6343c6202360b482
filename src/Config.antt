-- ===== src/Config.antt =====
-- src/config/config_manager.cpp: the line parser of config/server.yaml. A text is the list of its
-- characters' codes, and a line is what std::getline gives.
pub mod RoundTrip
pub mod Examples
use Prim.Native.Char.{code}
use Prim.Native.String.{String}
use cpp_game_room.Base.{
  ℕ, ◌+◌, Bool, true, false, not, ◌&&◌, ◌||◌, Option, none, some, List, [], ◌∷◌, ◌++◌, ◌==◌,
  if◌then◌else◌,
}
use cpp_game_room.Base.Int.{ℤ, pos}

abbrev pub Text : Type 0
Text = List ℕ

-- The codes of a literal.
abbrev pub codes : String → Text
codes String.[] = []
codes (String.◌∷◌ c s) = code c ∷ codes s

-- std::string's ==
unfoldable pub eq_text : Text → Text → Bool
eq_text [] [] = true
eq_text (a ∷ s) (b ∷ t) = a == b && eq_text s t
eq_text s t = false

-- line.back() == c, and substr(0, size - 1), of a text that is not empty.
unfoldable pub ends_in : ℕ → Text → Bool
ends_in c [] = false
ends_in c (x ∷ []) = x == c
ends_in c (x ∷ y ∷ rest) = ends_in c (y ∷ rest)

unfoldable pub drop_last : Text → Text
drop_last [] = []
drop_last (x ∷ []) = []
drop_last (x ∷ y ∷ rest) = x ∷ drop_last (y ∷ rest)

abbrev pub is_front_space : ℕ → Bool
is_front_space c = c == b' ' || c == 9 || c == b'"'

abbrev pub is_back_space : ℕ → Bool
is_back_space c = c == b' ' || c == 9 || c == 13 || c == b'"'

abbrev pub is_nil : Text → Bool
is_nil [] = true
is_nil (c ∷ cs) = false

-- The two loops of Trim.
unfoldable pub trim_front : Text → Text
trim_front [] = []
trim_front (c ∷ cs) = let rest = trim_front cs in if is_front_space c then rest else c ∷ cs

unfoldable pub trim_back : Text → Text
trim_back [] = []
trim_back (c ∷ cs) =
    let rest = trim_back cs in if is_nil rest && is_back_space c then [] else c ∷ rest

unfoldable pub trim : Text → Text
unfolding trim_front trim_back
trim value = trim_back (trim_front value)

abbrev pub before : ℕ → Option (Text × Text) → Option (Text × Text)
before c none = none
before c (some (key, value)) = some (c ∷ key, value)

-- line.find(':') with the two substrings.
unfoldable pub split_at_colon : Text → Option (Text × Text)
split_at_colon [] = none
split_at_colon (c ∷ cs) =
    let rest = before c (split_at_colon cs) in if c == b':' then some ([], cs) else rest

-- SplitKeyValue on the two substrings: `none` is false.
abbrev pub trim_both : Option (Text × Text) → Option (Text × Text)
trim_both none = none
trim_both (some (key, value)) = if is_nil (trim key) then none else some (trim key, trim value)

unfoldable pub split_key_value : Text → Option (Text × Text)
unfolding split_at_colon trim
split_key_value line = trim_both (split_at_colon line)

pub record MysqlConfig : Type 0 where
  pub host : Text
  pub port : ℤ
  pub user : Text
  pub password : Text
  pub database : Text

pub record RedisConfig : Type 0 where
  pub host : Text
  pub port : ℤ

pub record ConfigManager : Type 0 where
  pub server_host : Text
  pub server_port : ℤ
  pub worker_threads : ℤ
  pub tick_interval_ms : ℤ
  pub room_player_count : ℤ
  pub mysql : MysqlConfig
  pub redis : RedisConfig

-- The defaults of the header.
unfoldable pub default_config : ConfigManager
default_config = record {
  server_host = codes "0.0.0.0";
  server_port = pos 9000;
  worker_threads = pos 4;
  tick_interval_ms = pos 50;
  room_player_count = pos 2;
  mysql = record {
    host = codes "127.0.0.1";
    port = pos 3306;
    user = codes "root";
    password = codes "123456";
    database = codes "game";
  };
  redis = record { host = codes "127.0.0.1"; port = pos 6379 };
}

-- Load's variables: the section, and the settings.
pub record Loading : Type 0 where
  pub section : Text
  pub config : ConfigManager

abbrev map_number : (ℤ → ConfigManager) → Option ℤ → Option ConfigManager
map_number f none = none
map_number f (some n) = some (f n)

-- std::stoi is a parameter; `none` is its exception, which leaves Load.
module _ (stoi : Text → Option ℤ) where
  unfoldable pub set_server : Text → Text → ConfigManager → Option ConfigManager
  set_server key value g =
      if eq_text key (codes "host")
      then some (record g { server_host = value })
      else if eq_text key (codes "port")
      then map_number (λ n. record g { server_port = n }) (stoi value)
      else if eq_text key (codes "worker_threads")
      then map_number (λ n. record g { worker_threads = n }) (stoi value)
      else if eq_text key (codes "tick_interval_ms")
      then map_number (λ n. record g { tick_interval_ms = n }) (stoi value)
      else some g

  unfoldable pub set_mysql : Text → Text → ConfigManager → Option ConfigManager
  set_mysql key value g =
      if eq_text key (codes "host")
      then some (record g { mysql = record g.mysql { host = value } })
      else if eq_text key (codes "port")
      then map_number (λ n. record g { mysql = record g.mysql { port = n } }) (stoi value)
      else if eq_text key (codes "user")
      then some (record g { mysql = record g.mysql { user = value } })
      else if eq_text key (codes "password")
      then some (record g { mysql = record g.mysql { password = value } })
      else if eq_text key (codes "database")
      then some (record g { mysql = record g.mysql { database = value } })
      else some g

  unfoldable pub set_redis : Text → Text → ConfigManager → Option ConfigManager
  set_redis key value g =
      if eq_text key (codes "host")
      then some (record g { redis = record g.redis { host = value } })
      else if eq_text key (codes "port")
      then map_number (λ n. record g { redis = record g.redis { port = n } }) (stoi value)
      else some g

  unfoldable pub set_match : Text → Text → ConfigManager → Option ConfigManager
  set_match key value g =
      if eq_text key (codes "room_player_count")
      then map_number (λ n. record g { room_player_count = n }) (stoi value)
      else some g

  -- The tests of the section and the key.
  unfoldable pub set_value : Text → Text → Text → ConfigManager → Option ConfigManager
  unfolding set_server set_mysql set_redis set_match eq_text
  set_value section key value g =
      if eq_text section (codes "server")
      then set_server key value g
      else if eq_text section (codes "mysql")
      then set_mysql key value g
      else if eq_text section (codes "redis")
      then set_redis key value g
      else if eq_text section (codes "match")
      then set_match key value g
      else some g

  abbrev with_config : Loading → Option ConfigManager → Option Loading
  with_config l none = none
  with_config l (some g) = some (record l { config = g })

  -- The rest of the loop's body, for what SplitKeyValue gives.
  unfoldable pub load_pair : Option (Text × Text) → Loading → Option Loading
  unfolding set_value
  load_pair none l = some l
  load_pair (some (key, value)) l =
      if is_nil value then some l else with_config l (set_value l.section key value l.config)

  -- The body of the loop.
  unfoldable pub load_line : Text → Loading → Option Loading
  unfolding load_pair split_key_value trim drop_last ends_in
  load_line [] l = some l
  load_line (c ∷ cs) l =
      if c == b'#'
      then some l
      else if not (c == b' ') && ends_in b':' (c ∷ cs)
      then some (record l { section = trim (drop_last (c ∷ cs)) })
      else load_pair (split_key_value (c ∷ cs)) l

  unfoldable pub load_lines : List Text → Loading → Option Loading
  unfolding load_line
  load_lines [] l = some l
  load_lines (line ∷ lines) l = elim (load_line line l) [
    | none ↦ none
    | some l' ↦ load_lines lines l'
  ]

  -- Load; the lines are `none` for a file that does not open. The result is none for an exception.
  unfoldable pub load : Option (List Text) → ConfigManager → Option (ConfigManager × Bool)
  unfolding load_lines
  load none g = some (g, false)
  load (some lines) g = elim (load_lines lines (record { section = []; config = g })) [
    | none ↦ none
    | some l ↦ some (l.config, true)
  ]
