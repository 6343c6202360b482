-- ===== src/Storage/Redis.antt =====
-- src/storage/redis_client.cpp: the client over hiredis and a server that are a parameter.
use cpp_game_room.Base.{
  Bool, true, false, not, Option, none, some, List, [], ◌∷◌, if◌then◌else◌, String,
}
use cpp_game_room.Base.Int.{ℤ}

-- The commands that the client formats.
pub data Command : Type 0 where
  -- ZADD key score member
  zadd : String → ℤ → String → Command
  -- ZREVRANGE key start stop WITHSCORES
  zrevrange : String → ℤ → ℤ → Command
  set_key : String → String → Command
  get_key : String → Command

-- What redisCommand gives: a null pointer, or a reply. An element is `none` where it or its text
-- is a null pointer.
pub data Reply : Type 0 where
  no_reply : Reply
  error_reply : Reply
  string_reply : Option String → Reply
  array_reply : List (Option String) → Reply
  other_reply : Reply

pub record RedisApi : Type 1 where
  pub Db : Type 0
  -- redisConnect: true for a context without an error.
  pub connect : Db → Db × Bool
  -- redisFree
  pub free : Db → Db
  pub command : Command → Db → Db × Reply
  -- std::atoi
  pub atoi : String → ℤ

pub record RedisClient (D : Type 0) : Type 0 where
  pub context : Bool
  pub db : D

module _ (api : RedisApi) where
  open api use {Db}

  abbrev pub Client : Type 0
  Client = RedisClient Db

  unfoldable pub disconnect : Client → Client
  disconnect c = if c.context then record c { context = false; db = api.free c.db } else c

  -- After redisConnect; a context with an error is freed as well.
  unfoldable pub connect : Client → Client × Bool
  unfolding disconnect
  connect c =
      let c' = disconnect c in
      let (db', ok) = api.connect c'.db in
      if ok
      then (record c' { context = true; db = db' }, true)
      else (record c' { context = false; db = api.free db' }, false)

  unfoldable pub ensure_connected : Client → Client × Bool
  unfolding connect
  ensure_connected c = if c.context then (c, true) else connect c

  -- A reply that is a null pointer drops the connection.
  unfoldable pub receive : Client → Db → Reply → Client × Reply
  unfolding disconnect
  receive c db' no_reply = (disconnect (record c { db = db' }), no_reply)
  receive c db' reply = (record c { db = db' }, reply)

  -- The common part of the calls: no reply also stands for a connection that cannot be made.
  unfoldable pub ask : Command → Client → Client × Reply
  unfolding ensure_connected receive
  ask cmd c =
      let (c', ready) = ensure_connected c in
      if not ready
      then (c', no_reply)
      else receive c' (api.command cmd c'.db).0 (api.command cmd c'.db).1

  abbrev pub is_ok : Reply → Bool
  is_ok no_reply = false
  is_ok error_reply = false
  is_ok _ = true

  unfoldable pub z_add : String → ℤ → String → Client → Client × Bool
  unfolding ask
  z_add key score member c = let (c', reply) = ask (zadd key score member) c in (c', is_ok reply)

  -- The loop over the pairs of elements; a pair with a null pointer is left out.
  unfoldable pub pairs : List (Option String) → List (String × ℤ)
  pairs (some member ∷ some score ∷ rest) = (member, api.atoi score) ∷ pairs rest
  pairs (some member ∷ none ∷ rest) = pairs rest
  pairs (none ∷ score ∷ rest) = pairs rest
  pairs _ = []

  unfoldable pub items_of : Reply → List (String × ℤ)
  unfolding pairs
  items_of (array_reply elements) = pairs elements
  items_of _ = []

  unfoldable pub z_rev_range : String → ℤ → ℤ → Client → Client × List (String × ℤ)
  unfolding ask items_of
  z_rev_range key start stop c =
      let (c', reply) = ask (zrevrange key start stop) c in (c', items_of reply)

  unfoldable pub set : String → String → Client → Client × Bool
  unfolding ask
  set key value c = let (c', reply) = ask (set_key key value) c in (c', is_ok reply)

  abbrev pub text_of : Reply → String
  text_of (string_reply (some text)) = text
  text_of _ = ""

  unfoldable pub get : String → Client → Client × String
  unfolding ask
  get key c = let (c', reply) = ask (get_key key) c in (c', text_of reply)
