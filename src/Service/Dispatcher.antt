-- ===== src/Service/Dispatcher.antt =====
-- src/server/message_dispatcher.cpp and the registrations of the services: handlers by message id.
use cpp_game_room.Base.{ℕ, Option, List, [], ◌∷◌}
use cpp_game_room.Base.Map.{Map, lookup, insert}

-- The handlers that the services register, each a callback that calls the method of this name.
pub data Handler : Type 0 where
  calls_handle_login calls_handle_heartbeat calls_handle_reconnect calls_handle_match
        calls_handle_cancel_match calls_handle_ready calls_handle_input calls_handle_leave_room
        calls_handle_rank :
      Handler

-- The ids of the requests in src/protocol/message_id.h.
abbrev msg_login_req : ℕ
msg_login_req = 1001

abbrev msg_heartbeat_req : ℕ
msg_heartbeat_req = 1003

abbrev msg_reconnect_req : ℕ
msg_reconnect_req = 1005

abbrev msg_match_req : ℕ
msg_match_req = 2001

abbrev msg_match_cancel_req : ℕ
msg_match_cancel_req = 2004

abbrev msg_ready_req : ℕ
msg_ready_req = 3001

abbrev msg_leave_room_req : ℕ
msg_leave_room_req = 3006

abbrev msg_input_req : ℕ
msg_input_req = 4001

abbrev msg_rank_req : ℕ
msg_rank_req = 5001

unfoldable pub register_handler : ℕ → Handler → Map Handler → Map Handler
register_handler msg_id handler handlers = insert msg_id handler handlers

-- The registrations of a service, in order.
abbrev pub register : List (ℕ × Handler) → Map Handler → Map Handler
register [] handlers = handlers
register ((msg_id, handler) ∷ rest) handlers =
    register rest (register_handler msg_id handler handlers)

-- RegisterHandlers of the four services.
abbrev pub login_handlers : List (ℕ × Handler)
login_handlers =
    (msg_login_req, calls_handle_login)
    ∷ (msg_heartbeat_req, calls_handle_heartbeat)
    ∷ (msg_reconnect_req, calls_handle_reconnect)
    ∷ []

abbrev pub match_handlers : List (ℕ × Handler)
match_handlers =
    (msg_match_req, calls_handle_match) ∷ (msg_match_cancel_req, calls_handle_cancel_match) ∷ []

abbrev pub room_handlers : List (ℕ × Handler)
room_handlers =
    (msg_ready_req, calls_handle_ready)
    ∷ (msg_input_req, calls_handle_input)
    ∷ (msg_leave_room_req, calls_handle_leave_room)
    ∷ []

abbrev pub rank_handlers : List (ℕ × Handler)
rank_handlers = (msg_rank_req, calls_handle_rank) ∷ []

-- In the order in which GameServer::Init calls them.
unfoldable pub register_all : Map Handler
unfolding register_handler
register_all =
    register rank_handlers
      (register room_handlers (register match_handlers (register login_handlers [])))

-- Dispatch: the handler that is called, or `none` where the id is unknown and nothing is.
unfoldable pub dispatch : ℕ → Map Handler → Option Handler
dispatch msg_id handlers = lookup msg_id handlers
