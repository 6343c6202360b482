-- ===== src/Game/Float.antt =====
-- C++'s `float` and the functions of <cmath> and <algorithm> that the battle calls. They are not
-- part of the repository: the battle is modelled over any such type and operations.
use cpp_game_room.Base.{Bool}

pub record FloatOps : Type 1 where
  pub Float : Type 0
  -- The literals 0.0f, 1.0f, 5.0f, 0.6f and 8.0f.
  pub lit_0 : Float
  pub lit_1 : Float
  pub lit_5 : Float
  pub lit_0_6 : Float
  pub lit_8 : Float
  pub neg : Float → Float
  pub add : Float → Float → Float
  pub sub : Float → Float → Float
  pub mul : Float → Float → Float
  -- std::clamp(value, low, high)
  pub clamp : Float → Float → Float → Float
  -- std::hypot(dx, dy)
  pub hypot : Float → Float → Float
  -- a <= b
  pub le : Float → Float → Bool
