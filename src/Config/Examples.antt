-- ===== src/Config/Examples.antt =====
-- The settings at concrete texts. Numbers are written with one digit as often as they count.
use cpp_game_room.Base.{
  ℕ, zero, suc, ◌≡◌, refl, ap, if_intro, ◌&&◌, true, false, Option, none, some, [], ◌∷◌, ◌==◌,
  if◌then◌else◌, length, arith, leb,
}
use cpp_game_room.Base.Int.{ℤ, pos, negsuc, IsInt}
use cpp_game_room.Config.{
  Text, codes, trim, trim_front, trim_back, is_nil, is_back_space, split_key_value, split_at_colon,
  default_config, load,
}
use cpp_game_room.Config.RoundTrip.{Clean, CleanTexts, IntNumbers, printed, load-printed}

-- Quotes and spaces around a value go, and a value may have colons.
quoted :
    split_key_value (codes "  host: \"127.0.0.1:80\" ") ≡ some (codes "host", codes "127.0.0.1:80")
unfolding split_key_value split_at_colon trim trim_front trim_back
quoted = refl

abbrev ones : ℕ → Text
ones zero = []
ones (suc n) = b'1' ∷ ones n

abbrev tally : ℤ → Text
tally (pos n) = b'+' ∷ ones n
tally (negsuc n) = b'-' ∷ ones n

-- Out of the range of int it throws.
abbrev count : Text → Option ℤ
count [] = none
count (c ∷ cs) =
    if c == b'-'
    then (if leb (length cs) 2147483647 then some (negsuc (length cs)) else none)
    else (if leb (length cs) 2147483647 then some (pos (length cs)) else none)

length-ones : (n : ℕ) → length (ones n) ≡ n
length-ones zero = refl
length-ones (suc n) = ap suc (length-ones n)

count-tally : (n : ℤ) → IsInt n → count (tally n) ≡ some n
count-tally (pos n) i =
    let e = length-ones n in
    let fits : leb (length (ones n)) 2147483647 ≡ true = ground (arith, e) in
    rw fits (ap (λ k. some (pos k)) e)
count-tally (negsuc n) i =
    let e = length-ones n in
    let fits : leb (length (ones n)) 2147483647 ≡ true = ground (arith, e) in
    rw fits (ap (λ k. some (negsuc k)) e)

trim_back-keep :
    (c : ℕ) (t : Text) → is_back_space c ≡ false → trim_back t ≡ t → trim_back (c ∷ t) ≡ c ∷ t
unfolding trim_back
trim_back-keep c t h e =
    if_intro (λ o. o ≡ c ∷ t) (is_nil (trim_back t) && is_back_space c) (λ k. absurd (ground arith))
      (λ k. ap (◌∷◌ c) e)

trim_back-ones : (n : ℕ) → trim_back (ones n) ≡ ones n
trim_back-ones zero = unfold trim_back in refl
trim_back-ones (suc n) = trim_back-keep b'1' (ones n) refl (trim_back-ones n)

tally-Clean : (n : ℤ) → Clean (tally n)
unfolding trim trim_front
tally-Clean (pos n) = (trim_back-keep b'+' (ones n) refl (trim_back-ones n), refl)
tally-Clean (negsuc n) = (trim_back-keep b'-' (ones n) refl (trim_back-ones n), refl)

default-CleanTexts : CleanTexts default_config
unfolding default_config trim trim_front trim_back
default-CleanTexts = record {
  server_host = (refl, refl);
  mysql_host = (refl, refl);
  user = (refl, refl);
  password = (refl, refl);
  database = (refl, refl);
  redis_host = (refl, refl);
}

default-IntNumbers : IntNumbers default_config
unfolding default_config
default-IntNumbers = record {
  server_port = (omega arith, omega arith);
  worker_threads = (omega arith, omega arith);
  tick_interval_ms = (omega arith, omega arith);
  mysql_port = (omega arith, omega arith);
  redis_port = (omega arith, omega arith);
  room_player_count = (omega arith, omega arith);
}

load-printed_example :
    load count (some (printed count tally default_config)) default_config
    ≡ some (default_config, true)
load-printed_example =
    load-printed count tally count-tally tally-Clean default_config default-CleanTexts
      default-IntNumbers default_config
