-- ===== src/Storage/Battles/Server.antt =====
-- A server that fails when its list of faults says so, which the examples use. What is seen and
-- not committed is committed by START TRANSACTION, and given up by a rollback or by closing.
use cpp_game_room.Base.{
  ℕ, ◌≡◌, refl, sym, ap, ◌∙◌, inr, Bool, true, false, Option, none, some, List, [], ◌∷◌,
}
use cpp_game_room.Base.Int.{pos}
use cpp_game_room.Storage.Statement.{
  Statement, start_transaction, reserve_battle, select_battle, select_results, insert_battle,
  insert_result, insert_log, select_log, finish_battle, select_player, upsert_player, upsert_score,
  Row, Reply, failed, done,
}
use cpp_game_room.Storage.Mysql.{MysqlApi, Client, connected}
use cpp_game_room.Storage.Battles.Tables.{Tables, Transactional, Outside, exec, InSettlement}

pub record Server : Type 0 where
  pub committed : Tables
  pub seen : Tables
  pub faults : List Bool

abbrev pub next_fault : List Bool → Bool
next_fault [] = false
next_fault (b ∷ bs) = b

abbrev pub later : List Bool → List Bool
later [] = []
later (b ∷ bs) = bs

abbrev pub work : Server → Option (Tables × ℕ × List Row) → Server × Reply
work s none = (s, failed false)
work s (some (t, a, rows)) = (record s { seen = t }, done a 0 rows)

abbrev pub answer : Bool → Statement → Server → Server × Reply
answer true st s = (s, failed true)
answer false start_transaction s = (record s { committed = s.seen }, done 0 0 [])
answer false st s = work s (exec st s.seen)

abbrev pub tick : Server → Server
tick s = record s { faults = later s.faults }

abbrev pub commit_with : Bool → Server → Server × Bool
commit_with true s = (record s { committed = s.seen }, false)
commit_with false s = (record s { committed = s.seen }, true)

abbrev pub server : MysqlApi
server = record {
  Db = Server;
  real_connect = λ s. (s, connected);
  close = λ s. record s { seen = s.committed };
  query = λ st s. answer (next_fault s.faults) st (tick s);
  rollback = λ s. (record s { seen = s.committed }, true);
  commit = λ s. commit_with (next_fault s.faults) (tick s);
}

pub answer-exec :
    (st : Statement) (s : Server) → InSettlement st → answer false st s ≡ work s (exec st s.seen)
answer-exec start_transaction s i = absurd i
answer-exec (reserve_battle r) s i = absurd i
answer-exec (select_battle b) s i = refl
answer-exec (select_results b) s i = refl
answer-exec (insert_battle b) s i = absurd i
answer-exec (insert_result r) s i = refl
answer-exec (insert_log l) s i = refl
answer-exec (select_log b p) s i = absurd i
answer-exec (finish_battle b w) s i = refl
answer-exec (select_player p) s i = absurd i
answer-exec (upsert_player d) s i = absurd i
answer-exec (upsert_score p i d w l) s h = refl

pub work-keeps :
    (s : Server) (o : Option (Tables × ℕ × List Row)) → (work s o).0.committed ≡ s.committed
work-keeps s none = refl
work-keeps s (some r) = refl

pub answer-keeps :
    (b : Bool) (st : Statement) (s : Server)
    → InSettlement st
    → (answer b st s).0.committed ≡ s.committed
answer-keeps true st s i = refl
answer-keeps false st s i =
    ap (λ (r : Server × Reply). r.0.committed) (answer-exec st s i) ∙ work-keeps s _

pub work-runs :
    (s : Server) (o : Option (Tables × ℕ × List Row)) (a i : ℕ) (rows : List Row)
    → (work s o).1 ≡ done a i rows
    → o ≡ some ((work s o).0.seen, a, rows)
work-runs s none a i rows h = cc
work-runs s (some (t, a', rows')) a i rows h = cc

pub answer-runs :
    (b : Bool) (st : Statement) (s : Server) (a i : ℕ) (rows : List Row)
    → InSettlement st
    → (answer b st s).1 ≡ done a i rows
    → exec st s.seen ≡ some ((answer b st s).0.seen, a, rows)
answer-runs true st s a i rows h k = cc
answer-runs false st s a i rows h k = rw (answer-exec st s h) (
    work-runs s (exec st s.seen) a i rows
      (ap (λ (r : Server × Reply). r.1) (sym (answer-exec st s h)) ∙ k))

pub read-keeps :
    (b : Bool) (p : ℕ) (s : Server) → (answer b (select_player p) s).0.committed ≡ s.committed
read-keeps true p s = refl
read-keeps false p s = work-keeps s (exec (select_player p) s.seen)

pub read-clean :
    (b : Bool) (p : ℕ) (s : Server)
    → s.seen ≡ s.committed
    → (answer b (select_player p) s).0.seen ≡ (answer b (select_player p) s).0.committed
unfolding exec
read-clean true p s h = h
read-clean false p s h = h

pub start-keeps :
    (b : Bool) (s : Server)
    → s.seen ≡ s.committed
    → (answer b start_transaction s).0.committed ≡ s.committed
start-keeps true s h = refl
start-keeps false s h = h

pub start-opens :
    (b : Bool) (s : Server) (a i : ℕ) (rows : List Row)
    → s.seen ≡ s.committed
    → (answer b start_transaction s).1 ≡ done a i rows
    → Unit {0} × ((answer b start_transaction s).0.seen ≡ s.committed)
start-opens true s a i rows k h = cc
start-opens false s a i rows k h = (tt, k)

pub commit-clean :
    (b : Bool) (s : Server)
    → (commit_with b s).1 ≡ true
    → (commit_with b s).0.seen ≡ (commit_with b s).0.committed
commit-clean true s h = refl
commit-clean false s h = refl

pub commit-works : (b : Bool) (s : Server) → (commit_with b s).0.committed ≡ s.seen
commit-works true s = refl
commit-works false s = refl

abbrev pub server_laws : Transactional server
server_laws = record {
  durable = λ s. s.committed;
  working = λ s. s.seen;
  Open = λ s. Unit {0};
  Clean = λ s. s.seen ≡ s.committed;
  connect_keeps = λ s. refl;
  connect_clean = λ s k. k;
  close_keeps = λ s. refl;
  close_clean = λ s. refl;
  read_keeps = λ s p k. read-keeps (next_fault s.faults) p (tick s);
  read_clean = λ s p k. read-clean (next_fault s.faults) p (tick s) k;
  start_keeps = λ s k. start-keeps (next_fault s.faults) (tick s) k;
  start_opens = λ s a i rows k. start-opens (next_fault s.faults) (tick s) a i rows k;
  statement_keeps = λ s st o i. answer-keeps (next_fault s.faults) st (tick s) i;
  statement_runs =
      λ s st a i rows o h k. (tt, answer-runs (next_fault s.faults) st (tick s) a i rows h k);
  rollback_keeps = λ s. refl;
  rollback_clean = λ s h. refl;
  commit_works = λ s o h. commit-works (next_fault s.faults) (tick s);
  commit_clean = λ s h. commit-clean (next_fault s.faults) (tick s) h;
  commit_fails = λ s o h. inr (commit-works (next_fault s.faults) (tick s));
}

-- A battle of two players in room 100001, not settled yet.
abbrev pub before : Tables
before = record {
  battles = (7, record { room_id = 100001; winner_id = 0; settled = 0 }) ∷ [];
  results = [];
  logs = [];
  players = (100001, record { score = pos 1000; wins = pos 0; losses = pos 0 }) ∷ [];
}

abbrev pub client : List Bool → Client server
client faults = record {
  conn = false;
  in_transaction = false;
  db = record { committed = before; seen = before; faults = faults };
}

pub client-Outside : (faults : List Bool) → Outside server server_laws (client faults)
client-Outside faults = record { ended = refl; clean = refl }
