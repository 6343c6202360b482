-- ===== src/Match/Queue/Refinement.antt =====
-- The deque and the set together are one queue without repetitions.
use mathlib.Core.List.{append_assoc, append-nil}
use cpp_game_room.Base.{
  ℕ, zero, suc, ◌≤◌, ◌≡◌, ◌≢◌, refl, sym, ap, ap₂, ◌∙◌, inl, inr, Bool, true, false, ◌||◌, List, [],
  ◌∷◌, ◌++◌, ltb, ◌==◌, if◌then◌else◌, arith, length, take, drop, Bool-cases,
}
use cpp_game_room.Match.Queue.{
  contains, erase, MatchQueue, empty, push, remove, is_matching, pop_loop, try_pop_n, size,
}

pub contains-erase :
    (x y : ℕ) (l : List ℕ) → contains y (erase x l) ≡ (if x == y then false else contains y l)
unfolding contains erase
contains-erase x y [] = ground arith
contains-erase x y (z ∷ l) = ground (arith, contains-erase x y l)

pub contains-append : (x : ℕ) (l m : List ℕ) → contains x (l ++ m) ≡ (contains x l || contains x m)
unfolding contains
contains-append x [] m = refl
contains-append x (y ∷ l) m = ground (arith, contains-append x l m)

-- No player stands twice, and 0 is no player.
abbrev pub Distinct : List ℕ → Type 0
Distinct [] = Unit {0}
Distinct (x ∷ l) = (contains x l ≡ false) × (x ≢ 0) × Distinct l

pub Distinct-erase : (x : ℕ) (l : List ℕ) → Distinct l → Distinct (erase x l)
unfolding erase
Distinct-erase x [] d = tt
Distinct-erase x (y ∷ l) d = ground (arith, contains-erase x y l, Distinct-erase x l d.2)

pub Distinct-push :
    (x : ℕ) (l : List ℕ) → Distinct l → x ≢ 0 → contains x l ≡ false → Distinct (l ++ x ∷ [])
unfolding contains
Distinct-push x [] d h e = (refl, h, tt)
Distinct-push x (y ∷ l) d h e = ground (arith, contains-append y l (x ∷ []), Distinct-push x l d.2)

pub record Inv (q : MatchQueue) : Type 0 where
  pub distinct : Distinct q.queue
  pub same : (x : ℕ) → contains x q.in_queue ≡ contains x q.queue

pub empty-Inv : Inv empty
empty-Inv = record { distinct = tt; same = λ x. refl }

pub push-Inv : (x : ℕ) (q : MatchQueue) → Inv q → Inv (push x q).0
unfolding push contains
push-Inv x q v = elim (Bool-cases (x == 0 || contains x q.in_queue)) [
  | inl e ↦ rw e v
  | inr e ↦ rw e (record {
    distinct = Distinct-push x q.queue v.distinct (ground arith) (ground (arith, v.same x));
    same = λ y. ground (arith, contains-append y q.queue (x ∷ []), v.same y);
  })
]

pub remove-Inv : (x : ℕ) (q : MatchQueue) → Inv q → Inv (remove x q).0
unfolding remove
remove-Inv x q v = elim (Bool-cases (contains x q.in_queue)) [
  | inl e ↦ rw e (record {
    distinct = Distinct-erase x q.queue v.distinct;
    same = λ y. ground (arith, contains-erase x y q.in_queue, contains-erase x y q.queue, v.same y);
  })
  | inr e ↦ rw e v
]

-- Taking the front off the deque and the set keeps them together.
pop_loop-Inv :
    (n : ℕ) (front set result : List ℕ)
    → Inv (record { queue = front; in_queue = set })
    → Inv (pop_loop n front set result).0
unfolding pop_loop
pop_loop-Inv zero front set result v = v
pop_loop-Inv (suc n) [] set result v = v
pop_loop-Inv (suc n) (x ∷ front) set result v =
    pop_loop-Inv n front (erase x set) (result ++ x ∷ []) (record {
      distinct = v.distinct.2;
      same = λ y. unfold contains in ground (arith, contains-erase x y set, v.same y, v.distinct.0);
    })

pub try_pop_n-Inv : (n : ℕ) (q : MatchQueue) → Inv q → Inv (try_pop_n n q).0
unfolding try_pop_n
try_pop_n-Inv n q v = elim (Bool-cases (ltb (length q.queue) n)) [
  | inl e ↦ rw e v
  | inr e ↦ rw e (pop_loop-Inv n q.queue q.in_queue [] v)
]

pub pop_loop-queue :
    (n : ℕ) (front set result : List ℕ)
    → n ≤ length front
    → ((pop_loop n front set result).0.queue ≡ drop n front)
      × ((pop_loop n front set result).1 ≡ result ++ take n front)
unfolding pop_loop
pop_loop-queue zero front set result h = (refl, sym (append-nil result))
pop_loop-queue (suc n) [] set result h = absurd (omega arith)
pop_loop-queue (suc n) (x ∷ front) set result h =
    let ih = pop_loop-queue n front (erase x set) (result ++ x ∷ []) (omega arith) in
    (ih.0, ih.1 ∙ append_assoc result (x ∷ []) (take n front))

-- The queue that the class promises: a list of distinct players, served from its front.
pub data Op : Type 0 where
  pushes removes asks pops : ℕ → Op
  sizes : Op

pub data Reply : Type 0 where
  flag : Bool → Reply
  players : List ℕ → Reply
  count : ℕ → Reply

-- An operation of the class.
unfoldable pub step : Op → MatchQueue → MatchQueue × Reply
unfolding is_matching size
step (pushes x) q = let (q', b) = push x q in (q', flag b)
step (removes x) q = let (q', b) = remove x q in (q', flag b)
step (asks x) q = (q, flag (is_matching x q))
step (pops n) q = let (q', l) = try_pop_n n q in (q', players l)
step sizes q = (q, count (size q))

-- The same operation on the list alone.
unfoldable pub fifo : Op → List ℕ → List ℕ × Reply
fifo (pushes x) l = if x == 0 || contains x l then (l, flag false) else (l ++ x ∷ [], flag true)
fifo (removes x) l = (erase x l, flag (contains x l))
fifo (asks x) l = (l, flag (contains x l))
fifo (pops n) l = if ltb (length l) n then (l, players []) else (drop n l, players (take n l))
fifo sizes l = (l, count (length l))

unfoldable pub run : List Op → MatchQueue → MatchQueue × List Reply
run [] q = (q, [])
run (op ∷ ops) q = let (q', r) = step op q in let (q'', rs) = run ops q' in (q'', r ∷ rs)

unfoldable pub run_fifo : List Op → List ℕ → List ℕ × List Reply
run_fifo [] l = (l, [])
run_fifo (op ∷ ops) l = let (l', r) = fifo op l in let (l'', rs) = run_fifo ops l' in (l'', r ∷ rs)

pub step-Inv : (op : Op) (q : MatchQueue) → Inv q → Inv (step op q).0
unfolding step
step-Inv (pushes x) q v = push-Inv x q v
step-Inv (removes x) q v = remove-Inv x q v
step-Inv (asks x) q v = v
step-Inv (pops n) q v = try_pop_n-Inv n q v
step-Inv sizes q v = v

erase_absent : (x : ℕ) (l : List ℕ) → contains x l ≡ false → erase x l ≡ l
unfolding erase contains
erase_absent x [] h = refl
erase_absent x (y ∷ l) h = ground (arith, erase_absent x l)

step-fifo :
    (op : Op) (q : MatchQueue)
    → Inv q
    → ((step op q).0.queue ≡ (fifo op q.queue).0) × ((step op q).1 ≡ (fifo op q.queue).1)
unfolding step fifo
step-fifo (pushes x) q v = unfold push in ground (arith, v.same x)
step-fifo (removes x) q v = unfold remove in ground (arith, v.same x, erase_absent x q.queue)
step-fifo (asks x) q v = (refl, ap flag (v.same x))
step-fifo (pops n) q v = unfold try_pop_n in ground (arith, pop_loop-queue n q.queue q.in_queue [])
step-fifo sizes q v = (refl, refl)

-- Over any history of calls from a state where the deque and the set agree, the match queue
-- answers as a plain list of distinct players served from its front, holds the same list, and
-- keeps the deque and the set in agreement.
pub run-run_fifo :
    (ops : List Op) (q : MatchQueue)
    → Inv q
    → Inv (run ops q).0
      × ((run ops q).0.queue ≡ (run_fifo ops q.queue).0)
      × ((run ops q).1 ≡ (run_fifo ops q.queue).1)
unfolding run run_fifo
run-run_fifo [] q v = (v, refl, refl)
run-run_fifo (op ∷ ops) q v =
    let ih = run-run_fifo ops (step op q).0 (step-Inv op q v) in
    let s = step-fifo op q v in rw (sym s.0) (ih.0, ih.1, ap₂ (◌∷◌) s.1 ih.2)
