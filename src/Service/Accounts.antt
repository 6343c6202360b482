-- ===== src/Service/Accounts.antt =====
-- The accounts and tokens of LoginService.
use text.Mathlib.Text.{is_eq, ◌==◌ as str_eq}
use text.Mathlib.TextEquality.{path_by_compare}
use text.Mathlib.TextPositions.{compare_refl}
use Prim.Native.Nat.{Ordering}
use Prim.Native.String.{compare}
use cpp_game_room.Base.{
  if_intro, ℕ, ◌+◌, ◌%◌, ◌^◌, ◌<◌, ◌≡◌, ◌≢◌, ◌⊎◌, inl, inr, refl, sym, ap, ◌∙◌, Bool, true, false,
  Option, none, some, List, [], ◌∷◌, if◌then◌else◌, arith, ne_test, Bool-cases, String,
}
use cpp_game_room.Base.Map.{some-inj, lookup, lookup-insert}
use cpp_game_room.Storage.Mysql.{MysqlApi, Client}
use cpp_game_room.Service.World.{World, Context, send, reconnect_resp}
use cpp_game_room.Service.Consistent.{insert-new}
use cpp_game_room.Service.Login.{
  LoginService, find_account, insert_account, next_id, account_key, player_of_key,
  get_or_create_player_id, is_token, finish_reconnect, handle_reconnect, handle_login,
}

str_eq_refl : (s : String) → str_eq s s ≡ true
str_eq_refl s = ap is_eq (compare_refl s)

str_eq-path : (s t : String) → str_eq s t ≡ true → s ≡ t
str_eq-path s t h = path_by_compare s t (go (compare s t) h)
  where
    go : (o : Ordering) → is_eq o ≡ true → o ≡ Ordering.eq
    go Ordering.lt e = absurd (cc e)
    go Ordering.eq e = refl
    go Ordering.gt e = absurd (cc e)

find_account-insert_account :
    (key k : String) (p : ℕ) (l : List (String × ℕ))
    → find_account k (insert_account key p l) ≡ (if str_eq key k then some p else find_account k l)
unfolding find_account insert_account
find_account-insert_account key k p [] = refl
find_account-insert_account key k p ((k', q) ∷ l) =
    let ih = find_account-insert_account key k p l in
    elim (Bool-cases (str_eq k' key)) [
      | inl same ↦
          let e = str_eq-path k' key same in
          rw (same, e)
            (if_intro
              (λ o. o ≡ (
                if str_eq key k then some p else if str_eq key k then some q else find_account k l))
              (str_eq key k) (λ h. rw h refl) (λ h. rw h refl))
      | inr other ↦ rw other (
          if_intro
            (λ o.
              o
              ≡ (if str_eq key k then some p else if str_eq k' k then some q else find_account k l))
            (str_eq k' k)
            (λ h. elim (Bool-cases (str_eq key k)) [
              | inl g ↦ absurd (cc (other, h, str_eq-path key k g))
              | inr g ↦ rw (g, h) refl
            ])
            (λ h. rw h ih))
    ]

-- The ids of the accounts were given out, and different accounts have different ones.
pub record Accounts (l : LoginService) : Type 0 where
  pub given :
      (k : String) (p : ℕ) → find_account k l.account_players ≡ some p → p < l.next_player_id
  pub apart :
      (k k' : String) (p : ℕ)
      → find_account k l.account_players ≡ some p
      → find_account k' l.account_players ≡ some p
      → k ≡ k'

-- What a login with a key did to the accounts, and the id that it took.
pub record Found (key : String) (l : LoginService) (r : LoginService × Bool × ℕ) : Type 0 where
  pub accounts : Accounts r.0
  pub own : find_account key r.0.account_players ≡ some r.2
  pub others :
      (k : String) → k ≢ key → find_account k r.0.account_players ≡ find_account k l.account_players
  -- An account that has a player keeps it, and nothing is created then.
  pub again : (p : ℕ) → find_account key l.account_players ≡ some p → (r.2 ≡ p) × (r.1 ≡ false)

insert-own :
    (key : String) (p : ℕ) (l : List (String × ℕ))
    → find_account key (insert_account key p l) ≡ some p
insert-own key p l = find_account-insert_account key key p l ∙ rw (str_eq_refl key) refl

insert-others :
    (key k : String) (p : ℕ) (l : List (String × ℕ))
    → str_eq key k ≡ false
    → find_account k (insert_account key p l) ≡ find_account k l
insert-others key k p l h = find_account-insert_account key k p l ∙ rw h refl

insert-cases :
    (key k : String) (p q : ℕ) (l : List (String × ℕ))
    → find_account k (insert_account key p l) ≡ some q
    → ((key ≡ k) × (p ≡ q)) ⊎ (find_account k l ≡ some q)
insert-cases key k p q l h = elim (Bool-cases (str_eq key k)) [
  | inl e ↦ inl (
    str_eq-path key k e,
    some-inj (
        sym (insert-own key p l)
        ∙ ap (λ j. find_account j (insert_account key p l)) (str_eq-path key k e)
        ∙ h),
  )
  | inr e ↦ inr (sym (insert-others key k p l e) ∙ h)
]

player_of_key-Found :
    (key : String) (o : Option ℕ) (l : LoginService)
    → find_account key l.account_players ≡ o
    → Accounts l
    → l.next_player_id + 1 < 2 ^ 64
    → Found key l (player_of_key key o l)
unfolding player_of_key
player_of_key-Found key (some p) l e a room = record {
  accounts = a;
  own = e;
  others = λ k h. refl;
  again = λ q h. (some-inj (sym e ∙ h), refl);
}
player_of_key-Found key none l e a room =
    let id = l.next_player_id in
    let next : (id + 1) % 2 ^ 64 ≡ id + 1 = omega arith in
    record {
      accounts = record {
        given = λ k p h. elim (insert-cases key k id p l.account_players h) [
          | inl (same, is) ↦ omega (arith, next, is)
          | inr old ↦ omega (arith, next, a.given k p old)
        ];
        apart = λ k k' p h h'. elim (insert-cases key k id p l.account_players h) [
          | inl (same, is) ↦ elim (insert-cases key k' id p l.account_players h') [
            | inl (same', is') ↦ sym same ∙ same'
            | inr old' ↦ absurd (omega (arith, is, a.given k' p old'))
          ]
          | inr old ↦ elim (insert-cases key k' id p l.account_players h') [
            | inl (same', is') ↦ absurd (omega (arith, is', a.given k p old))
            | inr old' ↦ a.apart k k' p old old'
          ]
        ];
      };
      own = insert-own key id l.account_players;
      others = λ k h. insert-others key k id l.account_players (elim (Bool-cases (str_eq key k)) [
        | inl same ↦ absurd (h (sym (str_eq-path key k same)))
        | inr other ↦ other
      ]);
      again = λ q h. absurd (cc (e, h));
    }

-- With accounts that have different ids below the counter, and a counter that does not wrap: a
-- login with a named account finds or creates this account's player; an account that had a player
-- keeps it; the other accounts keep theirs; and different accounts have different ids below the
-- counter again.
pub get_or_create_player_id-Found :
    (ctx : Context) (account : String) (l : LoginService)
    → str_eq account "" ≡ false
    → Accounts l
    → l.next_player_id + 1 < 2 ^ 64
    → Found account l (get_or_create_player_id ctx account l)
unfolding get_or_create_player_id account_key
get_or_create_player_id-Found ctx account l named a room =
    rw named (player_of_key-Found account (find_account account l.account_players) l refl a room)

-- What HandleLogin left for later reconnections, for the player `p`.
pub record Admitted (F : Type 0) (ctx : Context) (account token : String) (l l' : LoginService)
    (p : ℕ) : Type 0 where
  pub player : find_account account l'.account_players ≡ some p
  -- A reconnection of the player by any session is taken just if it has the token of this login.
  pub reconnects :
      (t : ℕ) (given : String) (u : World F)
      → handle_reconnect ctx (some t) (some (p, given)) l' u
        ≡ (if str_eq token given then finish_reconnect ctx t p u else send t (reconnect_resp 2 0) u)
  pub other_tokens : (q : ℕ) → p ≢ q → lookup q l'.session_tokens ≡ lookup q l.session_tokens

get_or_create-tokens :
    (ctx : Context) (account : String) (l : LoginService)
    → (get_or_create_player_id ctx account l).0.session_tokens ≡ l.session_tokens
unfolding get_or_create_player_id account_key player_of_key
get_or_create-tokens ctx account l =
    if_intro
      (λ (r : LoginService × String).
        (player_of_key r.1 (find_account r.1 r.0.account_players) r.0).0.session_tokens
        ≡ l.session_tokens)
      (str_eq account "")
      (λ h.
        go (ctx.guest_name l.next_player_id)
          (find_account (ctx.guest_name l.next_player_id) l.account_players) (next_id l))
      (λ h. go account (find_account account l.account_players) l)
  where
    go :
        (key : String) (o : Option ℕ) (l : LoginService)
        → (player_of_key key o l).0.session_tokens ≡ l.session_tokens
    go key none l = refl
    go key (some p) l = refl

module _ (api : MysqlApi) (ctx : Context) {F : Type 0} where
  abbrev pub service_after :
      Option Bool → ℕ → String → ℕ → (World F × LoginService) × Client api → LoginService
  service_after repository s account now state =
      (handle_login api ctx repository (some s) (some account) now state).0.1

  -- With accounts that have different ids below the counter, and a counter that does not wrap:
  -- after a login with a named account, a reconnection for the account's player is taken with the
  -- token of this login and refused, with code 2 and nothing else changed, with any other, and
  -- the tokens of the other players are as they were.
  pub handle_login-Admitted :
      (repository : Option Bool) (s : ℕ) (account : String) (now : ℕ) (w : World F)
      (l : LoginService) (c : Client api)
      → str_eq account "" ≡ false
      → Accounts l
      → l.next_player_id + 1 < 2 ^ 64
      → (p : ℕ) × Admitted F ctx account
          (ctx.token_of p now)
          l
          (service_after repository s account now ((w, l), c))
          p
  unfolding handle_login handle_reconnect is_token
  handle_login-Admitted repository s account now w l c named a room =
      let r = get_or_create_player_id ctx account l in
      let found = get_or_create_player_id-Found ctx account l named a room in
      let p = r.2 in
      let token = ctx.token_of p now in
      (
        p,
        record {
          player = found.own;
          reconnects = λ t given u.
              ap
                (λ o.
                  if is_token given o
                  then finish_reconnect ctx t p u
                  else send t (reconnect_resp 2 0) u)
                (insert-new p token r.0.session_tokens);
          other_tokens = λ q h.
              lookup-insert p q token r.0.session_tokens
              ∙ rw (ne_test p q h) (ap (lookup q) (get_or_create-tokens ctx account l));
        },
      )
