-- ===== src/Account/Logins/Locks.antt =====
-- services/user-service/src/services/auth_service.py: guessing a password.
use mathlib.Core.Path.{subst}
use eucal_ai_backend.Prelude.{
  ℕ, ◌+◌, ◌*◌, ◌<◌, String, ◌≡◌, ◌∙◌, ap, refl, Bool, false, none, some, List, [], ◌∷◌, arith,
  length, All,
}
use eucal_ai_backend.Prelude.Keyed.{find, string_eq, find-put_self}
use eucal_ai_backend.Account.Logins.{
  Account, Settings, State, Outcome, failed, invalid_credentials, is_login_locked, count_failure,
  login,
}

module _ (conf : Settings) (hash_password : String → String)
    (verify_password : String → String → Bool) (email : String) where
  abbrev pub try : (now : ℕ) → (password jti token : String) → State → Outcome Account × State
  try now password jti token y =
      login conf hash_password verify_password now email password jti token y

  pub record Guess : Type 0 where
    pub now : ℕ
    pub password : String

  -- the guesses one after the other
  unfoldable pub try_all : List Guess → State → State
  try_all [] y = y
  try_all (g ∷ guesses) y = try_all guesses (try g.now g.password "" "" y).1

  abbrev IsTried : String → ℕ → State → Type 0
  IsTried hash n y =
      (u : Account) × (find email y.users ≡ some u)
      × (u.login_fail_count ≡ n)
      × (u.login_locked_until ≡ none)
      × (u.password_hash ≡ hash)

  abbrev pub IsWrong : String → Guess → Type 0
  IsWrong hash g = verify_password g.password hash ≡ false

  wrong_counted :
      (g : Guess) (y : State) (u : Account)
      → find email y.users ≡ some u
      → u.login_locked_until ≡ none
      → IsWrong u.password_hash g
      → find email (try g.now g.password "" "" y).1.users
        ≡ some (count_failure conf hash_password verify_password g.now u)
  unfolding login is_login_locked
  wrong_counted g y u found free wrong = ground (
    arith,
    find-put_self email (count_failure conf hash_password verify_password g.now u) y.users,
  )

  try_wrong :
      (g : Guess) (hash : String) (n : ℕ) (y : State)
      → IsTried hash n y
      → IsWrong hash g
      → n + 1 < conf.login_max_failures
      → IsTried hash (n + 1) (try g.now g.password "" "" y).1
  unfolding count_failure
  try_wrong g hash n y (u, found, fails, free, same) wrong few =
      let here : IsWrong u.password_hash g = ap (verify_password g.password) same ∙ wrong in
      (
        count_failure conf hash_password verify_password g.now u,
        wrong_counted g y u found free here,
        ground arith,
        ground arith,
        ground arith,
      )

  try_wrong_ones :
      (guesses : List Guess) (hash : String) (n : ℕ) (y : State)
      → IsTried hash n y
      → All (IsWrong hash) guesses
      → n + length guesses < conf.login_max_failures
      → IsTried hash (n + length guesses) (try_all guesses y)
  unfolding try_all
  try_wrong_ones [] hash n y h wrong few = subst (λ m. IsTried hash m y) (omega arith) h
  try_wrong_ones (g ∷ guesses) hash n y h (wrong, wrongs) few =
      let next = try_wrong g hash n y h wrong (omega arith) in
      subst (λ m. IsTried hash m (try_all guesses (try g.now g.password "" "" y).1)) (omega arith)
        (try_wrong_ones guesses hash (n + 1) (try g.now g.password "" "" y).1 next wrongs
          (omega arith))

  locked_out :
      (now : ℕ) (password jti token : String) (y : State) (u : Account) (end : ℕ)
      → find email y.users ≡ some u
      → u.login_locked_until ≡ some end
      → now < end
      → try now password jti token y ≡ (failed invalid_credentials, y)
  unfolding login is_login_locked
  locked_out now password jti token y u end found lock early = ground arith

  -- A password cannot be guessed: once as many wrong ones have been tried in a row as
  -- `LOGIN_MAX_FAILURES` says, every further attempt is refused until the lock ends, with the right
  -- password too, and changes nothing.
  pub guesses_locked_out :
      (earlier : List Guess) (last : Guess) (y : State) (u : Account) (now : ℕ)
      (password jti token : String)
      → find email y.users ≡ some u
      → u.login_fail_count ≡ 0
      → u.login_locked_until ≡ none
      → All (IsWrong u.password_hash) earlier
      → IsWrong u.password_hash last
      → length earlier + 1 ≡ conf.login_max_failures
      → now < last.now + conf.login_lock_duration_hours * 3600
      → let y' = (try last.now last.password "" "" (try_all earlier y)).1 in
        try now password jti token y' ≡ (failed invalid_credentials, y')
  unfolding count_failure
  guesses_locked_out earlier last y u now password jti token found none_yet free wrongs wrong enough
        soon =
      let start : IsTried u.password_hash 0 y = (u, found, none_yet, free, refl) in
      let (v, there, fails, open_, same) =
        try_wrong_ones earlier u.password_hash 0 y start wrongs (omega arith) in
      let here : IsWrong v.password_hash last = ap (verify_password last.password) same ∙ wrong in
      locked_out now password jti token _
        (count_failure conf hash_password verify_password last.now v)
        (last.now + conf.login_lock_duration_hours * 3600)
        (wrong_counted last (try_all earlier y) v there open_ here) (ground arith) soon
