-- ===== src/Account/Codes/Attempts.antt =====
-- Guessing a verification code, and using it once.
use mathlib.Core.Path.{subst}
use eucal_ai_backend.Prelude.{
  ℕ, ◌+◌, ◌*◌, ◌≤◌, ◌<◌, String, ◌≡◌, ◌∙◌, ap, refl, inl, inr, Bool, true, false, ◌&&◌, none, some,
  List, [], ◌∷◌, arith, length, All, filter, Bool-cases, Option-cases, if◌then◌else◌,
}
use eucal_ai_backend.Account.Codes.{
  EmailVerificationCode, Settings, Codes, is_unused, is_for, latest_unused, replace_unused,
  delete_unused, Checked, accepted, code_not_found, still_locked, count_error,
  get_valid_code_or_raise, verify_code_or_raise,
}

module _ (email purpose : String) where
  latest_unused-replace :
      (new c : EmailVerificationCode) (codes : Codes)
      → latest_unused email purpose codes ≡ some c
      → is_for email purpose new && is_unused new ≡ true
      → latest_unused email purpose (replace_unused email purpose new codes) ≡ some new
  unfolding latest_unused replace_unused
  latest_unused-replace new c [] found h = ground arith
  latest_unused-replace new c (d ∷ codes) found h =
      elim (Bool-cases (is_for email purpose d && is_unused d)) [
        | inl here ↦ ground arith
        | inr other ↦ ground (arith, latest_unused-replace new c codes)
      ]

  latest_unused-is :
      (c : EmailVerificationCode) (codes : Codes)
      → latest_unused email purpose codes ≡ some c
      → is_for email purpose c && is_unused c ≡ true
  unfolding latest_unused
  latest_unused-is c [] found = ground arith
  latest_unused-is c (d ∷ codes) found = elim (Bool-cases (is_for email purpose d && is_unused d)) [
    | inl here ↦ ground arith
    | inr other ↦ ground (arith, latest_unused-is c codes)
  ]

  -- how many codes could be tried
  unfoldable pub count_unused : Codes → ℕ
  count_unused [] = 0
  count_unused (c ∷ codes) =
      let rest = count_unused codes in
      if is_for email purpose c && is_unused c then rest + 1 else rest

  pub count-zero :
      (codes : Codes) → count_unused codes ≡ 0 → latest_unused email purpose codes ≡ none
  unfolding latest_unused count_unused
  count-zero [] h = refl
  count-zero (c ∷ codes) h = ground (arith, count-zero codes)

  pub count-replace_used :
      (new c : EmailVerificationCode) (codes : Codes)
      → latest_unused email purpose codes ≡ some c
      → is_unused new ≡ false
      → count_unused (replace_unused email purpose new codes) + 1 ≡ count_unused codes
  unfolding latest_unused replace_unused count_unused
  count-replace_used new c [] found used = ground arith
  count-replace_used new c (d ∷ codes) found used =
      elim (Bool-cases (is_for email purpose d && is_unused d)) [
        | inl here ↦ ground arith
        | inr other ↦ ground (arith, count-replace_used new c codes)
      ]

  pub count-delete_unused : (codes : Codes) → count_unused (delete_unused email purpose codes) ≡ 0
  unfolding count_unused delete_unused filter
  count-delete_unused [] = refl
  count-delete_unused (c ∷ codes) = elim (Bool-cases (is_for email purpose c && is_unused c)) [
    | inl unused ↦ ground (arith, count-delete_unused codes)
    | inr used ↦ ground (arith, count-delete_unused codes)
  ]

module _ (conf : Settings) (verify_password : String → String → Bool) (email purpose : String) where
  abbrev verify : (now : ℕ) → (code : String) → Codes → Checked × Codes
  verify now code codes = verify_code_or_raise conf verify_password now email code purpose codes

  verify_found :
      (now : ℕ) (code : String) (codes : Codes) (c : EmailVerificationCode)
      → (verify now code codes).0 ≡ accepted c
      → (latest_unused email purpose codes ≡ some c)
        × ((verify now code codes).1
            ≡ replace_unused email purpose (record c { used_at = some now; error_count = 0 }) codes)
  unfolding verify_code_or_raise get_valid_code_or_raise count_error
  verify_found now code codes c done = elim (Option-cases (latest_unused email purpose codes)) [
    | inl missing ↦ ground arith
    | inr (d, found) ↦ ground arith
  ]

  verify_without_code :
      (now : ℕ) (code : String) (codes : Codes)
      → latest_unused email purpose codes ≡ none
      → verify now code codes ≡ (code_not_found, codes)
  unfolding verify_code_or_raise get_valid_code_or_raise
  verify_without_code now code codes missing = ground arith

  count_error-same :
      (now : ℕ) (c : EmailVerificationCode)
      → let c' = (count_error conf verify_password now c).1 in
        is_for email purpose c' && is_unused c' ≡ is_for email purpose c && is_unused c
  unfolding count_error is_for
  count_error-same now c = ground arith

  -- A code is used once: while there is one unused code at most, which `send_verification_code`
  -- sees to, no code is accepted after one has been, at whatever time.
  pub verify_once :
      (now now' : ℕ) (code code' : String) (codes : Codes) (c : EmailVerificationCode)
      → count_unused email purpose codes ≤ 1
      → (verify now code codes).0 ≡ accepted c
      → let codes' = (verify now code codes).1 in
        verify now' code' codes' ≡ (code_not_found, codes')
  verify_once now now' code code' codes c few done =
      let (found, after) = verify_found now code codes c done in
      let used = record c { used_at = some now; error_count = 0 } in
      let counted = count-replace_used email purpose used c codes found refl in
      verify_without_code now' code' (verify now code codes).1 (
        ap (latest_unused email purpose) after
        ∙ count-zero email purpose (replace_unused email purpose used codes)
            (omega (arith, counted)))

  abbrev check : (now : ℕ) → (code : String) → Codes → Checked × Codes
  check now code codes = get_valid_code_or_raise conf verify_password now email code purpose codes

  -- wrong codes that are tried one after the other, each with its time
  unfoldable pub check_all : List (ℕ × String) → Codes → Codes
  check_all [] codes = codes
  check_all ((now, code) ∷ tries) codes = check_all tries (check now code codes).1

  -- a wrong code, before the row expires
  abbrev pub IsWrong : EmailVerificationCode → ℕ × String → Type 0
  IsWrong c (now, code) = (now ≤ c.expires_at) × (verify_password code c.code_hash ≡ false)

  wrong_counted :
      (now : ℕ) (code : String) (codes : Codes) (c : EmailVerificationCode)
      → latest_unused email purpose codes ≡ some c
      → c.locked_until ≡ none
      → IsWrong c (now, code)
      → latest_unused email purpose (check now code codes).1
        ≡ some (count_error conf verify_password now c).1
  unfolding get_valid_code_or_raise
  wrong_counted now code codes c found free (early, wrong) = ground (
    arith,
    latest_unused-replace email purpose (count_error conf verify_password now c).1 c codes found,
    latest_unused-is email purpose c codes found,
    count_error-same now c,
  )

  -- the row that `n` wrong codes have been tried on, and that is not locked
  abbrev IsTried : EmailVerificationCode → ℕ → Codes → Type 0
  IsTried c n codes =
      (d : EmailVerificationCode) × (latest_unused email purpose codes ≡ some d)
      × (d.error_count ≡ n)
      × (d.locked_until ≡ none)
      × (d.expires_at ≡ c.expires_at)
      × (d.code_hash ≡ c.code_hash)

  try_wrong :
      (now : ℕ) (code : String) (codes : Codes) (c : EmailVerificationCode) (n : ℕ)
      → IsTried c n codes
      → IsWrong c (now, code)
      → n + 1 < conf.max_code_errors
      → IsTried c (n + 1) (check now code codes).1
  unfolding count_error
  try_wrong now code codes c n (d, found, errors, free, expiry, hash) (early, wrong) few =
      let here : IsWrong d (now, code) = (ground arith, ap (verify_password code) hash ∙ wrong) in
      let counted = wrong_counted now code codes d found free here in
      (
        (count_error conf verify_password now d).1,
        counted,
        ground arith,
        ground arith,
        ground arith,
        ground arith,
      )

  try_wrong_ones :
      (tries : List (ℕ × String)) (codes : Codes) (c : EmailVerificationCode) (n : ℕ)
      → IsTried c n codes
      → All (IsWrong c) tries
      → n + length tries < conf.max_code_errors
      → IsTried c (n + length tries) (check_all tries codes)
  unfolding check_all
  try_wrong_ones [] codes c n h wrong few = subst (λ m. IsTried c m codes) (omega arith) h
  try_wrong_ones ((now, code) ∷ tries) codes c n h (wrong, wrongs) few =
      let next = try_wrong now code codes c n h wrong (omega arith) in
      subst (λ m. IsTried c m (check_all tries (check now code codes).1)) (omega arith)
        (try_wrong_ones tries (check now code codes).1 c (n + 1) next wrongs (omega arith))

  still_locked_lem :
      (now : ℕ) (code : String) (codes : Codes) (d : EmailVerificationCode) (end : ℕ)
      → latest_unused email purpose codes ≡ some d
      → d.locked_until ≡ some end
      → now < end
      → check now code codes ≡ (still_locked, codes)
  unfolding get_valid_code_or_raise
  still_locked_lem now code codes d end found lock early = ground arith

  -- A code cannot be guessed: once as many wrong codes have been tried as `MAX_CODE_ERRORS` says,
  -- every further one is refused until the lock ends, the right one too, and nothing changes.
  pub guesses_locked :
      (earlier : List (ℕ × String)) (last : ℕ) (wrong : String) (codes : Codes)
      (c : EmailVerificationCode) (now : ℕ) (code : String)
      → latest_unused email purpose codes ≡ some c
      → c.error_count ≡ 0
      → c.locked_until ≡ none
      → All (IsWrong c) earlier
      → IsWrong c (last, wrong)
      → length earlier + 1 ≡ conf.max_code_errors
      → now < last + conf.code_error_lock_hours * 3600
      → let codes' = (check last wrong (check_all earlier codes)).1 in
        check now code codes' ≡ (still_locked, codes')
  unfolding count_error
  guesses_locked earlier last wrong codes c now code found none_yet free wrongs (early, bad) enough
        soon =
      let start : IsTried c 0 codes = (c, found, none_yet, free, refl, refl) in
      let (d, there, errors, open_, expiry, hash) =
        try_wrong_ones earlier codes c 0 start wrongs (omega arith) in
      let here : IsWrong d (last, wrong) = (ground arith, ap (verify_password wrong) hash ∙ bad) in
      let counted = wrong_counted last wrong (check_all earlier codes) d there open_ here in
      still_locked_lem now code _ (count_error conf verify_password last d).1
        (last + conf.code_error_lock_hours * 3600) counted (ground arith) soon
