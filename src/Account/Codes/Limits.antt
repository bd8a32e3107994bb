-- ===== src/Account/Codes/Limits.antt =====
-- The daily limit on verification codes counts rows that `send_verification_code` itself deletes.
use eucal_ai_backend.Prelude.{
  ℕ, ◌+◌, ◌≤◌, String, ◌≡◌, ◌≢◌, refl, inl, inr, Bool, true, not, ◌&&◌, List, [], ◌∷◌, arith, All,
  All-filter, filter, Bool-cases, none, ◌*◌,
}
use mathlib.Core.Path.{subst}
use eucal_ai_backend.Account.Codes.{
  EmailVerificationCode, Settings, Codes, is_unused, is_for, count_created_since, delete_unused,
  Sent, limit_reached, locked, send_failed, sent, send_verification_code, today_start, latest,
  is_locked_row,
}

module _ (email purpose : String) where
  -- no code for this address and purpose has been used
  abbrev AllUnused : Codes → Type 0
  AllUnused codes = All (λ c. is_for email purpose c ≡ true → is_unused c ≡ true) codes

  count-delete_unused :
      (codes : Codes) (start : ℕ)
      → AllUnused codes
      → count_created_since email purpose start (delete_unused email purpose codes) ≡ 0
  unfolding count_created_since delete_unused filter
  count-delete_unused [] start h = refl
  count-delete_unused (c ∷ codes) start (h, hs) = elim (Bool-cases (is_for email purpose c)) [
    | inl ours ↦ let unused = h ours in ground (arith, count-delete_unused codes start hs)
    | inr other ↦ ground (arith, count-delete_unused codes start hs)
  ]

  delete_unused-AllUnused :
      (codes : Codes) → AllUnused codes → AllUnused (delete_unused email purpose codes)
  unfolding delete_unused
  delete_unused-AllUnused codes h =
      All-filter (λ c. is_for email purpose c ≡ true → is_unused c ≡ true)
        (λ c. not (is_for email purpose c && is_unused c)) codes h

  count-cons-le :
      (c : EmailVerificationCode) (codes : Codes) (start : ℕ)
      → count_created_since email purpose start (c ∷ codes)
        ≤ count_created_since email purpose start codes + 1
  unfolding count_created_since
  count-cons-le c codes start = ground arith

module _ (conf : Settings) (hash_password : String → String) (email purpose : String) where
  abbrev IsBelow : Codes → Type 0
  IsBelow codes =
      AllUnused email purpose codes
      × ((start : ℕ) → count_created_since email purpose start codes ≤ 1)

  deleted-IsBelow :
      (codes : Codes) → AllUnused email purpose codes → IsBelow (delete_unused email purpose codes)
  deleted-IsBelow codes unused = (
    delete_unused-AllUnused email purpose codes unused,
    λ start. omega (arith, count-delete_unused email purpose codes start unused),
  )

  cons-IsBelow :
      (c : EmailVerificationCode) (codes : Codes)
      → AllUnused email purpose codes
      → is_unused c ≡ true
      → IsBelow (c ∷ delete_unused email purpose codes)
  cons-IsBelow c codes unused fresh = (
    ((λ ours. fresh), delete_unused-AllUnused email purpose codes unused),
    λ start. omega (
      arith,
      count-cons-le email purpose c (delete_unused email purpose codes) start,
      count-delete_unused email purpose codes start unused,
    ),
  )

  carry :
      (answer : Sent) (codes : Codes) (r : Sent × Codes)
      → (answer, codes) ≡ r
      → answer ≢ limit_reached
      → IsBelow codes
      → (r.0 ≢ limit_reached) × IsBelow r.1
  carry answer codes r e differ h = subst (λ q. (q.0 ≢ limit_reached) × IsBelow q.1) e (differ, h)

  send-IsBelow :
      (now : ℕ) (code : String) (delivered : Bool) (codes : Codes)
      → 2 ≤ conf.code_daily_send_limit
      → IsBelow codes
      → let (answer, codes') =
          send_verification_code conf hash_password now email purpose code delivered codes in
        (answer ≢ limit_reached) × IsBelow codes'
  unfolding send_verification_code
  send-IsBelow now code delivered codes h (unused, few) =
      let verification : EmailVerificationCode = record {
        email = email;
        code_hash = hash_password code;
        purpose = purpose;
        expires_at = now + conf.code_expire_minutes * 60;
        used_at = none;
        error_count = 0;
        locked_until = none;
        created_at = now;
      } in
      let below = few (today_start now) in
      let without = deleted-IsBelow codes unused in
      let with_new = cons-IsBelow verification codes unused refl in
      let kept = delete_unused email purpose codes in
      elim (Bool-cases (is_locked_row now (latest email purpose codes))) [
        | inl closed ↦ carry locked codes _ (ground arith) (λ q. ground arith) (unused, few)
        | inr free ↦ elim (Bool-cases delivered) [
          | inl good ↦
              carry sent (verification ∷ kept) _ (ground arith) (λ q. ground arith) with_new
          | inr bad ↦ carry send_failed kept _ (ground arith) (λ q. ground arith) without
        ]
      ]

  -- the codes that are asked for one after the other, each with its time, the code that is drawn
  -- and whether it is delivered
  unfoldable pub send_all : List (ℕ × String × Bool) → Codes → List Sent
  send_all [] codes = []
  send_all ((now, code, delivered) ∷ more) codes =
      let (answer, codes') =
        send_verification_code conf hash_password now email purpose code delivered codes in
      answer ∷ send_all more codes'

  unlimited :
      (requests : List (ℕ × String × Bool)) (codes : Codes)
      → 2 ≤ conf.code_daily_send_limit
      → IsBelow codes
      → All (λ answer. answer ≢ limit_reached) (send_all requests codes)
  unfolding send_all
  unlimited [] codes h k = tt
  unlimited ((now, code, delivered) ∷ more) codes h k =
      let (answered, below) = send-IsBelow now code delivered codes h k in
      (
        answered,
        unlimited more
            (send_verification_code conf hash_password now email purpose code delivered codes).1 h
            below,
      )

  zero_count : (start : ℕ) → count_created_since email purpose start [] ≤ 1
  unfolding count_created_since
  zero_count start = omega arith

  -- The daily limit does not limit: however many codes are asked for on a day, starting with none,
  -- no request is refused because of a limit of two or more, as long as no code is used.
  pub send_all_unlimited :
      (requests : List (ℕ × String × Bool))
      → 2 ≤ conf.code_daily_send_limit
      → All (λ answer. answer ≢ limit_reached) (send_all requests [])
  send_all_unlimited requests h = unlimited requests [] h (tt, λ start. zero_count start)
