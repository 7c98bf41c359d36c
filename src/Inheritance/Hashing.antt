-- ===== src/Inheritance/Hashing.antt =====
-- contracts/inheritance-contract/src/lib.rs: the hashes of names, emails and claim codes, and the
-- limit on the attempts to claim.
use xource_x.Prelude.{ℕ, ◌+◌, ◌-◌, ◌/◌, ◌%◌, ◌^◌, [], ◌∷◌, ◌++◌, some, ltb, leb, if◌then◌else◌}
use xource_x.Prelude.Words.{saturating_add_u32}
use xource_x.Prelude.Lists.{length}
use xource_x.Prelude.Outcome.{◌>>=◌, ◌>>◌, pure, gets, modify, raise_if, panic_if}
use xource_x.Prelude.Dict.{update, or_default}
use xource_x.AccessControl.{Address}
use xource_x.Inheritance.Types.{Bytes, ClaimAttemptWindow, unauthorized, invalid_claim_code_range}
use xource_x.Inheritance.Store.{External, Ledger, Action}

-- `[0u8; 32]`
abbrev pub zero_salt : Bytes
zero_salt =
    0 ∷ 0 ∷ 0 ∷ 0 ∷ 0 ∷ 0 ∷ 0 ∷ 0 ∷ 0 ∷ 0 ∷ 0 ∷ 0 ∷ 0 ∷ 0 ∷ 0 ∷ 0 ∷ 0 ∷ 0 ∷ 0 ∷ 0 ∷ 0 ∷ 0 ∷ 0 ∷ 0
    ∷ 0 ∷ 0 ∷ 0 ∷ 0 ∷ 0 ∷ 0 ∷ 0 ∷ 0 ∷ []

-- The digit of the code that counts the given power of ten, in ASCII.
abbrev digit_at : ℕ → ℕ → ℕ
digit_at code power = code / power % 10 + 48

-- The loop `for i in 0..6`, written out: the code as six digits.
unfoldable pub six_digits : ℕ → Bytes
six_digits code =
    digit_at code 100_000
    ∷ digit_at code 10_000
    ∷ digit_at code 1000
    ∷ digit_at code 100
    ∷ digit_at code 10
    ∷ digit_at code 1
    ∷ []

-- `u64::to_be_bytes`
unfoldable pub to_be_bytes : ℕ → Bytes
to_be_bytes n =
    n / 2 ^ 56 % 256
    ∷ n / 2 ^ 48 % 256
    ∷ n / 2 ^ 40 % 256
    ∷ n / 2 ^ 32 % 256
    ∷ n / 2 ^ 24 % 256
    ∷ n / 2 ^ 16 % 256
    ∷ n / 2 ^ 8 % 256
    ∷ n % 256
    ∷ []

abbrev pub claim_attempt_window_seconds : ℕ
claim_attempt_window_seconds = 3600

abbrev pub claim_max_attempts_per_window : ℕ
claim_max_attempts_per_window = 10

-- The window of a claimer at `now`: begun anew where an hour has passed.
unfoldable pub current_window : ℕ → ClaimAttemptWindow → ClaimAttemptWindow
current_window now w =
    if leb claim_attempt_window_seconds (now - w.window_start)
    then record { window_start = now; attempts = 0 }
    else w

module _ {W : Type 0} where
  unfoldable pub check_and_record_claim_attempt : Ledger → ℕ → Address → Action W (Unit {0})
  unfolding current_window
  check_and_record_claim_attempt l plan_id claimer = do
    found ← gets (λ s. s.claim_attempts plan_id claimer)
    let w =
        current_window l.timestamp
          (or_default (record { window_start = l.timestamp; attempts = 0 }) found)
    raise_if (leb claim_max_attempts_per_window w.attempts) unauthorized
    let counted = record w { attempts = saturating_add_u32 w.attempts 1 }
    modify (λ s. record s {
      claim_attempts =
          update plan_id (update claimer (some counted) (s.claim_attempts plan_id))
            s.claim_attempts;
    })

module _ (x : External) where
  open x use {World, sha256}

  -- The copy into a buffer of 256 bytes panics where the text is longer.
  unfoldable pub hash_string : Bytes → Action World Bytes
  hash_string input = do panic_if (ltb 256 (length input)); pure (sha256 input)

  unfoldable pub hash_bytes : Bytes → Bytes
  hash_bytes input = sha256 input

  unfoldable pub hash_claim_code_with_salt : ℕ → Bytes → Action World Bytes
  hash_claim_code_with_salt claim_code salt = do
    raise_if (ltb 999_999 claim_code) invalid_claim_code_range
    pure (sha256 (salt ++ six_digits claim_code))

  unfoldable pub hash_claim_code : ℕ → Action World Bytes
  unfolding hash_claim_code_with_salt
  hash_claim_code claim_code = hash_claim_code_with_salt claim_code zero_salt

  unfoldable pub generate_claim_salt : Action World Bytes
  generate_claim_salt = do
    drawn ← gets (λ s. x.gen s.world)
    modify (λ s. record s { world = drawn.1 })
    pure drawn.0

  -- The key under which the claim of a plan by an email is stored.
  unfoldable pub claim_key : ℕ → Bytes → Bytes
  claim_key plan_id hashed_email = sha256 (to_be_bytes plan_id ++ hashed_email)
