-- ===== src/MockToken/Tests.antt =====
-- Runs of the token at concrete balances.
use xource_x.Prelude.{◌≡◌, refl, Bool, true, [], ◌∷◌}
use xource_x.Prelude.Int.{pos, ◌+ℤ◌, ◌-ℤ◌}
use xource_x.Prelude.Outcome.{ok, err}
use xource_x.Prelude.Dict.{lookup, insert}
use xource_x.AccessControl.{Address}
use xource_x.MockToken.{Token, insufficient_balance, transfer}

-- Everyone authorises, as under `mock_all_auths`.
abbrev everyone : Address → Bool
everyone a = true

abbrev token : Token
token = record { balances = (1, pos 100) ∷ (2, pos 50) ∷ []; total_supply = pos 150 }

abbrev transferred : Token
transferred = record { balances = (1, pos 70) ∷ (2, pos 80) ∷ []; total_supply = pos 150 }

abbrev inflated : Token
inflated = record { balances = (1, pos 130) ∷ (2, pos 50) ∷ []; total_supply = pos 150 }

transfer_between : transfer everyone 1 2 (pos 30) token ≡ ok (tt, transferred)
unfolding transfer lookup ◌+ℤ◌ insert ◌-ℤ◌
transfer_between = refl

transfer_to_oneself : transfer everyone 1 1 (pos 30) token ≡ ok (tt, inflated)
unfolding transfer lookup ◌+ℤ◌ insert
transfer_to_oneself = refl

overdraft : transfer everyone 2 1 (pos 51) token ≡ err insufficient_balance
unfolding transfer lookup
overdraft = refl
