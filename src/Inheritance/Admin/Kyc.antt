-- ===== src/Inheritance/Admin/Kyc.antt =====
-- contracts/inheritance-contract/src/lib.rs: what a rejection of a user's KYC leaves.
use xource_x.Prelude.{◌≡◌, true, some, arith}
use xource_x.Prelude.Outcome.{ok}
use xource_x.AccessControl.{Address}
use xource_x.Inheritance.Types.{KycStatus}
use xource_x.Inheritance.Store.{Ledger, Store, check_kyc_approved}
use xource_x.Inheritance.Admin.{reject_kyc}

module _ {W : Type 0} where
  -- A user whose KYC was approved before it is rejected still passes the check of an approved KYC.
  reject_kyc-check_kyc_approved :
      (l : Ledger) (admin user : Address) (k : KycStatus) (s t : Store W)
      → s.kyc user ≡ some k
      → k.approved ≡ true
      → reject_kyc l admin user s ≡ ok (tt, t)
      → check_kyc_approved user t ≡ ok (tt, t)
  unfolding reject_kyc check_kyc_approved
  reject_kyc-check_kyc_approved l admin user k s t held approved h = ground arith
