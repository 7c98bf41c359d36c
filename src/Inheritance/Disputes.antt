-- ===== src/Inheritance/Disputes.antt =====
-- contracts/inheritance-contract/src/lib.rs and disputes.rs: the arbitrators, and the disputes over
-- plans, which freeze them.
pub mod Frozen
use xource_x.Prelude.{
  ℕ, ◌+◌, Bool, true, false, not, ◌&&◌, ◌||◌, Option, none, some, List, [], ◌∷◌, ◌++◌, ◌==◌,
  if◌then◌else◌,
}
use xource_x.Prelude.Words.{u64_mod}
use xource_x.Prelude.Lists.{is_empty, contains}
use xource_x.Prelude.Outcome.{◌>>=◌, ◌>>◌, pure, gets, modify, raise_if, panic_if, or_raise}
use xource_x.Prelude.Dict.{update, or_default}
use xource_x.AccessControl.{Address}
use xource_x.Inheritance.Types.{
  Bytes, FreezeRecord, DisputeRecord, DisputeStatus, filed, under_review, resolved, rejected,
  admin_not_set, plan_not_found, unauthorized, already_approved, dispute_filed, dispute_raised,
  dispute_resolved, plan_frozen, plan_unfrozen, plan_frozen_for, plan_unfrozen_for,
}
use xource_x.Inheritance.Store.{
  Ledger, Action, emit, require_auth, add_below, require_admin, check_not_paused, get_plan,
}

-- The texts "dispute", "dispute raised", "resolved" and "rejected".
abbrev pub dispute_text : Bytes
dispute_text = 100 ∷ 105 ∷ 115 ∷ 112 ∷ 117 ∷ 116 ∷ 101 ∷ []

abbrev pub dispute_raised_text : Bytes
dispute_raised_text =
    100 ∷ 105 ∷ 115 ∷ 112 ∷ 117 ∷ 116 ∷ 101 ∷ 32 ∷ 114 ∷ 97 ∷ 105 ∷ 115 ∷ 101 ∷ 100 ∷ []

abbrev pub resolved_text : Bytes
resolved_text = 114 ∷ 101 ∷ 115 ∷ 111 ∷ 108 ∷ 118 ∷ 101 ∷ 100 ∷ []

abbrev pub rejected_text : Bytes
rejected_text = 114 ∷ 101 ∷ 106 ∷ 101 ∷ 99 ∷ 116 ∷ 101 ∷ 100 ∷ []

-- Filed or under review.
abbrev pub is_pending : DisputeStatus → Bool
is_pending filed = true
is_pending under_review = true
is_pending resolved = false
is_pending rejected = false

-- The loop of `remove_arbitrator`.
unfoldable pub without_address : Address → List Address → List Address
without_address who [] = []
without_address who (a ∷ rest) =
    let kept = without_address who rest in if a == who then kept else a ∷ kept

-- The first arbitrator, or the admin where there is none.
abbrev pub first_or : Address → List Address → Address
first_or admin [] = admin
first_or admin (a ∷ rest) = a

-- The record once `resolve_dispute` has decided it.
abbrev pub decided : Bool → ℕ → DisputeRecord → DisputeRecord
decided approve now r = record r {
  status = if approve then resolved else rejected;
  resolved_at = now;
  resolution_notes = if approve then resolved_text else rejected_text;
}

module _ {W : Type 0} where
  unfoldable pub add_arbitrator : Ledger → Address → Address → Action W (Unit {0})
  add_arbitrator l admin arbitrator = do
    require_admin l admin
    list ← gets (λ s. s.arbitrators)
    if contains list arbitrator
        then pure tt
        else modify (λ s. record s { arbitrators = list ++ arbitrator ∷ [] })

  unfoldable pub remove_arbitrator : Ledger → Address → Address → Action W (Unit {0})
  remove_arbitrator l admin arbitrator = do
    require_admin l admin
    modify (λ s. record s { arbitrators = without_address arbitrator s.arbitrators })

  abbrev freeze : ℕ → FreezeRecord → Action W (Unit {0})
  freeze plan_id r = modify (λ s. record s { freezes = update plan_id (some r) s.freezes })

  abbrev unfreeze : ℕ → Action W (Unit {0})
  unfreeze plan_id = modify (λ s. record s { freezes = update plan_id none s.freezes })

  abbrev set_dispute : ℕ → DisputeRecord → Action W (Unit {0})
  set_dispute dispute_id r =
      modify (λ s. record s { disputes = update dispute_id (some r) s.disputes })

  -- The arbitrator that a call on disputes names: the first of the list, or else the admin.
  unfoldable pub current_arbitrator : Action W Address
  current_arbitrator = do
    found ← gets (λ s. s.admin)
    admin ← or_raise found admin_not_set
    gets (λ s. first_or admin s.arbitrators)

  -- The lines that `file_dispute` and `raise_dispute` share.
  unfoldable pub open_dispute : Ledger → Address → ℕ → Bytes → Action W ℕ
  unfolding get_plan check_not_paused current_arbitrator
  open_dispute l disputer plan_id reason = do
    require_auth l disputer
    check_not_paused
    get_plan plan_id
    dispute_id ← gets (λ s. or_default 0 s.next_dispute_id)
    arbitrator ← current_arbitrator
    set_dispute dispute_id (record {
      dispute_id = dispute_id;
      plan_id = plan_id;
      disputer = disputer;
      reason = reason;
      status = filed;
      filed_at = l.timestamp;
      resolved_at = 0;
      resolution_notes = [];
      arbitrator = arbitrator;
    })
    modify (λ s. record s {
      plan_disputes = update plan_id (s.plan_disputes plan_id ++ dispute_id ∷ []) s.plan_disputes;
    })
    following ← add_below u64_mod dispute_id 1
    modify (λ s. record s { next_dispute_id = some following })
    pure dispute_id

  unfoldable pub file_dispute : Ledger → Address → ℕ → Bytes → Action W ℕ
  file_dispute l disputer plan_id reason = do
    dispute_id ← open_dispute l disputer plan_id reason
    emit (dispute_filed dispute_id plan_id disputer reason l.timestamp)
    pure dispute_id

  unfoldable pub raise_dispute : Ledger → ℕ → Address → Action W ℕ
  raise_dispute l plan_id challenger = do
    dispute_id ← open_dispute l challenger plan_id dispute_raised_text
    freeze plan_id (record {
      plan_id = plan_id;
      frozen_at = l.timestamp;
      reason = dispute_text;
      frozen_by = challenger;
    })
    emit (dispute_raised dispute_id plan_id challenger dispute_raised_text l.timestamp)
    emit (plan_frozen_for plan_id dispute_id l.timestamp)
    pure dispute_id

  unfoldable pub review_dispute :
      Ledger → Address → ℕ → DisputeStatus → Bytes → Bool → Action W (Unit {0})
  unfolding check_not_paused
  review_dispute l arbitrator dispute_id new_status resolution_notes freeze_plan = do
    require_auth l arbitrator
    check_not_paused
    found ← gets (λ s. s.disputes dispute_id)
    r ← or_raise found plan_not_found
    listed ← gets (λ s. contains s.arbitrators arbitrator)
    raise_if (not listed) unauthorized
    raise_if (not (is_pending r.status)) already_approved
    let resolved_at = if is_pending new_status then r.resolved_at else l.timestamp
    set_dispute dispute_id (record r {
      status = new_status;
      resolution_notes = resolution_notes;
      resolved_at = resolved_at;
    })
    if freeze_plan
        then (do
          freeze r.plan_id (record {
            plan_id = r.plan_id;
            frozen_at = l.timestamp;
            reason = dispute_text;
            frozen_by = arbitrator;
          })
          emit (plan_frozen r.plan_id arbitrator l.timestamp dispute_text))
        else pure tt
    if is_pending new_status
        then pure tt
        else emit (dispute_resolved dispute_id r.plan_id new_status arbitrator resolved_at)

  unfoldable pub unfreeze_plan : Ledger → Address → ℕ → Action W (Unit {0})
  unfreeze_plan l admin plan_id = do
    require_admin l admin
    unfreeze plan_id
    emit (plan_unfrozen plan_id admin l.timestamp)

  -- One dispute of the loop in `resolve_dispute`: a pending one is decided.
  abbrev pub decide : Ledger → ℕ → Bool → Address → ℕ → Option DisputeRecord → Action W (Unit {0})
  decide l plan_id approve arbitrator dispute_id none = pure tt
  decide l plan_id approve arbitrator dispute_id (some r) =
      if is_pending r.status
      then (do
        set_dispute dispute_id (decided approve l.timestamp r)
        emit (
            dispute_resolved dispute_id plan_id (if approve then resolved else rejected) arbitrator
              l.timestamp))
      else pure tt

  unfoldable pub decide_each : Ledger → ℕ → Bool → Address → List ℕ → Action W (Unit {0})
  decide_each l plan_id approve arbitrator [] = pure tt
  decide_each l plan_id approve arbitrator (dispute_id ∷ rest) = do
    found ← gets (λ s. s.disputes dispute_id)
    decide l plan_id approve arbitrator dispute_id found
    decide_each l plan_id approve arbitrator rest

  unfoldable pub resolve_dispute : Ledger → ℕ → Bool → Action W (Unit {0})
  resolve_dispute l plan_id approve = do
    check_not_paused
    arbitrator ← current_arbitrator
    require_auth l arbitrator
    plan_disputes ← gets (λ s. s.plan_disputes plan_id)
    raise_if (is_empty plan_disputes) plan_not_found
    decide_each l plan_id approve arbitrator plan_disputes
    unfreeze plan_id
    emit (plan_unfrozen_for plan_id 0 l.timestamp)
