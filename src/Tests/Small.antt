-- ===== src/Tests/Small.antt =====
-- The methods of a record and of a receipt.
use storage_fsm.Base.{◌≡◌, ◌↔◌, true, [], ◌∷◌}
use storage_fsm.Base.Int.{ℤ}
use storage_fsm.Sector.{MessageReceipt, equals}
use storage_fsm.Sector.Methods.{equals_iff}

abbrev receipt : MessageReceipt
receipt = record { exit_code = ℤ.pos 0; return = 1 ∷ []; gas_used = ℤ.pos 7 }

equals_iff_example :
    (equals receipt (record receipt { return = [] }) ≡ true)
    ↔ (receipt ≡ record receipt { return = [] })
equals_iff_example = equals_iff receipt (record receipt { return = [] })
