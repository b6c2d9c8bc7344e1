-- ===== src/Bitvector/Tests.antt =====
-- A vector of 64 bits.
use libmowgli.Base.{◌≡◌, none, true}
use libmowgli.Bitvector.{create, set, get}
use libmowgli.Bitvector.Bounds.{create-IsSized, set_outside}

set_outside_example : (set (create 64) 5 true ≡ none) × (get (create 64) 5 ≡ none)
set_outside_example = set_outside (create 64) 5 true (create-IsSized 64)
