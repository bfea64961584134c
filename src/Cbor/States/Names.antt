-- ===== src/Cbor/States/Names.antt =====
-- The states of sector_state.go and their strings.
use text.Mathlib.Text.{◌==◌}
use text.Mathlib.TextEquality.{eq_iff}
use Prim.Native.String.{count}
use storage_fsm.Base.{
  ◌≤◌, ◌≡◌, refl, Bool, true, false, List, [], ◌∷◌, String, if◌then◌else◌, arith,
}
use storage_fsm.Sector.{SectorState}
use storage_fsm.Cbor.States.{state_text, state_of, constants, find_state}

abbrev pub is_constant : SectorState → Bool
is_constant (SectorState.other name) = false
is_constant _ = true

found : (sts : List SectorState) (v : String) → state_text (find_state sts v) ≡ v
unfolding state_text
found [] v = refl
found (st ∷ sts) v = by (state_text st == v) (λ h. (eq_iff (state_text st) v).0 h) (found sts v)
  where
    by :
        (b : Bool)
        → (b ≡ true → state_text st ≡ v)
        → state_text (find_state sts v) ≡ v
        → state_text (if b then st else find_state sts v) ≡ v
    by true h rest = h refl
    by false h rest = rest

pub constants_named : (st : SectorState) → is_constant st ≡ true → state_of (state_text st) ≡ st
unfolding state_of state_text
constants_named (SectorState.other name) h = absurd (ground arith)
constants_named st h = refl

-- The string of a constant has at most 20 characters.
pub constants_are_short : (st : SectorState) → is_constant st ≡ true → count (state_text st) ≤ 20
unfolding state_text
constants_are_short (SectorState.other name) h = absurd (ground arith)
constants_are_short st h = omega arith

-- The conversion of a string to a state loses nothing: in Go it is the identity.
state_text-state_of : (v : String) → state_text (state_of v) ≡ v
unfolding state_of
state_text-state_of v = found constants v
