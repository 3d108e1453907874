-- ===== src/ModeChange/Adjust.antt =====
-- `mode_adjust` of utils/modechange.c (under src/).
pub mod Unaffected
use yafc.Base.{ℕ, ◌/◌, ◌%◌, ◌^◌, Bool, not, ◌&&◌, List, [], ◌∷◌, ◌==◌, if◌then◌else◌}
use yafc.ModeChange.Mode.{
  Mode, bits_of, mask, ◌∩◌, ◌∪◌, complement, shift_right, shift_left, no_bits, rwx_user, rwx_group,
  rwx_other, max_mode, execute, nonzero, Operation, assign, plus, minus, Change, Flags, no_flags,
}

-- The value of a change for the mode reached so far.
unfoldable pub change_value : Bool → Mode → Change → Mode
change_value is_dir new mc =
    let value = new ∩ mc.value in
    if mc.copy_existing
    then (if nonzero (mc.value ∩ rwx_user)
        then (value ∪ shift_right value 3 ∪ shift_right value 6) ∩ mc.affected
        else if nonzero (mc.value ∩ rwx_group)
        then (value ∪ shift_left value 3 ∪ shift_right value 3) ∩ mc.affected
        else (value ∪ shift_left value 3 ∪ shift_left value 6) ∩ mc.affected)
    else if mc.x_if_any && not is_dir && not (nonzero (new ∩ execute))
    then mc.value ∩ complement execute
    else mc.value

abbrev pub apply : Operation → Mode → Mode → Mode → Mode
apply assign new affected value = (new ∩ complement affected) ∪ value
apply plus new affected value = new ∪ value
apply minus new affected value = new ∩ complement value

unfoldable pub adjust : Bool → Mode → List Change → Mode
unfolding change_value
adjust is_dir new [] = new
adjust is_dir new (mc ∷ rest) =
    adjust is_dir (apply mc.op new mc.affected (change_value is_dir new mc)) rest

-- S_ISDIR looks at the file type bits of the old mode.
unfoldable pub mode_adjust : ℕ → List Change → Mode
unfolding adjust
mode_adjust oldmode mc = adjust (oldmode / 2 ^ 12 % 16 == 4) (bits_of oldmode ∩ max_mode) mc
