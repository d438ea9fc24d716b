-- ===== src/Events/Keys.antt =====
-- crates/events/src/scheduler.rs: the keys under which leases, locks and slots are kept.
use alpha_swarm.Prelude.{
  ℕ, Text, text, [], ◌∷◌, ◌++◌, Bool, true, ◌||◌, ◌&&◌, leb, nat_eq, decimal, if◌then◌else◌, ◌≡◌,
  refl, arith,
}

abbrev pub execution_lock_key : Text
execution_lock_key = text "goal-execution-lock"

-- `is_ascii_alphanumeric`, and the other characters of a key.
abbrev pub is_safe : ℕ → Bool
is_safe b =
    ((leb b'0' b && leb b b'9') || ((leb b'A' b && leb b b'Z') || (leb b'a' b && leb b b'z')))
    || (nat_eq b b'.' || (nat_eq b b'_' || nat_eq b b'-'))

-- The map over the characters of a valid text, byte by byte: the first byte of a longer character
-- becomes an underscore and its further bytes, from 128 to 191, go.
unfoldable pub sanitize_key : Text → Text
sanitize_key [] = []
sanitize_key (b ∷ bs) =
    let rest = sanitize_key bs in
    if leb 128 b && leb b 191
    then rest
    else if nat_eq b b':'
    then b'.' ∷ rest
    else if is_safe b
    then b ∷ rest
    else b'_' ∷ rest

abbrev pub task_key : Text → Text
task_key run_id = text "task." ++ sanitize_key run_id

abbrev pub lease_key : Text → Text
lease_key run_id = text "lease." ++ sanitize_key run_id

abbrev pub project_lock_key : Text → Text
project_lock_key project = execution_lock_key ++ (text "." ++ sanitize_key project)

abbrev pub slot_key : ℕ → Text
slot_key i = execution_lock_key ++ (text ".slot-" ++ decimal i)

abbrev pub AllSafe : Text → Type 0
AllSafe [] = Unit
AllSafe (b ∷ bs) = (is_safe b ≡ true) × AllSafe bs

-- A sanitized text has only the characters that a key may have, and sanitizing it again leaves it.
pub sanitize_key_lem :
    (t : Text) → AllSafe (sanitize_key t) × (sanitize_key (sanitize_key t) ≡ sanitize_key t)
unfolding sanitize_key
sanitize_key_lem [] = (tt, refl)
sanitize_key_lem (b ∷ bs) = ground (arith, sanitize_key_lem bs)
