-- ===== src/Units/Versions.antt =====
-- A handle is its version and its slot.
use behavioral_model.Base.{ℕ, ◌^◌, ◌<◌, ◌≡◌, arith}
use behavioral_model.Units.{handle_version, handle_internal, handle_set}

pub handle_set-internal : (v i : ℕ) → i < 2 ^ 32 → handle_internal (handle_set v i) ≡ i
unfolding handle_set handle_internal
handle_set-internal v i small = omega arith

pub handle_set-version : (v i : ℕ) → v < 2 ^ 32 → i < 2 ^ 32 → handle_version (handle_set v i) ≡ v
unfolding handle_set handle_version
handle_set-version v i small small' = omega arith

pub handle-eq :
    (h h' : ℕ)
    → handle_version h ≡ handle_version h'
    → handle_internal h ≡ handle_internal h'
    → h ≡ h'
unfolding handle_version handle_internal
handle-eq h h' version slot = omega (arith, version, slot)
