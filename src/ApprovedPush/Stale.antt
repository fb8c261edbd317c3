-- ===== src/ApprovedPush/Stale.antt =====
-- What the base record of an approved push says of the skills that were not approved.
use skill_sync_sidecar.Common.{String}
use skill_sync_sidecar.Common.{Bool, ◌&&◌}
use skill_sync_sidecar.Common.{some, List}
use skill_sync_sidecar.Common.{◌==◌, option_eq, string_eq, nat_eq}
use skill_sync_sidecar.Common.{truthy}
use skill_sync_sidecar.Common.{any_of}
use skill_sync_sidecar.Skill.{Entry}

-- Whether there is an entry of the skill with that content hash.
abbrev pub has_version : String → String → List Entry → Bool
has_version k h es = any_of (λ e. truthy e.skill_id == some k && truthy e.content_hash == some h) es

abbrev pub is_recorded : String → String → List (String × String) → Bool
is_recorded k h base = any_of (λ p. p.0 == k && p.1 == h) base
