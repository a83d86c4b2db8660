-- ===== src/Lease/Domain/Permissions.antt =====
-- The permissions of a lease: their order, their uniqueness, and `set(a).issubset(b)`.
use edgeiq.Base.{Bool, true, false, ◌&&◌, List, [], ◌∷◌, ◌==◌, any, if◌then◌else◌}
use edgeiq.Platform.{text_le}
use edgeiq.Lease.Domain.Types.{LeasePermission, permission_text, permission_eq}

insert_permission : LeasePermission → List LeasePermission → List LeasePermission
insert_permission k [] = k ∷ []
insert_permission k (j ∷ ks) =
    let rest = insert_permission k ks in
    if text_le (permission_text k) (permission_text j) then k ∷ j ∷ ks else j ∷ rest

-- `sorted(…, key=lambda item: item.value)`.
unfoldable pub sorted_permissions : List LeasePermission → List LeasePermission
unfolding insert_permission text_le
sorted_permissions [] = []
sorted_permissions (k ∷ ks) = insert_permission k (sorted_permissions ks)

abbrev pub has_permission : LeasePermission → List LeasePermission → Bool
has_permission k ks = any (λ j. k == j) ks

unfoldable pub unique_permissions : List LeasePermission → Bool
unique_permissions [] = true
unique_permissions (k ∷ ks) =
    let rest = unique_permissions ks in if has_permission k ks then false else rest

unfoldable pub permitted : List LeasePermission → List LeasePermission → Bool
permitted [] ks = true
permitted (j ∷ js) ks = has_permission j ks && permitted js ks

abbrev pub no_permissions : List LeasePermission → Bool
no_permissions [] = true
no_permissions (k ∷ ks) = false
