-- ===== src/Fanout/Execute/Names.antt =====
-- The names of a plan's items: they are apart from each other and from the temporary names.
use skill_sync_sidecar.Common.{String, ◌<>◌, ◌≡◌, refl, sym}
use skill_sync_sidecar.Common.{ap, ◌≢◌, true, false}
use skill_sync_sidecar.Common.{List, [], ◌∷◌, ◌++◌, arith}
use skill_sync_sidecar.Common.{contains, option_eq, string_eq, nat_eq}
use skill_sync_sidecar.Common.{All}
use skill_sync_sidecar.Common.Text.{starts_with, starts_with-append}
use skill_sync_sidecar.Common.Sorted.{NodupTexts, contains-append}
use skill_sync_sidecar.Fanout.Items.{FanoutItem}
use skill_sync_sidecar.Fanout.Execute.{Place, temp_name}
use skill_sync_sidecar.Fanout.{Disk}
use skill_sync_sidecar.Fanout.Execute.Runs.{names, temps, IsApart, AreFit}

abbrev pub IsVisible : String → Type 0
IsVisible n = starts_with "." n ≡ false

pub temp_name-hidden : (run_id name : String) → starts_with "." (temp_name run_id name) ≡ true
unfolding temp_name
temp_name-hidden run_id name = starts_with-append "." (name <> (".skill-sync-tmp-" <> run_id))

pub differs : (a run_id name : String) → IsVisible a → a ≢ temp_name run_id name
differs a run_id name v e = ground (arith, temp_name-hidden run_id name)

pub differs_too : (a run_id name : String) → IsVisible a → temp_name run_id name ≢ a
differs_too a run_id name v e = differs a run_id name v (sym e)

pub not_among_temps :
    (run_id a : String) (items : List FanoutItem)
    → IsVisible a
    → contains (temps run_id items) a ≡ false
not_among_temps run_id a [] v = refl
not_among_temps run_id a (item ∷ items) v =
    ground (arith, not_among_temps run_id a items v, differs a run_id item.name v)

pub temp_not_among :
    (run_id name : String) (items : List FanoutItem)
    → All (λ item. IsVisible item.name) items
    → contains (names items) (temp_name run_id name) ≡ false
temp_not_among run_id name [] v = refl
temp_not_among run_id name (item ∷ items) (v, vs) =
    ground (arith, temp_not_among run_id name items vs, differs_too item.name run_id name v)

pub distinct-IsApart :
    (run_id : String) (items : List FanoutItem)
    → NodupTexts (names items)
    → All (λ item. IsVisible item.name) items
    → IsApart run_id items
distinct-IsApart run_id [] u v = tt
distinct-IsApart run_id (item ∷ items) (fresh, u) (v, vs) = (
  differs item.name run_id item.name v,
  fresh,
  not_among_temps run_id item.name items v,
  temp_not_among run_id item.name items vs,
  distinct-IsApart run_id items u vs,
)

pub NodupTexts-append :
    (xs ys : List String)
    → NodupTexts xs
    → NodupTexts ys
    → ((a : String) → contains ys a ≡ true → contains xs a ≡ false)
    → NodupTexts (xs ++ ys)
NodupTexts-append [] ys u w apart = w
NodupTexts-append (x ∷ xs) ys (fresh, u) w apart = (
  rw contains-append (ground (arith, apart x)),
  NodupTexts-append xs ys u w (λ a m. ground (arith, apart a m)),
)

pub All-append :
    {A : Type 0} (P : A → Type 0) (xs ys : List A) → All P xs → All P ys → All P (xs ++ ys)
All-append P [] ys v w = w
All-append P (x ∷ xs) ys (v, vs) w = (v, All-append P xs ys vs w)

pub AreFit-append :
    (D : Disk) (canonical : String) (p : Place) (xs ys : List FanoutItem)
    → AreFit D canonical p xs
    → AreFit D canonical p ys
    → AreFit D canonical p (xs ++ ys)
AreFit-append D canonical p [] ys v w = w
AreFit-append D canonical p (x ∷ xs) ys (a, b, v) w = (a, b, AreFit-append D canonical p xs ys v w)

pub names-append : (xs ys : List FanoutItem) → names (xs ++ ys) ≡ names xs ++ names ys
names-append [] ys = refl
names-append (x ∷ xs) ys = ap (λ ns. x.name ∷ ns) (names-append xs ys)
